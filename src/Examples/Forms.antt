-- ===== src/Examples/Forms.antt =====
-- The form of the data volume at concrete inputs.
use ha_zte_router_5g_monitor.Prelude.{◌≡◌, refl, some, List, [], ◌∷◌, String}
use ha_zte_router_5g_monitor.Prelude.Dict.{Dict, get, put}
use ha_zte_router_5g_monitor.Value.{Payload, text, blank, str_of}
use ha_zte_router_5g_monitor.Api.Volume.{
  Field, data_volume_fields, value_of, name_of, answered, collect, form_of, volume_form,
}
use ha_zte_router_5g_monitor.Api.Volume.Carries.{IsName, IsValue, volume_form_carries}

-- A router that answers the spellings with `flux_`, or the plain ones.
abbrev polled : Payload
polled =
    ("flux_data_volume_limit_switch", text "0")
    ∷ ("data_volume_limit_switch", text "")
    ∷ ("data_volume_limit_unit", text "GB")
    ∷ ("data_volume_limit_size", text "50")
    ∷ ("data_volume_alert_percent", text "80")
    ∷ ("wan_auto_clear_flow_data_switch", text "1")
    ∷ ("flux_clear_date", text "14")
    ∷ []

abbrev spelled : String → String
spelled field = field

abbrev turned_on : Dict String
turned_on = ("data_volume_limit_switch", "1") ∷ []

abbrev sent_form : Dict String
sent_form =
    ("flux_data_volume_limit_switch", "1")
    ∷ ("data_volume_limit_unit", "GB")
    ∷ ("data_volume_limit_size", "50")
    ∷ ("data_volume_alert_percent", "80")
    ∷ ("wan_auto_clear_flow_data_switch", "1")
    ∷ ("flux_clear_date", "14")
    ∷ []

abbrev switch_field : Field
switch_field =
    ("data_volume_limit_switch", "data_volume_limit_switch" ∷ "flux_data_volume_limit_switch" ∷ [])

abbrev tail_of : List Field → List Field
tail_of [] = []
tail_of (f ∷ fs) = fs

volume_form_carries_example :
    (key : String) × (v : String) × IsName spelled polled turned_on key switch_field
    × IsValue spelled polled turned_on key v switch_field
    × (get sent_form key ≡ some v)
unfolding answered name_of value_of collect form_of volume_form blank put str_of
volume_form_carries_example =
    volume_form_carries spelled polled turned_on [] switch_field (tail_of data_volume_fields)
      sent_form refl refl refl
