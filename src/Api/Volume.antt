-- ===== src/Api/Volume.antt =====
-- `set_data_volume_settings` (custom_components/zte_router_5g/api.py): the form of the data volume, which
-- the router takes whole or not at all. The names that the profile of the device has for fields are an
-- argument; the token and the request are left out.
pub mod Carries
use ha_zte_router_5g_monitor.Prelude.{
  ◌≡◌, refl, Bool, true, false, not, Option, none, some, List, [], ◌∷◌, ◌++◌, String, str_eq, any,
  all, first_where, if◌then◌else◌, arith, Option-cases, Bool-cases, inl, inr, eq_refl, eq_iff,
  subst, sym, ap, ◌⊎◌,
}
use ha_zte_router_5g_monitor.Prelude.Dict.{Dict, get, put, get-put}
use ha_zte_router_5g_monitor.Prelude.Names.{member}
use ha_zte_router_5g_monitor.Value.{Payload, read, blank, str_of}
use ha_zte_router_5g_monitor.Api.Batch.{is_filled}

-- A field of the form: its name, and the keys that may answer it.
abbrev pub Field : Type 0
Field = String × List String

-- `DATA_VOLUME_FIELDS`.
abbrev pub data_volume_fields : List Field
data_volume_fields =
    ("data_volume_limit_switch", "data_volume_limit_switch" ∷ "flux_data_volume_limit_switch" ∷ [])
    ∷ ("data_volume_limit_unit", "data_volume_limit_unit" ∷ "flux_data_volume_limit_unit" ∷ [])
    ∷ ("data_volume_limit_size", "data_volume_limit_size" ∷ "flux_data_volume_limit_size" ∷ [])
    ∷ (
      "data_volume_alert_percent",
      "data_volume_alert_percent" ∷ "flux_data_volume_alert_percent" ∷ [],
    )
    ∷ (
      "wan_auto_clear_flow_data_switch",
      "wan_auto_clear_flow_data_switch" ∷ "flux_auto_clear_flow_data_switch" ∷ [],
    )
    ∷ (
      "traffic_clear_date",
      "traffic_clear_date" ∷ "data_volume_clear_date" ∷ "data_volume_clear_day" ∷ "flux_clear_date"
          ∷ [],
    )
    ∷ []

-- How the form comes out: its fields, or a `ZTEConnectionError` that names the fields missing, or a
-- ValueError for a change of another field.
pub data Form : Type 0 where
  form : Dict String → Form
  incomplete : List String → Form
  unknown_field : Form

module _ (profile : String → String) (current : Payload) (changes : Dict String) where
  -- `answered`: the first key with a value.
  unfoldable pub answered : Field → Option String
  answered (field, aliases) = first_where (λ key. not (blank (read current key))) aliases

  -- The name that the field has in the form.
  unfoldable pub name_of : Field → String
  name_of f = elim (answered f) [ none ↦ profile f.0 | some key ↦ key ]

  -- Its value: the change, or what the last poll answered.
  unfoldable pub value_of : Field → Option String
  value_of f = elim (get changes f.0) [
    | some v ↦ some v
    | none ↦ elim (answered f) [ none ↦ none | some key ↦ some (str_of (read current key)) ]
  ]

  -- The loop, with `payload_fields` and `missing`.
  unfoldable pub collect : List Field → Dict String → List String → Dict String × List String
  collect [] payload missing = (payload, missing)
  collect (f ∷ fs) payload missing = elim (value_of f) [
    | none ↦ collect fs payload (missing ++ f.0 ∷ [])
    | some v ↦ collect fs (put payload (name_of f) v) missing
  ]

  is_field : String × String → Bool
  is_field (k, v) = any (λ (f : Field). str_eq f.0 k) data_volume_fields

  -- The form for some fields, and that of `set_data_volume_settings`.
  unfoldable pub form_of : List Field → Form
  unfolding is_field
  form_of fields =
      let (payload, missing) = collect fields [] [] in
      if is_filled missing
      then incomplete missing
      else if all is_field changes
      then form payload
      else unknown_field

  unfoldable pub volume_form : Form
  volume_form = form_of data_volume_fields
