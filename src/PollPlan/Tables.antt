-- ===== src/PollPlan/Tables.antt =====
-- custom_components/zte_router_5g/poll_plan.py: the constant tables and the tests on a name and on
-- the network mode.
use Prim.Native.Char.{code}
use ha_zte_router_5g_monitor.Prelude.{
  ℕ, ◌*◌, String, Bool, true, false, ◌||◌, Option, none, some, List, [], ◌∷◌, any, starts_with,
  if◌then◌else◌, ◌==◌,
}
use ha_zte_router_5g_monitor.Prelude.Names.{member}
use ha_zte_router_5g_monitor.Value.{Value, text, truthy, str_of, strip}

-- `ALWAYS_POLLED`.
unfoldable pub always_polled : List String
always_polled =
    "network_type" ∷ "strBearer" ∷ "signalbar" ∷ "system_uptime" ∷ "realtime_time"
    ∷ "flux_realtime_time" ∷ "flux_system_uptime" ∷ "wan_connect_status" ∷ "ppp_status"
    ∷ "dial_mode" ∷ "modem_main_state" ∷ "total_time" ∷ "flux_total_time" ∷ "ngbr_cell_info"
    ∷ "psw_fail_num_str" ∷ "login_lock_time" ∷ "imei" ∷ "wa_inner_version" ∷ "model_name"
    ∷ "opms_wan_mode" ∷ "opms_wan_auto_mode" ∷ "cell_id" ∷ "network_cell_id" ∷ "network_provider"
    ∷ "strFullName" ∷ "strShortName" ∷ "wan_apn" ∷ "wan_apn_ui" ∷ "wan_ipaddr" ∷ "apn_index"
    ∷ "apn_mode" ∷ "ODU_led_switch" ∷ "data_volume_alert_percent" ∷ "data_volume_clear_date"
    ∷ "data_volume_clear_day" ∷ "data_volume_limit_size" ∷ "data_volume_limit_switch"
    ∷ "data_volume_limit_unit" ∷ "flux_auto_clear_flow_data_switch" ∷ "flux_clear_date"
    ∷ "flux_data_volume_alert_percent" ∷ "flux_data_volume_limit_size"
    ∷ "flux_data_volume_limit_switch" ∷ "flux_data_volume_limit_unit" ∷ "traffic_clear_date"
    ∷ "wan_auto_clear_flow_data_switch" ∷ "sms_nv_total" ∷ "sms_nv_rev_total" ∷ "sms_nv_send_total"
    ∷ "sms_nv_draftbox_total" ∷ "sms_sim_total" ∷ "sms_sim_rev_total" ∷ "sms_sim_send_total"
    ∷ "sms_sim_draftbox_total" ∷ "sntp_dst_enable" ∷ "sntp_server1" ∷ "sntp_server2"
    ∷ "alg_sip_enable" ∷ "reboot_dod" ∷ "reboot_dow" ∷ "reboot_hour1" ∷ "reboot_hour2"
    ∷ "reboot_min1" ∷ "reboot_min2" ∷ "reboot_schedule_enable" ∷ "reboot_schedule_mode"
    ∷ "upnpEnabled" ∷ "wan_lte_ca" ∷ "web_sleep_switch" ∷ "web_wake_switch" ∷ []

-- `ALWAYS_POLLED_PREFIXES`.
abbrev pub always_polled_prefixes : List String
always_polled_prefixes = "APN_config" ∷ []

abbrev pub full_poll_every : ℕ
full_poll_every = 30

-- `timedelta(hours=24)`, in microseconds, the resolution of a `datetime`.
abbrev pub full_poll_max_age : ℕ
full_poll_max_age = 86400 * 1000000

abbrev pub rotation : ℕ
rotation = 5

abbrev pub diagnostics_reason : String
diagnostics_reason = "diagnostics download"

abbrev pub first_poll_reason : String
first_poll_reason = "first poll"

-- `_always`.
unfoldable pub always : String → Bool
always name = member name always_polled || any (starts_with name) always_polled_prefixes

-- `_5G_MODES` and `_LTE_MODES`.
abbrev pub modes_5g : List String
modes_5g = "ENDC" ∷ "EN-DC" ∷ []

abbrev pub modes_lte : List String
modes_lte = "LTE-NSA" ∷ "LTE" ∷ "" ∷ []

abbrev prefixes_5g : List String
prefixes_5g = "5g_" ∷ "z5g_" ∷ "Z5g_" ∷ "nr5g_" ∷ "nr_" ∷ "Nr_" ∷ []

-- The text behind a prefix, where the text has it.
after_prefix : String → String → Option String
after_prefix String.[] s = some s
after_prefix (String.◌∷◌ p ps) String.[] = none
after_prefix (String.◌∷◌ p ps) (String.◌∷◌ c cs) =
    let rest = after_prefix ps cs in if code p == code c then rest else none

-- `_5G_NAME.match(name)`: the group `network_` is optional, so both readings are tried.
unfoldable pub is_5g_name : String → Bool
unfolding after_prefix
is_5g_name name =
    let bare = any (starts_with name) prefixes_5g in
    elim (after_prefix "network_" name) [
      | none ↦ bare
      | some rest ↦ any (starts_with rest) prefixes_5g || bare
    ]

-- `is_5g_mode`.
unfoldable pub is_5g_mode : Value → Bool
is_5g_mode network_type =
    let value = strip (str_of (if truthy network_type then network_type else text "")) in
    if member value modes_5g then true else if member value modes_lte then false else true
