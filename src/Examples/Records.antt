-- ===== src/Examples/Records.antt =====
-- The records of the observations and the plans of the bulk action, at concrete inputs.
use ha_zte_router_5g_monitor.Prelude.{
  ◌≤◌, ◌≡◌, ◌≢◌, refl, true, false, ◌||◌, none, some, [], ◌∷◌, arith,
}
use ha_zte_router_5g_monitor.Prelude.Names.{member}
use ha_zte_router_5g_monitor.Prelude.Int.{pos}
use ha_zte_router_5g_monitor.Value.{Payload, text, read}
use ha_zte_router_5g_monitor.Observations.{
  Records, Described, observe, change_count, entity_keys_with_values,
}
use ha_zte_router_5g_monitor.Observations.Chains.{chained}
use ha_zte_router_5g_monitor.Observations.Kept.{IsChained, observe-IsChained, observe_remembers}
use ha_zte_router_5g_monitor.ResetEntities.{
  Request, RegistryEntry, Planner, change, plan, rows, wanted, baseline, maybe_disable,
}
use ha_zte_router_5g_monitor.ResetEntities.Plans.{populated_is_protected}
use ha_zte_router_5g_monitor.ResetEntities.Rows.{IsDue, plan_respects}

abbrev no_records : Records
no_records = record {
  history = [];
  change_counts = [];
  counter_resets = [];
  populated = [];
  since = none;
  last_counter = some (pos 900);
}

abbrev answer_payload : Payload
answer_payload = ("wan_ipaddr", text "10.0.0.1") ∷ ("cell_id", text "17") ∷ []

abbrev ip_entity : Described
ip_entity = record {
  key = "wan_ip";
  state_keys = [];
  value_fn = some (λ d. some (read d "wan_ipaddr"));
}

chained_nil : chained [] ≡ true
unfolding chained
chained_nil = refl

no_records-IsChained : IsChained no_records
no_records-IsChained = record { chain = λ k. chained_nil; few = λ k. omega arith }

observe-IsChained_example :
    IsChained (observe (ip_entity ∷ []) none (some (pos 5)) answer_payload "12:00" no_records).0
observe-IsChained_example =
    observe-IsChained (ip_entity ∷ []) none (some (pos 5)) answer_payload "12:00" no_records
      no_records-IsChained

observe_remembers_example :
    (change_count no_records "wan_ipaddr"
      ≤ change_count
          (observe (ip_entity ∷ []) none (some (pos 5)) answer_payload "12:00" no_records).0
          "wan_ipaddr")
    × (member "wan_ipaddr"
          (observe
            (ip_entity ∷ [])
            none
            (some (pos 5))
            answer_payload
            "12:00"
            no_records).0.populated
        ≡ (member "wan_ipaddr" no_records.populated
            || member "wan_ipaddr" (entity_keys_with_values (ip_entity ∷ []) answer_payload)))
observe_remembers_example =
    observe_remembers (ip_entity ∷ []) none (some (pos 5)) answer_payload "12:00" no_records
      "wan_ipaddr"

abbrev cleanup : Request
cleanup = record {
  reset_to_default = false;
  save_snapshot = false;
  restore_snapshot = false;
  enable_populated = true;
  disable_unavailable = true;
  disable_unknown = true;
  include_ever_populated = false;
  preserve_user_customized = true;
  dry_run = false;
  exclude_entities = [];
}

abbrev planner : Planner
planner = record {
  request = cleanup;
  snapshot = [];
  reporting = "rsrp" ∷ [];
  ever_populated = "nr_rsrp" ∷ [];
  described = λ platform key. some true;
}

abbrev blank_5g : RegistryEntry
blank_5g = record {
  entity_id = "sensor.nr_rsrp";
  platform = "sensor";
  key = "nr_rsrp";
  disabled_by = none;
  state = some "unavailable";
}

abbrev blank_apn : RegistryEntry
blank_apn = record {
  entity_id = "sensor.apn";
  platform = "sensor";
  key = "apn";
  disabled_by = none;
  state = some "unknown";
}

populated_is_protected_example : change planner blank_5g ≢ some false
populated_is_protected_example = populated_is_protected planner blank_5g refl refl refl refl

apn_row : member "sensor.apn" (plan planner (blank_5g ∷ blank_apn ∷ [])).to_disable ≡ true
unfolding plan rows change wanted baseline maybe_disable
apn_row = refl

plan_respects_example : IsDue planner false "sensor.apn" (blank_5g ∷ blank_apn ∷ [])
plan_respects_example = plan_respects planner (blank_5g ∷ blank_apn ∷ []) false "sensor.apn" apn_row
