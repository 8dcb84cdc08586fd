-- ===== src/Examples/Plans.antt =====
-- The poll plan, at concrete inputs.
use ha_zte_router_5g_monitor.Prelude.{
  ℕ, zero, suc, ◌+◌, ◌≡◌, ◌≢◌, refl, Bool, true, false, ◌&&◌, not, none, some, List, [], ◌∷◌, arith,
  String, any, all, eq_iff, str_eq,
}
use ha_zte_router_5g_monitor.Prelude.Names.{member, difference}
use ha_zte_router_5g_monitor.Prelude.Int.{pos}
use ha_zte_router_5g_monitor.Value.{Payload, text, int}
use ha_zte_router_5g_monitor.PollPlan.Tables.{first_poll_reason}
use ha_zte_router_5g_monitor.PollPlan.Plan.{PollPlan, new}
use ha_zte_router_5g_monitor.PollPlan.Selection.{live_consumers}
use ha_zte_router_5g_monitor.PollPlan.Selection.Keeps.{read_by_disabled}
use ha_zte_router_5g_monitor.PollPlan.Readers.{Fn, Reader}
use ha_zte_router_5g_monitor.PollPlan.Lifecycle.{load, to_store}
use ha_zte_router_5g_monitor.PollPlan.Lifecycle.Store.{load-to_store}
use ha_zte_router_5g_monitor.Coordinator.PlanUpdate.{Learner}
use ha_zte_router_5g_monitor.Coordinator.PlanUpdate.Cycle.{
  Poll, fulls, cycles, thirty_polls_full, owed_until_fresh,
}

-- Two names that one enabled entity reads; the second has answered.
abbrev plan_of_two : PollPlan
plan_of_two = record {
  universe = "tx_power" ∷ "pm_sensor_mdm" ∷ [];
  answered = "pm_sensor_mdm" ∷ [];
  readers = ("power", "tx_power" ∷ []) ∷ ("heat", "pm_sensor_mdm" ∷ []) ∷ [];
  consumers = ("tx_power", "power" ∷ []) ∷ ("pm_sensor_mdm", "heat" ∷ []) ∷ [];
  disabled = [];
  polls = 7;
  full_reasons = [];
  sweep_5g = false;
  last_full = some 0;
  last_kind = "narrowed";
  last_requested = 1;
  last_5g = none;
}

-- The plans of ten polls in a row that learn nothing.
abbrev plan_at : ℕ → PollPlan
plan_at k = record plan_of_two { polls = 7 + k }

abbrev narrowed : ℕ → Bool
narrowed k = false

heat_read : read_by_disabled (live_consumers plan_of_two "pm_sensor_mdm") ≡ false
unfolding live_consumers difference
heat_read = refl

abbrev power_reader : Reader
power_reader = record { entity = "power"; fns = Fn.done (text "") ∷ [] }

abbrev power_payload : Payload
power_payload = ("tx_power", text "12") ∷ ("uptime_seconds", int (pos 60)) ∷ []

abbrev firmware : String
firmware = "MC7010V1"

abbrev no_firmware : String
no_firmware = ""

firmware_named : firmware ≢ no_firmware
firmware_named = ground (arith, eq_iff firmware no_firmware)

load-to_store_example :
    ((n : String)
      → member n (load (to_store firmware plan_of_two) (new [])).0.answered
        ≡ member n plan_of_two.answered)
    × ((load (to_store firmware plan_of_two) (new [])).1 ≡ firmware)
    × ((r : String)
        → member r (load (to_store firmware plan_of_two) (new [])).0.full_reasons
          ≡ (not (str_eq first_poll_reason r) && member r (new []).full_reasons))
load-to_store_example = load-to_store firmware plan_of_two (new []) firmware_named

abbrev learner : Learner
learner = record {
  plan = plan_of_two;
  firmware = "";
  previous = some (record { uptime = int (pos 900); link = "" });
  has_store = true;
  stored = none;
}

abbrev stale_poll : Poll
stale_poll = record {
  asked_at = 1;
  done_at = 2;
  failures = 2;
  payload = power_payload;
  readers = [];
  disabled = [];
}

abbrev repeated : ℕ → List Poll
repeated zero = []
repeated (suc k) = stale_poll ∷ repeated k

thirty_polls_full_example : any (λ b. b) (fulls (repeated 30) learner) ≡ true
thirty_polls_full_example = thirty_polls_full (repeated 30) learner (omega arith) (omega arith)

abbrev owing : Learner
owing = record learner { plan = record plan_of_two { full_reasons = "reboot" ∷ [] } }

owed_until_fresh_example :
    (all (λ b. b) (fulls (stale_poll ∷ []) owing) ≡ true)
    × (member "reboot" (cycles (stale_poll ∷ []) owing).plan.full_reasons ≡ true)
owed_until_fresh_example = owed_until_fresh (stale_poll ∷ []) owing "reboot" (refl, tt) refl
