-- ===== src/Examples/Discoveries.antt =====
-- The theorems on the discovery of names at concrete inputs.
use ha_zte_router_5g_monitor.Prelude.{
  ℕ, suc, ◌≤◌, ◌≡◌, refl, true, false, none, List, [], ◌∷◌, String, length, leb, ◌==◌,
  if◌then◌else◌, ◌+◌, ◌*◌,
}
use ha_zte_router_5g_monitor.Prelude.Dict.{put}
use ha_zte_router_5g_monitor.Prelude.Names.{union}
use ha_zte_router_5g_monitor.Value.{text, truthy}
use ha_zte_router_5g_monitor.Api.Batch.{merged}
use ha_zte_router_5g_monitor.Api.Request.Client.{returned, raised, dict, Fault}
use ha_zte_router_5g_monitor.Api.Writes.{is_refusal}
use ha_zte_router_5g_monitor.Api.Discovery.{
  Device, relogin_limit, max_rounds, probe_chunk, judge, harvest, with_canaries, not_router_fields,
}
use ha_zte_router_5g_monitor.Api.Discovery.Singly.{run_rounds, reprobe_singly, found_update}
use ha_zte_router_5g_monitor.Api.Discovery.Pass.{
  probe_names, chunks_of, run_chunks, after_chunk, settle_chunk, conclude,
}
use ha_zte_router_5g_monitor.Api.Discovery.Notes.{pass_notes, reprobe_notes}
use ha_zte_router_5g_monitor.Api.Discovery.Report.{Candidates, Report, run_discovery, publish}
use ha_zte_router_5g_monitor.Api.Discovery.Exchange.{logged, is_silent}
use ha_zte_router_5g_monitor.Api.Discovery.Honest.{unanswered_was_asked}
use ha_zte_router_5g_monitor.Api.Discovery.Bounds.{metered}
use ha_zte_router_5g_monitor.Api.Discovery.Bounds.Total.{unspent, probe_names_bounds}
use ha_zte_router_5g_monitor.Api.Discovery.Lapses.{
  is_untold, late_pass_forgets, failed_check_aborts,
}

-- A router that answers its canary and a signal, and no other name; the state counts the requests.
abbrev healthy : Device ℕ
healthy = record {
  ask = λ names n.
      (returned (dict (("wan_connect_status", text "up") ∷ ("signalbar", text "4") ∷ [])), suc n);
  read_first = λ n. (merged [], suc n);
  renew = λ n. (true, suc n);
  late = λ n. false;
}

abbrev canary : List String
canary = "wan_connect_status" ∷ []

abbrev asked_names : Candidates
asked_names = record { static = "signalbar" ∷ "no_such" ∷ []; refusable = []; unknown = [] }

abbrev reported : Report
reported = record {
  notes = [];
  values = ("signalbar", "4") ∷ [];
  refused = [];
  not_reprobed = [];
  probed_no_answer = "no_such" ∷ [];
}

unanswered_was_asked_example :
    is_silent canary "no_such" (run_discovery (logged healthy) canary asked_names (0, [])).1.1
    ≡ true
unfolding truthy not_router_fields run_discovery probe_names chunks_of run_chunks after_chunk
    settle_chunk conclude logged judge harvest with_canaries probe_chunk is_refusal found_update
    reprobe_singly run_rounds publish pass_notes reprobe_notes put union
unanswered_was_asked_example =
    unanswered_was_asked healthy canary "no_such" asked_names 0 reported refl refl refl refl

probe_names_bounds_example :
    ((probe_names (metered healthy) canary 1 ("signalbar" ∷ []) (0, unspent)).1.1.renewals
      ≤ relogin_limit)
    × ((probe_names (metered healthy) canary 1 ("signalbar" ∷ []) (0, unspent)).1.1.asks
        ≤ length (chunks_of 1 ("signalbar" ∷ [])) + relogin_limit + max_rounds * 1)
    × ((probe_names (metered healthy) canary 1 ("signalbar" ∷ []) (0, unspent)).1.1.reads
        ≤ length (chunks_of 1 ("signalbar" ∷ [])) + relogin_limit)
probe_names_bounds_example = probe_names_bounds healthy canary 1 ("signalbar" ∷ []) 0

-- A router that does not answer the first request, and whose budget is over behind it.
abbrev slow : Device ℕ
slow = record {
  ask = λ names n. (raised Fault.connection, suc n);
  read_first = λ n. (merged [], suc n);
  renew = λ n. (true, suc n);
  late = λ n. leb 1 n;
}

late_pass_forgets_example : is_untold "a" (probe_names slow canary 1 ("a" ∷ "b" ∷ []) 0).0 ≡ true
unfolding chunks_of probe_chunk judge with_canaries
late_pass_forgets_example =
    late_pass_forgets slow canary 1 ("a" ∷ "b" ∷ []) ("a" ∷ []) ("b" ∷ []) [] 0 "a" refl refl refl
      refl refl refl

-- A router that has lost the session, takes the login and then falls silent.
abbrev lapsed : Device ℕ
lapsed = record {
  ask = λ names n. (if n == 0 then returned (dict []) else raised Fault.connection, suc n);
  read_first = λ n. (merged [], suc n);
  renew = λ n. (true, suc n);
  late = λ n. false;
}

failed_check_aborts_example : (probe_names lapsed canary 2 ("a" ∷ "b" ∷ []) 0).0 ≡ none
unfolding chunks_of probe_chunk judge with_canaries is_refusal truthy
failed_check_aborts_example =
    failed_check_aborts lapsed canary 2 ("a" ∷ "b" ∷ []) ("a" ∷ "b" ∷ []) [] 0 Fault.connection refl
      refl refl refl refl refl
