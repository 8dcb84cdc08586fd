-- ===== src/Examples/Messages.antt =====
-- Batches, writes and deletions, at concrete inputs.
use Prim.Native.String.{count as len}
use ha_zte_router_5g_monitor.Prelude.{
  ℕ, zero, suc, ◌+◌, ◌*◌, ◌≤◌, ◌≡◌, refl, Bool, true, false, Option, some, List, [], ◌∷◌, all,
  String, arith, ◌⊎◌,
}
use ha_zte_router_5g_monitor.Prelude.Names.{member, difference, intersection}
use ha_zte_router_5g_monitor.Value.{Value, text}
use ha_zte_router_5g_monitor.Api.Request.Client.{World, Client, Reply, json, dict}
use ha_zte_router_5g_monitor.Api.Batch.{
  batch_get, split_by_url_budget, split_from, path_prefix, chunk_call, joined,
}
use ha_zte_router_5g_monitor.Api.Classify.{is_classifiable, classify_session}
use ha_zte_router_5g_monitor.Api.Request.Session.{refused, preempt, past_learned_age, age_limit}
use ha_zte_router_5g_monitor.Api.Request.Ruling.{verdict_of, record_verdict, rule}
use ha_zte_router_5g_monitor.Api.Request.Perform.{
  is_write, request, perform, step, attempt, prepare, dispose, send, after_send, wait_lock,
  by_ruling,
}
use ha_zte_router_5g_monitor.Api.Batch.Chunks.{concat, fits, split_by_url_budget_lem}
use ha_zte_router_5g_monitor.Api.Batch.Merged.{
  Answers, ask_chunk, answers_to, holds, batch_is_one_request,
}
use ha_zte_router_5g_monitor.Api.Writes.{write, retry_once, declined, retried_write}
use ha_zte_router_5g_monitor.Api.Deletion.{
  Listings, is_listed, deleted, verify_deleted, verify_from, deleted_means_gone,
  gone_in_time_is_deleted,
}
use ha_zte_router_5g_monitor.Examples.Requests.{terse_world, client, write_call, write_is_write}

abbrev signal_names : List String
signal_names = "rssi" ∷ "rsrp" ∷ "wa_inner_version" ∷ []

split_by_url_budget_lem_example :
    (concat (split_by_url_budget 1590 signal_names) ≡ signal_names)
    × (all (fits 1590) (split_by_url_budget 1590 signal_names) ≡ true)
split_by_url_budget_lem_example = split_by_url_budget_lem 1590 signal_names

-- A router that answers every name with its own text: the names of the first chunk, then the rest.
abbrev echo : String → Value
echo name = text name

abbrev echo_reply : ℕ → Reply
echo_reply zero = json (dict (answers_to echo ("rssi" ∷ "rsrp" ∷ [])))
echo_reply (suc n) = json (dict (answers_to echo ("wa_inner_version" ∷ [])))

abbrev echo_world : World
echo_world = record terse_world { reply = echo_reply }

echo-Answers :
    Answers
      (ask_chunk echo_world [])
      echo
      (split_by_url_budget (1505 + len path_prefix) signal_names)
      client
unfolding split_by_url_budget split_from chunk_call joined is_classifiable request perform step
    attempt prepare dispose send after_send wait_lock preempt past_learned_age refused is_write
    age_limit verdict_of record_verdict rule by_ruling classify_session difference intersection
echo-Answers = (refl, (refl, tt))

batch_is_one_request_example :
    holds (batch_get echo_world 1505 signal_names client).0 "rsrp" ≡ some (text "rsrp")
batch_is_one_request_example =
    batch_is_one_request echo_world 1505 signal_names client echo "rsrp" echo-Answers

-- The session is found alive after each refusal.
abbrev alive : Client → Bool
alive c = false

retried_write_example :
    ((retry_once (write alive terse_world write_call) client).1.sends ≤ 2)
    × ((((write alive terse_world write_call client).0 ≡ declined)
          × (alive (write alive terse_world write_call client).1 ≡ false))
        ⊎ (retry_once (write alive terse_world write_call) client
            ≡ write alive terse_world write_call client))
retried_write_example = retried_write alive terse_world write_call client write_is_write

-- A router that lists the message once more, and then no longer.
abbrev slow_listing : ℕ → Option (List String)
slow_listing zero = some ("16" ∷ "17" ∷ [])
slow_listing (suc n) = some ("17" ∷ [])

abbrev slow_router : Listings
slow_router = record { listed = slow_listing; elapsed = λ n. 1000 * n }

slow_deleted : verify_deleted slow_router ("16" ∷ []) ≡ deleted 1
unfolding verify_deleted verify_from
slow_deleted = refl

deleted_means_gone_example :
    (listed : List String) × (slow_router.listed 1 ≡ some listed) × (member "16" listed ≡ false)
deleted_means_gone_example = deleted_means_gone slow_router ("16" ∷ []) 1 "16" slow_deleted refl

slow_is_listed : (j : ℕ) → j ≤ 1 → is_listed (slow_listing j) ≡ true
slow_is_listed zero le = refl
slow_is_listed (suc n) le = refl

gone_in_time_is_deleted_example :
    (j : ℕ) × (j ≤ 1) × (verify_deleted slow_router ("16" ∷ []) ≡ deleted j)
gone_in_time_is_deleted_example =
    gone_in_time_is_deleted slow_router ("16" ∷ []) 1 (omega arith) slow_is_listed
      (λ j lt. omega arith) refl
