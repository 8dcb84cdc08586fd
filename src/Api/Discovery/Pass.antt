-- ===== src/Api/Discovery/Pass.antt =====
-- `probe_names` (custom_components/zte_router_5g/api.py): a list of names is asked for in chunks, and what
-- the chunks leave open one by one.
use ha_zte_router_5g_monitor.Prelude.{
  ℕ, zero, suc, ◌+◌, ◌==◌, true, false, ◌&&◌, not, Option, none, some, List, [], ◌∷◌, ◌++◌, String,
  length, take, drop, ltb, leb, if◌then◌else◌,
}
use ha_zte_router_5g_monitor.Prelude.Dict.{Dict}
use ha_zte_router_5g_monitor.Api.Batch.{is_filled}
use ha_zte_router_5g_monitor.Api.Batch.Chunks.{concat}
use ha_zte_router_5g_monitor.Api.Discovery.{
  Device, Answer, failed, refused, lost, index_error, answered, Counters, probe_chunk,
  fallback_every, session_still_alive, relogin_once,
}
use ha_zte_router_5g_monitor.Api.Discovery.Notes.{Note, budget_exhausted, pass_notes, reprobe_notes}
use ha_zte_router_5g_monitor.Api.Discovery.Singly.{Search, found_update, reprobe_singly}

-- A pass under way.
pub record Progress : Type 0 where
  pub found : Dict String
  pub retry : List String
  pub refused_early : List String
  pub counts : Counters

-- The slices of the names, `size` each (a chunk size is not zero); the fuel is the number of names, of
-- which each slice takes one at least.
unfoldable pub chunks_on : ℕ → ℕ → List String → List (List String)
chunks_on fuel size [] = []
chunks_on zero size (name ∷ names) = (name ∷ names) ∷ []
chunks_on (suc fuel) size (name ∷ names) =
    take size (name ∷ names) ∷ chunks_on fuel size (drop size (name ∷ names))

unfoldable pub chunks_of : ℕ → List String → List (List String)
unfolding chunks_on
chunks_of size names = chunks_on (length names) size names

abbrev requeue : List String → Progress → Progress
requeue chunk p = record p { retry = p.retry ++ chunk }

abbrev unreliable_chunk : List String → Progress → Progress
unreliable_chunk chunk p =
    let c = p.counts in
    record p {
      retry = p.retry ++ chunk;
      counts = record c { unreliable = c.unreliable + length chunk };
    }

abbrev pub with_counts : Progress → Option Counters → Option Progress
with_counts p none = none
with_counts p (some c) = some (record p { counts = c })

-- How the chunks end: all asked, or the names from `rest` on left by the end of the budget, or with an
-- exception.
pub data Ended : Type 0 where
  whole : Progress → Ended
  cut : Progress → List String → Ended
  aborted : Ended

module _ {ℓ} {S : Type ℓ} (device : Device S) (canaries : List String) where
  -- A chunk that was read without a session.
  unfoldable pub lose_chunk : List String → Progress → S → Option Progress × S
  lose_chunk chunk p s =
      let (counts, s') = relogin_once device canaries (unreliable_chunk chunk p).counts s in
      (with_counts (unreliable_chunk chunk p) counts, s')

  -- A chunk that answered nothing, where no canary speaks for the session: after every eight of them
  -- the session is read.
  unfoldable pub blank_chunk : List String → Progress → S → Option Progress × S
  unfolding lose_chunk
  blank_chunk chunk p s =
      let c = p.counts in
      let blank = suc c.blank_since_check in
      let counted = record p { counts = record c { blank_since_check = blank } } in
      let checked = record p {
        counts = record c { blank_since_check = 0; fallback_checks = suc c.fallback_checks };
      } in
      let (alive, s') = session_still_alive device canaries s in
      if not (is_filled canaries) && leb fallback_every blank
      then (if alive then (some (requeue chunk checked), s') else lose_chunk chunk checked s')
      else (some (requeue chunk counted), s)

  abbrev pub declined_chunk : List String → Progress → Progress
  declined_chunk chunk p =
      let c = p.counts in
      if length chunk == 1
      then record p { refused_early = p.refused_early ++ chunk }
      else record p {
        retry = p.retry ++ chunk;
        counts = record c { refused_chunks = suc c.refused_chunks };
      }

  unfoldable pub settle_chunk : List String → Progress → Answer → S → Option Progress × S
  unfolding lose_chunk blank_chunk
  settle_chunk chunk p index_error s = (none, s)
  settle_chunk chunk p refused s = (some (declined_chunk chunk p), s)
  settle_chunk chunk p lost s = lose_chunk chunk p s
  settle_chunk chunk p failed s = (some (requeue chunk p), s)
  settle_chunk chunk p (answered d) s =
      let p' = record p { found = found_update p.found d } in
      if not (is_filled d) && ltb 1 (length chunk) then blank_chunk chunk p' s else (some p', s)

  unfoldable pub after_chunk : List String → Progress → S → Option Progress × S
  after_chunk chunk p s =
      let (answer, s') = probe_chunk device canaries chunk s in settle_chunk chunk p answer s'

  -- The loop over the chunks.
  unfoldable pub run_chunks : List (List String) → Progress → S → Ended × S
  run_chunks [] p s = (whole p, s)
  run_chunks (chunk ∷ chunks) p s = elim (device.late s) [
    | true ↦ (cut p (concat (chunk ∷ chunks)), s)
    | false ↦
        let (next, s') = after_chunk chunk p s in
        elim next [ none ↦ (aborted, s') | some p' ↦ run_chunks chunks p' s' ]
  ]

-- What `probe_names` returns; the source sorts the names declined.
pub record Probed : Type 0 where
  pub found : Dict String
  pub notes : List Note
  pub unasked : List String
  pub refused : List String

abbrev pub new_counters : Counters
new_counters = record {
  unreliable = 0;
  blank_since_check = 0;
  fallback_checks = 0;
  refused_chunks = 0;
  relogins = 0;
  recovered = 0;
  failed_relogins = 0;
}

abbrev pub new_progress : Progress
new_progress = record { found = []; retry = []; refused_early = []; counts = new_counters }

-- The result, from the chunks and from the names asked again.
abbrev pub cut_result : Progress → List String → Probed
cut_result p rest = record {
  found = p.found;
  notes = budget_exhausted (length rest) ∷ [];
  unasked = rest;
  refused = [];
}

abbrev pub whole_result : Progress → Search → Probed
whole_result p x =
    let declined = p.refused_early ++ x.refused in
    record {
      found = found_update p.found x.found;
      notes =
          pass_notes p.counts
          ++ (x.notes ++ reprobe_notes (length p.retry) x.rounds x.unasked declined);
      unasked = x.unasked;
      refused = declined;
    }

abbrev pub searched : Progress → Option Search → Option Probed
searched p none = none
searched p (some x) = some (whole_result p x)

module _ {ℓ} {S : Type ℓ} (device : Device S) (canaries : List String) where
  -- The rest of `probe_names`, once the chunks are asked.
  unfoldable pub conclude : Ended → S → Option Probed × S
  conclude aborted s = (none, s)
  conclude (cut p rest) s = (some (cut_result p rest), s)
  conclude (whole p) s =
      let (x, s') = reprobe_singly device canaries p.retry s in (searched p x, s')

  -- `probe_names`; `none` where it raises.
  unfoldable pub probe_names : ℕ → List String → S → Option Probed × S
  unfolding conclude
  probe_names size names s =
      let (ended, s') = run_chunks device canaries (chunks_of size names) new_progress s in
      conclude ended s'
