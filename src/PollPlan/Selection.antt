-- ===== src/PollPlan/Selection.antt =====
-- `_full_due`, `_live_consumers`, `_resolved` and `names` of `PollPlan`
-- (custom_components/zte_router_5g/poll_plan.py).
pub mod Due
pub mod Keeps
pub mod Rotates
use ha_zte_router_5g_monitor.Prelude.{
  ℕ, suc, ◌+◌, ◌%◌, String, Bool, true, false, ◌&&◌, ◌||◌, Option, none, some, List, [], ◌∷◌, ◌++◌,
  all, leb, ltb, ◌==◌, if◌then◌else◌,
}
use ha_zte_router_5g_monitor.Prelude.Names.{member, difference, intersection}
use ha_zte_router_5g_monitor.Prelude.Dict.{Dict, get, get_or}
use ha_zte_router_5g_monitor.PollPlan.Tables.{
  always, is_5g_name, full_poll_every, full_poll_max_age, rotation, diagnostics_reason,
}
use ha_zte_router_5g_monitor.PollPlan.Plan.{PollPlan}

-- `bool(names)` of a set.
abbrev pub nonempty : List String → Bool
nonempty [] = false
nonempty (_ ∷ _) = true

-- The daily clock starts at the first poll that looks at it.
abbrev pub start_clock : ℕ → Option ℕ → ℕ
start_clock now none = now
start_clock now (some t) = t

-- `_full_due`, which may start the daily clock. `now - last_full >= max_age` is written as a sum.
unfoldable pub full_due : ℕ → PollPlan → PollPlan × Bool
full_due now p =
    let began = start_clock now p.last_full in
    if nonempty p.full_reasons then (p, true) else (
      record p { last_full = some began },
      ltb 0 p.polls && p.polls % full_poll_every == 0 || leb (began + full_poll_max_age) now,
    )

-- `_live_consumers`: `none` where no entity was seen to read the name.
unfoldable pub live_consumers : PollPlan → String → Option (List String)
live_consumers p name = elim (get p.consumers name) [
  | none ↦ none
  | some readers ↦ if nonempty readers then some (difference readers p.disabled) else none
]

-- `_resolved`.
unfoldable pub resolved : PollPlan → String → Bool
resolved p entity = nonempty (intersection (get_or p.readers entity []) p.answered)

-- What the loop of `names` does with one name: it is asked for, left out, or waits for its turn.
pub data Choice : Type 0 where
  keep skip wait : Choice

unfoldable pub choose : PollPlan → Bool → Bool → String → Choice
choose p full every name = if always name then keep else elim (live_consumers p name) [
  | none ↦ keep
  | some live ↦
      if nonempty live
      then (if full || member name p.answered
          then keep
          else if all (resolved p) live
          then skip
          else if p.sweep_5g && is_5g_name name
          then keep
          else wait)
      else if every
      then keep
      else skip
]

-- The loop, with its two lists `keep` and `unresolved`.
unfoldable pub kept : (String → Choice) → List String → List String
kept choice [] = []
kept choice (n ∷ ns) = let rest = kept choice ns in elim (choice n) [ keep ↦ n ∷ rest | _ ↦ rest ]

unfoldable pub waiting : (String → Choice) → List String → List String
waiting choice [] = []
waiting choice (n ∷ ns) =
    let rest = waiting choice ns in elim (choice n) [ wait ↦ n ∷ rest | _ ↦ rest ]

-- `[n for i, n in enumerate(unresolved) if i % ROTATION == slot]`, from an index on.
unfoldable pub slot_of : ℕ → ℕ → List String → List String
slot_of i slot [] = []
slot_of i slot (n ∷ ns) =
    let rest = slot_of (suc i) slot ns in if i % rotation == slot then n ∷ rest else rest

-- The names asked for, given whether the poll is full and whether it skips nothing.
unfoldable pub asked : PollPlan → Bool → Bool → List String
unfolding kept waiting slot_of
asked p full every =
    let choice = choose p full every in
    kept choice p.universe ++ slot_of 0 (p.polls % rotation) (waiting choice p.universe)

-- `names`: the plan after the call, the names, and whether the poll is full.
unfoldable pub names : ℕ → PollPlan → PollPlan × List String × Bool
unfolding full_due asked
names now p =
    let (p', full) = full_due now p in
    (p', asked p' full (full && member diagnostics_reason p'.full_reasons), full)
