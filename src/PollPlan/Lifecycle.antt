-- ===== src/PollPlan/Lifecycle.antt =====
-- `after_poll`, `load`, `to_store` and `summary` of `PollPlan`
-- (custom_components/zte_router_5g/poll_plan.py).
pub mod Owed
pub mod Store
use Prim.Native.String.{compare}
use Prim.Native.Nat.{Ordering}
use ha_zte_router_5g_monitor.Prelude.{
  ℕ, ◌+◌, String, Bool, true, false, ◌&&◌, not, Option, none, some, List, [], ◌∷◌, map, keep_if,
  count_if, length, if◌then◌else◌, str_eq,
}
use ha_zte_router_5g_monitor.Prelude.Names.{member, add, discard}
use ha_zte_router_5g_monitor.Value.{Value, null, text, Payload, read}
use ha_zte_router_5g_monitor.PollPlan.Tables.{always, is_5g_mode, first_poll_reason}
use ha_zte_router_5g_monitor.PollPlan.Plan.{PollPlan}
use ha_zte_router_5g_monitor.PollPlan.Selection.{live_consumers, nonempty}

-- `self._last_5g is False`.
abbrev is_known_lte : Option Bool → Bool
is_known_lte (some false) = true
is_known_lte _ = false

-- `after_poll`.
unfoldable pub after_poll : Payload → Bool → Bool → ℕ → PollPlan → PollPlan
after_poll d full fresh now p =
    let is_5g = is_5g_mode (read d "network_type") in
    let counted = full && fresh in
    record p {
      polls = p.polls + 1;
      last_kind = if full then "full" else "narrowed";
      full_reasons = if counted then [] else p.full_reasons;
      last_full = if counted then some now else p.last_full;
      sweep_5g = is_known_lte p.last_5g && is_5g;
      last_5g = some is_5g;
    }

-- The record in the store: `answered` is `none` where the key holds no list.
pub record Stored : Type 0 where
  pub firmware : Value
  pub answered : Option (List Value)

-- `{n for n in answered if isinstance(n, str)}`.
unfoldable pub texts : List Value → List String
texts [] = []
texts (text s ∷ vs) = add s (texts vs)
texts (_ ∷ vs) = texts vs

load_from : Option (List Value) → Value → PollPlan → PollPlan × String
load_from (some vs) (text firmware) p = if str_eq firmware "" then (p, "") else (
  record p { answered = texts vs; full_reasons = discard first_poll_reason p.full_reasons },
  firmware,
)
load_from _ _ p = (p, "")

-- `load`: the plan and the firmware the names were stored under, `""` for none.
unfoldable pub load : Stored → PollPlan → PollPlan × String
unfolding load_from texts
load s p = load_from s.answered s.firmware p

-- `sorted(names)`, by code points.
unfoldable pub insert_sorted : String → List String → List String
insert_sorted s [] = s ∷ []
insert_sorted s (t ∷ ts) =
    let rest = insert_sorted s ts in elim (compare s t) [ Ordering.gt ↦ t ∷ rest | _ ↦ s ∷ t ∷ ts ]

unfoldable pub sorted : List String → List String
unfolding insert_sorted
sorted [] = []
sorted (s ∷ ss) = insert_sorted s (sorted ss)

-- `to_store`.
unfoldable pub to_store : String → PollPlan → Stored
unfolding sorted
to_store firmware p = record {
  firmware = text firmware;
  answered = some (map text (sorted p.answered));
}

pub record Summary : Type 0 where
  pub last_kind : String
  pub last_requested : ℕ
  pub universe : ℕ
  pub always_polled : ℕ
  pub answered : ℕ
  pub unresolved : ℕ
  pub skipped_disabled : ℕ
  pub full_owed : List String

abbrev has_live : Option (List String) → Bool
has_live none = false
has_live (some live) = nonempty live

abbrev has_only_disabled : Option (List String) → Bool
has_only_disabled none = false
has_only_disabled (some live) = not (nonempty live)

-- `summary`.
unfoldable pub summary : PollPlan → Summary
unfolding sorted
summary p = record {
  last_kind = p.last_kind;
  last_requested = p.last_requested;
  universe = length p.universe;
  always_polled = count_if always p.universe;
  answered = length p.answered;
  unresolved = length (
      keep_if (λ n. not (always n) && not (member n p.answered) && has_live (live_consumers p n))
        p.universe);
  skipped_disabled = count_if (λ n. has_only_disabled (live_consumers p n)) p.universe;
  full_owed = sorted p.full_reasons;
}
