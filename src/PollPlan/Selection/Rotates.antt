-- ===== src/PollPlan/Selection/Rotates.antt =====
-- The rotation over the names that have never answered.
use ha_zte_router_5g_monitor.Prelude.{
  ℕ, suc, ◌+◌, ◌*◌, ◌%◌, ◌-◌, ◌≤◌, ◌<◌, String, Bool, true, false, List, [], ◌∷◌, length,
  length-append, arith, str_eq,
}
use ha_zte_router_5g_monitor.Prelude.Names.{member}
use ha_zte_router_5g_monitor.PollPlan.Tables.{rotation}
use ha_zte_router_5g_monitor.PollPlan.Plan.{PollPlan}
use ha_zte_router_5g_monitor.PollPlan.Selection.{choose, kept, waiting, slot_of, asked}

-- The place of a name in a list.
unfoldable pub place : String → List String → ℕ
place n [] = 0
place n (m ∷ ms) = let rest = place n ms in elim (str_eq m n) [ true ↦ 0 | false ↦ suc rest ]

-- The poll, of the five from `polls` on, that asks for the name at place `j`.
abbrev turn : ℕ → ℕ → ℕ
turn polls j = (j % 5 + 5 - polls % 5) % 5

-- The plans of the polls from some poll on, `plan k` that of the k-th, with what the poll is.
module _ (plan : ℕ → PollPlan) (full every : ℕ → Bool) (n : String) where
  -- How many of the names that wait stand before this one.
  abbrev pub ahead : ℕ → ℕ
  ahead k = place n (waiting (choose (plan k) (full k) (every k)) (plan k).universe)

  abbrev pub is_asked : ℕ → Bool
  is_asked k = member n (asked (plan k) (full k) (every k))

slot_of-bound :
    (i slot : ℕ) (ns : List String)
    → slot < 5
    → 5 * length (slot_of i slot ns) ≤ length ns + (i + 5 - slot + 4) % 5
unfolding slot_of
slot_of-bound i slot [] h = omega arith
slot_of-bound i slot (n ∷ ns) h = ground (arith, slot_of-bound (suc i) slot ns)

-- A poll asks for at most a fifth, rounded up, of the names that wait, beside the names it keeps.
pub length-asked-le :
    (p : PollPlan) (full every : Bool)
    → 5 * length (asked p full every)
      ≤ 5 * length (kept (choose p full every) p.universe)
        + length (waiting (choose p full every) p.universe)
        + 4
unfolding asked
length-asked-le p full every = omega (
  arith,
  slot_of-bound 0 (p.polls % rotation) (waiting (choose p full every) p.universe) (omega arith),
  length-append (kept (choose p full every) p.universe)
      (slot_of 0 (p.polls % rotation) (waiting (choose p full every) p.universe)),
)
