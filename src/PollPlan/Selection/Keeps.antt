-- ===== src/PollPlan/Selection/Keeps.antt =====
-- Which names a poll asks for, whatever its number.
use ha_zte_router_5g_monitor.Prelude.{
  ℕ, suc, ◌%◌, String, ◌≡◌, refl, Bool, true, false, ◌&&◌, ◌||◌, not, Option, none, some, List, [],
  ◌∷◌, arith, eq_iff, Bool-cases, inl, inr,
}
use ha_zte_router_5g_monitor.Prelude.Names.{member, member-append}
use ha_zte_router_5g_monitor.PollPlan.Tables.{always, rotation}
use ha_zte_router_5g_monitor.PollPlan.Plan.{PollPlan}
use ha_zte_router_5g_monitor.PollPlan.Selection.{
  Choice, keep, skip, wait, choose, kept, waiting, slot_of, asked, live_consumers, nonempty,
}

abbrev pub is_keep : Choice → Bool
is_keep keep = true
is_keep _ = false

abbrev pub is_wait : Choice → Bool
is_wait wait = true
is_wait _ = false

pub member-kept :
    (c : String → Choice) (n : String) (ns : List String)
    → member n (kept c ns) ≡ (member n ns && is_keep (c n))
unfolding kept
member-kept c n [] = refl
member-kept c n (m ∷ ns) = ground (arith, member-kept c n ns, eq_iff m n)

pub member-waiting :
    (c : String → Choice) (n : String) (ns : List String)
    → member n (waiting c ns) ≡ (member n ns && is_wait (c n))
unfolding waiting
member-waiting c n [] = refl
member-waiting c n (m ∷ ns) = ground (arith, member-waiting c n ns, eq_iff m n)

pub slot_of-member :
    (i slot : ℕ) (n : String) (ns : List String)
    → member n (slot_of i slot ns) ≡ true
    → member n ns ≡ true
unfolding slot_of
slot_of-member i slot n [] h = h
slot_of-member i slot n (m ∷ ns) h = ground (arith, slot_of-member (suc i) slot n ns)

-- A poll asks for no name outside the universe.
pub asked-universe :
    (p : PollPlan) (full every : Bool) (n : String)
    → member n (asked p full every) ≡ true
    → member n p.universe ≡ true
unfolding asked
asked-universe p full every n h = ground (
  arith,
  member-append n (kept (choose p full every) p.universe)
      (slot_of 0 (p.polls % rotation) (waiting (choose p full every) p.universe)),
  member-kept (choose p full every) n p.universe,
  member-waiting (choose p full every) n p.universe,
  slot_of-member 0 (p.polls % rotation) n (waiting (choose p full every) p.universe),
)

pub asked-keep :
    (p : PollPlan) (full every : Bool) (n : String)
    → member n p.universe ≡ true
    → choose p full every n ≡ keep
    → member n (asked p full every) ≡ true
unfolding asked
asked-keep p full every n h k = ground (
  arith,
  member-append n (kept (choose p full every) p.universe)
      (slot_of 0 (p.polls % rotation) (waiting (choose p full every) p.universe)),
  member-kept (choose p full every) n p.universe,
)

pub asked-skip :
    (p : PollPlan) (full every : Bool) (n : String)
    → choose p full every n ≡ skip
    → member n (asked p full every) ≡ false
unfolding asked
asked-skip p full every n k = ground (
  arith,
  member-append n (kept (choose p full every) p.universe)
      (slot_of 0 (p.polls % rotation) (waiting (choose p full every) p.universe)),
  member-kept (choose p full every) n p.universe,
  member-waiting (choose p full every) n p.universe,
  slot_of-member 0 (p.polls % rotation) n (waiting (choose p full every) p.universe),
)

-- Every entity that was seen to read the name is disabled.
abbrev pub read_by_disabled : Option (List String) → Bool
read_by_disabled none = false
read_by_disabled (some live) = not (nonempty live)

full_choice :
    (p : PollPlan) (every : Bool) (n : String)
    → (always n || every || not (read_by_disabled (live_consumers p n)) ≡ true
        → choose p true every n ≡ keep)
      × (always n || every || not (read_by_disabled (live_consumers p n)) ≡ false
          → choose p true every n ≡ skip)
unfolding choose
full_choice p every n = (ground arith, ground arith)

-- A full poll asks for a name of the universe exactly when the name is always polled, when the poll
-- skips nothing (before a diagnostics download), or when not all of its readers are disabled.
pub full_poll_asks :
    (p : PollPlan) (every : Bool) (n : String)
    → member n p.universe ≡ true
    → member n (asked p true every)
      ≡ (always n || every || not (read_by_disabled (live_consumers p n)))
full_poll_asks p every n h =
    elim (Bool-cases (always n || every || not (read_by_disabled (live_consumers p n)))) [
      | inl e ↦ rw e (asked-keep p true every n h ((full_choice p every n).0 e))
      | inr e ↦ rw e (asked-skip p true every n ((full_choice p every n).1 e))
    ]

answered_choice :
    (p : PollPlan) (full every : Bool) (n : String)
    → member n p.answered ≡ true
    → read_by_disabled (live_consumers p n) ≡ false
    → choose p full every n ≡ keep
unfolding choose
answered_choice p full every n a l = ground arith

-- A name that has answered is asked for on every poll, full or narrowed, unless all the entities
-- that read it are disabled: that it is blank now does not drop it.
pub answered_name_asked :
    (p : PollPlan) (full every : Bool) (n : String)
    → member n p.universe ≡ true
    → member n p.answered ≡ true
    → read_by_disabled (live_consumers p n) ≡ false
    → member n (asked p full every) ≡ true
answered_name_asked p full every n u a l =
    asked-keep p full every n u (answered_choice p full every n a l)

unowned_choice :
    (p : PollPlan) (full every : Bool) (n : String)
    → (always n ≡ true)
    → choose p full every n ≡ keep
unfolding choose
unowned_choice p full every n a = ground arith
