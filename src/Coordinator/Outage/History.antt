-- ===== src/Coordinator/Outage/History.antt =====
-- What the records of the expected-outage windows (custom_components/zte_router_5g/coordinator.py) say.
use ha_zte_router_5g_monitor.Prelude.{
  ℕ, ◌-◌, ◌≡◌, refl, sym, subst, Bool, true, ◌&&◌, not, none, some, List, [], ◌∷◌, ◌++◌, length,
  drop, zero, suc, all, last?, arith, inl, inr, if◌then◌else◌, Bool-cases, Option-cases,
}
use ha_zte_router_5g_monitor.Coordinator.Outage.{
  Reason, ClosedBy, cap, no_outage, answer, Entry, Window, Tick, expired, span, amend, append,
  schedule, ended_by, unsettled, close, probed_by, check, checked_again, went_down, came_back,
  opening, open_window, follow_up,
}
use ha_zte_router_5g_monitor.Coordinator.Outage.Sound.{is_some, last?-amend, IsCurrent, IsSound}
use ha_zte_router_5g_monitor.Coordinator.Outage.Closing.{counted_IsCurrent}
use ha_zte_router_5g_monitor.Coordinator.Outage.Phases.{
  Reached, starts, opens, checks, follows, Reached-IsSound,
}

-- What a record says, by how it was closed: one that is not closed measures no outage, one closed by the
-- cap measures one exactly where it has both times, one closed because the router never dropped has
-- neither, and one closed by its answer has both times and the outage.
abbrev pub consistent : Entry → Bool
consistent e = elim e.closed_by [
  | none ↦ not (is_some e.outage)
  | some cap ↦
      if is_some e.outage
      then is_some e.down_at && is_some e.back_at
      else not (is_some e.down_at && is_some e.back_at)
  | some no_outage ↦ not (is_some e.down_at) && not (is_some e.outage)
  | some answer ↦ is_some e.down_at && is_some e.back_at && is_some e.outage
]

all-amend :
    (f : Entry → Entry) (es : List Entry) (e : Entry)
    → all consistent es ≡ true
    → last? es ≡ some e
    → consistent (f e) ≡ true
    → all consistent (amend f es) ≡ true
unfolding amend
all-amend f [] e a l c = refl
all-amend f (x ∷ []) e a l c =
    let q : e ≡ x = ground arith in
    let here = subst (λ y. consistent (f y) ≡ true) q c in ground (arith, here)
all-amend f (x ∷ y ∷ es) e a l c = ground (arith, all-amend f (y ∷ es) e (ground arith) l c)

last_consistent :
    (es : List Entry) (e : Entry)
    → all consistent es ≡ true
    → last? es ≡ some e
    → consistent e ≡ true
last_consistent [] e a l = ground arith
last_consistent (x ∷ []) e a l =
    let q : x ≡ e = ground arith in subst (λ y. consistent y ≡ true) q (ground arith)
last_consistent (x ∷ y ∷ es) e a l = last_consistent (y ∷ es) e (ground arith) l

all-drop : (n : ℕ) (es : List Entry) → all consistent es ≡ true → all consistent (drop n es) ≡ true
all-drop zero es a = a
all-drop (suc n) [] a = refl
all-drop (suc n) (x ∷ es) a = all-drop n es (ground arith)

all-snoc :
    (es : List Entry) (e : Entry)
    → all consistent es ≡ true
    → consistent e ≡ true
    → all consistent (es ++ e ∷ []) ≡ true
all-snoc [] e a c = ground arith
all-snoc (x ∷ es) e a c = ground (arith, all-snoc es e (ground arith) c)

all-append :
    (e : Entry) (es : List Entry)
    → all consistent es ≡ true
    → consistent e ≡ true
    → all consistent (append e es) ≡ true
unfolding append
all-append e es a c = all-drop (length (es ++ e ∷ []) - 5) (es ++ e ∷ []) (all-snoc es e a c)

entries-close :
    (by : ClosedBy) (t : Tick) (w : Window)
    → (close by t w).entries ≡ amend (ended_by by t.closed_at) w.entries
unfolding close
entries-close by t w = let u = unsettled by w.expected t.status in ground arith

capped_consistent :
    (e : Entry) (wall : ℕ)
    → e.closed_by ≡ none
    → consistent e ≡ true
    → consistent (ended_by cap wall e) ≡ true
unfolding ended_by span
capped_consistent e wall n c = ground arith

undropped_consistent :
    (e : Entry) (wall : ℕ)
    → e.closed_by ≡ none
    → consistent e ≡ true
    → e.down_at ≡ none
    → consistent (ended_by no_outage wall e) ≡ true
unfolding ended_by span
undropped_consistent e wall n c d = ground arith

returned_consistent :
    (e : Entry) (wall stamp : ℕ)
    → is_some e.down_at ≡ true
    → consistent (ended_by answer wall (came_back stamp e)) ≡ true
unfolding ended_by span
returned_consistent e wall stamp d = ground arith

back_consistent :
    (e : Entry) (stamp : ℕ)
    → e.closed_by ≡ none
    → consistent e ≡ true
    → consistent (came_back stamp e) ≡ true
back_consistent e stamp n c = ground arith

down_consistent :
    (e : Entry) (stamp : ℕ)
    → e.closed_by ≡ none
    → consistent e ≡ true
    → consistent (went_down stamp e) ≡ true
down_consistent e stamp n c = ground arith

module _ (t : Tick) (w : Window) (e : Entry) (a : all consistent w.entries ≡ true)
    (c : IsCurrent w e) where
  closes_consistent :
      (by : ClosedBy)
      → consistent (ended_by by t.closed_at e) ≡ true
      → all consistent (close by t w).entries ≡ true
  closes_consistent by h =
      subst (λ es. all consistent es ≡ true) (sym (entries-close by t w))
        (all-amend (ended_by by t.closed_at) w.entries e a c.latest h)

  answer_consistent :
      is_some e.down_at ≡ true
      → all consistent
          (close answer t (record w { entries = amend (came_back t.stamp) w.entries })).entries
        ≡ true
  answer_consistent d =
      let back = record w { entries = amend (came_back t.stamp) w.entries } in
      let here = last_consistent w.entries e a c.latest in
      subst (λ es. all consistent es ≡ true) (sym (entries-close answer t back))
        (all-amend (ended_by answer t.closed_at) (amend (came_back t.stamp) w.entries)
          (came_back t.stamp e)
          (all-amend (came_back t.stamp) w.entries e a c.latest
            (back_consistent e t.stamp c.unclosed here))
          (last?-amend (came_back t.stamp) w.entries e c.latest)
          (returned_consistent e t.closed_at t.stamp d))

  probed_consistent : all consistent (probed_by t w).entries ≡ true
  unfolding probed_by schedule
  probed_consistent =
      let here = last_consistent w.entries e a c.latest in
      let down =
        all-amend (went_down t.stamp) w.entries e a c.latest
          (down_consistent e t.stamp c.unclosed here) in
      let back =
        all-amend (came_back t.stamp) w.entries e a c.latest
          (back_consistent e t.stamp c.unclosed here) in
      elim (Bool-cases w.awaiting_drop) [
        | inl y ↦
            let shut =
              closes_consistent no_outage
                (undropped_consistent e t.closed_at c.unclosed here (c.unmeasured y)) in
            ground (arith, down, shut)
        | inr n ↦ let shut = answer_consistent (c.dropped n) in ground (arith, back, shut)
      ]

check-consistent :
    (t : Tick) (w : Window)
    → IsSound w
    → all consistent w.entries ≡ true
    → all consistent (check t w).entries ≡ true
unfolding check
check-consistent t w v a = elim (Option-cases w.expected) [
  | inl n ↦ ground arith
  | inr (x, h) ↦
      let (e, c) = v.current (ground arith) in
      let here = last_consistent w.entries e a c.latest in
      elim (Bool-cases (expired x t.fired)) [
        | inl late ↦
            let w' = record w { timer = none } in
            let c' : IsCurrent w' e = record {
              latest = c.latest;
              unclosed = c.unclosed;
              unmeasured = c.unmeasured;
              dropped = c.dropped;
            } in
            let shut =
              closes_consistent t w' e a c' cap (capped_consistent e t.closed_at c.unclosed here) in
            ground (arith, shut)
        | inr early ↦
            let w' = record w { timer = none; entries = amend checked_again w.entries } in
            let all' = all-amend checked_again w.entries e a c.latest here in
            let rest = probed_consistent t w' (checked_again e) all' (counted_IsCurrent w e c) in
            ground (arith, rest)
      ]
]

open_consistent :
    (reason : Reason) (cap_seconds now wall : ℕ) (w : Window)
    → all consistent w.entries ≡ true
    → all consistent (open_window reason cap_seconds now wall w).entries ≡ true
unfolding open_window schedule
open_consistent reason cap_seconds now wall w a =
    all-append (opening reason cap_seconds wall) w.entries a refl

follow_consistent :
    (w : Window) → all consistent w.entries ≡ true → all consistent (follow_up w).entries ≡ true
unfolding follow_up
follow_consistent w a = a

-- In every window that the handlers reach each record says what happened: one closed by the router's
-- answer has the times of going down and of coming back and the outage measured; one closed because the
-- router never dropped has no time of going down and no outage; one closed by the cap has an outage
-- exactly where it has both times; and one that is not closed has none.
pub records_consistent : (w : Window) → Reached w → all consistent w.entries ≡ true
records_consistent w starts = refl
records_consistent w (opens {w = v} reason cap_seconds now wall r) =
    open_consistent reason cap_seconds now wall v (records_consistent v r)
records_consistent w (checks {w = v} t r) =
    check-consistent t v (Reached-IsSound v r) (records_consistent v r)
records_consistent w (follows {w = v} r) = follow_consistent v (records_consistent v r)
