-- ===== src/Coordinator/Outage/Closing.antt =====
-- How an expected-outage window (custom_components/zte_router_5g/coordinator.py) ends, and when.
use ha_zte_router_5g_monitor.Prelude.{
  ℕ, ◌+◌, ◌<◌, ◌≡◌, refl, ◌∙◌, sym, subst, true, false, ◌&&◌, none, some, last?, arith, leb, inl,
  inr, Bool-cases, Option-cases,
}
use ha_zte_router_5g_monitor.Coordinator.Outage.{
  ClosedBy, cap, no_outage, answer, Entry, Expected, Window, Tick, expired, span, amend, schedule,
  ended_by, unsettled, close, probed_by, check, checked_again, went_down, came_back, ask_refresh,
  hold,
}
use ha_zte_router_5g_monitor.Coordinator.Outage.Sound.{
  is_some, last?-amend, IsCurrent, IsSound, may_close, Outcome, waits, capped, never_dropped,
  returned,
}

last?-close :
    (by : ClosedBy) (t : Tick) (w : Window) (e : Entry)
    → last? w.entries ≡ some e
    → last? (close by t w).entries ≡ some (ended_by by t.closed_at e)
unfolding close
last?-close by t w e h =
    let k = last?-amend (ended_by by t.closed_at) w.entries e h in
    let u = unsettled by w.expected t.status in ground arith

pub expected-close : (by : ClosedBy) (t : Tick) (w : Window) → (close by t w).expected ≡ none
unfolding close
expected-close by t w = let u = unsettled by w.expected t.status in ground arith

ended_by-closed_by :
    (by : ClosedBy) (wall : ℕ) (e : Entry) → (ended_by by wall e).closed_by ≡ some by
unfolding ended_by
ended_by-closed_by by wall e = refl

ended_by-down_at : (by : ClosedBy) (wall : ℕ) (e : Entry) → (ended_by by wall e).down_at ≡ e.down_at
unfolding ended_by
ended_by-down_at by wall e = refl

answer_measured :
    (e : Entry) (stamp wall : ℕ)
    → is_some e.down_at ≡ true
    → is_some (ended_by answer wall (came_back stamp e)).outage ≡ true
unfolding ended_by span
answer_measured e stamp wall h = ground arith

-- What the probe leads to, from the window `w` that the check has counted, before the cap.
module _ (t : Tick) (v : Window) (x : Expected) (o : v.expected ≡ some x)
    (early : t.fired < x.deadline) where
  rearmed :
      (w : Window)
      → w.expected ≡ v.expected
      → may_close t v ≡ false
      → w.awaiting_drop ≡ (v.awaiting_drop && t.answered)
      → Outcome t v (schedule t.ended w)
  unfolding schedule
  rearmed w q m a = waits x o early m q a refl

  probed_awaiting :
      (w : Window) (e : Entry)
      → v.opened_mono ≡ w.opened_mono
      → v.awaiting_drop ≡ w.awaiting_drop
      → IsCurrent w e
      → w.expected ≡ v.expected
      → w.awaiting_drop ≡ true
      → Outcome t v (probed_by t w)
  unfolding probed_by
  probed_awaiting w e m n c k a =
      let down = record w {
        awaiting_drop = false;
        entries = amend (went_down t.stamp) w.entries;
      } in
      elim (Bool-cases t.answered) [
        | inr y ↦
            let q : probed_by t w ≡ schedule t.ended down = ground arith in
            subst (Outcome t v) (sym q) (rearmed down k (ground arith) (ground arith))
        | inl y ↦ elim (Bool-cases (leb (w.opened_mono + hold) t.probed && t.polled)) [
          | inl z ↦
              let q : probed_by t w ≡ close no_outage t w = ground arith in
              subst (Outcome t v) (sym q) (
                never_dropped x (ended_by no_outage t.closed_at e) o early (ground arith)
                  (ground arith) (expected-close no_outage t w)
                  (last?-close no_outage t w e c.latest)
                  (ended_by-closed_by no_outage t.closed_at e)
                  (ended_by-down_at no_outage t.closed_at e ∙ c.unmeasured a))
          | inr z ↦
              let q : probed_by t w ≡ schedule t.ended w = ground arith in
              subst (Outcome t v) (sym q) (rearmed w k (ground arith) (ground arith))
        ]
      ]

  probed_returning :
      (w : Window) (e : Entry)
      → v.awaiting_drop ≡ w.awaiting_drop
      → IsCurrent w e
      → w.expected ≡ v.expected
      → w.awaiting_drop ≡ false
      → Outcome t v (probed_by t w)
  unfolding probed_by
  probed_returning w e n c k a =
      let back = record w { entries = amend (came_back t.stamp) w.entries } in
      elim (Bool-cases t.answered) [
        | inr y ↦
            let q : probed_by t w ≡ schedule t.ended w = ground arith in
            subst (Outcome t v) (sym q) (rearmed w k (ground arith) (ground arith))
        | inl y ↦ elim (Bool-cases t.polled) [
          | inl z ↦
              let q : probed_by t w ≡ close answer t back = ground arith in
              let l = last?-amend (came_back t.stamp) w.entries e c.latest in
              subst (Outcome t v) (sym q) (
                returned x (ended_by answer t.closed_at (came_back t.stamp e)) o early
                  (ground arith) (ground arith) (expected-close answer t back)
                  (last?-close answer t back (came_back t.stamp e) l)
                  (ended_by-closed_by answer t.closed_at (came_back t.stamp e))
                  (answer_measured e t.stamp t.closed_at (c.dropped a)))
          | inr z ↦
              let q : probed_by t w ≡ schedule t.ended back = ground arith in
              subst (Outcome t v) (sym q) (rearmed back k (ground arith) (ground arith))
        ]
      ]

  probed_outcome :
      (w : Window) (e : Entry)
      → v.opened_mono ≡ w.opened_mono
      → v.awaiting_drop ≡ w.awaiting_drop
      → IsCurrent w e
      → w.expected ≡ v.expected
      → Outcome t v (probed_by t w)
  probed_outcome w e m n c k = elim (Bool-cases w.awaiting_drop) [
    | inl a ↦ probed_awaiting w e m n c k a
    | inr a ↦ probed_returning w e n c k a
  ]

pub counted_IsCurrent :
    (w : Window) (e : Entry)
    → IsCurrent w e
    → IsCurrent
        (record w { timer = none; entries = amend checked_again w.entries })
        (checked_again e)
counted_IsCurrent w e c = record {
  latest = last?-amend checked_again w.entries e c.latest;
  unclosed = c.unclosed;
  unmeasured = c.unmeasured;
  dropped = c.dropped;
}

-- A check of an open and sound window from its deadline on closes it by the cap. A check before the
-- deadline closes it exactly where the router answers, the closing poll succeeds, and the drop was
-- seen or twenty seconds have passed since the opening: by `no_outage`, with no time of going down,
-- where the drop is still awaited, and by `answer`, with the outage measured, where it was seen. In
-- every other case the window stays open, the drop is awaited still exactly where it was and the
-- router answers, and the check is armed again, in one second where the drop is awaited and in five
-- where it is not.
pub check_outcome :
    (t : Tick) (w : Window) → IsSound w → is_some w.expected ≡ true → Outcome t w (check t w)
unfolding check
check_outcome t w v o =
    let (e, c) = v.current o in
    elim (Option-cases w.expected) [
      | inl n ↦ ground arith
      | inr (x, h) ↦ elim (Bool-cases (expired x t.fired)) [
        | inl late ↦
            let w' = record w { timer = none } in
            let q : check t w ≡ ask_refresh (close cap t w') = ground arith in
            subst (Outcome t w) (sym q) (
              capped x (ended_by cap t.closed_at e) h (ground arith) (expected-close cap t w')
                (last?-close cap t w' e c.latest) (ended_by-closed_by cap t.closed_at e))
        | inr early ↦
            let w' = record w { timer = none; entries = amend checked_again w.entries } in
            let q : check t w ≡ probed_by t w' = ground arith in
            subst (Outcome t w) (sym q) (
              probed_outcome t w x h (ground arith) w' (checked_again e) refl refl
                (counted_IsCurrent w e c) refl)
      ]
    ]
