-- ===== src/Coordinator/Outage/Kept.antt =====
-- The check (custom_components/zte_router_5g/coordinator.py, `_async_outage_check`) keeps the window sound.
use ha_zte_router_5g_monitor.Prelude.{
  ℕ, ◌+◌, ◌≤◌, ◌≡◌, sym, ap, subst, ◌∙◌, true, false, ◌&&◌, none, length, arith, leb, inl, inr,
  Bool-cases, Option-cases,
}
use ha_zte_router_5g_monitor.Coordinator.Outage.{
  cap, no_outage, answer, Entry, Window, Tick, expired, amend, schedule, close, probed_by, check,
  checked_again, went_down, came_back, ask_refresh, hold,
}
use ha_zte_router_5g_monitor.Coordinator.Outage.Sound.{
  is_some, last?-amend, length-amend, IsCurrent, IsSound, close-IsSound, schedule-IsSound,
}
use ha_zte_router_5g_monitor.Coordinator.Outage.Closing.{counted_IsCurrent}

awaiting-IsSound :
    (t : Tick) (w : Window) (e : Entry)
    → IsCurrent w e
    → is_some w.expected ≡ true
    → length w.entries ≤ 5
    → w.awaiting_drop ≡ true
    → IsSound (probed_by t w)
unfolding probed_by
awaiting-IsSound t w e c o few a =
    let down = record w { awaiting_drop = false; entries = amend (went_down t.stamp) w.entries } in
    elim (Bool-cases t.answered) [
      | inr n ↦
          let q : probed_by t w ≡ schedule t.ended down = ground arith in
          let d : IsCurrent down (went_down t.stamp e) = record {
            latest = last?-amend (went_down t.stamp) w.entries e c.latest;
            unclosed = c.unclosed;
            unmeasured = ground arith;
            dropped = ground arith;
          } in
          subst IsSound (sym q) (
            schedule-IsSound t.ended down (went_down t.stamp e) o
              (omega (arith, length-amend (went_down t.stamp) w.entries)) d)
      | inl y ↦ elim (Bool-cases (leb (w.opened_mono + hold) t.probed && t.polled)) [
        | inl z ↦
            let q : probed_by t w ≡ close no_outage t w = ground arith in
            subst IsSound (sym q) (close-IsSound no_outage t w few)
        | inr z ↦
            let q : probed_by t w ≡ schedule t.ended w = ground arith in
            subst IsSound (sym q) (schedule-IsSound t.ended w e o few c)
      ]
    ]

came_back_keeps :
    (stamp : ℕ) (e : Entry)
    → ((came_back stamp e).closed_by ≡ e.closed_by) × ((came_back stamp e).down_at ≡ e.down_at)
came_back_keeps stamp e = ground arith

returning-IsSound :
    (t : Tick) (w : Window) (e : Entry)
    → IsCurrent w e
    → is_some w.expected ≡ true
    → length w.entries ≤ 5
    → w.awaiting_drop ≡ false
    → IsSound (probed_by t w)
unfolding probed_by
returning-IsSound t w e c o few a =
    let back = record w { entries = amend (came_back t.stamp) w.entries } in
    let n = length-amend (came_back t.stamp) w.entries in
    elim (Bool-cases t.answered) [
      | inr n ↦
          let q : probed_by t w ≡ schedule t.ended w = ground arith in
          subst IsSound (sym q) (schedule-IsSound t.ended w e o few c)
      | inl y ↦ elim (Bool-cases t.polled) [
        | inl z ↦
            let q : probed_by t w ≡ close answer t back = ground arith in
            subst IsSound (sym q) (close-IsSound answer t back (omega arith))
        | inr z ↦
            let q : probed_by t w ≡ schedule t.ended back = ground arith in
            let (by, down) = came_back_keeps t.stamp e in
            let dropped = c.dropped in
            let unmeasured = c.unmeasured in
            let b : IsCurrent back (came_back t.stamp e) = record {
              latest = last?-amend (came_back t.stamp) w.entries e c.latest;
              unclosed = by ∙ c.unclosed;
              unmeasured = ground arith;
              dropped = λ f. ap is_some down ∙ dropped f;
            } in
            subst IsSound (sym q)
              (schedule-IsSound t.ended back (came_back t.stamp e) o (omega arith) b)
      ]
    ]

-- A check of a sound window leaves a sound one, whatever the router answers: the timer is armed again
-- exactly when the window stays open.
pub check-IsSound : (t : Tick) (w : Window) → IsSound w → IsSound (check t w)
unfolding check
check-IsSound t w v =
    let few = v.few in
    elim (Option-cases w.expected) [
      | inl n ↦
          let q : check t w ≡ record w { timer = none } = ground arith in
          let rest = v.resting in
          subst IsSound (sym q) (record {
            armed = ground arith;
            resting = v.resting;
            few = few;
            current = ground arith;
          })
      | inr (x, h) ↦ elim (Bool-cases (expired x t.fired)) [
        | inl late ↦
            let w' = record w { timer = none } in
            let q : check t w ≡ ask_refresh (close cap t w') = ground arith in
            let s = close-IsSound cap t w' few in
            subst IsSound (sym q)
              (record { armed = s.armed; resting = s.resting; few = s.few; current = ground arith })
        | inr early ↦
            let w' = record w { timer = none; entries = amend checked_again w.entries } in
            let q : check t w ≡ probed_by t w' = ground arith in
            let (e, c) = v.current (ground arith) in
            let c' = counted_IsCurrent w e c in
            let few' : length w'.entries ≤ 5 =
              omega (arith, length-amend checked_again w.entries) in
            subst IsSound (sym q) (elim (Bool-cases w.awaiting_drop) [
              | inl a ↦ awaiting-IsSound t w' (checked_again e) c' (ground arith) few' a
              | inr a ↦ returning-IsSound t w' (checked_again e) c' (ground arith) few' a
            ])
      ]
    ]
