-- ===== src/Coordinator/Outage/Deadline.antt =====
-- When an expected-outage window (custom_components/zte_router_5g/coordinator.py) is closed at the latest.
use ha_zte_router_5g_monitor.Prelude.{
  ℕ, ◌+◌, ◌*◌, ◌≤◌, ◌≡◌, refl, ap, ◌∙◌, Bool, true, false, ◌&&◌, Option, none, some, List, [], ◌∷◌,
  ◌++◌, length, arith, leb, if◌then◌else◌, ◌⊎◌, inl, inr, Bool-cases,
}
use ha_zte_router_5g_monitor.Coordinator.Outage.{Expected, Window, Tick, cap, expired, check}
use ha_zte_router_5g_monitor.Coordinator.Outage.Sound.{
  is_some, IsSound, Outcome, waits, capped, never_dropped, returned,
}
use ha_zte_router_5g_monitor.Coordinator.Outage.Closing.{check_outcome, expected-close}
use ha_zte_router_5g_monitor.Coordinator.Outage.Kept.{check-IsSound}

-- A check fires when its timer is due or up to `lag` later, and ends up to `run` after that.
abbrev pub punctual : ℕ → ℕ → Option ℕ → Tick → Bool
punctual lag run none t = true
punctual lag run (some due) t =
    leb due t.fired && leb t.fired (due + lag) && leb t.fired t.ended && leb t.ended (t.fired + run)

-- Checks in a row.
unfoldable pub checks : List Tick → Window → Window
checks [] w = w
checks (t ∷ ts) w = checks ts (check t w)

-- Each check is punctual.
unfoldable pub on_time : ℕ → ℕ → List Tick → Window → Bool
on_time lag run [] w = true
on_time lag run (t ∷ ts) w =
    let rest = on_time lag run ts (check t w) in punctual lag run w.timer t && rest

wait_lem :
    (now : ℕ) (b : Bool)
    → (now + 1000 ≤ now + (if b then 1000 else 5000))
      × (now + (if b then 1000 else 5000) ≤ now + 5000)
wait_lem now true = (omega arith, omega arith)
wait_lem now false = (omega arith, omega arith)

-- After one check the window is closed, or its next check is due one to five seconds later.
step_outcome :
    (t : Tick) (w : Window) (x : Expected)
    → IsSound w
    → w.expected ≡ some x
    → ((check t w).expected ≡ none)
      ⊎ ((due : ℕ) × ((check t w).timer ≡ some due)
          × ((check t w).expected ≡ some x)
          × (t.ended + 1000 ≤ due)
          × (due ≤ t.ended + 5000))
step_outcome t w x v h = by_outcome (check_outcome t w v (ground arith))
  where
    by_outcome :
        Outcome t w (check t w)
        → ((check t w).expected ≡ none)
          ⊎ ((due : ℕ) × ((check t w).timer ≡ some due)
              × ((check t w).expected ≡ some x)
              × (t.ended + 1000 ≤ due)
              × (due ≤ t.ended + 5000))
    by_outcome (waits y _ _ _ q _ s) = inr (
      t.ended + (if (check t w).awaiting_drop then 1000 else 5000),
      s,
      q ∙ h,
      (wait_lem t.ended (check t w).awaiting_drop).0,
      (wait_lem t.ended (check t w).awaiting_drop).1,
    )
    by_outcome (capped y e _ _ q _ _) = inl q
    by_outcome (never_dropped y e _ _ _ _ q _ _ _) = inl q
    by_outcome (returned y e _ _ _ _ q _ _ _) = inl q

late_check :
    (t : Tick) (w : Window) (x : Expected)
    → w.expected ≡ some x
    → x.deadline ≤ t.fired
    → (check t w).expected ≡ none
unfolding check
late_check t w x h le =
    let q = expected-close cap t (record w { timer = none }) in ground (arith, q)

-- The check that closes the window: it finds it open, leaves it closed, and fires by some time.
abbrev pub ClosesBy : ℕ → List Tick → Window → Type 0
ClosesBy latest ts w =
    (before : List Tick) × (t : Tick) × (after : List Tick) × (ts ≡ before ++ t ∷ after)
    × (is_some (checks before w).expected ≡ true)
    × ((check t (checks before w)).expected ≡ none)
    × (t.fired ≤ latest)

closes_here :
    (latest : ℕ) (t : Tick) (ts : List Tick) (w : Window)
    → is_some w.expected ≡ true
    → (check t w).expected ≡ none
    → t.fired ≤ latest
    → ClosesBy latest (t ∷ ts) w
unfolding checks
closes_here latest t ts w o s le = ([], t, ts, refl, o, s, le)

closes_later :
    (latest : ℕ) (t : Tick) (ts : List Tick) (w : Window)
    → ClosesBy latest ts (check t w)
    → ClosesBy latest (t ∷ ts) w
unfolding checks
closes_later latest t ts w (before, u, after, q, o, s, le) =
    (t ∷ before, u, after, ap (◌∷◌ t) q, o, s, le)

-- A sound window whose next check is due at `due`, where every check fires at most `lag` after it is due
-- and takes at most `run`, and `due` is at most five seconds and `run` behind the deadline: among any
-- checks of which there is one more than the seconds from `due` to the deadline, one finds the window
-- open and closes it, and it fires at most five seconds, `run` and `lag` after the deadline.
pub closes_in_time :
    (lag run : ℕ) (ts : List Tick) (w : Window) (x : Expected) (due : ℕ)
    → IsSound w
    → w.expected ≡ some x
    → w.timer ≡ some due
    → due ≤ x.deadline + 5000 + run
    → on_time lag run ts w ≡ true
    → x.deadline + 1000 ≤ due + 1000 * length ts
    → 1 ≤ length ts
    → ClosesBy (x.deadline + 5000 + run + lag) ts w
unfolding on_time
closes_in_time lag run [] w x due v h d by o le one = absurd (omega arith)
closes_in_time lag run (t ∷ ts) w x due v h d by o le one =
    let latest : ℕ = x.deadline + 5000 + run + lag in
    let fires : t.fired ≤ latest = ground arith in
    let open_now : is_some w.expected ≡ true = ground arith in
    elim (Bool-cases (expired x t.fired)) [
      | inl late ↦ closes_here latest t ts w open_now (late_check t w x h (ground arith)) fires
      | inr early ↦ elim (step_outcome t w x v h) [
        | inl q ↦ closes_here latest t ts w open_now q fires
        | inr (due', s, q, soon, near) ↦ closes_later latest t ts w (
            closes_in_time lag run ts (check t w) x due' (check-IsSound t w v) q s (ground arith)
              (ground arith) (ground arith) (ground arith))
      ]
    ]
