-- ===== src/Coordinator/Outage/Phases.antt =====
-- The windows that the handlers of the expected-outage window (custom_components/zte_router_5g/coordinator.py)
-- reach, until the coordinator is shut down.
use ha_zte_router_5g_monitor.Prelude.{ℕ, refl, false, none, [], arith}
use ha_zte_router_5g_monitor.Coordinator.Outage.{
  Reason, Window, Tick, open_window, check, follow_up,
}
use ha_zte_router_5g_monitor.Coordinator.Outage.Sound.{IsSound, open_window-IsSound}
use ha_zte_router_5g_monitor.Coordinator.Outage.Kept.{check-IsSound}

abbrev pub idle : Window
idle = record {
  expected = none;
  awaiting_drop = false;
  opened_mono = 0;
  timer = none;
  followup = none;
  entries = [];
  requested = 0;
}

-- The windows that the handlers reach, from the start of the integration: commands open one at any
-- time, whatever is open, and the two timers run.
pub data Reached : Window → Type 0 where
  starts : Reached idle
  opens :
      {w : Window} (reason : Reason) (cap_seconds now wall : ℕ)
      → Reached w
      → Reached (open_window reason cap_seconds now wall w)
  checks : {w : Window} (t : Tick) → Reached w → Reached (check t w)
  follows : {w : Window} → Reached w → Reached (follow_up w)

follow_up-IsSound : (w : Window) → IsSound w → IsSound (follow_up w)
unfolding follow_up
follow_up-IsSound w v = record {
  armed = v.armed;
  resting = v.resting;
  few = v.few;
  current = λ o.
      let (e, c) = v.current o in
      (
        e,
        record {
          latest = c.latest;
          unclosed = c.unclosed;
          unmeasured = c.unmeasured;
          dropped = c.dropped;
        },
      );
}

idle-IsSound : IsSound idle
idle-IsSound = record {
  armed = refl;
  resting = λ h. refl;
  few = omega arith;
  current = λ h. ground arith;
}

-- Every window that the handlers reach is sound: the check is armed exactly while a window is open, at
-- most five records are kept, and the record of the open window is the last, not closed, and says when
-- the router went down exactly when that is no longer awaited.
pub Reached-IsSound : (w : Window) → Reached w → IsSound w
Reached-IsSound w starts = idle-IsSound
Reached-IsSound w (opens {w = v} reason cap_seconds now wall r) =
    open_window-IsSound reason cap_seconds now wall v
Reached-IsSound w (checks {w = v} t r) = check-IsSound t v (Reached-IsSound v r)
Reached-IsSound w (follows {w = v} r) = follow_up-IsSound v (Reached-IsSound v r)
