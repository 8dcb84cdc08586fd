-- ===== src/Coordinator/Uptime/Reading.antt =====
-- `_apply_uptime` and `_apply_uptime_readings` (custom_components/zte_router_5g/coordinator.py).
use ha_zte_router_5g_monitor.Prelude.{ℕ, ◌||◌, Option, none, some, ltb, if◌then◌else◌}
use ha_zte_router_5g_monitor.Prelude.Int.{ℤ, pos, negsuc}
use ha_zte_router_5g_monitor.Coordinator.Uptime.{clock_floor, max_plausible_uptime, Latch}
use ha_zte_router_5g_monitor.Coordinator.Uptime.Rate.{record_drift_sample}
use ha_zte_router_5g_monitor.Coordinator.Uptime.Anchor.{
  apply_runtime_uptime, reconcile_startup_uptime, check_anchor_plausible, maybe_persist_counter,
}

-- The comparison that fits: at run time with the last reading, at the start with the stored one.
unfoldable pub tested : ℕ → ℕ → Latch → Latch
tested seconds now l =
    if l.startup_reconciled
    then apply_runtime_uptime seconds now l
    else reconcile_startup_uptime seconds now l

-- A reading that passed the guards.
unfoldable pub accept : ℕ → ℕ → Latch → Latch
accept seconds now l =
    let sampled = record_drift_sample seconds now l in
    let checked = check_anchor_plausible seconds now (tested seconds now sampled) in
    maybe_persist_counter seconds now
      (record checked { last_counter = some seconds; last_poll_at = some now })

-- `_apply_uptime`, on what `int(float(raw))` gives, `none` where there is no number.
unfoldable pub apply_uptime : Option ℤ → ℕ → Latch → Latch
apply_uptime none now l = l
apply_uptime (some (negsuc n)) now l = l
apply_uptime (some (pos seconds)) now l =
    if ltb now clock_floor || ltb max_plausible_uptime seconds then l else accept seconds now l
