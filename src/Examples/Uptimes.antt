-- ===== src/Examples/Uptimes.antt =====
-- The boot-time latches, at concrete inputs.
use ha_zte_router_5g_monitor.Prelude.{
  ℕ, ◌+◌, ◌*◌, ◌≤◌, ◌<◌, ◌≡◌, refl, true, Option, none, some, [], ◌∷◌, arith, inl,
}
use ha_zte_router_5g_monitor.Prelude.Int.{ℤ, pos}
use ha_zte_router_5g_monitor.Value.{Value, int, Payload}
use ha_zte_router_5g_monitor.Coordinator.Uptime.{Latch, second}
use ha_zte_router_5g_monitor.Coordinator.Uptime.Rate.{derived_boot}
use ha_zte_router_5g_monitor.Coordinator.Uptime.Anchor.{whole}
use ha_zte_router_5g_monitor.Coordinator.Uptime.Reading.{apply_uptime}
use ha_zte_router_5g_monitor.Coordinator.Uptime.Bounds.{derived_boot_bounds}
use ha_zte_router_5g_monitor.Coordinator.Uptime.Written.{IsWritten, accepted-IsWritten}
use ha_zte_router_5g_monitor.Coordinator.Uptime.Moves.{anchor_never_moves_back, reset_moves_anchor}
use ha_zte_router_5g_monitor.Coordinator.Uptime.Source.{Uptimes, fresh_latch, readings}
use ha_zte_router_5g_monitor.Coordinator.Uptime.Source.Kept.{followed, source_is_kept}

-- A router that has run for a day and two hours at 95.7 % of wall time.
abbrev today : ℕ
today = 1764000000 * second

abbrev running_latch : Latch
running_latch = record fresh_latch {
  boot_time = some (1763900000 * second);
  last_counter = some 95700;
  last_poll_at = some today;
  startup_reconciled = true;
  drift_sum_wall = 100000 * second;
  drift_sum_counter = 95700 * second;
}

derived_boot_bounds_example :
    (4 * today ≤ 4 * derived_boot running_latch 95700 today + 5 * (95700 * second))
    × (6 * derived_boot running_latch 95700 today + 5 * (95700 * second) ≤ 6 * today + 6)
    × (0 < derived_boot running_latch 95700 today)
derived_boot_bounds_example =
    derived_boot_bounds running_latch 95700 today (omega arith) (omega arith)

accepted-IsWritten_example : IsWritten today (apply_uptime (some (pos 95700)) today running_latch)
accepted-IsWritten_example =
    accepted-IsWritten 95700 today running_latch (inl refl) (omega arith) (omega arith)

anchor_whole : whole (1763900000 * second) ≡ 1763900000 * second
unfolding whole
anchor_whole = refl

anchor_never_moves_back_example :
    (b : ℕ) × ((apply_uptime (some (pos 95800)) today running_latch).boot_time ≡ some b)
    × (1763900000 * second ≤ b)
    × (whole b ≡ b)
anchor_never_moves_back_example =
    anchor_never_moves_back 95800 today 95700 (1763900000 * second) running_latch (omega arith)
      (omega arith) refl refl (omega arith) refl anchor_whole

reset_moves_anchor_example :
    (apply_uptime (some (pos 40)) today running_latch).boot_time
    ≡ some (whole (derived_boot running_latch 40 today))
reset_moves_anchor_example =
    reset_moves_anchor 40 today 95700 running_latch (omega arith) (omega arith) refl refl
      (omega arith)

-- Only whole numbers are read.
abbrev int_number : Value → Option ℤ
int_number (int n) = some n
int_number _ = none

abbrev session_source : Uptimes
session_source = record {
  system = running_latch;
  connection = fresh_latch;
  uptime_source = some "realtime_time";
  saved_source = some "realtime_time";
}

abbrev booting : Payload
booting = ("system_uptime", int (pos 5)) ∷ ("realtime_time", int (pos 0)) ∷ []

source_is_kept_example :
    ((readings int_number ((booting, today) ∷ []) session_source).uptime_source
      ≡ some "realtime_time")
    × ((readings int_number ((booting, today) ∷ []) session_source).saved_source
        ≡ some "realtime_time")
    × ((readings int_number ((booting, today) ∷ []) session_source).system
        ≡ followed int_number "realtime_time" ((booting, today) ∷ []) running_latch)
source_is_kept_example =
    source_is_kept int_number ((booting, today) ∷ []) session_source "realtime_time" refl
