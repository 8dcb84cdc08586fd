-- ===== src/Coordinator/Uptime.antt =====
-- The boot-time latches of custom_components/zte_router_5g/coordinator.py: an uptime counter, the
-- instant it started, and what was learned of its pace.
pub mod Rate
pub mod Anchor
pub mod Reading
pub mod Source
pub mod Bounds
pub mod Paths
pub mod Moves
pub mod Written
use ha_zte_router_5g_monitor.Prelude.{ℕ, ◌*◌, Bool, Option}

-- Instants and durations are microseconds, the instants since 1970 in UTC; a counter is in seconds.
abbrev pub second : ℕ
second = 1000000

abbrev pub reboot_margin : ℕ
reboot_margin = 30

-- The start of `CLOCK_FLOOR_YEAR`, 2024.
abbrev pub clock_floor : ℕ
clock_floor = 1704067200 * second

abbrev pub max_plausible_uptime : ℕ
max_plausible_uptime = 315360000

abbrev pub drift_min_interval : ℕ
drift_min_interval = 60 * second

abbrev pub drift_min_accumulated : ℕ
drift_min_accumulated = 3600 * second

abbrev pub drift_accumulator_cap : ℕ
drift_accumulator_cap = 2592000 * second

abbrev pub shortfall_margin_floor : ℕ
shortfall_margin_floor = 300 * second

abbrev pub write_interval : ℕ
write_interval = 1200 * second

-- A share of wall time, `num / den`. Where the source keeps a rate `r`, this is `1 - r`.
pub record Pace : Type 0 where
  pub num : ℕ
  pub den : ℕ

-- `_UptimeLatch`, without its label and keys. The two sums are exact where the source adds floats.
-- `update` is what `entry_data_updates` holds under the latch's `boot_key`.
pub record Latch : Type 0 where
  pub pauses : Bool
  pub boot_time : Option ℕ
  pub last_counter : Option ℕ
  pub last_poll_at : Option ℕ
  pub startup_reconciled : Bool
  pub stored_counter : Option ℕ
  pub stored_written_at : Option ℕ
  pub last_counter_write : Option ℕ
  pub drift_sum_wall : ℕ
  pub drift_sum_counter : ℕ
  pub drift_interval_count : ℕ
  pub slowest : Option Pace
  pub fastest : Option Pace
  pub update : Option ℕ
