-- ===== src/Coordinator/Uptime/Anchor.antt =====
-- `_latch_boot_time` and the tests that decide on it
-- (custom_components/zte_router_5g/coordinator.py). Logging is left out, and the delayed save of the
-- store, which writes the `stored_` fields as they then stand.
use ha_zte_router_5g_monitor.Prelude.{
  ℕ, ◌+◌, ◌-◌, ◌*◌, ◌/◌, Bool, true, ◌||◌, Option, none, some, ltb, leb, if◌then◌else◌,
}
use ha_zte_router_5g_monitor.Coordinator.Uptime.{
  second, reboot_margin, shortfall_margin_floor, write_interval, Pace, Latch,
}
use ha_zte_router_5g_monitor.Coordinator.Uptime.Rate.{drift_rate, derived_boot}

-- `_write_counter`.
unfoldable pub write_counter : ℕ → ℕ → Latch → Latch
write_counter seconds now l = record l {
  stored_counter = some seconds;
  stored_written_at = some now;
  last_counter_write = some now;
}

-- `replace(microsecond=0)`.
unfoldable pub whole : ℕ → ℕ
whole at = at / second * second

-- `_latch_boot_time`.
unfoldable pub latch_boot_time : ℕ → ℕ → ℕ → Latch → Latch
latch_boot_time boot seconds now l =
    write_counter seconds now
      (record l { boot_time = some (whole boot); update = some (whole boot) })

-- The latch anchored where the reading says that the counter started.
unfoldable pub relatch : ℕ → ℕ → Latch → Latch
relatch seconds now l = latch_boot_time (derived_boot l seconds now) seconds now l

-- `_apply_runtime_uptime`.
unfoldable pub apply_runtime_uptime : ℕ → ℕ → Latch → Latch
apply_runtime_uptime seconds now l = elim l.last_counter [
  | none ↦ l
  | some last ↦ if ltb (seconds + reboot_margin) last then relatch seconds now l else l
]

-- `_cold_start_implausible`, with the quotients compared by multiplying.
unfoldable pub cold_start_implausible : ℕ → ℕ → Latch → Bool
cold_start_implausible seconds now l = elim l.boot_time [
  | none ↦ true
  | some boot ↦
      let s = seconds * second in
      let elapsed = now - boot in
      if leb now boot
      then true
      else if l.pauses
      then ltb (6 * elapsed) (5 * s)
      else ltb (5 * s) (4 * elapsed) || ltb (6 * elapsed) (5 * s)
]

unfoldable pub cold_start : ℕ → ℕ → Latch → Latch
cold_start seconds now l = if cold_start_implausible seconds now l then relatch seconds now l else l

-- `_floor_test`.
unfoldable pub floor_test : ℕ → ℕ → ℕ → Latch → Latch
floor_test stored seconds now l = if ltb seconds stored then relatch seconds now l else l

abbrev pub pace_or_even : Option Pace → Pace
pace_or_even none = record { num = 1; den = 1 }
pace_or_even (some p) = p

-- Whether the counter fell short of what the gap should have added: `seconds < expected - margin`,
-- multiplied out. The margin is the greater of the floor and a fiftieth of the gap.
unfoldable pub falls_short : ℕ → ℕ → ℕ → Pace → Bool
falls_short stored seconds elapsed p =
    let margin =
      if ltb elapsed (50 * shortfall_margin_floor) then 50 * shortfall_margin_floor else elapsed in
    ltb ((50 * (seconds * second) + margin) * p.den)
      (50 * (stored * second * p.den + elapsed * p.num))

-- `_shortfall_test`.
unfoldable pub shortfall_test : ℕ → ℕ → ℕ → ℕ → Latch → Latch
shortfall_test stored written seconds now l =
    if ltb now written
    then cold_start seconds now l
    else if falls_short stored seconds (now - written) (pace_or_even (drift_rate l))
    then relatch seconds now l
    else l

unfoldable pub startup_test : ℕ → ℕ → Latch → Latch
startup_test seconds now l = elim l.stored_counter [
  | none ↦ cold_start seconds now l
  | some stored ↦ elim l.stored_written_at [
    | none ↦ floor_test stored seconds now l
    | some written ↦
        if l.pauses
        then floor_test stored seconds now l
        else shortfall_test stored written seconds now l
  ]
]

-- `_reconcile_startup_uptime`, with `_finish_startup`.
unfoldable pub reconcile_startup_uptime : ℕ → ℕ → Latch → Latch
reconcile_startup_uptime seconds now l = record (startup_test seconds now l) {
  startup_reconciled = true;
}

-- Whether the counter over the time since the anchor is within a twentieth of its pace.
unfoldable pub is_near : ℕ → ℕ → Pace → Bool
is_near seconds elapsed p =
    let seen = seconds * second * p.den in
    let expected = p.num * elapsed in
    leb (20 * ((seen - expected) + (expected - seen))) (elapsed * p.den)

-- `_check_anchor_plausible`.
unfoldable pub check_anchor_plausible : ℕ → ℕ → Latch → Latch
check_anchor_plausible seconds now l = elim (drift_rate l) [
  | none ↦ l
  | some p ↦ elim l.boot_time [
    | none ↦ l
    | some boot ↦
        if leb now boot || is_near seconds (now - boot) p || leb (derived_boot l seconds now) boot
        then l
        else relatch seconds now l
  ]
]

-- `_maybe_persist_counter`.
unfoldable pub maybe_persist_counter : ℕ → ℕ → Latch → Latch
maybe_persist_counter seconds now l = elim l.last_counter_write [
  | none ↦ write_counter seconds now l
  | some at ↦ if ltb now (at + write_interval) then l else write_counter seconds now l
]
