-- ===== src/Coordinator/Uptime/Rate.antt =====
-- `_drift_rate`, `_record_drift_sample` and `_derived_boot`
-- (custom_components/zte_router_5g/coordinator.py): how fast a counter runs.
use ha_zte_router_5g_monitor.Prelude.{
  ℕ, suc, ◌+◌, ◌-◌, ◌*◌, ◌/◌, Bool, ◌||◌, Option, none, some, ltb, leb, if◌then◌else◌,
}
use ha_zte_router_5g_monitor.Coordinator.Uptime.{
  second, drift_min_interval, drift_min_accumulated, drift_accumulator_cap, Pace, Latch,
}

-- `1 - max(-MAX_DRIFT, min(MAX_DRIFT, 1 - counter / wall))`, with `MAX_DRIFT` one fifth.
unfoldable pub clamped : ℕ → ℕ → Pace
clamped counter wall =
    if ltb (5 * counter) (4 * wall)
    then record { num = 4; den = 5 }
    else if ltb (6 * wall) (5 * counter)
    then record { num = 6; den = 5 }
    else record { num = counter; den = wall }

-- `_drift_rate`.
unfoldable pub drift_rate : Latch → Option Pace
drift_rate l =
    if l.pauses || ltb l.drift_sum_wall drift_min_accumulated
    then none
    else some (clamped l.drift_sum_counter l.drift_sum_wall)

-- `p` is a greater share than `q`.
abbrev pub faster : Pace → Pace → Bool
faster p q = ltb (q.num * p.den) (p.num * q.den)

-- `drift_rate_min` is the pace of the fastest sample, `drift_rate_max` that of the slowest.
abbrev pub max_pace : Option Pace → Pace → Pace
max_pace none p = p
max_pace (some q) p = if faster p q then p else q

abbrev pub min_pace : Option Pace → Pace → Pace
min_pace none p = p
min_pace (some q) p = if faster q p then p else q

-- The scaling that keeps the sums below the cap; the counter's is rounded down.
unfoldable pub scaled : Latch → Latch
scaled l =
    if ltb drift_accumulator_cap l.drift_sum_wall
    then record l {
      drift_sum_wall = drift_accumulator_cap;
      drift_sum_counter = l.drift_sum_counter * drift_accumulator_cap / l.drift_sum_wall;
    }
    else l

unfoldable pub add_sample : ℕ → ℕ → Latch → Latch
add_sample advance wall l =
    let sample : Pace = record { num = advance; den = wall } in
    scaled (record l {
      drift_sum_wall = l.drift_sum_wall + wall;
      drift_sum_counter = l.drift_sum_counter + advance;
      drift_interval_count = suc l.drift_interval_count;
      fastest = some (max_pace l.fastest sample);
      slowest = some (min_pace l.slowest sample);
    })

-- `_record_drift_sample`.
unfoldable pub record_drift_sample : ℕ → ℕ → Latch → Latch
record_drift_sample seconds now l = if l.pauses then l else elim l.last_counter [
  | none ↦ l
  | some last ↦ elim l.last_poll_at [
    | none ↦ l
    | some at ↦
        if ltb (now - at) drift_min_interval || leb seconds last
        then l
        else add_sample ((seconds - last) * second) (now - at) l
  ]
]

-- The wall time that the counter stands for, rounded down to the microsecond.
unfoldable pub elapsed_of : Option Pace → ℕ → ℕ
elapsed_of none seconds = seconds * second
elapsed_of (some p) seconds = seconds * second * p.den / p.num

-- `_derived_boot`.
unfoldable pub derived_boot : Latch → ℕ → ℕ → ℕ
derived_boot l seconds now = now - elapsed_of (drift_rate l) seconds
