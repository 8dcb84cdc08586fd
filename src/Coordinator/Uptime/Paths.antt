-- ===== src/Coordinator/Uptime/Paths.antt =====
-- What each test of a latch (custom_components/zte_router_5g/coordinator.py) can do to it: nothing, or
-- one new anchor.
use ha_zte_router_5g_monitor.Prelude.{
  ℕ, ◌+◌, ◌-◌, ◌*◌, ◌≡◌, refl, sym, subst, Bool, true, false, ◌||◌, arith, ltb, leb, Option-cases,
  Bool-cases, inl, inr, ◌⊎◌, if◌then◌else◌,
}
use ha_zte_router_5g_monitor.Coordinator.Uptime.{Latch, drift_min_interval, second, reboot_margin}
use ha_zte_router_5g_monitor.Coordinator.Uptime.Rate.{
  record_drift_sample, add_sample, scaled, drift_rate, derived_boot,
}
use ha_zte_router_5g_monitor.Coordinator.Uptime.Anchor.{
  relatch, startup_test, cold_start, floor_test, shortfall_test, apply_runtime_uptime,
  check_anchor_plausible, is_near, cold_start_implausible, falls_short, pace_or_even,
}

-- The latch as it was, or anchored anew.
abbrev pub KeepsOrMoves : ℕ → ℕ → Latch → Latch → Type 0
KeepsOrMoves seconds now l l' = (l' ≡ l) ⊎ (l' ≡ relatch seconds now l)

if_moves :
    (b : Bool) (seconds now : ℕ) (l : Latch)
    → KeepsOrMoves seconds now l (if b then relatch seconds now l else l)
if_moves true seconds now l = inr refl
if_moves false seconds now l = inl refl

module _ (seconds now : ℕ) (l : Latch) where
  pub runtime_moves : KeepsOrMoves seconds now l (apply_runtime_uptime seconds now l)
  unfolding apply_runtime_uptime
  runtime_moves = elim (Option-cases l.last_counter) [
    | inl n ↦ inl (ground arith)
    | inr (last, h) ↦
        let m = if_moves (ltb (seconds + reboot_margin) last) seconds now l in ground (arith, m)
  ]

  cold_moves : KeepsOrMoves seconds now l (cold_start seconds now l)
  unfolding cold_start
  cold_moves = if_moves (cold_start_implausible seconds now l) seconds now l

  floor_moves : (stored : ℕ) → KeepsOrMoves seconds now l (floor_test stored seconds now l)
  unfolding floor_test
  floor_moves stored = if_moves (ltb seconds stored) seconds now l

  shortfall_moves :
      (stored written : ℕ)
      → KeepsOrMoves seconds now l (shortfall_test stored written seconds now l)
  unfolding shortfall_test
  shortfall_moves stored written =
      let m =
        if_moves (falls_short stored seconds (now - written) (pace_or_even (drift_rate l))) seconds
          now l in
      let c = cold_moves in ground (arith, m, c)

  pub startup_moves : KeepsOrMoves seconds now l (startup_test seconds now l)
  unfolding startup_test
  startup_moves = elim (Option-cases l.stored_counter) [
    | inl n ↦ let c = cold_moves in ground (arith, c)
    | inr (stored, h) ↦ elim (Option-cases l.stored_written_at) [
      | inl n ↦ let c = floor_moves stored in ground (arith, c)
      | inr (written, k) ↦
          let c = floor_moves stored in
          let d = shortfall_moves stored written in ground (arith, c, d)
    ]
  ]

  pub plausible_moves : KeepsOrMoves seconds now l (check_anchor_plausible seconds now l)
  unfolding check_anchor_plausible
  plausible_moves = elim (Option-cases (drift_rate l)) [
    | inl n ↦ inl (ground arith)
    | inr (p, h) ↦ elim (Option-cases l.boot_time) [
      | inl n ↦ inl (ground arith)
      | inr (boot, k) ↦
          elim (Bool-cases (
            leb now boot
            || is_near seconds (now - boot) p
            || leb (derived_boot l seconds now) boot)) [
              | inl y ↦ inl (ground arith)
              | inr y ↦ inr (ground arith)
            ]
    ]
  ]

-- Two latches that differ at most in what was learned of the pace.
pub record SameAnchor (l l' : Latch) : Type 0 where
  pub boot_time : l'.boot_time ≡ l.boot_time
  pub last_counter : l'.last_counter ≡ l.last_counter
  pub startup_reconciled : l'.startup_reconciled ≡ l.startup_reconciled
  pub stored_counter : l'.stored_counter ≡ l.stored_counter
  pub stored_written_at : l'.stored_written_at ≡ l.stored_written_at
  pub last_counter_write : l'.last_counter_write ≡ l.last_counter_write

same : (l : Latch) → SameAnchor l l
same l = record {
  boot_time = refl;
  last_counter = refl;
  startup_reconciled = refl;
  stored_counter = refl;
  stored_written_at = refl;
  last_counter_write = refl;
}

add_sample-SameAnchor : (advance wall : ℕ) (l : Latch) → SameAnchor l (add_sample advance wall l)
unfolding add_sample scaled
add_sample-SameAnchor advance wall l = record {
  boot_time = ground arith;
  last_counter = ground arith;
  startup_reconciled = ground arith;
  stored_counter = ground arith;
  stored_written_at = ground arith;
  last_counter_write = ground arith;
}

sample_path :
    (seconds now : ℕ) (l : Latch)
    → (record_drift_sample seconds now l ≡ l)
      ⊎ ((advance : ℕ) × (wall : ℕ) × (record_drift_sample seconds now l
            ≡ add_sample advance wall l))
unfolding record_drift_sample
sample_path seconds now l = elim (Option-cases l.last_counter) [
  | inl n ↦ inl (ground arith)
  | inr (last, h) ↦ elim (Option-cases l.last_poll_at) [
    | inl n ↦ inl (ground arith)
    | inr (at, k) ↦
        elim (Bool-cases (l.pauses || (ltb (now - at) drift_min_interval || leb seconds last))) [
          | inl y ↦ inl (ground arith)
          | inr y ↦ inr ((seconds - last) * second, now - at, ground arith)
        ]
  ]
]

pub sample-SameAnchor :
    (seconds now : ℕ) (l : Latch) → SameAnchor l (record_drift_sample seconds now l)
sample-SameAnchor seconds now l = elim (sample_path seconds now l) [
  | inl q ↦ subst (SameAnchor l) (sym q) (same l)
  | inr (advance, wall, q) ↦ subst (SameAnchor l) (sym q) (add_sample-SameAnchor advance wall l)
]
