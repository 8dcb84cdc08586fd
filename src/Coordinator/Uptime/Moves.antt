-- ===== src/Coordinator/Uptime/Moves.antt =====
-- When a latch's anchor moves at run time (`_apply_uptime` of
-- custom_components/zte_router_5g/coordinator.py).
use ha_zte_router_5g_monitor.Prelude.{
  ℕ, ◌+◌, ◌-◌, ◌≤◌, ◌<◌, ◌≡◌, refl, ◌∙◌, ap, true, ◌||◌, some, arith, leb, Option-cases, Bool-cases,
  inl, inr, ◌⊎◌,
}
use ha_zte_router_5g_monitor.Prelude.Int.{pos}
use ha_zte_router_5g_monitor.Coordinator.Uptime.{Latch, clock_floor, max_plausible_uptime}
use ha_zte_router_5g_monitor.Coordinator.Uptime.Rate.{record_drift_sample, drift_rate, derived_boot}
use ha_zte_router_5g_monitor.Coordinator.Uptime.Anchor.{
  relatch, latch_boot_time, write_counter, whole, apply_runtime_uptime, check_anchor_plausible,
  maybe_persist_counter, is_near,
}
use ha_zte_router_5g_monitor.Coordinator.Uptime.Paths.{sample-SameAnchor, plausible_moves}
use ha_zte_router_5g_monitor.Coordinator.Uptime.Reading.{tested, accept, apply_uptime}
use ha_zte_router_5g_monitor.Coordinator.Uptime.Written.{accepts}

whole_lt : (b d : ℕ) → whole b ≡ b → b < d → b ≤ whole d
unfolding whole
whole_lt b d w h = omega (arith, w, h)

whole-whole : (d : ℕ) → whole (whole d) ≡ whole d
unfolding whole
whole-whole d = omega arith

no_sample :
    (seconds now last : ℕ) (l : Latch)
    → l.last_counter ≡ some last
    → seconds ≤ last
    → record_drift_sample seconds now l ≡ l
unfolding record_drift_sample
no_sample seconds now last l h le = elim (Option-cases l.last_poll_at) [
  | inl n ↦ ground arith
  | inr (at, k) ↦ ground arith
]

persist_keeps :
    (seconds now : ℕ) (l : Latch) → (maybe_persist_counter seconds now l).boot_time ≡ l.boot_time
unfolding maybe_persist_counter write_counter
persist_keeps seconds now l = elim (Option-cases l.last_counter_write) [
  | inl n ↦ ground arith
  | inr (at, k) ↦ ground arith
]

accept_boot :
    (seconds now : ℕ) (l : Latch)
    → (accept seconds now l).boot_time
      ≡ (check_anchor_plausible seconds now
          (tested seconds now (record_drift_sample seconds now l))).boot_time
unfolding accept
accept_boot seconds now l = persist_keeps seconds now _

relatch_boot :
    (seconds now : ℕ) (l : Latch)
    → (relatch seconds now l).boot_time ≡ some (whole (derived_boot l seconds now))
unfolding relatch latch_boot_time write_counter
relatch_boot seconds now l = refl

derived-relatch :
    (seconds now : ℕ) (l : Latch)
    → derived_boot (relatch seconds now l) seconds now ≡ derived_boot l seconds now
unfolding relatch latch_boot_time write_counter derived_boot drift_rate
derived-relatch seconds now l = refl

-- A second check of the same reading moves a new anchor to where it stands.
plausible_again :
    (seconds now : ℕ) (l : Latch)
    → (check_anchor_plausible seconds now (relatch seconds now l)).boot_time
      ≡ some (whole (derived_boot l seconds now))
plausible_again seconds now l =
    let m = relatch seconds now l in
    elim (plausible_moves seconds now m) [
      | inl q ↦ ap (λ (x : Latch). x.boot_time) q ∙ relatch_boot seconds now l
      | inr q ↦
          ap (λ (x : Latch). x.boot_time) q
          ∙ relatch_boot seconds now m
          ∙ ap (λ d. some (whole d)) (derived-relatch seconds now l)
    ]

tested_reset :
    (seconds now last : ℕ) (l : Latch)
    → l.startup_reconciled ≡ true
    → l.last_counter ≡ some last
    → seconds + 30 < last
    → tested seconds now l ≡ relatch seconds now l
unfolding tested apply_runtime_uptime
tested_reset seconds now last l r h lt = ground arith

tested_steady :
    (seconds now last : ℕ) (l : Latch)
    → l.startup_reconciled ≡ true
    → l.last_counter ≡ some last
    → last ≤ seconds + 30
    → tested seconds now l ≡ l
unfolding tested apply_runtime_uptime
tested_steady seconds now last l r h le = ground arith

plausible_later :
    (seconds now b : ℕ) (l : Latch)
    → l.boot_time ≡ some b
    → ((check_anchor_plausible seconds now l).boot_time ≡ some b)
      ⊎ (((check_anchor_plausible seconds now l).boot_time
            ≡ some (whole (derived_boot l seconds now)))
          × (b < derived_boot l seconds now))
unfolding check_anchor_plausible
plausible_later seconds now b l h = elim (Option-cases (drift_rate l)) [
  | inl n ↦ inl (ground arith)
  | inr (p, k) ↦
      elim (Bool-cases
        (leb now b || is_near seconds (now - b) p || leb (derived_boot l seconds now) b)) [
          | inl y ↦ inl (ground arith)
          | inr y ↦ let m = relatch_boot seconds now l in inr (ground (arith, m), ground arith)
        ]
]

-- At run time, while the counter does not fall by more than thirty seconds, the anchor is kept or
-- moves later, to a whole second: never earlier.
pub anchor_never_moves_back :
    (seconds now last b : ℕ) (l : Latch)
    → clock_floor ≤ now
    → seconds ≤ max_plausible_uptime
    → l.startup_reconciled ≡ true
    → l.last_counter ≡ some last
    → last ≤ seconds + 30
    → l.boot_time ≡ some b
    → whole b ≡ b
    → (b' : ℕ) × ((apply_uptime (some (pos seconds)) now l).boot_time ≡ some b')
      × (b ≤ b')
      × (whole b' ≡ b')
anchor_never_moves_back seconds now last b l floor limit r h le k w =
    let s = record_drift_sample seconds now l in
    let v = sample-SameAnchor seconds now l in
    let t = tested_steady seconds now last s (v.startup_reconciled ∙ r) (v.last_counter ∙ h) le in
    let e =
      ap (λ (x : Latch). x.boot_time) (accepts seconds now l floor limit)
      ∙ accept_boot seconds now l
      ∙ ap (λ x. (check_anchor_plausible seconds now x).boot_time) t in
    let d = derived_boot s seconds now in
    elim (plausible_later seconds now b s (v.boot_time ∙ k)) [
      | inl q ↦ (b, e ∙ q, omega arith, w)
      | inr (q, lt) ↦ (whole d, e ∙ q, whole_lt b d w lt, whole-whole d)
    ]

-- At run time, with a clock that is set and a plausible reading, a reading more than thirty seconds
-- below the last one is a restart of the counter: the anchor is then the whole second at which this
-- reading says that the counter started, whatever the anchor was and whatever pace was learned.
pub reset_moves_anchor :
    (seconds now last : ℕ) (l : Latch)
    → clock_floor ≤ now
    → seconds ≤ max_plausible_uptime
    → l.startup_reconciled ≡ true
    → l.last_counter ≡ some last
    → seconds + 30 < last
    → (apply_uptime (some (pos seconds)) now l).boot_time
      ≡ some (whole (derived_boot l seconds now))
reset_moves_anchor seconds now last l floor limit r h lt =
    let s = no_sample seconds now last l h (omega arith) in
    let t = tested_reset seconds now last l r h lt in
    ap (λ (x : Latch). x.boot_time) (accepts seconds now l floor limit)
    ∙ accept_boot seconds now l
    ∙ ap (λ x. (check_anchor_plausible seconds now (tested seconds now x)).boot_time) s
    ∙ ap (λ x. (check_anchor_plausible seconds now x).boot_time) t
    ∙ plausible_again seconds now l
