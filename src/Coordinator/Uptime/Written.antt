-- ===== src/Coordinator/Uptime/Written.antt =====
-- The stored counter is kept fresh (`_maybe_persist_counter` of
-- custom_components/zte_router_5g/coordinator.py).
use ha_zte_router_5g_monitor.Prelude.{
  ℕ, ◌+◌, ◌≤◌, ◌<◌, ◌≡◌, refl, subst, sym, Bool, true, false, Option, none, some, arith, ltb,
  Option-cases, Bool-cases, inl, inr, ◌⊎◌,
}
use ha_zte_router_5g_monitor.Prelude.Int.{pos}
use ha_zte_router_5g_monitor.Coordinator.Uptime.{
  clock_floor, max_plausible_uptime, write_interval, Latch,
}
use ha_zte_router_5g_monitor.Coordinator.Uptime.Rate.{record_drift_sample}
use ha_zte_router_5g_monitor.Coordinator.Uptime.Anchor.{
  write_counter, latch_boot_time, relatch, startup_test, apply_runtime_uptime,
  reconcile_startup_uptime, check_anchor_plausible, maybe_persist_counter,
}
use ha_zte_router_5g_monitor.Coordinator.Uptime.Paths.{
  KeepsOrMoves, runtime_moves, startup_moves, plausible_moves, sample-SameAnchor,
}
use ha_zte_router_5g_monitor.Coordinator.Uptime.Reading.{tested, accept, apply_uptime}

pub accepts :
    (seconds now : ℕ) (l : Latch)
    → clock_floor ≤ now
    → seconds ≤ max_plausible_uptime
    → apply_uptime (some (pos seconds)) now l ≡ accept seconds now l
unfolding apply_uptime
accepts seconds now l floor limit = ground arith

abbrev pub is_some {ℓ} : {A : Type ℓ} → Option A → Bool
is_some none = false
is_some (some _) = true

-- The stored counter is that of the last write, and carries its time.
abbrev pub IsPaired : Latch → Type 0
IsPaired l =
    (l.last_counter_write ≡ none)
    ⊎ ((l.stored_written_at ≡ l.last_counter_write) × (is_some l.stored_counter ≡ true))

-- A counter was stored, less than twenty minutes before `now`.
pub record IsWritten (now : ℕ) (l : Latch) : Type 0 where
  pub at : ℕ
  pub written : l.stored_written_at ≡ some at
  pub holds : is_some l.stored_counter ≡ true
  pub recent : now < at + write_interval

relatch-IsPaired : (seconds now : ℕ) (l : Latch) → IsPaired (relatch seconds now l)
unfolding relatch latch_boot_time write_counter
relatch-IsPaired seconds now l = inr (refl, refl)

persisted :
    (seconds now : ℕ) (l : Latch) → IsPaired l → IsWritten now (maybe_persist_counter seconds now l)
unfolding maybe_persist_counter write_counter
persisted seconds now l p = elim (Option-cases l.last_counter_write) [
  | inl n ↦ record { at = now; written = ground arith; holds = ground arith; recent = omega arith }
  | inr (at, h) ↦ elim (Bool-cases (ltb now (at + write_interval))) [
    | inl soon ↦ record {
      at = at;
      written = ground arith;
      holds = ground arith;
      recent = ground arith;
    }
    | inr late ↦ record {
      at = now;
      written = ground arith;
      holds = ground arith;
      recent = omega arith;
    }
  ]
]

moves-IsPaired :
    (seconds now : ℕ) (l l' : Latch) → IsPaired l → KeepsOrMoves seconds now l l' → IsPaired l'
moves-IsPaired seconds now l l' p (inl q) = subst IsPaired (sym q) p
moves-IsPaired seconds now l l' p (inr q) = subst IsPaired (sym q) (relatch-IsPaired seconds now l)

sample-IsPaired :
    (seconds now : ℕ) (l : Latch) → IsPaired l → IsPaired (record_drift_sample seconds now l)
sample-IsPaired seconds now l p =
    let v = sample-SameAnchor seconds now l in
    let a = v.stored_counter in
    let b = v.stored_written_at in let c = v.last_counter_write in ground (arith, p, a, b, c)

tested-IsPaired : (seconds now : ℕ) (l : Latch) → IsPaired l → IsPaired (tested seconds now l)
unfolding tested reconcile_startup_uptime
tested-IsPaired seconds now l p =
    let r =
      moves-IsPaired seconds now l (apply_runtime_uptime seconds now l) p
        (runtime_moves seconds now l) in
    let t =
      moves-IsPaired seconds now l (startup_test seconds now l) p (startup_moves seconds now l) in
    ground (arith, r, t)

accept-IsWritten :
    (seconds now : ℕ) (l : Latch)
    → IsPaired (
        check_anchor_plausible seconds now (tested seconds now (record_drift_sample seconds now l)))
    → IsWritten now (accept seconds now l)
unfolding accept
accept-IsWritten seconds now l p = persisted seconds now _ p

-- Where the stored counter is that of the last write, if there was one: after every accepted
-- reading, on whatever path, the stored counter is less than twenty minutes old, so a restart
-- compares against a recent one.
pub accepted-IsWritten :
    (seconds now : ℕ) (l : Latch)
    → IsPaired l
    → clock_floor ≤ now
    → seconds ≤ max_plausible_uptime
    → IsWritten now (apply_uptime (some (pos seconds)) now l)
accepted-IsWritten seconds now l p floor limit =
    let sampled = record_drift_sample seconds now l in
    let t = tested seconds now sampled in
    let q = sample-IsPaired seconds now l p in
    let q' =
      moves-IsPaired seconds now t (check_anchor_plausible seconds now t)
        (tested-IsPaired seconds now sampled q) (plausible_moves seconds now t) in
    subst (IsWritten now) (sym (accepts seconds now l floor limit))
      (accept-IsWritten seconds now l q')
