-- ===== src/Api/Request/Gate.antt =====
-- When a request is refused because the router is expected to be offline (`refuse_during_outage`).
use ha_zte_router_5g_monitor.Prelude.{
  ℕ, zero, suc, ◌+◌, ◌≤◌, ◌<◌, ◌≡◌, ◌↔◌, Bool, true, false, ◌&&◌, not, some, arith, ap,
  Option-cases, Bool-cases, inl, inr,
}
use ha_zte_router_5g_monitor.Api.Classify.{Verdict}
use ha_zte_router_5g_monitor.Api.Request.Client.{
  Call, Json, dict, other, Reply, silent, cut_off, page, garbled, json, World, Client, Outcome,
  raised, unavailable, Fault, clock,
}
use ha_zte_router_5g_monitor.Api.Request.Session.{
  preempt, refused, login, clear_session, past_learned_age, note_replaced,
}
use ha_zte_router_5g_monitor.Api.Request.Ruling.{
  Ruling, stands, renew, faults, rule, verdict_of, record_verdict,
}
use ha_zte_router_5g_monitor.Api.Request.Perform.{
  is_write, send, replay, dispose, prepare, attempt, replayed, by_ruling, perform, request,
  wait_lock, step,
}
use ha_zte_router_5g_monitor.Api.Request.Bounds.{preempt_counts}

-- From `c` to `c'` no request or login is taken back, or there is one more.
abbrev Keeps : Client → Client → Type 0
Keeps c c' = c.sends + c.logins ≤ c'.sends + c'.logins

abbrev Acts : Client → Client → Type 0
Acts c c' = c.sends + c.logins < c'.sends + c'.logins

login-Acts : (w : World) (c : Client) → refused w c ≡ false → Acts c (login w c).1
unfolding login note_replaced
login-Acts w c r = ground arith

login-Keeps : (w : World) (c : Client) → Keeps c (login w c).1
unfolding login note_replaced
login-Keeps w c = ground arith

preempt-refused : (a : Bool) (w : World) (c : Client) → refused w (preempt a w c) ≡ refused w c
unfolding preempt past_learned_age clear_session refused
preempt-refused a w c = ground arith

prepare-Keeps : (w : World) (call : Call) (c : Client) → Keeps c (prepare w call c).1
unfolding prepare
prepare-Keeps w call c =
    let n = preempt_counts call.authenticated w c in
    let l = login-Keeps w (preempt call.authenticated w c) in ground (arith, n, l)

prepare-Acts :
    (w : World) (call : Call) (c : Client) (f : Fault)
    → refused w c ≡ false
    → (prepare w call c).0 ≡ some f
    → Acts c (prepare w call c).1
unfolding prepare
prepare-Acts w call c f r e =
    let n = preempt_counts call.authenticated w c in
    let s = preempt-refused call.authenticated w c in
    let l = login-Acts w (preempt call.authenticated w c) in ground (arith, n, s, l)

module _ (again : Client → Outcome × Client) (keeps : (c : Client) → Keeps c (again c).1) where
  replay-Keeps : (w : World) (c : Client) → Keeps c (replay w again c).1
  unfolding replay
  replay-Keeps w c = ground (arith, login-Keeps w c, keeps (login w c).1)

  ruling-Keeps :
      (w : World) (call : Call) (j : Json) (r : Ruling) (c : Client)
      → Keeps c (by_ruling w call j again r c).1
  unfolding by_ruling
  ruling-Keeps w call j stands c = ground arith
  ruling-Keeps w call j renew c = replay-Keeps w c
  ruling-Keeps w call j (faults f) c = omega arith

  dispose-Keeps :
      (w : World) (call : Call) (b : Bool) (r : Reply) (c : Client)
      → Keeps c (dispose w call b again r c).1
  unfolding dispose record_verdict
  dispose-Keeps w call b silent c = omega arith
  dispose-Keeps w call b cut_off c = omega arith
  dispose-Keeps w call b page c = ground (arith, replay-Keeps w c)
  dispose-Keeps w call b garbled c = ground (arith, replay-Keeps w c)
  dispose-Keeps w call b (json other) c = ground arith
  dispose-Keeps w call b (json (dict d)) c =
      let v : Verdict = verdict_of call c.unauthenticated d in
      let k = ruling-Keeps w call (dict d) (rule call b v d) (record_verdict v c) in
      ground (arith, k)

  attempt-Acts : (w : World) (call : Call) (c : Client) → Acts c (attempt w call again c).1
  unfolding attempt wait_lock send clear_session
  attempt-Acts w call c =
      let c1 : Client = wait_lock w call c in
      let r : Reply = w.reply c1.sends in
      let k = dispose-Keeps w call (call.retry && not (is_write call)) r (send call r c1) in
      ground (arith, k)

  step-Acts :
      (w : World) (call : Call) (c : Client) → refused w c ≡ false → Acts c (step w call again c).1
  unfolding step
  step-Acts w call c r =
      let k = prepare-Keeps w call c in
      let a = attempt-Acts w call (prepare w call c).1 in
      elim (Option-cases (prepare w call c).0) [
        | inl e ↦ ground (arith, k, a, e)
        | inr (f, e) ↦ let p = prepare-Acts w call c f r e in ground (arith, e, p)
      ]

  step-Keeps : (w : World) (call : Call) (c : Client) → Keeps c (step w call again c).1
  unfolding step
  step-Keeps w call c =
      let k = prepare-Keeps w call c in
      let a = attempt-Acts w call (prepare w call c).1 in ground (arith, k, a)

perform-Keeps :
    (fuel : ℕ) (w : World) (call : Call) (c : Client) → Keeps c (perform fuel w call c).1
unfolding perform
perform-Keeps zero w call c = omega arith
perform-Keeps (suc fuel) w call c =
    step-Keeps (perform fuel w (replayed call)) (perform-Keeps fuel w (replayed call)) w call c

-- A request that the gate lets pass sends something or logs in.
pub passed_acts :
    (w : World) (call : Call) (c : Client)
    → refused w c ≡ false
    → c.sends + c.logins < (request w call c).1.sends + (request w call c).1.logins
unfolding request perform
passed_acts w call c r =
    step-Acts (perform 1 w (replayed call)) (perform-Keeps 1 w (replayed call)) w call c r

gate_refuses :
    (w : World) (call : Call) (c : Client)
    → refused w c ≡ true
    → request w call c ≡ (raised unavailable, c)
unfolding request perform step
gate_refuses w call c h = ground arith

gate_open :
    (w : World) (c : Client) (deadline : ℕ)
    → c.outage_until ≡ some deadline
    → refused w c ≡ true
    → (clock w c < deadline) × (c.bypass ≡ false)
unfolding refused
gate_open w c deadline o h = ground arith

gate_shut :
    (w : World) (c : Client) (deadline : ℕ)
    → c.outage_until ≡ some deadline
    → clock w c < deadline
    → c.bypass ≡ false
    → refused w c ≡ true
unfolding refused
gate_shut w c deadline o lt b = ground arith

-- While an outage window is set, a request is refused, sending nothing, making no login and leaving the
-- session and all else as they were, exactly where the deadline of the window has not come and the
-- bypass is not set.
pub outage_refuses :
    (w : World) (call : Call) (c : Client) (deadline : ℕ)
    → c.outage_until ≡ some deadline
    → request w call c ≡ (raised unavailable, c) ↔ ((clock w c < deadline) × (c.bypass ≡ false))
outage_refuses w call c deadline o = (
  λ e. elim (Bool-cases (refused w c)) [
    | inl y ↦ gate_open w c deadline o y
    | inr n ↦
        let a = passed_acts w call c n in
        let s = ap (λ (r : Outcome × Client). r.1.sends + r.1.logins) e in absurd (omega arith)
  ],
  λ (lt, b). gate_refuses w call c (gate_shut w c deadline o lt b),
)
