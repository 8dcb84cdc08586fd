-- ===== src/Api/Request/Bounds.antt =====
-- How often a request is put, and how many logins it makes.
use ha_zte_router_5g_monitor.Prelude.{
  ℕ, suc, ◌+◌, ◌≤◌, ◌≡◌, ◌≢◌, refl, Bool, true, false, ◌&&◌, not, arith, ap, fun_ext,
}
use ha_zte_router_5g_monitor.Value.{Payload}
use ha_zte_router_5g_monitor.Api.Classify.{Verdict}
use ha_zte_router_5g_monitor.Api.Request.Client.{
  Call, Json, dict, other, Reply, silent, cut_off, page, garbled, json, World, Client, Outcome,
}
use ha_zte_router_5g_monitor.Api.Request.Session.{
  preempt, login, clear_session, past_learned_age, note_replaced,
}
use ha_zte_router_5g_monitor.Api.Request.Ruling.{
  Ruling, stands, renew, faults, rule, verdict_of, record_verdict,
}
use ha_zte_router_5g_monitor.Api.Request.Perform.{
  is_write, send, replay, dispose, prepare, attempt, replayed, by_ruling, perform, request,
  wait_lock, step,
}

rule_final : (call : Call) (v : Verdict) (d : Payload) → rule call false v d ≢ renew
unfolding rule
rule_final call v d e = ground arith

dispose_final :
    (w : World) (call : Call) (f g : Client → Outcome × Client) (r : Reply) (c : Client)
    → dispose w call false f r c ≡ dispose w call false g r c
unfolding dispose
dispose_final w call f g silent c = refl
dispose_final w call f g cut_off c = refl
dispose_final w call f g page c = ground arith
dispose_final w call f g garbled c = ground arith
dispose_final w call f g (json other) c = refl
dispose_final w call f g (json (dict d)) c =
    ground (arith, rule_final call (verdict_of call c.unauthenticated d) d)

attempt_final :
    (w : World) (call : Call) (f g : Client → Outcome × Client) (c : Client)
    → call.retry && not (is_write call) ≡ false
    → attempt w call f c ≡ attempt w call g c
unfolding attempt
attempt_final w call f g c h = rw h (
    dispose_final w call f g (w.reply (wait_lock w call c).sends)
      (send call (w.reply (wait_lock w call c).sends) (wait_lock w call c)))

pub step_final :
    (w : World) (call : Call) (f g : Client → Outcome × Client) (c : Client)
    → call.retry && not (is_write call) ≡ false
    → step w call f c ≡ step w call g c
unfolding step
step_final w call f g c h = ground (arith, attempt_final w call f g (prepare w call c).1)

perform-replayed :
    (k : ℕ) (w : World) (call : Call) (c : Client)
    → perform (suc k) w (replayed call) c ≡ perform 1 w (replayed call) c
unfolding perform
perform-replayed k w call c =
    step_final w (replayed call) (perform k w (replayed (replayed call)))
      (perform 0 w (replayed (replayed call))) c (unfold replayed in refl)

-- More than two attempts are never made.
pub enough_fuel :
    (k : ℕ) (w : World) (call : Call) (c : Client)
    → perform (suc (suc k)) w call c ≡ request w call c
unfolding perform request
enough_fuel k w call c =
    ap (λ (f : Client → Outcome × Client). step w call f c) (fun_ext (perform-replayed k w call))

-- From `c` to `c'` at most `s` requests were sent and `l` logins made.
abbrev pub Within : ℕ → ℕ → Client → Client → Type 0
Within s l c c' = (c'.sends ≤ c.sends + s) × (c'.logins ≤ c.logins + l)

login-Within : (w : World) (c : Client) → Within 0 1 c (login w c).1
unfolding login note_replaced
login-Within w c = (ground arith, ground arith)

pub preempt_counts :
    (a : Bool) (w : World) (c : Client)
    → ((preempt a w c).sends ≡ c.sends) × ((preempt a w c).logins ≡ c.logins)
unfolding preempt past_learned_age
preempt_counts a w c = (ground arith, ground arith)

prepare-Within : (w : World) (call : Call) (c : Client) → Within 0 1 c (prepare w call c).1
unfolding prepare
prepare-Within w call c =
    let p : Client = preempt call.authenticated w c in
    (
      ground (arith, preempt_counts call.authenticated w c, login-Within w p),
      ground (arith, preempt_counts call.authenticated w c, login-Within w p),
    )

send-Within : (call : Call) (r : Reply) (c : Client) → Within 1 0 c (send call r c)
unfolding send clear_session
send-Within call r c = (ground arith, ground arith)

dispose-Within :
    (w : World) (call : Call) (again : Client → Outcome × Client) (r : Reply) (c : Client)
    → Within 0 0 c (dispose w call false again r c).1
unfolding dispose record_verdict
dispose-Within w call again silent c = (ground arith, ground arith)
dispose-Within w call again cut_off c = (ground arith, ground arith)
dispose-Within w call again page c = (ground arith, ground arith)
dispose-Within w call again garbled c = (ground arith, ground arith)
dispose-Within w call again (json other) c = (ground arith, ground arith)
dispose-Within w call again (json (dict d)) c =
    let final = rule_final call (verdict_of call c.unauthenticated d) d in
    (ground (arith, final), ground (arith, final))

wait_lock-Within : (w : World) (call : Call) (c : Client) → Within 0 0 c (wait_lock w call c)
unfolding wait_lock
wait_lock-Within w call c = (ground arith, ground arith)

module _ (again : Client → Outcome × Client) (s l : ℕ)
    (fits : (c : Client) → Within s l c (again c).1) where
  replay-Within : (w : World) (c : Client) → Within s (l + 1) c (replay w again c).1
  unfolding replay
  replay-Within w c = (
    ground (arith, login-Within w c, fits (login w c).1),
    ground (arith, login-Within w c, fits (login w c).1),
  )

  ruling-Within :
      (w : World) (call : Call) (j : Json) (r : Ruling) (c : Client)
      → Within s (l + 1) c (by_ruling w call j again r c).1
  unfolding by_ruling
  ruling-Within w call j stands c = (ground arith, ground arith)
  ruling-Within w call j renew c = replay-Within w c
  ruling-Within w call j (faults f) c = (omega arith, omega arith)

  replaying-Within :
      (w : World) (call : Call) (b : Bool) (r : Reply) (c : Client)
      → Within s (l + 1) c (dispose w call b again r c).1
  unfolding dispose record_verdict
  replaying-Within w call b silent c = (omega arith, omega arith)
  replaying-Within w call b cut_off c = (omega arith, omega arith)
  replaying-Within w call b page c =
      (ground (arith, replay-Within w c), ground (arith, replay-Within w c))
  replaying-Within w call b garbled c =
      (ground (arith, replay-Within w c), ground (arith, replay-Within w c))
  replaying-Within w call b (json other) c = (ground arith, ground arith)
  replaying-Within w call b (json (dict d)) c =
      let v : Verdict = verdict_of call c.unauthenticated d in
      let fits' = ruling-Within w call (dict d) (rule call b v d) (record_verdict v c) in
      (ground (arith, fits'), ground (arith, fits'))

attempt_once :
    (w : World) (call : Call) (again : Client → Outcome × Client) (c : Client)
    → call.retry && not (is_write call) ≡ false
    → Within 1 0 c (attempt w call again c).1
unfolding attempt
attempt_once w call again c h =
    let c1 : Client = wait_lock w call c in
    let r : Reply = w.reply c1.sends in
    rw h (
      omega (
        arith,
        wait_lock-Within w call c,
        send-Within call r c1,
        dispose-Within w call again r (send call r c1),
      ),
      omega (
        arith,
        wait_lock-Within w call c,
        send-Within call r c1,
        dispose-Within w call again r (send call r c1),
      ),
    )

step_once :
    (w : World) (call : Call) (again : Client → Outcome × Client) (c : Client)
    → call.retry && not (is_write call) ≡ false
    → Within 1 1 c (step w call again c).1
unfolding step
step_once w call again c h =
    let c1 : Client = (prepare w call c).1 in
    (
      ground (arith, prepare-Within w call c, attempt_once w call again c1 h),
      ground (arith, prepare-Within w call c, attempt_once w call again c1 h),
    )

-- A write is sent at most once, whatever the router answers, and with at most one login before it.
pub write_sent_once :
    (w : World) (call : Call) (c : Client)
    → is_write call ≡ true
    → ((request w call c).1.sends ≤ c.sends + 1) × ((request w call c).1.logins ≤ c.logins + 1)
unfolding request perform
write_sent_once w call c h = step_once w call (perform 1 w (replayed call)) c (ground arith)

again_once : (w : World) (call : Call) (c : Client) → Within 1 1 c (perform 1 w (replayed call) c).1
unfolding perform
again_once w call c =
    step_once w (replayed call) (perform 0 w (replayed (replayed call))) c (unfold replayed in refl)

attempt_twice :
    (w : World) (call : Call) (c : Client)
    → Within 2 2 c (attempt w call (perform 1 w (replayed call)) c).1
unfolding attempt
attempt_twice w call c =
    let c1 : Client = wait_lock w call c in
    let r : Reply = w.reply c1.sends in
    let rest =
      replaying-Within (perform 1 w (replayed call)) 1 1 (again_once w call) w call
        (call.retry && not (is_write call)) r (send call r c1) in
    (
      omega (arith, wait_lock-Within w call c, send-Within call r c1, rest),
      omega (arith, wait_lock-Within w call c, send-Within call r c1, rest),
    )

step_twice :
    (w : World) (call : Call) (c : Client)
    → Within 2 3 c (step w call (perform 1 w (replayed call)) c).1
unfolding step
step_twice w call c =
    let c1 : Client = (prepare w call c).1 in
    (
      ground (arith, prepare-Within w call c, attempt_twice w call c1),
      ground (arith, prepare-Within w call c, attempt_twice w call c1),
    )

-- Any request is sent at most twice, with at most three logins: one before it, one before its replay
-- and one more if the session just made is judged stale.
pub request_sent_twice :
    (w : World) (call : Call) (c : Client)
    → ((request w call c).1.sends ≤ c.sends + 2) × ((request w call c).1.logins ≤ c.logins + 3)
unfolding request perform
request_sent_twice w call c = step_twice w call c
