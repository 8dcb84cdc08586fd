-- ===== src/Api/Request/Faults.antt =====
-- How a request can end.
use ha_zte_router_5g_monitor.Prelude.{
  ◌≡◌, ◌≢◌, refl, Bool, true, ◌&&◌, not, none, arith, inl, inr, Option-cases,
}
use ha_zte_router_5g_monitor.Api.Classify.{Verdict}
use ha_zte_router_5g_monitor.Api.Request.Client.{
  Call, Json, dict, other, Reply, silent, cut_off, page, garbled, json, connection, World, Client,
  Outcome, returned, raised, out_of_fuel,
}
use ha_zte_router_5g_monitor.Api.Request.Session.{preempt, login, note_replaced}
use ha_zte_router_5g_monitor.Api.Request.Ruling.{
  Ruling, stands, renew, faults, rule, verdict_of, record_verdict,
}
use ha_zte_router_5g_monitor.Api.Request.Bounds.{step_final}
use ha_zte_router_5g_monitor.Api.Request.Perform.{
  is_write, send, replay, dispose, prepare, attempt, replayed, by_ruling, unreadable, perform,
  request, wait_lock, step,
}

login_active : (w : World) (c : Client) → (login w c).0 ≡ none → (login w c).1.session_active ≡ true
unfolding login note_replaced
login_active w c h = ground arith

prepare_active :
    (w : World) (call : Call) (c : Client)
    → (prepare w call c).0 ≡ none
    → call.authenticated ≡ true
    → (prepare w call c).1.session_active ≡ true
unfolding prepare
prepare_active w call c h a = ground (arith, login_active w (preempt call.authenticated w c))

-- What a disposal needs of the replay behind it.
abbrev pub Good : Call → Outcome × Client → Type 0
Good call o =
    (o.0 ≢ out_of_fuel)
    × ((j : Json) → o.0 ≡ returned j → call.authenticated ≡ true → o.1.session_active ≡ true)

module _ (again : Client → Outcome × Client) (call : Call)
    (good : (c : Client) → Good call (again c)) where
  replay-Good : (w : World) (c : Client) → Good call (replay w again c)
  unfolding replay
  replay-Good w c =
      (ground (arith, (good (login w c).1).0), λ j e a. ground (arith, (good (login w c).1).1 j))

  ruling-Good :
      (w : World) (x : Json) (r : Ruling) (c : Client)
      → (call.authenticated ≡ true → c.session_active ≡ true)
      → Good call (by_ruling w call x again r c)
  unfolding by_ruling
  ruling-Good w x stands c h = (ground arith, λ j e a. ground (arith, h a))
  ruling-Good w x renew c h = replay-Good w c
  ruling-Good w x (faults f) c h = (ground arith, λ j e a. ground arith)

  sent-Good :
      (w : World) (b : Bool) (r : Reply) (c : Client)
      → (call.authenticated ≡ true → c.session_active ≡ true)
      → Good call (dispose w call b again r (send call r c))
  unfolding dispose send record_verdict unreadable
  sent-Good w b silent c h = (ground arith, λ j e a. ground arith)
  sent-Good w b cut_off c h = (ground arith, λ j e a. ground arith)
  sent-Good w b page c h =
      let c' : Client = send call page c in
      (ground (arith, (replay-Good w c').0), λ j e a. ground (arith, (replay-Good w c').1 j))
  sent-Good w b garbled c h =
      let c' : Client = send call garbled c in
      (ground (arith, (replay-Good w c').0), λ j e a. ground (arith, (replay-Good w c').1 j))
  sent-Good w b (json other) c h = (ground arith, λ j e a. ground (arith, h a))
  sent-Good w b (json (dict d)) c h =
      let c' : Client = send call (json (dict d)) c in
      let v : Verdict = verdict_of call c'.unauthenticated d in
      ruling-Good w (dict d) (rule call b v d) (record_verdict v c') (λ a. ground (arith, h a))

  attempt-Good :
      (w : World) (c : Client)
      → (call.authenticated ≡ true → c.session_active ≡ true)
      → Good call (attempt w call again c)
  unfolding attempt wait_lock
  attempt-Good w c h =
      let c' : Client = wait_lock w call c in
      sent-Good w (call.retry && not (is_write call)) (w.reply c'.sends) c'
        (λ a. ground (arith, h a))

  step-Good : (w : World) (c : Client) → Good call (step w call again c)
  unfolding step
  step-Good w c =
      let c' : Client = (prepare w call c).1 in
      let ready =
        λ (e : (prepare w call c).0 ≡ none). attempt-Good w c' (prepare_active w call c e) in
      elim (Option-cases (prepare w call c).0) [
        | inl e ↦ (ground (arith, (ready e).0), λ j r a. ground (arith, (ready e).1 j))
        | inr (f, e) ↦ (ground arith, λ j r a. ground arith)
      ]

final-Good : (w : World) (call : Call) (c : Client) → Good call (perform 1 w (replayed call) c)
unfolding perform replayed
final-Good w call c =
    rw
      (step_final w (replayed call) (perform 0 w (replayed (replayed call)))
        (λ c'. (raised connection, c')) c refl)
      (step-Good (λ c'. (raised connection, c')) (replayed call) (λ c'. (λ e. cc, λ j e a. cc)) w c)

-- A request always ends with an answer or an error, and where an authenticated one returns an answer
-- the client holds an active session.
pub request_ends :
    (w : World) (call : Call) (c : Client)
    → ((request w call c).0 ≢ out_of_fuel)
      × ((j : Json)
          → (request w call c).0 ≡ returned j
          → call.authenticated ≡ true
          → (request w call c).1.session_active ≡ true)
unfolding request perform
request_ends w call c = step-Good (perform 1 w (replayed call)) call (final-Good w call) w c

-- A request ends with an answer or an error, whatever the router answers.
pub request_total : (w : World) (call : Call) (c : Client) → (request w call c).0 ≢ out_of_fuel
request_total w call c = (request_ends w call c).0

-- Where an authenticated request returns an answer, the client holds an active session.
pub request_returns_in_session :
    (w : World) (call : Call) (c : Client) (j : Json)
    → (request w call c).0 ≡ returned j
    → call.authenticated ≡ true
    → (request w call c).1.session_active ≡ true
request_returns_in_session w call c j e a = (request_ends w call c).1 j e a
