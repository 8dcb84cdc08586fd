-- ===== src/Api/Request/Perform.antt =====
-- `_is_write_request`, `_send`, `_dispose`, `_replay` and `_perform`. A replay puts the request again
-- with `retry` off, so the recursion is one deep: the fuel counts the attempts.
use ha_zte_router_5g_monitor.Prelude.{
  ℕ, zero, suc, Bool, true, false, ◌&&◌, not, Option, none, some, ◌∷◌, if◌then◌else◌,
}
use text.Mathlib.Text.{find?}
use ha_zte_router_5g_monitor.Api.Request.Client.{
  Method, get, post, Call, Json, dict, other, Reply, silent, cut_off, page, garbled, json, Fault,
  connection, World, Client, sent, unparsable, Outcome, returned, raised, out_of_fuel, unavailable,
  clock,
}
use ha_zte_router_5g_monitor.Api.Request.Session.{preempt, refused, login, clear_session}
use ha_zte_router_5g_monitor.Api.Request.Ruling.{
  Ruling, stands, renew, faults, rule, verdict_of, record_verdict,
}

is_post : Method → Bool
is_post post = true
is_post get = false

-- `_is_write_request`.
unfoldable pub is_write : Call → Bool
unfolding is_post
is_write call =
    is_post call.method
    && elim (find? call.path "goform_set_cmd_process") [ none ↦ false | some _ ↦ true ]

-- `_send`, for the client; the answer is the world's. A failed authenticated request ends the session.
unfoldable pub after_send : Call → Reply → Client → Client
after_send call silent c = if call.authenticated then clear_session c else c
after_send call cut_off c =
    let read = record c { session_was_fresh = false } in
    if call.authenticated then clear_session read else read
after_send call _ c = record c { session_was_fresh = false }

unfoldable pub send : Call → Reply → Client → Client
unfolding after_send
send call r c = after_send call r (record c { sends = suc c.sends; log = sent call ∷ c.log })

-- `_replay`: log in, and put the same request again through `again`.
unfoldable pub replay : World → (Client → Outcome × Client) → Client → Outcome × Client
replay w again c =
    let (fault, c') = login w c in elim fault [ some f ↦ (raised f, c') | none ↦ again c' ]

-- The response stands; only an authenticated one counts as activity.
abbrev pub accept : World → Call → Json → Client → Outcome × Client
accept w call j c =
    (returned j, if call.authenticated then record c { last_activity = clock w c } else c)

unfoldable pub by_ruling :
    World → Call → Json → (Client → Outcome × Client) → Ruling → Client → Outcome × Client
unfolding replay
by_ruling w call j again stands c = accept w call j c
by_ruling w call j again renew c = replay w again c
by_ruling w call j again (faults f) c = (raised f, c)

-- A response that cannot be read: the login page, or a body that is no JSON.
unfoldable pub unreadable :
    World → Call → Bool → (Client → Outcome × Client) → Client → Outcome × Client
unfolding replay
unreadable w call replayable again c =
    if call.authenticated && replayable
    then replay w again c
    else (raised connection, record c { last_rejection = some unparsable })

-- `_dispose`.
unfoldable pub dispose :
    World → Call → Bool → (Client → Outcome × Client) → Reply → Client → Outcome × Client
unfolding by_ruling unreadable
dispose w call replayable again silent c = (raised connection, c)
dispose w call replayable again cut_off c = (raised connection, c)
dispose w call replayable again page c = unreadable w call replayable again c
dispose w call replayable again garbled c = unreadable w call replayable again c
dispose w call replayable again (json other) c = accept w call other c
dispose w call replayable again (json (dict d)) c =
    let verdict = verdict_of call c.unauthenticated d in
    by_ruling w call (dict d) again (rule call replayable verdict d) (record_verdict verdict c)

-- The session before the request: a stale one ends, and an authenticated request has one.
unfoldable pub prepare : World → Call → Client → Option Fault × Client
unfolding preempt
prepare w call c =
    let c' = preempt call.authenticated w c in
    if call.authenticated && not c'.session_active then login w c' else (none, c')

-- The wait for the write lock: a lock that is not had in time is counted, and the write goes on.
unfoldable pub wait_lock : World → Call → Client → Client
wait_lock w call c =
    if is_write call && not (w.lock_free c.sends)
    then record c { write_lock_timeouts = suc c.write_lock_timeouts }
    else c

-- The call that `_replay_after_login` puts.
unfoldable pub replayed : Call → Call
replayed call = record call { retry = false; after_relogin = true }

-- The rest of `_perform`, once the session is prepared.
unfoldable pub attempt : World → Call → (Client → Outcome × Client) → Client → Outcome × Client
unfolding send dispose wait_lock
attempt w call again c =
    let c' = wait_lock w call c in
    let r = w.reply c'.sends in
    dispose w call (call.retry && not (is_write call)) again r (send call r c')

-- The body of `_perform`; `again` puts the call that a replay puts.
unfoldable pub step : World → Call → (Client → Outcome × Client) → Client → Outcome × Client
step w call again c =
    let (fault, c') = prepare w call c in
    if refused w c
    then (raised unavailable, c)
    else elim fault [ some f ↦ (raised f, c') | none ↦ attempt w call again c' ]

-- `_perform`.
unfoldable pub perform : ℕ → World → Call → Client → Outcome × Client
perform zero w call c = (out_of_fuel, c)
perform (suc fuel) w call c = step w call (perform fuel w (replayed call)) c

-- `_request`: one replay at most, so two attempts are enough.
unfoldable pub request : World → Call → Client → Outcome × Client
request = perform 2
