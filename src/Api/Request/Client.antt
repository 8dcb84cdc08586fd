-- ===== src/Api/Request/Client.antt =====
-- The state of `ZTERouterAPI` that a request reads and writes, and what answers it.
use ha_zte_router_5g_monitor.Prelude.{ℕ, ◌+◌, String, Bool, Option, List}
use ha_zte_router_5g_monitor.Value.{Payload}
use ha_zte_router_5g_monitor.Api.Classify.{Verdict}

-- `method.upper()`; the callers pass "GET" or "POST".
pub data Method : Type 0 where
  get post : Method

-- `_Call`, with its body as a text.
pub record Call : Type 0 where
  pub method : Method
  pub path : String
  pub body : String
  pub authenticated : Bool
  pub requested : Option (List String)
  pub classify : Bool
  pub retry : Bool
  pub after_relogin : Bool

-- `resp_json`, where the body is JSON and not `null`: a dict, or any other value.
pub data Json : Type 0 where
  dict : Payload → Json
  other : Json

-- One attempt at a request: no answer, a body that breaks off behind its headers, the login page, a body
-- that is no JSON, or a JSON body.
pub data Reply : Type 0 where
  silent : Reply
  cut_off : Reply
  page : Reply
  garbled : Reply
  json : Json → Reply

-- The exceptions: `ZTEConnectionError`, `ZTEAuthError`, `ZTECredentialsError`,
-- `ZTELoginRefusedError` and `ZTERouterExpectedUnavailableError`.
pub data Fault : Type 0 where
  connection auth credentials login_refused unavailable : Fault

pub data Cookies : Type 0 where
  jar : List (String × String) → Cookies

-- What the handshake of a login comes to: the reads of `LD` and of the version, the login counters
-- and the login form, of which the router decides the outcome.
pub data Handshake : Type 0 where
  established : Cookies → Handshake
  failed : Fault → Handshake

-- The router and the clock: the answer to the n-th request, the outcome of the n-th login, the time
-- (in microseconds) after n of these, and whether the write lock is had in time.
pub record World : Type 0 where
  pub reply : ℕ → Reply
  pub login : ℕ → Handshake
  pub now : ℕ → ℕ
  pub lock_free : ℕ → Bool

pub data Event : Type 0 where
  sent : Call → Event
  logged_in : Event

-- `last_rejection`, without the payload and the preview that it shows.
pub data Rejection : Type 0 where
  rejected : Verdict → Rejection
  unparsable : Rejection

pub record Client : Type 0 where
  pub session_active : Bool
  pub cookies : Cookies
  pub session_was_fresh : Bool
  pub last_activity : ℕ
  pub session_started : Option ℕ
  pub session_lifetimes : List ℕ
  pub age_checks : ℕ
  pub unauthenticated : List String
  pub outage_until : Option ℕ
  pub bypass : Bool
  pub last_rejection : Option Rejection
  pub last_rejection_seen : Option Rejection
  pub write_lock_timeouts : ℕ
  -- the requests sent and the logins made so far, and the events, newest first
  pub sends : ℕ
  pub logins : ℕ
  pub log : List Event

abbrev pub clock : World → Client → ℕ
clock w c = w.now (c.sends + c.logins)

pub data Outcome : Type 0 where
  returned : Json → Outcome
  raised : Fault → Outcome
  out_of_fuel : Outcome
