-- ===== src/Examples/Requests.antt =====
-- Requests and their responses, at concrete inputs.
use ha_zte_router_5g_monitor.Prelude.{
  ◌≤◌, ◌<◌, ◌≡◌, ◌≢◌, ◌↔◌, refl, true, false, none, some, List, [], ◌∷◌, String,
}
use ha_zte_router_5g_monitor.Prelude.Names.{union}
use ha_zte_router_5g_monitor.Value.{Payload, text}
use ha_zte_router_5g_monitor.Api.Classify.{expired, with_aliases, classify_session}
use ha_zte_router_5g_monitor.Api.Classify.Verdicts.{
  asks_session, session_answers, open_answers, dead_session_expired,
}
use ha_zte_router_5g_monitor.Api.Request.Client.{
  Method, Call, other, json, connection, unavailable, failed, jar, World, Client, returned, raised,
  out_of_fuel,
}
use ha_zte_router_5g_monitor.Api.Request.Session.{refused, preempt, past_learned_age, age_limit}
use ha_zte_router_5g_monitor.Api.Request.Perform.{
  is_write, request, perform, step, attempt, prepare, dispose, send, after_send, wait_lock,
}
use ha_zte_router_5g_monitor.Api.Request.Bounds.{write_sent_once}
use ha_zte_router_5g_monitor.Api.Request.Gate.{outage_refuses}
use ha_zte_router_5g_monitor.Api.Request.Faults.{request_total}

-- A router that answers each request with a JSON list, and refuses each login.
abbrev pub terse_world : World
terse_world = record {
  reply = λ n. json other;
  login = λ n. failed connection;
  now = λ n. 50;
  lock_free = λ n. true;
}

abbrev pub client : Client
client = record {
  session_active = true;
  cookies = jar [];
  session_was_fresh = false;
  last_activity = 40;
  session_started = some 10;
  session_lifetimes = [];
  age_checks = 0;
  unauthenticated = [];
  outage_until = none;
  bypass = false;
  last_rejection = none;
  last_rejection_seen = none;
  write_lock_timeouts = 0;
  sends = 0;
  logins = 0;
  log = [];
}

abbrev read_call : Call
read_call = record {
  method = Method.get;
  path = "goform/goform_get_cmd_process?cmd=rssi";
  body = "";
  authenticated = true;
  requested = none;
  classify = true;
  retry = true;
  after_relogin = false;
}

abbrev pub write_call : Call
write_call = record read_call {
  method = Method.post;
  path = "goform/goform_set_cmd_process";
  body = "goformId=REBOOT_DEVICE";
}

pub write_is_write : is_write write_call ≡ true
unfolding is_write
write_is_write = refl

write_sent_once_example :
    ((request terse_world write_call client).1.sends ≤ 1)
    × ((request terse_world write_call client).1.logins ≤ 1)
write_sent_once_example = write_sent_once terse_world write_call client write_is_write

abbrev waiting_client : Client
waiting_client = record client { outage_until = some 90 }

outage_refuses_example :
    request terse_world read_call waiting_client ≡ (raised unavailable, waiting_client)
    ↔ ((50 < 90) × (waiting_client.bypass ≡ false))
outage_refuses_example = outage_refuses terse_world read_call waiting_client 90 refl

request_total_example : (request terse_world read_call client).0 ≢ out_of_fuel
request_total_example = request_total terse_world read_call client

read_returns : (request terse_world read_call client).0 ≡ returned other
unfolding request perform step attempt prepare dispose send after_send wait_lock preempt
    past_learned_age refused is_write age_limit
read_returns = refl

-- A router whose session has ended: the version is open to anybody, the signal is not.
abbrev dead_payload : Payload
dead_payload = ("wa_inner_version", text "MC7010V1") ∷ ("rssi", text "") ∷ []

abbrev open_names : List String
open_names = "wa_inner_version" ∷ []

dead_asks : asks_session (with_aliases open_names) dead_payload ≡ true
unfolding with_aliases union
dead_asks = refl

dead_blank : session_answers (with_aliases open_names) dead_payload ≡ false
unfolding with_aliases union
dead_blank = refl

dead_open : open_answers (with_aliases open_names) dead_payload ≡ true
unfolding with_aliases union
dead_open = refl

dead_session_expired_example :
    classify_session dead_payload (some ("wa_inner_version" ∷ "rssi" ∷ [])) open_names ≡ expired
dead_session_expired_example =
    dead_session_expired dead_payload ("wa_inner_version" ∷ "rssi" ∷ []) open_names refl dead_asks
      dead_blank dead_open
