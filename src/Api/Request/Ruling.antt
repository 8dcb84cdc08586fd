-- ===== src/Api/Request/Ruling.antt =====
-- `_record_verdict` and `_session_rejected`: what is done with a response that is a dict.
use ha_zte_router_5g_monitor.Prelude.{
  Bool, true, false, ◌&&◌, ◌||◌, not, none, some, List, [], ◌∷◌, all, String, if◌then◌else◌,
}
use ha_zte_router_5g_monitor.Prelude.Names.{member}
use ha_zte_router_5g_monitor.Value.{Value, text, Payload, read}
use ha_zte_router_5g_monitor.Api.Classify.{
  Verdict, live, expired, not_ready, undecidable, classify_session, is_empty_text,
}
use ha_zte_router_5g_monitor.Api.Request.Client.{Call, Client, Fault, connection, auth, rejected}

-- The response stands, the session is renewed and the request put again, or an error is raised.
pub data Ruling : Type 0 where
  stands renew : Ruling
  faults : Fault → Ruling

-- `_record_verdict`.
unfoldable pub record_verdict : Verdict → Client → Client
record_verdict live c = record c { last_rejection = none }
record_verdict v c = record c {
  last_rejection = some (rejected v);
  last_rejection_seen = some (rejected v);
}

abbrev pub is_text_in : List String → Value → Bool
is_text_in names (text s) = member s names
is_text_in names _ = false

-- `is_auth_error`: the router says so itself.
unfoldable pub says_auth_error : Payload → Bool
says_auth_error d =
    is_text_in ("session expired" ∷ "unauth" ∷ "fail" ∷ []) (read d "result")
    || is_text_in ("fail" ∷ []) (read d "status")

abbrev all_blank : Payload → Bool
all_blank [] = false
all_blank (e ∷ d) = all (λ kv. is_empty_text kv.1) (e ∷ d)

-- `is_status_expired`.
unfoldable pub looks_expired : Verdict → Payload → Bool
looks_expired expired d = true
looks_expired undecidable d = all_blank d
looks_expired _ d = false

abbrev is_not_ready : Verdict → Bool
is_not_ready not_ready = true
is_not_ready _ = false

unfoldable pub verdict_of : Call → List String → Payload → Verdict
verdict_of call unauthenticated d =
    if call.classify then classify_session d call.requested unauthenticated else live

-- The part of `_session_rejected` behind the verdict; `retry` is `replayable`.
unfoldable pub rule : Call → Bool → Verdict → Payload → Ruling
unfolding looks_expired says_auth_error
rule call retry verdict d =
    if is_not_ready verdict && call.authenticated
    then faults connection
    else if (looks_expired verdict d || says_auth_error d) && call.authenticated
    then (if retry
        then renew
        else if call.after_relogin && not (says_auth_error d)
        then faults connection
        else faults auth)
    else stands
