-- ===== src/Api/Discovery.antt =====
-- The discovery of names (custom_components/zte_router_5g/api.py): `_probe_chunk`, `_reestablish_session`
-- and `_relogin_once`, over any device; `Pass` is `probe_names`, `Singly` the names asked again one by
-- one, `Report` what `run_discovery` publishes; the other children prove what these account for.
pub mod Notes
pub mod Singly
pub mod Pass
pub mod Report
pub mod Exchange
pub mod Accounts
pub mod Settled
pub mod Silence
pub mod Honest
pub mod Lapses
pub mod Bounds
use ha_zte_router_5g_monitor.Prelude.{
  ℕ, suc, ◌+◌, Bool, true, false, ◌&&◌, ◌||◌, not, Option, none, some, List, [], ◌∷◌, ◌++◌, String,
  leb, any, if◌then◌else◌, str_eq,
}
use ha_zte_router_5g_monitor.Prelude.Names.{member}
use ha_zte_router_5g_monitor.Prelude.Dict.{Dict, get}
use ha_zte_router_5g_monitor.Value.{Value, text, Payload, read, truthy}
use ha_zte_router_5g_monitor.Api.Batch.{is_filled, Batch, merged}
use ha_zte_router_5g_monitor.Api.Request.Client.{dict, other, Outcome, returned}
use ha_zte_router_5g_monitor.Api.Writes.{is_refusal}

-- What a pass needs: the request for some names, the classified read of `_session_still_alive`, the
-- logout and the login (`false` where one of them raises), and whether the budget is spent. A request is
-- one call of `_request`: the replay and the logins that it may make by itself are within `ask`.
pub record Device {ℓ} (S : Type ℓ) : Type ℓ where
  pub ask : List String → S → Outcome × S
  pub read_first : S → Batch × S
  pub renew : S → Bool × S
  pub late : S → Bool

-- `DISCOVERY_RELOGIN_LIMIT`, `CANARY_FALLBACK_EVERY` and `DISCOVERY_MAX_ROUNDS`.
abbrev pub relogin_limit : ℕ
relogin_limit = 3

abbrev pub fallback_every : ℕ
fallback_every = 8

abbrev pub max_rounds : ℕ
max_rounds = 4

-- `_NOT_ROUTER_FIELDS`.
unfoldable pub not_router_fields : List String
not_router_fields =
    "result" ∷ "cmd" ∷ "isTest" ∷ "goformId" ∷ "multi_data" ∷ "sms_received_flag_flag" ∷ "function"
    ∷ "return" ∷ "prototype" ∷ "undefined" ∷ "length" ∷ "value" ∷ "true" ∷ "false" ∷ "null" ∷ "type"
    ∷ "data" ∷ "name" ∷ "class" ∷ "style" ∷ "html" ∷ "text" ∷ "href" ∷ "src" ∷ "click" ∷ "change"
    ∷ "submit" ∷ []

-- What `_probe_chunk` answers: `None`, `_REQUEST_REFUSED`, `_SESSION_LOST` or the values. Its handler
-- logs `chunk[0]`, which raises an IndexError where the chunk is empty.
pub data Answer : Type 0 where
  failed refused lost index_error : Answer
  answered : Dict String → Answer

abbrev pub has {ℓ} : {V : Type ℓ} → Dict V → String → Bool
has d k = elim (get d k) [ none ↦ false | some _ ↦ true ]

-- A value that is a text, and not the empty one.
abbrev pub has_text : Value → Bool
has_text (text s) = not (str_eq s "")
has_text _ = false

-- The values of the response that are kept.
unfoldable pub harvest : List String → Payload → Dict String
harvest canaries [] = []
harvest canaries ((k, text s) ∷ d) =
    let rest = harvest canaries d in
    if str_eq s "" || (member k not_router_fields || member k canaries) then rest else (k, s) ∷ rest
harvest canaries ((k, _) ∷ d) = harvest canaries d

-- The names of the request: the canaries are appended.
unfoldable pub with_canaries : List String → List String → List String
with_canaries request [] = request
with_canaries request (c ∷ cs) =
    with_canaries (if member c request then request else request ++ c ∷ []) cs

-- A canary has a value, or there is none to look at.
abbrev pub heard : List String → Payload → Bool
heard canaries d = not (is_filled canaries) || any (λ c. truthy (read d c)) canaries

abbrev pub unanswered : List String → Answer
unanswered [] = index_error
unanswered (_ ∷ _) = failed

-- The end of `_probe_chunk`, by what the request for `names` came to.
unfoldable pub judge : List String → List String → List String → Outcome → Answer
unfolding harvest
judge canaries chunk names (returned (dict d)) =
    if is_refusal (dict d) && not (any (has d) names)
    then refused
    else if heard canaries d
    then answered (harvest canaries d)
    else lost
judge canaries chunk names (returned other) = failed
judge canaries chunk names o = unanswered chunk

-- The counters of a pass, `_ProbePassCounters`.
pub record Counters : Type 0 where
  pub unreliable : ℕ
  pub blank_since_check : ℕ
  pub fallback_checks : ℕ
  pub refused_chunks : ℕ
  pub relogins : ℕ
  pub recovered : ℕ
  pub failed_relogins : ℕ

module _ {ℓ} {S : Type ℓ} (device : Device S) (canaries : List String) where
  -- `_probe_chunk`.
  unfoldable pub probe_chunk : List String → S → Answer × S
  unfolding judge with_canaries
  probe_chunk chunk s =
      let names = with_canaries chunk canaries in
      let (o, s') = device.ask names s in (judge canaries chunk names o, s')

  -- `_session_still_alive`.
  unfoldable pub session_still_alive : S → Bool × S
  session_still_alive s =
      let (batch, s') = device.read_first s in
      (elim batch [ merged d ↦ true | Batch.failed o ↦ false ], s')

  -- `_reestablish_session`; `none` where it raises.
  abbrev pub restored : Answer → Option Bool
  restored index_error = none
  restored (answered d) = some true
  restored _ = some false

  unfoldable pub reestablish_session : S → Option Bool × S
  unfolding session_still_alive
  reestablish_session s =
      let (fresh, s') = device.renew s in
      let (read, t) = probe_chunk [] s' in
      let (alive, u) = session_still_alive s' in
      if fresh
      then (if is_filled canaries then (restored read, t) else (some alive, u))
      else (some false, s')

  -- `_relogin_once`.
  abbrev pub relogin_counted : Counters → Option Bool → Option Counters
  relogin_counted counts none = none
  relogin_counted counts (some true) =
      some (record counts { relogins = suc counts.relogins; recovered = suc counts.recovered })
  relogin_counted counts (some false) = some (record counts {
    relogins = suc counts.relogins;
    failed_relogins = suc counts.failed_relogins;
  })

  unfoldable pub relogin_once : Counters → S → Option Counters × S
  relogin_once counts s =
      let (result, s') = reestablish_session s in
      if leb relogin_limit counts.relogins
      then (some counts, s)
      else (relogin_counted counts result, s')
