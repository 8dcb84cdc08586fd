-- ===== src/Api/Classify.antt =====
-- `_unauthenticated_with_aliases`, `_classify_session`, `_is_classifiable` and `_is_refusal`
-- (custom_components/zte_router_5g/api.py): what a `200 OK` response proves about the session.
pub mod Verdicts
use ha_zte_router_5g_monitor.Prelude.{
  ℕ, ◌*◌, String, Bool, true, false, ◌&&◌, ◌||◌, not, Option, none, some, List, [], ◌∷◌, ◌++◌, any,
  all, keep_if, count_if, length, ltb, str_eq, if◌then◌else◌,
}
use ha_zte_router_5g_monitor.Prelude.Names.{member, union, intersection, difference}
use ha_zte_router_5g_monitor.Prelude.Dict.{Dict, get}
use ha_zte_router_5g_monitor.Value.{Value, text, Payload}

-- `_UNAUTHENTICATED_KEYS`.
unfoldable pub unauthenticated_keys : List String
unauthenticated_keys =
    "imei" ∷ "model_name" ∷ "wa_inner_version" ∷ "opms_wan_auto_mode" ∷ "opms_wan_mode" ∷ []

-- `_TOKEN_READS`: a concept and its spellings.
abbrev pub token_reads : Dict (List String)
token_reads =
    ("wa_inner_version", "wa_inner_version" ∷ "wa_version" ∷ "inner_version" ∷ [])
    ∷ ("RD", "RD" ∷ "rd" ∷ [])
    ∷ []

-- `_SESSION_SENTINELS`.
abbrev pub session_sentinels : List String
session_sentinels = "wan_connect_status" ∷ "ppp_status" ∷ []

spellings_in : List String → Dict (List String) → List String
spellings_in measured [] = []
spellings_in measured ((concept, spellings) ∷ rest) =
    let others = spellings_in measured rest in
    if member concept measured then spellings ++ others else others

-- `_unauthenticated_with_aliases`.
unfoldable pub with_aliases : List String → List String
unfolding spellings_in
with_aliases measured = union measured (spellings_in measured token_reads)

pub data Verdict : Type 0 where
  live expired not_ready undecidable : Verdict

-- `value == ""`: only the empty text, `None` is another value.
abbrev pub is_empty_text : Value → Bool
is_empty_text (text s) = str_eq s ""
is_empty_text _ = false

-- The values of the keys inside and outside a set, in the payload's order.
unfoldable pub values_in : List String → Payload → List Value
values_in keys [] = []
values_in keys ((k, v) ∷ d) =
    let rest = values_in keys d in if member k keys then v ∷ rest else rest

unfoldable pub values_outside : List String → Payload → List Value
values_outside keys [] = []
values_outside keys ((k, v) ∷ d) =
    let rest = values_outside keys d in if member k keys then rest else v ∷ rest

abbrev pub has_key : Payload → String → Bool
has_key d k = elim (get d k) [ none ↦ false | some _ ↦ true ]

-- The absent-key guard: more than half of the authenticated names asked for are not in the payload.
-- `ABSENT_KEY_PROPORTION_LIMIT` is 0.5, so the quotient is compared by doubling.
unfoldable pub mostly_absent : Option (List String) → List String → Payload → Bool
mostly_absent none unauthenticated d = false
mostly_absent (some requested) unauthenticated d =
    let wanted = keep_if (λ k. not (member k unauthenticated)) requested in
    ltb (length wanted) (2 * count_if (λ k. not (has_key d k)) wanted)

-- The decision, on the widened set of unauthenticated keys.
unfoldable pub classify_by : Payload → Option (List String) → List String → Verdict
classify_by [] requested unauthenticated = undecidable
classify_by d requested unauthenticated =
    let authenticated_values = values_outside unauthenticated d in
    let unauthenticated_values = values_in unauthenticated d in
    if not (any (λ _. true) authenticated_values)
    then undecidable
    else if any (λ v. not (is_empty_text v)) authenticated_values
    then live
    else if not (any (λ _. true) unauthenticated_values)
    then undecidable
    else if all is_empty_text unauthenticated_values
    then not_ready
    else if mostly_absent requested unauthenticated d
    then undecidable
    else expired

-- `_classify_session`.
unfoldable pub classify_session : Payload → Option (List String) → List String → Verdict
unfolding classify_by
classify_session d requested unauthenticated =
    classify_by d requested (with_aliases unauthenticated)

abbrev nonempty : List String → Bool
nonempty [] = false
nonempty (_ ∷ _) = true

-- `_is_classifiable`.
unfoldable pub is_classifiable : List String → List String → Bool
is_classifiable chunk unauthenticated =
    if not (nonempty (difference chunk unauthenticated))
    then false
    else nonempty (intersection chunk session_sentinels)
      || nonempty (intersection chunk unauthenticated)
