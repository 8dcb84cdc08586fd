-- ===== src/Api/Classify/Verdicts.antt =====
-- What the verdicts mean, by the entries of the response.
use ha_zte_router_5g_monitor.Prelude.{
  String, ◌≡◌, refl, Bool, true, false, ◌&&◌, ◌||◌, not, Option, some, List, [], ◌∷◌, any, all,
  keep_if, count_if, arith, if◌then◌else◌,
}
use ha_zte_router_5g_monitor.Prelude.Names.{member}
use ha_zte_router_5g_monitor.Value.{Value, Payload}
use ha_zte_router_5g_monitor.Api.Classify.{
  live, expired, not_ready, undecidable, is_empty_text, values_in, values_outside, has_key,
  mostly_absent, classify_by, classify_session, with_aliases,
}

-- Some entry of the payload passes the test.
abbrev pub some_entry : (String → Value → Bool) → Payload → Bool
some_entry test [] = false
some_entry test ((k, v) ∷ d) = test k v || some_entry test d

-- A key of the set, or a key outside it, is in the payload; and one that carries a value.
abbrev pub asks_open : List String → Payload → Bool
asks_open keys = some_entry (λ k v. member k keys)

abbrev pub asks_session : List String → Payload → Bool
asks_session keys = some_entry (λ k v. not (member k keys))

abbrev pub open_answers : List String → Payload → Bool
open_answers keys = some_entry (λ k v. member k keys && not (is_empty_text v))

abbrev pub session_answers : List String → Payload → Bool
session_answers keys = some_entry (λ k v. not (member k keys) && not (is_empty_text v))

outside_any :
    (u : List String) (d : Payload)
    → (any (λ _. true) (values_outside u d) ≡ asks_session u d)
      × (any (λ v. not (is_empty_text v)) (values_outside u d) ≡ session_answers u d)
unfolding values_outside
outside_any u [] = (refl, refl)
outside_any u ((k, v) ∷ d) = (ground (arith, outside_any u d), ground (arith, outside_any u d))

inside_any :
    (u : List String) (d : Payload)
    → (any (λ _. true) (values_in u d) ≡ asks_open u d)
      × (all is_empty_text (values_in u d) ≡ not (open_answers u d))
unfolding values_in
inside_any u [] = (refl, refl)
inside_any u ((k, v) ∷ d) = (ground (arith, inside_any u d), ground (arith, inside_any u d))

answers_ask :
    (u : List String) (d : Payload)
    → (session_answers u d ≡ true → asks_session u d ≡ true)
      × (open_answers u d ≡ true → asks_open u d ≡ true)
answers_ask u [] = (ground arith, ground arith)
answers_ask u ((k, v) ∷ d) = (ground (arith, answers_ask u d), ground (arith, answers_ask u d))

-- A response is live exactly when a key that needs a session carries a value. Where such keys are
-- there and all blank, it is expired if a key that needs none carries a value (and at most half of
-- the names asked for are missing), not ready if such keys are there and blank too. All else, the
-- empty response included, decides nothing.
pub classify_by_entries :
    (d : Payload) (requested : Option (List String)) (unauthenticated : List String)
    → let u = with_aliases unauthenticated in
      classify_session d requested unauthenticated ≡ (
        if session_answers u d
        then live
        else if asks_session u d && open_answers u d
        then (if mostly_absent requested u d then undecidable else expired)
        else if asks_session u d && asks_open u d
        then not_ready
        else undecidable)
unfolding classify_session classify_by
classify_by_entries [] requested unauthenticated = refl
classify_by_entries ((k, v) ∷ d) requested unauthenticated =
    let u = with_aliases unauthenticated in
    let e : Payload = (k, v) ∷ d in
    rw ((outside_any u e).0, (outside_any u e).1, (inside_any u e).0, (inside_any u e).1)
      (ground (arith, answers_ask u e))

none_absent :
    (d : Payload) (names : List String)
    → all (has_key d) names ≡ true
    → count_if (λ k. not (has_key d k)) names ≡ 0
none_absent d [] h = refl
none_absent d (n ∷ names) h = ground (arith, none_absent d names)

keep_if-all :
    (test keep : String → Bool) (names : List String)
    → all test names ≡ true
    → all test (keep_if keep names) ≡ true
keep_if-all test keep [] h = h
keep_if-all test keep (n ∷ names) h = ground (arith, keep_if-all test keep names)

complete_not_absent :
    (d : Payload) (names u : List String)
    → all (has_key d) names ≡ true
    → mostly_absent (some names) u d ≡ false
unfolding mostly_absent
complete_not_absent d names u h = ground (
  arith,
  none_absent d (keep_if (λ k. not (member k u)) names),
  keep_if-all (has_key d) (λ k. not (member k u)) names,
)

-- A session that has ended is recognized: a response that holds every name asked for, blank wherever
-- a session is needed and with a value where none is, is expired, and is never taken for a success.
pub dead_session_expired :
    (d : Payload) (requested unauthenticated : List String)
    → let u = with_aliases unauthenticated in
      all (has_key d) requested ≡ true
      → asks_session u d ≡ true
      → session_answers u d ≡ false
      → open_answers u d ≡ true
      → classify_session d (some requested) unauthenticated ≡ expired
dead_session_expired d requested unauthenticated h s b o = ground (
  arith,
  classify_by_entries d (some requested) unauthenticated,
  complete_not_absent d requested (with_aliases unauthenticated),
)
