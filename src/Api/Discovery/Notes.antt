-- ===== src/Api/Discovery/Notes.antt =====
-- The notes of a pass (custom_components/zte_router_5g/api.py): `_pass_notes` and `_reprobe_notes`, and
-- those on the budget.
use ha_zte_router_5g_monitor.Prelude.{
  ℕ, ◌+◌, ◌≡◌, refl, arith, any, ◌||◌, Bool, true, false, List, [], ◌∷◌, ◌++◌, String, length, ltb,
  leb, if◌then◌else◌,
}
use ha_zte_router_5g_monitor.Api.Batch.{is_filled}
use ha_zte_router_5g_monitor.Api.Discovery.{Counters, relogin_limit}

-- The notes of a pass, with their numbers.
pub data Note : Type 0 where
  budget_exhausted still_to_reprobe : ℕ → Note
  read_without_session re_established not_re_established : ℕ → Note
  relogin_limit_reached : Note
  shared_requests_declined confirmed_out_of_band : ℕ → Note
  reprobed_singly : ℕ → ℕ → ℕ → Note
  not_reprobed names_declined : ℕ → Note

abbrev pub note_if : Bool → Note → List Note
note_if test note = if test then note ∷ [] else []

-- `_pass_notes`.
unfoldable pub pass_notes : Counters → List Note
pass_notes c =
    note_if (ltb 0 c.unreliable) (read_without_session c.unreliable)
    ++ (note_if (ltb 0 c.recovered) (re_established c.recovered)
        ++ (note_if (ltb 0 c.failed_relogins) (not_re_established c.failed_relogins)
            ++ (note_if (leb relogin_limit c.relogins) relogin_limit_reached
                ++ (note_if (ltb 0 c.refused_chunks) (shared_requests_declined c.refused_chunks)
                    ++ note_if (ltb 0 c.fallback_checks)
                        (confirmed_out_of_band c.fallback_checks)))))

abbrev pub sum : List ℕ → ℕ
sum [] = 0
sum (n ∷ ns) = n + sum ns

-- `_reprobe_notes`.
unfoldable pub reprobe_notes : ℕ → List ℕ → List String → List String → List Note
reprobe_notes retried rounds unasked declined =
    note_if (ltb 0 retried) (reprobed_singly retried (length rounds) (sum rounds))
    ++ (note_if (is_filled unasked) (not_reprobed (length unasked))
        ++ note_if (is_filled declined) (names_declined (length declined)))

-- The budget ran out.
abbrev pub is_exhaustion : Note → Bool
is_exhaustion (budget_exhausted n) = true
is_exhaustion (still_to_reprobe n) = true
is_exhaustion _ = false

abbrev pub is_out_of_budget : List Note → Bool
is_out_of_budget notes = any is_exhaustion notes

pub any-append {ℓ} :
    {A : Type ℓ} (p : A → Bool) (xs ys : List A) → any p (xs ++ ys) ≡ (any p xs || any p ys)
any-append p [] ys = refl
any-append p (x ∷ xs) ys = ground (arith, any-append p xs ys)
