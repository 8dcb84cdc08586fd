-- ===== src/Api/Batch/Chunks.antt =====
-- The chunks of `_split_by_url_budget` (custom_components/zte_router_5g/api.py).
use mathlib.Core.List.{append_assoc}
use ha_zte_router_5g_monitor.Prelude.{
  ℕ, suc, ◌+◌, ◌≡◌, refl, Bool, true, false, ◌&&◌, ◌||◌, List, [], ◌∷◌, ◌++◌, String, ltb, leb, all,
  arith, Bool-cases, inl, inr, length,
}
use ha_zte_router_5g_monitor.Api.Batch.{
  url_max, is_filled, addition, split_from, split_by_url_budget,
}

abbrev pub concat : List (List String) → List String
concat [] = []
concat (c ∷ cs) = c ++ concat cs

-- The characters of a chunk's names in its URL.
abbrev pub size : List String → ℕ
size [] = 0
size (name ∷ names) = addition name + size names

-- A chunk fits the budget, or holds a single name, or none.
abbrev pub fits : ℕ → List String → Bool
fits overhead chunk = leb (overhead + size chunk) url_max || leb (length chunk) 1

split_from_lossless :
    (overhead used : ℕ) (chunk names : List String)
    → concat (split_from overhead chunk used names) ≡ chunk ++ names
unfolding split_from
split_from_lossless overhead used chunk [] = refl
split_from_lossless overhead used chunk (name ∷ names) =
    let r = split_from_lossless overhead (overhead + addition name) (name ∷ []) names in
    let q = split_from_lossless overhead (used + addition name) (chunk ++ name ∷ []) names in
    let e = append_assoc chunk (name ∷ []) names in
    elim (Bool-cases (is_filled chunk && ltb url_max (used + addition name))) [
      | inl y ↦ ground (arith, r)
      | inr n ↦ ground (arith, q, e)
    ]

size-append : (xs ys : List String) → size (xs ++ ys) ≡ size xs + size ys
size-append [] ys = omega arith
size-append (x ∷ xs) ys = omega (arith, size-append xs ys)

length-snoc : (xs : List String) (x : String) → length (xs ++ x ∷ []) ≡ suc (length xs)
length-snoc [] x = refl
length-snoc (y ∷ xs) x = omega (arith, length-snoc xs x)

single_fits : (overhead : ℕ) (name : String) → fits overhead (name ∷ []) ≡ true
single_fits overhead name = ground arith

unfilled_length : (chunk : List String) → is_filled chunk ≡ false → length chunk ≡ 0
unfilled_length [] h = refl
unfilled_length (x ∷ xs) h = ground arith

snoc_fits :
    (overhead used : ℕ) (chunk : List String) (name : String)
    → used ≡ overhead + size chunk
    → is_filled chunk && ltb url_max (used + addition name) ≡ false
    → fits overhead (chunk ++ name ∷ []) ≡ true
snoc_fits overhead used chunk name u h =
    let s = size-append chunk (name ∷ []) in
    let l = length-snoc chunk name in let z = unfilled_length chunk in ground (arith, s, l, z)

split_from-fits :
    (overhead used : ℕ) (chunk names : List String)
    → used ≡ overhead + size chunk
    → fits overhead chunk ≡ true
    → all (fits overhead) (split_from overhead chunk used names) ≡ true
unfolding split_from
split_from-fits overhead used chunk [] u f = ground arith
split_from-fits overhead used chunk (name ∷ names) u f =
    elim (Bool-cases (is_filled chunk && ltb url_max (used + addition name))) [
      | inl y ↦
          let r =
            split_from-fits overhead (overhead + addition name) (name ∷ []) names (omega arith)
              (single_fits overhead name) in
          ground (arith, r)
      | inr n ↦
          let s = size-append chunk (name ∷ []) in
          let q =
            split_from-fits overhead (used + addition name) (chunk ++ name ∷ []) names (omega arith)
              (snoc_fits overhead used chunk name u n) in
          ground (arith, q)
    ]

-- The chunks of a list of names are the names, each once and in their order, and the URL of each chunk
-- keeps to the limit, unless it asks for a single name (or none, where the list is empty).
pub split_by_url_budget_lem :
    (overhead : ℕ) (params : List String)
    → (concat (split_by_url_budget overhead params) ≡ params)
      × (all (fits overhead) (split_by_url_budget overhead params) ≡ true)
unfolding split_by_url_budget
split_by_url_budget_lem overhead params = (
  split_from_lossless overhead overhead [] params,
  split_from-fits overhead overhead [] params (omega arith) (ground arith),
)
