-- ===== src/Helpers/Bands/Exact.antt =====
-- What the channel tables of custom_components/zte_router_5g/helpers.py answer.
use mathlib.Core.Option.{some-injective}
use ha_zte_router_5g_monitor.Prelude.{
  ℕ, ◌+◌, ◌≤◌, ◌≡◌, refl, Bool, true, ◌&&◌, some, List, [], ◌∷◌, String, first_where, leb, arith,
  ◌⊎◌, inl, inr, Option-cases, Bool-cases, ap, subst, sym,
}
use ha_zte_router_5g_monitor.Prelude.Int.{pos}
use ha_zte_router_5g_monitor.Helpers.Bands.{
  Range, covers, channel_to_band, earfcn_bands, earfcn_to_band,
}

-- A row of the table.
abbrev pub IsRow : Range → List Range → Type 0
IsRow r [] = ⊥
IsRow r (x ∷ t) = (r ≡ x) ⊎ IsRow r t

-- Each range starts behind the one before it, the first behind `floor`.
unfoldable pub ascending : ℕ → List Range → Bool
ascending floor [] = true
ascending floor ((low, high, name) ∷ t) =
    let rest = ascending (high + 1) t in leb floor low && leb low high && rest

row_above :
    (floor : ℕ) (r : Range) (t : List Range) → ascending floor t ≡ true → IsRow r t → floor ≤ r.0
unfolding ascending
row_above floor r [] a i = ground arith
row_above floor (low, high, name) ((low', high', name') ∷ t) a (inl q) =
    let e : low ≡ low' = ap (λ (r : Range). r.0) q in ground arith
row_above floor r ((low', high', name') ∷ t) a (inr i) =
    ground (arith, row_above (high' + 1) r t (ground arith) i)

-- In an ascending table a row answers for each of its channels.
ascending_exact :
    (floor value low high : ℕ) (name : String) (t : List Range)
    → ascending floor t ≡ true
    → IsRow (low, high, name) t
    → low ≤ value
    → value ≤ high
    → first_where (covers value) t ≡ some (low, high, name)
unfolding ascending
ascending_exact floor value low high name [] a i l h = ground arith
ascending_exact floor value low high name ((low', high', name') ∷ t) a (inl q) l h =
    let e : low ≡ low' = ap (λ (r : Range). r.0) q in
    let f : high ≡ high' = ap (λ (r : Range). r.1) q in
    let c : covers value (low', high', name') ≡ true = ground arith in ground (arith, c, q)
ascending_exact floor value low high name ((low', high', name') ∷ t) a (inr i) l h =
    let above = row_above (high' + 1) (low, high, name) t (ground arith) i in
    let rest = ascending_exact (high' + 1) value low high name t (ground arith) i l h in
    ground (arith, rest)

found-IsRow :
    (value : ℕ) (r : Range) (t : List Range)
    → first_where (covers value) t ≡ some r
    → IsRow r t × (covers value r ≡ true)
found-IsRow value r [] h = ground arith
found-IsRow value r ((low, high, name) ∷ t) h = elim (Bool-cases (covers value (low, high, name))) [
  | inl c ↦
      let q : some (low, high, name) ≡ some r = ground arith in
      let e = some-injective _ _ q in
      (inl (sym e), subst (λ (x : Range). covers value x ≡ true) e c)
  | inr c ↦ let (i, k) = found-IsRow value r t (ground arith) in (inr i, k)
]

earfcn_ascending : ascending 0 earfcn_bands ≡ true
unfolding ascending earfcn_bands
earfcn_ascending = refl

-- The lookup of a 4G channel is exact: a row of the table answers with its band for each of its
-- channels, first or last, so the order of the table does not matter.
pub earfcn_exact :
    (value low high : ℕ) (name : String)
    → IsRow (low, high, name) earfcn_bands
    → low ≤ value
    → value ≤ high
    → earfcn_to_band (some (pos value)) ≡ some name
unfolding earfcn_to_band channel_to_band
earfcn_exact value low high name i l h =
    let e = ascending_exact 0 value low high name earfcn_bands earfcn_ascending i l h in
    ground (arith, e)

-- Where a channel, 4G or 5G, has a band, a row of the table has that name and holds the channel; where
-- none holds it, the answer is no band.
pub band_is_listed :
    (table : List Range) (value : ℕ) (name : String)
    → channel_to_band (some (pos value)) table ≡ some name
    → (low : ℕ) × (high : ℕ) × IsRow (low, high, name) table × (low ≤ value) × (value ≤ high)
unfolding channel_to_band
band_is_listed table value name h = elim (Option-cases (first_where (covers value) table)) [
  | inl n ↦ ground arith
  | inr ((low, high, name'), q) ↦
      let (i, c) = found-IsRow value (low, high, name') table q in
      let e : name' ≡ name = ground arith in
      (low, high, subst (λ n. IsRow (low, high, n) table) e i, ground arith, ground arith)
]
