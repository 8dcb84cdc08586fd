-- ===== src/Sms/Kept.antt =====
-- Which messages a deletion that keeps some leaves (custom_components/zte_router_5g/__init__.py,
-- `_messages_beyond_the_newest`).
use ha_zte_router_5g_monitor.Prelude.{
  ℕ, suc, ◌+◌, ◌-◌, ◌≤◌, ◌≡◌, refl, Bool, true, Option, none, some, List, [], ◌∷◌, ◌++◌, map, take,
  drop, length, count_if, arith, ap,
}
use ha_zte_router_5g_monitor.Value.{Value}
use ha_zte_router_5g_monitor.Sms.{
  Sms, Dated, sort_by, later, higher, drop_instant, with_instant, without_instant, dated, undated,
  newest_first, messages_beyond_the_newest,
}
use ha_zte_router_5g_monitor.Sms.Sorting.{
  All, Falls, All-append, All-map, All-sort_by, count_if-append, count_if-sort_by, sort_by-Falls,
  Falls-drop, take-append-drop, length-drop, length-count_if,
}

abbrev instant_of : Dated → ℕ
instant_of x = x.0

module _ (instant : Value → Option ℕ) where
  -- How new a message is known to be: by its instant, and below all of these without one.
  abbrev pub rank : Sms → ℕ
  rank m = elim (instant m.date) [ none ↦ 0 | some i ↦ suc i ]

  abbrev IsRanked : Dated → Type 0
  IsRanked x = rank x.1 ≡ suc x.0

  with_instant-IsRanked :
      (o : Option ℕ) (m : Sms) (rest : List Dated)
      → instant m.date ≡ o
      → All IsRanked rest
      → All IsRanked (with_instant o m rest)
  with_instant-IsRanked none m rest e h = h
  with_instant-IsRanked (some i) m rest e h = (ground (arith, e), h)

  dated-IsRanked : (ms : List Sms) → All IsRanked (dated instant ms)
  unfolding dated
  dated-IsRanked [] = tt
  dated-IsRanked (m ∷ ms) =
      with_instant-IsRanked (instant m.date) m (dated instant ms) refl (dated-IsRanked ms)

  without_instant-rank :
      (o : Option ℕ) (m : Sms) (rest : List Sms)
      → instant m.date ≡ o
      → All (λ (x : Sms). rank x ≡ 0) rest
      → All (λ (x : Sms). rank x ≡ 0) (without_instant o m rest)
  without_instant-rank none m rest e h = (ground (arith, e), h)
  without_instant-rank (some i) m rest e h = h

  undated-rank : (ms : List Sms) → All (λ (m : Sms). rank m ≡ 0) (undated instant ms)
  unfolding undated
  undated-rank [] = tt
  undated-rank (m ∷ ms) =
      without_instant-rank (instant m.date) m (undated instant ms) refl (undated-rank ms)

  -- Each message is dated or undated.
  parts_count :
      (p : Sms → Bool) (o : Option ℕ) (m : Sms) (xs : List Dated) (ys : List Sms)
      → count_if p (map drop_instant (with_instant o m xs)) + count_if p (without_instant o m ys)
        ≡ count_if p (m ∷ (map drop_instant xs ++ ys))
  parts_count p none m xs ys = ground (arith, count_if-append p (map drop_instant xs) ys)
  parts_count p (some i) m xs ys = ground (arith, count_if-append p (map drop_instant xs) ys)

  dated_count :
      (p : Sms → Bool) (ms : List Sms)
      → count_if p (map drop_instant (dated instant ms)) + count_if p (undated instant ms)
        ≡ count_if p ms
  unfolding dated undated
  dated_count p [] = omega arith
  dated_count p (m ∷ ms) =
      let xs = dated instant ms in
      let ys = undated instant ms in
      ground (
        arith,
        parts_count p (instant m.date) m xs ys,
        count_if-append p (map drop_instant xs) ys,
        dated_count p ms,
      )

  count_if-map :
      (p : Sms → Bool) (xs : List Dated)
      → count_if p (map drop_instant xs) ≡ count_if (λ (x : Dated). p x.1) xs
  count_if-map p [] = refl
  count_if-map p (x ∷ xs) = ground (arith, count_if-map p xs)

  newest_first_count :
      (p : Sms → Bool) (ms : List Sms) → count_if p (newest_first instant ms) ≡ count_if p ms
  unfolding newest_first
  newest_first_count p ms =
      let xs = dated instant ms in
      let ys = undated instant ms in
      omega (
        arith,
        count_if-append p (map drop_instant (sort_by later xs)) (sort_by higher ys),
        count_if-map p (sort_by later xs),
        count_if-map p xs,
        count_if-sort_by later (λ (x : Dated). p x.1) xs,
        count_if-sort_by higher p ys,
        dated_count p ms,
      )

  abbrev Below : ℕ → List Sms → Type 0
  Below n ms = All (λ (x : Sms). rank x ≤ n) ms

  Below-map :
      (n : ℕ) (xs : List Dated)
      → All (λ (y : Dated). y.0 ≤ n) xs
      → All IsRanked xs
      → Below (suc n) (map drop_instant xs)
  Below-map n [] h r = tt
  Below-map n (x ∷ xs) (h, hs) (r, rs) = (omega (arith, r), Below-map n xs hs rs)

  Below-zero : (n : ℕ) (ms : List Sms) → All (λ (x : Sms). rank x ≡ 0) ms → Below n ms
  Below-zero n ms =
      All-map (λ (x : Sms). rank x ≡ 0) (λ (x : Sms). rank x ≤ n) ms (λ x r. omega (arith, r))

  zero-Falls : (ms : List Sms) → All (λ (x : Sms). rank x ≡ 0) ms → Falls rank ms
  zero-Falls [] r = tt
  zero-Falls (m ∷ ms) (r, rs) = (Below-zero (rank m) ms rs, zero-Falls ms rs)

  append-Falls :
      (xs : List Dated) (ys : List Sms)
      → Falls instant_of xs
      → All IsRanked xs
      → All (λ (x : Sms). rank x ≡ 0) ys
      → Falls rank (map drop_instant xs ++ ys)
  append-Falls [] ys f r z = zero-Falls ys z
  append-Falls (x ∷ xs) ys (f, fs) (r, rs) z = (
    All-append (λ (y : Sms). rank y ≤ rank x.1) (map drop_instant xs) ys
        (All-map (λ (y : Sms). rank y ≤ suc x.0) (λ (y : Sms). rank y ≤ rank x.1)
          (map drop_instant xs) (λ y l. omega (arith, r, l)) (Below-map x.0 xs f rs))
        (Below-zero (rank x.1) ys z),
    append-Falls xs ys fs rs z,
  )

  newest_first-Falls : (ms : List Sms) → Falls rank (newest_first instant ms)
  unfolding newest_first
  newest_first-Falls ms =
      let xs = dated instant ms in
      append-Falls (sort_by later xs) (sort_by higher (undated instant ms))
        (sort_by-Falls instant_of xs) (All-sort_by later IsRanked xs (dated-IsRanked ms))
        (All-sort_by higher (λ (x : Sms). rank x ≡ 0) (undated instant ms) (undated-rank ms))

  -- The messages that a deletion leaves.
  abbrev pub kept : List Sms → ℕ → List Sms
  kept ms keep_last = take keep_last (newest_first instant ms)

  -- A deletion that keeps the last messages deletes none that is known to be newer than one it leaves: a
  -- message without a date goes before any with one. It deletes all but as many as it is to keep, and
  -- each message is either left or deleted.
  pub messages_beyond_the_newest_lem :
      (ms : List Sms) (keep_last : ℕ)
      → All
          (λ (x : Sms). All (λ (m : Sms). rank x ≤ rank m) (kept ms keep_last))
          (messages_beyond_the_newest instant ms keep_last)
        × (length (messages_beyond_the_newest instant ms keep_last) ≡ length ms - keep_last)
        × ((p : Sms → Bool)
            → count_if p (kept ms keep_last)
                + count_if p (messages_beyond_the_newest instant ms keep_last)
              ≡ count_if p ms)
  unfolding messages_beyond_the_newest
  messages_beyond_the_newest_lem ms keep_last =
      let all = newest_first instant ms in
      let every : Sms → Bool = λ x. true in
      (
        Falls-drop rank keep_last all (newest_first-Falls ms),
        omega (
          arith,
          length-drop keep_last all,
          length-count_if all,
          length-count_if ms,
          newest_first_count every ms,
        ),
        λ p. omega (
          arith,
          count_if-append p (take keep_last all) (drop keep_last all),
          ap (λ xs. count_if p xs) (take-append-drop keep_last all),
          newest_first_count p ms,
        ),
      )
