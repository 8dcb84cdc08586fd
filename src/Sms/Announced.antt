-- ===== src/Sms/Announced.antt =====
-- Which messages are announced (custom_components/zte_router_5g/coordinator.py, `_check_new_sms`).
use ha_zte_router_5g_monitor.Prelude.{
  ℕ, ◌≤◌, ◌≡◌, refl, Bool, true, false, ◌&&◌, ◌||◌, not, Option, none, some, List, [], ◌∷◌, map,
  keep_if, ltb, ◌==◌, arith, Bool-cases, inl, inr, subst, String, str_eq, eq_iff, eq_refl,
}
use ha_zte_router_5g_monitor.Prelude.Names.{member, add, member-add}
use ha_zte_router_5g_monitor.Value.{Value}
use ha_zte_router_5g_monitor.Sms.{
  Sms, Dated, Tracking, hash_of, drop_instant, with_instant, sort_by, earlier, dated, establish,
  is_new, track, check_sorted, check_new_sms,
}
use ha_zte_router_5g_monitor.Sms.Sorting.{
  All, Rises, All-sort_by, All-map, All-unfilter, All-kept, All-unsort, All-keep_if, last-All,
  last-Rises, last-some, All-both, sort_by-Rises,
}

-- A message that is not new.
abbrev pub is_seen : ℕ → List String → Dated → Bool
is_seen baseline fired x = not (is_new baseline fired x)

abbrev key : Dated → ℕ
key x = x.0

-- The same message, as `_check_new_sms` tells messages apart.
abbrev pub is_same : Dated → Dated → Bool
is_same x y = x.0 == y.0 && str_eq (hash_of x.1) (hash_of y.1)

-- The instant of the state, as the next check reads it.
module _ (instant : Value → Option ℕ) where
  -- What the loop keeps: the baseline is the instant of the state.
  abbrev Reads : ℕ → Tracking → Type 0
  Reads baseline s = instant s.last_timestamp ≡ some baseline

  -- A message is settled in a state that has a baseline, and to which it is not new.
  abbrev pub is_settled : Dated → Tracking → Bool
  is_settled x s = elim (instant s.last_timestamp) [ none ↦ false | some b ↦ is_seen b s.fired x ]

  -- The messages of a listing, with the instants that their dates name.
  abbrev IsDated : Dated → Type 0
  IsDated x = instant x.1.date ≡ some x.0

  track_settles :
      (new : List Dated) (baseline : ℕ) (s : Tracking) (x : Dated)
      → All IsDated new
      → Reads baseline s
      → is_settled x s ≡ true
      → is_settled x (track new baseline s) ≡ true
  unfolding track is_new
  track_settles [] baseline s x d r h = h
  track_settles ((i, m) ∷ new) baseline s x (d, ds) r h = elim (Bool-cases (ltb baseline i)) [
    | inl e ↦
        let t : Tracking = record { last_timestamp = m.date; fired = hash_of m ∷ [] } in
        let rest = track_settles new i t x ds d (ground (arith, d, e, r, h)) in
        ground (arith, e, rest)
    | inr e ↦
        let t : Tracking = record s { fired = add (hash_of m) s.fired } in
        let rest =
          track_settles new baseline t x ds r
            (ground (arith, e, r, h, member-add (hash_of m) (hash_of x.1) s.fired)) in
        ground (arith, e, rest)
  ]

  track_covers :
      (new : List Dated) (baseline : ℕ) (s : Tracking)
      → All IsDated new
      → Reads baseline s
      → All (λ x. is_settled x (track new baseline s) ≡ true) new
  unfolding track is_new
  track_covers [] baseline s d r = tt
  track_covers ((i, m) ∷ new) baseline s (d, ds) r = elim (Bool-cases (ltb baseline i)) [
    | inl e ↦
        let t : Tracking = record { last_timestamp = m.date; fired = hash_of m ∷ [] } in
        let here = track_settles new i t (i, m) ds d (ground (arith, d, eq_refl (hash_of m))) in
        let step : track new i t ≡ track ((i, m) ∷ new) baseline s = ground (arith, e) in
        subst (λ u. All (λ x. is_settled x u ≡ true) ((i, m) ∷ new)) step
          (here, track_covers new i t ds d)
    | inr e ↦
        let t : Tracking = record s { fired = add (hash_of m) s.fired } in
        let added = member-add (hash_of m) (hash_of m) s.fired in
        let here =
          track_settles new baseline t (i, m) ds r
            (ground (arith, e, r, added, eq_refl (hash_of m))) in
        let step : track new baseline t ≡ track ((i, m) ∷ new) baseline s = ground (arith, e) in
        subst (λ u. All (λ x. is_settled x u ≡ true) ((i, m) ∷ new)) step
          (here, track_covers new baseline t ds r)
  ]

  -- The first check settles what it sees.
  abbrev hashes_at : ℕ → List Dated → List String
  hashes_at latest xs = map hash_of (map drop_instant (keep_if (λ (x : Dated). x.0 == latest) xs))

  hashes_cover :
      (latest : ℕ) (fired : List String) (xs : List Dated)
      → ((k : String) → member k (hashes_at latest xs) ≡ true → member k fired ≡ true)
      → All (λ (x : Dated). not (x.0 == latest) || member (hash_of x.1) fired ≡ true) xs
  hashes_cover latest fired [] sub = tt
  hashes_cover latest fired (x ∷ xs) sub = (
    ground (arith, sub (hash_of x.1), eq_refl (hash_of x.1)),
    hashes_cover latest fired xs (λ k h. ground (arith, sub k, h)),
  )

  establish_covers :
      (xs : List Dated) (y : Dated)
      → IsDated y
      → All (λ (x : Dated). x.0 ≤ y.0) xs
      → All (λ x. is_settled x (establish xs y) ≡ true) xs
  unfolding establish is_new
  establish_covers xs (latest, m) d h =
      let fired = hashes_at latest xs in
      All-map
        (λ (x : Dated). (x.0 ≤ latest) × (not (x.0 == latest) || member (hash_of x.1) fired ≡ true))
        (λ x. is_settled x (establish xs (latest, m)) ≡ true) xs
        (λ x (l, e). ground (arith, d, l, e))
        (All-both _ _ xs h (hashes_cover latest fired xs (λ k q. q)))

  check_covers :
      (xs : List Dated) (o : Option ℕ) (s : Tracking)
      → instant s.last_timestamp ≡ o
      → All IsDated xs
      → Rises key xs
      → All (λ x. is_settled x (check_sorted xs o s).1 ≡ true) xs
  unfolding check_sorted
  check_covers [] o s e d r = tt
  check_covers (x ∷ xs) none s e d r =
      let (y, q) = last-some x xs in
      let c =
        establish_covers (x ∷ xs) y (last-All IsDated (x ∷ xs) y d q)
          (last-Rises key (x ∷ xs) y r q) in
      let step : establish (x ∷ xs) y ≡ (check_sorted (x ∷ xs) none s).1 = ground (arith, q) in
      subst (λ u. All (λ z. is_settled z u ≡ true) (x ∷ xs)) step c
  check_covers (x ∷ xs) (some b) s e d r =
      let new = keep_if (is_new b s.fired) (x ∷ xs) in
      let ds = All-keep_if IsDated (is_new b s.fired) (x ∷ xs) d in
      All-unfilter (λ z. is_settled z (track new b s) ≡ true) (is_new b s.fired) (x ∷ xs)
        (λ z h. track_settles new b s z ds e (ground (arith, e, h))) (track_covers new b s ds e)

  with_instant-IsDated :
      (o : Option ℕ) (m : Sms) (rest : List Dated)
      → instant m.date ≡ o
      → All IsDated rest
      → All IsDated (with_instant o m rest)
  with_instant-IsDated none m rest e h = h
  with_instant-IsDated (some i) m rest e h = (e, h)

  dated-IsDated : (ms : List Sms) → All IsDated (dated instant ms)
  unfolding dated
  dated-IsDated [] = tt
  dated-IsDated (m ∷ ms) =
      with_instant-IsDated (instant m.date) m (dated instant ms) refl (dated-IsDated ms)

  in_order-IsDated : (ms : List Sms) → All IsDated (sort_by earlier (dated instant ms))
  in_order-IsDated ms = All-sort_by earlier IsDated (dated instant ms) (dated-IsDated ms)

  check_settles :
      (xs : List Dated) (o : Option ℕ) (s : Tracking) (x : Dated)
      → instant s.last_timestamp ≡ o
      → All IsDated xs
      → is_settled x s ≡ true
      → is_settled x (check_sorted xs o s).1 ≡ true
  unfolding check_sorted
  check_settles [] o s x e d h = h
  check_settles (y ∷ ys) none s x e d h = absurd (ground (arith, e, h))
  check_settles (y ∷ ys) (some b) s x e d h =
      let new = keep_if (is_new b s.fired) (y ∷ ys) in
      track_settles new b s x (All-keep_if IsDated (is_new b s.fired) (y ∷ ys) d) e h

  -- The state behind some listings.
  unfoldable pub check_all : List (List Sms) → Tracking → Tracking
  check_all [] s = s
  check_all (ms ∷ listings) s = check_all listings (check_new_sms instant ms s).1

  check_all_settles :
      (listings : List (List Sms)) (s : Tracking) (x : Dated)
      → is_settled x s ≡ true
      → is_settled x (check_all listings s) ≡ true
  unfolding check_all check_new_sms
  check_all_settles [] s x h = h
  check_all_settles (ms ∷ listings) s x h =
      let o = instant s.last_timestamp in
      let xs = sort_by earlier (dated instant ms) in
      check_all_settles listings (check_sorted xs o s).1 x
        (check_settles xs o s x refl (in_order-IsDated ms) h)

  check_skips :
      (xs : List Dated) (o : Option ℕ) (s : Tracking) (x : Dated)
      → instant s.last_timestamp ≡ o
      → is_settled x s ≡ true
      → All (λ y. is_same x y ≡ false) (check_sorted xs o s).0
  unfolding check_sorted is_new
  check_skips [] o s x e h = tt
  check_skips (y ∷ ys) none s x e h = absurd (ground (arith, e, h))
  check_skips (y ∷ ys) (some b) s x e h =
      let new = keep_if (is_new b s.fired) (y ∷ ys) in
      All-map (λ z. is_new b s.fired z ≡ true) (λ z. is_same x z ≡ false) new
        (λ z q. ground (arith, e, h, q, eq_iff (hash_of x.1) (hash_of z.1)))
        (All-kept (is_new b s.fired) (y ∷ ys))

  -- A message that a check has seen with a date is not announced by a later check, whatever the router
  -- lists in between and then.
  pub never_announced_again :
      (ms : List Sms) (between : List (List Sms)) (next : List Sms) (s : Tracking)
      → All
          (λ x.
            All
              (λ y. is_same x y ≡ false)
              (check_new_sms instant next (check_all between (check_new_sms instant ms s).1)).0)
          (dated instant ms)
  unfolding check_new_sms
  never_announced_again ms between next s =
      let xs = sort_by earlier (dated instant ms) in
      let o = instant s.last_timestamp in
      let t = check_all between (check_sorted xs o s).1 in
      let rises = sort_by-Rises key (dated instant ms) in
      let settled =
        All-unsort earlier (λ x. is_settled x (check_sorted xs o s).1 ≡ true) (dated instant ms)
          (check_covers xs o s refl (in_order-IsDated ms) rises) in
      All-map (λ x. is_settled x (check_sorted xs o s).1 ≡ true)
        (λ x.
          All (λ y. is_same x y ≡ false)
            (check_sorted (sort_by earlier (dated instant next)) (instant t.last_timestamp) t).0)
        (dated instant ms)
        (λ x h.
          check_skips (sort_by earlier (dated instant next)) (instant t.last_timestamp) t x refl
            (check_all_settles between (check_sorted xs o s).1 x h))
        settled
