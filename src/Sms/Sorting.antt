-- ===== src/Sms/Sorting.antt =====
-- The sorts of the messages (custom_components/zte_router_5g/__init__.py, coordinator.py).
use ha_zte_router_5g_monitor.Prelude.{
  ℕ, zero, suc, ap, last?, keep_if, some, subst, ◌-◌, take, drop, length, ◌+◌, ◌≤◌, ◌≡◌, refl, Bool,
  true, false, List, [], ◌∷◌, ◌++◌, leb, count_if, arith, Bool-cases, inl, inr,
}
use ha_zte_router_5g_monitor.Sms.{insert_by, sort_by}

abbrev pub All {ℓ κ} : {A : Type ℓ} → (A → Type κ) → List A → Type κ
All P [] = Unit
All P (x ∷ xs) = P x × All P xs

-- Each element is related to all behind it.
abbrev pub Ordered {ℓ} : {A : Type ℓ} → (A → A → Type 0) → List A → Type 0
Ordered R [] = Unit
Ordered R (x ∷ xs) = All (λ y. R x y) xs × Ordered R xs

-- No element is above one in front of it, or below.
abbrev pub Falls {ℓ} : {A : Type ℓ} → (A → ℕ) → List A → Type 0
Falls key = Ordered (λ x y. key y ≤ key x)

abbrev pub Rises {ℓ} : {A : Type ℓ} → (A → ℕ) → List A → Type 0
Rises key = Ordered (λ x y. key x ≤ key y)

module _ {ℓ} {A : Type ℓ} where
  pub count_if-append :
      (p : A → Bool) (xs ys : List A) → count_if p (xs ++ ys) ≡ count_if p xs + count_if p ys
  count_if-append p [] ys = omega arith
  count_if-append p (x ∷ xs) ys = ground (arith, count_if-append p xs ys)

  All-every {κ} : {P : A → Type κ} → ((x : A) → P x) → (xs : List A) → All P xs
  All-every f [] = tt
  All-every f (x ∷ xs) = (f x, All-every f xs)

  pub All-append {κ} : (P : A → Type κ) (xs ys : List A) → All P xs → All P ys → All P (xs ++ ys)
  All-append P [] ys h k = k
  All-append P (x ∷ xs) ys (h, hs) k = (h, All-append P xs ys hs k)

  pub All-map {κ μ} :
      (P : A → Type κ) (Q : A → Type μ) (xs : List A) → ((x : A) → P x → Q x) → All P xs → All Q xs
  All-map P Q [] f h = tt
  All-map P Q (x ∷ xs) f (h, hs) = (f x h, All-map P Q xs f hs)

  All-drop {κ} : (P : A → Type κ) (k : ℕ) (xs : List A) → All P xs → All P (drop k xs)
  All-drop P zero xs h = h
  All-drop P (suc k) [] h = tt
  All-drop P (suc k) (x ∷ xs) (h, hs) = All-drop P k xs hs

  pub All-both {κ μ} :
      (P : A → Type κ) (Q : A → Type μ) (xs : List A)
      → All P xs
      → All Q xs
      → All (λ x. P x × Q x) xs
  All-both P Q [] h k = tt
  All-both P Q (x ∷ xs) (h, hs) (k, ks) = ((h, k), All-both P Q xs hs ks)

  -- What a prefix leaves is nowhere above it.
  pub Falls-drop :
      (key : A → ℕ) (k : ℕ) (xs : List A)
      → Falls key xs
      → All (λ y. All (λ m. key y ≤ key m) (take k xs)) (drop k xs)
  Falls-drop key zero xs h = All-every (λ y. tt) xs
  Falls-drop key (suc k) [] h = tt
  Falls-drop key (suc k) (x ∷ xs) (h, hs) =
      All-both _ _ (drop k xs) (All-drop (λ y. key y ≤ key x) k xs h) (Falls-drop key k xs hs)

  pub take-append-drop : (k : ℕ) (xs : List A) → take k xs ++ drop k xs ≡ xs
  take-append-drop zero xs = refl
  take-append-drop (suc k) [] = refl
  take-append-drop (suc k) (x ∷ xs) = ap (λ ys. x ∷ ys) (take-append-drop k xs)

  pub length-drop : (k : ℕ) (xs : List A) → length (drop k xs) ≡ length xs - k
  length-drop zero xs = omega arith
  length-drop (suc k) [] = omega arith
  length-drop (suc k) (x ∷ xs) = omega (arith, length-drop k xs)

  pub length-count_if : (xs : List A) → length xs ≡ count_if (λ x. true) xs
  length-count_if [] = refl
  length-count_if (x ∷ xs) = ap (λ n. suc n) (length-count_if xs)

  module _ (precedes : A → A → Bool) where
    All-insert_by {κ} :
        (P : A → Type κ) (x : A) (ys : List A) → P x → All P ys → All P (insert_by precedes x ys)
    unfolding insert_by
    All-insert_by P x [] h hs = (h, tt)
    All-insert_by P x (y ∷ ys) h (k, ks) = elim (Bool-cases (precedes x y)) [
      | inl e ↦ rw e (h, (k, ks))
      | inr e ↦ rw e (k, All-insert_by P x ys h ks)
    ]

    pub All-sort_by {κ} : (P : A → Type κ) (xs : List A) → All P xs → All P (sort_by precedes xs)
    unfolding sort_by
    All-sort_by P [] h = tt
    All-sort_by P (x ∷ xs) (h, hs) = All-insert_by P x (sort_by precedes xs) h (All-sort_by P xs hs)

    count_if-insert_by :
        (p : A → Bool) (x : A) (ys : List A)
        → count_if p (insert_by precedes x ys) ≡ count_if p (x ∷ ys)
    unfolding insert_by
    count_if-insert_by p x [] = refl
    count_if-insert_by p x (y ∷ ys) = ground (arith, count_if-insert_by p x ys)

    -- A sort loses nothing and adds nothing.
    pub count_if-sort_by :
        (p : A → Bool) (xs : List A) → count_if p (sort_by precedes xs) ≡ count_if p xs
    unfolding sort_by
    count_if-sort_by p [] = refl
    count_if-sort_by p (x ∷ xs) =
        ground (arith, count_if-insert_by p x (sort_by precedes xs), count_if-sort_by p xs)

  module _ (precedes : A → A → Bool) (R : A → A → Type 0)
      (ahead : (x y : A) → precedes x y ≡ true → R x y)
      (behind : (x y : A) → precedes x y ≡ false → R y x)
      (onward : (x y z : A) → R x y → R y z → R x z) where
    insert_by-Ordered : (x : A) (ys : List A) → Ordered R ys → Ordered R (insert_by precedes x ys)
    unfolding insert_by
    insert_by-Ordered x [] h = (tt, tt)
    insert_by-Ordered x (y ∷ ys) (h, hs) = elim (Bool-cases (precedes x y)) [
      | inl e ↦
          let r = ahead x y e in
          rw e ((r, All-map (λ z. R y z) (λ z. R x z) ys (λ z l. onward x y z r l) h), (h, hs))
      | inr e ↦
          rw e
            (All-insert_by precedes (λ z. R y z) x ys (behind x y e) h, insert_by-Ordered x ys hs)
    ]

    sort_by-Ordered : (xs : List A) → Ordered R (sort_by precedes xs)
    unfolding sort_by
    sort_by-Ordered [] = tt
    sort_by-Ordered (x ∷ xs) = insert_by-Ordered x (sort_by precedes xs) (sort_by-Ordered xs)

  module _ (key : A → ℕ) where
    abbrev above : A → A → Bool
    above x y = leb (key y) (key x)

    abbrev below : A → A → Bool
    below x y = leb (key x) (key y)

    pub sort_by-Falls : (xs : List A) → Falls key (sort_by above xs)
    sort_by-Falls =
        sort_by-Ordered above (λ x y. key y ≤ key x) (λ x y e. ground (arith, e))
          (λ x y e. ground (arith, e)) (λ x y z h k. omega arith)

    pub sort_by-Rises : (xs : List A) → Rises key (sort_by below xs)
    sort_by-Rises =
        sort_by-Ordered below (λ x y. key x ≤ key y) (λ x y e. ground (arith, e))
          (λ x y e. ground (arith, e)) (λ x y z h k. omega arith)

    -- The last of a list that rises is above all of it.
    pub last-Rises :
        (xs : List A) (y : A) → Rises key xs → last? xs ≡ some y → All (λ x. key x ≤ key y) xs
    last-Rises [] y h e = tt
    last-Rises (x ∷ []) y h e = (ground (arith, e), tt)
    last-Rises (x ∷ z ∷ zs) y ((h, hs), k) e =
        let (l, ls) = last-Rises (z ∷ zs) y k e in (omega arith, (l, ls))

  pub last-All {κ} : (P : A → Type κ) (xs : List A) (y : A) → All P xs → last? xs ≡ some y → P y
  last-All P [] y h e = cc
  last-All P (x ∷ []) y (h, hs) e = let q : x ≡ y = cc in subst P q h
  last-All P (x ∷ z ∷ zs) y (h, hs) e = last-All P (z ∷ zs) y hs e

  pub All-unfilter {κ} :
      (P : A → Type κ) (q : A → Bool) (xs : List A)
      → ((x : A) → q x ≡ false → P x)
      → All P (keep_if q xs)
      → All P xs
  All-unfilter P q [] f h = tt
  All-unfilter P q (x ∷ xs) f h = elim (Bool-cases (q x)) [
    | inl e ↦ let (p, rest) = rw e at h in (p, All-unfilter P q xs f rest)
    | inr e ↦ let rest = rw e at h in (f x e, All-unfilter P q xs f rest)
  ]

  pub All-keep_if {κ} :
      (P : A → Type κ) (q : A → Bool) (xs : List A) → All P xs → All P (keep_if q xs)
  All-keep_if P q [] h = tt
  All-keep_if P q (x ∷ xs) (h, hs) = elim (Bool-cases (q x)) [
    | inl e ↦ rw e (h, All-keep_if P q xs hs)
    | inr e ↦ rw e (All-keep_if P q xs hs)
  ]

  pub last-some : (x : A) (xs : List A) → (y : A) × (last? (x ∷ xs) ≡ some y)
  last-some x [] = (x, refl)
  last-some x (z ∷ zs) = last-some z zs

  pub All-kept : (q : A → Bool) (xs : List A) → All (λ x. q x ≡ true) (keep_if q xs)
  All-kept q [] = tt
  All-kept q (x ∷ xs) = elim (Bool-cases (q x)) [
    | inl e ↦ rw e (e, All-kept q xs)
    | inr e ↦ rw e (All-kept q xs)
  ]

  module _ (precedes : A → A → Bool) where
    All-uninsert {κ} :
        (P : A → Type κ) (x : A) (ys : List A) → All P (insert_by precedes x ys) → P x × All P ys
    unfolding insert_by
    All-uninsert P x [] h = h
    All-uninsert P x (y ∷ ys) h = elim (Bool-cases (precedes x y)) [
      | inl e ↦ let (p, rest) = rw e at h in (p, rest)
      | inr e ↦
          let (p, rest) = rw e at h in
          let (q, others) = All-uninsert P x ys rest in (q, (p, others))
    ]

    pub All-unsort {κ} : (P : A → Type κ) (xs : List A) → All P (sort_by precedes xs) → All P xs
    unfolding sort_by
    All-unsort P [] h = tt
    All-unsort P (x ∷ xs) h =
        let (p, rest) = All-uninsert P x (sort_by precedes xs) h in (p, All-unsort P xs rest)
