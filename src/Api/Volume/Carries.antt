-- ===== src/Api/Volume/Carries.antt =====
-- What the form of the data volume (custom_components/zte_router_5g/api.py) carries for each field.
use ha_zte_router_5g_monitor.Prelude.{
  ◌≡◌, refl, Bool, true, false, not, none, some, List, [], ◌∷◌, ◌++◌, String, str_eq, any, all,
  first_where, arith, Option-cases, Bool-cases, inl, inr, eq_refl, eq_iff, subst, sym, ap, ◌⊎◌,
}
use ha_zte_router_5g_monitor.Prelude.Dict.{Dict, get, put, get-put}
use ha_zte_router_5g_monitor.Prelude.Names.{member}
use ha_zte_router_5g_monitor.Value.{Payload, read, blank, str_of}
use ha_zte_router_5g_monitor.Api.Batch.{is_filled}
use ha_zte_router_5g_monitor.Api.Volume.{
  Field, data_volume_fields, form, answered, name_of, value_of, collect, form_of, volume_form,
}

is_filled-append : (xs : List String) (x : String) → is_filled (xs ++ x ∷ []) ≡ true
is_filled-append [] x = refl
is_filled-append (y ∷ ys) x = refl

module _ (profile : String → String) (current : Payload) (changes : Dict String) where
  collect-missing :
      (fs : List Field) (payload : Dict String) (missing : List String)
      → is_filled missing ≡ true
      → is_filled (collect profile current changes fs payload missing).1 ≡ true
  unfolding collect
  collect-missing [] payload missing h = h
  collect-missing (f ∷ fs) payload missing h =
      elim (Option-cases (value_of profile current changes f)) [
        | inl e ↦
            let more = is_filled-append missing f.0 in
            ground (arith, e, collect-missing fs payload (missing ++ f.0 ∷ []) more)
        | inr (v, e) ↦ ground (
          arith,
          e,
          collect-missing fs (put payload (name_of profile current changes f) v) missing,
        )
      ]

  abbrev pub differs : String → Field → Bool
  differs k f = not (str_eq (name_of profile current changes f) k)

  collect-keeps :
      (fs : List Field) (payload : Dict String) (missing : List String) (k : String)
      → all (differs k) fs ≡ true
      → get (collect profile current changes fs payload missing).0 k ≡ get payload k
  unfolding collect
  collect-keeps [] payload missing k h = refl
  collect-keeps (f ∷ fs) payload missing k h =
      elim (Option-cases (value_of profile current changes f)) [
        | inl e ↦ ground (arith, e, collect-keeps fs payload (missing ++ f.0 ∷ []) k)
        | inr (v, e) ↦ ground (
          arith,
          e,
          get-put payload (name_of profile current changes f) k v,
          collect-keeps fs (put payload (name_of profile current changes f) v) missing k,
        )
      ]

  collect-carries :
      (before : List Field) (f : Field) (after : List Field) (payload : Dict String)
      (missing : List String)
      → is_filled (collect profile current changes (before ++ f ∷ after) payload missing).1 ≡ false
      → all (differs (name_of profile current changes f)) after ≡ true
      → (v : String) × (value_of profile current changes f ≡ some v)
        × (get
              (collect profile current changes (before ++ f ∷ after) payload missing).0
              (name_of profile current changes f)
            ≡ some v)
  unfolding collect
  collect-carries [] f after payload missing whole apart =
      elim (Option-cases (value_of profile current changes f)) [
        | inl e ↦
            let m =
              collect-missing after payload (missing ++ f.0 ∷ []) (is_filled-append missing f.0) in
            absurd (ground (arith, e, m))
        | inr (v, e) ↦
            let k =
              collect-keeps after (put payload (name_of profile current changes f) v) missing
                (name_of profile current changes f) apart in
            let g =
              get-put payload (name_of profile current changes f)
                (name_of profile current changes f) v in
            (v, e, ground (arith, e, k, g, eq_refl (name_of profile current changes f)))
      ]
  collect-carries (b ∷ before) f after payload missing whole apart =
      elim (Option-cases (value_of profile current changes b)) [
        | inl e ↦
            let (v, q, g) =
              collect-carries before f after payload (missing ++ b.0 ∷ []) (ground (arith, e))
                apart in
            (v, q, ground (arith, e, g))
        | inr (v', e) ↦
            let (v, q, g) =
              collect-carries before f after (put payload (name_of profile current changes b) v')
                missing (ground (arith, e)) apart in
            (v, q, ground (arith, e, g))
      ]

  form_of_carries :
      (before : List Field) (f : Field) (after : List Field) (sent : Dict String)
      → all (differs (name_of profile current changes f)) after ≡ true
      → form_of profile current changes (before ++ f ∷ after) ≡ form sent
      → (v : String) × (value_of profile current changes f ≡ some v)
        × (get sent (name_of profile current changes f) ≡ some v)
  unfolding form_of
  form_of_carries before f after sent apart e =
      let (payload, missing) = collect profile current changes (before ++ f ∷ after) [] [] in
      elim (Bool-cases (is_filled missing)) [
        | inl m ↦ absurd (ground (arith, e, m))
        | inr m ↦
            let (v, q, g) = collect-carries before f after [] [] m apart in
            let same : payload ≡ sent = ground (arith, e, m) in
            (v, q, subst (λ d. get d (name_of profile current changes f) ≡ some v) same g)
      ]

  -- The name that a field is sent under: the first of its keys that the poll answered with a value, or,
  -- where none was, the name that the device's profile has for it.
  abbrev pub IsName : String → Field → Type 0
  IsName key f =
      ((before : List String) × (after : List String) × (f.1 ≡ before ++ key ∷ after)
        × (all (λ k. blank (read current k)) before ≡ true)
        × (blank (read current key) ≡ false))
      ⊎ ((all (λ k. blank (read current k)) f.1 ≡ true) × (key ≡ profile f.0))

  -- The value that a field is sent with: the change asked for, or else what the poll answered.
  abbrev pub IsValue : String → String → Field → Type 0
  IsValue key v f =
      (get changes f.0 ≡ some v)
      ⊎ ((get changes f.0 ≡ none)
          × (blank (read current key) ≡ false)
          × (v ≡ str_of (read current key)))

  -- The names that a field may be sent under, and whether two fields may share one.
  abbrev pub may_be : Field → List String
  may_be f = profile f.0 ∷ f.1

  abbrev pub may_clash : Field → Field → Bool
  may_clash f g = any (λ k. member k (may_be g)) (may_be f)

  first_answered :
      (keys : List String)
      → ((first_where (λ key. not (blank (read current key))) keys ≡ none)
          × (all (λ k. blank (read current k)) keys ≡ true))
        ⊎ ((before : List String) × (key : String) × (after : List String) × (first_where
                (λ k. not (blank (read current k)))
                keys
              ≡ some key)
            × (keys ≡ before ++ key ∷ after)
            × (all (λ k. blank (read current k)) before ≡ true)
            × (blank (read current key) ≡ false))
  first_answered [] = inl (refl, refl)
  first_answered (k ∷ keys) = elim (Bool-cases (blank (read current k))) [
    | inr n ↦ inr ([], k, keys, ground (arith, n), refl, refl, n)
    | inl y ↦ elim (first_answered keys) [
      | inl (e, b) ↦ inl (ground (arith, y, e), ground (arith, y, b))
      | inr (before, key, after, e, q, b, n) ↦
          inr (k ∷ before, key, after, ground (arith, y, e), ap (◌∷◌ k) q, ground (arith, y, b), n)
    ]
  ]

  name_of-IsName : (f : Field) → IsName (name_of profile current changes f) f
  unfolding name_of answered
  name_of-IsName f = elim (first_answered f.1) [
    | inl (e, b) ↦ inr (b, ground (arith, e))
    | inr (before, key, after, e, q, b, n) ↦
        let same : key ≡ name_of profile current changes f = ground (arith, e) in
        subst (λ k. IsName k f) same (inl (before, after, q, b, n))
  ]

  value_of-IsValue :
      (f : Field) (v : String)
      → value_of profile current changes f ≡ some v
      → IsValue (name_of profile current changes f) v f
  unfolding name_of value_of answered
  value_of-IsValue f v h = elim (Option-cases (get changes f.0)) [
    | inr (u, c) ↦ inl (ground (arith, h, c))
    | inl c ↦ elim (first_answered f.1) [
      | inl (e, b) ↦ absurd (ground (arith, h, c, e))
      | inr (before, key, after, e, q, b, n) ↦
          let same : key ≡ name_of profile current changes f = ground (arith, e) in
          subst (λ k. IsValue k v f) same (inr (c, n, ground (arith, h, c, e)))
    ]
  ]

  member_middle : (before after : List String) (k : String) → member k (before ++ k ∷ after) ≡ true
  member_middle [] after k = ground (arith, eq_refl k)
  member_middle (b ∷ before) after k = ground (arith, member_middle before after k)

  may_be_name : (f : Field) → member (name_of profile current changes f) (may_be f) ≡ true
  may_be_name f = elim (name_of-IsName f) [
    | inr (b, q) ↦ rw q (ground (arith, eq_refl (profile f.0)))
    | inl (before, after, q, b, n) ↦
        let m = member_middle before after (name_of profile current changes f) in
        let m' = subst (λ ks. member (name_of profile current changes f) ks ≡ true) (sym q) m in
        ground (arith, m')
  ]

  any-member :
      (ks xs : List String) (k : String)
      → member k ks ≡ true
      → member k xs ≡ true
      → any (λ x. member x xs) ks ≡ true
  any-member [] xs k m h = ground arith
  any-member (x ∷ ks) xs k m h = elim (Bool-cases (str_eq x k)) [
    | inl y ↦
        let q : k ≡ x = ground (arith, y, eq_iff x k) in
        let here = subst (λ z. member z xs ≡ true) q h in ground (arith, here)
    | inr n ↦ ground (arith, n, any-member ks xs k (ground (arith, m, n)) h)
  ]

  apart_differs :
      (f : Field) (after : List Field)
      → all (λ g. not (may_clash f g)) after ≡ true
      → all (differs (name_of profile current changes f)) after ≡ true
  apart_differs f [] h = refl
  apart_differs f (g ∷ after) h =
      elim (Bool-cases
        (str_eq (name_of profile current changes g) (name_of profile current changes f))) [
          | inr n ↦ ground (arith, n, apart_differs f after (ground (arith, h)))
          | inl y ↦
              let q : name_of profile current changes g ≡ name_of profile current changes f =
                ground (
                  arith,
                  y,
                  eq_iff (name_of profile current changes g) (name_of profile current changes f),
                ) in
              let m = subst (λ k. member k (may_be g) ≡ true) q (may_be_name g) in
              let c =
                any-member (may_be f) (may_be g) (name_of profile current changes f) (may_be_name f)
                  m in
              absurd (ground (arith, h, c))
        ]

  -- A form that comes out is whole: each field, unless a later one may share its name, is in it, under the
  -- first of its keys that the last poll answered, or under the profile's name where none was, and with the
  -- change asked for, or else with the value that the poll answered under that key.
  pub volume_form_carries :
      (before : List Field) (f : Field) (after : List Field) (sent : Dict String)
      → data_volume_fields ≡ before ++ f ∷ after
      → all (λ g. not (may_clash f g)) after ≡ true
      → volume_form profile current changes ≡ form sent
      → (key : String) × (v : String) × IsName key f × IsValue key v f × (get sent key ≡ some v)
  unfolding volume_form
  volume_form_carries before f after sent split apart e =
      let whole = subst (λ fs. form_of profile current changes fs ≡ form sent) split e in
      let (v, q, g) = form_of_carries before f after sent (apart_differs f after apart) whole in
      (name_of profile current changes f, v, name_of-IsName f, value_of-IsValue f v q, g)
