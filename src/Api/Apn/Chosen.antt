-- ===== src/Api/Apn/Chosen.antt =====
-- Which stored profile `_resolve_apn_profile` (custom_components/zte_router_5g/api.py) selects.
use ha_zte_router_5g_monitor.Prelude.{
  ℕ, ◌<◌, ◌==◌, ltb, any, all, ◌≡◌, refl, subst, Bool, true, false, ◌&&◌, ◌||◌, ◌⊎◌, inl, inr, not,
  Option, none, some, List, [], ◌∷◌, String, str_eq, arith, Bool-cases, Option-cases,
}
use ha_zte_router_5g_monitor.Prelude.Dict.{Dict, get, get-put}
use ha_zte_router_5g_monitor.Value.{Payload, strip}
use ha_zte_router_5g_monitor.Api.Apn.{
  Selection, Stored, stored_at, slots, add_index, add_profile, by_index, profiles, text_of,
  manual_selection, active_selection, resolve_apn_profile,
}

listed_slot : (slot : ℕ) → slot < 10 → any (λ m. m == slot) slots ≡ true
listed_slot slot lt = ground arith

module _ (fold : String → String) where
  -- A selection of a profile stored in a slot, which the test accepts.
  abbrev pub IsStored : Payload → (Stored → Bool) → Selection → Type 0
  IsStored current test selection =
      (slot : ℕ) × (p : Stored) × (slot < 10)
      × (stored_at current slot ≡ some p)
      × (p.selection ≡ selection)
      × (test p ≡ true)

  abbrev pub has_apn : String → Stored → Bool
  has_apn active p = not (str_eq p.apn "") && str_eq (fold p.apn) active

  abbrev pub has_index : String → Stored → Bool
  has_index index p = str_eq p.selection.0 index

  profiles-IsStored :
      (current : Payload) (rest : List ℕ) (d : Dict Selection) (k : String) (v : Selection)
      → all (λ slot. ltb slot 10) rest ≡ true
      → get (profiles fold current rest d) k ≡ some v
      → (get d k ≡ some v) ⊎ IsStored current (has_apn k) v
  unfolding profiles add_profile
  profiles-IsStored current [] d k v few h = inl h
  profiles-IsStored current (slot ∷ rest) d k v few h =
      elim (profiles-IsStored current rest (add_profile fold (stored_at current slot) d) k v
        (ground arith) h) [
          | inr found ↦ inr found
          | inl before ↦ elim (Option-cases (stored_at current slot)) [
            | inl e ↦ inl (ground (arith, e, before))
            | inr (p, e) ↦ elim (Bool-cases (has_apn k p)) [
              | inl t ↦ inr (
                slot,
                p,
                ground (arith, few),
                e,
                ground (arith, before, e, t, get-put d (fold p.apn) k p.selection),
                t,
              )
              | inr t ↦ inl (ground (arith, before, e, t, get-put d (fold p.apn) k p.selection))
            ]
          ]
        ]

  by_index-IsStored :
      (current : Payload) (rest : List ℕ) (d : Dict Selection) (k : String) (v : Selection)
      → all (λ slot. ltb slot 10) rest ≡ true
      → get (by_index fold current rest d) k ≡ some v
      → (get d k ≡ some v) ⊎ IsStored current (has_index k) v
  unfolding by_index add_index
  by_index-IsStored current [] d k v few h = inl h
  by_index-IsStored current (slot ∷ rest) d k v few h =
      elim (by_index-IsStored current rest (add_index fold (stored_at current slot) d) k v
        (ground arith) h) [
          | inr found ↦ inr found
          | inl before ↦ elim (Option-cases (stored_at current slot)) [
            | inl e ↦ inl (ground (arith, e, before))
            | inr (p, e) ↦ elim (Bool-cases (has_index k p)) [
              | inl t ↦ inr (
                slot,
                p,
                ground (arith, few),
                e,
                ground (arith, before, e, t, get-put d p.selection.0 k p.selection),
                t,
              )
              | inr t ↦ inl (ground (arith, before, e, t, get-put d p.selection.0 k p.selection))
            ]
          ]
        ]

  active_selection-IsStored :
      (current : Payload) (v : Selection)
      → active_selection fold current ≡ some v
      → IsStored current (has_apn (fold (text_of fold current "wan_apn"))) v
  unfolding active_selection
  active_selection-IsStored current v h =
      let active = fold (text_of fold current "wan_apn") in
      let found : get (profiles fold current slots []) active ≡ some v = ground (arith, h) in
      elim (profiles-IsStored current slots [] active v refl found) [
        | inl none_yet ↦ absurd (ground (arith, none_yet))
        | inr stored ↦ stored
      ]

  manual_selection-IsStored :
      (current : Payload) (v : Selection)
      → manual_selection fold current ≡ some v
      → (str_eq (fold (text_of fold current "apn_mode")) "manual" ≡ true)
        × IsStored current (has_index (strip (text_of fold current "apn_index"))) v
  unfolding manual_selection
  manual_selection-IsStored current v h =
      let index = strip (text_of fold current "apn_index") in
      let found : get (by_index fold current slots []) index ≡ some v = ground (arith, h) in
      (
        ground (arith, h),
        elim (by_index-IsStored current slots [] index v refl found) [
          | inl none_yet ↦ absurd (ground (arith, none_yet))
          | inr stored ↦ stored
        ],
      )

  abbrev is_known : Option Selection → Bool
  is_known none = false
  is_known (some v) = true

  profiles_keeps :
      (current : Payload) (rest : List ℕ) (d : Dict Selection) (k : String)
      → is_known (get d k) ≡ true
      → is_known (get (profiles fold current rest d) k) ≡ true
  unfolding profiles add_profile
  profiles_keeps current [] d k h = h
  profiles_keeps current (slot ∷ rest) d k h =
      profiles_keeps current rest (add_profile fold (stored_at current slot) d) k
        (elim (Option-cases (stored_at current slot)) [
          | inl e ↦ ground (arith, e, h)
          | inr (p, e) ↦ ground (arith, e, h, get-put d (fold p.apn) k p.selection)
        ])

  -- A profile stored in the slot, if there is one, that the test accepts.
  abbrev pub stores : Payload → ℕ → (Stored → Bool) → Bool
  stores current slot test = elim (stored_at current slot) [ none ↦ false | some p ↦ test p ]

  adds :
      (o : Option Stored) (d : Dict Selection) (k : String)
      → elim o [ none ↦ false | some p ↦ has_apn k p ] ≡ true
      → is_known (get (add_profile fold o d) k) ≡ true
  unfolding add_profile
  adds none d k h = ground arith
  adds (some p) d k h = ground (arith, get-put d (fold p.apn) k p.selection)

  profiles_finds :
      (current : Payload) (rest : List ℕ) (d : Dict Selection) (k : String) (slot : ℕ)
      → any (λ m. m == slot) rest ≡ true
      → stores current slot (has_apn k) ≡ true
      → is_known (get (profiles fold current rest d) k) ≡ true
  unfolding profiles
  profiles_finds current [] d k slot m h = ground arith
  profiles_finds current (first ∷ rest) d k slot m h = elim (Bool-cases (first == slot)) [
    | inr n ↦
        profiles_finds current rest (add_profile fold (stored_at current first) d) k slot
          (ground (arith, n, m)) h
    | inl y ↦
        let q : slot ≡ first = ground (arith, y) in
        let here = subst (λ i. stores current i (has_apn k) ≡ true) q h in
        profiles_keeps current rest (add_profile fold (stored_at current first) d) k
          (adds (stored_at current first) d k here)
  ]

  unmatched :
      (current : Payload) (slot : ℕ)
      → slot < 10
      → active_selection fold current ≡ none
      → str_eq (fold (text_of fold current "wan_apn")) ""
          || not (stores current slot (has_apn (fold (text_of fold current "wan_apn"))))
        ≡ true
  unfolding active_selection
  unmatched current slot lt e =
      let active = fold (text_of fold current "wan_apn") in
      elim (Bool-cases (stores current slot (has_apn active))) [
        | inr n ↦ ground (arith, n)
        | inl y ↦
            let f = profiles_finds current slots [] active slot (listed_slot slot lt) y in
            ground (arith, e, f)
      ]

  -- The profile that a switch selects is never a guess: it is stored in one of the ten slots, and either
  -- its APN is the one that carries the traffic, or no APN carries traffic or none of the ten slots
  -- stores it, the mode is manual already and it is the slot chosen.
  pub resolve_apn_profile_lem :
      (current : Payload) (v : Selection) (slot : ℕ)
      → resolve_apn_profile fold current ≡ some v
      → slot < 10
      → IsStored current (has_apn (fold (text_of fold current "wan_apn"))) v
        ⊎ ((str_eq (fold (text_of fold current "wan_apn")) ""
                || not (stores current slot (has_apn (fold (text_of fold current "wan_apn"))))
              ≡ true)
            × (str_eq (fold (text_of fold current "apn_mode")) "manual" ≡ true)
            × IsStored current (has_index (strip (text_of fold current "apn_index"))) v)
  unfolding resolve_apn_profile
  resolve_apn_profile_lem current v slot h lt =
      elim (Option-cases (active_selection fold current)) [
        | inl e ↦
            let (m, stored) = manual_selection-IsStored current v (ground (arith, h, e)) in
            inr (unmatched current slot lt e, m, stored)
        | inr (w, e) ↦ inl (active_selection-IsStored current v (ground (arith, h, e)))
      ]
