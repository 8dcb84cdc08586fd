-- ===== src/Observations/Chains.antt =====
-- The change history (custom_components/zte_router_5g/observations.py) is a chain of real changes, and
-- what is remembered of a router is kept.
use ha_zte_router_5g_monitor.Prelude.{
  ℕ, zero, suc, ◌-◌, ◌≤◌, ◌≡◌, refl, Bool, true, false, ◌&&◌, not, Option, List, [], ◌∷◌, ◌++◌,
  length, drop, arith, String, str_eq, eq_iff, Bool-cases, inl, inr,
}
use ha_zte_router_5g_monitor.Prelude.Int.{ℤ}
use ha_zte_router_5g_monitor.Observations.{Transition, newest, last_value, is_text, noted}

-- Each entry says where it came from: the value of the entry before it, which is another value.
unfoldable pub chained : List Transition → Bool
chained [] = true
chained (a ∷ []) = true
chained (a ∷ b ∷ es) =
    let rest = chained (b ∷ es) in
    is_text b.previous a.current && not (str_eq a.current b.current) && rest

chained-drop : (n : ℕ) (es : List Transition) → chained es ≡ true → chained (drop n es) ≡ true
unfolding chained
chained-drop zero es h = h
chained-drop (suc n) [] h = refl
chained-drop (suc n) (a ∷ []) h = chained-drop n [] refl
chained-drop (suc n) (a ∷ b ∷ es) h = chained-drop n (b ∷ es) (ground arith)

chained-snoc :
    (es : List Transition) (e : Transition)
    → chained es ≡ true
    → e.previous ≡ last_value es
    → is_text (last_value es) e.current ≡ false
    → chained (es ++ e ∷ []) ≡ true
unfolding chained
chained-snoc [] e h p n = refl
chained-snoc (a ∷ []) e h p n = ground (arith, eq_iff a.current a.current)
chained-snoc (a ∷ b ∷ es) e h p n = ground (arith, chained-snoc (b ∷ es) e (ground arith) p n)

length-drop {ℓ} : {A : Type ℓ} (n : ℕ) (xs : List A) → length (drop n xs) ≡ length xs - n
length-drop zero xs = omega arith
length-drop (suc n) [] = omega arith
length-drop (suc n) (x ∷ xs) = omega (arith, length-drop n xs)

length-newest_le {ℓ} : {A : Type ℓ} (n : ℕ) (xs : List A) → length (newest n xs) ≤ n
unfolding newest
length-newest_le n xs = omega (arith, length-drop (length xs - n) xs)

chained-newest : (n : ℕ) (es : List Transition) → chained es ≡ true → chained (newest n es) ≡ true
unfolding newest
chained-newest n es h = chained-drop (length es - n) es h

-- A reading keeps a history a chain of at most twenty changes.
pub noted_keeps :
    (now : String) (uptime : Option ℤ) (current : String) (es : List Transition)
    → chained es ≡ true
    → length es ≤ 20
    → (chained (noted now uptime current es).0 ≡ true)
      × (length (noted now uptime current es).0 ≤ 20)
unfolding noted
noted_keeps now uptime current es h le =
    let e : Transition = record {
      timestamp = now;
      previous = last_value es;
      current = current;
      uptime = uptime;
    } in
    elim (Bool-cases (is_text (last_value es) current)) [
      | inl same ↦ ground arith
      | inr new ↦
          let l = length-newest_le 20 (es ++ e ∷ []) in
          let c : chained (newest 20 (es ++ e ∷ [])) ≡ true =
            chained-newest 20 (es ++ e ∷ []) (chained-snoc es e h refl new) in
          ground (arith, l, c)
    ]
