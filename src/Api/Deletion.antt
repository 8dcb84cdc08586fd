-- ===== src/Api/Deletion.antt =====
-- `verify_deleted` (custom_components/zte_router_5g/api.py): the messages are listed again until none of
-- those asked to be deleted is there, or a window closes. The records of the attempts are left out.
use ha_zte_router_5g_monitor.Prelude.{
  ℕ, zero, suc, ◌+◌, ◌*◌, ◌≤◌, ◌<◌, ◌≡◌, ◌≢◌, sym, subst, Bool, true, false, Option, none, some,
  List, [], ◌∷◌, String, keep_if, leb, if◌then◌else◌, arith, Option-cases, Bool-cases, inl, inr,
  ◌==◌, refl, eq_iff,
}
use ha_zte_router_5g_monitor.Prelude.Names.{member}

-- `SMS_DELETE_VERIFY_SECONDS` and `SMS_DELETE_VERIFY_INTERVAL`, in milliseconds.
abbrev pub verify_window : ℕ
verify_window = 15000

abbrev pub verify_interval : ℕ
verify_interval = 1000

-- The router: the ids in its n-th listing, `none` where the listing fails, and the milliseconds from
-- the start to its end.
pub record Listings : Type 0 where
  pub listed : ℕ → Option (List String)
  pub elapsed : ℕ → ℕ

-- How the check ends: by which listing nothing is left, or what is left when the window closes, or
-- with the error of a listing.
pub data Verified : Type 0 where
  deleted : ℕ → Verified
  kept : ℕ → List String → Verified
  unlisted : Verified
  out_of_fuel : Verified

abbrev pub surviving : List String → List String → List String
surviving wanted listed = keep_if (λ id. member id wanted) listed

abbrev pub is_empty : List String → Bool
is_empty [] = true
is_empty (_ ∷ _) = false

-- The loop, from the n-th listing on.
unfoldable pub verify_from : ℕ → Listings → List String → ℕ → Verified
verify_from zero l wanted n = out_of_fuel
verify_from (suc fuel) l wanted n =
    let rest = verify_from fuel l wanted (suc n) in
    elim (l.listed n) [
      | none ↦ unlisted
      | some ids ↦
          let left = surviving wanted ids in
          if is_empty left
          then deleted n
          else if leb verify_window (l.elapsed n)
          then kept n left
          else rest
    ]

-- `verify_deleted`; a listing a second fills the window with sixteen.
unfoldable pub verify_deleted : Listings → List String → Verified
verify_deleted l ids = verify_from 16 l ids 0

-- The pause between two listings is kept: the n-th one ends n seconds after the start, or later.
abbrev pub IsPaced : Listings → Type 0
IsPaced l = (n : ℕ) → verify_interval * n ≤ l.elapsed n

verify_from_total :
    (fuel : ℕ) (l : Listings) (wanted : List String) (n : ℕ)
    → IsPaced l
    → 15 < fuel + n
    → n ≤ 15
    → verify_from fuel l wanted n ≢ out_of_fuel
unfolding verify_from
verify_from_total zero l wanted n p f b = ground arith
verify_from_total (suc fuel) l wanted n p f b =
    let paced = p n in
    let rest = verify_from_total fuel l wanted (suc n) p (omega arith) in
    elim (Option-cases (l.listed n)) [
      | inl h ↦ ground (arith, h)
      | inr (ids, h) ↦ ground (arith, h, paced, rest)
    ]

-- The check of a deletion ends: with a pause of a second between two listings, after sixteen at most.
pub verify_deleted_total :
    (l : Listings) (ids : List String) → IsPaced l → verify_deleted l ids ≢ out_of_fuel
unfolding verify_deleted
verify_deleted_total l ids p = verify_from_total 16 l ids 0 p (omega arith) (omega arith)

-- A listing that succeeded, and that has none of the ids.
abbrev pub is_listed : Option (List String) → Bool
is_listed none = false
is_listed (some ids) = true

abbrev pub gone_from : List String → Option (List String) → Bool
gone_from wanted none = false
gone_from wanted (some ids) = is_empty (surviving wanted ids)

verify_from_judges :
    (fuel : ℕ) (l : Listings) (wanted : List String) (n k : ℕ)
    → verify_from fuel l wanted n ≡ deleted k
    → gone_from wanted (l.listed k) ≡ true
unfolding verify_from
verify_from_judges zero l wanted n k e = ground arith
verify_from_judges (suc fuel) l wanted n k e =
    let rest = verify_from_judges fuel l wanted (suc n) k in
    elim (Option-cases (l.listed n)) [
      | inl h ↦ ground (arith, h)
      | inr (ids, h) ↦ elim (Bool-cases (is_empty (surviving wanted ids))) [
        | inl y ↦
            let q : n ≡ k = ground (arith, h) in
            subst (λ m. gone_from wanted (l.listed m) ≡ true) q (ground (arith, h))
        | inr y ↦ ground (arith, h, rest)
      ]
    ]

surviving-member :
    (wanted listed : List String) (id : String)
    → is_empty (surviving wanted listed) ≡ true
    → member id wanted ≡ true
    → member id listed ≡ false
surviving-member wanted [] id h m = refl
surviving-member wanted (x ∷ listed) id h m =
    ground (arith, surviving-member wanted listed id, eq_iff x id)

-- A deletion is reported as done only where a listing succeeded that has none of the messages asked to be
-- deleted.
pub deleted_means_gone :
    (l : Listings) (ids : List String) (k : ℕ) (id : String)
    → verify_deleted l ids ≡ deleted k
    → member id ids ≡ true
    → (listed : List String) × (l.listed k ≡ some listed) × (member id listed ≡ false)
unfolding verify_deleted
deleted_means_gone l ids k id e m =
    let gone = verify_from_judges 16 l ids 0 k e in
    elim (Option-cases (l.listed k)) [
      | inl h ↦ ground (arith, h, gone)
      | inr (listed, h) ↦ (listed, h, surviving-member ids listed id (ground (arith, h, gone)) m)
    ]

gone_from_in_time :
    (fuel : ℕ) (l : Listings) (wanted : List String) (n k : ℕ)
    → ((j : ℕ) → j ≤ k → is_listed (l.listed j) ≡ true)
    → ((j : ℕ) → j < k → l.elapsed j < verify_window)
    → gone_from wanted (l.listed k) ≡ true
    → n ≤ k
    → k < n + fuel
    → (j : ℕ) × (j ≤ k) × (verify_from fuel l wanted n ≡ deleted j)
unfolding verify_from
gone_from_in_time zero l wanted n k listed early gone le lt = ground arith
gone_from_in_time (suc fuel) l wanted n k listed early gone le lt =
    let here = listed n le in
    let soon = early n in
    elim (Option-cases (l.listed n)) [
      | inl h ↦ ground (arith, h, here)
      | inr (ids, h) ↦ elim (Bool-cases (is_empty (surviving wanted ids))) [
        | inl y ↦ (n, le, ground (arith, h))
        | inr y ↦ elim (Bool-cases (n == k)) [
          | inl e ↦
              let q : n ≡ k = ground arith in
              let g : gone_from wanted (l.listed n) ≡ true =
                subst (λ m. gone_from wanted (l.listed m) ≡ true) (sym q) gone in
              ground (arith, h, g)
          | inr e ↦
              let (j, b, r) =
                gone_from_in_time fuel l wanted (suc n) k listed early gone (ground arith)
                  (omega arith) in
              (j, b, ground (arith, h, r, soon))
        ]
      ]
    ]

-- A slow router is not reported as a failure: where the ids are gone by a listing within the window, and
-- no listing fails, the deletion is reported as done, by that listing or an earlier one.
pub gone_in_time_is_deleted :
    (l : Listings) (ids : List String) (k : ℕ)
    → k ≤ 15
    → ((j : ℕ) → j ≤ k → is_listed (l.listed j) ≡ true)
    → ((j : ℕ) → j < k → l.elapsed j < verify_window)
    → gone_from ids (l.listed k) ≡ true
    → (j : ℕ) × (j ≤ k) × (verify_deleted l ids ≡ deleted j)
unfolding verify_deleted
gone_in_time_is_deleted l ids k b listed early gone =
    gone_from_in_time 16 l ids 0 k listed early gone (omega arith) (omega arith)
