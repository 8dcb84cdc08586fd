-- ===== src/Api/Discovery/Settled.antt =====
-- What a pass (custom_components/zte_router_5g/api.py, `_reprobe_singly` and `probe_names`) leaves of each
-- name in the end.
use ha_zte_router_5g_monitor.Prelude.{
  ℕ, zero, suc, ◌≡◌, refl, Bool, true, ◌||◌, not, Option, none, some, List, [], ◌∷◌, String, arith,
  Bool-cases, Option-cases, inl, inr, length,
}
use ha_zte_router_5g_monitor.Prelude.Names.{member, member-append}
use ha_zte_router_5g_monitor.Prelude.Dict.{Dict}
use ha_zte_router_5g_monitor.Api.Discovery.{
  Device, Answer, failed, refused, lost, index_error, answered, has, probe_chunk, max_rounds,
}
use ha_zte_router_5g_monitor.Api.Discovery.Notes.{
  still_to_reprobe, is_exhaustion, is_out_of_budget, any-append,
}
use ha_zte_router_5g_monitor.Api.Discovery.Singly.{
  Search, Round, new_round, settle_name, cut_round, close_round, run_round, run_rounds,
  reprobe_singly,
}
use ha_zte_router_5g_monitor.Api.Discovery.Exchange.{
  Exchange, logged, is_plain, seen, probe_chunk_remembers, probe_chunk_hears,
}
use ha_zte_router_5g_monitor.Api.Discovery.Accounts.{has-found_update}

module _ {ℓ} {S : Type ℓ} (device : Device S) (canaries : List String) (n : String) where
  abbrev T : Type ℓ
  T = S × List Exchange

  abbrev noticed : T → Bool
  noticed s = seen device canaries n s

  -- The name has a value, or is declined or left unasked, or silent, or the budget ran out.
  abbrev pub is_settled : Search → T → Bool
  is_settled x s =
      has x.found n
      || (member n x.refused || (member n x.unasked || (noticed s || is_out_of_budget x.notes)))

  abbrev is_kept : Round → T → Bool
  is_kept r s = member n r.still || is_settled r.search s

  abbrev is_kept_of : Option Round → T → Bool
  is_kept_of none s = true
  is_kept_of (some r) s = is_kept r s

  settle_name_keeps :
      (name : String) (r : Round) (a : Answer) (s : T)
      → ((d : Dict String)
          → a ≡ answered d
          → member n (name ∷ []) ≡ true
          → has d n || noticed s ≡ true)
      → member n (name ∷ []) || is_kept r s ≡ true
      → is_kept_of (settle_name name r a) s ≡ true
  unfolding settle_name
  settle_name_keeps name r index_error s k h = refl
  settle_name_keeps name r refused s k h =
      ground (arith, member-append n r.search.refused (name ∷ []))
  settle_name_keeps name r lost s k h = ground (arith, member-append n r.still (name ∷ []))
  settle_name_keeps name r failed s k h = ground (arith, member-append n r.still (name ∷ []))
  settle_name_keeps name r (answered []) s k h = ground (arith, k [] refl)
  settle_name_keeps name r (answered (kv ∷ d)) s k h =
      ground (arith, k (kv ∷ d) refl, has-found_update r.search.found (kv ∷ d) n)

  cut_round_keeps :
      (names : List String) (r : Round) (s : T)
      → is_out_of_budget (cut_round names r).search.notes ≡ true
  cut_round_keeps names r s =
      ground (arith, any-append is_exhaustion r.search.notes (still_to_reprobe (length names) ∷ []))

  run_round_keeps :
      (names : List String) (r : Round) (s : T)
      → is_plain canaries n ≡ true
      → member n names || is_kept r s ≡ true
      → is_kept_of
          (run_round (logged device) canaries names r s).0
          (run_round (logged device) canaries names r s).1
        ≡ true
  unfolding run_round
  run_round_keeps [] r s plain h = h
  run_round_keeps (name ∷ names) r s plain h = elim (Bool-cases ((logged device).late s)) [
    | inl e ↦ ground (arith, e, cut_round_keeps (name ∷ names) r s)
    | inr e ↦
        let t = (probe_chunk (logged device) canaries (name ∷ []) s).1 in
        let a = (probe_chunk (logged device) canaries (name ∷ []) s).0 in
        let k =
          settle_name_keeps name r a t
            (λ d q m. probe_chunk_hears device canaries n (name ∷ []) s d q plain m) in
        let m = probe_chunk_remembers device canaries n (name ∷ []) s in
        elim (Option-cases (settle_name name r a)) [
          | inl q ↦ ground (arith, e, q)
          | inr (r', q) ↦
              let rest = run_round_keeps names r' t plain (ground (arith, q, k, m)) in
              ground (arith, e, q, rest)
        ]
  ]

  -- Once the budget is spent, a note says so.
  abbrev is_noted : Option Round → Bool
  is_noted none = true
  is_noted (some r) = not r.out_of_budget || is_out_of_budget r.search.notes

  settle_name_noted :
      (name : String) (r : Round) (a : Answer)
      → is_noted (some r) ≡ true
      → is_noted (settle_name name r a) ≡ true
  unfolding settle_name
  settle_name_noted name r index_error h = refl
  settle_name_noted name r refused h = h
  settle_name_noted name r lost h = h
  settle_name_noted name r failed h = h
  settle_name_noted name r (answered []) h = h
  settle_name_noted name r (answered (kv ∷ d)) h = h

  run_round_noted :
      (names : List String) (r : Round) (s : T)
      → is_noted (some r) ≡ true
      → is_noted (run_round (logged device) canaries names r s).0 ≡ true
  unfolding run_round
  run_round_noted [] r s h = h
  run_round_noted (name ∷ names) r s h =
      let (a, t) = probe_chunk (logged device) canaries (name ∷ []) s in
      let k = settle_name_noted name r a h in
      elim (Bool-cases ((logged device).late s)) [
        | inl e ↦ ground (arith, e, cut_round_keeps (name ∷ names) r s)
        | inr e ↦ elim (Option-cases (settle_name name r a)) [
          | inl q ↦ ground (arith, e, q)
          | inr (r', q) ↦ ground (arith, e, q, run_round_noted names r' t (ground (arith, q, k)))
        ]
      ]

  abbrev pub is_settled_of : Option Search → T → Bool
  is_settled_of none s = true
  is_settled_of (some x) s = is_settled x s

  run_rounds_settle :
      (left : ℕ) (names : List String) (x : Search) (s : T)
      → is_plain canaries n ≡ true
      → member n names || is_settled x s ≡ true
      → is_settled_of
          (run_rounds (logged device) canaries left names x s).0
          (run_rounds (logged device) canaries left names x s).1
        ≡ true
  unfolding run_rounds
  run_rounds_settle left [] x s plain h = h
  run_rounds_settle zero (name ∷ names) x s plain h =
      ground (arith, member-append n x.unasked (name ∷ names))
  run_rounds_settle (suc left) (name ∷ names) x s plain h =
      let (round, t) = run_round (logged device) canaries (name ∷ names) (new_round x) s in
      let k = run_round_keeps (name ∷ names) (new_round x) s plain in
      let noted = run_round_noted (name ∷ names) (new_round x) s in
      elim (Option-cases round) [
        | inl q ↦ ground (arith, q)
        | inr (r, q) ↦ elim (Bool-cases r.out_of_budget) [
          | inl e ↦ ground (arith, q, e, k, noted)
          | inr e ↦
              let rest = run_rounds_settle left r.still (close_round r) t plain in
              ground (arith, q, e, k, rest)
        ]
      ]

  pub reprobe_settles :
      (names : List String) (s : T)
      → is_plain canaries n ≡ true
      → member n names || noticed s ≡ true
      → is_settled_of
          (reprobe_singly (logged device) canaries names s).0
          (reprobe_singly (logged device) canaries names s).1
        ≡ true
  unfolding reprobe_singly
  reprobe_settles names s plain h =
      let x : Search = record { found = []; refused = []; unasked = []; rounds = []; notes = [] } in
      run_rounds_settle max_rounds names x s plain (ground arith)
