-- ===== src/Api/Discovery/Accounts.antt =====
-- What the chunks of a pass (custom_components/zte_router_5g/api.py, `probe_names`) leave of each name.
use ha_zte_router_5g_monitor.Prelude.{
  suc, ◌≡◌, refl, Bool, true, ◌&&◌, ◌||◌, not, Option, none, some, List, [], ◌∷◌, String, arith,
  Bool-cases, Option-cases, inl, inr, ◌+◌, ◌⊎◌, ltb, length,
}
use ha_zte_router_5g_monitor.Prelude.Names.{member, member-append}
use ha_zte_router_5g_monitor.Prelude.Dict.{Dict, get-put, put}
use ha_zte_router_5g_monitor.Api.Batch.{is_filled}
use ha_zte_router_5g_monitor.Api.Discovery.{
  Device, Answer, failed, refused, lost, index_error, answered, has, Counters, probe_chunk,
  session_still_alive, reestablish_session, relogin_once,
}
use ha_zte_router_5g_monitor.Api.Discovery.Singly.{found_update}
use ha_zte_router_5g_monitor.Api.Discovery.Pass.{
  Progress, Ended, whole, cut, aborted, lose_chunk, blank_chunk, settle_chunk, after_chunk,
  run_chunks,
}
use ha_zte_router_5g_monitor.Api.Batch.Chunks.{concat}
use ha_zte_router_5g_monitor.Api.Discovery.Exchange.{
  Exchange, logged, is_plain, seen, probe_chunk_remembers, probe_chunk_hears,
}

has-put : (d : Dict String) (k v n : String) → has d n ≡ true → has (put d k v) n ≡ true
has-put d k v n h = ground (arith, get-put d k n v)

pub has-found_update :
    (found d : Dict String) (n : String)
    → has found n || has d n ≡ true
    → has (found_update found d) n ≡ true
unfolding found_update
has-found_update found [] n h = ground arith
has-found_update found ((k, v) ∷ d) n h =
    ground (arith, has-found_update (put found k v) d n, get-put found k n v)

pub Answer-cases :
    (a : Answer)
    → (a ≡ index_error)
      ⊎ ((a ≡ refused) ⊎ ((a ≡ lost) ⊎ ((a ≡ failed) ⊎ ((d : Dict String) × (a ≡ answered d)))))
Answer-cases index_error = inl refl
Answer-cases refused = inr (inl refl)
Answer-cases lost = inr (inr (inl refl))
Answer-cases failed = inr (inr (inr (inl refl)))
Answer-cases (answered d) = inr (inr (inr (inr (d, refl))))

module _ {ℓ} {S : Type ℓ} (device : Device S) (canaries : List String) (n : String) where
  abbrev T : Type ℓ
  T = S × List Exchange

  abbrev noticed : T → Bool
  noticed s = seen device canaries n s

  alive_remembers :
      (s : T) → noticed s ≡ true → noticed (session_still_alive (logged device) canaries s).1 ≡ true
  unfolding session_still_alive logged
  alive_remembers (s, log) h = h

  renew_remembers : (s : T) → noticed s ≡ true → noticed ((logged device).renew s).1 ≡ true
  unfolding logged
  renew_remembers (s, log) h = h

  reestablish_remembers :
      (s : T) → noticed s ≡ true → noticed (reestablish_session (logged device) canaries s).1 ≡ true
  unfolding reestablish_session
  reestablish_remembers s h =
      let t = ((logged device).renew s).1 in
      let r = renew_remembers s h in
      ground (arith, probe_chunk_remembers device canaries n [] t, alive_remembers t, r)

  relogin_remembers :
      (c : Counters) (s : T)
      → noticed s ≡ true
      → noticed (relogin_once (logged device) canaries c s).1 ≡ true
  unfolding relogin_once
  relogin_remembers c s h = ground (arith, reestablish_remembers s h)

  -- The name has a value, or is queued to be asked again, or declined, or silent.
  abbrev pub is_known : Progress → T → Bool
  is_known p s = has p.found n || (member n p.retry || (member n p.refused_early || noticed s))

  abbrev pub is_known_of : Option Progress → T → Bool
  is_known_of none s = true
  is_known_of (some p) s = is_known p s

  lose_chunk_knows :
      (chunk : List String) (p : Progress) (s : T)
      → member n chunk || is_known p s ≡ true
      → is_known_of
          (lose_chunk (logged device) canaries chunk p s).0
          (lose_chunk (logged device) canaries chunk p s).1
        ≡ true
  unfolding lose_chunk
  lose_chunk_knows chunk p s h =
      let counts = record p.counts { unreliable = p.counts.unreliable + length chunk } in
      let r = relogin_remembers counts s in
      let m = member-append n p.retry chunk in
      elim (Option-cases ((relogin_once (logged device) canaries counts s).0)) [
        | inl e ↦ ground (arith, e)
        | inr (c, e) ↦ ground (arith, e, r, m)
      ]

  blank_chunk_knows :
      (chunk : List String) (p : Progress) (s : T)
      → member n chunk || is_known p s ≡ true
      → is_known_of
          (blank_chunk (logged device) canaries chunk p s).0
          (blank_chunk (logged device) canaries chunk p s).1
        ≡ true
  unfolding blank_chunk
  blank_chunk_knows chunk p s h =
      let checked = record p {
        counts = record p.counts {
          blank_since_check = 0;
          fallback_checks = suc p.counts.fallback_checks;
        };
      } in
      let t = (session_still_alive (logged device) canaries s).1 in
      ground
        (arith, lose_chunk_knows chunk checked t, alive_remembers s, member-append n p.retry chunk)

  settle_chunk_knows :
      (chunk : List String) (p : Progress) (a : Answer) (s : T)
      → ((d : Dict String) → a ≡ answered d → member n chunk ≡ true → has d n || noticed s ≡ true)
      → member n chunk || is_known p s ≡ true
      → is_known_of
          (settle_chunk (logged device) canaries chunk p a s).0
          (settle_chunk (logged device) canaries chunk p a s).1
        ≡ true
  unfolding settle_chunk
  settle_chunk_knows chunk p index_error s k h = refl
  settle_chunk_knows chunk p refused s k h =
      ground (arith, member-append n p.retry chunk, member-append n p.refused_early chunk)
  settle_chunk_knows chunk p lost s k h = lose_chunk_knows chunk p s h
  settle_chunk_knows chunk p failed s k h = ground (arith, member-append n p.retry chunk)
  settle_chunk_knows chunk p (answered d) s k h =
      let f = has-found_update p.found d n in
      let q = k d refl in
      elim (Bool-cases (not (is_filled d) && ltb 1 (length chunk))) [
        | inl e ↦ ground (
          arith,
          e,
          blank_chunk_knows chunk (record p { found = found_update p.found d }) s,
          f,
          q,
        )
        | inr e ↦ ground (arith, e, f, q)
      ]

  after_chunk_knows :
      (chunk : List String) (p : Progress) (s : T)
      → is_plain canaries n ≡ true
      → member n chunk || is_known p s ≡ true
      → is_known_of
          (after_chunk (logged device) canaries chunk p s).0
          (after_chunk (logged device) canaries chunk p s).1
        ≡ true
  unfolding after_chunk
  after_chunk_knows chunk p s plain h =
      let t = (probe_chunk (logged device) canaries chunk s).1 in
      settle_chunk_knows chunk p (probe_chunk (logged device) canaries chunk s).0 t
        (λ d e m. probe_chunk_hears device canaries n chunk s d e plain m)
        (ground (arith, probe_chunk_remembers device canaries n chunk s))

  -- However the chunks end, but by an exception: a name cut off is among the rest.
  abbrev pub is_known_end : Ended → T → Bool
  is_known_end (whole p) s = is_known p s
  is_known_end (cut p rest) s = member n rest || is_known p s
  is_known_end aborted s = true

  pub run_chunks_knows :
      (chunks : List (List String)) (p : Progress) (s : T)
      → is_plain canaries n ≡ true
      → member n (concat chunks) || is_known p s ≡ true
      → is_known_end
          (run_chunks (logged device) canaries chunks p s).0
          (run_chunks (logged device) canaries chunks p s).1
        ≡ true
  unfolding run_chunks
  run_chunks_knows [] p s plain h = h
  run_chunks_knows (chunk ∷ chunks) p s plain h = elim (Bool-cases ((logged device).late s)) [
    | inl e ↦ ground (arith, e, h)
    | inr e ↦
        let m = member-append n chunk (concat chunks) in
        let a = after_chunk_knows chunk p s plain in
        elim (Option-cases ((after_chunk (logged device) canaries chunk p s).0)) [
          | inl q ↦ ground (arith, e, q)
          | inr (p', q) ↦
              let t = (after_chunk (logged device) canaries chunk p s).1 in
              let r = run_chunks_knows chunks p' t plain (ground (arith, q, m, a)) in
              ground (arith, e, q, r)
        ]
  ]
