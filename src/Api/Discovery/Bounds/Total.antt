-- ===== src/Api/Discovery/Bounds/Total.antt =====
-- How often a whole pass (custom_components/zte_router_5g/api.py, `probe_names`) asks the router and logs in.
use ha_zte_router_5g_monitor.Prelude.{
  ℕ, zero, suc, ◌+◌, ◌*◌, ◌≤◌, ◌≡◌, refl, Option, none, some, List, [], ◌∷◌, String, arith,
  Bool-cases, Option-cases, inl, inr, length, length-append, ap,
}
use ha_zte_router_5g_monitor.Api.Batch.Chunks.{concat}
use ha_zte_router_5g_monitor.Api.Discovery.{
  Device, Answer, failed, refused, lost, index_error, answered, probe_chunk, relogin_limit,
  session_still_alive, relogin_once, max_rounds,
}
use ha_zte_router_5g_monitor.Api.Discovery.Singly.{
  Search, Round, new_round, settle_name, close_round, run_round, run_rounds, reprobe_singly,
  found_update,
}
use ha_zte_router_5g_monitor.Api.Discovery.Pass.{
  Progress, Ended, whole, cut, aborted, new_progress, lose_chunk, blank_chunk, settle_chunk,
  after_chunk, run_chunks, conclude, probe_names, chunks_of,
}
use ha_zte_router_5g_monitor.Api.Discovery.Silence.{concat-chunks_of}
use ha_zte_router_5g_monitor.Api.Discovery.Bounds.{
  Meter, metered, T, after_chunk-Spends, probe_chunk_spends,
}

-- A pass begins with nothing spent.
abbrev pub unspent : Meter
unspent = record { asks = 0; reads = 0; renewals = 0 }

module _ {ℓ} {S : Type ℓ} (device : Device S) (canaries : List String) where
  abbrev queued : Option Progress → ℕ
  queued none = 0
  queued (some p) = length p.retry

  lose_chunk_queues :
      (chunk : List String) (p : Progress) (s : S)
      → queued (lose_chunk device canaries chunk p s).0 ≤ length p.retry + length chunk
  unfolding lose_chunk
  lose_chunk_queues chunk p s =
      let counts = record p.counts { unreliable = p.counts.unreliable + length chunk } in
      elim (Option-cases ((relogin_once device canaries counts s).0)) [
        | inl e ↦ ground (arith, e)
        | inr (c, e) ↦ ground (arith, e, length-append p.retry chunk)
      ]

  blank_chunk_queues :
      (chunk : List String) (p : Progress) (s : S)
      → queued (blank_chunk device canaries chunk p s).0 ≤ length p.retry + length chunk
  unfolding blank_chunk
  blank_chunk_queues chunk p s =
      let checked = record p {
        counts = record p.counts {
          blank_since_check = 0;
          fallback_checks = suc p.counts.fallback_checks;
        };
      } in
      let t = (session_still_alive device canaries s).1 in
      ground (arith, lose_chunk_queues chunk checked t, length-append p.retry chunk)

  settle_chunk_queues :
      (chunk : List String) (p : Progress) (a : Answer) (s : S)
      → queued (settle_chunk device canaries chunk p a s).0 ≤ length p.retry + length chunk
  unfolding settle_chunk
  settle_chunk_queues chunk p index_error s = ground arith
  settle_chunk_queues chunk p refused s = ground (arith, length-append p.retry chunk)
  settle_chunk_queues chunk p lost s = lose_chunk_queues chunk p s
  settle_chunk_queues chunk p failed s = ground (arith, length-append p.retry chunk)
  settle_chunk_queues chunk p (answered d) s =
      ground (arith, blank_chunk_queues chunk (record p { found = found_update p.found d }) s)

  after_chunk_queues :
      (chunk : List String) (p : Progress) (s : S)
      → queued (after_chunk device canaries chunk p s).0 ≤ length p.retry + length chunk
  unfolding after_chunk
  after_chunk_queues chunk p s =
      let (a, t) = probe_chunk device canaries chunk s in settle_chunk_queues chunk p a t

module _ {ℓ} {S : Type ℓ} (device : Device S) (canaries : List String) where
  abbrev queue_of : Ended → ℕ
  queue_of (whole p) = length p.retry
  queue_of _ = 0

  run_chunks_spends :
      (chunks : List (List String)) (p : Progress) (s : T device canaries)
      → p.counts.relogins ≤ relogin_limit
      → ((run_chunks (metered device) canaries chunks p s).1.1.renewals + p.counts.relogins
          ≤ s.1.renewals + relogin_limit)
        × ((run_chunks (metered device) canaries chunks p s).1.1.asks + p.counts.relogins
            ≤ s.1.asks + relogin_limit + length chunks)
        × ((run_chunks (metered device) canaries chunks p s).1.1.reads + p.counts.relogins
            ≤ s.1.reads + relogin_limit + length chunks)
        × (queue_of (run_chunks (metered device) canaries chunks p s).0
            ≤ length p.retry + length (concat chunks))
  unfolding run_chunks
  run_chunks_spends [] p s h = (omega arith, omega arith, omega arith, omega arith)
  run_chunks_spends (chunk ∷ chunks) p s h =
      let (next, t) = after_chunk (metered device) canaries chunk p s in
      let a = after_chunk-Spends device canaries chunk p s h in
      let q = after_chunk_queues (metered device) canaries chunk p s in
      let l = length-append chunk (concat chunks) in
      elim (Bool-cases ((metered device).late s)) [
        | inl e ↦ ground (arith, e)
        | inr e ↦ elim (Option-cases next) [
          | inl n ↦ ground (arith, e, n, a)
          | inr (p', n) ↦
              ground (
                arith,
                e,
                n,
                a,
                q,
                l,
                run_chunks_spends chunks p' t (ground (arith, n, a, a.limit)),
              )
        ]
      ]

  abbrev still_of : Option Round → ℕ
  still_of none = 0
  still_of (some r) = length r.still

  settle_name_queues :
      (name : String) (r : Round) (a : Answer)
      → still_of (settle_name name r a) ≤ suc (length r.still)
  unfolding settle_name
  settle_name_queues name r index_error = ground arith
  settle_name_queues name r refused = ground arith
  settle_name_queues name r lost = ground (arith, length-append r.still (name ∷ []))
  settle_name_queues name r failed = ground (arith, length-append r.still (name ∷ []))
  settle_name_queues name r (answered []) = ground arith
  settle_name_queues name r (answered (kv ∷ d)) = ground arith

  run_round_spends :
      (names : List String) (r : Round) (s : T device canaries)
      → ((run_round (metered device) canaries names r s).1.1.renewals ≡ s.1.renewals)
        × ((run_round (metered device) canaries names r s).1.1.asks ≤ s.1.asks + length names)
        × ((run_round (metered device) canaries names r s).1.1.reads ≡ s.1.reads)
        × (still_of (run_round (metered device) canaries names r s).0
            ≤ length r.still + length names)
  unfolding run_round
  run_round_spends [] r s = (refl, omega arith, refl, omega arith)
  run_round_spends (name ∷ names) r s =
      let (a, t) = probe_chunk (metered device) canaries (name ∷ []) s in
      let p = probe_chunk_spends device canaries (name ∷ []) s in
      let q = settle_name_queues name r a in
      elim (Bool-cases ((metered device).late s)) [
        | inl e ↦ ground (arith, e)
        | inr e ↦ elim (Option-cases (settle_name name r a)) [
          | inl n ↦ ground (arith, e, n, p)
          | inr (r', n) ↦ ground (arith, e, n, p, q, run_round_spends names r' t)
        ]
      ]

  run_rounds_spends :
      (left : ℕ) (names : List String) (x : Search) (s : T device canaries) (most : ℕ)
      → length names ≤ most
      → ((run_rounds (metered device) canaries left names x s).1.1.renewals ≡ s.1.renewals)
        × ((run_rounds (metered device) canaries left names x s).1.1.asks ≤ s.1.asks + left * most)
        × ((run_rounds (metered device) canaries left names x s).1.1.reads ≡ s.1.reads)
  unfolding run_rounds
  run_rounds_spends left [] x s most h = (refl, omega arith, refl)
  run_rounds_spends zero (name ∷ names) x s most h = (refl, omega arith, refl)
  run_rounds_spends (suc left) (name ∷ names) x s most h =
      let (round, t) = run_round (metered device) canaries (name ∷ names) (new_round x) s in
      let a = run_round_spends (name ∷ names) (new_round x) s in
      elim (Option-cases round) [
        | inl n ↦ ground (arith, n, a)
        | inr (r, n) ↦ elim (Bool-cases r.out_of_budget) [
          | inl o ↦ ground (arith, n, o, a)
          | inr o ↦
              let rest =
                run_rounds_spends left r.still (close_round r) t most (ground (arith, n, a)) in
              ground (arith, n, o, a, rest)
        ]
      ]

  reprobe_spends :
      (names : List String) (s : T device canaries)
      → ((reprobe_singly (metered device) canaries names s).1.1.renewals ≡ s.1.renewals)
        × ((reprobe_singly (metered device) canaries names s).1.1.asks
            ≤ s.1.asks + max_rounds * length names)
        × ((reprobe_singly (metered device) canaries names s).1.1.reads ≡ s.1.reads)
  unfolding reprobe_singly
  reprobe_spends names s =
      let x : Search = record { found = []; refused = []; unasked = []; rounds = []; notes = [] } in
      run_rounds_spends max_rounds names x s (length names) (omega arith)

  conclude_spends :
      (e : Ended) (s : T device canaries)
      → ((conclude (metered device) canaries e s).1.1.renewals ≡ s.1.renewals)
        × ((conclude (metered device) canaries e s).1.1.asks ≤ s.1.asks + max_rounds * queue_of e)
        × ((conclude (metered device) canaries e s).1.1.reads ≡ s.1.reads)
  unfolding conclude
  conclude_spends aborted s = (refl, omega arith, refl)
  conclude_spends (cut p rest) s = (refl, omega arith, refl)
  conclude_spends (whole p) s = reprobe_spends p.retry s

  -- A pass renews the session at most three times by `_reestablish_session`, makes at most one request for
  -- each chunk, one after each of these renewals, and four for each name alone, and reads the session at
  -- most once for each chunk and each renewal, whatever the router answers and however it ends. The
  -- replays and logins that a request makes by itself are not counted.
  pub probe_names_bounds :
      (size : ℕ) (names : List String) (s : S)
      → ((probe_names (metered device) canaries size names (s, unspent)).1.1.renewals
          ≤ relogin_limit)
        × ((probe_names (metered device) canaries size names (s, unspent)).1.1.asks
            ≤ length (chunks_of size names) + relogin_limit + max_rounds * length names)
        × ((probe_names (metered device) canaries size names (s, unspent)).1.1.reads
            ≤ length (chunks_of size names) + relogin_limit)
  unfolding probe_names
  probe_names_bounds size names s =
      let start : T device canaries = (s, unspent) in
      let chunks = chunks_of size names in
      let (ended, t) = run_chunks (metered device) canaries chunks new_progress start in
      let r = run_chunks_spends chunks new_progress start (omega arith) in
      let c = conclude_spends ended t in
      let l = ap length (concat-chunks_of size names) in ground (arith, r, c, l)
