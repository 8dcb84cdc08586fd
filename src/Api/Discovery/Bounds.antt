-- ===== src/Api/Discovery/Bounds.antt =====
-- How often a chunk of a pass (custom_components/zte_router_5g/api.py, `probe_names`) asks the router and logs
-- in; `Total` sums it up.
pub mod Total
use ha_zte_router_5g_monitor.Prelude.{
  ℕ, zero, suc, ◌+◌, ◌*◌, ◌≤◌, ◌≡◌, refl, Bool, true, false, ◌&&◌, not, Option, none, some, List,
  [], ◌∷◌, ◌++◌, String, arith, Bool-cases, Option-cases, inl, inr, length, length-append, ltb, leb,
  ap,
}
use ha_zte_router_5g_monitor.Api.Batch.{is_filled}
use ha_zte_router_5g_monitor.Api.Batch.Chunks.{concat}
use ha_zte_router_5g_monitor.Api.Discovery.{
  Device, Answer, failed, refused, lost, index_error, answered, Counters, probe_chunk,
  relogin_limit, fallback_every, session_still_alive, reestablish_session, relogin_once, max_rounds,
}
use ha_zte_router_5g_monitor.Api.Discovery.Singly.{
  Search, Round, new_round, settle_name, close_round, run_round, run_rounds, reprobe_singly,
  found_update,
}
use ha_zte_router_5g_monitor.Api.Discovery.Pass.{
  Progress, Ended, whole, cut, aborted, Probed, new_progress, lose_chunk, blank_chunk, settle_chunk,
  after_chunk, run_chunks, conclude, probe_names, chunks_of,
}

-- How often the device was asked for names, how often the session was read by `_session_still_alive`, and
-- how often it was renewed by `_reestablish_session`.
pub record Meter : Type 0 where
  pub asks : ℕ
  pub reads : ℕ
  pub renewals : ℕ

unfoldable pub metered {ℓ} : {S : Type ℓ} → Device S → Device (S × Meter)
metered device = record {
  ask =
      λ names (s, m). let (o, s') = device.ask names s in (o, (s', record m { asks = suc m.asks }));
  read_first = λ (s, m).
      let (batch, s') = device.read_first s in (batch, (s', record m { reads = suc m.reads }));
  renew = λ (s, m).
      let (done, s') = device.renew s in (done, (s', record m { renewals = suc m.renewals }));
  late = λ (s, m). device.late s;
}

module _ {ℓ} {S : Type ℓ} (device : Device S) (canaries : List String) where
  abbrev pub T : Type ℓ
  T = S × Meter

  probe_chunk_spends :
      (chunk : List String) (s : T)
      → ((probe_chunk (metered device) canaries chunk s).1.1.asks ≡ suc s.1.asks)
        × ((probe_chunk (metered device) canaries chunk s).1.1.renewals ≡ s.1.renewals)
        × ((probe_chunk (metered device) canaries chunk s).1.1.reads ≡ s.1.reads)
  unfolding probe_chunk metered
  probe_chunk_spends chunk (s, m) = (refl, refl, refl)

  -- A step from `s` to `t` that takes the counted renewals from `c` to `d`, within the limit: it renews the
  -- session as often, asks once for each renewal and `extra` times beside, and reads the session once for
  -- each renewal and `more` times beside.
  pub record Spends (extra more c d : ℕ) (s t : T) : Type 0 where
    pub renewals : t.1.renewals + c ≤ s.1.renewals + d
    pub asks : t.1.asks + c ≤ s.1.asks + d + extra
    pub reads : t.1.reads + c ≤ s.1.reads + d + more
    pub grows : c ≤ d
    pub limit : c ≤ relogin_limit → d ≤ relogin_limit

  alive_spends :
      (s : T)
      → ((session_still_alive (metered device) canaries s).1.1.asks ≡ s.1.asks)
        × ((session_still_alive (metered device) canaries s).1.1.renewals ≡ s.1.renewals)
        × ((session_still_alive (metered device) canaries s).1.1.reads ≡ suc s.1.reads)
  unfolding session_still_alive metered
  alive_spends (s, m) = (refl, refl, refl)

  renew_spends :
      (s : T)
      → (((metered device).renew s).1.1.asks ≡ s.1.asks)
        × (((metered device).renew s).1.1.renewals ≡ suc s.1.renewals)
        × (((metered device).renew s).1.1.reads ≡ s.1.reads)
  unfolding metered
  renew_spends (s, m) = (refl, refl, refl)

  reestablish_spends :
      (s : T)
      → ((reestablish_session (metered device) canaries s).1.1.asks ≤ suc s.1.asks)
        × ((reestablish_session (metered device) canaries s).1.1.renewals ≡ suc s.1.renewals)
        × ((reestablish_session (metered device) canaries s).1.1.reads ≤ suc s.1.reads)
  unfolding reestablish_session
  reestablish_spends s =
      let t = ((metered device).renew s).1 in
      let r = renew_spends s in
      let p = probe_chunk_spends [] t in let a = alive_spends t in ground (arith, r, p, a)

  abbrev logins_of : Option Counters → ℕ
  logins_of none = relogin_limit
  logins_of (some c) = c.relogins

  relogin-Spends :
      (c : Counters) (s : T)
      → Spends 0 0 c.relogins
          (logins_of (relogin_once (metered device) canaries c s).0)
          s
          (relogin_once (metered device) canaries c s).1
  unfolding relogin_once
  relogin-Spends c s =
      let r = reestablish_spends s in
      let (result, t) = reestablish_session (metered device) canaries s in
      elim (Bool-cases (leb relogin_limit c.relogins)) [
        | inl h ↦ ground (arith, h)
        | inr h ↦ elim (Option-cases result) [
          | inl e ↦ ground (arith, h, r, e)
          | inr (true, e) ↦ ground (arith, h, r, e)
          | inr (false, e) ↦ ground (arith, h, r, e)
        ]
      ]

  abbrev pub progress_logins : Option Progress → ℕ
  progress_logins none = relogin_limit
  progress_logins (some p) = p.counts.relogins

  lose_chunk-Spends :
      (chunk : List String) (p : Progress) (s : T)
      → Spends 0 0 p.counts.relogins
          (progress_logins (lose_chunk (metered device) canaries chunk p s).0)
          s
          (lose_chunk (metered device) canaries chunk p s).1
  unfolding lose_chunk
  lose_chunk-Spends chunk p s =
      let counts = record p.counts { unreliable = p.counts.unreliable + length chunk } in
      let r = relogin-Spends counts s in
      elim (Option-cases ((relogin_once (metered device) canaries counts s).0)) [
        | inl e ↦ ground (arith, e, r)
        | inr (c, e) ↦ ground (arith, e, r)
      ]

  blank_chunk-Spends :
      (chunk : List String) (p : Progress) (s : T)
      → Spends 0 1 p.counts.relogins
          (progress_logins (blank_chunk (metered device) canaries chunk p s).0)
          s
          (blank_chunk (metered device) canaries chunk p s).1
  unfolding blank_chunk
  blank_chunk-Spends chunk p s =
      let checked = record p {
        counts = record p.counts {
          blank_since_check = 0;
          fallback_checks = suc p.counts.fallback_checks;
        };
      } in
      let t = (session_still_alive (metered device) canaries s).1 in
      ground (arith, lose_chunk-Spends chunk checked t, alive_spends s)

  settle_chunk-Spends :
      (chunk : List String) (p : Progress) (a : Answer) (s : T)
      → p.counts.relogins ≤ relogin_limit
      → Spends 0 1 p.counts.relogins
          (progress_logins (settle_chunk (metered device) canaries chunk p a s).0)
          s
          (settle_chunk (metered device) canaries chunk p a s).1
  unfolding settle_chunk
  settle_chunk-Spends chunk p index_error s h = ground arith
  settle_chunk-Spends chunk p refused s h = ground arith
  settle_chunk-Spends chunk p lost s h = let l = lose_chunk-Spends chunk p s in ground (arith, l)
  settle_chunk-Spends chunk p failed s h = ground arith
  settle_chunk-Spends chunk p (answered d) s h =
      ground (arith, blank_chunk-Spends chunk (record p { found = found_update p.found d }) s)

  pub after_chunk-Spends :
      (chunk : List String) (p : Progress) (s : T)
      → p.counts.relogins ≤ relogin_limit
      → Spends 1 1 p.counts.relogins
          (progress_logins (after_chunk (metered device) canaries chunk p s).0)
          s
          (after_chunk (metered device) canaries chunk p s).1
  unfolding after_chunk
  after_chunk-Spends chunk p s h =
      let (a, t) = probe_chunk (metered device) canaries chunk s in
      ground (arith, probe_chunk_spends chunk s, settle_chunk-Spends chunk p a t)
