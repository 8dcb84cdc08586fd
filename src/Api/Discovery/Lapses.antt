-- ===== src/Api/Discovery/Lapses.antt =====
-- Two ways in which `probe_names` (custom_components/zte_router_5g/api.py) loses names or a whole pass.
use ha_zte_router_5g_monitor.Prelude.{
  ℕ, ◌≡◌, Bool, true, false, ◌||◌, not, Option, none, some, List, [], ◌∷◌, String, arith,
}
use ha_zte_router_5g_monitor.Prelude.Names.{member}
use ha_zte_router_5g_monitor.Api.Batch.{is_filled}
use ha_zte_router_5g_monitor.Api.Batch.Chunks.{concat}
use ha_zte_router_5g_monitor.Api.Discovery.{
  Device, failed, lost, index_error, has, judge, probe_chunk, with_canaries, reestablish_session,
  relogin_once,
}
use ha_zte_router_5g_monitor.Api.Discovery.Pass.{
  Probed, lose_chunk, settle_chunk, after_chunk, run_chunks, conclude, probe_names, chunks_of,
}
use ha_zte_router_5g_monitor.Api.Request.Client.{Fault, raised}

-- A result that says nothing of a name.
abbrev pub is_untold : String → Option Probed → Bool
is_untold n none = false
is_untold n (some r) = not (has r.found n || (member n r.unasked || member n r.refused))

module _ {ℓ} {S : Type ℓ} (device : Device S) (canaries : List String) where
  -- Where there are two chunks or more, the request for the first one fails and the budget is spent behind
  -- it, the result says nothing of the names that only the first chunk has: they are neither found, nor
  -- declined, nor reported as not asked.
  pub late_pass_forgets :
      (size : ℕ) (names chunk next : List String) (chunks : List (List String)) (s : S) (n : String)
      → chunks_of size names ≡ chunk ∷ next ∷ chunks
      → device.late s ≡ false
      → (probe_chunk device canaries chunk s).0 ≡ failed
      → device.late (probe_chunk device canaries chunk s).1 ≡ true
      → member n chunk ≡ true
      → member n (concat (next ∷ chunks)) ≡ false
      → is_untold n (probe_names device canaries size names s).0 ≡ true
  unfolding probe_names conclude run_chunks after_chunk settle_chunk
  late_pass_forgets size names chunk next chunks s n split early fails late in_chunk elsewhere =
      ground (arith, split, early, fails, late, in_chunk, elsewhere)

  probe_chunk-empty :
      (s : S) (f : Fault)
      → (device.ask (with_canaries [] canaries) s).0 ≡ raised f
      → (probe_chunk device canaries [] s).0 ≡ index_error
  unfolding probe_chunk judge
  probe_chunk-empty s f e = ground (arith, e)

  -- Where there is a canary, the first chunk shows that the session is lost, the login succeeds and the
  -- request for the canaries behind it raises, the pass raises as well: the handler logs the first name of
  -- an empty chunk.
  pub failed_check_aborts :
      (size : ℕ) (names chunk : List String) (chunks : List (List String)) (s : S) (f : Fault)
      → chunks_of size names ≡ chunk ∷ chunks
      → device.late s ≡ false
      → (probe_chunk device canaries chunk s).0 ≡ lost
      → is_filled canaries ≡ true
      → (device.renew (probe_chunk device canaries chunk s).1).0 ≡ true
      → (device.ask
          (with_canaries [] canaries)
          (device.renew (probe_chunk device canaries chunk s).1).1).0
        ≡ raised f
      → (probe_names device canaries size names s).0 ≡ none
  unfolding probe_names conclude run_chunks after_chunk settle_chunk lose_chunk relogin_once
      reestablish_session
  failed_check_aborts size names chunk chunks s f split early gone some_canary fresh fails =
      let t = (device.renew (probe_chunk device canaries chunk s).1).1 in
      ground (arith, split, early, gone, some_canary, fresh, fails, probe_chunk-empty t f)
