-- ===== src/Api/Discovery/Honest.antt =====
-- The names that `run_discovery` (custom_components/zte_router_5g/api.py) publishes as asked for and
-- unanswered.
use ha_zte_router_5g_monitor.Prelude.{
  ◌≡◌, subst, Bool, true, false, ◌&&◌, ◌||◌, not, some, List, [], ◌∷◌, ◌++◌, String, arith, inl,
  inr, keep_if, Option-cases, eq_iff,
}
use ha_zte_router_5g_monitor.Prelude.Names.{member, union, member-union, member-append}
use ha_zte_router_5g_monitor.Api.Discovery.{Device}
use ha_zte_router_5g_monitor.Api.Discovery.Notes.{is_exhaustion, is_out_of_budget, any-append}
use ha_zte_router_5g_monitor.Api.Discovery.Singly.{found_update}
use ha_zte_router_5g_monitor.Api.Discovery.Pass.{Probed, probe_names}
use ha_zte_router_5g_monitor.Api.Discovery.Report.{
  Candidates, Report, probed, is_unanswered, publish, run_discovery, discovery_chunk, mined_chunk,
}
use ha_zte_router_5g_monitor.Api.Discovery.Exchange.{Exchange, logged, is_plain, is_silent, seen}
use ha_zte_router_5g_monitor.Api.Discovery.Accounts.{has-found_update}
use ha_zte_router_5g_monitor.Api.Discovery.Silence.{is_told, is_told_of, probe_names_told}

member-keep_if :
    (p : String → Bool) (n : String) (names : List String)
    → member n (keep_if p names) ≡ (p n && member n names)
member-keep_if p n [] = ground arith
member-keep_if p n (m ∷ ms) = ground (arith, member-keep_if p n ms, eq_iff m n)

module _ {ℓ} {S : Type ℓ} (device : Device S) (canaries : List String) (n : String) where
  abbrev T : Type ℓ
  T = S × List Exchange

  -- Each pass says something of the name if it is one of its own, and then the report does.
  publish_tells :
      (c : Candidates) (a b m : Probed) (s : T)
      → is_told device canaries n a s
          || (is_told device canaries n b s || is_told device canaries n m s)
        ≡ true
      → not (member n (publish c a b m).probed_no_answer)
          || (seen device canaries n s || is_out_of_budget (publish c a b m).notes)
        ≡ true
  unfolding publish
  publish_tells c a b m s h =
      let values = found_update (found_update a.found m.found) b.found in
      let unasked = union a.unasked (union m.unasked b.unasked) in
      let declined = union b.refused (union a.refused m.refused) in
      ground (
        arith,
        member-keep_if (is_unanswered values unasked declined) n (probed c),
        has-found_update a.found m.found n,
        has-found_update (found_update a.found m.found) b.found n,
        member-union n a.unasked (union m.unasked b.unasked),
        member-union n m.unasked b.unasked,
        member-union n b.refused (union a.refused m.refused),
        member-union n a.refused m.refused,
        any-append is_exhaustion a.notes (m.notes ++ b.notes),
        any-append is_exhaustion m.notes b.notes,
      )

  publish_asks :
      (c : Candidates) (a b m : Probed)
      → member n (publish c a b m).probed_no_answer ≡ true
      → member n c.unknown || (member n c.static || member n c.refusable) ≡ true
  unfolding publish
  publish_asks c a b m h =
      let values = found_update (found_update a.found m.found) b.found in
      let unasked = union a.unasked (union m.unasked b.unasked) in
      let declined = union b.refused (union a.refused m.refused) in
      ground (
        arith,
        member-keep_if (is_unanswered values unasked declined) n (probed c),
        member-append n c.unknown (c.static ++ c.refusable),
        member-append n c.static c.refusable,
      )

  abbrev Told : Probed → T → Type 0
  Told x s = is_told device canaries n x s ≡ true

  -- What one pass has seen is seen by the passes behind it.
  chain-Told :
      (c : Candidates) (x y z : Probed) (t u v : T)
      → (member n c.static ≡ true → Told x t)
      → (member n c.refusable || seen device canaries n t ≡ true → Told y u)
      → (member n c.unknown || seen device canaries n u ≡ true → Told z v)
      → member n c.unknown || (member n c.static || member n c.refusable) ≡ true
      → is_told device canaries n x v
          || (is_told device canaries n y v || is_told device canaries n z v)
        ≡ true
  chain-Told c x y z t u v p q o h = ground arith

  -- Where no note of the report says that the budget ran out, a name that is published as unanswered, and
  -- is no canary and no field of the protocol, was asked for in a request that the router answered with a
  -- value for a canary, if there is one, and without a value for the name.
  pub unanswered_was_asked :
      (c : Candidates) (s : S) (r : Report)
      → is_plain canaries n ≡ true
      → (run_discovery (logged device) canaries c (s, [])).0 ≡ some r
      → member n r.probed_no_answer ≡ true
      → is_out_of_budget r.notes ≡ false
      → is_silent canaries n (run_discovery (logged device) canaries c (s, [])).1.1 ≡ true
  unfolding run_discovery
  unanswered_was_asked c s r plain e h b =
      let (x, t) = probe_names (logged device) canaries discovery_chunk c.static (s, []) in
      let (y, u) = probe_names (logged device) canaries 1 c.refusable t in
      let (z, v) = probe_names (logged device) canaries mined_chunk c.unknown u in
      let p = probe_names_told device canaries n discovery_chunk c.static (s, []) plain in
      let q = probe_names_told device canaries n 1 c.refusable t plain in
      let o = probe_names_told device canaries n mined_chunk c.unknown u plain in
      elim (Option-cases x) [
        | inl i ↦ ground (arith, i)
        | inr (x', i) ↦ elim (Option-cases y) [
          | inl j ↦ ground (arith, i, j)
          | inr (y', j) ↦ elim (Option-cases z) [
            | inl k ↦ ground (arith, i, j, k)
            | inr (z', k) ↦
                let h' : member n (publish c x' y' z').probed_no_answer ≡ true =
                  ground (arith, i, j, k) in
                let tells = publish_tells c x' y' z' v (
                  chain-Told c x' y' z' t u v
                    (λ m. subst (λ a. is_told_of device canaries n a t ≡ true) i (p (ground arith)))
                    (λ m. subst (λ a. is_told_of device canaries n a u ≡ true) j (q m))
                    (λ m. subst (λ a. is_told_of device canaries n a v ≡ true) k (o m))
                    (publish_asks c x' y' z' h')) in
                ground (arith, i, j, k, tells, h')
          ]
        ]
      ]
