-- ===== src/Coordinator/Endpoints/Strikes.antt =====
-- The strike budget of one endpoint, over a run of polls.
use ha_zte_router_5g_monitor.Prelude.{
  ℕ, zero, suc, ◌+◌, String, ◌≡◌, ◌≢◌, refl, some, arith, eq_iff, leb, if◌then◌else◌,
}
use ha_zte_router_5g_monitor.Prelude.Dict.{get, get_or, put, get-put}
use ha_zte_router_5g_monitor.Coordinator.Endpoints.{
  Fetched, result, auth_error, failure, Endpoints, endpoint_available, fetch_optional,
}

module _ {ℓ} {A : Type ℓ} (source : String) (default : A) where
  -- `k` failed polls after one another.
  unfoldable pub failing : ℕ → Endpoints A → Endpoints A
  failing zero e = e
  failing (suc k) e = failing k (fetch_optional source failure default e).1

  failing_counts :
      (k : ℕ) (e : Endpoints A)
      → (get_or (failing k e).failures source 0 ≡ get_or e.failures source 0 + k)
        × ((failing k e).cache ≡ e.cache)
  unfolding failing fetch_optional
  failing_counts zero e = (omega arith, refl)
  failing_counts (suc k) e =
      let f = suc (get_or e.failures source 0) in
      let e' : Endpoints A = record e { failures = put e.failures source f } in
      let ih = failing_counts k e' in
      (ground (arith, ih.0, get-put e.failures source source f, eq_iff source source), ih.1)

  -- After a success with `a`, the next failed polls in a row answer `a` three times and then the
  -- default; the endpoint counts as available through exactly those three.
  pub holds_three_polls :
      (a : A) (k : ℕ) (e : Endpoints A)
      → let good = (fetch_optional source (result a) default e).1 in
        ((fetch_optional source failure default (failing k good)).0
          ≡ some (if leb k 2 then a else default))
        × (endpoint_available (failing (suc k) good) source ≡ leb k 2)
  unfolding fetch_optional endpoint_available
  holds_three_polls a k e =
      let good : Endpoints A = record {
        failures = put e.failures source 0;
        cache = put e.cache source a;
      } in
      let zeroed = get-put e.failures source source 0 in
      let cached = get-put e.cache source source a in
      let same = eq_iff source source in
      (
        rw ((failing_counts k good).1)
            (ground (arith, failing_counts k good, zeroed, cached, same)),
        ground (arith, failing_counts (suc k) good, zeroed, same),
      )

  -- One endpoint's outcome changes neither the strikes nor the cached payload of another.
  pub others_unchanged :
      (r : Fetched A) (e : Endpoints A) (other : String)
      → source ≢ other
      → let e' = (fetch_optional source r default e).1 in
        (get_or e'.failures other 0 ≡ get_or e.failures other 0)
        × (get e'.cache other ≡ get e.cache other)
  unfolding fetch_optional
  others_unchanged (result a) e other h = (
    ground (arith, get-put e.failures source other 0, eq_iff source other),
    ground (arith, get-put e.cache source other a, eq_iff source other),
  )
  others_unchanged auth_error e other h = (refl, refl)
  others_unchanged failure e other h = (
    ground (
      arith,
      get-put e.failures source other (suc (get_or e.failures source 0)),
      eq_iff source other,
    ),
    refl,
  )
