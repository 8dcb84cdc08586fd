-- ===== src/Coordinator/Endpoints.antt =====
-- `endpoint_available` and `_fetch_optional` (custom_components/zte_router_5g/coordinator.py): an
-- optional endpoint under its own strike budget. Logging is left out.
pub mod Strikes
use ha_zte_router_5g_monitor.Prelude.{
  ℕ, suc, String, Bool, ◌&&◌, Option, none, some, ltb, leb, if◌then◌else◌,
}
use ha_zte_router_5g_monitor.Prelude.Dict.{Dict, get, get_or, put}
use ha_zte_router_5g_monitor.Coordinator.PlanUpdate.{strike_limit}

-- What the endpoint's coroutine came to: a result, a `ZTEAuthError`, or any other exception.
pub data Fetched {ℓ} (A : Type ℓ) : Type ℓ where
  result : A → Fetched A
  auth_error : Fetched A
  failure : Fetched A

-- `_endpoint_failures` and `_endpoint_cache`.
pub record Endpoints {ℓ} (A : Type ℓ) : Type ℓ where
  pub failures : Dict ℕ
  pub cache : Dict A

module _ {ℓ} {A : Type ℓ} where
  -- `endpoint_available`.
  unfoldable pub endpoint_available : Endpoints A → String → Bool
  endpoint_available e source = leb (get_or e.failures source 0) strike_limit

  -- The cached payload within the budget, or the default.
  abbrev pub held : Bool → Option A → A → A
  held within none default = default
  held within (some a) default = if within then a else default

  -- `_fetch_optional`; `none` is the `ZTEAuthError` that is raised on.
  unfoldable pub fetch_optional : String → Fetched A → A → Endpoints A → Option A × Endpoints A
  fetch_optional source auth_error default e = (none, e)
  fetch_optional source failure default e =
      let failures = suc (get_or e.failures source 0) in
      (
        some (held (leb failures strike_limit) (get e.cache source) default),
        record e { failures = put e.failures source failures },
      )
  fetch_optional source (result a) default e =
      (some a, record { failures = put e.failures source 0; cache = put e.cache source a })
