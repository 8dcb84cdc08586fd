-- ===== src/Coordinator/Polling.antt =====
-- `_async_update_data_locked`, `_hold_last_values` and `async_force_refresh`
-- (custom_components/zte_router_5g/coordinator.py): one poll, with the values it holds on a failure.
-- `D` is the payload; logging, health records and what follows a success are left out.
pub mod Holding
use ha_zte_router_5g_monitor.Prelude.{
  ℕ, suc, Bool, true, false, ◌&&◌, ◌||◌, not, Option, none, some, ltb, if◌then◌else◌,
}
use ha_zte_router_5g_monitor.Coordinator.PlanUpdate.{strike_limit}

-- How one pass of `_fetch_all` ends. `credentials` is the subclass of the authentication error that
-- only a rejected password raises; `other_error` is any other exception.
pub data Pass {ℓ} (D : Type ℓ) : Type ℓ where
  fetched : D → Pass D
  auth_error credentials timed_out other_error : Pass D

-- The error that `api.login()` raises, if any.
pub data Login : Type 0 where
  logged_in session_refused refused_password login_timed_out login_failed : Login

pub record State {ℓ} (D : Type ℓ) : Type ℓ where
  pub last_data : Option D
  pub consecutive_failures : ℕ
  pub was_available : Bool
  pub force_once : Bool
  pub paused : Bool
  pub outage_active : Bool
  pub outage_closing : Bool

-- How the poll ends: with data, with `UpdateFailed`, or with `ConfigEntryAuthFailed`.
pub data Ending {ℓ} (D : Type ℓ) : Type ℓ where
  data_is : D → Ending D
  update_failed : Ending D
  reauth : Ending D

module _ {ℓ} {D : Type ℓ} where
  abbrev pub is_none : Option D → Bool
  is_none none = true
  is_none (some _) = false

  -- The inner `try`: an authentication error renews the session and fetches the whole set again.
  unfoldable pub fetch_twice : Pass D → Login → Pass D → Pass D
  fetch_twice auth_error logged_in second = second
  fetch_twice credentials logged_in second = second
  fetch_twice auth_error session_refused second = auth_error
  fetch_twice credentials session_refused second = auth_error
  fetch_twice auth_error refused_password second = credentials
  fetch_twice credentials refused_password second = credentials
  fetch_twice auth_error login_timed_out second = timed_out
  fetch_twice credentials login_timed_out second = timed_out
  fetch_twice auth_error login_failed second = other_error
  fetch_twice credentials login_failed second = other_error
  fetch_twice first login second = first

  -- `_hold_last_values`: the values to hold, if any.
  unfoldable pub hold_last : State D → Option D × State D
  hold_last s =
      let failures = suc s.consecutive_failures in
      let counted = record s { consecutive_failures = failures } in
      if s.outage_closing
      then (s.last_data, s)
      else if is_none s.last_data || ltb strike_limit failures
      then (none, counted)
      else (s.last_data, counted)

  -- What each `except` clause does where nothing is held. `empty` is `{}`.
  unfoldable pub fail_by : Pass D → D → State D → Ending D × State D
  fail_by (fetched d) empty s = (data_is d, s)
  fail_by timed_out empty s = (update_failed, record s { was_available = false })
  fail_by credentials empty s = (reauth, s)
  fail_by auth_error empty s = (update_failed, s)
  fail_by other_error empty s =
      if s.paused then (data_is empty, s) else (update_failed, record s { was_available = false })

  unfoldable pub recover : Pass D → D → State D → Ending D × State D
  unfolding fail_by hold_last
  recover p empty s =
      let (held, s') = hold_last s in
      elim held [ some d ↦ (data_is d, s') | none ↦ fail_by p empty s' ]

  unfoldable pub finish : Pass D → D → State D → Ending D × State D
  unfolding recover
  finish (fetched d) empty s =
      (data_is d, record s { consecutive_failures = 0; was_available = true })
  finish p empty s = recover p empty s

  -- The two short cuts: a paused entry, and a router that is expected to be offline.
  unfoldable pub skips : State D → Bool
  skips s =
      let first_run = is_none s.last_data in
      s.paused && not first_run && not s.force_once && not s.outage_closing
      || s.outage_active && not s.outage_closing && not first_run

  abbrev pub cached : Option D → Ending D → Ending D
  cached none e = e
  cached (some d) e = data_is d

  -- `_async_update_data_locked`: the ending and the state. The data that is returned becomes
  -- `coordinator.data`, which Home Assistant's base class does.
  unfoldable pub poll : Pass D → Login → Pass D → D → State D → Ending D × State D
  unfolding fetch_twice finish skips
  poll first login second empty s =
      let s' = record s { force_once = false } in
      if skips s
      then (cached s.last_data update_failed, s')
      else finish (fetch_twice first login second) empty s'

  -- The base class keeps the data that an update returned.
  unfoldable pub keep : Ending D × State D → State D
  keep (data_is d, s) = record s { last_data = some d }
  keep (update_failed, s) = s
  keep (reauth, s) = s
