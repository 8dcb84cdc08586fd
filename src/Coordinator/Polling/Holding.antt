-- ===== src/Coordinator/Polling/Holding.antt =====
-- What a poll of `_async_update_data_locked` (custom_components/zte_router_5g/coordinator.py) returns
-- when the router does not answer, and for how long it holds the values it has.
use ha_zte_router_5g_monitor.Prelude.{
  suc, ◌+◌, ◌≤◌, ◌<◌, ◌≡◌, ◌≢◌, ◌↔◌, refl, ap, Bool, true, false, not, some, arith, List, [], ◌∷◌,
  length, all,
}
use ha_zte_router_5g_monitor.Coordinator.Polling.{
  Pass, fetched, auth_error, credentials, timed_out, other_error, Login, State, Ending, data_is,
  reauth, is_none, fetch_twice, hold_last, fail_by, recover, finish, skips, poll, keep,
}

-- What the router's side of one poll is: the first pass, the login, the second pass.
pub record Round {ℓ} (D : Type ℓ) : Type ℓ where
  pub first : Pass D
  pub login : Login
  pub second : Pass D

module _ {ℓ} {D : Type ℓ} where
  abbrev pub is_fetched : Pass D → Bool
  is_fetched (fetched _) = true
  is_fetched _ = false

  -- How a failed poll ends when it holds nothing.
  abbrev pub given_up : Pass D → D → State D → Ending D
  given_up p empty s = (fail_by p empty s).0

  finish_holds :
      (p : Pass D) (empty d : D) (s : State D)
      → s.last_data ≡ some d
      → is_fetched p ≡ false
      → s.outage_closing ≡ false
      → s.consecutive_failures < 3
      → finish p empty s
        ≡ (data_is d, record s { consecutive_failures = suc s.consecutive_failures })
  unfolding finish recover hold_last
  finish_holds (fetched x) empty d s h f c lt = ground arith
  finish_holds auth_error empty d s h f c lt = ground arith
  finish_holds credentials empty d s h f c lt = ground arith
  finish_holds timed_out empty d s h f c lt = ground arith
  finish_holds other_error empty d s h f c lt = ground arith

  finish_gives_up :
      (p : Pass D) (empty : D) (s : State D)
      → is_fetched p ≡ false
      → s.outage_closing ≡ false
      → 3 ≤ s.consecutive_failures
      → finish p empty s
        ≡ fail_by p empty (record s { consecutive_failures = suc s.consecutive_failures })
  unfolding finish recover hold_last
  finish_gives_up (fetched x) empty s f c le = ground arith
  finish_gives_up auth_error empty s f c le = ground arith
  finish_gives_up credentials empty s f c le = ground arith
  finish_gives_up timed_out empty s f c le = ground arith
  finish_gives_up other_error empty s f c le = ground arith

  finish_closing :
      (p : Pass D) (empty d : D) (s : State D)
      → s.outage_closing ≡ true
      → s.last_data ≡ some d
      → is_fetched p ≡ false
      → finish p empty s ≡ (data_is d, s)
  unfolding finish recover hold_last
  finish_closing (fetched x) empty d s c h f = ground arith
  finish_closing auth_error empty d s c h f = ground arith
  finish_closing credentials empty d s c h f = ground arith
  finish_closing timed_out empty d s c h f = ground arith
  finish_closing other_error empty d s c h f = ground arith

  finish_asks :
      (p : Pass D) (empty : D) (s : State D) → (finish p empty s).0 ≡ reauth → p ≡ credentials
  unfolding finish recover hold_last fail_by
  finish_asks (fetched x) empty s e = ground arith
  finish_asks auth_error empty s e = ground arith
  finish_asks credentials empty s e = refl
  finish_asks timed_out empty s e = ground arith
  finish_asks other_error empty s e = ground arith

  finish_keeps_force :
      (p : Pass D) (empty : D) (s : State D) → (keep (finish p empty s)).force_once ≡ s.force_once
  unfolding keep finish recover hold_last fail_by
  finish_keeps_force (fetched x) empty s = refl
  finish_keeps_force auth_error empty s = ground arith
  finish_keeps_force credentials empty s = ground arith
  finish_keeps_force timed_out empty s = ground arith
  finish_keeps_force other_error empty s = ground arith

  fail_by_gives_up :
      (p : Pass D) (empty x : D) (s : State D)
      → is_fetched p ≡ false
      → s.paused ≡ false
      → ((fail_by p empty s).0 ≢ data_is x) × ((fail_by p empty s).0 ≡ reauth ↔ (p ≡ credentials))
  unfolding fail_by
  fail_by_gives_up (fetched y) empty x s f v = ground arith
  fail_by_gives_up auth_error empty x s f v = ground arith
  fail_by_gives_up credentials empty x s f v = ground arith
  fail_by_gives_up timed_out empty x s f v = ground arith
  fail_by_gives_up other_error empty x s f v = ground arith

  -- The state is between two polls of an entry that is neither paused nor waiting for its router.
  pub record IsLive (s : State D) (d : D) : Type ℓ where
    pub holds : s.last_data ≡ some d
    pub polling : s.paused ≡ false
    pub expected : s.outage_active ≡ false
    pub open_window : s.outage_closing ≡ false

  live_polls : (s : State D) (d : D) → IsLive s d → skips s ≡ false
  unfolding skips
  live_polls s d v = let h = v.holds in let p = v.polling in let x = v.expected in ground arith

  abbrev pub pass_of : Round D → Pass D
  pass_of r = fetch_twice r.first r.login r.second

  -- Polls in a row, each with the data that the last one returned.
  unfoldable pub polls : List (Round D) → D → State D → State D
  unfolding poll keep
  polls [] empty s = s
  polls (r ∷ rs) empty s = polls rs empty (keep (poll r.first r.login r.second empty s))

  -- Every round fails.
  abbrev pub all_fail : List (Round D) → Bool
  all_fail rs = all (λ r. not (is_fetched (pass_of r))) rs

  live_poll_holds :
      (r : Round D) (empty d : D) (s : State D)
      → IsLive s d
      → is_fetched (pass_of r) ≡ false
      → s.consecutive_failures < 3
      → keep (poll r.first r.login r.second empty s)
        ≡ record s { consecutive_failures = suc s.consecutive_failures; force_once = false }
  unfolding poll keep
  live_poll_holds r empty d s v f lt =
      let s' = record s { force_once = false } in
      let k = finish_holds (pass_of r) empty d s' v.holds f v.open_window lt in
      let z = live_polls s d v in let h = v.holds in ground arith

  IsLive-again :
      (d : D) (s : State D)
      → IsLive s d
      → IsLive
          (record s { consecutive_failures = suc s.consecutive_failures; force_once = false })
          d
  IsLive-again d s v = record {
    holds = v.holds;
    polling = v.polling;
    expected = v.expected;
    open_window = v.open_window;
  }

  -- In an entry that has data and is not paused, while no outage of the router is expected and no
  -- outage window is closing: failing polls in a row that together with the failures before them
  -- are at most three keep the data of the last poll that succeeded, and count one failure each.
  pub holds_through_three_failures :
      (rs : List (Round D)) (empty d : D) (s : State D)
      → IsLive s d
      → all_fail rs ≡ true
      → s.consecutive_failures + length rs ≤ 3
      → ((polls rs empty s).last_data ≡ some d)
        × ((polls rs empty s).consecutive_failures ≡ s.consecutive_failures + length rs)
  unfolding polls
  holds_through_three_failures [] empty d s v f le = let h = v.holds in ground arith
  holds_through_three_failures (r ∷ rs) empty d s v f le =
      let s' = record s { consecutive_failures = suc s.consecutive_failures; force_once = false } in
      let v' : IsLive s' d = IsLive-again d s v in
      let fails : is_fetched (pass_of r) ≡ false = ground arith in
      let step = live_poll_holds r empty d s v fails (omega arith) in
      let rest = holds_through_three_failures rs empty d s' v' (ground arith) (omega arith) in
      let e = ap (polls rs empty) step in ground (arith, e, rest)

  -- In an entry that has data and is not paused, while no outage of the router is expected and no
  -- outage window is closing: the failing poll after three failures in a row, or more, returns no
  -- data, and it asks for the password exactly when the password is what failed.
  pub fourth_failure_gives_up :
      (r : Round D) (empty d x : D) (s : State D)
      → IsLive s d
      → is_fetched (pass_of r) ≡ false
      → 3 ≤ s.consecutive_failures
      → ((poll r.first r.login r.second empty s).0 ≢ data_is x)
        × ((poll r.first r.login r.second empty s).0 ≡ reauth ↔ (pass_of r ≡ credentials))
  unfolding poll fail_by
  fourth_failure_gives_up r empty d x s v f le =
      let z = live_polls s d v in
      let p = v.polling in
      let g =
        finish_gives_up (pass_of r) empty (record s { force_once = false }) f v.open_window le in
      let q =
        fail_by_gives_up (pass_of r) empty x
          (record s { consecutive_failures = suc s.consecutive_failures; force_once = false }) f
          p in
      ground (arith, z, g, q)

  -- Whatever the state, a poll that asks for the password had it rejected, and was not skipped.
  pub asks_only_when_rejected :
      (r : Round D) (empty : D) (s : State D)
      → (poll r.first r.login r.second empty s).0 ≡ reauth
      → (pass_of r ≡ credentials) × (skips s ≡ false)
  unfolding poll
  asks_only_when_rejected r empty s e =
      let s' = record s { force_once = false } in
      let k = finish_asks (pass_of r) empty s' in ground (arith, k)

  -- The closing poll of an outage window that fails returns the data at hand and counts no failure,
  -- paused or not, so the window can try again.
  pub closing_poll_counts_nothing :
      (r : Round D) (empty d : D) (s : State D)
      → s.outage_closing ≡ true
      → s.last_data ≡ some d
      → is_fetched (pass_of r) ≡ false
      → poll r.first r.login r.second empty s ≡ (data_is d, record s { force_once = false })
  unfolding poll skips
  closing_poll_counts_nothing r empty d s c h f =
      let k = finish_closing (pass_of r) empty d (record s { force_once = false }) c h f in
      ground (arith, k)

  -- A paused entry that has data changes nothing on a scheduled poll.
  pub paused_poll_is_idle :
      (r : Round D) (empty d : D) (s : State D)
      → s.paused ≡ true
      → s.last_data ≡ some d
      → s.outage_closing ≡ false
      → s.force_once ≡ false
      → poll r.first r.login r.second empty s ≡ (data_is d, s)
  unfolding poll skips
  paused_poll_is_idle r empty d s p l c f = ground arith

  -- A forced poll of a paused entry reads the router, unless an outage is expected, and uses the
  -- permission up.
  pub forced_poll_reads :
      (r : Round D) (empty : D) (s : State D)
      → s.paused ≡ true
      → s.outage_closing ≡ false
      → s.force_once ≡ true
      → is_none s.last_data ≡ false
      → (skips s ≡ s.outage_active)
        × ((keep (poll r.first r.login r.second empty s)).force_once ≡ false)
  unfolding poll skips keep
  forced_poll_reads r empty s p c f n =
      let k = finish_keeps_force (pass_of r) empty (record s { force_once = false }) in
      ground (arith, k)
