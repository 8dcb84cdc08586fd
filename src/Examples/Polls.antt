-- ===== src/Examples/Polls.antt =====
-- Polls, outage windows and optional endpoints, at concrete inputs.
use ha_zte_router_5g_monitor.Prelude.{
  ℕ, ◌+◌, ◌≡◌, ◌≢◌, ◌↔◌, refl, true, false, some, [], ◌∷◌, all, arith,
}
use ha_zte_router_5g_monitor.Coordinator.Polling.{
  auth_error, timed_out, credentials, refused_password, logged_in, State, data_is, reauth, poll,
  fetch_twice,
}
use ha_zte_router_5g_monitor.Coordinator.Polling.Holding.{
  Round, IsLive, is_fetched, all_fail, pass_of, polls, holds_through_three_failures,
  fourth_failure_gives_up,
}
use ha_zte_router_5g_monitor.Coordinator.Endpoints.{
  Endpoints, fetch_optional, endpoint_available, result, failure,
}
use ha_zte_router_5g_monitor.Coordinator.Endpoints.Strikes.{failing, holds_three_polls}
use ha_zte_router_5g_monitor.Coordinator.Outage.{
  data_connect, Window, Tick, Expected, open_window, check, schedule, probed_by, close, amend,
  append, ended_by, unsettled, span,
}
use ha_zte_router_5g_monitor.Coordinator.Outage.Sound.{
  IsSound, is_some, Outcome, open_window-IsSound,
}
use ha_zte_router_5g_monitor.Coordinator.Outage.Phases.{
  idle, Reached, starts, opens, Reached-IsSound,
}
use ha_zte_router_5g_monitor.Coordinator.Outage.History.{consistent, records_consistent}
use ha_zte_router_5g_monitor.Coordinator.Outage.Closing.{check_outcome}
use ha_zte_router_5g_monitor.Coordinator.Outage.Deadline.{ClosesBy, on_time, closes_in_time}

abbrev running : ℕ → State ℕ
running k = record {
  last_data = some 7;
  consecutive_failures = k;
  was_available = true;
  force_once = false;
  paused = false;
  outage_active = false;
  outage_closing = false;
}

running-IsLive : (k : ℕ) → IsLive (running k) 7
running-IsLive k = record { holds = refl; polling = refl; expected = refl; open_window = refl }

abbrev late_round : Round ℕ
late_round = record { first = timed_out; login = logged_in; second = timed_out }

abbrev wrong_password : Round ℕ
wrong_password = record { first = auth_error; login = refused_password; second = timed_out }

late_fails : is_fetched (pass_of late_round) ≡ false
unfolding fetch_twice
late_fails = refl

wrong_fails : is_fetched (pass_of wrong_password) ≡ false
unfolding fetch_twice
wrong_fails = refl

three_fail : all_fail (late_round ∷ wrong_password ∷ late_round ∷ []) ≡ true
unfolding fetch_twice
three_fail = refl

holds_through_three_failures_example :
    ((polls (late_round ∷ wrong_password ∷ late_round ∷ []) 0 (running 0)).last_data ≡ some 7)
    × ((polls (late_round ∷ wrong_password ∷ late_round ∷ []) 0 (running 0)).consecutive_failures
        ≡ 3)
holds_through_three_failures_example =
    holds_through_three_failures (late_round ∷ wrong_password ∷ late_round ∷ []) 0 7 (running 0)
      (running-IsLive 0) three_fail (omega arith)

fourth_failure_gives_up_example :
    ((poll auth_error refused_password timed_out 0 (running 3)).0 ≢ data_is 7)
    × ((poll auth_error refused_password timed_out 0 (running 3)).0 ≡ reauth
        ↔ (pass_of wrong_password ≡ credentials))
fourth_failure_gives_up_example =
    fourth_failure_gives_up wrong_password 0 7 7 (running 3) (running-IsLive 3) wrong_fails
      (omega arith)

abbrev no_endpoints : Endpoints ℕ
no_endpoints = record { failures = []; cache = [] }

holds_three_polls_example :
    ((fetch_optional "sms" failure 0
        (failing "sms" 0 3 (fetch_optional "sms" (result 7) 0 no_endpoints).1)).0
      ≡ some 0)
    × (endpoint_available
          (failing "sms" 0 4 (fetch_optional "sms" (result 7) 0 no_endpoints).1)
          "sms"
        ≡ false)
holds_three_polls_example = holds_three_polls "sms" 0 7 3 no_endpoints

abbrev connecting : Window
connecting = open_window data_connect 2000 0 100 idle

abbrev up_at : ℕ → Tick
up_at now = record {
  fired = now;
  answered = true;
  probed = now;
  stamp = now + 100;
  polled = true;
  status = "ppp_connected";
  ended = now;
  closed_at = now + 100;
}

connecting-IsSound : IsSound connecting
connecting-IsSound = open_window-IsSound data_connect 2000 0 100 idle

connecting_open : is_some connecting.expected ≡ true
unfolding open_window schedule
connecting_open = refl

check_outcome_example : Outcome (up_at 1000) connecting (check (up_at 1000) connecting)
check_outcome_example = check_outcome (up_at 1000) connecting connecting-IsSound connecting_open

abbrev connecting_deadline : Expected
connecting_deadline = record { reason = data_connect; deadline = 2000 }

connecting_expected : connecting.expected ≡ some connecting_deadline
unfolding open_window schedule
connecting_expected = refl

connecting_timer : connecting.timer ≡ some 1000
unfolding open_window schedule
connecting_timer = refl

two_on_time : on_time 0 0 (up_at 1000 ∷ up_at 2000 ∷ []) connecting ≡ true
unfolding on_time check probed_by close open_window schedule amend append ended_by unsettled span
two_on_time = refl

closes_in_time_example : ClosesBy 7000 (up_at 1000 ∷ up_at 2000 ∷ []) connecting
closes_in_time_example =
    closes_in_time 0 0 (up_at 1000 ∷ up_at 2000 ∷ []) connecting connecting_deadline 1000
      connecting-IsSound connecting_expected connecting_timer (omega arith) two_on_time
      (omega arith) (omega arith)

connecting_reached : Reached connecting
connecting_reached = opens data_connect 2000 0 100 starts

Reached-IsSound_example : IsSound (check (up_at 1000) connecting)
Reached-IsSound_example =
    Reached-IsSound (check (up_at 1000) connecting) (Reached.checks (up_at 1000) connecting_reached)

records_consistent_example : all consistent (check (up_at 1000) connecting).entries ≡ true
records_consistent_example =
    records_consistent (check (up_at 1000) connecting)
      (Reached.checks (up_at 1000) connecting_reached)
