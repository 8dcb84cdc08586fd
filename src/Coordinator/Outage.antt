-- ===== src/Coordinator/Outage.antt =====
-- The expected-outage window (custom_components/zte_router_5g/coordinator.py,
-- `async_open_expected_outage` to `_async_outage_followup`, and `ExpectedOutage` of api.py): while a
-- command keeps the router offline, a timer probes it until it is back, or until the cap.
-- `monotonic()` and the wall clock are milliseconds, a handler runs without another in between, and
-- the command, its reply and the two snapshots of a record are left out.
pub mod Closing
pub mod Deadline
pub mod Kept
pub mod History
pub mod Phases
pub mod Sound
use ha_zte_router_5g_monitor.Prelude.{
  ℕ, suc, ◌+◌, ◌-◌, Bool, true, false, ◌&&◌, ◌||◌, not, Option, none, some, List, [], ◌∷◌, ◌++◌,
  length, drop, any, leb, if◌then◌else◌, String, str_eq,
}
use ha_zte_router_5g_monitor.Prelude.Int.{ℤ, sub_ℕ}

abbrev pub probe_fast : ℕ
probe_fast = 1000

abbrev pub check_interval : ℕ
check_interval = 5000

abbrev pub hold : ℕ
hold = 20000

abbrev pub history_cap : ℕ
history_cap = 5

abbrev pub followup_delay : ℕ
followup_delay = 10000

abbrev pub connected_states : List String
connected_states = "ppp_connected" ∷ "ipv6_connected" ∷ "ipv4_ipv6_connected" ∷ []

pub data Reason : Type 0 where
  data_connect data_disconnect reboot : Reason

pub data ClosedBy : Type 0 where
  cap no_outage answer : ClosedBy

-- `ExpectedOutage`.
pub record Expected : Type 0 where
  pub reason : Reason
  pub deadline : ℕ

-- A record of `expected_outages`; `outage` is `outage_seconds`, in milliseconds and not rounded.
pub record Entry : Type 0 where
  pub reason : Reason
  pub opened : ℕ
  pub cap_length : ℕ
  pub checks : ℕ
  pub down_at : Option ℕ
  pub back_at : Option ℕ
  pub outage : Option ℤ
  pub closed : Option ℕ
  pub closed_by : Option ClosedBy

-- The timers are armed with the time they are due. `requested` counts the refreshes asked for.
pub record Window : Type 0 where
  pub expected : Option Expected
  pub awaiting_drop : Bool
  pub opened_mono : ℕ
  pub timer : Option ℕ
  pub followup : Option ℕ
  pub entries : List Entry
  pub requested : ℕ

-- What one run of the check meets: when it fires, what the probe says and when, whether the closing
-- poll succeeds and the `ppp_status` that then stands, and when it ends.
pub record Tick : Type 0 where
  pub fired : ℕ
  pub answered : Bool
  pub probed : ℕ
  pub stamp : ℕ
  pub polled : Bool
  pub status : String
  pub ended : ℕ
  pub closed_at : ℕ

abbrev pub expired : Expected → ℕ → Bool
expired e now = leb e.deadline now

abbrev pub is_reboot : Reason → Bool
is_reboot reboot = true
is_reboot _ = false

abbrev pub is_empty : List Entry → Bool
is_empty [] = true
is_empty (_ ∷ _) = false

abbrev pub is_cap : ClosedBy → Bool
is_cap cap = true
is_cap _ = false

-- `_data_settled`.
abbrev pub settled : Reason → String → Bool
settled data_connect status = any (str_eq status) connected_states
settled _ status = str_eq status "ppp_disconnected"

-- The length of the outage; the wall clock may be set back in between.
unfoldable pub span : Option ℕ → Option ℕ → Option ℤ → Option ℤ
span (some down) (some back) old = some (sub_ℕ back down)
span _ _ old = old

-- `deque(maxlen=OUTAGE_HISTORY_CAP).append`.
unfoldable pub append : Entry → List Entry → List Entry
append e es = let all = es ++ e ∷ [] in drop (length all - history_cap) all

-- A change to the last record, if there is one.
unfoldable pub amend : (Entry → Entry) → List Entry → List Entry
amend f [] = []
amend f (e ∷ []) = f e ∷ []
amend f (e ∷ e' ∷ es) = e ∷ amend f (e' ∷ es)

-- `_schedule_outage_check`.
unfoldable pub schedule : ℕ → Window → Window
schedule now w = record w {
  timer = some (now + (if w.awaiting_drop then probe_fast else check_interval));
}

-- The record that opening a window adds.
abbrev pub opening : Reason → ℕ → ℕ → Entry
opening reason cap_seconds wall = record {
  reason = reason;
  opened = wall;
  cap_length = cap_seconds;
  checks = 0;
  down_at = if is_reboot reason then some wall else none;
  back_at = none;
  outage = none;
  closed = none;
  closed_by = none;
}

-- `async_open_expected_outage`, at the monotonic time `now` and the wall time `wall`.
unfoldable pub open_window : Reason → ℕ → ℕ → ℕ → Window → Window
open_window reason cap_seconds now wall w = schedule now (record w {
  expected = some (record { reason = reason; deadline = now + cap_seconds });
  followup = none;
  awaiting_drop = not (is_reboot reason);
  opened_mono = now;
  entries = append (opening reason cap_seconds wall) w.entries;
})

abbrev pub checked_again : Entry → Entry
checked_again e = record e { checks = suc e.checks }

abbrev pub went_down : ℕ → Entry → Entry
went_down stamp e = record e { down_at = some stamp }

abbrev pub came_back : ℕ → Entry → Entry
came_back stamp e = elim e.back_at [ none ↦ record e { back_at = some stamp } | some _ ↦ e ]

unfoldable pub ended_by : ClosedBy → ℕ → Entry → Entry
ended_by by wall e = record e {
  closed = some wall;
  closed_by = some by;
  outage = span e.down_at e.back_at e.outage;
}

-- Whether `_close_expected_outage` asks for one more refresh.
unfoldable pub unsettled : ClosedBy → Option Expected → String → Bool
unsettled by none status = false
unsettled by (some e) status =
    not (is_cap by) && not (is_reboot e.reason) && not (settled e.reason status)

-- `_close_expected_outage`.
unfoldable pub close : ClosedBy → Tick → Window → Window
close by t w =
    let shut = record w {
      timer = none;
      expected = none;
      awaiting_drop = false;
      entries = amend (ended_by by t.closed_at) w.entries;
    } in
    let armed = not (is_empty w.entries) && unsettled by w.expected t.status in
    if armed then record shut { followup = some (t.ended + followup_delay) } else shut

-- The rest of `_async_outage_check`, once the router has been probed.
unfoldable pub probed_by : Tick → Window → Window
probed_by t w =
    if w.awaiting_drop
    then if not t.answered
      then schedule t.ended
          (record w { awaiting_drop = false; entries = amend (went_down t.stamp) w.entries })
      else if leb (w.opened_mono + hold) t.probed && t.polled
      then close no_outage t w
      else schedule t.ended w
    else let back = record w { entries = amend (came_back t.stamp) w.entries } in
      if not t.answered
      then schedule t.ended w
      else if t.polled
      then close answer t back
      else schedule t.ended back

-- A refresh is asked for.
abbrev pub ask_refresh : Window → Window
ask_refresh w = record w { requested = suc w.requested }

-- `_async_outage_check`.
unfoldable pub check : Tick → Window → Window
check t w =
    let w' = record w { timer = none } in
    elim w.expected [
      | none ↦ w'
      | some e ↦
          if expired e t.fired
          then ask_refresh (close cap t w')
          else probed_by t (record w' { entries = amend checked_again w.entries })
    ]

-- `_async_outage_followup`, which forces a refresh.
unfoldable pub follow_up : Window → Window
follow_up w = ask_refresh (record w { followup = none })

-- `async_shutdown`, which disarms both timers before the coordinator is torn down: no handler runs after it.
unfoldable pub shut_down : Window → Window
shut_down w = record w { timer = none; followup = none }
