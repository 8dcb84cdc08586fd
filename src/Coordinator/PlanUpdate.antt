-- ===== src/Coordinator/PlanUpdate.antt =====
-- `_update_poll_plan` of custom_components/zte_router_5g/coordinator.py: what a successful poll does
-- to the poll plan. The readers and the disabled ids come from the entity platforms and from Home
-- Assistant's registry, and are arguments here.
pub mod Cycle
pub mod Restart
use Prim.Native.String.{len, slice}
use ha_zte_router_5g_monitor.Prelude.{
  ℕ, ◌-◌, String, Bool, true, false, ◌&&◌, ◌||◌, not, Option, none, some, List, [], ◌∷◌, ltb, leb,
  ◌==◌, str_eq, if◌then◌else◌,
}
use ha_zte_router_5g_monitor.Prelude.Int.{ℤ, pos, negsuc, ltb_ℤ}
use ha_zte_router_5g_monitor.Value.{Value, null, flag, int, text, Payload, read, truthy, str_of}
use ha_zte_router_5g_monitor.PollPlan.Plan.{PollPlan, request_full}
use ha_zte_router_5g_monitor.PollPlan.Readers.{Reader, learn_readers, learn_answers}
use ha_zte_router_5g_monitor.PollPlan.Lifecycle.{Stored, to_store, after_poll}

abbrev pub strike_limit : ℕ
strike_limit = 3

-- `_poll_previous`: `none` before the first poll.
pub record Previous : Type 0 where
  pub uptime : Value
  pub link : String

-- The fields of the coordinator that the method reads and writes. `stored` is the record that the
-- delayed save writes, `none` while nothing was scheduled; `has_store` is `_poll_store is not None`.
pub record Learner : Type 0 where
  pub plan : PollPlan
  pub firmware : String
  pub previous : Option Previous
  pub has_store : Bool
  pub stored : Option Stored

-- `str(value or "")`.
abbrev pub text_or_empty : Value → String
text_or_empty v = if truthy v then str_of v else ""

-- `isinstance(value, int)`: a Boolean is an `int` in Python.
abbrev pub as_int : Value → Option ℤ
as_int (int n) = some n
as_int (flag true) = some (pos 1)
as_int (flag false) = some (pos 0)
as_int _ = none

abbrev pub uptime_of : Option Previous → Value
uptime_of none = null
uptime_of (some b) = b.uptime

abbrev pub link_of : Option Previous → String
link_of none = ""
link_of (some b) = b.link

abbrev pub lower : Option ℤ → Option ℤ → Bool
lower (some now) (some before) = ltb_ℤ now before
lower _ _ = false

abbrev is_set : Option Previous → Bool
is_set none = false
is_set (some _) = true

-- `link.endswith("_connected")`.
unfoldable pub is_connected : String → Bool
is_connected link = leb 10 (len link) && str_eq (slice link (len link - 10) (len link)) "_connected"

-- The firmware block: another firmware forgets the answered names and owes a full poll.
unfoldable pub note_firmware : String → Learner → Learner
note_firmware firmware c =
    if not (str_eq firmware "") && not (str_eq firmware c.firmware)
    then record c {
      firmware = firmware;
      plan =
          if str_eq c.firmware ""
          then c.plan
          else request_full "firmware changed" (record (c.plan) { answered = [] });
    }
    else c

-- The uptime and link blocks.
unfoldable pub note_restart : Value → String → Learner → Learner
note_restart uptime link c =
    let p =
      if lower (as_int uptime) (as_int (uptime_of c.previous))
      then request_full "reboot" c.plan
      else c.plan in
    let p' =
      if is_set c.previous && is_connected link && not (is_connected (link_of c.previous))
      then request_full "data connection returned" p
      else p in
    record c { plan = p'; previous = some (record { uptime = uptime; link = link }) }

abbrev is_empty {ℓ} : {A : Type ℓ} → List A → Bool
is_empty [] = true
is_empty (_ ∷ _) = false

-- The learning block, on a fresh payload.
unfoldable pub learn : List Reader → List String → Bool → Payload → Learner → Learner
learn readers disabled full d c =
    let p = record (c.plan) { disabled = disabled } in
    let q = if full || is_empty p.consumers then learn_readers readers d p else p in
    let (q', new) = learn_answers readers d q in
    record c {
      plan = q';
      stored = if new && c.has_store then some (to_store c.firmware q') else c.stored;
    }

-- `failures == 0 or failures > FETCH_STRIKE_LIMIT`.
abbrev pub is_fresh : ℕ → Bool
is_fresh failures = failures == 0 || ltb strike_limit failures

-- Both blocks, on the values that they read from the payload.
unfoldable pub noted : Payload → Learner → Learner
unfolding note_firmware note_restart
noted d c =
    note_restart (read d "uptime_seconds") (text_or_empty (read d "ppp_status"))
      (note_firmware (text_or_empty (read d "wa_inner_version")) c)

-- `_update_poll_plan`.
unfoldable pub update_poll_plan :
    List Reader → List String → ℕ → Bool → Payload → ℕ → Learner → Learner
unfolding noted learn
update_poll_plan readers disabled failures full d now c =
    let fresh = is_fresh failures in
    let c' = noted d c in
    let c'' = if fresh then learn readers disabled full d c' else c' in
    record c'' { plan = after_poll d full fresh now c''.plan }
