-- ===== src/Api/Request/Session.antt =====
-- `_clear_session`, `_note_session_replaced`, `learned_session_age_limit`,
-- `_session_is_past_its_learned_age`, `_preempt_stale_session`, `refuse_during_outage` and `login`.
-- Times and durations are whole microseconds.
use ha_zte_router_5g_monitor.Prelude.{
  ℕ, suc, ◌+◌, ◌-◌, ◌*◌, ◌%◌, Bool, true, false, ◌&&◌, ◌||◌, Option, none, some, List, [], ◌∷◌,
  ◌++◌, length, drop, ltb, leb, ◌==◌, if◌then◌else◌,
}
use ha_zte_router_5g_monitor.Api.Request.Client.{
  World, Client, jar, Handshake, established, failed, Fault, unavailable, logged_in, clock,
}

-- `SESSION_AGE_FLOOR_SECONDS`, `SESSION_AGE_LEARN_WINDOW`, `SESSION_AGE_LEARN_MIN_SAMPLES`,
-- `SESSION_AGE_SAMPLE_EVERY` and `SESSION_IDLE_RESET_SECONDS`.
abbrev pub age_floor : ℕ
age_floor = 30000000

abbrev pub learn_window : ℕ
learn_window = 10

abbrev pub min_samples : ℕ
min_samples = 3

abbrev pub sample_every : ℕ
sample_every = 10

abbrev pub idle_reset : ℕ
idle_reset = 150000000

-- `_clear_session`; the cookie jar itself belongs to the HTTP library.
unfoldable pub clear_session : Client → Client
clear_session c = record c { cookies = jar []; session_active = false }

-- `_note_session_replaced`: `del self.session_lifetimes[:-window]` keeps the newest ones.
unfoldable pub note_replaced : ℕ → Client → Client
note_replaced now c = elim c.session_started [
  | none ↦ c
  | some t ↦
      let lasted = now - t in
      let all = c.session_lifetimes ++ lasted ∷ [] in
      if ltb lasted age_floor
      then c
      else record c { session_lifetimes = drop (length all - learn_window) all }
]

abbrev smallest : ℕ → List ℕ → ℕ
smallest m [] = m
smallest m (n ∷ ns) = smallest (if ltb n m then n else m) ns

-- `learned_session_age_limit`, in tenths of a microsecond: the factor 0.8 is 8 tenths.
unfoldable pub age_limit : List ℕ → Option ℕ
age_limit [] = none
age_limit (n ∷ ns) =
    let tenths = 8 * smallest n ns in
    if ltb (suc (length ns)) min_samples
    then none
    else some (if ltb tenths (10 * age_floor) then 10 * age_floor else tenths)

-- `_session_is_past_its_learned_age`.
past_age : ℕ → Option ℕ → Option ℕ → Client → Client × Bool
past_age now (some limit) (some started) c =
    let checks = suc c.age_checks in
    (
      record c { age_checks = checks },
      if checks % sample_every == 0 then false else ltb limit (10 * (now - started)),
    )
past_age now _ _ c = (c, false)

unfoldable pub past_learned_age : ℕ → Client → Client × Bool
unfolding past_age age_limit
past_learned_age now c = past_age now (age_limit c.session_lifetimes) c.session_started c

-- `_preempt_stale_session`.
unfoldable pub preempt : Bool → World → Client → Client
unfolding past_learned_age clear_session
preempt authenticated w c =
    let now = clock w c in
    let (c', past) = past_learned_age now c in
    if authenticated && c.session_active
    then (if past
        then clear_session c'
        else if ltb (c'.last_activity + idle_reset) now
        then clear_session c'
        else c')
    else c

-- `refuse_during_outage`: whether the request is refused. A window past its cap is closed.
unfoldable pub refused : World → Client → Bool
refused w c = elim c.outage_until [
  | none ↦ false
  | some deadline ↦ if leb deadline (clock w c) || c.bypass then false else true
]

-- The end of `_login_unlocked`, by what the handshake came to.
settle : World → Handshake → Client → Option Fault × Client
unfolding note_replaced
settle w (failed f) c = (some f, c)
settle w (established cookies) c =
    let now = clock w c in
    let c' = note_replaced now (record c {
      cookies = cookies;
      session_active = true;
      session_was_fresh = true;
      last_activity = now;
    }) in
    (none, record c' { session_started = some now })

-- `login`: refused during an outage before the session is cleared; otherwise the old session ends
-- and the handshake decides.
unfoldable pub login : World → Client → Option Fault × Client
unfolding refused clear_session settle
login w c =
    let c' = record (clear_session c) { logins = suc c.logins; log = logged_in ∷ c.log } in
    if refused w c then (some unavailable, c) else settle w (w.login c.logins) c'
