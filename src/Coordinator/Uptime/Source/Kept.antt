-- ===== src/Coordinator/Uptime/Source/Kept.antt =====
-- What the latch of the system is fed with (custom_components/zte_router_5g/coordinator.py) once the run has
-- chosen its key.
use ha_zte_router_5g_monitor.Prelude.{
  ℕ, ◌≡◌, refl, Bool, true, false, ◌&&◌, ◌||◌, not, Option, none, some, List, [], ◌∷◌, String, ltb,
  if◌then◌else◌, arith, ap, ◌∙◌,
}
use ha_zte_router_5g_monitor.Prelude.Names.{member}
use ha_zte_router_5g_monitor.Prelude.Int.{ℤ, pos}
use ha_zte_router_5g_monitor.Value.{Value, Payload, read, blank}
use ha_zte_router_5g_monitor.Coordinator.Uptime.{Latch}
use ha_zte_router_5g_monitor.Coordinator.Uptime.Reading.{apply_uptime}
use ha_zte_router_5g_monitor.Coordinator.Uptime.Source.{
  Uptimes, connection_uptime_keys, counter_seconds, session_reading, answers_uptime, reading_of,
  choose_source, device_uptime_raw, number_of, apply_readings, readings,
}

module _ (number : Value → Option ℤ) where
  choose_kept :
      (payload : Payload) (u : Uptimes) (key : String)
      → u.uptime_source ≡ some key
      → choose_source number payload u ≡ u
  unfolding choose_source
  choose_kept payload u key h = ground arith

  -- The counter that one key answers: none where it is blank, and none from a session's key that does
  -- not count up.
  abbrev pub counter_of : Bool → Value → Option ℤ
  counter_of false raw = if blank raw then none else number raw
  counter_of true raw =
      if blank raw
      then none
      else elim (number raw) [ some (pos n) ↦ if ltb 0 n then some (pos n) else none | _ ↦ none ]

  reading_counter :
      (payload : Payload) (key : String)
      → number_of number (reading_of number payload key)
        ≡ counter_of (member key connection_uptime_keys) (read payload key)
  unfolding reading_of answers_uptime session_reading counter_seconds
  reading_counter payload key = by_kind (member key connection_uptime_keys) (read payload key)
    where
      by_kind :
          (session : Bool) (raw : Value)
          → number_of number (
              if not (blank raw) && (not session || session_reading number raw)
              then some raw
              else none)
            ≡ counter_of session raw
      by_kind true raw = ground arith
      by_kind false raw = ground arith

  -- A latch that reads nothing but one key.
  unfoldable pub followed : String → List (Payload × ℕ) → Latch → Latch
  followed key [] l = l
  followed key ((payload, now) ∷ ps) l =
      let raw = counter_of (member key connection_uptime_keys) (read payload key) in
      followed key ps (apply_uptime raw now (record l { update = none }))

  apply_kept :
      (payload : Payload) (now : ℕ) (u : Uptimes) (key : String)
      → u.uptime_source ≡ some key
      → ((apply_readings number payload now u).uptime_source ≡ some key)
        × ((apply_readings number payload now u).saved_source ≡ u.saved_source)
        × ((apply_readings number payload now u).system
            ≡ apply_uptime
                (counter_of (member key connection_uptime_keys) (read payload key))
                now
                (record (u.system) { update = none }))
  unfolding apply_readings device_uptime_raw
  apply_kept payload now u key h =
      let c = choose_kept payload u key h in
      let r = reading_counter payload key in ground (arith, c, r)

  -- A run that has chosen its key reads that key for good: whatever the polls answer under other names,
  -- neither it nor the saved one changes, and the latch of the system is fed with what this key answers,
  -- or with nothing in a poll in which it is blank or, where it is a session's, does not count.
  pub source_is_kept :
      (ps : List (Payload × ℕ)) (u : Uptimes) (key : String)
      → u.uptime_source ≡ some key
      → ((readings number ps u).uptime_source ≡ some key)
        × ((readings number ps u).saved_source ≡ u.saved_source)
        × ((readings number ps u).system ≡ followed key ps u.system)
  unfolding readings followed
  source_is_kept [] u key h = (h, refl, refl)
  source_is_kept ((payload, now) ∷ ps) u key h =
      let (a, b, d) = apply_kept payload now u key h in
      let (a', b', d') = source_is_kept ps (apply_readings number payload now u) key a in
      (a', b' ∙ b, d' ∙ ap (followed key ps) d)
