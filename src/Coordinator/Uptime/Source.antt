-- ===== src/Coordinator/Uptime/Source.antt =====
-- `_device_uptime_raw`, `_reset_system_latch`, `_counter_seconds`, `_session_reading`, the uptime part of
-- `_postprocess_payload` and `_checked_total_time` (custom_components/zte_router_5g/coordinator.py).
-- `number` is what Python's `int(float(raw))` gives, `none` where it raises.
pub mod Kept
use ha_zte_router_5g_monitor.Prelude.{
  ℕ, ◌+◌, ◌-◌, ◌*◌, ◌≡◌, refl, Bool, false, ◌&&◌, ◌||◌, not, Option, none, some, List, [], ◌∷◌,
  String, first_where, ltb, str_eq, if◌then◌else◌, arith, eq_iff, Option-cases, inl, inr,
}
use ha_zte_router_5g_monitor.Prelude.Names.{member}
use ha_zte_router_5g_monitor.Prelude.Int.{ℤ, pos}
use ha_zte_router_5g_monitor.Value.{Value, Payload, read, blank}
use ha_zte_router_5g_monitor.Observations.{get_first}
use ha_zte_router_5g_monitor.Coordinator.Uptime.{Latch, second}
use ha_zte_router_5g_monitor.Coordinator.Uptime.Reading.{apply_uptime}

abbrev pub device_uptime_keys : List String
device_uptime_keys =
    "system_uptime" ∷ "flux_system_uptime" ∷ "realtime_time" ∷ "flux_realtime_time" ∷ []

abbrev pub connection_uptime_keys : List String
connection_uptime_keys = "realtime_time" ∷ "flux_realtime_time" ∷ []

-- A latch with nothing learned.
abbrev pub fresh_latch : Latch
fresh_latch = record {
  pauses = false;
  boot_time = none;
  last_counter = none;
  last_poll_at = none;
  startup_reconciled = false;
  stored_counter = none;
  stored_written_at = none;
  last_counter_write = none;
  drift_sum_wall = 0;
  drift_sum_counter = 0;
  drift_interval_count = 0;
  slowest = none;
  fastest = none;
  update = none;
}

-- The two latches, the key that the run reads, and the one saved in the entry.
pub record Uptimes : Type 0 where
  pub system : Latch
  pub connection : Latch
  pub uptime_source : Option String
  pub saved_source : Option String

abbrev pub is_source : Option String → String → Bool
is_source none key = false
is_source (some k) key = str_eq k key

module _ (number : Value → Option ℤ) where
  -- `_counter_seconds`.
  unfoldable pub counter_seconds : Value → Option ℕ
  counter_seconds raw =
      if blank raw then none else elim (number raw) [ some (pos n) ↦ some n | _ ↦ none ]

  -- `_session_reading`.
  unfoldable pub session_reading : Value → Bool
  session_reading raw = elim (counter_seconds raw) [ none ↦ false | some n ↦ ltb 0 n ]

  -- Whether a key answers with a counter that can be chosen.
  unfoldable pub answers_uptime : Payload → String → Bool
  answers_uptime payload key =
      not (blank (read payload key))
      && (not (member key connection_uptime_keys) || session_reading (read payload key))

  -- The reading of the key, `none` where it is blank or a session that is not up.
  unfoldable pub reading_of : Payload → String → Option Value
  reading_of payload key = if answers_uptime payload key then some (read payload key) else none

  -- `_reset_system_latch`.
  unfoldable pub reset_system_latch : String → Uptimes → Uptimes
  reset_system_latch key u = record u { system = fresh_latch; saved_source = some key }

  -- The choice of the key, on the first answer of the run.
  unfoldable pub choose_source : Payload → Uptimes → Uptimes
  choose_source payload u = elim u.uptime_source [
    | some key ↦ u
    | none ↦ elim (first_where (answers_uptime payload) device_uptime_keys) [
      | none ↦ u
      | some key ↦
          let u' = record u { uptime_source = some key } in
          if is_source u.saved_source key then u' else reset_system_latch key u'
    ]
  ]

  -- `_device_uptime_raw`.
  unfoldable pub device_uptime_raw : Payload → Uptimes → Option Value × Uptimes
  device_uptime_raw payload u =
      let u' = choose_source payload u in
      (elim u'.uptime_source [ none ↦ none | some key ↦ reading_of payload key ], u')

  abbrev pub number_of : Option Value → Option ℤ
  number_of none = none
  number_of (some v) = number v

  -- The reading of the connection's counter, from either spelling.
  unfoldable pub connection_raw : Payload → Option Value
  connection_raw payload =
      let raw = get_first payload connection_uptime_keys in
      if session_reading raw then some raw else none

  -- `_apply_uptime_readings` on the two readings of a payload.
  unfoldable pub apply_readings : Payload → ℕ → Uptimes → Uptimes
  apply_readings payload now u =
      let (raw, u') = device_uptime_raw payload u in
      record u' {
        system = apply_uptime (number_of raw) now (record (u'.system) { update = none });
        connection =
            apply_uptime (number_of (connection_raw payload)) now
              (record (u'.connection) { update = none });
      }

  -- `_checked_total_time`: the accepted value, and the baseline with its time. A rise may exceed the
  -- time since the baseline by a twentieth and two minutes.
  unfoldable pub checked_total_time : Value → ℕ → Option (ℕ × ℕ) → Option ℕ × Option (ℕ × ℕ)
  checked_total_time raw now baseline = elim (counter_seconds raw) [
    | none ↦ (none, baseline)
    | some value ↦ elim baseline [
      | none ↦ (some value, some (value, now))
      | some (before, at) ↦
          if ltb (105 * (now - at) + 12000 * second) (100 * ((value - before) * second))
          then (none, some (before, at))
          else (some value, some (value, now))
    ]
  ]

  -- Polls in a row, each a payload and its time.
  unfoldable pub readings : List (Payload × ℕ) → Uptimes → Uptimes
  readings [] u = u
  readings ((payload, now) ∷ ps) u = readings ps (apply_readings payload now u)

  -- The key that the run reads is the one saved in the entry.
  abbrev pub IsSaved : Uptimes → Type 0
  IsSaved u = (key : String) → u.uptime_source ≡ some key → u.saved_source ≡ some key

  choose-IsSaved : (payload : Payload) (u : Uptimes) → IsSaved u → IsSaved (choose_source payload u)
  unfolding choose_source reset_system_latch
  choose-IsSaved payload u v key h =
      let old = v key in
      elim (Option-cases u.uptime_source) [
        | inr (k, q) ↦ ground (arith, old)
        | inl q ↦ elim (Option-cases (first_where (answers_uptime payload) device_uptime_keys)) [
          | inl n ↦ ground arith
          | inr (k, n) ↦ elim (Option-cases u.saved_source) [
            | inl m ↦ ground arith
            | inr (saved, m) ↦ ground (arith, eq_iff saved k)
          ]
        ]
      ]

  readings-IsSaved : (ps : List (Payload × ℕ)) (u : Uptimes) → IsSaved u → IsSaved (readings ps u)
  unfolding readings apply_readings device_uptime_raw
  readings-IsSaved [] u v = v
  readings-IsSaved ((payload, now) ∷ ps) u v =
      readings-IsSaved ps (apply_readings payload now u) (choose-IsSaved payload u v)

  -- In a run that starts with no key chosen, the key that is read after any polls is the one saved in
  -- the entry, so the next run can tell whether its counter is the same.
  pub source_is_saved :
      (ps : List (Payload × ℕ)) (u : Uptimes) (key : String)
      → u.uptime_source ≡ none
      → (readings ps u).uptime_source ≡ some key
      → (readings ps u).saved_source ≡ some key
  source_is_saved ps u key h e = readings-IsSaved ps u (λ k q. ground (arith, h, q)) key e
