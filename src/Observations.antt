-- ===== src/Observations.antt =====
-- What the integration remembers of one router (custom_components/zte_router_5g/observations.py, and
-- `get_first` of helpers.py): the change history, the counter resets and the populated entities. The
-- two stores are one record, of one device; times are texts, and `uptime` and `counter` are the
-- numbers that `_device_uptime` and `_uptime` find, which parse floats.
pub mod Chains
pub mod Kept
use ha_zte_router_5g_monitor.Prelude.{
  ℕ, suc, ◌+◌, ◌-◌, Bool, true, false, ◌&&◌, ◌||◌, not, Option, none, some, List, [], ◌∷◌, ◌++◌,
  length, drop, last?, all, any, String, str_eq, if◌then◌else◌, keep_if, map,
}
use ha_zte_router_5g_monitor.Prelude.Names.{member, union}
use ha_zte_router_5g_monitor.Prelude.Dict.{Dict, get, get_or, put}
use ha_zte_router_5g_monitor.Prelude.Int.{ℤ, leb_ℤ}
use ha_zte_router_5g_monitor.Value.{Value, null, Payload, read, blank, str_of}

abbrev pub tracked : Dict (List String)
tracked =
    ("wa_inner_version", "wa_inner_version" ∷ [])
    ∷ ("wan_ipaddr", "wan_ipaddr" ∷ [])
    ∷ ("wan_apn", "wan_apn" ∷ "wan_apn_ui" ∷ [])
    ∷ ("cell_id", "cell_id" ∷ "network_cell_id" ∷ [])
    ∷ ("network_provider", "network_provider" ∷ "strFullName" ∷ "strShortName" ∷ [])
    ∷ ("opms_wan_mode", "opms_wan_mode" ∷ [])
    ∷ []

abbrev pub history_cap : ℕ
history_cap = 20

-- `get_first`.
unfoldable pub get_first : Payload → List String → Value
unfolding blank
get_first d [] = null
get_first d (k ∷ ks) = let rest = get_first d ks in if blank (read d k) then rest else read d k

pub record Transition : Type 0 where
  pub timestamp : String
  pub previous : Option String
  pub current : String
  pub uptime : Option ℤ

pub record Reset : Type 0 where
  pub detected : String
  pub counter_before : ℤ
  pub counter_after : ℤ
  pub ppp_status : Value
  pub network_type : Value

pub record Records : Type 0 where
  pub history : Dict (List Transition)
  pub change_counts : Dict ℕ
  pub counter_resets : List Reset
  pub populated : List String
  pub since : Option String
  pub last_counter : Option ℤ

-- `del entries[:-cap]`.
unfoldable pub newest {ℓ} : {A : Type ℓ} → ℕ → List A → List A
newest n xs = drop (length xs - n) xs

abbrev pub last_value : List Transition → Option String
last_value es = elim (last? es) [ none ↦ none | some e ↦ some e.current ]

abbrev pub is_text : Option String → String → Bool
is_text none s = false
is_text (some t) s = str_eq t s

-- The entries of one key after a reading, and whether they changed.
unfoldable pub noted : String → Option ℤ → String → List Transition → List Transition × Bool
noted now uptime current es = if is_text (last_value es) current then (es, false) else (
  newest history_cap (
      es
      ++ record { timestamp = now; previous = last_value es; current = current; uptime = uptime }
        ∷ []),
  true,
)

abbrev pub has_text : Option String → Bool
has_text none = false
has_text (some _) = true

-- One round of the loop of `_observe_transitions`.
unfoldable pub observe_key :
    String → Option ℤ → Payload → String → List String → Records → Records × Bool
observe_key now uptime payload key aliases r =
    let value = get_first payload aliases in
    let es = get_or r.history key [] in
    let (es', dirty) = noted now uptime (str_of value) es in
    let counts =
      if dirty && has_text (last_value es)
      then put r.change_counts key (suc (get_or r.change_counts key 0))
      else r.change_counts in
    if blank value
    then (r, false)
    else (record r { history = put r.history key es'; change_counts = counts }, dirty)

-- `_observe_transitions`.
unfoldable pub observe_keys :
    String → Option ℤ → Payload → Dict (List String) → Records → Records × Bool
observe_keys now uptime payload [] r = (r, false)
observe_keys now uptime payload ((key, aliases) ∷ ks) r =
    let (r', dirty) = observe_key now uptime payload key aliases r in
    let (r'', dirty') = observe_keys now uptime payload ks r' in (r'', dirty || dirty')

-- `_observe_counter_reset`, without the estimate of the time and the window it falls in.
unfoldable pub observe_counter : Option ℤ → Payload → String → Records → Records × Bool
observe_counter counter payload now r =
    let r' = record r { last_counter = counter } in
    elim counter [
      | none ↦ (r', false)
      | some after ↦ elim r.last_counter [
        | none ↦ (r', false)
        | some before ↦ if leb_ℤ before after then (r', false) else (
          record r' {
            counter_resets = newest 20 (
                r.counter_resets
                ++ record {
                  detected = now;
                  counter_before = before;
                  counter_after = after;
                  ppp_status = read payload "ppp_status";
                  network_type = read payload "network_type";
                }
                  ∷ []);
          },
          true,
        )
      ]
    ]

-- A description of the four lists: its key, `state_keys`, and `value_fn`, with none where it raises.
pub record Described : Type 0 where
  pub key : String
  pub state_keys : List String
  pub value_fn : Option (Payload → Option Value)

abbrev pub reports_value : Option Value → Bool
reports_value none = false
reports_value (some v) = not (blank v)

abbrev pub is_nil : List String → Bool
is_nil [] = true
is_nil (_ ∷ _) = false

abbrev pub is_judged : Described → Payload → Bool
is_judged d payload =
    is_nil d.state_keys || any (λ name. not (blank (read payload name))) d.state_keys

abbrev pub reports : Described → Payload → Bool
reports d payload = elim d.value_fn [
  | none ↦ false
  | some f ↦ is_judged d payload && reports_value (f payload)
]

-- `entity_keys_with_values`.
unfoldable pub entity_keys_with_values : List Described → Payload → List String
entity_keys_with_values [] payload = []
entity_keys_with_values (d ∷ ds) payload =
    let rest = entity_keys_with_values ds payload in
    if reports d payload then d.key ∷ rest else rest

abbrev pub since_or : Option String → String → Option String
since_or none now = some now
since_or (some s) now = some s

-- `_observe_populated`; the order of `populated` is left out.
unfoldable pub observe_populated : List Described → Payload → String → Records → Records × Bool
observe_populated ds payload now r =
    let found = entity_keys_with_values ds payload in
    if all (λ k. member k r.populated) found
    then (r, false)
    else (record r { populated = union r.populated found; since = since_or r.since now }, true)

-- `observe`.
unfoldable pub observe :
    List Described → Option ℤ → Option ℤ → Payload → String → Records → Records × Bool
observe ds uptime counter payload now r =
    let (r1, changed) = observe_keys now uptime payload tracked r in
    let (r2, fell) = observe_counter counter payload now r1 in
    let (r3, grew) = observe_populated ds payload now r2 in (r3, grew || fell || changed)

-- `change_count`.
abbrev pub change_count : Records → String → ℕ
change_count r key = get_or r.change_counts key 0
