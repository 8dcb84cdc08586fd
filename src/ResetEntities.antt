-- ===== src/ResetEntities.antt =====
-- The bulk enable and disable action (custom_components/zte_router_5g/reset_entities.py): the guards,
-- `_Planner` and the change that `async_reset_entities` makes. The key and the platform of an entry,
-- which the source reads off its ids, are fields; `described` is `_DESCRIPTIONS` with `default_enabled`.
pub mod Plans
pub mod Rows
use ha_zte_router_5g_monitor.Prelude.{
  ℕ, suc, ◌-◌, Bool, true, false, ◌&&◌, ◌||◌, not, Option, none, some, List, [], ◌∷◌, length,
  String, str_eq, if◌then◌else◌,
}
use ha_zte_router_5g_monitor.Prelude.Names.{member}
use ha_zte_router_5g_monitor.Prelude.Dict.{Dict, get}

-- The action's data.
pub record Request : Type 0 where
  pub reset_to_default : Bool
  pub save_snapshot : Bool
  pub restore_snapshot : Bool
  pub enable_populated : Bool
  pub disable_unavailable : Bool
  pub disable_unknown : Bool
  pub include_ever_populated : Bool
  pub preserve_user_customized : Bool
  pub dry_run : Bool
  pub exclude_entities : List String

pub data Disabler : Type 0 where
  user integration other : Disabler

-- A registry entry, with the state that Home Assistant holds for it.
pub record RegistryEntry : Type 0 where
  pub entity_id : String
  pub platform : String
  pub key : String
  pub disabled_by : Option Disabler
  pub state : Option String

pub record Planner : Type 0 where
  pub request : Request
  pub snapshot : Dict Bool
  pub reporting : List String
  pub ever_populated : List String
  pub described : String → String → Option Bool

pub data Refusal : Type 0 where
  two_baselines snapshot_with_changes coordinator_unavailable no_snapshot : Refusal

-- `any(data[name] for name in _MUTATIONS)`.
abbrev pub mutates : Request → Bool
mutates r =
    r.reset_to_default || r.enable_populated || r.disable_unavailable || r.disable_unknown
    || r.restore_snapshot

-- `_guard_combinations`.
unfoldable pub guard_combinations : Request → Option Refusal
guard_combinations r =
    if r.reset_to_default && r.restore_snapshot
    then some two_baselines
    else if r.save_snapshot && mutates r
    then some snapshot_with_changes
    else none

-- `_is_control`.
abbrev pub is_control : String → String → Bool
is_control platform key =
    member platform ("button" ∷ "number" ∷ []) || member key ("pause_polling" ∷ [])

-- `_maybe_disable`.
unfoldable pub maybe_disable : Planner → String → Option Bool → Option Bool
maybe_disable p key wanted =
    if p.request.include_ever_populated
    then some false
    else if member key p.ever_populated
    then wanted
    else some false

abbrev pub state_is : Option String → String → Bool
state_is none name = false
state_is (some s) name = str_eq s name

-- What the baseline of `_wanted` says: the snapshot, the default, or nothing.
unfoldable pub baseline : Planner → RegistryEntry → Option Bool
baseline p e =
    if p.request.restore_snapshot
    then get p.snapshot e.key
    else if p.request.reset_to_default
    then p.described e.platform e.key
    else none

-- `_wanted`.
unfoldable pub wanted : Planner → RegistryEntry → Option Bool
wanted p e =
    let r = p.request in
    let base = baseline p e in
    let w1 = if r.enable_populated && member e.key p.reporting then some true else base in
    let w2 =
      if r.disable_unavailable && state_is e.state "unavailable"
      then maybe_disable p e.key w1
      else w1 in
    let w3 =
      if r.disable_unknown && state_is e.state "unknown" then maybe_disable p e.key w2 else w2 in
    if is_control e.platform e.key then base else w3

abbrev pub has_snapshot : Dict Bool → Bool
has_snapshot [] = false
has_snapshot (_ ∷ _) = true

abbrev pub by_user : Option Disabler → Bool
by_user (some user) = true
by_user _ = false

abbrev pub is_enabled : RegistryEntry → Bool
is_enabled e = elim e.disabled_by [ none ↦ true | some _ ↦ false ]

abbrev pub is_described : Option Bool → Bool
is_described none = false
is_described (some _) = true

abbrev pub differs : Option Bool → Bool → Option Bool
differs none now = none
differs (some true) now = if now then none else some true
differs (some false) now = if now then some false else none

-- One round of the loop of `plan`: the state to change the entry to, or none.
unfoldable pub change : Planner → RegistryEntry → Option Bool
change p e =
    if member e.entity_id p.request.exclude_entities
    then none
    else if p.request.preserve_user_customized && by_user e.disabled_by
    then none
    else if not (is_described (p.described e.platform e.key))
    then none
    else differs (wanted p e) (is_enabled e)

pub record Plan : Type 0 where
  pub to_enable : List String
  pub to_disable : List String
  pub unchanged : ℕ

-- `plan`: the rows are the entity ids.
unfoldable pub rows : Planner → List RegistryEntry → List String × List String
rows p [] = ([], [])
rows p (e ∷ es) =
    let (on, off) = rows p es in
    elim (change p e) [
      | none ↦ (on, off)
      | some true ↦ (e.entity_id ∷ on, off)
      | some false ↦ (on, e.entity_id ∷ off)
    ]

unfoldable pub plan : Planner → List RegistryEntry → Plan
plan p es =
    let (on, off) = rows p es in
    record { to_enable = on; to_disable = off; unchanged = length es - length on - length off }

-- The registry's update of one entry, by the rows it is in.
abbrev pub updated : Option Bool → RegistryEntry → RegistryEntry
updated none e = e
updated (some true) e = record e { disabled_by = none }
updated (some false) e = record e { disabled_by = some user }

pub data Answer : Type 0 where
  refused : Refusal → Answer
  saves_snapshot : Answer
  reports : Plan → Answer

-- What `async_reset_entities` answers; `connected` is `coordinator.last_update_success`.
unfoldable pub reset_entities : Bool → Planner → List RegistryEntry → Answer
reset_entities connected p es = elim (guard_combinations p.request) [
  | some r ↦ refused r
  | none ↦
      if not connected
      then refused coordinator_unavailable
      else if p.request.save_snapshot
      then saves_snapshot
      else if p.request.restore_snapshot && not (has_snapshot p.snapshot)
      then refused no_snapshot
      else reports (plan p es)
]
