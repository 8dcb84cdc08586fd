-- ===== src/ResetEntities/Plans.antt =====
-- What a plan of the bulk action (custom_components/zte_router_5g/reset_entities.py) changes and protects.
use ha_zte_router_5g_monitor.Prelude.{
  ◌+◌, ◌≡◌, ◌≢◌, refl, Bool, true, false, not, Option, none, some, List, [], ◌∷◌, length, arith,
  ◌≤◌, String, ap, ◌∙◌, inl, inr, Option-cases, ◌⊎◌,
}
use ha_zte_router_5g_monitor.Prelude.Names.{member}
use ha_zte_router_5g_monitor.ResetEntities.{
  RegistryEntry, Planner, Plan, Disabler, user, baseline, wanted, maybe_disable, is_control, change,
  rows, plan, updated, is_enabled, by_user, differs, reports, reset_entities,
}

length-rows :
    (p : Planner) (es : List RegistryEntry)
    → length (rows p es).0 + length (rows p es).1 ≤ length es
unfolding rows
length-rows p [] = omega arith
length-rows p (e ∷ es) = let c = change p e in ground (arith, length-rows p es)

-- The rows to enable, the rows to disable and the count of the rest make up the entries, so no entry is
-- in both lists or counted twice.
pub plan_adds_up :
    (p : Planner) (es : List RegistryEntry)
    → length (plan p es).to_enable + length (plan p es).to_disable + (plan p es).unchanged
      ≡ length es
unfolding plan
plan_adds_up p es = omega (arith, length-rows p es)

wanted_same :
    (p : Planner) (e : RegistryEntry) (d : Option Disabler)
    → wanted p (record e { disabled_by = d }) ≡ wanted p e
unfolding wanted baseline
wanted_same p e d = refl

differs_settles : (w : Option Bool) (now b : Bool) → differs w now ≡ some b → differs w b ≡ none
differs_settles none now b h = refl
differs_settles (some true) now true h = refl
differs_settles (some true) now false h = ground arith
differs_settles (some false) now true h = ground arith
differs_settles (some false) now false h = refl

is_enabled-updated : (b : Bool) (e : RegistryEntry) → is_enabled (updated (some b) e) ≡ b
is_enabled-updated true e = refl
is_enabled-updated false e = refl

change-differs :
    (p : Planner) (e : RegistryEntry) (b : Bool)
    → change p e ≡ some b
    → differs (wanted p e) (is_enabled e) ≡ some b
unfolding change
change-differs p e b h = let w = wanted p e in ground arith

change-none :
    (p : Planner) (e : RegistryEntry)
    → differs (wanted p e) (is_enabled e) ≡ none
    → change p e ≡ none
unfolding change
change-none p e h = ground arith

wanted-updated :
    (p : Planner) (b : Bool) (e : RegistryEntry) → wanted p (updated (some b) e) ≡ wanted p e
wanted-updated p true e = wanted_same p e none
wanted-updated p false e = wanted_same p e (some user)

change_settles :
    (p : Planner) (e : RegistryEntry) (b : Bool)
    → change p e ≡ some b
    → change p (updated (some b) e) ≡ none
change_settles p e b h =
    let s = differs_settles (wanted p e) (is_enabled e) b (change-differs p e b h) in
    change-none p (updated (some b) e) (rw (wanted-updated p b e) (rw (is_enabled-updated b e) s))

-- An entry that was changed as planned is not changed again by the same action, for the same readings.
pub change_is_final : (p : Planner) (e : RegistryEntry) → change p (updated (change p e) e) ≡ none
change_is_final p e = elim (Option-cases (change p e)) [
  | inl n ↦ ap (λ c. change p (updated c e)) n ∙ n
  | inr (b, h) ↦ ap (λ c. change p (updated c e)) h ∙ change_settles p e b h
]

differs-false : (w : Option Bool) (now : Bool) → differs w now ≡ some false → w ≡ some false
differs-false none now h = ground arith
differs-false (some true) now h = ground arith
differs-false (some false) now h = refl

maybe_disable_protects :
    (p : Planner) (key : String) (w : Option Bool)
    → p.request.include_ever_populated ≡ false
    → member key p.ever_populated ≡ true
    → maybe_disable p key w ≡ w
unfolding maybe_disable
maybe_disable_protects p key w i m = ground arith

wanted_is_not_false :
    (p : Planner) (e : RegistryEntry)
    → p.request.include_ever_populated ≡ false
    → p.request.restore_snapshot ≡ false
    → p.request.reset_to_default ≡ false
    → member e.key p.ever_populated ≡ true
    → wanted p e ≢ some false
unfolding wanted baseline
wanted_is_not_false p e i r d m =
    let k = maybe_disable_protects p e.key none i m in
    let k' = maybe_disable_protects p e.key (some true) i m in ground (arith, k, k')

-- An entity that has reported a value before, and whose value the action does not ask to forget, is not
-- disabled by the state it is in now: without a baseline the plan never disables it.
pub populated_is_protected :
    (p : Planner) (e : RegistryEntry)
    → p.request.include_ever_populated ≡ false
    → p.request.restore_snapshot ≡ false
    → p.request.reset_to_default ≡ false
    → member e.key p.ever_populated ≡ true
    → change p e ≢ some false
populated_is_protected p e i r d m h =
    let w = wanted_is_not_false p e i r d m in
    let q = change-differs p e false h in w (differs-false (wanted p e) (is_enabled e) q)

-- A control is changed by a baseline alone, whatever it or the router reports.
pub control_ignores_state :
    (p : Planner) (e : RegistryEntry)
    → is_control e.platform e.key ≡ true
    → p.request.restore_snapshot ≡ false
    → p.request.reset_to_default ≡ false
    → change p e ≡ none
unfolding change wanted baseline
control_ignores_state p e c r d = ground arith

differs_wanted : (w : Option Bool) (now b : Bool) → differs w now ≡ some b → w ≡ some b
differs_wanted none now b h = ground arith
differs_wanted (some true) true b h = ground arith
differs_wanted (some true) false b h = ground arith
differs_wanted (some false) true b h = ground arith
differs_wanted (some false) false b h = ground arith

differs_flips : (w : Option Bool) (now b : Bool) → differs w now ≡ some b → now ≡ not b
differs_flips none now b h = ground arith
differs_flips (some true) true b h = ground arith
differs_flips (some true) false b h = ground arith
differs_flips (some false) true b h = ground arith
differs_flips (some false) false b h = ground arith

pub change_respects :
    (p : Planner) (e : RegistryEntry) (b : Bool)
    → change p e ≡ some b
    → (wanted p e ≡ some b)
      × (is_enabled e ≡ not b)
      × (member e.entity_id p.request.exclude_entities ≡ false)
      × ((p.request.preserve_user_customized ≡ false) ⊎ (by_user e.disabled_by ≡ false))
unfolding change
change_respects p e b h =
    let q = differs_flips (wanted p e) (is_enabled e) b in
    let k = differs_wanted (wanted p e) (is_enabled e) b in ground (arith, q, k)

-- A disconnected coordinator plans nothing, whatever is asked.
pub disconnected_plans_nothing :
    (p : Planner) (es : List RegistryEntry) (q : Plan) → reset_entities false p es ≢ reports q
unfolding reset_entities
disconnected_plans_nothing p es q = ground arith
