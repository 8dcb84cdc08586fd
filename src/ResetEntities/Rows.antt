-- ===== src/ResetEntities/Rows.antt =====
-- The rows of a plan of the bulk action (custom_components/zte_router_5g/reset_entities.py).
use ha_zte_router_5g_monitor.Prelude.{
  ◌≡◌, ◌≢◌, refl, Bool, true, false, ◌&&◌, ◌||◌, not, Option, none, some, List, [], ◌∷◌, ◌++◌,
  String, str_eq, eq_iff, subst, ap, arith, inl, inr, Bool-cases, ◌⊎◌,
}
use ha_zte_router_5g_monitor.Prelude.Names.{member}
use ha_zte_router_5g_monitor.ResetEntities.{
  RegistryEntry, Planner, Plan, wanted, change, rows, plan, is_enabled, by_user,
}
use ha_zte_router_5g_monitor.ResetEntities.Plans.{change_respects}

-- The rows to enable, or those to disable.
abbrev pub rows_to : Bool → Plan → List String
rows_to true q = q.to_enable
rows_to false q = q.to_disable

abbrev side : Bool → List String × List String → List String
side true r = r.0
side false r = r.1

abbrev changes_to : Bool → Option Bool → Bool
changes_to b none = false
changes_to true (some c) = c
changes_to false (some c) = not c

changes_to-some : (b : Bool) (c : Option Bool) → changes_to b c ≡ true → c ≡ some b
changes_to-some true none h = ground arith
changes_to-some false none h = ground arith
changes_to-some true (some true) h = refl
changes_to-some true (some false) h = ground arith
changes_to-some false (some true) h = ground arith
changes_to-some false (some false) h = refl

-- One of the entries has this id, the action wants it so, it is not so yet, and its change is allowed.
abbrev pub IsDue : Planner → Bool → String → List RegistryEntry → Type 0
IsDue p b id es =
    (before : List RegistryEntry) × (e : RegistryEntry) × (after : List RegistryEntry) × (es
      ≡ before ++ e ∷ after)
    × (e.entity_id ≡ id)
    × (wanted p e ≡ some b)
    × (is_enabled e ≡ not b)
    × (member id p.request.exclude_entities ≡ false)
    × ((p.request.preserve_user_customized ≡ false) ⊎ (by_user e.disabled_by ≡ false))

no_rows : (p : Planner) (b : Bool) (id : String) → member id (side b (rows p [])) ≢ true
unfolding rows
no_rows p true id h = ground arith
no_rows p false id h = ground arith

rows-cons :
    (p : Planner) (e : RegistryEntry) (es : List RegistryEntry) (b : Bool) (id : String)
    → member id (side b (rows p (e ∷ es)))
      ≡ (str_eq e.entity_id id && changes_to b (change p e) || member id (side b (rows p es)))
unfolding rows
rows-cons p e es true id = let c = change p e in ground arith
rows-cons p e es false id = let c = change p e in ground arith

rows-IsDue :
    (p : Planner) (es : List RegistryEntry) (b : Bool) (id : String)
    → member id (side b (rows p es)) ≡ true
    → IsDue p b id es
rows-IsDue p [] b id m = absurd (no_rows p b id m)
rows-IsDue p (e ∷ es) b id m =
    let split = rows-cons p e es b id in
    elim (Bool-cases (str_eq e.entity_id id && changes_to b (change p e))) [
      | inl y ↦
          let same : e.entity_id ≡ id = ground (arith, y, eq_iff e.entity_id id) in
          let changed = changes_to-some b (change p e) (ground (arith, y)) in
          let (w, n, x, u) = change_respects p e b changed in
          (
            [],
            e,
            es,
            refl,
            same,
            w,
            n,
            subst (λ i. member i p.request.exclude_entities ≡ false) same x,
            u,
          )
      | inr n ↦
          let (before, e', after, q, i, w, s, x, u) =
            rows-IsDue p es b id (ground (arith, m, n, split)) in
          (e ∷ before, e', after, ap (◌∷◌ e) q, i, w, s, x, u)
    ]

-- A row to disable belongs to one of the entries, which is enabled and which the action wants disabled; a
-- row to enable to one that is disabled and wanted enabled; and neither is excluded or, where the user's
-- choices are preserved, disabled by the user.
pub plan_respects :
    (p : Planner) (es : List RegistryEntry) (b : Bool) (id : String)
    → member id (rows_to b (plan p es)) ≡ true
    → IsDue p b id es
unfolding plan
plan_respects p es true id m = rows-IsDue p es true id m
plan_respects p es false id m = rows-IsDue p es false id m
