-- ===== src/Api/Apn.antt =====
-- `_resolve_apn_profile` (custom_components/zte_router_5g/api.py): the stored profile that a switch to the
-- manual mode selects. `fold` is `text.strip().lower()`.
pub mod Chosen
use Prim.Native.String.{◌++◌ as append}
use ha_zte_router_5g_monitor.Prelude.{
  ℕ, zero, suc, ◌<◌, ◌==◌, ltb, any, all, ◌≡◌, refl, subst, Bool, true, false, ◌&&◌, ◌||◌, ◌⊎◌, inl,
  inr, not, Option, none, some, List, [], ◌∷◌, String, str_eq, arith, Bool-cases, Option-cases,
  if◌then◌else◌,
}
use ha_zte_router_5g_monitor.Prelude.Dict.{Dict, get, put, get-put}
use ha_zte_router_5g_monitor.Value.{Payload, read, truthy, str_of, strip, decimal}
use ha_zte_router_5g_monitor.Diagnostics.Payload.{split_profile}

-- A selection: the slot as a text, and the PDP type.
abbrev pub Selection : Type 0
Selection = String × String

-- `parts[n] if len(parts) > n else ""`.
abbrev pub part : ℕ → List String → String
part n [] = ""
part zero (s ∷ ss) = s
part (suc n) (s ∷ ss) = part n ss

-- A stored profile: its APN and what selects it.
pub record Stored : Type 0 where
  pub apn : String
  pub selection : Selection

-- The profile of a slot, where it has one.
unfoldable pub stored_at : Payload → ℕ → Option Stored
stored_at current slot =
    let raw = read current (append "APN_config" (decimal slot)) in
    let parts = split_profile (str_of raw) in
    let pdp = part 7 parts in
    if truthy raw
    then some (record {
      apn = part 1 parts;
      selection = (decimal slot, if str_eq pdp "" then "IP" else pdp);
    })
    else none

-- `APN_PROFILE_SLOTS` slots.
abbrev pub slots : List ℕ
slots = 0 ∷ 1 ∷ 2 ∷ 3 ∷ 4 ∷ 5 ∷ 6 ∷ 7 ∷ 8 ∷ 9 ∷ []

module _ (fold : String → String) where
  -- One slot of the loop: `by_index` and `profiles` with it.
  unfoldable pub add_index : Option Stored → Dict Selection → Dict Selection
  add_index none d = d
  add_index (some p) d = put d p.selection.0 p.selection

  unfoldable pub add_profile : Option Stored → Dict Selection → Dict Selection
  add_profile none d = d
  add_profile (some p) d = if str_eq p.apn "" then d else put d (fold p.apn) p.selection

  unfoldable pub by_index : Payload → List ℕ → Dict Selection → Dict Selection
  by_index current [] d = d
  by_index current (slot ∷ rest) d = by_index current rest (add_index (stored_at current slot) d)

  unfoldable pub profiles : Payload → List ℕ → Dict Selection → Dict Selection
  profiles current [] d = d
  profiles current (slot ∷ rest) d = profiles current rest (add_profile (stored_at current slot) d)

  -- `str(current.get(key) or "")`.
  abbrev pub text_of : Payload → String → String
  text_of current key = if truthy (read current key) then str_of (read current key) else ""

  -- `_resolve_apn_profile`.
  unfoldable pub manual_selection : Payload → Option Selection
  manual_selection current =
      if str_eq (fold (text_of current "apn_mode")) "manual"
      then get (by_index current slots []) (strip (text_of current "apn_index"))
      else none

  unfoldable pub active_selection : Payload → Option Selection
  active_selection current =
      let active = fold (text_of current "wan_apn") in
      if str_eq active "" then none else get (profiles current slots []) active

  unfoldable pub resolve_apn_profile : Payload → Option Selection
  resolve_apn_profile current = elim (active_selection current) [
    | some selection ↦ some selection
    | none ↦ manual_selection current
  ]
