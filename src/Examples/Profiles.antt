-- ===== src/Examples/Profiles.antt =====
-- The profile that a switch of the APN mode selects, at a concrete input.
use ha_zte_router_5g_monitor.Prelude.{
  ◌≡◌, ◌⊎◌, refl, [], ◌∷◌, String, str_eq, true, ◌||◌, not, arith,
}
use ha_zte_router_5g_monitor.Value.{Payload, text, truthy, str_of, strip, decimal}
use ha_zte_router_5g_monitor.Prelude.Dict.{put}
use ha_zte_router_5g_monitor.Diagnostics.Payload.{split_profile}
use ha_zte_router_5g_monitor.Api.Apn.{
  stored_at, add_profile, profiles, active_selection, resolve_apn_profile,
}
use ha_zte_router_5g_monitor.Api.Apn.Chosen.{
  stores, IsStored, has_apn, has_index, resolve_apn_profile_lem,
}

abbrev folded : String → String
folded s = s

-- A router in the automatic mode, whose index is a leftover.
abbrev automatic : Payload
automatic =
    ("APN_config5", text "open($)open.internet.public($)manual($)($)($)($)($)IP")
    ∷ ("APN_config6", text "three($)3fwa.ie($)manual($)($)($)($)($)IPv4v6")
    ∷ ("apn_mode", text "auto")
    ∷ ("apn_index", text "5")
    ∷ ("wan_apn", text "3fwa.ie")
    ∷ []

resolve_apn_profile_lem_example :
    IsStored folded automatic (has_apn folded "3fwa.ie") ("6", "IPv4v6")
    ⊎ ((str_eq "3fwa.ie" "" || not (stores folded automatic 9 (has_apn folded "3fwa.ie")) ≡ true)
        × (str_eq "auto" "manual" ≡ true)
        × IsStored folded automatic (has_index folded "5") ("6", "IPv4v6"))
unfolding resolve_apn_profile active_selection profiles add_profile stored_at split_profile truthy
    str_of strip decimal put
resolve_apn_profile_lem_example =
    resolve_apn_profile_lem folded automatic ("6", "IPv4v6") 9 refl (omega arith)
