-- ===== src/Diagnostics/Disguise.antt =====
-- A payload of the router with its private values replaced by others.
use Prim.Native.String.{count as len}
use ha_zte_router_5g_monitor.Prelude.{
  ◌≡◌, false, ◌&&◌, ◌||◌, not, List, [], ◌∷◌, String, str_eq, if◌then◌else◌,
}
use ha_zte_router_5g_monitor.Prelude.Names.{member}
use ha_zte_router_5g_monitor.Prelude.Dict.{Dict}
use ha_zte_router_5g_monitor.Value.{Value, text, Payload}
use ha_zte_router_5g_monitor.Diagnostics.Payload.{
  Item, plain, message, ip_keys, cell_keys, is_body, is_redacted,
}
use ha_zte_router_5g_monitor.Diagnostics.Veil.{IsInjective}

-- Other values for the private ones: those redacted, the names of cells, and the bodies of messages.
pub record Disguise : Type 0 where
  pub hide : String → String → String
  pub rename : String → String
  pub rewrite : String → String

-- A body, under its key in a message.
unfoldable pub disguise_value : Disguise → String → Value → Value
disguise_value g key (text s) = if is_body key then text (g.rewrite s) else text s
disguise_value g key v = v

unfoldable pub disguise_block : Disguise → Payload → Payload
unfolding disguise_value
disguise_block g [] = []
disguise_block g ((key, value) ∷ block) = (key, disguise_value g key value) ∷ disguise_block g block

unfoldable pub disguise_text : Disguise → List String → String → String → String
disguise_text g widened key s =
    if str_eq s ""
    then s
    else if is_redacted key
    then g.hide key s
    else if not (member key ip_keys) && (member key cell_keys || member key widened)
    then g.rename s
    else s

unfoldable pub disguise_item : Disguise → List String → String → Item → Item
unfolding disguise_text disguise_block
disguise_item g widened key (plain (text s)) = plain (text (disguise_text g widened key s))
disguise_item g widened key (plain v) = plain v
disguise_item g widened key (message block) =
    message (if str_eq key "last_sms" then disguise_block g block else block)

unfoldable pub disguise : Disguise → List String → Dict Item → Dict Item
disguise g widened [] = []
disguise g widened ((key, item) ∷ d) =
    (key, disguise_item g widened key item) ∷ disguise g widened d

-- What the other values keep: no text becomes empty, cells that are the same or not stay so, and a body
-- keeps its length.
pub record IsFaithful (g : Disguise) : Type 0 where
  pub filled : (key s : String) → str_eq (g.hide key s) "" ≡ false
  pub named : (s : String) → str_eq (g.rename s) "" ≡ false
  pub injective : IsInjective g.rename
  pub as_long : (s : String) → len (g.rewrite s) ≡ len s
