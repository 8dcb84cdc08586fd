-- ===== src/Diagnostics/Payload.antt =====
-- `_summarize_apn`, `_sanitize_sms` and `_sanitize_payload` (custom_components/zte_router_5g/diagnostics.py).
use Prim.Native.String.{count as len, ◌++◌ as append}
use ha_zte_router_5g_monitor.Prelude.{
  ℕ, zero, suc, ◌≡◌, refl, Bool, true, false, ◌||◌, not, none, some, List, [], ◌∷◌, String, str_eq,
  starts_with, count_if, length, if◌then◌else◌,
}
use ha_zte_router_5g_monitor.Prelude.Names.{member}
use ha_zte_router_5g_monitor.Prelude.Dict.{Dict}
use ha_zte_router_5g_monitor.Value.{
  Value, text, null, Payload, read, truthy, str_of, strip, decimal,
}
use ha_zte_router_5g_monitor.Diagnostics.Tokens.{Tokenizer, token, note, Patterns, sweep}

-- An item of `coordinator.data`: a value, or the dict of a message.
pub data Item : Type 0 where
  plain : Value → Item
  message : Payload → Item

-- `TO_REDACT` and `CARRIER_KEYS`.
unfoldable pub to_redact : List String
to_redact =
    "password" ∷ "username" ∷ "imei" ∷ "sim_imsi" ∷ "sim_iccid" ∷ "imsi" ∷ "iccid" ∷ "msisdn" ∷ []

unfoldable pub carrier_keys : List String
carrier_keys =
    "mdm_mcc" ∷ "mdm_mnc" ∷ "rmcc" ∷ "rmnc" ∷ "network_provider" ∷ "wan_apn" ∷ "strFullName"
    ∷ "strShortName" ∷ "wan_apn_ui" ∷ []

-- `IP_KEYS` and `CELL_KEYS`, without the generated spellings.
unfoldable pub ip_keys : List String
ip_keys = "wan_ipaddr" ∷ "lan_ipaddr" ∷ "ipv6_wan_ipaddr" ∷ []

unfoldable pub cell_keys : List String
cell_keys =
    "cell_id" ∷ "enodeb_id" ∷ "lte_pci" ∷ "nr5g_pci" ∷ "Z5g_CELL_ID" ∷ "network_cell_id"
    ∷ "network_Z_PCI" ∷ "network_Z5g_PCI" ∷ "network_Z5g_CELL_ID" ∷ "ngbr_cell_info" ∷ []

-- `REDACTED`.
abbrev pub redacted : String
redacted = "**REDACTED**"

-- `text.split("($)")`; `skip` is what is left of a separator.
to_first : String → List String → List String
to_first c [] = c ∷ []
to_first c (s ∷ ss) = append c s ∷ ss

split_from : ℕ → String → List String
unfolding to_first
split_from skip String.[] = "" ∷ []
split_from (suc skip) (String.◌∷◌ c s) = split_from skip s
split_from zero (String.◌∷◌ c s) = elim (starts_with (String.◌∷◌ c s) "($)") [
  | true ↦ "" ∷ split_from 2 s
  | false ↦ to_first (String.◌∷◌ c String.[]) (split_from zero s)
]

unfoldable pub split_profile : String → List String
unfolding split_from
split_profile s = split_from 0 s

split_test : split_profile "home($)open.net($)" ≡ "home" ∷ "open.net" ∷ "" ∷ []
unfolding split_profile
split_test = refl

-- `_summarize_apn`.
unfoldable pub summarize_apn : Patterns → String → String
summarize_apn p value =
    let fields = split_profile value in
    let populated = count_if (λ f. not (str_eq (strip f) "")) fields in
    let pdp_type : String = elim (p.pdp value) [ none ↦ "unknown" | some t ↦ t ] in
    append "<apn profile: " (
      append (decimal (length fields)) (
        append " fields, "
          (append (decimal populated) (append " set, pdp=" (append pdp_type ">")))))

-- `SMS_TEXT_KEYS` and `SMS_NUMBER_KEYS`.
unfoldable pub is_body : String → Bool
is_body key = str_eq key "content" || str_eq key "content_decoded"

unfoldable pub is_number : String → Bool
is_number key = str_eq key "number" || str_eq key "number_decoded"

-- `len(value) if isinstance(value, str) else 0`.
abbrev pub chars : Value → ℕ
chars (text s) = len s
chars _ = 0

abbrev pub summarize_body : String → Value → String
summarize_body key value =
    append "<" (append key (append ": " (append (decimal (chars value)) " chars>")))

-- The number of the sender, decoded or not.
abbrev pub sender_of : Payload → Value
sender_of block =
    if truthy (read block "number_decoded")
    then read block "number_decoded"
    else read block "number"

-- `key in TO_REDACT or key in CARRIER_KEYS`.
unfoldable pub is_redacted : String → Bool
is_redacted key = member key to_redact || member key carrier_keys

module _ (p : Patterns) where
  unfoldable pub sweep_value : Value → Tokenizer → Value × Tokenizer
  sweep_value (text s) t = let (s', t') = sweep p s t in (text s', t')
  sweep_value v t = (v, t)

  -- One entry of a message, with the token of its sender.
  unfoldable pub sanitize_entry : String → String → Value → Tokenizer → Value × Tokenizer
  sanitize_entry sender key value t =
      if is_body key
      then (text (summarize_body key value), t)
      else if is_number key
      then (if truthy value then text sender else text "", t)
      else sweep_value value t

  unfoldable pub sanitize_entries : String → Payload → Tokenizer → Payload × Tokenizer
  sanitize_entries sender [] t = ([], t)
  sanitize_entries sender ((key, value) ∷ block) t =
      let (value', t') = sanitize_entry sender key value t in
      let (block', t'') = sanitize_entries sender block t' in ((key, value') ∷ block', t'')

  -- `_sanitize_sms`, by its sender.
  unfoldable pub sanitize_from : Value → Payload → Tokenizer → Payload × Tokenizer
  sanitize_from sender block t =
      let (name, t') = token "phone" (str_of sender) t in
      if truthy sender then sanitize_entries name block t' else sanitize_entries "" block t

  unfoldable pub sanitize_sms : Payload → Tokenizer → Payload × Tokenizer
  sanitize_sms block t = sanitize_from (sender_of block) block t

  -- A value under a key that is redacted.
  unfoldable pub redact : Item → Tokenizer → Item × Tokenizer
  redact (message block) t = (plain (text redacted), t)
  redact (plain (text s)) t =
      if str_eq s "" then (plain (text s), t) else (plain (text redacted), note s t)
  redact (plain null) t = (plain null, t)
  redact (plain v) t = (plain (text redacted), t)

  module _ (widened : List String) where
    -- A text under a key that is not redacted; `widened` holds the generated spellings of `CELL_KEYS`.
    unfoldable pub sanitize_text : String → String → Tokenizer → String × Tokenizer
    sanitize_text key s t =
        if str_eq s ""
        then (s, t)
        else if member key ip_keys
        then token "ip" s t
        else if member key cell_keys || member key widened
        then token "cell" s t
        else if starts_with key "APN_config"
        then (summarize_apn p s, t)
        else sweep p s t

    unfoldable pub sanitize_item : String → Item → Tokenizer → Item × Tokenizer
    sanitize_item key (message block) t =
        let (block', t') = sanitize_sms block t in
        if str_eq key "last_sms" then (message block', t') else (message block, t)
    sanitize_item key (plain (text s)) t =
        let (s', t') = sanitize_text key s t in (plain (text s'), t')
    sanitize_item key (plain v) t = (plain v, t)

    unfoldable pub publish_item : String → Item → Tokenizer → Item × Tokenizer
    publish_item key item t = if is_redacted key then redact item t else sanitize_item key item t

    -- `_sanitize_payload`.
    unfoldable pub sanitize_payload : Dict Item → Tokenizer → Dict Item × Tokenizer
    sanitize_payload [] t = ([], t)
    sanitize_payload ((key, item) ∷ d) t =
        let (item', t') = publish_item key item t in
        let (d', t'') = sanitize_payload d t' in ((key, item') ∷ d', t'')
