-- ===== src/Examples/Downloads.antt =====
-- A download at a concrete input.
use Prim.Native.String.{count as len}
use Prim.Native.String.count
use ha_zte_router_5g_monitor.Prelude.{
  suc, ◌≡◌, refl, ◌∙◌, sym, false, none, [], ◌∷◌, String, str_eq, ap, eq_iff, Bool-cases, inl, inr,
}
use ha_zte_router_5g_monitor.Prelude.Dict.{Dict}
use ha_zte_router_5g_monitor.Value.{text, int}
use ha_zte_router_5g_monitor.Prelude.Int.{pos}
use ha_zte_router_5g_monitor.Diagnostics.Tokens.{Patterns, between, new_tokenizer}
use ha_zte_router_5g_monitor.Diagnostics.Payload.{Item, plain, message, sanitize_payload}
use ha_zte_router_5g_monitor.Diagnostics.Disguise.{Disguise, disguise, IsFaithful}
use ha_zte_router_5g_monitor.Diagnostics.Private.{private_is_hidden}

-- Expressions that match nothing.
abbrev plain_patterns : Patterns
plain_patterns = record {
  national = λ s. false;
  ip = λ s. between s ∷ [];
  mac = λ s. between s ∷ [];
  international = λ s. between s ∷ [];
  digits = λ s. between s ∷ [];
  pdp = λ s. none;
}

covered : String → String
covered String.[] = String.[]
covered (String.◌∷◌ c s) = String.◌∷◌ "x" (covered s)

len-covered : (s : String) → len (covered s) ≡ len s
unfolding covered
len-covered String.[] = refl
len-covered (String.◌∷◌ c s) =
    count.cons "x" (covered s) ∙ ap (λ n. suc n) (len-covered s) ∙ sym (count.cons c s)

starred : (s : String) → str_eq (String.◌∷◌ "x" s) "" ≡ false
starred s = elim (Bool-cases (str_eq (String.◌∷◌ "x" s) "")) [
  | inl e ↦ let q = (eq_iff (String.◌∷◌ "x" s) "").0 e in cc
  | inr e ↦ e
]

-- Another subscriber, in another cell, with another message.
abbrev another : Disguise
another = record { hide = λ key s. "another"; rename = λ s. String.◌∷◌ "x" s; rewrite = covered }

another-IsFaithful : IsFaithful another
another-IsFaithful = record {
  filled = λ key s. refl;
  named = starred;
  injective = λ a b e. cc;
  as_long = len-covered;
}

abbrev downloaded : Dict Item
downloaded =
    ("imei", plain (text "490154203237518"))
    ∷ ("cell_id", plain (text "1A2B"))
    ∷ ("signalbar", plain (int (pos 4)))
    ∷ ("last_sms", message (("content", text "hello") ∷ ("number", text "0851234567") ∷ []))
    ∷ []

private_is_hidden_example :
    (sanitize_payload plain_patterns [] (disguise another [] downloaded) new_tokenizer).0
    ≡ (sanitize_payload plain_patterns [] downloaded new_tokenizer).0
private_is_hidden_example =
    private_is_hidden plain_patterns another another-IsFaithful [] downloaded
