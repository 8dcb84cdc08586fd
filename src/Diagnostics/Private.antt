-- ===== src/Diagnostics/Private.antt =====
-- `_sanitize_payload` (custom_components/zte_router_5g/diagnostics.py) where the private values are replaced by
-- others.
use ha_zte_router_5g_monitor.Prelude.{
  ◌≡◌, refl, ap, ap₂, Bool, true, false, ◌&&◌, ◌||◌, not, List, [], ◌∷◌, String, str_eq, arith,
  Bool-cases, inl, inr, starts_with,
}
use ha_zte_router_5g_monitor.Prelude.Names.{member}
use ha_zte_router_5g_monitor.Prelude.Dict.{Dict}
use ha_zte_router_5g_monitor.Value.{null, flag, int, text, opaque}
use ha_zte_router_5g_monitor.Diagnostics.Tokens.{Tokenizer, new_tokenizer, find, note, Patterns}
use ha_zte_router_5g_monitor.Diagnostics.Payload.{
  Item, plain, message, ip_keys, cell_keys, redact, is_redacted, sanitize_text, sanitize_item,
  publish_item, sanitize_payload,
}
use ha_zte_router_5g_monitor.Diagnostics.Veil.{Alike, token-Alike, token_cell-Alike}
use ha_zte_router_5g_monitor.Diagnostics.Disguise.{
  Disguise, disguise_text, disguise_item, disguise, IsFaithful,
}
use ha_zte_router_5g_monitor.Diagnostics.Messages.{
  Same, branch-Same, sweep-Alike, sanitize_sms-Alike,
}

module _ (p : Patterns) (g : Disguise) (faithful : IsFaithful g) where
  note-Alike :
      (s s' : String) (t t' : Tokenizer)
      → Alike g.rename t t'
      → Alike g.rename (note s t) (note s' t')
  note-Alike s s' t t' a = record { counts = a.counts; same = a.same; cells = a.cells }

  new_tokenizer-Alike : Alike g.rename new_tokenizer new_tokenizer
  unfolding find
  new_tokenizer-Alike = record { counts = refl; same = λ q v h. refl; cells = λ v. refl }

  module _ (widened : List String) where
    abbrev is_cell : String → Bool
    is_cell key = not (member key ip_keys) && (member key cell_keys || member key widened)

    disguise_text-empty : (key s : String) → str_eq s "" ≡ true → disguise_text g widened key s ≡ s
    unfolding disguise_text
    disguise_text-empty key s e = rw e

    disguise_text-hidden :
        (key s : String)
        → str_eq s "" ≡ false
        → is_redacted key ≡ true
        → disguise_text g widened key s ≡ g.hide key s
    unfolding disguise_text
    disguise_text-hidden key s e h = rw (e, h)

    disguise_text-cell :
        (key s : String)
        → str_eq s "" ≡ false
        → is_redacted key ≡ false
        → is_cell key ≡ true
        → disguise_text g widened key s ≡ g.rename s
    unfolding disguise_text
    disguise_text-cell key s e h c = rw (e, h, c)

    disguise_text-kept :
        (key s : String)
        → is_redacted key ≡ false
        → is_cell key ≡ false
        → disguise_text g widened key s ≡ s
    unfolding disguise_text
    disguise_text-kept key s h c = ground (arith, h, c)

    redact-Alike :
        (key : String) (item : Item) (t t' : Tokenizer)
        → is_redacted key ≡ true
        → Alike g.rename t t'
        → Same p g faithful (redact p item t) (redact p (disguise_item g widened key item) t')
    unfolding redact disguise_item
    redact-Alike key (message block) t t' h a = (refl, a)
    redact-Alike key (plain (text s)) t t' h a = elim (Bool-cases (str_eq s "")) [
      | inl e ↦ rw (disguise_text-empty key s e, e) (refl, a)
      | inr e ↦
          rw (disguise_text-hidden key s e h, faithful.filled key s, e)
            (refl, note-Alike s (g.hide key s) t t' a)
    ]
    redact-Alike key (plain null) t t' h a = (refl, a)
    redact-Alike key (plain (flag b)) t t' h a = (refl, a)
    redact-Alike key (plain (int z)) t t' h a = (refl, a)
    redact-Alike key (plain (opaque b s)) t t' h a = (refl, a)

    -- A text that is not disguised.
    kept_text-Alike :
        (key s : String) (t t' : Tokenizer)
        → is_cell key ≡ false
        → Alike g.rename t t'
        → Same p g faithful (sanitize_text p widened key s t) (sanitize_text p widened key s t')
    unfolding sanitize_text
    kept_text-Alike key s t t' c a = elim (Bool-cases (member key ip_keys)) [
      | inl i ↦ rw i (
          branch-Same p g faithful (str_eq s "") _ _ _ _ (refl, a)
            (token-Alike g.rename faithful.injective "ip" s t t' refl a))
      | inr i ↦
          let other : (member key cell_keys || member key widened) ≡ false = ground (arith, i, c) in
          rw (i, other)
            (branch-Same p g faithful (str_eq s "") _ _ _ _ (refl, a)
              (branch-Same p g faithful (starts_with key "APN_config") _ _ _ _ (refl, a)
                (sweep-Alike p g faithful s t t' a)))
    ]

    empty_text-Alike :
        (key s : String) (t t' : Tokenizer)
        → str_eq s "" ≡ true
        → Alike g.rename t t'
        → Same p g faithful (sanitize_text p widened key s t) (sanitize_text p widened key s t')
    unfolding sanitize_text
    empty_text-Alike key s t t' e a = rw e (refl, a)

    cell_text-Alike :
        (key s : String) (t t' : Tokenizer)
        → str_eq s "" ≡ false
        → is_cell key ≡ true
        → Alike g.rename t t'
        → Same p g faithful
            (sanitize_text p widened key s t)
            (sanitize_text p widened key (g.rename s) t')
    unfolding sanitize_text
    cell_text-Alike key s t t' e c a =
        let not_ip : member key ip_keys ≡ false = ground (arith, c) in
        let cell : (member key cell_keys || member key widened) ≡ true = ground (arith, c) in
        rw (e, faithful.named s, not_ip, cell)
          (token_cell-Alike g.rename faithful.injective s t t' a)

    sanitize_text-Alike :
        (key s : String) (t t' : Tokenizer)
        → is_redacted key ≡ false
        → Alike g.rename t t'
        → Same p g faithful
            (sanitize_text p widened key s t)
            (sanitize_text p widened key (disguise_text g widened key s) t')
    sanitize_text-Alike key s t t' h a = elim (Bool-cases (is_cell key)) [
      | inl c ↦ elim (Bool-cases (str_eq s "")) [
        | inl e ↦ rw (disguise_text-empty key s e) (empty_text-Alike key s t t' e a)
        | inr e ↦ rw (disguise_text-cell key s e h c) (cell_text-Alike key s t t' e c a)
      ]
      | inr c ↦ rw (disguise_text-kept key s h c) (kept_text-Alike key s t t' c a)
    ]

    sanitize_item-Alike :
        (key : String) (item : Item) (t t' : Tokenizer)
        → is_redacted key ≡ false
        → Alike g.rename t t'
        → Same p g faithful
            (sanitize_item p widened key item t)
            (sanitize_item p widened key (disguise_item g widened key item) t')
    unfolding sanitize_item disguise_item
    sanitize_item-Alike key (message block) t t' h a = elim (Bool-cases (str_eq key "last_sms")) [
      | inl e ↦
          let (f, b) = sanitize_sms-Alike p g faithful block t t' a in
          rw e (ap (λ x. message x) f, b)
      | inr e ↦ rw e (refl, a)
    ]
    sanitize_item-Alike key (plain (text s)) t t' h a =
        let (e, b) = sanitize_text-Alike key s t t' h a in (ap (λ x. plain (text x)) e, b)
    sanitize_item-Alike key (plain null) t t' h a = (refl, a)
    sanitize_item-Alike key (plain (flag b)) t t' h a = (refl, a)
    sanitize_item-Alike key (plain (int z)) t t' h a = (refl, a)
    sanitize_item-Alike key (plain (opaque b s)) t t' h a = (refl, a)

    publish_item-Alike :
        (key : String) (item : Item) (t t' : Tokenizer)
        → Alike g.rename t t'
        → Same p g faithful
            (publish_item p widened key item t)
            (publish_item p widened key (disguise_item g widened key item) t')
    unfolding publish_item
    publish_item-Alike key item t t' a = elim (Bool-cases (is_redacted key)) [
      | inl h ↦ rw h (redact-Alike key item t t' h a)
      | inr h ↦ rw h (sanitize_item-Alike key item t t' h a)
    ]

    sanitize_payload-Alike :
        (d : Dict Item) (t t' : Tokenizer)
        → Alike g.rename t t'
        → Same p g faithful
            (sanitize_payload p widened d t)
            (sanitize_payload p widened (disguise g widened d) t')
    unfolding sanitize_payload disguise
    sanitize_payload-Alike [] t t' a = (refl, a)
    sanitize_payload-Alike ((key, item) ∷ d) t t' a =
        let (e, b) = publish_item-Alike key item t t' a in
        let (f, c) =
          sanitize_payload-Alike d (publish_item p widened key item t).1
            (publish_item p widened key (disguise_item g widened key item) t').1 b in
        (ap₂ (λ x y. (key, x) ∷ y) e f, c)

    -- A download does not depend on what is private: whatever other texts, none of them empty, stand in the
    -- values that are redacted, whatever other names the cells have, different ones for different cells
    -- and none of them empty, and whatever other text of the same length is the body of the last message,
    -- the same payload is published.
    pub private_is_hidden :
        (d : Dict Item)
        → (sanitize_payload p widened (disguise g widened d) new_tokenizer).0
          ≡ (sanitize_payload p widened d new_tokenizer).0
    private_is_hidden d =
        (sanitize_payload-Alike d new_tokenizer new_tokenizer new_tokenizer-Alike).0
