-- ===== src/Diagnostics/Veil.antt =====
-- What a download (custom_components/zte_router_5g/diagnostics.py, `_sanitize_payload`) does not let through.
use Prim.Native.String.{◌++◌ as append}
use ha_zte_router_5g_monitor.Value.{decimal}
use ha_zte_router_5g_monitor.Prelude.{
  suc, ◌≡◌, refl, sym, subst, ap, ap₂, false, Option, none, some, List, [], ◌∷◌, String, str_eq,
  eq_iff, arith,
}
use ha_zte_router_5g_monitor.Prelude.Dict.{get_or, put}
use ha_zte_router_5g_monitor.Diagnostics.Tokens.{
  Tokenizer, find, token, new_token, given, Piece, between, found, substitute,
}

-- Two texts are the same exactly when they are after renaming.
abbrev pub IsInjective : (String → String) → Type 0
IsInjective f = (a b : String) → f a ≡ f b → a ≡ b

-- Two tokenizers that have given the same tokens, but for the names of the cells.
pub record Alike (rename : String → String) (t t' : Tokenizer) : Type 0 where
  pub counts : t'.counts ≡ t.counts
  pub same :
      (prefix v : String)
      → str_eq prefix "cell" ≡ false
      → find prefix v t'.tokens ≡ find prefix v t.tokens
  pub cells : (v : String) → find "cell" (rename v) t'.tokens ≡ find "cell" v t.tokens

module _ (rename : String → String) (injective : IsInjective rename) where
  str_eq-rename : (a b : String) → str_eq (rename a) (rename b) ≡ str_eq a b
  str_eq-rename a b =
      let same = λ (e : a ≡ b). ap rename e in
      ground (arith, eq_iff a b, eq_iff (rename a) (rename b), injective a b, same)

  -- A new token has the same name on both sides.
  new_name :
      (prefix v v' : String) (t t' : Tokenizer)
      → Alike rename t t'
      → (new_token prefix v' t').0 ≡ (new_token prefix v t).0
  new_name prefix v v' t t' a =
      ap (λ counts. append prefix (append "-" (decimal (suc (get_or counts prefix 0))))) a.counts

  other_added :
      (prefix v : String) (t t' : Tokenizer)
      → str_eq prefix "cell" ≡ false
      → Alike rename t t'
      → Alike rename (new_token prefix v t).1 (new_token prefix v t').1
  unfolding find
  other_added prefix v t t' other a =
      let name = new_name prefix v v t t' a in
      record {
        counts = ap (λ counts. put counts prefix (suc (get_or counts prefix 0))) a.counts;
        same = λ q w h. ground (arith, a.same q w h, name);
        cells = λ w. ground (arith, a.cells w);
      }

  cell_added :
      (v : String) (t t' : Tokenizer)
      → Alike rename t t'
      → Alike rename (new_token "cell" v t).1 (new_token "cell" (rename v) t').1
  unfolding find
  cell_added v t t' a =
      let name = new_name "cell" v (rename v) t t' a in
      record {
        counts = ap (λ counts. put counts "cell" (suc (get_or counts "cell" 0))) a.counts;
        same = λ q w h. ground (arith, a.same q w h, eq_iff "cell" q, eq_iff q "cell");
        cells = λ w. ground (arith, a.cells w, str_eq-rename v w, name);
      }

  -- Two runs that give the same text and leave tokenizers alike.
  abbrev pub Agree {ℓ} : {A : Type ℓ} → A × Tokenizer → A × Tokenizer → Type ℓ
  Agree r r' = (r'.0 ≡ r.0) × Alike rename r.1 r'.1

  given_other :
      (o : Option String) (prefix v : String) (t t' : Tokenizer)
      → str_eq prefix "cell" ≡ false
      → Alike rename t t'
      → Agree (given o prefix v t) (given o prefix v t')
  given_other none prefix v t t' other a =
      (new_name prefix v v t t' a, other_added prefix v t t' other a)
  given_other (some name) prefix v t t' other a = (refl, a)

  pub token-Alike :
      (prefix v : String) (t t' : Tokenizer)
      → str_eq prefix "cell" ≡ false
      → Alike rename t t'
      → Agree (token prefix v t) (token prefix v t')
  unfolding token
  token-Alike prefix v t t' other a =
      subst (λ o. Agree (token prefix v t) (given o prefix v t')) (sym (a.same prefix v other))
        (given_other (find prefix v t.tokens) prefix v t t' other a)

  given_cell :
      (o : Option String) (v : String) (t t' : Tokenizer)
      → Alike rename t t'
      → Agree (given o "cell" v t) (given o "cell" (rename v) t')
  given_cell none v t t' a = (new_name "cell" v (rename v) t t' a, cell_added v t t' a)
  given_cell (some name) v t t' a = (refl, a)

  pub token_cell-Alike :
      (v : String) (t t' : Tokenizer)
      → Alike rename t t'
      → Agree (token "cell" v t) (token "cell" (rename v) t')
  unfolding token
  token_cell-Alike v t t' a =
      subst (λ o. Agree (token "cell" v t) (given o "cell" (rename v) t')) (sym (a.cells v))
        (given_cell (find "cell" v t.tokens) v t t' a)

  pub substitute-Alike :
      (prefix : String) (ps : List Piece) (t t' : Tokenizer)
      → str_eq prefix "cell" ≡ false
      → Alike rename t t'
      → Agree (substitute prefix ps t) (substitute prefix ps t')
  unfolding substitute
  substitute-Alike prefix [] t t' other a = (refl, a)
  substitute-Alike prefix (between s ∷ ps) t t' other a =
      let (same, b) = substitute-Alike prefix ps t t' other a in (ap (λ r. append s r) same, b)
  substitute-Alike prefix (found s ∷ ps) t t' other a =
      let (name, b) = token-Alike prefix s t t' other a in
      let (same, c) =
        substitute-Alike prefix ps (token prefix s t).1 (token prefix s t').1 other b in
      (ap₂ (λ x y. append x y) name same, c)
