-- ===== src/Diagnostics/Messages.antt =====
-- `_sweep` and `_sanitize_sms` (custom_components/zte_router_5g/diagnostics.py) where the private values are
-- replaced by others.
use Prim.Native.String.{◌++◌ as append}
use ha_zte_router_5g_monitor.Prelude.{
  ◌≡◌, refl, sym, subst, ap, ap₂, Bool, true, false, List, [], ◌∷◌, String, str_eq, eq_iff, arith,
  Bool-cases, inl, inr, if◌then◌else◌,
}
use ha_zte_router_5g_monitor.Value.{
  Value, null, flag, int, text, opaque, Payload, read, truthy, str_of, decimal, strip,
}
use ha_zte_router_5g_monitor.Diagnostics.Tokens.{
  Tokenizer, token, Piece, Patterns, substitute, sweep,
}
use ha_zte_router_5g_monitor.Diagnostics.Payload.{
  is_body, is_number, sanitize_sms, sanitize_from, sanitize_entries, sanitize_entry, sweep_value,
  sender_of, chars, summarize_body,
}
use ha_zte_router_5g_monitor.Diagnostics.Veil.{Alike, Agree, token-Alike, substitute-Alike}
use ha_zte_router_5g_monitor.Diagnostics.Disguise.{
  Disguise, disguise_value, disguise_block, IsFaithful,
}

module _ (p : Patterns) (g : Disguise) (faithful : IsFaithful g) where
  abbrev pub Same {ℓ} : {A : Type ℓ} → A × Tokenizer → A × Tokenizer → Type ℓ
  Same r r' = Agree g.rename faithful.injective r r'

  pass-Alike :
      (prefix : String) (pieces : String → List Piece) (x x' : String) (t t' : Tokenizer)
      → str_eq prefix "cell" ≡ false
      → x' ≡ x
      → Alike g.rename t t'
      → Same (substitute prefix (pieces x) t) (substitute prefix (pieces x') t')
  pass-Alike prefix pieces x x' t t' other e a =
      subst (λ y. Same (substitute prefix (pieces x) t) (substitute prefix (pieces y) t')) (sym e)
        (substitute-Alike g.rename faithful.injective prefix (pieces x) t t' other a)

  pub branch-Same {ℓ} :
      {A : Type ℓ} (b : Bool) (x y x' y' : A × Tokenizer)
      → Same x x'
      → Same y y'
      → Same (if b then x else y) (if b then x' else y')
  branch-Same true x y x' y' h k = h
  branch-Same false x y x' y' h k = k

  at-true {ℓ} :
      {A : Type ℓ} (b : Bool) (x y x' y' : A × Tokenizer)
      → b ≡ true
      → Same x x'
      → Same (if b then x else y) (if b then x' else y')
  at-true true x y x' y' e h = h
  at-true false x y x' y' e h = cc

  at-false {ℓ} :
      {A : Type ℓ} (b : Bool) (x y x' y' : A × Tokenizer)
      → b ≡ false
      → Same y y'
      → Same (if b then x else y) (if b then x' else y')
  at-false true x y x' y' e h = cc
  at-false false x y x' y' e h = h

  pub sweep-Alike :
      (s : String) (t t' : Tokenizer) → Alike g.rename t t' → Same (sweep p s t) (sweep p s t')
  unfolding sweep
  sweep-Alike s t t' a0 =
      let (a, t1) = substitute "ip" (p.ip s) t in
      let (a', t1') = substitute "ip" (p.ip s) t' in
      let (e1, a1) = pass-Alike "ip" p.ip s s t t' refl refl a0 in
      let (b, t2) = substitute "mac" (p.mac a) t1 in
      let (b', t2') = substitute "mac" (p.mac a') t1' in
      let (e2, a2) = pass-Alike "mac" p.mac a a' t1 t1' refl e1 a1 in
      let (c, t3) = substitute "phone" (p.international b) t2 in
      let (c', t3') = substitute "phone" (p.international b') t2' in
      let (e3, a3) = pass-Alike "phone" p.international b b' t2 t2' refl e2 a2 in
      branch-Same (p.national s) _ _ _ _
        (token-Alike g.rename faithful.injective "phone" (strip s) t t' refl a0)
        (pass-Alike "id" p.digits c c' t3 t3' refl e3 a3)

  sweep_value-Alike :
      (v : Value) (t t' : Tokenizer)
      → Alike g.rename t t'
      → Same (sweep_value p v t) (sweep_value p v t')
  unfolding sweep_value
  sweep_value-Alike (text s) t t' a = let (e, b) = sweep-Alike s t t' a in (ap (λ x. text x) e, b)
  sweep_value-Alike null t t' a = (refl, a)
  sweep_value-Alike (flag b) t t' a = (refl, a)
  sweep_value-Alike (int z) t t' a = (refl, a)
  sweep_value-Alike (opaque b s) t t' a = (refl, a)

  chars-disguise : (key : String) (v : Value) → chars (disguise_value g key v) ≡ chars v
  unfolding disguise_value
  chars-disguise key (text s) = ground (arith, faithful.as_long s)
  chars-disguise key null = refl
  chars-disguise key (flag b) = refl
  chars-disguise key (int z) = refl
  chars-disguise key (opaque b s) = refl

  disguise-other : (key : String) (v : Value) → is_body key ≡ false → disguise_value g key v ≡ v
  unfolding disguise_value
  disguise-other key (text s) h = ground (arith, h)
  disguise-other key null h = refl
  disguise-other key (flag b) h = refl
  disguise-other key (int z) h = refl
  disguise-other key (opaque b s) h = refl

  read-disguise :
      (k : String) (block : Payload)
      → is_body k ≡ false
      → read (disguise_block g block) k ≡ read block k
  unfolding disguise_block
  read-disguise k [] h = refl
  read-disguise k ((key, v) ∷ block) h =
      ground (arith, read-disguise k block h, eq_iff key k, disguise-other key v)

  sanitize_entry-Alike :
      (sender key : String) (v : Value) (t t' : Tokenizer)
      → Alike g.rename t t'
      → Same
          (sanitize_entry p sender key v t)
          (sanitize_entry p sender key (disguise_value g key v) t')
  unfolding sanitize_entry
  sanitize_entry-Alike sender key v t t' a =
      let other = λ (w : Value) (u : Tokenizer).
        if is_number key
        then (if truthy w then text sender else text "", u)
        else sweep_value p w u in
      elim (Bool-cases (is_body key)) [
        | inl e ↦ at-true (is_body key) _ (other v t) _ (other (disguise_value g key v) t') e (
          ap (λ n. text (append "<" (append key (append ": " (append (decimal n) " chars>")))))
              (chars-disguise key v),
          a,
        )
        | inr e ↦
            at-false (is_body key) (text (summarize_body key v), t) _
              (text (summarize_body key (disguise_value g key v)), t') _ e
              (subst (λ w. Same (other v t) (other w t')) (sym (disguise-other key v e))
                (branch-Same (is_number key) _ _ _ _ (refl, a) (sweep_value-Alike v t t' a)))
      ]

  sanitize_entries-Alike :
      (sender : String) (block : Payload) (t t' : Tokenizer)
      → Alike g.rename t t'
      → Same
          (sanitize_entries p sender block t)
          (sanitize_entries p sender (disguise_block g block) t')
  unfolding sanitize_entries disguise_block
  sanitize_entries-Alike sender [] t t' a = (refl, a)
  sanitize_entries-Alike sender ((key, v) ∷ block) t t' a =
      let (e, b) = sanitize_entry-Alike sender key v t t' a in
      let (f, c) =
        sanitize_entries-Alike sender block (sanitize_entry p sender key v t).1
          (sanitize_entry p sender key (disguise_value g key v) t').1 b in
      (ap₂ (λ x y. (key, x) ∷ y) e f, c)

  sender-disguise : (block : Payload) → sender_of (disguise_block g block) ≡ sender_of block
  unfolding is_body
  sender-disguise block =
      ground (arith, read-disguise "number_decoded" block refl, read-disguise "number" block refl)

  sanitize_from-Alike :
      (sender : Value) (block : Payload) (t t' : Tokenizer)
      → Alike g.rename t t'
      → Same (sanitize_from p sender block t) (sanitize_from p sender (disguise_block g block) t')
  unfolding sanitize_from
  sanitize_from-Alike sender block t t' a =
      let (name, u) = token "phone" (str_of sender) t in
      let u' = (token "phone" (str_of sender) t').1 in
      let (e, b) = token-Alike g.rename faithful.injective "phone" (str_of sender) t t' refl a in
      branch-Same (truthy sender) _ _ _ _
        (subst
          (λ n.
            Same (sanitize_entries p name block u)
              (sanitize_entries p n (disguise_block g block) u'))
          (sym e) (sanitize_entries-Alike name block u u' b))
        (sanitize_entries-Alike "" block t t' a)

  pub sanitize_sms-Alike :
      (block : Payload) (t t' : Tokenizer)
      → Alike g.rename t t'
      → Same (sanitize_sms p block t) (sanitize_sms p (disguise_block g block) t')
  unfolding sanitize_sms
  sanitize_sms-Alike block t t' a =
      subst
        (λ s.
          Same (sanitize_from p (sender_of block) block t)
            (sanitize_from p s (disguise_block g block) t'))
        (sym (sender-disguise block)) (sanitize_from-Alike (sender_of block) block t t' a)
