-- ===== src/Api/Discovery/Silence.antt =====
-- A name that `probe_names` (custom_components/zte_router_5g/api.py) reports nothing of.
use mathlib.Core.List.{append-nil}
use ha_zte_router_5g_monitor.Prelude.{
  ℕ, zero, suc, ◌≡◌, refl, ◌∙◌, ap, Bool, true, ◌||◌, Option, none, some, List, [], ◌∷◌, ◌++◌,
  String, arith, Option-cases, inl, inr, length, take, drop,
}
use ha_zte_router_5g_monitor.Prelude.Names.{member, member-append}
use ha_zte_router_5g_monitor.Api.Batch.Chunks.{concat}
use ha_zte_router_5g_monitor.Api.Discovery.{Device, has}
use ha_zte_router_5g_monitor.Api.Discovery.Notes.{
  is_exhaustion, is_out_of_budget, any-append, reprobe_notes, pass_notes,
}
use ha_zte_router_5g_monitor.Api.Discovery.Singly.{Search, reprobe_singly}
use ha_zte_router_5g_monitor.Api.Discovery.Pass.{
  Progress, Ended, whole, cut, aborted, Probed, new_progress, whole_result, conclude, probe_names,
  chunks_on, chunks_of, run_chunks,
}
use ha_zte_router_5g_monitor.Api.Discovery.Exchange.{Exchange, logged, is_plain, seen}
use ha_zte_router_5g_monitor.Api.Discovery.Accounts.{
  has-found_update, is_known_end, run_chunks_knows,
}
use ha_zte_router_5g_monitor.Api.Discovery.Settled.{is_settled, reprobe_settles}

take-append-drop : (k : ℕ) (xs : List String) → take k xs ++ drop k xs ≡ xs
take-append-drop zero xs = refl
take-append-drop (suc k) [] = refl
take-append-drop (suc k) (x ∷ xs) = ap (λ ys. x ∷ ys) (take-append-drop k xs)

concat-chunks_on :
    (fuel size : ℕ) (names : List String) → concat (chunks_on fuel size names) ≡ names
unfolding chunks_on
concat-chunks_on fuel size [] = refl
concat-chunks_on zero size (name ∷ names) = append-nil (name ∷ names)
concat-chunks_on (suc fuel) size (name ∷ names) =
    ap (λ ys. take size (name ∷ names) ++ ys)
      (concat-chunks_on fuel size (drop size (name ∷ names)))
    ∙ take-append-drop size (name ∷ names)

-- The chunks are the names.
pub concat-chunks_of : (size : ℕ) (names : List String) → concat (chunks_of size names) ≡ names
unfolding chunks_of
concat-chunks_of size names = concat-chunks_on (length names) size names

module _ {ℓ} {S : Type ℓ} (device : Device S) (canaries : List String) (n : String) where
  abbrev T : Type ℓ
  T = S × List Exchange

  -- The result says something of the name, or the name is silent, or the budget ran out.
  abbrev pub is_told : Probed → T → Bool
  is_told r s =
      has r.found n
      || (member n r.refused
          || (member n r.unasked || (seen device canaries n s || is_out_of_budget r.notes)))

  abbrev pub is_told_of : Option Probed → T → Bool
  is_told_of none s = true
  is_told_of (some r) s = is_told r s

  whole_result_told :
      (p : Progress) (x : Search) (s : T)
      → has p.found n || (member n p.refused_early || is_settled device canaries n x s) ≡ true
      → is_told (whole_result p x) s ≡ true
  whole_result_told p x s h =
      let declined = p.refused_early ++ x.refused in
      let later = reprobe_notes (length p.retry) x.rounds x.unasked declined in
      ground (
        arith,
        has-found_update p.found x.found n,
        member-append n p.refused_early x.refused,
        any-append is_exhaustion (pass_notes p.counts) (x.notes ++ later),
        any-append is_exhaustion x.notes later,
      )

  conclude_told :
      (e : Ended) (s : T)
      → is_plain canaries n ≡ true
      → is_known_end device canaries n e s ≡ true
      → is_told_of
          (conclude (logged device) canaries e s).0
          (conclude (logged device) canaries e s).1
        ≡ true
  unfolding conclude
  conclude_told aborted s plain h = refl
  conclude_told (cut p rest) s plain h = ground arith
  conclude_told (whole p) s plain h =
      let (x, t) = reprobe_singly (logged device) canaries p.retry s in
      let r = reprobe_settles device canaries n p.retry s plain in
      elim (Option-cases x) [
        | inl e ↦ ground (arith, e)
        | inr (x', e) ↦ ground (arith, e, r, whole_result_told p x' t)
      ]

  pub probe_names_told :
      (size : ℕ) (names : List String) (s : T)
      → is_plain canaries n ≡ true
      → member n names || seen device canaries n s ≡ true
      → is_told_of
          (probe_names (logged device) canaries size names s).0
          (probe_names (logged device) canaries size names s).1
        ≡ true
  unfolding probe_names
  probe_names_told size names s plain h =
      let chunks = chunks_of size names in
      let (ended, t) = run_chunks (logged device) canaries chunks new_progress s in
      let in_chunks = ap (λ ns. member n ns) (concat-chunks_of size names) in
      conclude_told ended t plain
        (run_chunks_knows device canaries n chunks new_progress s plain (ground (arith, in_chunks)))
