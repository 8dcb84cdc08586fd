-- ===== src/PollPlan/Readers/Answers.antt =====
-- What `learn_answers` adds to the answered names, and what its result tells.
use ha_zte_router_5g_monitor.Prelude.{
  ◌≤◌, String, ◌≡◌, refl, Bool, false, ◌&&◌, ◌||◌, List, [], ◌∷◌, length, arith, eq_iff, Bool-cases,
  inl, inr, ap,
}
use ha_zte_router_5g_monitor.Prelude.Names.{member, add, member-add}
use ha_zte_router_5g_monitor.Value.{Payload}
use ha_zte_router_5g_monitor.PollPlan.Plan.{PollPlan}
use ha_zte_router_5g_monitor.PollPlan.Readers.{Reader, accepted_names, answers, mark, learn_answers}

member-mark :
    (t : String → Bool) (ns a : List String) (n : String)
    → member n (mark t ns a) ≡ (member n a || member n ns && t n)
unfolding mark
member-mark t [] a n = ground arith
member-mark t (m ∷ ns) a n = elim (Bool-cases (t m)) [
  | inl e ↦ rw e (ground (arith, member-mark t ns (add m a) n, member-add m n a, eq_iff m n))
  | inr e ↦ rw e (ground (arith, member-mark t ns a n, eq_iff m n))
]

length-add :
    (n : String) (a : List String)
    → (length a ≤ length (add n a)) × (length (add n a) ≤ length a → add n a ≡ a)
unfolding add
length-add n a = (ground arith, ground arith)

length-mark : (t : String → Bool) (ns a : List String) → length a ≤ length (mark t ns a)
unfolding mark
length-mark t [] a = omega arith
length-mark t (m ∷ ns) a = elim (Bool-cases (t m)) [
  | inl e ↦ rw e (omega (arith, length-mark t ns (add m a), (length-add m a).0))
  | inr e ↦ rw e (length-mark t ns a)
]

mark_same :
    (t : String → Bool) (ns a : List String) → length (mark t ns a) ≤ length a → mark t ns a ≡ a
unfolding mark
mark_same t [] a h = refl
mark_same t (m ∷ ns) a h = elim (Bool-cases (t m)) [
  | inl e ↦
      let h' : length (mark t ns (add m a)) ≤ length a = rw e at h in
      let same : add m a ≡ a = (length-add m a).1 (omega (arith, length-mark t ns (add m a))) in
      rw (e, same) (mark_same t ns a (rw same at h'))
  | inr e ↦ rw e (mark_same t ns a (rw e at h))
]

-- A name counts as answered afterwards exactly when it did before, or it is in the universe, has a
-- value in this payload, and was read by an entity that got a value, or is read by no entity.
pub member-learn_answers :
    (rs : List Reader) (d : Payload) (p : PollPlan) (n : String)
    → member n (learn_answers rs d p).0.answered
      ≡ (member n p.answered || member n p.universe && answers p (accepted_names rs d []) d n)
unfolding learn_answers
member-learn_answers rs d p n =
    member-mark (answers p (accepted_names rs d []) d) p.universe p.answered n

-- Where `learn_answers` reports nothing new, it has left the whole plan as it was, so that the store
-- needs no write.
pub learn_answers_reports :
    (rs : List Reader) (d : Payload) (p : PollPlan)
    → (learn_answers rs d p).1 ≡ false
    → (learn_answers rs d p).0 ≡ p
unfolding learn_answers
learn_answers_reports rs d p h =
    let same : mark (answers p (accepted_names rs d []) d) p.universe p.answered ≡ p.answered =
      mark_same (answers p (accepted_names rs d []) d) p.universe p.answered (ground arith) in
    ap (λ (a : List String). record p { answered = a }) same
