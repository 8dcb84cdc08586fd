-- ===== src/PollPlan/Lifecycle/Store.antt =====
-- The stored names come back at the next start (`to_store` and `load`).
use ha_zte_router_5g_monitor.Prelude.{
  String, ◌≡◌, ◌≢◌, refl, ◌||◌, not, ◌&&◌, List, [], ◌∷◌, map, arith, eq_iff, str_eq, ◌∙◌,
  Bool-cases, inl, inr,
}
use ha_zte_router_5g_monitor.Prelude.Names.{member, member-add, member-discard}
use ha_zte_router_5g_monitor.Value.{text}
use ha_zte_router_5g_monitor.PollPlan.Tables.{first_poll_reason}
use ha_zte_router_5g_monitor.PollPlan.Plan.{PollPlan}
use ha_zte_router_5g_monitor.PollPlan.Lifecycle.{texts, insert_sorted, sorted, to_store, load}

member-insert_sorted :
    (s n : String) (ns : List String) → member n (insert_sorted s ns) ≡ (str_eq s n || member n ns)
unfolding insert_sorted
member-insert_sorted s n [] = refl
member-insert_sorted s n (m ∷ ns) = ground (arith, member-insert_sorted s n ns)

-- Sorting keeps exactly the names.
pub member-sorted : (n : String) (ns : List String) → member n (sorted ns) ≡ member n ns
unfolding sorted
member-sorted n [] = refl
member-sorted n (m ∷ ns) = ground (arith, member-insert_sorted m n (sorted ns), member-sorted n ns)

texts-map : (n : String) (ns : List String) → member n (texts (map text ns)) ≡ member n ns
unfolding texts
texts-map n [] = refl
texts-map n (m ∷ ns) = ground (arith, member-add m n (texts (map text ns)), texts-map n ns)

-- Loading what a plan stored under a firmware that is named gives any other plan exactly the
-- answered names of the first, reports that firmware, and takes "first poll", and no other reason,
-- off the reasons for a full poll.
pub load-to_store :
    (firmware : String) (p q : PollPlan)
    → firmware ≢ ""
    → ((n : String) → member n (load (to_store firmware p) q).0.answered ≡ member n p.answered)
      × ((load (to_store firmware p) q).1 ≡ firmware)
      × ((r : String)
          → member r (load (to_store firmware p) q).0.full_reasons
            ≡ (not (str_eq first_poll_reason r) && member r q.full_reasons))
unfolding load to_store
load-to_store firmware p q h = elim (Bool-cases (str_eq firmware "")) [
  | inl e ↦ absurd (h ((eq_iff firmware "").0 e))
  | inr e ↦ rw e (
    λ n. texts-map n (sorted p.answered) ∙ member-sorted n p.answered,
    refl,
    λ r. member-discard first_poll_reason r q.full_reasons,
  )
]
