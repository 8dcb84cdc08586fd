-- ===== src/Observations/Kept.antt =====
-- What `observe` (custom_components/zte_router_5g/observations.py) keeps of the records.
use ha_zte_router_5g_monitor.Prelude.{
  suc, ◌≤◌, ◌≡◌, refl, sym, ◌∙◌, ap, subst, true, ◌||◌, not, Option, some, List, [], ◌∷◌, length,
  all, arith, String, str_eq, eq_iff, if◌then◌else◌,
}
use ha_zte_router_5g_monitor.Prelude.Names.{member, member-union}
use ha_zte_router_5g_monitor.Prelude.Dict.{Dict, get_or, put, get-put}
use ha_zte_router_5g_monitor.Prelude.Int.{ℤ, leb_ℤ}
use ha_zte_router_5g_monitor.Value.{Payload, blank, str_of}
use ha_zte_router_5g_monitor.Observations.{
  Transition, Records, Described, noted, observe_key, observe_keys, observe_counter,
  observe_populated, observe, get_first, tracked, change_count, entity_keys_with_values,
}
use ha_zte_router_5g_monitor.Observations.Chains.{chained, noted_keeps}

abbrev pub history_of : Records → String → List Transition
history_of r key = get_or r.history key []

-- The history of every key is a chain of at most twenty changes.
pub record IsChained (r : Records) : Type 0 where
  pub chain : (key : String) → chained (history_of r key) ≡ true
  pub few : (key : String) → length (history_of r key) ≤ 20

get_or-put {ℓ} :
    {V : Type ℓ} (d : Dict V) (k j : String) (v w : V)
    → get_or (put d k v) j w ≡ (if str_eq k j then v else get_or d j w)
get_or-put d k j v w = ground (arith, get-put d k j v)

module _ (now : String) (uptime : Option ℤ) (payload : Payload) where
  observe_key-IsChained :
      (key : String) (aliases : List String) (r : Records)
      → IsChained r
      → IsChained (observe_key now uptime payload key aliases r).0
  unfolding observe_key
  observe_key-IsChained key aliases r v =
      let es = history_of r key in
      let s = str_of (get_first payload aliases) in
      let n = noted now uptime s es in
      let b = blank (get_first payload aliases) in
      let (c, l) = noted_keeps now uptime s es (v.chain key) (v.few key) in
      record {
        chain = λ k.
            let p = get_or-put r.history key k n.0 [] in let q = v.chain k in ground (arith, p);
        few =
            λ k. let p = get_or-put r.history key k n.0 [] in let q = v.few k in ground (arith, p);
      }

  observe_keys-IsChained :
      (ks : Dict (List String)) (r : Records)
      → IsChained r
      → IsChained (observe_keys now uptime payload ks r).0
  unfolding observe_keys
  observe_keys-IsChained [] r v = v
  observe_keys-IsChained ((key, aliases) ∷ ks) r v =
      observe_keys-IsChained ks (observe_key now uptime payload key aliases r).0
        (observe_key-IsChained key aliases r v)

  observe_key_counts :
      (key : String) (aliases : List String) (r : Records) (k : String)
      → change_count r k ≤ change_count (observe_key now uptime payload key aliases r).0 k
  unfolding observe_key
  observe_key_counts key aliases r k =
      let s = str_of (get_first payload aliases) in
      let n = noted now uptime s (history_of r key) in
      let p = get_or-put r.change_counts key k (suc (change_count r key)) 0 in
      ground (arith, p, eq_iff key k)

  observe_keys_counts :
      (ks : Dict (List String)) (r : Records) (k : String)
      → change_count r k ≤ change_count (observe_keys now uptime payload ks r).0 k
  unfolding observe_keys
  observe_keys_counts [] r k = omega arith
  observe_keys_counts ((key, aliases) ∷ ks) r k = omega (
    arith,
    observe_key_counts key aliases r k,
    observe_keys_counts ks (observe_key now uptime payload key aliases r).0 k,
  )

  observe_key_populated :
      (key : String) (aliases : List String) (r : Records)
      → (observe_key now uptime payload key aliases r).0.populated ≡ r.populated
  unfolding observe_key
  observe_key_populated key aliases r = ground arith

  observe_keys_populated :
      (ks : Dict (List String)) (r : Records)
      → (observe_keys now uptime payload ks r).0.populated ≡ r.populated
  unfolding observe_keys
  observe_keys_populated [] r = refl
  observe_keys_populated ((key, aliases) ∷ ks) r =
      observe_keys_populated ks (observe_key now uptime payload key aliases r).0
      ∙ observe_key_populated key aliases r

-- The counter's step and the populated step leave the history and the counts as they are.
observe_counter_keeps :
    (counter : Option ℤ) (payload : Payload) (now : String) (r : Records)
    → ((observe_counter counter payload now r).0.history ≡ r.history)
      × ((observe_counter counter payload now r).0.change_counts ≡ r.change_counts)
      × ((observe_counter counter payload now r).0.populated ≡ r.populated)
unfolding observe_counter
observe_counter_keeps counter payload now r = ground arith

observe_populated_keeps :
    (ds : List Described) (payload : Payload) (now : String) (r : Records)
    → ((observe_populated ds payload now r).0.history ≡ r.history)
      × ((observe_populated ds payload now r).0.change_counts ≡ r.change_counts)
unfolding observe_populated
observe_populated_keeps ds payload now r = ground arith

member-all :
    (k : String) (ks ms : List String)
    → all (λ j. member j ms) ks ≡ true
    → member k ks ≡ true
    → member k ms ≡ true
member-all k [] ms h m = ground arith
member-all k (j ∷ ks) ms h m = ground (arith, member-all k ks ms, eq_iff j k)

observe_populated_adds :
    (ds : List Described) (payload : Payload) (now : String) (r : Records) (k : String)
    → member k (observe_populated ds payload now r).0.populated
      ≡ (member k r.populated || member k (entity_keys_with_values ds payload))
unfolding observe_populated
observe_populated_adds ds payload now r k =
    let found = entity_keys_with_values ds payload in
    let a = member-all k found r.populated in ground (arith, a, member-union k r.populated found)

-- A poll keeps the history of every key a chain of at most twenty changes, in which each change says
-- where it came from and is a change.
pub observe-IsChained :
    (ds : List Described) (uptime counter : Option ℤ) (payload : Payload) (now : String)
    (r : Records)
    → IsChained r
    → IsChained (observe ds uptime counter payload now r).0
unfolding observe
observe-IsChained ds uptime counter payload now r v =
    let r1 = (observe_keys now uptime payload tracked r).0 in
    let r2 = (observe_counter counter payload now r1).0 in
    let c = observe_keys-IsChained now uptime payload tracked r v in
    let h =
      (observe_populated_keeps ds payload now r2).0
      ∙ (observe_counter_keeps counter payload now r1).0 in
    record {
      chain = λ k. ap (λ x. chained (get_or x k [])) h ∙ c.chain k;
      few = λ k. subst (λ x. length (get_or x k []) ≤ 20) (sym h) (c.few k);
    }

-- A poll loses nothing of what is known of the router: no change count falls, and an entity is known
-- to have reported a value exactly when it was, or reports one now.
pub observe_remembers :
    (ds : List Described) (uptime counter : Option ℤ) (payload : Payload) (now : String)
    (r : Records) (k : String)
    → (change_count r k ≤ change_count (observe ds uptime counter payload now r).0 k)
      × (member k (observe ds uptime counter payload now r).0.populated
          ≡ (member k r.populated || member k (entity_keys_with_values ds payload)))
unfolding observe
observe_remembers ds uptime counter payload now r k =
    let r1 = (observe_keys now uptime payload tracked r).0 in
    let r2 = (observe_counter counter payload now r1).0 in
    let c = observe_keys_counts now uptime payload tracked r k in
    let p = observe_keys_populated now uptime payload tracked r in
    let (h, q, s) = observe_counter_keeps counter payload now r1 in
    let (h', q') = observe_populated_keeps ds payload now r2 in
    let e = ap (λ x. get_or x k 0) (q' ∙ q) in
    (
      subst (λ n. change_count r k ≤ n) (sym e) c,
      observe_populated_adds ds payload now r2 k
          ∙ ap (λ x. member k x || member k (entity_keys_with_values ds payload)) (s ∙ p),
    )

-- A counter reset is recorded exactly when the counter reads lower than at the last poll, and the
-- reading is what the next one is compared with.
pub reset_iff_lower :
    (payload : Payload) (now : String) (r : Records) (before after : ℤ)
    → r.last_counter ≡ some before
    → ((observe_counter (some after) payload now r).1 ≡ not (leb_ℤ before after))
      × ((observe_counter (some after) payload now r).0.last_counter ≡ some after)
unfolding observe_counter
reset_iff_lower payload now r before after h = ground arith
