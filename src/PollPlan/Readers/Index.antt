-- ===== src/PollPlan/Readers/Index.antt =====
-- `readers` and `consumers` are one relation, kept from both sides (`learn_readers`).
use ha_zte_router_5g_monitor.Prelude.{
  String, ◌≡◌, refl, true, ◌&&◌, ◌||◌, List, [], ◌∷◌, ◌++◌, arith, eq_iff, str_eq, if◌then◌else◌,
}
use ha_zte_router_5g_monitor.Prelude.Names.{
  member, add, member-add, member-union, member-intersection,
}
use ha_zte_router_5g_monitor.Prelude.Dict.{Dict, get_or, put, get-put}
use ha_zte_router_5g_monitor.Value.{Payload}
use ha_zte_router_5g_monitor.PollPlan.Plan.{PollPlan, new}
use ha_zte_router_5g_monitor.PollPlan.Readers.{
  Reader, call_all, reads_of, consume, learn_reader, learn_readers,
}

get_or-put :
    (d : Dict (List String)) (k j m : String) (v : List String)
    → member m (get_or (put d k v) j [])
      ≡ (if str_eq k j then member m v else member m (get_or d j []))
get_or-put d k j m v = ground (arith, get-put d k j v)

consume_lem :
    (e : String) (ns : List String) (c : Dict (List String)) (n f : String)
    → member f (get_or (consume e ns c) n [])
      ≡ (member f (get_or c n []) || str_eq e f && member n ns)
unfolding consume
consume_lem e [] c n f = ground arith
consume_lem e (m ∷ ns) c n f = ground (
  arith,
  consume_lem e ns (put c m (add e (get_or c m []))) n f,
  get_or-put c m n f (add e (get_or c m [])),
  member-add e f (get_or c m []),
  eq_iff m n,
)

reads_of_lem :
    (r : Reader) (d : Payload) (universe old : List String) (n : String)
    → member n (reads_of r d universe old) ≡ (
        member n (call_all r.fns d []).1 && member n universe
        || (member n (call_all r.fns [] []).1 && member n universe || member n old))
unfolding reads_of
reads_of_lem r d universe old n =
    rw (member-union, member-union, member-intersection, member-intersection) refl

-- An entity is listed among a name's consumers exactly when the name is listed among its reads.
pub record IsIndexed (p : PollPlan) : Type 0 where
  pub agree : (n e : String) → member e (get_or p.consumers n []) ≡ member n (get_or p.readers e [])

pub new-IsIndexed : (universe : List String) → IsIndexed (new universe)
unfolding new
new-IsIndexed universe = record { agree = λ n e. refl }

learn_reader-agree :
    (d : Payload) (p : PollPlan) (r : Reader)
    → IsIndexed p
    → (n e : String)
    → member e (get_or (learn_reader d p r).consumers n [])
      ≡ member n (get_or (learn_reader d p r).readers e [])
unfolding learn_reader
learn_reader-agree d p r h n e =
    let old = get_or p.readers r.entity [] in
    ground (
      arith,
      consume_lem r.entity (reads_of r d p.universe old) p.consumers n e,
      get_or-put p.readers r.entity e n (reads_of r d p.universe old),
      reads_of_lem r d p.universe old n,
      h.agree n e,
      eq_iff r.entity e,
    )

-- Learning the readers from any payload keeps the two tables in agreement.
pub learn_readers-IsIndexed :
    (rs : List Reader) (d : Payload) (p : PollPlan) → IsIndexed p → IsIndexed (learn_readers rs d p)
unfolding learn_readers
learn_readers-IsIndexed [] d p h = h
learn_readers-IsIndexed (r ∷ rs) d p h =
    learn_readers-IsIndexed rs d (learn_reader d p r)
      (record { agree = learn_reader-agree d p r h })

reader_recorded :
    (d : Payload) (p : PollPlan) (r : Reader) (n : String)
    → member n (call_all r.fns d []).1 ≡ true
    → member n p.universe ≡ true
    → member r.entity (get_or (learn_reader d p r).consumers n []) ≡ true
unfolding learn_reader
reader_recorded d p r n h u =
    let old = get_or p.readers r.entity [] in
    ground (
      arith,
      consume_lem r.entity (reads_of r d p.universe old) p.consumers n r.entity,
      reads_of_lem r d p.universe old n,
      eq_iff r.entity r.entity,
    )

consumer_stays :
    (d : Payload) (p : PollPlan) (r : Reader) (n e : String)
    → member e (get_or p.consumers n []) ≡ true
    → member e (get_or (learn_reader d p r).consumers n []) ≡ true
unfolding learn_reader
consumer_stays d p r n e h =
    let old = get_or p.readers r.entity [] in
    ground (arith, consume_lem r.entity (reads_of r d p.universe old) p.consumers n e)

pub consumers_stay :
    (rs : List Reader) (d : Payload) (p : PollPlan) (n e : String)
    → member e (get_or p.consumers n []) ≡ true
    → member e (get_or (learn_readers rs d p).consumers n []) ≡ true
unfolding learn_readers
consumers_stay [] d p n e h = h
consumers_stay (r ∷ rs) d p n e h =
    consumers_stay rs d (learn_reader d p r) n e (consumer_stays d p r n e h)

universe-learn_reader :
    (d : Payload) (p : PollPlan) (r : Reader) → (learn_reader d p r).universe ≡ p.universe
unfolding learn_reader
universe-learn_reader d p r = refl

-- Every name of the universe that one of an entity's callables looks up in this payload has the
-- entity among its consumers afterwards.
pub reads_recorded :
    (before : List Reader) (r : Reader) (after : List Reader) (d : Payload) (p : PollPlan)
    (n : String)
    → member n (call_all r.fns d []).1 ≡ true
    → member n p.universe ≡ true
    → member r.entity (get_or (learn_readers (before ++ r ∷ after) d p).consumers n []) ≡ true
unfolding learn_readers
reads_recorded [] r after d p n h u =
    consumers_stay after d (learn_reader d p r) n r.entity (reader_recorded d p r n h u)
reads_recorded (b ∷ before) r after d p n h u =
    reads_recorded before r after d (learn_reader d p b) n h (rw universe-learn_reader u)
