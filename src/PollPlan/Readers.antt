-- ===== src/PollPlan/Readers.antt =====
-- `RecordingDict`, `_call`, `learn_readers` and `learn_answers`
-- (custom_components/zte_router_5g/poll_plan.py): what a poll teaches about the names.
pub mod Index
pub mod Answers
use ha_zte_router_5g_monitor.Prelude.{
  String, Bool, true, false, ◌&&◌, ◌||◌, not, Option, none, some, List, [], ◌∷◌, ◌++◌, any, keep_if,
  length, ltb, if◌then◌else◌,
}
use ha_zte_router_5g_monitor.Prelude.Names.{member, add, union, intersection}
use ha_zte_router_5g_monitor.Prelude.Dict.{Dict, get, get_or, put}
use ha_zte_router_5g_monitor.Value.{Value, null, flag, Payload, read, blank}
use ha_zte_router_5g_monitor.PollPlan.Plan.{PollPlan}

-- An entity's callable, by what it does with the payload: it looks keys up, one after another, and
-- returns or raises. `look` is each of `payload[key]`, `payload.get(key)` and `key in payload`; the
-- callable goes on by what the lookup found, a `KeyError` included.
pub data Fn : Type 0 where
  done : Value → Fn
  fault : Fn
  look : String → (Option Value → Fn) → Fn

-- `_call` on a `RecordingDict`: the result, `None` for a fault, and the keys read so far.
unfoldable pub call : Fn → Payload → List String → Value × List String
call (done v) d reads = (v, reads)
call fault d reads = (null, reads)
call (look k next) d reads = call (next (get d k)) d (add k reads)

-- One after another on the same recording payload: `[_call(fn, payload) for fn in fns]`.
unfoldable pub call_all : List Fn → Payload → List String → List Value × List String
unfolding call
call_all [] d reads = ([], reads)
call_all (f ∷ fs) d reads =
    let (v, reads') = call f d reads in
    let (vs, reads'') = call_all fs d reads' in (v ∷ vs, reads'')

-- `Reader`: an entity and its callables.
pub record Reader : Type 0 where
  pub entity : String
  pub fns : List Fn

-- `reads`, after the callables ran against an empty payload and against the data.
unfoldable pub reads_of : Reader → Payload → List String → List String → List String
unfolding call_all
reads_of r d universe reads =
    union (intersection (call_all r.fns d []).1 universe)
      (union (intersection (call_all r.fns [] []).1 universe) reads)

-- `for name in reads: self.consumers.setdefault(name, set()).add(entity)`.
unfoldable pub consume : String → List String → Dict (List String) → Dict (List String)
consume entity [] consumers = consumers
consume entity (n ∷ ns) consumers =
    consume entity ns (put consumers n (add entity (get_or consumers n [])))

unfoldable pub learn_reader : Payload → PollPlan → Reader → PollPlan
unfolding reads_of consume
learn_reader d p r =
    let reads = reads_of r d p.universe (get_or p.readers r.entity []) in
    record p {
      readers = put p.readers r.entity reads;
      consumers = consume r.entity reads p.consumers;
    }

-- `learn_readers`.
unfoldable pub learn_readers : List Reader → Payload → PollPlan → PollPlan
unfolding learn_reader
learn_readers [] d p = p
learn_readers (r ∷ rs) d p = learn_readers rs d (learn_reader d p r)

-- `v is not None and v is not False`.
unfoldable pub has_value : Value → Bool
has_value null = false
has_value (flag false) = false
has_value _ = true

-- `accepted`: the names that a reader with a value read, and that the data has a value for.
unfoldable pub accepted_names : List Reader → Payload → List String → List String
unfolding call_all has_value
accepted_names [] d accepted = accepted
accepted_names (r ∷ rs) d accepted =
    let (values, reads) = call_all r.fns d [] in
    accepted_names rs d (
      if any has_value values
      then union (keep_if (λ n. not (blank (read d n))) reads) accepted
      else accepted)

abbrev is_known : Dict (List String) → String → Bool
is_known consumers name = elim (get consumers name) [ none ↦ false | some _ ↦ true ]

-- Whether this poll teaches that the name answers.
unfoldable pub answers : PollPlan → List String → Payload → String → Bool
answers p accepted d name =
    not (blank (read d name)) && (member name accepted || not (is_known p.consumers name))

-- The loop of `learn_answers` over the universe.
unfoldable pub mark : (String → Bool) → List String → List String → List String
mark test [] answered = answered
mark test (n ∷ ns) answered = mark test ns (if test n then add n answered else answered)

-- `learn_answers`: the plan, and whether anything new was learned.
unfoldable pub learn_answers : List Reader → Payload → PollPlan → PollPlan × Bool
unfolding accepted_names answers mark
learn_answers rs d p =
    let answered = mark (answers p (accepted_names rs d []) d) p.universe p.answered in
    (record p { answered = answered }, ltb (length p.answered) (length answered))
