-- ===== src/PollPlan/Lifecycle/Owed.antt =====
-- What learning leaves alone: the counter, the owed reasons and the universe.
use ha_zte_router_5g_monitor.Prelude.{◌≡◌, List, [], ◌∷◌}
use ha_zte_router_5g_monitor.Value.{Payload}
use ha_zte_router_5g_monitor.PollPlan.Plan.{PollPlan}
use ha_zte_router_5g_monitor.PollPlan.Readers.{Reader, learn_reader, learn_readers}

-- The fields of the plan that decide when the next full poll is due.
pub record SameSchedule (p q : PollPlan) : Type 0 where
  pub polls : p.polls ≡ q.polls
  pub full_reasons : p.full_reasons ≡ q.full_reasons
  pub last_full : p.last_full ≡ q.last_full
  pub answered : p.answered ≡ q.answered

learn_reader-SameSchedule :
    (d : Payload) (p q : PollPlan) (r : Reader)
    → SameSchedule p q
    → SameSchedule (learn_reader d p r) q
unfolding learn_reader
learn_reader-SameSchedule d p q r h = record {
  polls = h.polls;
  full_reasons = h.full_reasons;
  last_full = h.last_full;
  answered = h.answered;
}

pub learn_readers-SameSchedule :
    (rs : List Reader) (d : Payload) (p q : PollPlan)
    → SameSchedule p q
    → SameSchedule (learn_readers rs d p) q
unfolding learn_readers
learn_readers-SameSchedule [] d p q h = h
learn_readers-SameSchedule (r ∷ rs) d p q h =
    learn_readers-SameSchedule rs d (learn_reader d p r) q (learn_reader-SameSchedule d p q r h)
