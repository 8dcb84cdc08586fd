-- ===== src/PollPlan/Plan.antt =====
-- The state of `PollPlan` (custom_components/zte_router_5g/poll_plan.py).
use ha_zte_router_5g_monitor.Prelude.{
  ℕ, String, Bool, false, Option, none, List, [], ◌∷◌, if◌then◌else◌,
}
use ha_zte_router_5g_monitor.Prelude.Names.{member, add}
use ha_zte_router_5g_monitor.Prelude.Dict.{Dict}
use ha_zte_router_5g_monitor.PollPlan.Tables.{first_poll_reason}

-- A `datetime` is the number of microseconds since some fixed instant.
pub record PollPlan : Type 0 where
  pub universe : List String
  pub answered : List String
  pub readers : Dict (List String)
  pub consumers : Dict (List String)
  pub disabled : List String
  pub polls : ℕ
  pub full_reasons : List String
  pub sweep_5g : Bool
  pub last_full : Option ℕ
  pub last_kind : String
  pub last_requested : ℕ
  pub last_5g : Option Bool

-- `tuple(dict.fromkeys(universe))`, given the names seen so far: each name at its first place.
unfoldable pub unique_from : List String → List String → List String
unique_from seen [] = []
unique_from seen (n ∷ ns) =
    let fresh = unique_from (n ∷ seen) ns in
    let rest = unique_from seen ns in if member n seen then rest else n ∷ fresh

-- `PollPlan.__init__`.
unfoldable pub new : List String → PollPlan
unfolding unique_from
new universe = record {
  universe = unique_from [] universe;
  answered = [];
  readers = [];
  consumers = [];
  disabled = [];
  polls = 0;
  full_reasons = first_poll_reason ∷ [];
  sweep_5g = false;
  last_full = none;
  last_kind = "";
  last_requested = 0;
  last_5g = none;
}

-- `request_full`.
unfoldable pub request_full : String → PollPlan → PollPlan
request_full reason p = record p { full_reasons = add reason p.full_reasons }
