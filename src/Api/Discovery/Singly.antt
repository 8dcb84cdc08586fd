-- ===== src/Api/Discovery/Singly.antt =====
-- `_reprobe_singly` (custom_components/zte_router_5g/api.py): the names that a pass could not judge are
-- asked again, each alone, for as many rounds as there are.
use ha_zte_router_5g_monitor.Prelude.{
  ℕ, zero, suc, Bool, true, false, Option, none, some, List, [], ◌∷◌, ◌++◌, String, length,
}
use ha_zte_router_5g_monitor.Prelude.Dict.{Dict, put}
use ha_zte_router_5g_monitor.Api.Discovery.{
  Device, Answer, failed, refused, lost, index_error, answered, max_rounds, probe_chunk,
}
use ha_zte_router_5g_monitor.Api.Discovery.Notes.{Note, still_to_reprobe}

-- `found.update(values)`.
unfoldable pub found_update : Dict String → Dict String → Dict String
found_update found [] = found
found_update found ((k, v) ∷ d) = found_update (put found k v) d

-- What the names asked again have come to; `rounds` holds how many each round resolved.
pub record Search : Type 0 where
  pub found : Dict String
  pub refused : List String
  pub unasked : List String
  pub rounds : List ℕ
  pub notes : List Note

-- A round: what it resolved, the names still to be asked, and the names that the end of the budget
-- left.
pub record Round : Type 0 where
  pub search : Search
  pub resolved : ℕ
  pub still : List String
  pub out_of_budget : Bool

abbrev pub new_round : Search → Round
new_round x = record { search = x; resolved = 0; still = []; out_of_budget = false }

-- A name asked alone, by what it answered; `none` where an exception leaves the loop.
unfoldable pub settle_name : String → Round → Answer → Option Round
settle_name name r index_error = none
settle_name name r refused =
    let x = r.search in some (record r { search = record x { refused = x.refused ++ name ∷ [] } })
settle_name name r failed = some (record r { still = r.still ++ name ∷ [] })
settle_name name r lost = some (record r { still = r.still ++ name ∷ [] })
settle_name name r (answered []) = some r
settle_name name r (answered (kv ∷ d)) =
    let x = r.search in
    some (record r {
      search = record x { found = found_update x.found (kv ∷ d) };
      resolved = suc r.resolved;
    })

-- The names that the end of the budget leaves.
abbrev pub cut_round : List String → Round → Round
cut_round names r =
    let x = r.search in
    record r {
      search = record x {
        unasked = x.unasked ++ names;
        notes = x.notes ++ still_to_reprobe (length names) ∷ [];
      };
      out_of_budget = true;
    }

abbrev pub close_round : Round → Search
close_round r = let x = r.search in record x { rounds = x.rounds ++ r.resolved ∷ [] }

module _ {ℓ} {S : Type ℓ} (device : Device S) (canaries : List String) where
  -- One round over the queue.
  unfoldable pub run_round : List String → Round → S → Option Round × S
  unfolding settle_name
  run_round [] r s = (some r, s)
  run_round (name ∷ names) r s = elim (device.late s) [
    | true ↦ (some (cut_round (name ∷ names) r), s)
    | false ↦
        let (answer, s') = probe_chunk device canaries (name ∷ []) s in
        elim (settle_name name r answer) [ none ↦ (none, s') | some r' ↦ run_round names r' s' ]
  ]

  -- The rounds that are left; what is queued when there are none has not been asked.
  unfoldable pub run_rounds : ℕ → List String → Search → S → Option Search × S
  run_rounds left [] x s = (some x, s)
  run_rounds zero (name ∷ names) x s = (some (record x { unasked = x.unasked ++ name ∷ names }), s)
  run_rounds (suc left) (name ∷ names) x s =
      let (round, s') = run_round (name ∷ names) (new_round x) s in
      elim round [
        | none ↦ (none, s')
        | some r ↦ elim r.out_of_budget [
          | true ↦ (some (close_round r), s')
          | false ↦ run_rounds left r.still (close_round r) s'
        ]
      ]

  -- `_reprobe_singly`.
  unfoldable pub reprobe_singly : List String → S → Option Search × S
  reprobe_singly names s =
      run_rounds max_rounds names
        (record { found = []; refused = []; unasked = []; rounds = []; notes = [] }) s
