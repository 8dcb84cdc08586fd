-- ===== src/Api/Discovery/Report.antt =====
-- `run_discovery` (custom_components/zte_router_5g/api.py): the three passes and what is published of them.
-- The logout, the login, the choice of the canaries and the names mined come before; the names of each
-- pass are arguments.
use ha_zte_router_5g_monitor.Prelude.{
  ℕ, Bool, ◌&&◌, not, Option, none, some, List, ◌++◌, String, keep_if,
}
use ha_zte_router_5g_monitor.Prelude.Names.{member, union}
use ha_zte_router_5g_monitor.Prelude.Dict.{Dict}
use ha_zte_router_5g_monitor.Api.Discovery.{Device, has}
use ha_zte_router_5g_monitor.Api.Discovery.Notes.{Note}
use ha_zte_router_5g_monitor.Api.Discovery.Singly.{found_update}
use ha_zte_router_5g_monitor.Api.Discovery.Pass.{Probed, probe_names}

-- `DISCOVERY_CHUNK_SIZE` and `MINED_CHUNK_SIZE`.
abbrev pub discovery_chunk : ℕ
discovery_chunk = 16

abbrev pub mined_chunk : ℕ
mined_chunk = 8

-- The names that the three passes ask for.
pub record Candidates : Type 0 where
  pub static : List String
  pub refusable : List String
  pub unknown : List String

-- What is published; the source sorts the lists of names.
pub record Report : Type 0 where
  pub notes : List Note
  pub values : Dict String
  pub refused : List String
  pub not_reprobed : List String
  pub probed_no_answer : List String

abbrev pub probed : Candidates → List String
probed c = c.unknown ++ (c.static ++ c.refusable)

-- Whether a name is published as one that was asked for and answered nothing.
abbrev pub is_unanswered : Dict String → List String → List String → String → Bool
is_unanswered values unasked declined n =
    not (has values n) && (not (member n unasked) && not (member n declined))

unfoldable pub publish : Candidates → Probed → Probed → Probed → Report
publish c static refusable mined =
    let values = found_update (found_update static.found mined.found) refusable.found in
    let declined = union refusable.refused (union static.refused mined.refused) in
    let unasked = union static.unasked (union mined.unasked refusable.unasked) in
    record {
      notes = static.notes ++ (mined.notes ++ refusable.notes);
      values = values;
      refused = declined;
      not_reprobed = unasked;
      probed_no_answer = keep_if (is_unanswered values unasked declined) (probed c);
    }

-- The three passes; `none` where one of them raises, which ends the discovery with a note.
unfoldable pub run_discovery {ℓ} :
    {S : Type ℓ} → Device S → List String → Candidates → S → Option Report × S
run_discovery device canaries c s =
    let (static, s') = probe_names device canaries discovery_chunk c.static s in
    let (refusable, t) = probe_names device canaries 1 c.refusable s' in
    let (mined, u) = probe_names device canaries mined_chunk c.unknown t in
    elim static [
      | none ↦ (none, s')
      | some a ↦ elim refusable [
        | none ↦ (none, t)
        | some b ↦ elim mined [ none ↦ (none, u) | some m ↦ (some (publish c a b m), u) ]
      ]
    ]
