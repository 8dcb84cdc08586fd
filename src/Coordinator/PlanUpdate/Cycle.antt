-- ===== src/Coordinator/PlanUpdate/Cycle.antt =====
-- One poll after another: the names are chosen (`_fetch_all`) and, when the poll succeeds, the plan
-- is updated (`_update_poll_plan`). A failed poll leaves the plan's counters alone.
use ha_zte_router_5g_monitor.Prelude.{
  ℕ, zero, suc, ◌+◌, ◌-◌, ◌%◌, ◌≤◌, ◌<◌, String, ◌≡◌, refl, Bool, true, false, ◌||◌, some, List, [],
  ◌∷◌, length, any, all, arith, str_eq,
}
use ha_zte_router_5g_monitor.Prelude.Names.{member, member-add}
use ha_zte_router_5g_monitor.Value.{Value, Payload, read}
use ha_zte_router_5g_monitor.PollPlan.Plan.{PollPlan, request_full}
use ha_zte_router_5g_monitor.PollPlan.Selection.{names, nonempty}
use ha_zte_router_5g_monitor.PollPlan.Readers.{Reader, learn_readers, learn_answers}
use ha_zte_router_5g_monitor.PollPlan.Lifecycle.{after_poll}
use ha_zte_router_5g_monitor.PollPlan.Lifecycle.Owed.{SameSchedule, learn_readers-SameSchedule}
use ha_zte_router_5g_monitor.Coordinator.PlanUpdate.{
  Learner, learn, note_firmware, note_restart, noted, is_fresh, update_poll_plan, text_or_empty,
}

-- One successful poll, by what surrounds it.
pub record Poll : Type 0 where
  pub asked_at : ℕ
  pub done_at : ℕ
  pub failures : ℕ
  pub payload : Payload
  pub readers : List Reader
  pub disabled : List String

-- Whether this poll would be full.
unfoldable pub is_full : Poll → Learner → Bool
is_full e c = (names e.asked_at c.plan).2

-- `_fetch_all` and `_update_poll_plan`, for one successful poll.
unfoldable pub cycle : Poll → Learner → Learner
unfolding is_full
cycle e c =
    update_poll_plan e.readers e.disabled e.failures (is_full e c) e.payload e.done_at
      (record c { plan = (names e.asked_at c.plan).0 })

unfoldable pub cycles : List Poll → Learner → Learner
cycles [] c = c
cycles (e ∷ es) c = cycles es (cycle e c)

-- Whether each poll of a run was full.
unfoldable pub fulls : List Poll → Learner → List Bool
fulls [] c = []
fulls (e ∷ es) c = is_full e c ∷ fulls es (cycle e c)

learn_same :
    (readers : List Reader) (disabled : List String) (full : Bool) (d : Payload) (c : Learner)
    → ((learn readers disabled full d c).plan.polls ≡ c.plan.polls)
      × ((learn readers disabled full d c).plan.full_reasons ≡ c.plan.full_reasons)
unfolding learn learn_answers
learn_same readers disabled full d c =
    let p : PollPlan = record (c.plan) { disabled = disabled } in
    let same : SameSchedule (learn_readers readers d p) p =
      learn_readers-SameSchedule readers d p p
        (record { polls = refl; full_reasons = refl; last_full = refl; answered = refl }) in
    (ground (arith, same.polls), ground (arith, same.full_reasons))

polls-noted : (d : Payload) (c : Learner) → (noted d c).plan.polls ≡ c.plan.polls
unfolding noted note_restart note_firmware request_full
polls-noted d c = ground arith

member-request_full :
    (reason r : String) (p : PollPlan)
    → member r (request_full reason p).full_reasons ≡ (str_eq reason r || member r p.full_reasons)
unfolding request_full
member-request_full reason r p = member-add reason r p.full_reasons

note_firmware-reasons :
    (firmware : String) (c : Learner) (r : String)
    → member r c.plan.full_reasons ≡ true
    → member r (note_firmware firmware c).plan.full_reasons ≡ true
unfolding note_firmware
note_firmware-reasons firmware c r h =
    ground (arith, member-request_full "firmware changed" r (record (c.plan) { answered = [] }))

note_restart-reasons :
    (uptime : Value) (link : String) (c : Learner) (r : String)
    → member r c.plan.full_reasons ≡ true
    → member r (note_restart uptime link c).plan.full_reasons ≡ true
unfolding note_restart
note_restart-reasons uptime link c r h = ground (
  arith,
  member-request_full "data connection returned" r c.plan,
  member-request_full "data connection returned" r (request_full "reboot" c.plan),
  member-request_full "reboot" r c.plan,
)

noted-reasons :
    (d : Payload) (c : Learner) (r : String)
    → member r c.plan.full_reasons ≡ true
    → member r (noted d c).plan.full_reasons ≡ true
unfolding noted
noted-reasons d c r h =
    note_restart-reasons (read d "uptime_seconds") (text_or_empty (read d "ppp_status"))
      (note_firmware (text_or_empty (read d "wa_inner_version")) c) r
      (note_firmware-reasons (text_or_empty (read d "wa_inner_version")) c r h)

names_same :
    (now : ℕ) (p : PollPlan)
    → ((names now p).0.polls ≡ p.polls) × ((names now p).0.full_reasons ≡ p.full_reasons)
unfolding names
names_same now p = (ground arith, ground arith)

polls-cycle : (e : Poll) (c : Learner) → (cycle e c).plan.polls ≡ c.plan.polls + 1
unfolding cycle update_poll_plan after_poll
polls-cycle e c =
    let c' : Learner = noted e.payload (record c { plan = (names e.asked_at c.plan).0 }) in
    ground (
      arith,
      learn_same e.readers e.disabled (names e.asked_at c.plan).2 e.payload c',
      polls-noted e.payload (record c { plan = (names e.asked_at c.plan).0 }),
      names_same e.asked_at c.plan,
    )

full_on_thirtieth :
    (e : Poll) (c : Learner) → 0 < c.plan.polls → c.plan.polls % 30 ≡ 0 → is_full e c ≡ true
unfolding is_full names
full_on_thirtieth e c h m = ground arith

full_within :
    (k : ℕ) (es : List Poll) (c : Learner)
    → 0 < c.plan.polls
    → (c.plan.polls + k) % 30 ≡ 0
    → k < length es
    → any (λ b. b) (fulls es c) ≡ true
unfolding fulls
full_within k [] c h m l = absurd (omega arith)
full_within zero (e ∷ es) c h m l = ground (arith, full_on_thirtieth e c)
full_within (suc k) (e ∷ es) c h m l = ground (arith, full_within k es (cycle e c), polls-cycle e c)

-- After the first poll, at least one of any thirty successive successful polls is full.
pub thirty_polls_full :
    (es : List Poll) (c : Learner)
    → 0 < c.plan.polls
    → 30 ≤ length es
    → any (λ b. b) (fulls es c) ≡ true
thirty_polls_full es c h l =
    full_within ((30 - c.plan.polls % 30) % 30) es c h (omega arith) (omega arith)

-- Whether the poll cannot count as the full poll that is owed: part of its payload is from a cache.
abbrev pub IsStale : Poll → Type 0
IsStale e = is_fresh e.failures ≡ false

abbrev pub AllStale : List Poll → Type 0
AllStale [] = Unit {0}
AllStale (e ∷ es) = IsStale e × AllStale es

cycle-reason :
    (e : Poll) (c : Learner) (r : String)
    → IsStale e
    → member r c.plan.full_reasons ≡ true
    → member r (cycle e c).plan.full_reasons ≡ true
unfolding cycle update_poll_plan after_poll
cycle-reason e c r s h = ground (
  arith,
  noted-reasons e.payload (record c { plan = (names e.asked_at c.plan).0 }) r
      (rw (names_same e.asked_at c.plan).1 h),
)

nonempty_of_member : (r : String) (ns : List String) → member r ns ≡ true → nonempty ns ≡ true
nonempty_of_member r [] h = h
nonempty_of_member r (n ∷ ns) h = refl

owed_is_full :
    (e : Poll) (c : Learner) (r : String) → member r c.plan.full_reasons ≡ true → is_full e c ≡ true
unfolding is_full names
owed_is_full e c r h = ground (arith, nonempty_of_member r c.plan.full_reasons)

-- A reason for a full poll is not lost: as long as no poll is fresh, every poll is full and the
-- reason is still owed behind them.
pub owed_until_fresh :
    (es : List Poll) (c : Learner) (r : String)
    → AllStale es
    → member r c.plan.full_reasons ≡ true
    → (all (λ b. b) (fulls es c) ≡ true) × (member r (cycles es c).plan.full_reasons ≡ true)
unfolding fulls cycles
owed_until_fresh [] c r s h = (refl, h)
owed_until_fresh (e ∷ es) c r s h =
    let ih = owed_until_fresh es (cycle e c) r s.1 (cycle-reason e c r s.0 h) in
    (ground (arith, owed_is_full e c r, ih.0), ih.1)

-- A full poll with a fresh payload pays every reason, the ones that this poll itself raised included.
pub fresh_full_pays :
    (e : Poll) (c : Learner)
    → is_full e c ≡ true
    → is_fresh e.failures ≡ true
    → ((cycle e c).plan.full_reasons ≡ []) × ((cycle e c).plan.last_full ≡ some e.done_at)
unfolding cycle update_poll_plan after_poll
fresh_full_pays e c f h = (ground arith, ground arith)
