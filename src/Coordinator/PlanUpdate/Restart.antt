-- ===== src/Coordinator/PlanUpdate/Restart.antt =====
-- What a changed firmware, a reboot and a returned data connection do to the plan.
use ha_zte_router_5g_monitor.Prelude.{
  ℕ, String, ◌≡◌, ◌≢◌, refl, Bool, true, false, ◌&&◌, List, [], arith, eq_iff,
}
use ha_zte_router_5g_monitor.Prelude.Names.{member, member-add, add}
use ha_zte_router_5g_monitor.Value.{Payload, read, blank}
use ha_zte_router_5g_monitor.PollPlan.Plan.{PollPlan, request_full}
use ha_zte_router_5g_monitor.PollPlan.Readers.{Reader, learn_readers, learn_answers, answers}
use ha_zte_router_5g_monitor.PollPlan.Readers.Answers.{member-learn_answers}
use ha_zte_router_5g_monitor.PollPlan.Lifecycle.{after_poll}
use ha_zte_router_5g_monitor.PollPlan.Lifecycle.Owed.{SameSchedule, learn_readers-SameSchedule}
use ha_zte_router_5g_monitor.Coordinator.PlanUpdate.{
  Learner, learn, note_firmware, note_restart, noted, is_fresh, update_poll_plan, text_or_empty,
  as_int, uptime_of, lower,
}

answered_has_value :
    (rs : List Reader) (d : Payload) (p : PollPlan) (n : String)
    → p.answered ≡ []
    → member n (learn_answers rs d p).0.answered ≡ true
    → blank (read d n) ≡ false
unfolding answers
answered_has_value rs d p n h m = ground (arith, member-learn_answers rs d p n)

learn-answered :
    (readers : List Reader) (disabled : List String) (full : Bool) (d : Payload) (c : Learner)
    (n : String)
    → c.plan.answered ≡ []
    → member n (learn readers disabled full d c).plan.answered ≡ true
    → blank (read d n) ≡ false
unfolding learn
learn-answered readers disabled full d c n h m =
    let p : PollPlan = record (c.plan) { disabled = disabled } in
    let same : SameSchedule (learn_readers readers d p) p =
      learn_readers-SameSchedule readers d p p
        (record { polls = refl; full_reasons = refl; last_full = refl; answered = refl }) in
    ground (
      arith,
      answered_has_value readers d p n,
      answered_has_value readers d (learn_readers readers d p) n,
      same.answered,
    )

noted-forgets :
    (d : Payload) (c : Learner)
    → text_or_empty (read d "wa_inner_version") ≢ ""
    → c.firmware ≢ ""
    → c.firmware ≢ text_or_empty (read d "wa_inner_version")
    → ((noted d c).plan.answered ≡ [])
      × ((noted d c).firmware ≡ text_or_empty (read d "wa_inner_version"))
unfolding noted note_firmware note_restart request_full
noted-forgets d c h k e = (
  ground (
    arith,
    eq_iff (text_or_empty (read d "wa_inner_version")) "",
    eq_iff c.firmware "",
    eq_iff (text_or_empty (read d "wa_inner_version")) c.firmware,
  ),
  ground (
    arith,
    eq_iff (text_or_empty (read d "wa_inner_version")) "",
    eq_iff (text_or_empty (read d "wa_inner_version")) c.firmware,
  ),
)

firmware-learn :
    (readers : List Reader) (disabled : List String) (full : Bool) (d : Payload) (c : Learner)
    → (learn readers disabled full d c).firmware ≡ c.firmware
unfolding learn
firmware-learn readers disabled full d c = refl

-- A payload of another firmware than the one the names were learned on forgets them: every name that
-- counts as answered afterwards has a value in this very payload, and the firmware is the new one.
pub firmware_change_forgets :
    (readers : List Reader) (disabled : List String) (failures : ℕ) (full : Bool) (d : Payload)
    (now : ℕ) (c : Learner)
    → text_or_empty (read d "wa_inner_version") ≢ ""
    → c.firmware ≢ ""
    → c.firmware ≢ text_or_empty (read d "wa_inner_version")
    → let c' = update_poll_plan readers disabled failures full d now c in
      ((n : String) → member n c'.plan.answered ≡ true → blank (read d n) ≡ false)
      × (c'.firmware ≡ text_or_empty (read d "wa_inner_version"))
unfolding update_poll_plan after_poll
firmware_change_forgets readers disabled failures full d now c h k e =
    let facts = noted-forgets d c h k e in
    (
      λ n m. ground (arith, facts.0, learn-answered readers disabled full d (noted d c) n),
      ground (arith, facts.1, firmware-learn readers disabled full d (noted d c)),
    )

reboot_noted :
    (d : Payload) (c : Learner)
    → lower (as_int (read d "uptime_seconds")) (as_int (uptime_of c.previous)) ≡ true
    → member "reboot" (noted d c).plan.full_reasons ≡ true
unfolding noted note_restart note_firmware request_full
reboot_noted d c h = ground (
  arith,
  member-add "reboot" "reboot" c.plan.full_reasons,
  member-add "reboot" "reboot" (add "firmware changed" c.plan.full_reasons),
  member-add "data connection returned" "reboot" (add "reboot" c.plan.full_reasons),
  member-add "data connection returned" "reboot"
      (add "reboot" (add "firmware changed" c.plan.full_reasons)),
)

reasons-learn :
    (readers : List Reader) (disabled : List String) (full : Bool) (d : Payload) (c : Learner)
    → (learn readers disabled full d c).plan.full_reasons ≡ c.plan.full_reasons
unfolding learn learn_answers
reasons-learn readers disabled full d c =
    let p : PollPlan = record (c.plan) { disabled = disabled } in
    let same : SameSchedule (learn_readers readers d p) p =
      learn_readers-SameSchedule readers d p p
        (record { polls = refl; full_reasons = refl; last_full = refl; answered = refl }) in
    ground (arith, same.full_reasons)

-- A poll that finds the uptime below the previous poll's owes a full poll for the reboot, unless it
-- was itself a full poll with a fresh payload.
pub reboot_owes_full :
    (readers : List Reader) (disabled : List String) (failures : ℕ) (full : Bool) (d : Payload)
    (now : ℕ) (c : Learner)
    → lower (as_int (read d "uptime_seconds")) (as_int (uptime_of c.previous)) ≡ true
    → full && is_fresh failures ≡ false
    → member "reboot" (update_poll_plan readers disabled failures full d now c).plan.full_reasons
      ≡ true
unfolding update_poll_plan after_poll
reboot_owes_full readers disabled failures full d now c h f =
    ground (arith, reboot_noted d c, reasons-learn readers disabled full d (noted d c))
