-- ===== src/PollPlan/Selection/Due.antt =====
-- When a poll is full (`_full_due` and `names`).
use ha_zte_router_5g_monitor.Prelude.{ℕ, ◌+◌, ◌%◌, ◌≤◌, ◌<◌, ◌≡◌, true, ◌⊎◌, arith}
use ha_zte_router_5g_monitor.PollPlan.Tables.{full_poll_max_age}
use ha_zte_router_5g_monitor.PollPlan.Plan.{PollPlan}
use ha_zte_router_5g_monitor.PollPlan.Selection.{start_clock, nonempty, names}

-- A poll is full exactly when a reason is owed, when it is a later poll whose number is a multiple
-- of thirty, or when a day has passed since the last full poll (since now, where none was made).
pub names_full_iff :
    (now : ℕ) (p : PollPlan)
    → ((names now p).2 ≡ true
        → (nonempty p.full_reasons ≡ true)
          ⊎ (((0 < p.polls) × (p.polls % 30 ≡ 0))
              ⊎ (start_clock now p.last_full + full_poll_max_age ≤ now)))
      × ((nonempty p.full_reasons ≡ true)
            ⊎ (((0 < p.polls) × (p.polls % 30 ≡ 0))
                ⊎ (start_clock now p.last_full + full_poll_max_age ≤ now))
          → (names now p).2 ≡ true)
unfolding names
names_full_iff now p = (ground arith, ground arith)
