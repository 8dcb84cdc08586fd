-- ===== src/Examples/Listings.antt =====
-- Listings of messages at concrete inputs.
use ha_zte_router_5g_monitor.Prelude.{
  ℕ, ◌+◌, ◌-◌, ◌≤◌, ◌≡◌, refl, Bool, false, Option, none, some, List, [], ◌∷◌, length, count_if,
}
use ha_zte_router_5g_monitor.Prelude.Int.{pos}
use ha_zte_router_5g_monitor.Value.{Value, null, int}
use ha_zte_router_5g_monitor.Sms.{
  Sms, Tracking, dated, undated, messages_beyond_the_newest, check_new_sms, newest_first, sort_by,
  check_sorted, establish, is_new, hash_of,
}
use ha_zte_router_5g_monitor.Sms.Sorting.{All}
use ha_zte_router_5g_monitor.Sms.Kept.{rank, kept, messages_beyond_the_newest_lem}
use ha_zte_router_5g_monitor.Sms.Announced.{is_same, check_all, never_announced_again}

-- A date that is a number names that instant.
abbrev instant : Value → Option ℕ
instant (int (pos n)) = some n
instant _ = none

abbrev first_sms : Sms
first_sms = record { id = "1"; number = 1; date = int (pos 100); date_text = "100" }

abbrev second_sms : Sms
second_sms = record { id = "2"; number = 2; date = int (pos 200); date_text = "200" }

abbrev undated_sms : Sms
undated_sms = record { id = "3"; number = 3; date = null; date_text = "None" }

abbrev nothing_seen : Tracking
nothing_seen = record { last_timestamp = null; fired = [] }

abbrev inbox : List Sms
inbox = undated_sms ∷ first_sms ∷ second_sms ∷ []

-- The second message is announced when it appears.
announced_test :
    (check_new_sms instant inbox (check_new_sms instant (first_sms ∷ []) nothing_seen).1).0
    ≡ (200, second_sms) ∷ []
unfolding check_new_sms check_sorted dated sort_by establish is_new hash_of
announced_test = refl

beyond_test : messages_beyond_the_newest instant inbox 1 ≡ first_sms ∷ undated_sms ∷ []
unfolding messages_beyond_the_newest newest_first dated undated sort_by
beyond_test = refl

messages_beyond_the_newest_lem_example :
    All
      (λ (x : Sms). All (λ (m : Sms). rank instant x ≤ rank instant m) (kept instant inbox 1))
      (messages_beyond_the_newest instant inbox 1)
    × (length (messages_beyond_the_newest instant inbox 1) ≡ 3 - 1)
    × ((p : Sms → Bool)
        → count_if p (kept instant inbox 1)
            + count_if p (messages_beyond_the_newest instant inbox 1)
          ≡ count_if p inbox)
messages_beyond_the_newest_lem_example = messages_beyond_the_newest_lem instant inbox 1

never_announced_again_example :
    All
      (λ x.
        All
          (λ y. is_same x y ≡ false)
          (check_new_sms instant inbox (
            check_all instant
              ((first_sms ∷ []) ∷ [])
              (check_new_sms instant inbox nothing_seen).1)).0)
      (dated instant inbox)
never_announced_again_example =
    never_announced_again instant inbox ((first_sms ∷ []) ∷ []) inbox nothing_seen
