-- ===== src/Blocked/Tests.antt =====
-- Two replicas that report, and a user who opted back in.
use proactive_agent.Prelude.{ℕ, ◌≡◌, refl, true, false, none, some, [], ◌∷◌, ltb, arith}
use proactive_agent.Blocked.{
  BlockedUsersList, BlockedUsers, Reports, id, is_blocked, report_script, answered, refresh,
  first_snowflake,
}
use proactive_agent.Blocked.Published.{IsPublished, here, next, reports, Reach-IsPublished}
use proactive_agent.Blocked.Cutoff.{is_blocked-cutoff}
use proactive_agent.Blocked.Enforcing.{IsRefreshed, refresh-IsRefreshed}

abbrev empty : Reports
empty = record { registry = []; reported = λ k. none; aggregate = none }

abbrev two : Reports
two = report_script 2 8 (report_script 1 9 empty)

lowest_of_two : two.aggregate ≡ some 8
unfolding report_script
lowest_of_two = refl

empty-IsPublished : IsPublished empty
empty-IsPublished = record { registered = λ k v h. absurd cc; low = λ n k v h live. absurd cc }

Reach-IsPublished_example : IsPublished two
Reach-IsPublished_example =
    Reach-IsPublished empty-IsPublished (next (next here (reports 1 9)) (reports 2 8))

abbrev listing : BlockedUsersList
listing = record { revision = 8; user_ids = 40 ∷ []; read_from = (41, 1500000000000) ∷ [] }

abbrev cold_start : BlockedUsers
cold_start = record { user_ids = []; read_from = []; revision = none; enforcing = false }

refresh-IsRefreshed_example :
    IsRefreshed 2
      (some listing)
      answered
      cold_start
      empty
      (refresh 2 (some listing) answered cold_start empty)
refresh-IsRefreshed_example = refresh-IsRefreshed 2 (some listing) answered cold_start empty

abbrev back : BlockedUsers
back = record {
  user_ids = 40 ∷ [];
  read_from = (41, first_snowflake 1500000000000) ∷ [];
  revision = some 8;
  enforcing = true;
}

abbrev message : ℕ
message = 335244846694400005

is_blocked-cutoff_example : is_blocked (some 41) (id message) back ≡ ltb 1499999000000 1500000000000
is_blocked-cutoff_example =
    is_blocked-cutoff back 41 1500000000000 1499999000000 message refl refl (omega arith)
      (record { since_epoch = omega arith; low = 5; low_bits = omega arith; layout = refl })
