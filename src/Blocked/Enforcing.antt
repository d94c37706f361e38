-- ===== src/Blocked/Enforcing.antt =====
-- When a process of src/proactive_agent/blocked_users.py starts to enforce the list.
use proactive_agent.Prelude.{
  ℕ, ◌≡◌, ◌≢◌, refl, Bool, true, false, Option, none, some, Bool-cases, inl, inr, arith,
}
use proactive_agent.Blocked.{
  keep_reporting_stale, BlockedUsersList, BlockedUsers, Reports, Reporting, answered, lost, unheard,
  report, report_script, adopt, refresh,
}

-- The ends of a refresh: the list is new and reported, it is new but not known to be reported, or
-- the fetch failed and the process goes on with what it had.
pub data IsRefreshed (replica : ℕ) (fetched : Option BlockedUsersList) (reporting : Reporting)
    (b : BlockedUsers) (s : Reports) : (BlockedUsers × Reports) × Bool → Type 0 where
  enforced :
      {b' : BlockedUsers} {s' : Reports} {listing : BlockedUsersList}
      → fetched ≡ some listing
      → reporting ≡ answered
      → b'.enforcing ≡ true
      → b'.user_ids ≡ listing.user_ids
      → b'.revision ≡ some listing.revision
      → s'.reported replica ≡ some listing.revision
      → IsRefreshed replica fetched reporting b s ((b', s'), true)
  unreported :
      {b' : BlockedUsers} {s' : Reports} {listing : BlockedUsersList}
      → fetched ≡ some listing
      → reporting ≢ answered
      → b'.enforcing ≡ b.enforcing
      → b'.user_ids ≡ listing.user_ids
      → b'.revision ≡ some listing.revision
      → IsRefreshed replica fetched reporting b s ((b', s'), false)
  stale :
      {s' : Reports}
      → fetched ≡ none
      → b.enforcing ≡ true
      → ((n : ℕ) → b.revision ≡ some n → reporting ≢ lost → s'.reported replica ≡ some n)
      → IsRefreshed replica fetched reporting b s ((b, s'), false)
  cold :
      fetched ≡ none
      → b.enforcing ≡ false
      → IsRefreshed replica fetched reporting b s ((b, s), false)

report_script-reported :
    (replica revision : ℕ) (s : Reports)
    → (report_script replica revision s).reported replica ≡ some revision
unfolding report_script
report_script-reported replica revision s = ground arith

still_reported :
    (replica : ℕ) (b : BlockedUsers) (s : Reports) (reporting : Reporting) (n : ℕ)
    → b.revision ≡ some n
    → reporting ≢ lost
    → (keep_reporting_stale reporting replica b s).reported replica ≡ some n
unfolding keep_reporting_stale report
still_reported replica b s answered n e h = rw e (report_script-reported replica n s)
still_reported replica b s unheard n e h = rw e (report_script-reported replica n s)
still_reported replica b s lost n e h = absurd (h refl)

-- A refresh succeeds exactly when the list was fetched and its report answered: then the process
-- enforces the list's users, and its own key holds the list's revision. Otherwise it enforces if it
-- did before; a failed fetch keeps its list, of which the process goes on to report the revision,
-- and reports nothing before a first success.
pub refresh-IsRefreshed :
    (replica : ℕ) (fetched : Option BlockedUsersList) (reporting : Reporting) (b : BlockedUsers)
    (s : Reports)
    → IsRefreshed replica fetched reporting b s (refresh replica fetched reporting b s)
unfolding refresh adopt report
refresh-IsRefreshed replica none reporting b s = elim (Bool-cases b.enforcing) [
  | inl on ↦ simp on (stale refl on (still_reported replica b s reporting))
  | inr off ↦ simp off (cold refl off)
]
refresh-IsRefreshed replica (some listing) answered b s =
    enforced refl refl refl refl refl (report_script-reported replica listing.revision s)
refresh-IsRefreshed replica (some listing) lost b s = unreported refl (λ h. cc) refl refl refl
refresh-IsRefreshed replica (some listing) unheard b s = unreported refl (λ h. cc) refl refl refl
