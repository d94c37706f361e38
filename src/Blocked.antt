-- ===== src/Blocked.antt =====
-- src/proactive_agent/blocked_users.py: the list that one process holds, and the script by which the
-- replicas publish the lowest revision that any of them enforces. Users and replicas are numbers, and
-- a moment is its milliseconds.
pub mod Published
pub mod Cutoff
pub mod Enforcing
mod Tests
use proactive_agent.Prelude.{
  ℕ, ◌+◌, ◌-◌, ◌*◌, ◌^◌, ◌≡◌, Bool, true, false, not, Option, none, some, List, [], ◌∷◌, map, any,
  select, ◌==◌, ltb, min, if◌then◌else◌,
}

abbrev pub discord_epoch_ms : ℕ
discord_epoch_ms = 1420070400000

unfoldable pub first_snowflake : ℕ → ℕ
first_snowflake moment = (moment - discord_epoch_ms) * 2 ^ 22

-- a message's id, if there is one and if it is a number
pub data MessageId : Type 0 where
  no_id unreadable : MessageId
  id : ℕ → MessageId

pub record BlockedUsersList : Type 0 where
  pub revision : ℕ
  pub user_ids : List ℕ
  pub read_from : List (ℕ × ℕ)

pub record BlockedUsers : Type 0 where
  pub user_ids : List ℕ
  pub read_from : List (ℕ × ℕ)
  pub revision : Option ℕ
  -- `_last_success is not None`
  pub enforcing : Bool

abbrev pub cutoff_of : ℕ → List (ℕ × ℕ) → Option ℕ
cutoff_of user [] = none
cutoff_of user (x ∷ xs) = if x.0 == user then some x.1 else cutoff_of user xs

before : MessageId → Option ℕ → Bool
before _ none = false
before no_id (some cutoff) = false
before unreadable (some cutoff) = true
before (id n) (some cutoff) = ltb n cutoff

unfoldable pub is_blocked : Option ℕ → MessageId → BlockedUsers → Bool
unfolding before
is_blocked none message_id b = false
is_blocked (some user) message_id b =
    if any (λ u. u == user) b.user_ids then true else before message_id (cutoff_of user b.read_from)

-- The keys of `_REPORT_ENFORCING_LUA`: the registry, each replica's own key, and the aggregate.
pub record Reports : Type 0 where
  pub registry : List ℕ
  pub reported : ℕ → Option ℕ
  pub aggregate : Option ℕ

abbrev pub is_live : (ℕ → Option ℕ) → ℕ → Bool
is_live reported replica = elim (reported replica) [ none ↦ false | some n ↦ true ]

abbrev lower : Option ℕ → Option ℕ → Option ℕ
lower none o = o
lower (some n) none = some n
lower (some n) (some m) = some (min n m)

lowest : (ℕ → Option ℕ) → List ℕ → Option ℕ
lowest reported [] = none
lowest reported (x ∷ xs) = lower (reported x) (lowest reported xs)

abbrev set_add : ℕ → List ℕ → List ℕ
set_add x xs = if any (λ y. y == x) xs then xs else x ∷ xs

unfoldable pub report_script : ℕ → ℕ → Reports → Reports
unfolding lowest
report_script replica revision s =
    let reported : ℕ → Option ℕ = λ k. if k == replica then some revision else s.reported k in
    let members = set_add replica s.registry in
    record {
      registry = select (is_live reported) members;
      reported = reported;
      aggregate = lowest reported members;
    }

-- A fetch gives a listing or fails, and the report is answered, is lost, or is done with its answer
-- lost.
pub data Reporting : Type 0 where
  answered lost unheard : Reporting

report : Reporting → ℕ → ℕ → Reports → Reports × Bool
unfolding report_script
report answered replica revision s = (report_script replica revision s, true)
report lost replica revision s = (s, false)
report unheard replica revision s = (report_script replica revision s, false)

adopt : BlockedUsersList → BlockedUsers → BlockedUsers
unfolding first_snowflake
adopt listing b = record {
  user_ids = listing.user_ids;
  read_from = map (λ x. (x.0, first_snowflake x.1)) listing.read_from;
  revision = some listing.revision;
  enforcing = b.enforcing;
}

keep_reporting_stale : Reporting → ℕ → BlockedUsers → Reports → Reports
unfolding report
keep_reporting_stale reporting replica b s = elim b.revision [
  | none ↦ s
  | some revision ↦ (report reporting replica revision s).0
]

unfoldable pub refresh :
    ℕ
    → Option BlockedUsersList
    → Reporting
    → BlockedUsers
    → Reports
    → (BlockedUsers × Reports) × Bool
unfolding report adopt keep_reporting_stale
refresh replica none reporting b s =
    if b.enforcing
    then ((b, keep_reporting_stale reporting replica b s), false)
    else ((b, s), false)
refresh replica (some listing) reporting b s =
    let b' = adopt listing b in
    let (s', reported) = report reporting replica listing.revision s in
    if reported then ((record b' { enforcing = true }, s'), true) else ((b', s'), false)
