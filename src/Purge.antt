-- ===== src/Purge.antt =====
-- The purge of one user from a guild's state in src/proactive_agent/purge.py: its stores, its
-- failures and its outcomes, and what of a call may fail.
pub mod History
pub mod Guild
pub mod Delivery
mod Tests
use proactive_agent.Prelude.{ℕ, Bool, true, false, Option, none, some, List}
use proactive_agent.History.Writer.{Fault}

pub data Store : Type 0 where
  redis_history postgres_history watch_instructions : Store
  queued_notifications legacy_history dead_letters : Store

-- Why a purge failed: by PurgeFailed for the reason that its detail names; by PurgeRetry, where the
-- legacy key was left; by PartialPurgeError, with its flag; because the PUT failed; or by any other
-- exception.
pub data Why : Type 0 where
  unreadable_legacy_store tombstoned_without_copy still_held_id fence_lost not_fenced : Why
  legacy_left : Why
  partial_purge : Bool → Why
  put_failed other : Why

-- Postgres holds the purged history, so the entry is kept pending: PurgeRetry or PartialPurgeError.
abbrev pub is_retry : Why → Bool
is_retry legacy_left = true
is_retry (partial_purge tombstoned) = true
is_retry _ = false

abbrev pub is_partial : Why → Bool
is_partial (partial_purge tombstoned) = true
is_partial _ = false

-- A step returns or raises.
pub data Ended (A : Type 0) : Type 0 where
  ended : A → Ended A
  raised : Why → Ended A

-- What of one purge fails: reads of Redis, the calls of `replace_purged`, the deletion of the legacy
-- key, the bump of the epoch, the note on a cleared tombstone, and the last look at the tombstone;
-- and whether the fence was lost before the history or the instructions are written.
pub record Weather : Type 0 where
  pub reads : Bool
  pub writing : Fault
  pub forgetting : Fault
  pub invalidating : Fault
  pub dropping_legacy : Fault
  pub bumping : Fault
  pub noting : Fault
  pub looking : Bool
  pub lost_before_write : Bool
  pub lost_before_watch : Bool

-- The command's user, as the purge looks for them in a history: `fold` is `purge_agent_history` by
-- the guild's model with the number of names left in its note, or none where it fails.
pub record Target (H : Type 0) : Type 0 where
  pub is_empty_history : H → Bool
  pub needs_no_fold : H → Bool
  pub holds_id : H → Bool
  pub fold : H → Option (H × ℕ)

-- PurgeCommand, and the guild that is purged
pub record Command : Type 0 where
  pub run_id : ℕ
  pub request_id : ℕ
  pub guild_id : ℕ

pub data Verdict : Type 0 where
  purged unchanged failed : Verdict

-- GuildOutcome without its texts
pub record GuildOutcome : Type 0 where
  pub outcome : Verdict
  pub stores : List Store
  pub name_hits : Option ℕ
  pub tombstoned : Bool
  pub retry : Bool
