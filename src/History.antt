-- ===== src/History.antt =====
-- src/proactive_agent/history.py: snapshots, and the scripts that are the only writes of a guild's v1
-- history key. A history is a value of a type `H` with a checksum; both are parameters.
pub mod Monotone
pub mod Repository
pub mod Writer
pub mod Tests
use proactive_agent.Prelude.{
  ℕ, ◌+◌, Bool, true, false, not, Option, none, some, ltb, leb, ◌==◌, if◌then◌else◌,
}
use proactive_agent.Keys.{
  Key, same, history_key, history_meta_key, history_invalid_key, history_idle_key,
}
use proactive_agent.Redis.{Redis, exists, get, set, del, modify}

-- HistorySnapshot of contracts.py
pub record Snapshot (H : Type 0) : Type 0 where
  pub guild_id : ℕ
  pub revision : ℕ
  pub checksum : ℕ
  pub history : H

-- The value that a purge leaves in a tombstone.
pub record Tombstone : Type 0 where
  pub run_id : ℕ
  pub request_id : ℕ
  pub revision : Option ℕ

-- What the history keys of Redis hold. Text that does not parse as a snapshot is `garbled`, with
-- the revision that its first match of `"revision":` gives.
pub data Stored (H : Type 0) : Type 0 where
  snapshot : Snapshot H → Stored H
  garbled : Option ℕ → Stored H
  -- `written_at` in seconds, and the fresh flag
  meta : ℕ → Bool → Stored H
  tombstone_of : Tombstone → Stored H
  unreadable_tombstone : Stored H
  score : ℕ → Stored H
  -- the legacy key: a list of messages, or text that is none
  legacy : H → Stored H
  unreadable_legacy : Stored H
  epoch : ℕ → Stored H
  -- how a tombstone was cleared: by a later run, or from Postgres
  cleared : Bool → Stored H

abbrev pub purge_revision_gap : ℕ
purge_revision_gap = 1000

-- `revision and revision >= tonumber(…)`
abbrev pub at_least : ℕ → Option ℕ → Bool
at_least n none = false
at_least n (some m) = leb n m

abbrev pub below : ℕ → Option ℕ → Bool
below n none = false
below n (some m) = ltb m n

module _ {H : Type 0} where
  -- `string.match(current, '"revision":(%d+)')`
  abbrev pub revision_of : Option (Stored H) → Option ℕ
  revision_of (some (snapshot s)) = some s.revision
  revision_of (some (garbled n)) = n
  revision_of _ = none

module _ {H : Type 0} (history_checksum : H → ℕ) where
  unfoldable pub build_snapshot : ℕ → H → ℕ → Snapshot H
  build_snapshot guild_id history revision = record {
    guild_id = guild_id;
    revision = revision;
    checksum = history_checksum history;
    history = history;
  }

  unfoldable pub snapshot_is_valid : Snapshot H → Bool
  snapshot_is_valid s = s.checksum == history_checksum s.history

module _ {H : Type 0} (r : Redis Key (Stored H) same) where
  open r use {Db}

  restart_clock : Key → Option ℕ → Bool → Db → Db
  restart_clock meta_key none fresh d = d
  restart_clock meta_key (some written_at) fresh d = modify r meta_key (meta written_at fresh) d

  -- `_CACHE_IF_NEWER_LUA`
  unfoldable pub cache_if_newer : Key → Key → Key → Snapshot H → Option ℕ → Bool → Db → Db × Bool
  unfolding restart_clock
  cache_if_newer key invalid meta_key s written_at fresh d =
      if exists r invalid d
      then (d, false)
      else if at_least s.revision (revision_of (get r key d))
      then (d, false)
      else (restart_clock meta_key written_at fresh (set r key (snapshot s) d), true)

  -- `_WRITE_PURGED_LUA`
  unfoldable pub write_purged_script : Key → Key → Key → Snapshot H → ℕ → Db → Db
  write_purged_script key invalid meta_key s written_at d =
      modify r meta_key (meta written_at false) (del r invalid (set r key (snapshot s) d))

  -- `_DELETE_IF_OLDER_LUA`
  unfoldable pub delete_if_older : Key → ℕ → Db → Db × Bool
  delete_if_older key revision d =
      if below revision (revision_of (get r key d)) then (del r key d, true) else (d, false)
