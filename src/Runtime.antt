-- ===== src/Runtime.antt =====
-- What class GuildRuntime of src/proactive_agent/runtime.py keeps of a guild's history between wakes,
-- and how a wake brings it up to date with the stores.
pub mod Synced
pub mod Dispatch
mod Tests
use proactive_agent.Prelude.{
  ℕ, Bool, true, false, not, ◌&&◌, Option, none, some, ◌==◌, if◌then◌else◌,
}
use proactive_agent.Text.{Text}
use proactive_agent.Keys.{Key, same, history_key, history_invalid_key, purge_epoch_key}
use proactive_agent.Redis.{Redis, exists, get}
use proactive_agent.History.{Snapshot, Stored, revision_of}
use proactive_agent.History.Repository.{
  Error, Outcome, Api, returns, raises, recover_tombstone, load,
}
use proactive_agent.History.Writer.{Writer, discard}
use proactive_agent.Purge.Guild.{epoch_of}

-- `history` is the agent runner's, and the memory block is kept with the time of its refresh.
pub record GuildRuntime (H : Type 0) : Type 0 where
  pub history_loaded : Bool
  pub history : H
  pub history_revision : ℕ
  pub memory_block : Option Text
  pub memory_refreshed_at : ℕ
  pub purge_epoch : Option ℕ
  pub store_synced : Bool

-- HistoryUnavailableError, or an error of the stores
pub data Refusal : Type 0 where
  history_unavailable : Refusal
  store_error : Error → Refusal

pub data Reply (A : Type 0) : Type 0 where
  ready : A → Reply A
  refused : Refusal → Reply A

abbrev pub same_number : Option ℕ → Option ℕ → Bool
same_number none none = true
same_number (some m) (some n) = m == n
same_number _ _ = false

module _ {H : Type 0} (empty : H) where
  unfoldable pub forget_history : GuildRuntime H → GuildRuntime H
  forget_history g = record g {
    history_loaded = false;
    history = empty;
    memory_block = none;
    memory_refreshed_at = 0;
  }

  -- `forget` of GuildRuntimeRegistry, whose runtimes are a function of the guild
  unfoldable pub forget_runtime : ℕ → (ℕ → Option (GuildRuntime H)) → ℕ → Option (GuildRuntime H)
  unfolding forget_history
  forget_runtime guild_id runtimes other =
      if other == guild_id then forgotten (runtimes other) else runtimes other
    where
      forgotten : Option (GuildRuntime H) → Option (GuildRuntime H)
      forgotten none = none
      forgotten (some g) = some (forget_history g)

module _ {H : Type 0} (r : Redis Key (Stored H) same) (a : Api H) where
  pub record State : Type 0 where
    pub runtime : GuildRuntime H
    pub redis : r.Db
    pub api : a.Db
    pub writer : Writer H

module _ {H : Type 0} (history_checksum : H → ℕ) (empty : H) (r : Redis Key (Stored H) same)
    (a : Api H) (guild_id now : ℕ) where
  open r use {Db}

  -- `_STORE_STATE_LUA`
  unfoldable pub store_state : Db → Option ℕ × Option ℕ × Bool
  store_state d = (
    epoch_of (get r (purge_epoch_key guild_id) d),
    revision_of (get r (history_key guild_id) d),
    exists r (history_invalid_key guild_id) d,
  )

  -- after `recover_tombstone`
  unfoldable pub after_recovery :
      Option ℕ → State r a → Db × Outcome Bool → State r a × Reply (Unit {0})
  after_recovery epoch s (d, raises e) = (record s { redis = d }, refused (store_error e))
  after_recovery epoch s (d, returns false) = (record s { redis = d }, refused history_unavailable)
  after_recovery epoch s (d, returns true) = (
    record s { redis = d; runtime = record s.runtime { purge_epoch = epoch; store_synced = true } },
    ready tt,
  )

  -- a tombstoned guild's copy, and its dirty copy
  unfoldable pub drop_copies : State r a → State r a
  unfolding forget_history discard
  drop_copies s = record s {
    runtime = record (forget_history empty s.runtime) { store_synced = false };
    writer = (discard guild_id s.writer).0;
  }

  unfoldable pub sync_tombstoned : Option ℕ → State r a → State r a × Reply (Unit {0})
  unfolding drop_copies recover_tombstone after_recovery
  sync_tombstoned epoch s =
      after_recovery epoch (drop_copies s)
        (recover_tombstone history_checksum r a guild_id now s.redis s.api)

  -- the runtime's copy, against the stored epoch and revision
  unfoldable pub sync_copy : Option ℕ → Option ℕ → GuildRuntime H → GuildRuntime H
  unfolding forget_history
  sync_copy epoch revision g =
      if g.store_synced && not (same_number epoch g.purge_epoch)
      then forget_history empty g
      else if g.history_loaded && not (same_number revision (some g.history_revision))
      then record g { history_loaded = false; history = empty }
      else g

  unfoldable pub sync_with_store : State r a → State r a × Reply (Unit {0})
  unfolding store_state sync_tombstoned sync_copy
  sync_with_store s =
      let (epoch, revision, invalid) = store_state s.redis in
      if invalid then sync_tombstoned epoch s else (
        record s {
          runtime = record (sync_copy epoch revision s.runtime) {
            purge_epoch = epoch;
            store_synced = true;
          };
        },
        ready tt,
      )

  unfoldable pub keep_loaded : State r a → Db × Outcome (Snapshot H) → State r a × Reply (Unit {0})
  keep_loaded s (d, raises e) = (record s { redis = d }, refused (store_error e))
  keep_loaded s (d, returns copy) = (
    record s {
      redis = d;
      runtime = record s.runtime {
        history_loaded = true;
        history = copy.history;
        history_revision = copy.revision;
      };
    },
    ready tt,
  )

  -- `_load_history`, without pydantic's reading of the messages
  unfoldable pub load_history : State r a → State r a × Reply (Unit {0})
  unfolding load keep_loaded
  load_history s =
      if s.runtime.history_loaded
      then (s, ready tt)
      else keep_loaded s (load history_checksum empty r a guild_id now s.redis s.api)
