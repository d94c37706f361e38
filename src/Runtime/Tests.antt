-- ===== src/Runtime/Tests.antt =====
-- Runtimes of guild 7, on the small stores of the history's tests, where v1 is at revision 4.
use proactive_agent.Prelude.{ℕ, ◌≡◌, refl, true, false, none, some}
use proactive_agent.History.Tests.{redis, postgres, checksum_of, start, dead, rows, idle_writer}
use proactive_agent.Runtime.{GuildRuntime, State, forget_runtime, sync_with_store, load_history}
use proactive_agent.Runtime.Synced.{IsSynced, sync_with_store-IsSynced}

abbrev warm : ℕ → GuildRuntime ℕ
warm revision = record {
  history_loaded = true;
  history = 42;
  history_revision = revision;
  memory_block = none;
  memory_refreshed_at = 5;
  purge_epoch = none;
  store_synced = true;
}

abbrev current : State redis postgres
current = record { runtime = warm 4; redis = start; api = rows; writer = idle_writer }

abbrev stale : State redis postgres
stale = record current { runtime = warm 3 }

abbrev purged : State redis postgres
purged = record current { redis = dead }

kept_when_current :
    (sync_with_store checksum_of 0 redis postgres 7 200 current).0.runtime.history_loaded ≡ true
unfolding sync_with_store
kept_when_current = refl

dropped_when_stale :
    (sync_with_store checksum_of 0 redis postgres 7 200 stale).0.runtime.history_loaded ≡ false
unfolding sync_with_store
dropped_when_stale = refl

reloaded :
    (load_history checksum_of 0 redis postgres 7 200
      (sync_with_store checksum_of 0 redis postgres 7 200 stale).0).0.runtime.history_revision
    ≡ 4
unfolding sync_with_store load_history
reloaded = refl

forgotten : forget_runtime 0 7 (λ g. some (warm g)) 8 ≡ some (warm 8)
unfolding forget_runtime
forgotten = refl

sync_with_store-IsSynced_example :
    IsSynced checksum_of 0 redis postgres 7 200 purged
      (sync_with_store checksum_of 0 redis postgres 7 200 purged)
sync_with_store-IsSynced_example =
    sync_with_store-IsSynced checksum_of 0 redis postgres 7 200 purged
