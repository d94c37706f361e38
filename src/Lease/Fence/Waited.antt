-- ===== src/Lease/Fence/Waited.antt =====
-- How `_acquire_fence` of src/proactive_agent/purge.py ends, whatever others do while it sleeps.
use Prim.Native.String.{String}
use proactive_agent.Prelude.{ℕ, zero, suc, ◌≡◌, ◌≢◌, false, some}
use proactive_agent.Contracts.{Value, str}
use proactive_agent.Keys.{Key, same, lease_key, privacy_lock_key}
use proactive_agent.Redis.{Redis, exists, get}
use proactive_agent.Lease.Fence.{
  Fence, kept_lease, not_in_time, lease, lock, Acquired, fenced, busy, gave_up,
}

module _ (r : Redis Key Value same) (sleep : r.Db → r.Db) (guild_id : ℕ) (token : String)
    (lease_seconds : ℕ) where
  -- Redis after so many pauses.
  pub sleeps : ℕ → r.Db → r.Db
  sleeps zero d = d
  sleeps (suc n) d = sleep (sleeps n d)

  -- How the wait ends: with the worker's own lease and no lock; with the lock, which was set so many
  -- pauses ago, and no lease; or by giving up, without a lock of its own if it had set one.
  pub data IsAcquired : r.Db × Acquired → Type 0 where
    holds_lease :
        {d : r.Db}
        → get r (lease_key guild_id) d ≡ some (str token)
        → exists r (privacy_lock_key guild_id) d ≡ false
        → IsAcquired (d, fenced (lease token))
    outwaited :
        {d : r.Db} (n : ℕ) (taken : r.Db)
        → get r (privacy_lock_key guild_id) taken ≡ some (str token)
        → d ≡ sleeps n taken
        → exists r (lease_key guild_id) d ≡ false
        → IsAcquired (d, fenced (lock token))
    outlasted :
        {d : r.Db}
        → get r (privacy_lock_key guild_id) d ≢ some (str token)
        → IsAcquired (d, gave_up kept_lease)
    too_late : {d : r.Db} → IsAcquired (d, gave_up not_in_time)

  data IsTurn : r.Db × Acquired → Type 0 where
    settled : {x : r.Db × Acquired} → IsAcquired x → IsTurn x
    not_yet : {d : r.Db} → IsTurn (d, busy)
