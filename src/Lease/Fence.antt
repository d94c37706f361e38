-- ===== src/Lease/Fence.antt =====
-- How a guild is fenced while no wake may run: class PrivacyLock and `_acquire_fence` of
-- src/proactive_agent/purge.py, and `try_fence` of src/proactive_agent/idle.py.
pub mod Fenced
pub mod Waited
use Prim.Native.String.{String}
use proactive_agent.Prelude.{
  ℕ, zero, suc, ◌*◌, Bool, true, false, Option, none, some, if◌then◌else◌,
}
use proactive_agent.Contracts.{Value, str}
use proactive_agent.Keys.{Key, same, lease_key, privacy_lock_key}
use proactive_agent.Redis.{Redis, exists, get, set_px, del, pexpire}
use proactive_agent.Lease.{is_text, acquire_lease, externally_owned}

abbrev pub privacy_lock_seconds : ℕ
privacy_lock_seconds = 600

-- The guild lease, or the privacy lock.
pub data Fence : Type 0 where
  lease lock : String → Fence

-- PurgeFailed of `_acquire_fence`
pub data Refusal : Type 0 where
  kept_lease not_in_time : Refusal

-- How a turn, or the loop, of `_acquire_fence` ends; only a turn ends `busy`.
pub data Acquired : Type 0 where
  fenced : Fence → Acquired
  busy : Acquired
  gave_up : Refusal → Acquired

module _ (r : Redis Key Value same) where
  open r use {Db}

  unfoldable pub renew_lock_script : Key → String → ℕ → Db → Db × Bool
  renew_lock_script key token ms d =
      if is_text token (get r key d) then (pexpire r key ms d, true) else (d, false)

  unfoldable pub release_lock_script : Key → String → Db → Db × Bool
  release_lock_script key token d =
      if is_text token (get r key d) then (del r key d, true) else (d, false)

  -- `PrivacyLock.renew`
  unfoldable pub renew_lock : ℕ → String → ℕ → Db → Db × Bool
  unfolding renew_lock_script
  renew_lock guild_id token ttl_seconds =
      renew_lock_script (privacy_lock_key guild_id) token (ttl_seconds * 1000)

  -- `PrivacyLock.release`
  unfoldable pub release_lock : ℕ → String → Db → Db
  unfolding release_lock_script
  release_lock guild_id token d = (release_lock_script (privacy_lock_key guild_id) token d).0

  -- the lease, for a guild that the worker owns
  unfoldable pub leased : String → Db × Bool → Db × Option Fence
  leased token (d, true) = (d, some (lease token))
  leased token (d, false) = (d, none)

  -- the lock was set: a lease that is still held gives it up
  unfoldable pub unless_leased : ℕ → String → Db → Db × Option Fence
  unfolding release_lock
  unless_leased guild_id token d =
      if exists r (lease_key guild_id) d
      then (release_lock guild_id token d, none)
      else (d, some (lock token))

  unfoldable pub try_fence : ℕ → String → ℕ → ℕ → Db → Db × Option Fence
  unfolding leased unless_leased acquire_lease externally_owned
  try_fence guild_id token lease_seconds fence_seconds d =
      if externally_owned r guild_id d
      then leased token (acquire_lease r guild_id token lease_seconds d)
      else if exists r (privacy_lock_key guild_id) d
      then (d, none)
      else unless_leased guild_id token
          (set_px r (privacy_lock_key guild_id) (str token) (fence_seconds * 1000) d)

  -- `sleep` is a pause, with what others do to Redis meanwhile; `polls` pauses are left before the
  -- deadline.
  module _ (sleep : Db → Db) (guild_id : ℕ) (token : String) (lease_seconds : ℕ) where
    -- while a wake still holds its lease
    unfoldable pub wait_lease : ℕ → Db → Db × Acquired
    unfolding release_lock
    wait_lease zero d =
        if exists r (lease_key guild_id) d
        then (release_lock guild_id token d, gave_up kept_lease)
        else (d, fenced (lock token))
    wait_lease (suc polls) d =
        let rest = wait_lease polls (sleep d) in
        if exists r (lease_key guild_id) d then rest else (d, fenced (lock token))

    unfoldable pub from_lease : Db × Option Fence → Db × Acquired
    from_lease (d, none) = (d, busy)
    from_lease (d, some fence) = (d, fenced fence)

    -- one turn of the loop
    unfoldable pub attempt_fence : ℕ → Db → Db × Acquired
    unfolding from_lease leased wait_lease acquire_lease externally_owned
    attempt_fence polls d =
        if externally_owned r guild_id d
        then from_lease (leased token (acquire_lease r guild_id token lease_seconds d))
        else if exists r (privacy_lock_key guild_id) d
        then (d, busy)
        else wait_lease polls
            (set_px r (privacy_lock_key guild_id) (str token) (privacy_lock_seconds * 1000) d)

    unfoldable pub or_again : Db × Acquired → (Db → Db × Acquired) → Db × Acquired
    or_again (d, busy) again = again d
    or_again (d, fenced fence) again = (d, fenced fence)
    or_again (d, gave_up why) again = (d, gave_up why)

    unfoldable pub acquire_fence : ℕ → Db → Db × Acquired
    unfolding attempt_fence or_again
    acquire_fence zero d = or_again (attempt_fence zero d) (λ d'. (d', gave_up not_in_time))
    acquire_fence (suc polls) d =
        or_again (attempt_fence (suc polls) d) (λ d'. acquire_fence polls (sleep d'))
