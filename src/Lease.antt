-- ===== src/Lease.antt =====
-- The guild lease of src/proactive_agent/queue.py (`_ACQUIRE_LEASE_LUA`, `_RENEW_LEASE_LUA`,
-- `_RELEASE_LEASE_LUA`, class GuildLease) and the privacy lock of src/proactive_agent/purge.py.
-- A script returns the new database beside its reply.
pub mod Exclusive
pub mod Fence
mod Tests
use Prim.Native.String.{String}
use text.Mathlib.Text.{◌==◌ as str_eq}
use proactive_agent.Prelude.{
  ℕ, ◌*◌, Bool, true, false, ◌&&◌, not, Option, none, some, if◌then◌else◌,
}
use proactive_agent.Contracts.{Value, str}
use proactive_agent.Keys.{Key, same, lease_key, ownership_key, privacy_lock_key}
use proactive_agent.Redis.{Entry, Redis, exists, get, set_px, del, pexpire}

-- `redis.call('GET', …) == s`
abbrev pub is_text : String → Option Value → Bool
is_text s (some (str t)) = str_eq t s
is_text s _ = false

module _ (r : Redis Key Value same) where
  open r use {Db, lookup}

  unfoldable pub acquire_script : Key → Key → Key → String → ℕ → Db → Db × Bool
  acquire_script lease owner lock token ms d =
      if not (is_text "external" (get r owner d))
      then (d, false)
      else if exists r lock d
      then (d, false)
      else if exists r lease d
      then (d, false)
      else (set_px r lease (str token) ms d, true)

  unfoldable pub renew_script : Key → Key → String → ℕ → Db → Db × Bool
  renew_script lease owner token ms d =
      if is_text token (get r lease d) && is_text "external" (get r owner d)
      then (pexpire r lease ms d, true)
      else (d, false)

  unfoldable pub release_script : Key → String → Db → Db × Bool
  release_script lease token d =
      if is_text token (get r lease d) then (del r lease d, true) else (d, false)

  -- `RedisWakeQueue.acquire_lease`, with the token that `uuid4` drew; the script takes seconds.
  unfoldable pub acquire_lease : ℕ → String → ℕ → Db → Db × Bool
  unfolding acquire_script
  acquire_lease guild_id token lease_seconds =
      acquire_script (lease_key guild_id) (ownership_key guild_id) (privacy_lock_key guild_id) token
        (lease_seconds * 1000)

  -- `GuildLease.renew`
  unfoldable pub renew : ℕ → String → ℕ → Db → Db × Bool
  unfolding renew_script
  renew guild_id token ttl_seconds =
      renew_script (lease_key guild_id) (ownership_key guild_id) token (ttl_seconds * 1000)

  -- `GuildLease.release`
  unfoldable pub release : ℕ → String → Db → Db × Bool
  unfolding release_script
  release guild_id token = release_script (lease_key guild_id) token

  -- `RedisWakeQueue.externally_owned`
  unfoldable pub externally_owned : ℕ → Db → Bool
  externally_owned guild_id d = is_text "external" (get r (ownership_key guild_id) d)
