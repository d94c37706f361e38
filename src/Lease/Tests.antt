-- ===== src/Lease/Tests.antt =====
-- The lease scripts on a small database, and mutual exclusion at a fleet of two workers.
use Prim.Native.String.{String}
use proactive_agent.Prelude.{◌≡◌, refl, true, false, Option, none, some, arith}
use proactive_agent.Contracts.{Value, str}
use proactive_agent.Keys.{Key, same, ownership_key, lease_key}
use proactive_agent.Redis.{Entry, Redis}
use proactive_agent.Redis.Dict.{Table, dict}
use proactive_agent.Lease.{acquire_lease, renew, release}
use proactive_agent.Lease.Fence.{
  lock, fenced, gave_up, kept_lease, try_fence, acquire_fence, renew_lock,
}
use proactive_agent.Lease.Fence.Fenced.{IsFenced, try_fence-IsFenced}
use proactive_agent.Lease.Exclusive.{Fleet, acquires, here, next, reply, lease-exclusive}

abbrev redis : Redis Key Value same
redis = dict Key Value same

abbrev owned : Key → Option (Entry Value)
owned (ownership_key g) = some (record { value = str "external"; deadline = none })
owned _ = none

abbrev start : Table Key Value
start = record { now = 0; at = owned }

abbrev fleet : Fleet redis 7
fleet = record { db = start; until = λ token. 0 }

abbrev leased : Fleet redis 7
leased = reply redis 7 "a" 180 (acquire_lease redis 7 "a" 180 start) fleet

-- the second worker is refused, and the bot's worker cannot release the first one's lease
contended :
    ((acquire_lease redis 7 "a" 180 start).1 ≡ true)
    × ((acquire_lease redis 7 "b" 180 leased.db).1 ≡ false)
    × ((release redis 7 "b" leased.db).1 ≡ false)
    × ((renew redis 7 "a" 180 leased.db).1 ≡ true)
unfolding acquire_lease release renew
contended = (refl, refl, refl, refl)

lease-exclusive_example : ◌≡◌ {A = String} "a" "a"
unfolding acquire_lease
lease-exclusive_example =
    lease-exclusive redis 7 fleet leased "a" "a" (λ token. refl)
      (next here (acquires fleet "a" 180)) (omega arith) (omega arith)

abbrev bot_owned : Table Key Value
bot_owned = record { now = 0; at = λ k. none }

abbrev waking : Key → Option (Entry Value)
waking (lease_key g) = some (record { value = str "z"; deadline = some 2000 })
waking _ = none

-- A wake runs for two more seconds; a pause takes one.
abbrev mid_wake : Table Key Value
mid_wake = record { now = 0; at = waking }

fenced_by_lock : (try_fence redis 7 "a" 180 600 bot_owned).1 ≡ some (lock "a")
unfolding try_fence
fenced_by_lock = refl

refused_mid_wake : (try_fence redis 7 "a" 180 600 mid_wake).1 ≡ none
unfolding try_fence
refused_mid_wake = refl

waited_for_the_wake :
    (acquire_fence redis (redis.tick 1000) 7 "a" 180 3 mid_wake).1 ≡ fenced (lock "a")
unfolding acquire_fence
waited_for_the_wake = refl

waited_too_short :
    (acquire_fence redis (redis.tick 1000) 7 "a" 180 1 mid_wake).1 ≡ gave_up kept_lease
unfolding acquire_fence
waited_too_short = refl

-- The lock has expired while the wait for a wake went on.
lock_expired :
    let d = (acquire_fence redis (redis.tick 601000) 7 "a" 180 1 mid_wake).0 in
    renew_lock redis 7 "a" 600 d ≡ (d, false)
unfolding acquire_fence renew_lock
lock_expired = refl

try_fence-IsFenced_example : IsFenced redis 7 "a" mid_wake (try_fence redis 7 "a" 180 600 mid_wake)
try_fence-IsFenced_example = try_fence-IsFenced redis 7 "a" 180 600 mid_wake
