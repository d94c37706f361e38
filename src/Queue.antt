-- ===== src/Queue.antt =====
-- src/proactive_agent/queue.py: the Redis keys of a wake's pending notifications, and the two scripts
-- that move them (`_CLAIM_PENDING_LUA`, `_APPEND_PENDING_LUA`).
pub mod Pending
pub mod Drain
pub mod Streams
pub mod Batch
pub mod Settle
pub mod Settled
pub mod Blind
pub mod Tests
use proactive_agent.Prelude.{
  ℕ, ◌+◌, ◌*◌, Bool, true, false, ◌&&◌, Option, none, some, List, [], ◌∷◌, ◌++◌, ltb, if◌then◌else◌,
}
use proactive_agent.Contracts.{NotificationEnvelope, Value, number, items}
use proactive_agent.Keys.{
  Key, pending_key, pending_dropped_key, forum_pending_key, forum_pending_dropped_key, batch_key,
  batch_dropped_key,
}
use proactive_agent.Redis.{
  Redis, exists, get, set, set_px, del, modify, pexpire, no_ttl, rename, increment,
}

abbrev pub in_flight_max_milliseconds : ℕ
in_flight_max_milliseconds = 6 * 60 * 60 * 1000

-- What LRANGE 0 -1 reads, and a counter's GET with `or '0'`
abbrev pub list_of : Option Value → List NotificationEnvelope
list_of (some (items l)) = l
list_of _ = []

abbrev pub count_of : Option Value → ℕ
count_of (some (number n)) = n
count_of _ = 0

abbrev pub counter : Option Value → Option ℕ
counter (some (number n)) = some n
counter _ = none

-- The keys of `_pending_keys`, in its order.
pub record PendingKeys (K : Type 0) : Type 0 where
  pub pending : K
  pub batch : K
  pub dropped : K
  pub batch_dropped : K

unfoldable pub pending_keys : ℕ → ℕ → Bool → PendingKeys Key
pending_keys guild_id wake_id forum = record {
  pending = if forum then forum_pending_key guild_id else pending_key guild_id;
  batch = batch_key guild_id wake_id;
  dropped = if forum then forum_pending_dropped_key guild_id else pending_dropped_key guild_id;
  batch_dropped = batch_dropped_key guild_id wake_id;
}

-- The scripts take their keys as arguments, so they are the same for keys of any kind.
module _ {K : Type 0} {same : K → K → Bool} (r : Redis K Value same) (k : PendingKeys K)
    (ms : ℕ) where
  open r use {Db}

  move_pending : Db → Db
  move_pending d =
      if exists r k.pending d then pexpire r k.batch ms (rename r k.pending k.batch d) else d

  move_dropped : Db → Db
  move_dropped d = elim (get r k.dropped d) [
    | none ↦ d
    | some v ↦ del r k.dropped (set_px r k.batch_dropped v ms d)
  ]

  -- The batch as the script returns it: the dropped count and the envelopes.
  abbrev claimed : Db → ℕ × List NotificationEnvelope
  claimed d = (count_of (get r k.batch_dropped d), list_of (get r k.batch d))

  pub claim_script : Db → Db × (ℕ × List NotificationEnvelope)
  unfolding move_pending move_dropped
  claim_script d =
      let d' = if exists r k.batch d then d else move_dropped (move_pending d) in (d', claimed d')

  -- RPUSH of every value, one after the other, onto the batch
  push_all : List NotificationEnvelope → Db → Db
  push_all [] d = d
  push_all (v ∷ vs) d =
      push_all vs (modify r k.batch (items (list_of (get r k.batch d) ++ v ∷ [])) d)

  expire_unless : K → Db → Db
  expire_unless key d = if no_ttl r key d then pexpire r key ms d else d

  append_list : List NotificationEnvelope → Db → Db
  unfolding push_all expire_unless
  append_list [] d = d
  append_list (v ∷ vs) d = expire_unless k.batch (del r k.pending (push_all (v ∷ vs) d))

  append_dropped : ℕ → Db → Db
  unfolding expire_unless
  append_dropped n d =
      if ltb 0 n
      then expire_unless k.batch_dropped (
          del r k.dropped
            (increment r k.batch_dropped number (counter (get r k.batch_dropped d)) n d))
      else d

  pub append_script : Db → Db × (ℕ × List NotificationEnvelope)
  unfolding append_list append_dropped
  append_script d =
      let values = list_of (get r k.pending d) in
      let d' = append_list values d in
      let n = count_of (get r k.dropped d') in (append_dropped n d', (n, values))
