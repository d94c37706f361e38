-- ===== src/Queue/Batch.antt =====
-- class RedisWakeQueue of src/proactive_agent/queue.py: how a wake's batch is put together, and what
-- joins it while the wake runs. The database is passed along and comes back beside each result.
use proactive_agent.Prelude.{
  ℕ, ◌+◌, Bool, true, false, Option, none, some, List, [], ◌∷◌, ◌++◌, map, min, ◌==◌, if◌then◌else◌,
  any,
}
use proactive_agent.Contracts.{NotificationEnvelope, Value}
use proactive_agent.Keys.{Key, same}
use proactive_agent.Redis.{Redis, pexpireat_lt}
use proactive_agent.Queue.{pending_keys, claim_script, append_script, in_flight_max_milliseconds}
use proactive_agent.Queue.Streams.{
  ReadyRecord, StreamNotification, WakeBatch, Streams, wake_stream, of_lane,
}

oldest : ℕ → List NotificationEnvelope → ℕ
oldest t [] = t
oldest t (e ∷ es) = oldest (min t e.created_at) es

stream_notification : Bool → ℕ × NotificationEnvelope → StreamNotification
stream_notification forum e = record { stream_id = e.0; envelope = e.1; forum = forum }

module _ (r : Redis Key Value same) (x : Streams r) where
  open r use {Db}
  open x use {xgroup_create, xautoclaim, xreadgroup}

  -- `_expire_with_oldest`
  unfoldable pub expire_with_oldest : Key → List NotificationEnvelope → Db → Db
  unfolding oldest
  expire_with_oldest key [] d = d
  expire_with_oldest key (e ∷ es) d =
      pexpireat_lt r key (oldest e.created_at es + in_flight_max_milliseconds) d

  -- `_ensure_guild_group`: the guilds whose groups this process has made
  unfoldable pub ensure_guild_group : ℕ → List ℕ → Db → Db × List ℕ
  unfolding wake_stream
  ensure_guild_group guild_id known d = if any (λ g. g == guild_id) known then (d, known) else (
    xgroup_create (wake_stream guild_id true) (xgroup_create (wake_stream guild_id false) d),
    guild_id ∷ known,
  )

  unfoldable pub read_new : ℕ → Bool → Db → Db × List StreamNotification
  unfolding wake_stream stream_notification
  read_new guild_id forum d =
      let (d', found) = xreadgroup (wake_stream guild_id forum) d in
      (d', map (stream_notification forum) found)

  -- the second half of `build_batch`, from the notifications that were claimed and read
  assemble : ℕ → List ReadyRecord → Bool → List StreamNotification → Db → Db × Option WakeBatch
  unfolding pending_keys claim_script expire_with_oldest
  assemble guild_id ready_records forum [] d = (d, none)
  assemble guild_id ready_records forum (first ∷ rest) d =
      let wake_id = first.envelope.notification_id in
      let keys = pending_keys guild_id wake_id forum in
      let (d', (dropped, pending)) = claim_script r keys in_flight_max_milliseconds d in
      (
        expire_with_oldest keys.batch pending d',
        some (record {
          guild_id = guild_id;
          wake_id = wake_id;
          ready_ids = map (λ record'. record'.stream_id) (of_lane forum ready_records);
          waking = first ∷ rest;
          pending = pending;
          dropped = dropped;
          forum = forum;
        }),
      )

  unfoldable pub build_batch :
      ℕ → List ReadyRecord → Bool → List ℕ → Db → Db × Option WakeBatch × List ℕ
  unfolding ensure_guild_group wake_stream stream_notification read_new assemble
  build_batch guild_id ready_records forum known d =
      let (d₁, known') = ensure_guild_group guild_id known d in
      let (d₂, claimed) = xautoclaim (wake_stream guild_id forum) d₁ in
      let (d₃, new) = read_new guild_id forum d₂ in
      let (d₄, batch) =
        assemble guild_id ready_records forum (map (stream_notification forum) claimed ++ new) d₃ in
      (d₄, batch, known')

  unfoldable pub drain_midrun : WakeBatch → Db → Db × WakeBatch × List NotificationEnvelope × ℕ
  unfolding read_new pending_keys append_script expire_with_oldest
  drain_midrun batch d =
      let (d₁, newly_waking) = read_new batch.guild_id batch.forum d in
      let keys = pending_keys batch.guild_id batch.wake_id batch.forum in
      let (d₂, (dropped, newly_pending)) = append_script r keys in_flight_max_milliseconds d₁ in
      (
        expire_with_oldest keys.batch newly_pending d₂,
        record batch {
          waking = batch.waking ++ newly_waking;
          pending = batch.pending ++ newly_pending;
          dropped = batch.dropped + dropped;
        },
        newly_pending ++ map (λ item. item.envelope) newly_waking,
        dropped,
      )
