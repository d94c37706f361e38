-- ===== src/Queue/Settle.antt =====
-- class RedisWakeQueue of src/proactive_agent/queue.py: how a wake's batch ends, acknowledged,
-- dead-lettered after its last attempt, or discarded when the bot owns the guild again.
use Prim.Native.Char.{code}
use Prim.Native.String.{String}
use proactive_agent.Prelude.{
  ℕ, zero, suc, ◌==◌, ◌+◌, ◌*◌, Bool, true, false, none, some, List, [], ◌∷◌, map, ltb,
  if◌then◌else◌,
}
use proactive_agent.Contracts.{NotificationEnvelope, Value, str, number}
use proactive_agent.Keys.{Key, same, attempts_key, batch_key, batch_dropped_key, failure_notice_key}
use proactive_agent.Redis.{Redis, exists, get, set_px, del, pexpire, increment}
use proactive_agent.Lease.{externally_owned}
use proactive_agent.Queue.{counter, count_of}
use proactive_agent.Queue.Streams.{
  ReadyRecord, StreamNotification, WakeBatch, notifications, Note, DeadLetter, Streams,
  ready_stream, wake_stream, of_lane,
}
use proactive_agent.Queue.Batch.{build_batch}

-- `error.split(":", 1)[0][:size]`
unfoldable pub error_type : ℕ → String → String
error_type zero error = String.[]
error_type (suc size) String.[] = String.[]
error_type (suc size) (String.◌∷◌ c error) =
    let rest = error_type size error in if code c == 58 then String.[] else String.◌∷◌ c rest

module _ (r : Redis Key Value same) (x : Streams r) where
  open r use {Db}
  open x use {remove, add_dead_letter}

  -- XACK and XDEL of ids, where there are any
  unfoldable pub remove_ids : Key → List ℕ → Db → Db
  remove_ids stream [] d = d
  remove_ids stream (i ∷ ids) d = remove stream (i ∷ ids) d

  unfoldable pub acknowledge : WakeBatch → Db → Db
  unfolding remove_ids wake_stream ready_stream
  acknowledge batch d = del r (attempts_key batch.guild_id batch.wake_id) (
      del r (batch_dropped_key batch.guild_id batch.wake_id) (
        del r (batch_key batch.guild_id batch.wake_id) (
          remove_ids (ready_stream batch.forum) batch.ready_ids (
            remove_ids (wake_stream batch.guild_id batch.forum)
              (map (λ item. item.stream_id) batch.waking) d))))

  unfoldable pub acknowledge_ready : List ReadyRecord → Db → Db
  unfolding remove_ids ready_stream
  acknowledge_ready records d =
      remove_ids (ready_stream true) (map (λ record'. record'.stream_id) (of_lane true records)) (
        remove_ids (ready_stream false) (map (λ record'. record'.stream_id) (of_lane false records))
          d)

  -- The payload's notifications, without their text.
  unfoldable pub note : NotificationEnvelope → Note
  note item = record {
    notification_id = item.notification_id;
    channel_id = item.channel_id;
    kind = item.kind;
    message_ids = item.message_ids;
  }

  abbrev pub first_id : List StreamNotification → ℕ
  first_id [] = 0
  first_id (item ∷ items) = item.stream_id

  unfoldable pub dead_letter_of : WakeBatch → String → ℕ → DeadLetter
  unfolding notifications note
  dead_letter_of batch error attempts = record {
    guild_id = batch.guild_id;
    source_stream_id = first_id batch.waking;
    wake_id = batch.wake_id;
    dropped = batch.dropped;
    notes = map note (notifications batch);
    error = error;
    attempts = attempts;
  }

  -- INCR and EXPIRE of the batch's counter of attempts
  unfoldable pub count_attempt : WakeBatch → Db → Db × ℕ
  count_attempt batch d =
      let key = attempts_key batch.guild_id batch.wake_id in
      (
        pexpire r key (7 * 24 * 60 * 60 * 1000)
            (increment r key number (counter (get r key d)) 1 d),
        count_of (get r key d) + 1,
      )

  unfoldable pub record_failure : WakeBatch → String → ℕ → Db → Db × Bool
  unfolding error_type count_attempt dead_letter_of acknowledge
  record_failure batch error max_attempts d =
      let (d', attempts) = count_attempt batch d in
      if ltb attempts max_attempts then (d', false) else (
        acknowledge batch
            (add_dead_letter (dead_letter_of batch (error_type 200 error) attempts) d'),
        true,
      )

  -- SET NX EX of the notice's window
  unfoldable pub claim_failure_notice : ℕ → ℕ → Db → Db × Bool
  claim_failure_notice guild_id ttl_seconds d =
      let key = failure_notice_key guild_id in
      if exists r key d then (d, false) else (set_px r key (str "1") (ttl_seconds * 1000) d, true)

  -- One lane of `discard_embedded_ready`; the flag says that the loop goes on.
  discard_lane : ℕ → List ReadyRecord → Bool → List ℕ → Db → Db × List ℕ × Bool
  unfolding build_batch acknowledge acknowledge_ready externally_owned
  discard_lane guild_id ready_records forum known d =
      let (d', batch, known') = build_batch r x guild_id ready_records forum known d in
      elim batch [
        | none ↦ (acknowledge_ready (of_lane forum ready_records) d', known', true)
        | some b ↦
            if externally_owned r guild_id d'
            then (d', known', false)
            else (acknowledge b d', known', true)
      ]

  unfoldable pub discard_embedded_ready : ℕ → List ReadyRecord → List ℕ → Db → Db × List ℕ
  unfolding discard_lane
  discard_embedded_ready guild_id ready_records known d =
      let (d₁, known₁, go_on) = discard_lane guild_id ready_records false known d in
      if go_on
      then (let (d₂, known₂, _) = discard_lane guild_id ready_records true known₁ d₁ in
          (d₂, known₂))
      else (d₁, known₁)
