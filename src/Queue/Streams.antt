-- ===== src/Queue/Streams.antt =====
-- Wake batches and the streams they come from: the records of src/proactive_agent/queue.py, and the
-- parameter `Streams` for Redis streams with their consumer groups.
use Prim.Native.String.{String}
use proactive_agent.Prelude.{
  ℕ, ◌≡◌, Bool, true, false, not, ◌&&◌, Option, List, [], ◌∷◌, ◌++◌, map, ◌==◌, if◌then◌else◌,
  select, any, all,
}
use proactive_agent.Contracts.{NotificationEnvelope, NotificationKind, Value}
use proactive_agent.Keys.{
  Key, same, wake_stream_key, forum_wake_stream_key, ready_stream_key, forum_ready_stream_key,
}
use proactive_agent.Redis.{Redis, Entry}

pub record ReadyRecord : Type 0 where
  pub stream_id : ℕ
  pub guild_id : ℕ
  pub forum : Bool

pub record StreamNotification : Type 0 where
  pub stream_id : ℕ
  pub envelope : NotificationEnvelope
  pub forum : Bool

pub record WakeBatch : Type 0 where
  pub guild_id : ℕ
  pub wake_id : ℕ
  pub ready_ids : List ℕ
  pub waking : List StreamNotification
  pub pending : List NotificationEnvelope
  pub dropped : ℕ
  pub forum : Bool

unfoldable pub notifications : WakeBatch → List NotificationEnvelope
notifications batch = batch.pending ++ map (λ item. item.envelope) batch.waking

unfoldable pub passive : WakeBatch → Bool
passive batch = is_full batch.waking && all (λ item. item.envelope.passive) batch.waking
  where
    is_full : List StreamNotification → Bool
    is_full [] = false
    is_full (x ∷ xs) = true

-- One notification of a dead letter's payload.
pub record Note : Type 0 where
  pub notification_id : ℕ
  pub channel_id : ℕ
  pub kind : NotificationKind
  pub message_ids : List ℕ

pub record DeadLetter : Type 0 where
  pub guild_id : ℕ
  pub source_stream_id : ℕ
  pub wake_id : ℕ
  pub dropped : ℕ
  pub notes : List Note
  pub error : String
  pub attempts : ℕ

-- A lane's streams. `entries` is what a stream holds; claiming and reading hand entries to this
-- consumer and keep them; `remove` is XACK and XDEL of the ids.
pub record Streams (r : Redis Key Value same) : Type 1 where
  pub entries : Key → r.Db → List (ℕ × NotificationEnvelope)
  pub xgroup_create : Key → r.Db → r.Db
  pub xautoclaim : Key → r.Db → r.Db × List (ℕ × NotificationEnvelope)
  pub xreadgroup : Key → r.Db → r.Db × List (ℕ × NotificationEnvelope)
  pub remove : Key → List ℕ → r.Db → r.Db
  pub dead_letters : r.Db → List DeadLetter
  -- XADD with its trimming, then `trim_dead_letters`: the newest comes first
  pub add_dead_letter : DeadLetter → r.Db → r.Db
  pub lookup-xgroup_create : (s k : Key) (d : r.Db) → r.lookup (xgroup_create s d) k ≡ r.lookup d k
  pub lookup-xautoclaim : (s k : Key) (d : r.Db) → r.lookup (xautoclaim s d).0 k ≡ r.lookup d k
  pub lookup-xreadgroup : (s k : Key) (d : r.Db) → r.lookup (xreadgroup s d).0 k ≡ r.lookup d k
  pub lookup-remove :
      (s k : Key) (ids : List ℕ) (d : r.Db) → r.lookup (remove s ids d) k ≡ r.lookup d k
  pub lookup-add_dead_letter :
      (k : Key) (x : DeadLetter) (d : r.Db) → r.lookup (add_dead_letter x d) k ≡ r.lookup d k
  pub entries-remove :
      (s t : Key) (ids : List ℕ) (d : r.Db)
      → entries t (remove s ids d) ≡ (
          if same s t
          then select (λ e. not (any (λ i. i == e.0) ids)) (entries t d)
          else entries t d)
  pub entries-write :
      (t k : Key) (e : Option (Entry Value)) (d : r.Db) → entries t (r.write k e d) ≡ entries t d
  pub entries-add_dead_letter :
      (t : Key) (x : DeadLetter) (d : r.Db) → entries t (add_dead_letter x d) ≡ entries t d
  pub dead_letters-add :
      (x : DeadLetter) (d : r.Db)
      → (older : List DeadLetter) × (dead_letters (add_dead_letter x d) ≡ x ∷ older)
  pub dead_letters-write :
      (k : Key) (e : Option (Entry Value)) (d : r.Db)
      → dead_letters (r.write k e d) ≡ dead_letters d
  pub dead_letters-remove :
      (s : Key) (ids : List ℕ) (d : r.Db) → dead_letters (remove s ids d) ≡ dead_letters d

unfoldable pub ready_stream : Bool → Key
ready_stream forum = if forum then forum_ready_stream_key else ready_stream_key

unfoldable pub wake_stream : ℕ → Bool → Key
wake_stream guild_id forum =
    if forum then forum_wake_stream_key guild_id else wake_stream_key guild_id

abbrev pub of_lane : Bool → List ReadyRecord → List ReadyRecord
of_lane forum = select (λ record'. if forum then record'.forum else not record'.forum)
