-- ===== src/Contracts.antt =====
-- The notification envelope of src/proactive_agent/contracts.py, as the queue handles it, and what
-- the queue's Redis keys hold.
use proactive_agent.Prelude.{ℕ, Bool, List}
use Prim.Native.String.{String}

pub data NotificationKind : Type 0 where
  mention reply_to_bot watcher_summary new_messages mode_change : NotificationKind
  instruction_expired recovery reaction channel_enabled : NotificationKind

pub record NotificationEnvelope : Type 0 where
  pub notification_id : ℕ
  pub guild_id : ℕ
  pub channel_id : ℕ
  pub channel_name : String
  pub kind : NotificationKind
  -- milliseconds since the epoch
  pub created_at : ℕ
  pub body : String
  pub message_ids : List ℕ
  pub wakes : Bool
  pub passive : Bool

-- A Redis string, a counter, or a list of envelopes.
pub data Value : Type 0 where
  str : String → Value
  number : ℕ → Value
  items : List NotificationEnvelope → Value
