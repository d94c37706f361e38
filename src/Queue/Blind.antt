-- ===== src/Queue/Blind.antt =====
-- The dead letter of a wake in src/proactive_agent/queue.py carries no message text.
use Prim.Native.String.{String}
use proactive_agent.Prelude.{ℕ, ◌≡◌, refl, ap, List, [], ◌∷◌, map}
use mathlib.Core.List.{map-append}
use proactive_agent.Contracts.{NotificationEnvelope, Value}
use proactive_agent.Keys.{Key, same}
use proactive_agent.Redis.{Redis}
use proactive_agent.Queue.Streams.{StreamNotification, WakeBatch, Streams, notifications}
use proactive_agent.Queue.Settle.{dead_letter_of, note, first_id}

-- The envelope with another body and channel name.
abbrev pub retold : (String → String) → NotificationEnvelope → NotificationEnvelope
retold tell e = record e { body = tell e.body; channel_name = tell e.channel_name }

abbrev pub retold_item : (String → String) → StreamNotification → StreamNotification
retold_item tell item = record item { envelope = retold tell item.envelope }

abbrev pub retold_batch : (String → String) → WakeBatch → WakeBatch
retold_batch tell batch = record batch {
  pending = map (retold tell) batch.pending;
  waking = map (retold_item tell) batch.waking;
}

module _ (r : Redis Key Value same) (x : Streams r) where
  note-retold :
      (tell : String → String) (es : List NotificationEnvelope)
      → map (note r x) (map (retold tell) es) ≡ map (note r x) es
  unfolding note
  note-retold tell [] = refl
  note-retold tell (e ∷ es) = ap (◌∷◌ (note r x e)) (note-retold tell es)

  notifications-retold :
      (tell : String → String) (items : List StreamNotification)
      → map (λ i. i.envelope) (map (retold_item tell) items)
        ≡ map (retold tell) (map (λ i. i.envelope) items)
  notifications-retold tell [] = refl
  notifications-retold tell (i ∷ items) =
      ap (◌∷◌ (retold tell i.envelope)) (notifications-retold tell items)

  first_id-retold :
      (tell : String → String) (items : List StreamNotification)
      → first_id r x (map (retold_item tell) items) ≡ first_id r x items
  first_id-retold tell [] = refl
  first_id-retold tell (i ∷ items) = refl

  -- Whatever the texts of a batch's notifications are changed to, its dead letter is the same.
  pub dead_letter_of-retold :
      (tell : String → String) (batch : WakeBatch) (error : String) (attempts : ℕ)
      → dead_letter_of r x (retold_batch tell batch) error attempts
        ≡ dead_letter_of r x batch error attempts
  unfolding dead_letter_of notifications
  dead_letter_of-retold tell batch error attempts =
      rw (notifications-retold, ← map-append, note-retold, first_id-retold) refl
