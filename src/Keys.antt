-- ===== src/Keys.antt =====
-- src/proactive_agent/keys.py: a constructor for each kind of key, so that two keys are the same
-- exactly when kind and arguments are. Guild, wake and notification ids are numbers.
use proactive_agent.Prelude.{ℕ, ◌≡◌, Bool, true, false, ◌&&◌, ◌==◌, arith}

pub data Key : Type 0 where
  ready_stream_key forum_ready_stream_key dead_letter_stream_key : Key
  wake_stream_key pending_key pending_dropped_key : ℕ → Key
  forum_wake_stream_key forum_pending_key forum_pending_dropped_key : ℕ → Key
  ownership_key lease_key failure_notice_key privacy_lock_key purge_epoch_key : ℕ → Key
  -- `history_idle_key g` is the member g of the sorted set HISTORY_IDLE_INDEX_KEY.
  history_key history_meta_key history_invalid_key legacy_history_key history_idle_key : ℕ → Key
  batch_key batch_dropped_key attempts_key checkpoint_key : ℕ → ℕ → Key
  -- `tombstone_cleared_key r g` is the field g of the hash of run r.
  tombstone_cleared_key : ℕ → ℕ → Key

abbrev pub same : Key → Key → Bool
same ready_stream_key ready_stream_key = true
same forum_ready_stream_key forum_ready_stream_key = true
same dead_letter_stream_key dead_letter_stream_key = true
same (wake_stream_key g) (wake_stream_key h) = g == h
same (pending_key g) (pending_key h) = g == h
same (pending_dropped_key g) (pending_dropped_key h) = g == h
same (forum_wake_stream_key g) (forum_wake_stream_key h) = g == h
same (forum_pending_key g) (forum_pending_key h) = g == h
same (forum_pending_dropped_key g) (forum_pending_dropped_key h) = g == h
same (ownership_key g) (ownership_key h) = g == h
same (lease_key g) (lease_key h) = g == h
same (failure_notice_key g) (failure_notice_key h) = g == h
same (privacy_lock_key g) (privacy_lock_key h) = g == h
same (purge_epoch_key g) (purge_epoch_key h) = g == h
same (history_key g) (history_key h) = g == h
same (history_meta_key g) (history_meta_key h) = g == h
same (history_invalid_key g) (history_invalid_key h) = g == h
same (legacy_history_key g) (legacy_history_key h) = g == h
same (history_idle_key g) (history_idle_key h) = g == h
same (batch_key g w) (batch_key h x) = g == h && w == x
same (batch_dropped_key g w) (batch_dropped_key h x) = g == h && w == x
same (attempts_key g w) (attempts_key h x) = g == h && w == x
same (checkpoint_key g w) (checkpoint_key h x) = g == h && w == x
same (tombstone_cleared_key r g) (tombstone_cleared_key s h) = r == s && g == h
same _ _ = false

-- Every key is the same as itself.
pub same_self : (k : Key) → same k k ≡ true
same_self (batch_key g w) = ground arith
same_self (batch_dropped_key g w) = ground arith
same_self (attempts_key g w) = ground arith
same_self (checkpoint_key g w) = ground arith
same_self (tombstone_cleared_key r g) = ground arith
same_self (wake_stream_key g) = ground arith
same_self _ = ground arith
