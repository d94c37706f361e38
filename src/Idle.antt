-- ===== src/Idle.antt =====
-- src/proactive_agent/idle.py: what becomes of a history that was not written for two hours. The
-- scrub of opted-out users, pydantic's reading of a history and its dump are the parameter `Format`,
-- and the model's summary fails where it gives none.
pub mod Noted
pub mod Compacted
mod Tests
use proactive_agent.Prelude.{
  ℕ, ◌+◌, ◌-◌, Bool, true, false, not, Option, none, some, List, [], ◌∷◌, ltb, if◌then◌else◌,
}
use proactive_agent.Text.{Text, codes}
use proactive_agent.Keys.{Key, same, history_invalid_key, history_idle_key}
use proactive_agent.Redis.{Redis, exists, set, del}
use proactive_agent.Conversation.{
  Message, memory_note_pair, leading_note_pair, is_summary_only, purge_agent_history,
}
use proactive_agent.History.{Snapshot, Stored, score}
use proactive_agent.History.Repository.{
  Error, checksum_error, Outcome, Api, returns, raises, idle_state, load_canonical, stored_revision,
}
use proactive_agent.History.Writer.{Writer, save}

abbrev pub idle_window : ℕ
idle_window = 7200

abbrev pub unsummarized_note : Text
unsummarized_note =
    codes "[Earlier history could not be summarized when it went idle and was dropped.]"

abbrev pub unreadable_note : Text
unreadable_note = codes "[Earlier history could not be read when it went idle and was dropped.]"

-- `read` scrubs and parses a history, `dump` writes one.
pub record Format (H : Type 0) : Type 0 where
  pub is_empty_history : H → Bool
  pub read : H → Option (List Message)
  pub dump : List Message → H

pub data Ending : Type 0 where
  fence_busy tombstoned not_indexed written_since empty : Ending
  unreadable_replaced already_summary_only tail_dropped folded : Ending

pub record Stores (D P W : Type 0) : Type 0 where
  pub redis : D
  pub api : P
  pub writer : W

-- the note that a failed fold leaves: the one that there was, or one that says so
unfoldable pub own_note : Option (List Message) → List Message
unfolding memory_note_pair
own_note none = memory_note_pair unsummarized_note
own_note (some pair) = pair

unfoldable pub folded_or : List Message → Option (List Message) → List Message
unfolding own_note leading_note_pair
folded_or history none = own_note (leading_note_pair history)
folded_or history (some note) = note

-- `_fold`
unfoldable pub fold_idle : (List Message → Option Text) → List Message → List Message
unfolding purge_agent_history folded_or
fold_idle summarize history = folded_or history (purge_agent_history summarize history)

module _ {H : Type 0} (history_checksum : H → ℕ) (scrub : H → H) (r : Redis Key (Stored H) same)
    (a : Api H) (f : Format H) (summarize : List Message → Option Text) (guild_id now : ℕ) where
  abbrev pub Idle : Type 0
  Idle = Stores r.Db a.Db (Writer H)

  abbrev pub forget_idle : r.Db → r.Db
  forget_idle = del r (history_idle_key guild_id)

  abbrev pub reindex : ℕ → r.Db → r.Db
  reindex written_at = set r (history_idle_key guild_id) (score written_at)

  abbrev pub forgetting : Idle → Ending → Idle × Outcome Ending
  forgetting w ending = (record w { redis = forget_idle w.redis }, returns ending)

  -- the end of `_compact_fenced` and of `_replace_unreadable`: only a saved history leaves the index
  unfoldable pub after_save :
      Idle → Ending → (r.Db × Writer H) × Outcome (Snapshot H) → Idle × Outcome Ending
  after_save w ending ((d, v), raises e) = (record w { redis = d; writer = v }, raises e)
  after_save w ending ((d, v), returns s) = forgetting (record w { redis = d; writer = v }) ending

  unfoldable pub store : Idle → Ending → List Message → ℕ → Idle × Outcome Ending
  unfolding after_save save
  store w ending history previous_revision = after_save w ending (
      save history_checksum scrub r a guild_id (f.dump history) previous_revision false now w.redis
        w.writer)

  -- `_replace_unreadable` once the stored revision is read
  unfoldable pub replace_at : Idle → Outcome ℕ → Idle × Outcome Ending
  unfolding store memory_note_pair
  replace_at w (raises e) = (w, raises e)
  replace_at w (returns revision) =
      store w unreadable_replaced (memory_note_pair unreadable_note) revision

  unfoldable pub replace_unreadable : Idle → Idle × Outcome Ending
  unfolding replace_at stored_revision
  replace_unreadable w = replace_at w (stored_revision history_checksum r a guild_id w.redis w.api)

  -- a history that was read: a fresh one keeps its note, another is folded
  unfoldable pub shorten :
      Idle → Bool → ℕ → List Message → Option (List Message) → Idle × Outcome Ending
  unfolding store fold_idle
  shorten w true revision history (some pair) = store w tail_dropped pair revision
  shorten w fresh revision history pair = store w folded (fold_idle summarize history) revision

  unfoldable pub compact_read : Idle → Bool → ℕ → Option (List Message) → Idle × Outcome Ending
  unfolding replace_unreadable shorten is_summary_only leading_note_pair
  compact_read w fresh revision none = replace_unreadable w
  compact_read w fresh revision (some history) =
      if is_summary_only history
      then forgetting w already_summary_only
      else shorten w fresh revision history (leading_note_pair history)

  unfoldable pub compact_loaded :
      Idle → Bool → Outcome (Option (Snapshot H)) → Idle × Outcome Ending
  unfolding replace_unreadable compact_read
  compact_loaded w fresh (raises checksum_error) = replace_unreadable w
  compact_loaded w fresh (raises e) = (w, raises e)
  compact_loaded w fresh (returns none) = forgetting w empty
  compact_loaded w fresh (returns (some s)) =
      if f.is_empty_history s.history
      then forgetting w empty
      else compact_read w fresh s.revision (f.read s.history)

  unfoldable pub compact_at : Idle → Option ℕ × Bool → Idle × Outcome Ending
  unfolding compact_loaded load_canonical
  compact_at w (none, fresh) = forgetting w not_indexed
  compact_at w (some written_at, fresh) =
      if ltb (now - written_at) idle_window
      then (record w { redis = reindex written_at w.redis }, returns written_since)
      else (let (d, loaded) = load_canonical history_checksum r a guild_id now w.redis w.api in
          compact_loaded (record w { redis = d }) fresh loaded)

  unfoldable pub compact_fenced : Idle → Idle × Outcome Ending
  unfolding compact_at idle_state
  compact_fenced w =
      if exists r (history_invalid_key guild_id) w.redis
      then (w, returns tombstoned)
      else compact_at w (idle_state r guild_id w.redis)

  -- `compact_guild`, which is given whether the fence could be taken
  unfoldable pub compact_guild : Bool → Idle → Idle × Outcome Ending
  unfolding compact_fenced
  compact_guild false w = (w, returns fence_busy)
  compact_guild true w = compact_fenced w

module _ {W : Type 0} (compact : ℕ → W → W × Outcome Ending) where
  -- the loop of `sweep_once`: a guild whose compaction raises has no outcome
  unfoldable pub sweep : List ℕ → W → W × List (ℕ × Ending)
  sweep [] w = (w, [])
  sweep (g ∷ guilds) w =
      let (w', o) = compact g w in
      let (w2, outcomes) = sweep guilds w' in
      elim o [ raises e ↦ (w2, outcomes) | returns ending ↦ (w2, (g, ending) ∷ outcomes) ]

  -- nothing while the blocked users are not loaded
  unfoldable pub sweep_once : Bool → List ℕ → W → W × List (ℕ × Ending)
  unfolding sweep
  sweep_once enforcing idle_guild_ids w = if enforcing then sweep idle_guild_ids w else (w, [])
