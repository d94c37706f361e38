-- ===== src/Purge/History.antt =====
-- `_purge_history` of src/proactive_agent/purge.py.
pub mod Forgotten
pub mod Ends
use proactive_agent.Prelude.{
  ℕ, ◌+◌, Bool, true, false, not, ◌&&◌, ◌||◌, Option, none, some, List, [], ◌∷◌, ◌++◌, ◌==◌,
  if◌then◌else◌,
}
use proactive_agent.Keys.{Key, same, legacy_history_key, purge_epoch_key, tombstone_cleared_key}
use proactive_agent.Redis.{Redis, exists, get, set, del}
use proactive_agent.History.{Snapshot, Stored, Tombstone, legacy, cleared, build_snapshot}
use proactive_agent.History.Repository.{Outcome, Api, returns, raises, tombstone, load_canonical}
use proactive_agent.History.Writer.{
  Writer, Fault, Purged, done, partial, unwritten, replace_purged, try_call,
}
use proactive_agent.Purge.{
  Store, redis_history, postgres_history, legacy_history, Why, unreadable_legacy_store,
  tombstoned_without_copy, still_held_id, fence_lost, legacy_left, partial_purge, put_failed, other,
  Ended, ended, raised, Weather, Target, Command,
}

-- `legacy_state`
pub data Legacy (H : Type 0) : Type 0 where
  absent unreadable : Legacy H
  readable : Snapshot H → Legacy H

module _ {H : Type 0} where
  abbrev pub is_unreadable : Legacy H → Bool
  is_unreadable unreadable = true
  is_unreadable _ = false

  abbrev pub is_readable : Legacy H → Bool
  is_readable (readable s) = true
  is_readable _ = false

-- The value a tombstone of this purge has.
abbrev pub mark_of : Command → Tombstone
mark_of c = record { run_id = c.run_id; request_id = c.request_id; revision = none }

abbrev pub is_some : {A : Type 0} → Option A → Bool
is_some none = false
is_some (some x) = true

module _ {H : Type 0} (r : Redis Key (Stored H) same) (a : Api H) where
  -- What a purge works on: both stores of the history, the writer, what is queued for the guild, and
  -- its list of stores and name hits so far.
  pub record World : Type 0 where
    pub redis : r.Db
    pub api : a.Db
    pub writer : Writer H
    pub stores : List Store
    pub name_hits : Option ℕ

  abbrev pub add_stores : List Store → World → World
  add_stores stores w = record w { stores = w.stores ++ stores }

module _ {H : Type 0} (history_checksum : H → ℕ) (r : Redis Key (Stored H) same) where
  unfoldable pub legacy_state : ℕ → r.Db → Legacy H
  unfolding build_snapshot
  legacy_state guild_id d = elim (get r (legacy_history_key guild_id) d) [
    | none ↦ absent
    | some v ↦ elim v [
      | legacy h ↦ readable (build_snapshot history_checksum guild_id h 1)
      | _ ↦ unreadable
    ]
  ]

  abbrev pub forget_legacy : ℕ → r.Db → r.Db
  forget_legacy guild_id = del r (legacy_history_key guild_id)

module _ {H : Type 0} (history_checksum : H → ℕ) (scrub : H → H) (r : Redis Key (Stored H) same)
    (a : Api H) where
  module _ (t : Target H) (c : Command) (e : Weather) (external : Bool) (now : ℕ) where
    abbrev pub is_empty_copy : Option (Snapshot H) → Bool
    is_empty_copy none = true
    is_empty_copy (some s) = t.is_empty_history s.history

    -- `not snapshot.history`, where the legacy key is deleted without a purge
    unfoldable pub end_empty : Bool → World r a → World r a × Ended Bool
    unfolding try_call
    end_empty drop_legacy w =
        if drop_legacy
        then (let (d, deleted) =
              try_call history_checksum scrub r a e.dropping_legacy
                (forget_legacy history_checksum r c.guild_id) w.redis in
            if deleted
            then (add_stores r a (legacy_history ∷ []) (record w { redis = d }), ended false)
            else (record w { redis = d }, raised other))
        else (w, ended false)

    -- the deletion of the legacy key after the purge
    unfoldable pub end_purged : Bool → World r a → World r a × Ended Bool
    unfolding try_call
    end_purged drop_legacy w =
        if drop_legacy
        then (let (d, deleted) =
              try_call history_checksum scrub r a e.dropping_legacy
                (forget_legacy history_checksum r c.guild_id) w.redis in
            if deleted
            then (add_stores r a (legacy_history ∷ []) (record w { redis = d }), ended true)
            else (record w { redis = d }, raised legacy_left))
        else (w, ended true)

    -- `_note_tombstone_cleared`, for another run's tombstone; a failure is only logged
    unfoldable pub note_cleared : Option (Option Tombstone) → r.Db → r.Db
    unfolding try_call
    note_cleared none d = d
    note_cleared (some none) d = d
    note_cleared (some (some old)) d =
        if old.run_id == c.run_id
        then d
        else (try_call history_checksum scrub r a e.noting
            (set r (tombstone_cleared_key old.run_id c.guild_id) (cleared true)) d).0

    -- after `replace_purged`
    unfoldable pub after_replace :
        Option (Option Tombstone)
        → Bool
        → Option ℕ
        → World r a
        → (r.Db × a.Db × Writer H) × Purged H
        → World r a × Ended Bool
    unfolding end_purged note_cleared
    after_replace old drop_legacy hits w ((d, p, v), done s cached) =
        end_purged drop_legacy (record w {
          redis = note_cleared old d;
          api = p;
          writer = v;
          stores = w.stores ++ (postgres_history ∷ redis_history ∷ []);
          name_hits = hits;
        })
    after_replace old drop_legacy hits w ((d, p, v), partial s tombstoned) =
        (record w { redis = d; api = p; writer = v }, raised (partial_purge tombstoned))
    after_replace old drop_legacy hits w ((d, p, v), unwritten x) =
        (record w { redis = d; api = p; writer = v }, raised put_failed)

    -- the checks before the write, and the write
    unfoldable pub write_history :
        Option (Option Tombstone)
        → Bool
        → Snapshot H
        → World r a
        → Option (H × ℕ)
        → World r a × Ended Bool
    unfolding after_replace replace_purged
    write_history old drop_legacy s w none = (w, raised other)
    write_history old drop_legacy s w (some (history, hits)) =
        if t.holds_id history
        then (w, raised still_held_id)
        else if e.lost_before_write
        then (w, raised fence_lost)
        else after_replace old drop_legacy (some hits) w (
            replace_purged history_checksum scrub r a e.writing e.forgetting e.invalidating
              (mark_of c) c.guild_id history s.revision now w.redis w.api w.writer)

    -- once the copy to purge is found
    unfoldable pub purge_copy :
        Option (Option Tombstone)
        → Legacy H
        → Bool
        → Option (Snapshot H)
        → World r a
        → World r a × Ended Bool
    unfolding end_empty write_history
    purge_copy old old_legacy migrated none w = end_empty (external && is_readable old_legacy) w
    purge_copy old old_legacy migrated (some s) w =
        let drop_legacy = external && is_readable old_legacy in
        let clean = t.needs_no_fold s.history in
        let counted = record w { name_hits = some 0 } in
        if t.is_empty_history s.history
        then end_empty drop_legacy w
        else if clean && not (migrated || is_some old || drop_legacy)
        then (counted, ended false)
        else write_history old drop_legacy s counted
            (if clean then some (s.history, 0) else t.fold s.history)

    -- the copy that only the legacy key holds is migrated
    unfoldable pub migrate :
        Option (Option Tombstone)
        → Legacy H
        → Bool
        → Option (Snapshot H)
        → World r a
        → World r a × Ended Bool
    unfolding purge_copy
    migrate old (readable l) false none w = purge_copy old (readable l) true (some l) w
    migrate old old_legacy epoch s w = purge_copy old old_legacy false s w

    unfoldable pub after_load :
        Option (Option Tombstone)
        → Legacy H
        → Bool
        → World r a
        → Outcome (Option (Snapshot H))
        → World r a × Ended Bool
    unfolding migrate
    after_load old old_legacy epoch w (raises x) = (w, raised other)
    after_load old old_legacy epoch w (returns s) =
        if is_unreadable old_legacy && (external || not (is_some s) && not epoch)
        then (w, raised unreadable_legacy_store)
        else if is_some old && is_empty_copy s
        then (w, raised tombstoned_without_copy)
        else migrate old old_legacy epoch s w

    -- The flag says whether the stored history was rewritten.
    unfoldable pub purge_history : World r a → World r a × Ended Bool
    unfolding after_load tombstone legacy_state load_canonical
    purge_history w =
        if not e.reads
        then (w, raised other)
        else (let (d, loaded) = load_canonical history_checksum r a c.guild_id now w.redis w.api in
            after_load (tombstone r c.guild_id w.redis)
              (legacy_state history_checksum r c.guild_id w.redis)
              (exists r (purge_epoch_key c.guild_id) d) (record w { redis = d }) loaded)
