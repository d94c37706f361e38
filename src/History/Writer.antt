-- ===== src/History/Writer.antt =====
-- class DebouncedHistoryWriter of src/proactive_agent/history.py. The maps by guild are functions;
-- `scheduled` says that a flush task is pending. The scrubbing of opted-out users is the parameter
-- `scrub`, and each call of Redis may fail before or after it took effect.
pub mod Replaced
pub mod Superseded
pub mod Restored
pub mod Saved
use proactive_agent.Prelude.{
  ℕ, zero, suc, ◌+◌, ◌≡◌, Bool, true, false, not, Option, none, some, leb, max, ◌==◌, if◌then◌else◌,
}
use proactive_agent.Keys.{Key, same, history_idle_key}
use proactive_agent.Redis.{Redis, set}
use proactive_agent.History.{Snapshot, Stored, Tombstone, score, build_snapshot, purge_revision_gap}
use proactive_agent.History.Repository.{
  Error, Outcome, Reply, Api, returns, raises, accepted, conflict, failed, api_error, stale_history,
  writer_closed, cache, write_purged, forget, forget_if_older, invalidate, idle_state, time_or,
}

pub record Writer (H : Type 0) : Type 0 where
  pub closed : Bool
  pub dirty : ℕ → Option (Snapshot H)
  pub scheduled : ℕ → Bool

-- A Redis call is answered, is lost before it took effect, or took effect with its answer lost;
-- `indexed` is a loss after the first command of `write_purged`.
pub data Fault : Type 0 where
  fine lost indexed unheard : Fault

-- `done s cached`; `partial s tombstoned` is PartialPurgeError; `unwritten` is an error of the PUT.
pub data Purged (H : Type 0) : Type 0 where
  done : Snapshot H → Bool → Purged H
  partial : Snapshot H → Bool → Purged H
  unwritten : Error → Purged H

module _ {A : Type 0} where
  abbrev pub put_at : ℕ → A → (ℕ → A) → ℕ → A
  put_at g x f h = if g == h then x else f h

module _ {H : Type 0} where
  -- the dirty copy of a guild is replaced by one that is at least as new
  keep_newer : Snapshot H → Option (Snapshot H) → Option (Snapshot H)
  keep_newer s none = some s
  keep_newer s (some current) = if leb current.revision s.revision then some s else some current

  unfoldable pub discard : ℕ → Writer H → Writer H × Option (Snapshot H)
  discard guild_id w = (
    record w {
      dirty = put_at guild_id none w.dirty;
      scheduled = put_at guild_id false w.scheduled;
    },
    w.dirty guild_id,
  )

  unfoldable pub schedule_flush : Snapshot H → Writer H → Writer H
  schedule_flush s w = record w {
    dirty = put_at s.guild_id (some s) w.dirty;
    scheduled = put_at s.guild_id true w.scheduled;
  }

  unfoldable pub restore : Option (Snapshot H) → Writer H → Writer H
  unfolding schedule_flush
  restore none w = w
  restore (some s) w = if w.closed then w else elim (w.dirty s.guild_id) [
    | none ↦ schedule_flush s w
    | some current ↦ if leb s.revision current.revision then w else schedule_flush s w
  ]

  -- the dirty copy is dropped, unless a save has replaced it meanwhile
  settle : Snapshot H → Writer H → Writer H
  settle s w = elim (w.dirty s.guild_id) [
    | none ↦ w
    | some latest ↦
        if latest.revision == s.revision
        then record w { dirty = put_at s.guild_id none w.dirty }
        else w
  ]

  revision_or_zero : Option (Snapshot H) → ℕ
  revision_or_zero none = 0
  revision_or_zero (some s) = s.revision

module _ {H : Type 0} (history_checksum : H → ℕ) (scrub : H → H) (r : Redis Key (Stored H) same)
    (a : Api H) where
  open r use {Db}
  open a use {history_of, answers, put_history}

  -- `save` once the copy was offered to Redis
  unfoldable pub after_cache :
      Snapshot H → Writer H → Db × Outcome Bool → (Db × Writer H) × Outcome (Snapshot H)
  unfolding keep_newer
  after_cache s w (d, raises e) = ((d, w), raises e)
  after_cache s w (d, returns false) = ((d, w), raises stale_history)
  after_cache s w (d, returns true) = (
    (
      d,
      record w {
        dirty = put_at s.guild_id (keep_newer s (w.dirty s.guild_id)) w.dirty;
        scheduled = put_at s.guild_id true w.scheduled;
      },
    ),
    returns s,
  )

  unfoldable pub save :
      ℕ → H → ℕ → Bool → ℕ → Db → Writer H → (Db × Writer H) × Outcome (Snapshot H)
  unfolding build_snapshot cache after_cache
  save guild_id history previous_revision freshly_compacted now d w =
      let s = build_snapshot history_checksum guild_id (scrub history) (previous_revision + 1) in
      if w.closed
      then ((d, w), raises writer_closed)
      else after_cache s w (cache history_checksum r s (some now) freshly_compacted now d)

  -- one attempt of the PUT in `replace_purged`; none on a 409
  put_once : ℕ → H → ℕ → a.Db → a.Db × Option (Outcome (Snapshot H))
  unfolding build_snapshot revision_or_zero
  put_once guild_id history previous_revision p =
      if not (answers guild_id p)
      then (p, some (raises api_error))
      else (let revision =
            max previous_revision (revision_or_zero (history_of p guild_id)) + purge_revision_gap in
          let s = build_snapshot history_checksum guild_id history revision in
          let (p', reply) = put_history s p in
          elim reply [
            | accepted ↦ (p', some (returns s))
            | conflict ↦ (p', none)
            | failed ↦ (p', some (raises api_error))
          ])

  retry :
      a.Db × Option (Outcome (Snapshot H))
      → (a.Db → a.Db × Outcome (Snapshot H))
      → a.Db × Outcome (Snapshot H)
  retry (p, some o) again = (p, o)
  retry (p, none) again = again p

  -- the loop: a 409 is retried while attempts are left
  unfoldable pub put_purged : ℕ → ℕ → H → ℕ → a.Db → a.Db × Outcome (Snapshot H)
  unfolding put_once retry
  put_purged zero guild_id history previous_revision p =
      retry (put_once guild_id history previous_revision p) (λ p'. (p', raises api_error))
  put_purged (suc left) guild_id history previous_revision p =
      retry (put_once guild_id history previous_revision p)
        (λ p'. put_purged left guild_id history previous_revision p')

  -- `write_purged` with a failing connection; the flag says that it returned
  try_write : Fault → Snapshot H → ℕ → Db → Db × Bool
  unfolding write_purged idle_state
  try_write fine s now d = ((write_purged history_checksum r s now d).0, true)
  try_write lost s now d = (d, false)
  try_write indexed s now d = (
    set r (history_idle_key s.guild_id) (score (time_or now (idle_state r s.guild_id d).0)) d,
    false,
  )
  try_write unheard s now d = ((write_purged history_checksum r s now d).0, false)

  -- a call of a single command
  unfoldable pub try_call : Fault → (Db → Db) → Db → Db × Bool
  try_call fine f d = (f d, true)
  try_call unheard f d = (f d, false)
  try_call _ f d = (d, false)

  -- `replace_purged` after a failed `write_purged`
  leave_durable : Fault → Fault → Tombstone → Snapshot H → Db → Db × Purged H
  unfolding try_call forget invalidate
  leave_durable forgetting invalidating t s d =
      let (d', forgotten) = try_call forgetting (forget r s.guild_id) d in
      if forgotten
      then (d', done s false)
      else (let mark = record t { revision = some s.revision } in
          let (d2, tombstoned) = try_call invalidating (invalidate r s.guild_id mark) d' in
          (d2, partial s tombstoned))

  -- `replace_purged` after the PUT
  unfoldable pub replace_v1 :
      Fault → Fault → Fault → Tombstone → Snapshot H → ℕ → Db → Db × Purged H
  unfolding try_write leave_durable
  replace_v1 writing forgetting invalidating t s now d =
      let (d', cached) = try_write writing s now d in
      if cached then (d', done s true) else leave_durable forgetting invalidating t s d'

  after_put :
      Fault
      → Fault
      → Fault
      → Tombstone
      → ℕ
      → Db
      → Writer H
      → a.Db × Outcome (Snapshot H)
      → (Db × a.Db × Writer H) × Purged H
  unfolding replace_v1
  after_put writing forgetting invalidating t now d w (p, raises e) = ((d, p, w), unwritten e)
  after_put writing forgetting invalidating t now d w (p, returns s) =
      let (d', result) = replace_v1 writing forgetting invalidating t s now d in
      ((d', p, w), result)

  unfoldable pub replace_purged :
      Fault
      → Fault
      → Fault
      → Tombstone
      → ℕ
      → H
      → ℕ
      → ℕ
      → Db
      → a.Db
      → Writer H
      → (Db × a.Db × Writer H) × Purged H
  unfolding discard put_purged after_put
  replace_purged writing forgetting invalidating t guild_id history previous_revision now d p w =
      after_put writing forgetting invalidating t now d (discard guild_id w).0
        (put_purged 1 guild_id history previous_revision p)

  -- `_postgres_wins`
  unfoldable pub postgres_wins : ℕ → Db → a.Db → Db
  unfolding forget_if_older
  postgres_wins guild_id d p =
      if answers guild_id p
      then elim (history_of p guild_id) [
        | none ↦ d
        | some durable ↦ (forget_if_older r guild_id durable.revision d).0
      ]
      else d

  -- `flush` after the reply to the PUT of `s`; a failed PUT is sent again
  unfoldable pub flushed : Snapshot H → Reply → Db → a.Db → Writer H → Db × Writer H
  unfolding postgres_wins settle
  flushed s accepted d p w = (d, settle s w)
  flushed s conflict d p w = (postgres_wins s.guild_id d p, settle s w)
  flushed s failed d p w = (d, w)
