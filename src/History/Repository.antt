-- ===== src/History/Repository.antt =====
-- class GuildHistoryRepository of src/proactive_agent/history.py, over Redis and the application's
-- API, whose Postgres copy of a history is the parameter `Api`.
pub mod Recovery
use proactive_agent.Prelude.{
  ℕ, ◌+◌, ◌≡◌, Bool, true, false, not, ◌&&◌, ◌||◌, Option, none, some, ltb, leb, max, ◌==◌,
  if◌then◌else◌,
}
use proactive_agent.Keys.{
  Key, same, history_key, history_meta_key, history_invalid_key, history_idle_key,
  legacy_history_key, purge_epoch_key,
}
use proactive_agent.Redis.{Redis, exists, get, set, del, modify}
use proactive_agent.History.{
  Snapshot, Stored, Tombstone, snapshot, garbled, meta, tombstone_of, unreadable_tombstone, score,
  legacy, unreadable_legacy, revision_of, build_snapshot, snapshot_is_valid, cache_if_newer,
  write_purged_script, delete_if_older,
}

pub data Error : Type 0 where
  checksum_error value_error api_error stale_history writer_closed : Error

pub data Outcome (A : Type 0) : Type 0 where
  returns : A → Outcome A
  raises : Error → Outcome A

pub data Reply : Type 0 where
  accepted conflict failed : Reply

-- `history_of` is what Postgres holds. A call that answers tells the truth; an accepted PUT is what
-- Postgres holds from then on; of a refused or a failed one nothing is assumed.
pub record Api (H : Type 0) : Type 1 where
  pub Db : Type 0
  pub history_of : Db → ℕ → Option (Snapshot H)
  pub answers : ℕ → Db → Bool
  pub put_history : Snapshot H → Db → Db × Reply
  pub guild-history_of :
      (g : ℕ) (s : Snapshot H) (d : Db) → history_of d g ≡ some s → s.guild_id ≡ g
  pub put-accepted :
      (s : Snapshot H) (d : Db)
      → (put_history s d).1 ≡ accepted
      → history_of (put_history s d).0 s.guild_id ≡ some s

abbrev pub time_or : ℕ → Option ℕ → ℕ
time_or now none = now
time_or now (some t) = t

-- Postgres has not caught up with the tombstone.
behind : Option Tombstone → ℕ → Option ℕ → Bool
behind (some t) durable v1 = elim t.revision [
  | some purged ↦ ltb durable purged
  | none ↦ elim v1 [ none ↦ false | some n ↦ leb durable n ]
]
behind none durable v1 = elim v1 [ none ↦ false | some n ↦ leb durable n ]

module _ {H : Type 0} (r : Redis Key (Stored H) same) where
  open r use {Db}

  -- ZADD of the idle index, NX for a copy that is only cached again
  start_clock : ℕ → Option ℕ → ℕ → Db → Db
  start_clock guild_id (some written_at) now d =
      set r (history_idle_key guild_id) (score written_at) d
  start_clock guild_id none now d =
      if exists r (history_idle_key guild_id) d
      then d
      else set r (history_idle_key guild_id) (score now) d

  -- `idle_state`: the meta hash, or the index score
  unfoldable pub idle_state : ℕ → Db → Option ℕ × Bool
  idle_state guild_id d =
      let indexed = score_of (get r (history_idle_key guild_id) d) in
      elim (get r (history_meta_key guild_id) d) [
        | none ↦ (indexed, false)
        | some v ↦ elim v [
          | meta written_at fresh ↦ (some written_at, fresh)
          | _ ↦ (indexed, false)
        ]
      ]
    where
      score_of : Option (Stored H) → Option ℕ
      score_of (some (score t)) = some t
      score_of _ = none

  -- `tombstone`: none if absent; an unreadable one says nothing
  unfoldable pub tombstone : ℕ → Db → Option (Option Tombstone)
  tombstone guild_id d = elim (get r (history_invalid_key guild_id) d) [
    | none ↦ none
    | some v ↦ elim v [ tombstone_of t ↦ some (some t) | _ ↦ some none ]
  ]

  -- `forget`
  unfoldable pub forget : ℕ → Db → Db
  forget guild_id d = del r (history_key guild_id) d

  unfoldable pub forget_if_older : ℕ → ℕ → Db → Db × Bool
  unfolding delete_if_older
  forget_if_older guild_id revision d = delete_if_older r (history_key guild_id) revision d

  -- `invalidate`, where Redis answers
  unfoldable pub invalidate : ℕ → Tombstone → Db → Db
  invalidate guild_id t d = set r (history_invalid_key guild_id) (tombstone_of t) d

module _ {H : Type 0} (history_checksum : H → ℕ) (r : Redis Key (Stored H) same) where
  open r use {Db}

  -- `_load_redis`: an unreadable or mismatched copy is deleted.
  unfoldable pub load_redis : ℕ → Db → Db × Option (Snapshot H)
  unfolding snapshot_is_valid
  load_redis guild_id d = elim (get r (history_key guild_id) d) [
    | none ↦ (d, none)
    | some v ↦ elim v [
      | snapshot s ↦
          if s.guild_id == guild_id && snapshot_is_valid history_checksum s
          then (d, some s)
          else (del r (history_key guild_id) d, none)
      | _ ↦ (del r (history_key guild_id) d, none)
    ]
  ]

  unfoldable pub cache : Snapshot H → Option ℕ → Bool → ℕ → Db → Db × Outcome Bool
  unfolding start_clock snapshot_is_valid cache_if_newer
  cache s written_at freshly_compacted now d =
      if not (snapshot_is_valid history_checksum s)
      then (d, raises value_error)
      else (let (d', stored) =
            cache_if_newer r (history_key s.guild_id) (history_invalid_key s.guild_id)
              (history_meta_key s.guild_id) s written_at freshly_compacted
              (start_clock r s.guild_id written_at now d) in
          (d', returns stored))

  -- `load_legacy`, at revision 1
  unfoldable pub load_legacy : ℕ → Db → Option (Snapshot H)
  unfolding build_snapshot
  load_legacy guild_id d = elim (get r (legacy_history_key guild_id) d) [
    | none ↦ none
    | some v ↦ elim v [ legacy h ↦ some (build_snapshot history_checksum guild_id h 1) | _ ↦ none ]
  ]

  unfoldable pub write_purged : Snapshot H → ℕ → Db → Db × Outcome (Unit {0})
  unfolding snapshot_is_valid idle_state write_purged_script
  write_purged s now d =
      if not (snapshot_is_valid history_checksum s)
      then (d, raises value_error)
      else (let written_at = time_or now (idle_state r s.guild_id d).0 in
          (
            write_purged_script r (history_key s.guild_id) (history_invalid_key s.guild_id)
                (history_meta_key s.guild_id) s written_at
                (set r (history_idle_key s.guild_id) (score written_at) d),
            returns tt,
          ))

module _ {H : Type 0} (history_checksum : H → ℕ) (r : Redis Key (Stored H) same) (a : Api H) where
  open r use {Db}
  open a use {history_of, answers}

  -- the Postgres half of `load_canonical`
  load_durable : ℕ → ℕ → Db → a.Db → Db × Outcome (Option (Snapshot H))
  unfolding cache
  load_durable guild_id now d p =
      if not (answers guild_id p) then (d, raises api_error) else elim (history_of p guild_id) [
        | none ↦ (d, returns none)
        | some durable ↦
            if not (snapshot_is_valid history_checksum durable)
            then (d, raises checksum_error)
            else ((cache history_checksum r durable none false now d).0, returns (some durable))
      ]

  unfoldable pub load_canonical : ℕ → ℕ → Db → a.Db → Db × Outcome (Option (Snapshot H))
  unfolding load_redis load_durable
  load_canonical guild_id now d p =
      if exists r (history_invalid_key guild_id) d
      then load_durable guild_id now d p
      else (let (d', cached) = load_redis history_checksum r guild_id d in
          elim cached [ some s ↦ (d', returns (some s)) | none ↦ load_durable guild_id now d' p ])

  -- `recover_tombstone` once the tombstone is read
  after_tombstone : Option (Option Tombstone) → ℕ → ℕ → Db → a.Db → Db × Outcome Bool
  unfolding behind
  after_tombstone none guild_id now d p = (d, returns true)
  after_tombstone (some value) guild_id now d p =
      if not (answers guild_id p) then (d, raises api_error) else elim (history_of p guild_id) [
        | none ↦ (d, returns false)
        | some durable ↦
            if not (snapshot_is_valid history_checksum durable)
              || behind value durable.revision (revision_of (get r (history_key guild_id) d))
            then (d, returns false)
            else ((write_purged history_checksum r durable now d).0, returns true)
      ]

  -- The flag says that the tombstone is gone.
  unfoldable pub recover_tombstone : ℕ → ℕ → Db → a.Db → Db × Outcome Bool
  unfolding tombstone after_tombstone
  recover_tombstone guild_id now d p = after_tombstone (tombstone r guild_id d) guild_id now d p

  -- `stored_revision`, where the API answers
  unfoldable pub stored_revision : ℕ → Db → a.Db → Outcome ℕ
  stored_revision guild_id d p =
      let cached : ℕ = elim (revision_of (get r (history_key guild_id) d)) [
        | none ↦ 0
        | some n ↦ n
      ] in
      if not (answers guild_id p) then raises api_error else elim (history_of p guild_id) [
        | none ↦ returns cached
        | some durable ↦ returns (max cached durable.revision)
      ]

module _ {H : Type 0} (history_checksum : H → ℕ) (empty : H) (r : Redis Key (Stored H) same)
    (a : Api H) where
  open r use {Db}

  -- `load` after the canonical stores gave nothing
  load_fallback : ℕ → ℕ → Db → Db × Outcome (Snapshot H)
  unfolding load_legacy cache build_snapshot
  load_fallback guild_id now d =
      if exists r (purge_epoch_key guild_id) d
      then (d, returns (build_snapshot history_checksum guild_id empty 0))
      else elim (load_legacy history_checksum r guild_id d) [
        | some s ↦ ((cache history_checksum r s none false now d).0, returns s)
        | none ↦ (d, returns (build_snapshot history_checksum guild_id empty 0))
      ]

  unfoldable pub load : ℕ → ℕ → Db → a.Db → Db × Outcome (Snapshot H)
  unfolding load_canonical load_fallback
  load guild_id now d p =
      let (d', found) = load_canonical history_checksum r a guild_id now d p in
      elim found [
        | raises e ↦ (d', raises e)
        | returns o ↦ elim o [ some s ↦ (d', returns s) | none ↦ load_fallback guild_id now d' ]
      ]
