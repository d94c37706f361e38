-- ===== src/History/Tests.antt =====
-- The history scripts, loads and purges on a small Redis and a small Postgres.
use proactive_agent.Prelude.{
  ℕ, ◌+◌, ◌≡◌, refl, true, false, Bool, Option, none, some, List, [], ◌∷◌, ◌==◌, if◌then◌else◌, ltb,
  arith, Bool-cases, inl, inr,
}
use proactive_agent.Keys.{Key, same, history_key, history_invalid_key}
use proactive_agent.Redis.{Entry, Redis}
use proactive_agent.Redis.Dict.{Table, dict}
use proactive_agent.History.{Snapshot, Stored, Tombstone, snapshot, tombstone_of, revision_of}
use proactive_agent.History.Monotone.{Write, v1, rank, newest, all_cached, all_cached-newest}
use proactive_agent.History.Repository.{
  Api, Reply, accepted, conflict, load_canonical, recover_tombstone,
}
use proactive_agent.History.Repository.Recovery.{
  IsTombstoneLoad, IsRecovered, load_canonical-tombstoned, recover_tombstone-IsRecovered,
}
use proactive_agent.History.Writer.{Writer, fine, lost, unheard, replace_purged}
use proactive_agent.History.Writer.Replaced.{IsPurged, replace_purged-IsPurged}

abbrev pub redis : Redis Key (Stored ℕ) same
redis = dict Key (Stored ℕ) same

abbrev pub checksum_of : ℕ → ℕ
checksum_of h = h + 1

pub record Row : Type 0 where
  pub revision : ℕ
  pub checksum : ℕ
  pub history : ℕ

abbrev pub row_of : ℕ → Option Row → Option (Snapshot ℕ)
row_of g none = none
row_of g (some x) =
    some
      (record { guild_id = g; revision = x.revision; checksum = x.checksum; history = x.history })

pub guild-row_of : (g : ℕ) (s : Snapshot ℕ) (o : Option Row) → row_of g o ≡ some s → s.guild_id ≡ g
guild-row_of g s o h = ground arith

abbrev pub add_row : Snapshot ℕ → (ℕ → Option Row) → ℕ → Option Row
add_row s d g =
    if g == s.guild_id
    then some (record { revision = s.revision; checksum = s.checksum; history = s.history })
    else d g

abbrev pub superseded : Snapshot ℕ → Option Row → Bool
superseded s none = false
superseded s (some x) = ltb s.revision x.revision

pub row_of-add_row :
    (s : Snapshot ℕ) (d : ℕ → Option Row) → row_of s.guild_id (add_row s d s.guild_id) ≡ some s
row_of-add_row s d = ground arith

abbrev pub put_row : Snapshot ℕ → (ℕ → Option Row) → (ℕ → Option Row) × Reply
put_row s d = if superseded s (d s.guild_id) then (d, conflict) else (add_row s d, accepted)

pub put_row-accepted :
    (s : Snapshot ℕ) (d : ℕ → Option Row)
    → (put_row s d).1 ≡ accepted
    → row_of s.guild_id ((put_row s d).0 s.guild_id) ≡ some s
put_row-accepted s d h = elim (Bool-cases (superseded s (d s.guild_id))) [
  | inl old ↦ conflict_or_not (ground (arith, old))
  | inr new ↦ rw new (row_of-add_row s d)
]
  where
    conflict_or_not : conflict ≡ accepted → row_of s.guild_id ((put_row s d).0 s.guild_id) ≡ some s
    conflict_or_not e = cc

abbrev pub postgres : Api ℕ
postgres = record {
  Db = ℕ → Option Row;
  history_of = λ d g. row_of g (d g);
  answers = λ g d. true;
  put_history = put_row;
  guild-history_of = λ g s d. guild-row_of g s (d g);
  put-accepted = put_row-accepted;
}

abbrev pub at_revision : ℕ → Snapshot ℕ
at_revision n = record { guild_id = 7; revision = n; checksum = 43; history = 42 }

abbrev pub mark : Tombstone
mark = record { run_id = 1; request_id = 2; revision = some 1004 }

abbrev pub kept : Key → Option (Entry (Stored ℕ))
kept (history_key g) = some (record { value = snapshot (at_revision 4); deadline = none })
kept _ = none

abbrev pub marked : Key → Option (Entry (Stored ℕ))
marked (history_key g) = some (record { value = snapshot (at_revision 4); deadline = none })
marked (history_invalid_key g) = some (record { value = tombstone_of mark; deadline = none })
marked _ = none

abbrev pub start : Table Key (Stored ℕ)
start = record { now = 0; at = kept }

abbrev pub dead : Table Key (Stored ℕ)
dead = record { now = 0; at = marked }

abbrev pub rows : ℕ → Option Row
rows g = some (record { revision = 1004; checksum = 6; history = 5 })

abbrev pub idle_writer : Writer ℕ
idle_writer = record { closed = false; dirty = λ g. some (at_revision 4); scheduled = λ g. true }

abbrev write_of : ℕ → Write ℕ
write_of n = record { of = at_revision n; written_at = some 100; fresh = false }

abbrev writes : List (Write ℕ)
writes = write_of 6 ∷ write_of 5 ∷ write_of 9 ∷ write_of 8 ∷ []

all_cached-newest_example :
    rank (revision_of (v1 redis 7 (all_cached redis 7 writes start)))
    ≡ newest redis 7 (rank (revision_of (v1 redis 7 start))) writes
all_cached-newest_example = all_cached-newest redis 7 writes start refl

load_canonical-tombstoned_example :
    IsTombstoneLoad checksum_of redis postgres 7 dead rows
      (load_canonical checksum_of redis postgres 7 200 dead rows)
load_canonical-tombstoned_example =
    load_canonical-tombstoned checksum_of redis postgres 7 200 dead rows refl

recover_tombstone-IsRecovered_example :
    IsRecovered checksum_of redis postgres 7 dead rows
      (recover_tombstone checksum_of redis postgres 7 200 dead rows)
recover_tombstone-IsRecovered_example =
    recover_tombstone-IsRecovered checksum_of redis postgres 7 200 dead rows

abbrev pub same_history : ℕ → ℕ
same_history h = h

replace_purged-IsPurged_example : IsPurged checksum_of same_history redis postgres 7 5 4 start (
    replace_purged checksum_of same_history redis postgres unheard lost fine mark 7 5 4 200 start
      rows idle_writer)
replace_purged-IsPurged_example =
    replace_purged-IsPurged checksum_of same_history redis postgres unheard lost fine mark 7 5 4 200
      start rows idle_writer
