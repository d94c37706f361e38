-- ===== src/History/Writer/Replaced.antt =====
-- What a purge's replacement of a history leaves behind in src/proactive_agent/history.py, whichever
-- of its calls fail.
use proactive_agent.Prelude.{
  ℕ, zero, suc, ◌+◌, ◌≤◌, ◌≡◌, refl, true, false, Option, none, some, ◌∙◌, ap, sym, arith, max,
  Bool-cases, inl, inr,
}
use proactive_agent.Keys.{Key, same, same_self, history_key, history_invalid_key}
use proactive_agent.Redis.{Redis, exists, get}
use proactive_agent.Redis.Laws.{lookup-write_self, exists-lookup_some, exists-lookup_none}
use proactive_agent.History.{
  Snapshot, Stored, Tombstone, snapshot, build_snapshot, purge_revision_gap,
}
use proactive_agent.History.Repository.{
  Error, Outcome, Reply, Api, returns, raises, accepted, conflict, failed, forget, invalidate,
}
use proactive_agent.History.Repository.Recovery.{v1-write_purged}
use proactive_agent.History.Writer.{
  Writer, Fault, Purged, fine, lost, indexed, unheard, done, partial, unwritten, discard, put_once,
  put_purged, try_write, try_call, replace_v1, replace_purged, leave_durable, after_put, retry,
  revision_or_zero,
}

module _ {H : Type 0} (history_checksum : H → ℕ) (scrub : H → H) (r : Redis Key (Stored H) same)
    (a : Api H) where
  open r use {Db, lookup, write}
  open a use {history_of, answers, put_history}

  -- Postgres holds `s`, which has this history at a revision that no stale writer reaches.
  pub record IsDurable (guild_id : ℕ) (history : H) (previous : ℕ) (p : a.Db) (s : Snapshot H)
      : Type 0 where
    pub holds : history_of p guild_id ≡ some s
    pub guild : s.guild_id ≡ guild_id
    pub new_history : s.history ≡ history
    pub valid : s.checksum ≡ history_checksum history
    pub above : previous + purge_revision_gap ≤ s.revision

  pub IsPut : ℕ → H → ℕ → a.Db × Outcome (Snapshot H) → Type 0
  IsPut guild_id history previous (p, returns s) = IsDurable guild_id history previous p s
  IsPut guild_id history previous (p, raises e) = Unit

  IsPutOnce : ℕ → H → ℕ → a.Db × Option (Outcome (Snapshot H)) → Type 0
  unfolding IsPut
  IsPutOnce guild_id history previous (p, none) = Unit
  IsPutOnce guild_id history previous (p, some o) = IsPut guild_id history previous (p, o)

  put_once-IsPutOnce :
      (g : ℕ) (h : H) (n : ℕ) (p : a.Db)
      → IsPutOnce g h n (put_once history_checksum scrub r a g h n p)
  unfolding put_once IsPutOnce IsPut build_snapshot revision_or_zero
  put_once-IsPutOnce g h n p = elim (Bool-cases (answers g p)) [
    | inl up ↦ by_reply up _ refl
    | inr down ↦ rw down tt
  ]
    where
      s : Snapshot H
      s =
          build_snapshot history_checksum g h
            (max n (revision_or_zero (history_of p g)) + purge_revision_gap)

      by_reply :
          answers g p ≡ true
          → (x : Reply) → (put_history s p).1 ≡ x
          → IsPutOnce g h n (put_once history_checksum scrub r a g h n p)
      by_reply y accepted e =
          let now : put_once history_checksum scrub r a g h n p
              ≡ ((put_history s p).0, some (returns s)) =
            rw (y, e) refl in
          rw now record {
            holds = a.put-accepted s p e;
            guild = refl;
            new_history = refl;
            valid = refl;
            above = omega arith;
          }
      by_reply y conflict e = rw (y, e) tt
      by_reply y failed e = rw (y, e) tt

  retry-IsPut :
      (g : ℕ) (h : H) (n : ℕ) (x : a.Db × Option (Outcome (Snapshot H)))
      (again : a.Db → a.Db × Outcome (Snapshot H))
      → IsPutOnce g h n x
      → ((p : a.Db) → IsPut g h n (again p))
      → IsPut g h n (retry history_checksum scrub r a x again)
  unfolding IsPutOnce IsPut retry
  retry-IsPut g h n (p, some o) again once rest = once
  retry-IsPut g h n (p, none) again once rest = rest p

  put_purged-IsPut :
      (left g : ℕ) (h : H) (n : ℕ) (p : a.Db)
      → IsPut g h n (put_purged history_checksum scrub r a left g h n p)
  unfolding put_purged IsPut
  put_purged-IsPut zero g h n p = retry-IsPut g h n _ _ (put_once-IsPutOnce g h n p) (λ p'. tt)
  put_purged-IsPut (suc left) g h n p =
      retry-IsPut g h n _ _ (put_once-IsPutOnce g h n p) (λ p'. put_purged-IsPut left g h n p')

  -- What the v1 key and the tombstone are after `replace_v1`.
  pub data IsReplaced (s : Snapshot H) (d : Db) : Purged H → Type 0 where
    replaced :
        get r (history_key s.guild_id) d ≡ some (snapshot s)
        → exists r (history_invalid_key s.guild_id) d ≡ false
        → IsReplaced s d (done s true)
    forgotten : exists r (history_key s.guild_id) d ≡ false → IsReplaced s d (done s false)
    tombstoned :
        exists r (history_invalid_key s.guild_id) d ≡ true → IsReplaced s d (partial s true)
    unmarked : IsReplaced s d (partial s false)

  partial-IsReplaced :
      (f : Fault) (t : Tombstone) (s : Snapshot H) (d : Db)
      → let (d', b) = try_call history_checksum scrub r a f (invalidate r s.guild_id t) d in
        IsReplaced s d' (partial s b)
  unfolding try_call invalidate
  partial-IsReplaced fine t s d =
      let k = history_invalid_key s.guild_id in
      tombstoned (exists-lookup_some r k _ (lookup-write_self r k _ d (same_self k)))
  partial-IsReplaced lost t s d = unmarked
  partial-IsReplaced indexed t s d = unmarked
  partial-IsReplaced unheard t s d = unmarked

  leave_durable-IsReplaced :
      (f1 f2 : Fault) (t : Tombstone) (s : Snapshot H) (d : Db)
      → let (d', o) = leave_durable history_checksum scrub r a f1 f2 t s d in IsReplaced s d' o
  unfolding leave_durable try_call forget
  leave_durable-IsReplaced fine f2 t s d =
      let k = history_key s.guild_id in
      forgotten (exists-lookup_none r k _ (lookup-write_self r k none d (same_self k)))
  leave_durable-IsReplaced lost f2 t s d = partial-IsReplaced f2 _ s d
  leave_durable-IsReplaced indexed f2 t s d = partial-IsReplaced f2 _ s d
  leave_durable-IsReplaced unheard f2 t s d = partial-IsReplaced f2 _ s _

  -- After `replace_v1` v1 holds the purged snapshot and the tombstone is gone, or v1 is gone, or the
  -- tombstone is set, or the result says that none of these could be done.
  pub replace_v1-IsReplaced :
      (f1 f2 f3 : Fault) (t : Tombstone) (s : Snapshot H) (now : ℕ) (d : Db)
      → s.checksum ≡ history_checksum s.history
      → let (d', o) = replace_v1 history_checksum scrub r a f1 f2 f3 t s now d in IsReplaced s d' o
  unfolding replace_v1 try_write
  replace_v1-IsReplaced fine f2 f3 t s now d valid =
      let (a, b) = v1-write_purged history_checksum r s now d valid in replaced a b
  replace_v1-IsReplaced lost f2 f3 t s now d valid = leave_durable-IsReplaced f2 f3 t s d
  replace_v1-IsReplaced indexed f2 f3 t s now d valid = leave_durable-IsReplaced f2 f3 t s _
  replace_v1-IsReplaced unheard f2 f3 t s now d valid = leave_durable-IsReplaced f2 f3 t s _

  -- What `replace_purged` leaves behind, by its result.
  pub data IsPurged (g : ℕ) (h : H) (n : ℕ) (d : Db)
      : (Db × a.Db × Writer H) × Purged H → Type 0 where
    purged :
        {d' : Db} {p' : a.Db} {w' : Writer H} {o : Purged H} {s : Snapshot H}
        → IsDurable g h n p' s
        → IsReplaced s d' o
        → w'.dirty g ≡ none
        → w'.scheduled g ≡ false
        → IsPurged g h n d ((d', p', w'), o)
    kept :
        {p' : a.Db} {w' : Writer H} {e : Error}
        → w'.dirty g ≡ none
        → w'.scheduled g ≡ false
        → IsPurged g h n d ((d, p', w'), unwritten e)

  after_put-IsPurged :
      (f1 f2 f3 : Fault) (t : Tombstone) (g : ℕ) (h : H) (n now : ℕ) (d : Db) (w : Writer H)
      (x : a.Db × Outcome (Snapshot H))
      → w.dirty g ≡ none
      → w.scheduled g ≡ false
      → IsPut g h n x
      → IsPurged g h n d (after_put history_checksum scrub r a f1 f2 f3 t now d w x)
  unfolding after_put IsPut
  after_put-IsPurged f1 f2 f3 t g h n now d w (p, raises e) clean idle put = kept clean idle
  after_put-IsPurged f1 f2 f3 t g h n now d w (p, returns s) clean idle put =
      purged put
        (replace_v1-IsReplaced f1 f2 f3 t s now d
          (put.valid ∙ sym (ap history_checksum put.new_history)))
        clean idle

  -- Whichever calls fail, `replace_purged` drops the dirty copy and the pending flush. Either the PUT
  -- failed and Redis is untouched, or Postgres holds the purged history at a revision at least 1000
  -- above the one given, and v1 holds the same snapshot with no tombstone, is gone, or is
  -- tombstoned, as the result says, or the result says that the tombstone could not be set.
  pub replace_purged-IsPurged :
      (f1 f2 f3 : Fault) (t : Tombstone) (g : ℕ) (h : H) (n now : ℕ) (d : Db) (p : a.Db)
      (w : Writer H)
      → IsPurged g h n d (replace_purged history_checksum scrub r a f1 f2 f3 t g h n now d p w)
  unfolding replace_purged discard
  replace_purged-IsPurged f1 f2 f3 t g h n now d p w =
      after_put-IsPurged f1 f2 f3 t g h n now d (discard g w).0 _ (ground arith) (ground arith)
        (put_purged-IsPut 1 g h n p)

  writer-after_put :
      (f1 f2 f3 : Fault) (t : Tombstone) (now : ℕ) (d : Db) (w : Writer H)
      (x : a.Db × Outcome (Snapshot H))
      → (after_put history_checksum scrub r a f1 f2 f3 t now d w x).0.2 ≡ w
  unfolding after_put
  writer-after_put f1 f2 f3 t now d w (p, raises e) = refl
  writer-after_put f1 f2 f3 t now d w (p, returns s) = refl

  -- `replace_purged` leaves the writer as `discard` does.
  pub writer-replace_purged :
      (f1 f2 f3 : Fault) (t : Tombstone) (g : ℕ) (h : H) (n now : ℕ) (d : Db) (p : a.Db)
      (w : Writer H)
      → (replace_purged history_checksum scrub r a f1 f2 f3 t g h n now d p w).0.2 ≡ (discard g w).0
  unfolding replace_purged
  writer-replace_purged f1 f2 f3 t g h n now d p w = writer-after_put f1 f2 f3 t now d _ _
