-- ===== src/History/Monotone.antt =====
-- The revision under a guild's v1 history key in src/proactive_agent/history.py never goes back, in
-- whatever order the replicas write.
use proactive_agent.Prelude.{
  ℕ, suc, ◌≤◌, ◌<◌, ◌≡◌, refl, ap, ◌∙◌, inl, inr, Bool, true, false, Option, none, some, List, [],
  ◌∷◌, arith, Bool-cases, max,
}
use proactive_agent.Keys.{Key, same, same_self, history_key, history_meta_key, history_invalid_key}
use proactive_agent.Redis.{Redis, exists, get, set}
use proactive_agent.Redis.Laws.{lookup-write_ne, lookup-write_self, lookup-modify_ne}
use proactive_agent.History.{
  Snapshot, Stored, snapshot, revision_of, at_least, cache_if_newer, restart_clock,
}

-- 0 if no revision can be read, and one more than the revision otherwise.
abbrev pub rank : Option ℕ → ℕ
rank none = 0
rank (some n) = suc n

-- One writer's call of the cache script, for the guild's own keys.
pub record Write (H : Type 0) : Type 0 where
  pub of : Snapshot H
  pub written_at : Option ℕ
  pub fresh : Bool

module _ {H : Type 0} (r : Redis Key (Stored H) same) (g : ℕ) where
  open r use {Db, lookup, write}

  abbrev pub v1 : Db → Option (Stored H)
  v1 d = get r (history_key g) d

  abbrev pub tombstoned : Db → Bool
  tombstoned d = exists r (history_invalid_key g) d

  abbrev pub cached : Write H → Db → Db × Bool
  cached w =
      cache_if_newer r (history_key g) (history_invalid_key g) (history_meta_key g) w.of
        w.written_at w.fresh

  lookup-restart_clock :
      (k : Key) (t : Option ℕ) (fresh : Bool) (d : Db)
      → same (history_meta_key g) k ≡ false
      → lookup (restart_clock r (history_meta_key g) t fresh d) k ≡ lookup d k
  unfolding restart_clock
  lookup-restart_clock k none fresh d h = refl
  lookup-restart_clock k (some t) fresh d h = lookup-modify_ne r (history_meta_key g) k _ d h

  -- The three ends of a call: refused by the tombstone, refused as stale, or written.
  pub data Outcome (w : Write H) (d : Db) : Db × Bool → Type 0 where
    tombstone_refused : {o : Db × Bool} → tombstoned d ≡ true → o ≡ (d, false) → Outcome w d o
    stale :
        {o : Db × Bool}
        → tombstoned d ≡ false
        → w.of.revision < rank (revision_of (v1 d))
        → o ≡ (d, false)
        → Outcome w d o
    written :
        {o : Db × Bool}
        → tombstoned d ≡ false
        → rank (revision_of (v1 d)) ≤ w.of.revision
        → o.1 ≡ true
        → v1 o.0 ≡ some (snapshot w.of)
        → tombstoned o.0 ≡ false
        → Outcome w d o

  at_least-rank : (n : ℕ) (o : Option ℕ) → at_least n o ≡ true → n < rank o
  at_least-rank n o h = ground arith

  -- What a call of the cache script does: nothing while the guild is tombstoned, nothing if the v1
  -- key holds this revision or a newer one, and otherwise it writes the snapshot.
  pub cache_if_newer-Outcome : (w : Write H) (d : Db) → Outcome w d (cached w d)
  unfolding cache_if_newer
  cache_if_newer-Outcome w d = elim (Bool-cases (tombstoned d)) [
    | inl dead ↦ rw dead (tombstone_refused dead refl)
    | inr alive ↦ elim (Bool-cases (at_least w.of.revision (revision_of (v1 d)))) [
      | inl old ↦ rw (alive, old) (stale alive (ground arith) refl)
      | inr new ↦
          let d' = set r (history_key g) (snapshot w.of) d in
          let kept =
            lookup-restart_clock (history_key g) w.written_at w.fresh d' refl
            ∙ lookup-write_self r (history_key g) _ d (same_self (history_key g)) in
          let still =
            lookup-restart_clock (history_invalid_key g) w.written_at w.fresh d' refl
            ∙ lookup-write_ne r (history_key g) (history_invalid_key g) _ d refl in
          rw (alive, new)
            (written alive (ground arith) refl (ground (arith, kept)) (ground (arith, still)))
    ]
  ]

  rank-cached :
      (w : Write H) (d : Db) {o : Db × Bool}
      → tombstoned d ≡ false
      → Outcome w d o
      → (rank (revision_of (v1 o.0)) ≡ max (rank (revision_of (v1 d))) (suc w.of.revision))
        × (tombstoned o.0 ≡ false)
  rank-cached w d alive (tombstone_refused dead e) = cc
  rank-cached w d {o} alive (stale _ old e) = rw e (omega arith, alive)
  rank-cached w d alive (written _ newer done now still) = (rw now (omega arith), still)

  -- Several writes, in the order in which Redis runs them.
  pub all_cached : List (Write H) → Db → Db
  all_cached [] d = d
  all_cached (w ∷ ws) d = all_cached ws (cached w d).0

  pub newest : ℕ → List (Write H) → ℕ
  newest n [] = n
  newest n (w ∷ ws) = newest (max n (suc w.of.revision)) ws

  -- With no tombstone, after any writes in any order the v1 key has the highest of the revision it
  -- had and the revisions that were offered.
  pub all_cached-newest :
      (ws : List (Write H)) (d : Db)
      → tombstoned d ≡ false
      → rank (revision_of (v1 (all_cached ws d))) ≡ newest (rank (revision_of (v1 d))) ws
  unfolding all_cached newest
  all_cached-newest [] d alive = refl
  all_cached-newest (w ∷ ws) d alive =
      let (step, still) = rank-cached w d alive (cache_if_newer-Outcome w d) in
      all_cached-newest ws (cached w d).0 still ∙ ap (λ n. newest n ws) step

  -- While the guild is tombstoned, writes change nothing at all.
  pub all_cached-tombstoned :
      (ws : List (Write H)) (d : Db) → tombstoned d ≡ true → all_cached ws d ≡ d
  unfolding all_cached
  all_cached-tombstoned [] d dead = refl
  all_cached-tombstoned (w ∷ ws) d dead =
      let e = refused w d dead (cache_if_newer-Outcome w d) in
      ap (λ o. all_cached ws o.0) e ∙ all_cached-tombstoned ws d dead
    where
      refused :
          (w : Write H) (d : Db)
          → tombstoned d ≡ true
          → {o : Db × Bool} → Outcome w d o
          → o ≡ (d, false)
      refused w d dead (tombstone_refused _ e) = e
      refused w d dead (stale alive _ e) = e
      refused w d dead (written alive _ _ _ _) = cc
