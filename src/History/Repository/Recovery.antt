-- ===== src/History/Repository/Recovery.antt =====
-- Loads and recovery while a guild's history is tombstoned, in src/proactive_agent/history.py.
use proactive_agent.Prelude.{
  ℕ, ◌≤◌, ◌≡◌, inl, inr, refl, Bool, true, false, not, ◌||◌, Option, none, some, ◌∙◌, sym, arith,
  Bool-cases, Option-cases, ◌==◌,
}
use proactive_agent.Keys.{
  Key, same, same_self, history_key, history_meta_key, history_invalid_key, history_idle_key,
}
use proactive_agent.Redis.{Redis, exists, get, set, del}
use proactive_agent.Redis.Laws.{
  lookup-write_ne, lookup-write_self, lookup-modify_ne, get-lookup, exists-lookup_none,
}
use proactive_agent.History.{
  Snapshot, Stored, Tombstone, snapshot, meta, score, snapshot_is_valid, write_purged_script,
  cache_if_newer, revision_of,
}
use proactive_agent.History.Repository.{
  Outcome, Api, returns, raises, api_error, checksum_error, write_purged, time_or, idle_state,
  cache, load_durable, load_canonical, tombstone, behind, recover_tombstone, start_clock,
  after_tombstone,
}

module _ {H : Type 0} (history_checksum : H → ℕ) (r : Redis Key (Stored H) same) where
  open r use {Db, lookup, write}

  pub v1-write_purged :
      (s : Snapshot H) (now : ℕ) (d : Db)
      → s.checksum ≡ history_checksum s.history
      → (get r (history_key s.guild_id) (write_purged history_checksum r s now d).0
          ≡ some (snapshot s))
        × (exists r (history_invalid_key s.guild_id) (write_purged history_checksum r s now d).0
            ≡ false)
  unfolding write_purged snapshot_is_valid write_purged_script
  v1-write_purged s now d valid =
      let ok : (s.checksum == history_checksum s.history) ≡ true = ground arith in
      let k = history_key s.guild_id in
      let i = history_invalid_key s.guild_id in
      let m = history_meta_key s.guild_id in
      let d1 =
        set r (history_idle_key s.guild_id) (score (time_or now (idle_state r s.guild_id d).0)) d in
      let d2 = set r k (snapshot s) d1 in
      let kept =
        lookup-modify_ne r m k (meta (time_or now (idle_state r s.guild_id d).0) false) (del r i d2)
          refl
        ∙ lookup-write_ne r i k none d2 refl
        ∙ lookup-write_self r k _ d1 (same_self k) in
      let gone =
        lookup-modify_ne r m i (meta (time_or now (idle_state r s.guild_id d).0) false) (del r i d2)
          refl
        ∙ lookup-write_self r i none d2 (same_self i) in
      rw ok (get-lookup r k _ kept, exists-lookup_none r i _ gone)

  lookup-start_clock :
      (g : ℕ) (t : Option ℕ) (now : ℕ) (k : Key) (d : Db)
      → same (history_idle_key g) k ≡ false
      → lookup (start_clock r g t now d) k ≡ lookup d k
  unfolding start_clock
  lookup-start_clock g t now k d h = grind (arith, lookup-write_ne)

  -- A copy that is only cached again leaves v1 and the tombstone alone while there is a tombstone.
  lookup-cache :
      (s : Snapshot H) (t : Option ℕ) (fresh : Bool) (now : ℕ) (k : Key) (d : Db)
      → exists r (history_invalid_key s.guild_id) d ≡ true
      → same (history_idle_key s.guild_id) k ≡ false
      → lookup (cache history_checksum r s t fresh now d).0 k ≡ lookup d k
  unfolding cache cache_if_newer
  lookup-cache s t fresh now k d dead h =
      let d' = start_clock r s.guild_id t now d in
      let same_mark = lookup-start_clock s.guild_id t now (history_invalid_key s.guild_id) d refl in
      let same_key = lookup-start_clock s.guild_id t now k d h in
      let dead' : exists r (history_invalid_key s.guild_id) d' ≡ true = ground (arith, same_mark) in
      elim (Bool-cases (snapshot_is_valid history_checksum s)) [
        | inl ok ↦ rw (ok, dead') same_key
        | inr bad ↦ rw bad refl
      ]

module _ {H : Type 0} (history_checksum : H → ℕ) (r : Redis Key (Stored H) same) (a : Api H) where
  open r use {Db, lookup, write}
  open a use {history_of, answers}

  -- What a load gives that reads the Postgres copy only.
  pub data IsDurableLoad (g : ℕ) (p : a.Db) : Outcome (Option (Snapshot H)) → Type 0 where
    found : {o : Option (Snapshot H)} → history_of p g ≡ o → IsDurableLoad g p (returns o)
    unanswered : answers g p ≡ false → IsDurableLoad g p (raises api_error)
    mismatched :
        {s : Snapshot H}
        → history_of p g ≡ some s
        → snapshot_is_valid history_checksum s ≡ false
        → IsDurableLoad g p (raises checksum_error)

  pub IsTombstoneLoad : ℕ → Db → a.Db → Db × Outcome (Option (Snapshot H)) → Type 0
  IsTombstoneLoad g d p (d', o) =
      IsDurableLoad g p o
      × (lookup d' (history_key g) ≡ lookup d (history_key g))
      × (lookup d' (history_invalid_key g) ≡ lookup d (history_invalid_key g))

  load_durable-IsTombstoneLoad :
      (g now : ℕ) (d : Db) (p : a.Db)
      → exists r (history_invalid_key g) d ≡ true
      → IsTombstoneLoad g d p (load_durable history_checksum r a g now d p)
  unfolding load_durable IsTombstoneLoad
  load_durable-IsTombstoneLoad g now d p dead = elim (Bool-cases (answers g p)) [
    | inr down ↦ rw down (unanswered down, refl, refl)
    | inl up ↦ elim (Option-cases (history_of p g)) [
      | inl absent ↦ rw (up, absent) (found absent, refl, refl)
      | inr (s, present) ↦ elim (Bool-cases (snapshot_is_valid history_checksum s)) [
        | inr bad ↦ rw (up, present, bad) (mismatched present bad, refl, refl)
        | inl ok ↦
            let hg = a.guild-history_of g s p present in
            let dead' : exists r (history_invalid_key s.guild_id) d ≡ true = rw hg dead in
            let now' : load_durable history_checksum r a g now d p
                ≡ ((cache history_checksum r s none false now d).0, returns (some s)) =
              rw (up, present, ok) refl in
            rw now' (
              found present,
              lookup-cache history_checksum r s none false now (history_key g) d dead' refl,
              lookup-cache history_checksum r s none false now (history_invalid_key g) d dead' refl,
            )
      ]
    ]
  ]

  -- While a guild is tombstoned `load_canonical` gives what Postgres holds, or raises because the API
  -- does not answer or the copy's checksum is wrong, and it leaves v1 and the tombstone as they are.
  pub load_canonical-tombstoned :
      (g now : ℕ) (d : Db) (p : a.Db)
      → exists r (history_invalid_key g) d ≡ true
      → IsTombstoneLoad g d p (load_canonical history_checksum r a g now d p)
  unfolding load_canonical
  load_canonical-tombstoned g now d p dead = rw dead (load_durable-IsTombstoneLoad g now d p dead)

  -- The ends of `recover_tombstone`.
  pub data IsRecovered (g : ℕ) (d : Db) (p : a.Db) : Db × Outcome Bool → Type 0 where
    clean : exists r (history_invalid_key g) d ≡ false → IsRecovered g d p (d, returns true)
    restored :
        {d' : Db} {s : Snapshot H}
        → history_of p g ≡ some s
        → snapshot_is_valid history_checksum s ≡ true
        → ((t : Tombstone) (n : ℕ)
            → tombstone r g d ≡ some (some t)
            → t.revision ≡ some n
            → n ≤ s.revision)
        → get r (history_key g) d' ≡ some (snapshot s)
        → exists r (history_invalid_key g) d' ≡ false
        → IsRecovered g d p (d', returns true)
    refused : exists r (history_invalid_key g) d ≡ true → IsRecovered g d p (d, returns false)
    api_down : IsRecovered g d p (d, raises api_error)

  exists-tombstone-none :
      (g : ℕ) (d : Db) → tombstone r g d ≡ none → exists r (history_invalid_key g) d ≡ false
  unfolding tombstone
  exists-tombstone-none g d h = ground arith

  exists-tombstone-some :
      (g : ℕ) (d : Db) {v : Option Tombstone}
      → tombstone r g d ≡ some v
      → exists r (history_invalid_key g) d ≡ true
  unfolding tombstone
  exists-tombstone-some g d h = ground arith

  checksum-snapshot_is_valid :
      (s : Snapshot H)
      → snapshot_is_valid history_checksum s ≡ true
      → s.checksum ≡ history_checksum s.history
  unfolding snapshot_is_valid
  checksum-snapshot_is_valid s h = ground arith

  behind-revision :
      (v : Option Tombstone) (durable : ℕ) (v1 : Option ℕ)
      → behind v durable v1 ≡ false
      → (t : Tombstone) (n : ℕ) → v ≡ some t
      → t.revision ≡ some n
      → n ≤ durable
  unfolding behind
  behind-revision none durable v1 h t n e f = cc
  behind-revision (some u) durable v1 h t n e f = ground arith

  after_tombstone-IsRecovered :
      (v : Option (Option Tombstone)) (g now : ℕ) (d : Db) (p : a.Db)
      → tombstone r g d ≡ v
      → IsRecovered g d p (after_tombstone history_checksum r a v g now d p)
  unfolding after_tombstone
  after_tombstone-IsRecovered none g now d p absent = clean (exists-tombstone-none g d absent)
  after_tombstone-IsRecovered (some value) g now d p marked = elim (Bool-cases (answers g p)) [
    | inr down ↦ rw down api_down
    | inl up ↦ elim (Option-cases (history_of p g)) [
      | inl missing ↦ rw (up, missing) (refused (exists-tombstone-some g d marked))
      | inr (s, present) ↦
          elim (Bool-cases (
            not (snapshot_is_valid history_checksum s)
            || behind value s.revision (revision_of (get r (history_key g) d)))) [
              | inl bad ↦ rw (up, present, bad) (refused (exists-tombstone-some g d marked))
              | inr good ↦
                  let hg = sym (a.guild-history_of g s p present) in
                  let ok : snapshot_is_valid history_checksum s ≡ true = ground arith in
                  let caught_up : behind value s.revision (revision_of (get r (history_key g) d))
                      ≡ false =
                    ground arith in
                  let (now_v1, gone) =
                    v1-write_purged history_checksum r s now d (checksum-snapshot_is_valid s ok) in
                  let end : after_tombstone history_checksum r a (some value) g now d p
                      ≡ ((write_purged history_checksum r s now d).0, returns true) =
                    rw (up, present, good) refl in
                  rw end (
                    restored present ok
                      (λ t n e.
                        behind-revision value s.revision _ caught_up t n
                          (ground (arith, e, marked)))
                      (rw hg now_v1) (rw hg gone))
            ]
    ]
  ]

  -- `recover_tombstone` says that the tombstone is gone exactly where it is: there was none, or v1 now
  -- holds the valid Postgres copy, at a revision no lower than the tombstone's; in every other case
  -- it changes nothing.
  pub recover_tombstone-IsRecovered :
      (g now : ℕ) (d : Db) (p : a.Db)
      → IsRecovered g d p (recover_tombstone history_checksum r a g now d p)
  unfolding recover_tombstone
  recover_tombstone-IsRecovered g now d p = after_tombstone-IsRecovered _ g now d p refl
