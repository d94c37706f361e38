-- ===== src/Runtime/Synced.antt =====
-- What a wake of src/proactive_agent/runtime.py may rely on once it is in step with the stores.
use proactive_agent.Prelude.{
  ℕ, ◌≡◌, refl, sym, ap, ◌∙◌, Bool, true, false, not, ◌&&◌, Option, none, some, Bool-cases, inl,
  inr, arith,
}
use proactive_agent.Keys.{Key, same, history_key, history_invalid_key, purge_epoch_key}
use proactive_agent.Redis.{Redis, exists, get}
use proactive_agent.History.{Stored, revision_of}
use proactive_agent.History.Repository.{Outcome, Api, returns, raises}
use proactive_agent.Purge.Guild.{epoch_of}
use proactive_agent.Runtime.{
  GuildRuntime, Refusal, Reply, ready, refused, same_number, forget_history, State, store_state,
  after_recovery, drop_copies, sync_tombstoned, sync_copy, sync_with_store,
}

same_number-some : (o : Option ℕ) (n : ℕ) → same_number o (some n) ≡ true → o ≡ some n
same_number-some none n h = absurd cc
same_number-some (some m) n h = let e : m ≡ n = ground (arith, h) in ap (λ k. some k) e

module _ {H : Type 0} (history_checksum : H → ℕ) (empty : H) (r : Redis Key (Stored H) same)
    (a : Api H) (guild_id now : ℕ) where
  abbrev pub Guild : Type 0
  Guild = State r a

  -- The history that the runtime has, if any, is at the revision of v1; it has none if a purge has
  -- moved the epoch since the last wake.
  pub record IsInStep (s s' : Guild) : Type 0 where
    pub current :
        s'.runtime.history_loaded ≡ true
        → revision_of (get r (history_key guild_id) s'.redis) ≡ some s'.runtime.history_revision
    pub epoch : s'.runtime.purge_epoch ≡ epoch_of (get r (purge_epoch_key guild_id) s.redis)
    pub moved :
        s.runtime.store_synced ≡ true
        → same_number (epoch_of (get r (purge_epoch_key guild_id) s.redis)) s.runtime.purge_epoch
          ≡ false
        → s'.runtime.history_loaded ≡ false
    pub synced : s'.runtime.store_synced ≡ true

  -- A wake goes on in step with the stores, or it is refused with no history in the runtime, which
  -- happens to a tombstoned guild only.
  pub data IsSynced (s : Guild) : Guild × Reply (Unit {0}) → Type 0 where
    in_step : {s' : Guild} → IsInStep s s' → IsSynced s (s', ready tt)
    put_off :
        {s' : Guild} {why : Refusal}
        → exists r (history_invalid_key guild_id) s.redis ≡ true
        → s'.runtime.history_loaded ≡ false
        → s'.runtime.store_synced ≡ false
        → IsSynced s (s', refused why)

  after_recovery-IsSynced :
      (s t : Guild)
      → exists r (history_invalid_key guild_id) s.redis ≡ true
      → t.runtime.history_loaded ≡ false
      → t.runtime.store_synced ≡ false
      → (x : r.Db × Outcome Bool)
      → IsSynced s (
          after_recovery history_checksum empty r a guild_id now
            (epoch_of (get r (purge_epoch_key guild_id) s.redis))
            t
            x)
  unfolding after_recovery
  after_recovery-IsSynced s t dead unloaded unsynced (d, raises e) = put_off dead unloaded unsynced
  after_recovery-IsSynced s t dead unloaded unsynced (d, returns false) =
      put_off dead unloaded unsynced
  after_recovery-IsSynced s t dead unloaded unsynced (d, returns true) = in_step (record {
    current = λ loaded. let e : true ≡ false = sym loaded ∙ unloaded in absurd cc;
    epoch = refl;
    moved = λ was other. unloaded;
    synced = refl;
  })

  -- What `sync_copy` keeps is at the stored revision and from after the last purge.
  record IsFresh (epoch revision : Option ℕ) (g g' : GuildRuntime H) : Type 0 where
    current : g'.history_loaded ≡ true → revision ≡ some g'.history_revision
    moved :
        g.store_synced ≡ true → same_number epoch g.purge_epoch ≡ false → g'.history_loaded ≡ false

  sync_copy-IsFresh :
      (epoch revision : Option ℕ) (g : GuildRuntime H)
      → IsFresh epoch revision g
          (sync_copy history_checksum empty r a guild_id now epoch revision g)
  unfolding sync_copy forget_history
  sync_copy-IsFresh epoch revision g =
      elim (Bool-cases (g.store_synced && not (same_number epoch g.purge_epoch))) [
        | inl purged ↦
            simp purged (record { current = λ loaded. absurd cc; moved = λ was other. refl })
        | inr same_epoch ↦
            simp same_epoch
              (elim (Bool-cases
                (g.history_loaded && not (same_number revision (some g.history_revision)))) [
                  | inl stale ↦
                      simp stale
                        (record { current = λ loaded. absurd cc; moved = λ was other. refl })
                  | inr kept ↦ simp kept (record {
                    current = λ loaded.
                        same_number-some revision g.history_revision (ground (arith, loaded, kept));
                    moved = λ was other. absurd (ground (arith, was, other, same_epoch));
                  })
                ])
      ]

  -- After `sync_with_store`, a wake goes on only with a history in memory that is at the revision of
  -- v1 and from after the last purge, or with none; a wake is refused only for a tombstoned guild, and
  -- then the runtime has no history and is to be synced again.
  pub sync_with_store-IsSynced :
      (s : Guild) → IsSynced s (sync_with_store history_checksum empty r a guild_id now s)
  unfolding sync_with_store sync_tombstoned drop_copies store_state
  sync_with_store-IsSynced s = elim (Bool-cases (exists r (history_invalid_key guild_id) s.redis)) [
    | inl dead ↦ rw dead (
        after_recovery-IsSynced s (drop_copies history_checksum empty r a guild_id now s) dead refl
          refl _)
    | inr alive ↦ rw alive (
        let fresh =
          sync_copy-IsFresh (epoch_of (get r (purge_epoch_key guild_id) s.redis))
            (revision_of (get r (history_key guild_id) s.redis)) s.runtime in
        in_step
          (record { current = fresh.current; epoch = refl; moved = fresh.moved; synced = refl }))
  ]
