-- ===== src/History/Writer/Saved.antt =====
-- What `save` of src/proactive_agent/history.py has done when it returns.
use proactive_agent.Prelude.{
  ℕ, ◌+◌, ◌≡◌, refl, sym, ap, ◌∙◌, Bool, true, false, Option, none, some, Bool-cases, inl, inr,
  arith,
}
use proactive_agent.Keys.{Key, same, same_self, history_key, history_meta_key, history_invalid_key}
use proactive_agent.Redis.{Redis, exists, get, set}
use proactive_agent.Redis.Laws.{lookup-write_self, lookup-modify_ne, get-lookup}
use proactive_agent.History.{
  Snapshot, Stored, snapshot, at_least, revision_of, build_snapshot, snapshot_is_valid,
  restart_clock, cache_if_newer,
}
use proactive_agent.History.Repository.{Error, Outcome, Api, returns, raises, cache}
use proactive_agent.History.Writer.{Writer, after_cache, save}

module _ {H : Type 0} (r : Redis Key (Stored H) same) where
  lookup-restart_clock :
      (g : ℕ) (written_at : Option ℕ) (fresh : Bool) (d : r.Db)
      → r.lookup (restart_clock r (history_meta_key g) written_at fresh d) (history_key g)
        ≡ r.lookup d (history_key g)
  unfolding restart_clock
  lookup-restart_clock g none fresh d = refl
  lookup-restart_clock g (some t) fresh d =
      lookup-modify_ne r (history_meta_key g) (history_key g) _ d refl

  -- Where the script says that it wrote, v1 holds the snapshot.
  data IsOffered (s : Snapshot H) : r.Db × Bool → Type 0 where
    written :
        {d : r.Db} → get r (history_key s.guild_id) d ≡ some (snapshot s) → IsOffered s (d, true)
    refused : {d : r.Db} → IsOffered s (d, false)

  cache_if_newer-IsOffered :
      (s : Snapshot H) (written_at : Option ℕ) (fresh : Bool) (d : r.Db)
      → IsOffered s (
          cache_if_newer r
            (history_key s.guild_id)
            (history_invalid_key s.guild_id)
            (history_meta_key s.guild_id)
            s
            written_at
            fresh
            d)
  unfolding cache_if_newer
  cache_if_newer-IsOffered s written_at fresh d =
      elim (Bool-cases (exists r (history_invalid_key s.guild_id) d)) [
        | inl dead ↦ rw dead refused
        | inr alive ↦
            rw alive
              (elim (Bool-cases
                (at_least s.revision (revision_of (get r (history_key s.guild_id) d)))) [
                  | inl newer ↦ rw newer refused
                  | inr older ↦ rw older (written holds)
                ])
      ]
    where
      there :
          r.lookup
            (restart_clock r
              (history_meta_key s.guild_id)
              written_at
              fresh
              (set r (history_key s.guild_id) (snapshot s) d))
            (history_key s.guild_id)
          ≡ some (record { value = snapshot s; deadline = none })
      there =
          lookup-restart_clock s.guild_id written_at fresh _
          ∙ lookup-write_self r (history_key s.guild_id) _ d (same_self (history_key s.guild_id))

      holds :
          get r (history_key s.guild_id) (
            restart_clock r
              (history_meta_key s.guild_id)
              written_at
              fresh
              (set r (history_key s.guild_id) (snapshot s) d))
          ≡ some (snapshot s)
      holds = get-lookup r (history_key s.guild_id) _ there

module _ {H : Type 0} (history_checksum : H → ℕ) (scrub : H → H) (r : Redis Key (Stored H) same)
    (a : Api H) where
  -- `save` returns a snapshot of the scrubbed history only if v1 holds it and its flush is scheduled;
  -- otherwise it leaves the writer alone.
  pub data IsSaved (g : ℕ) (h : H) (w : Writer H)
      : (r.Db × Writer H) × Outcome (Snapshot H) → Type 0 where
    saved :
        {d' : r.Db} {w' : Writer H} (s : Snapshot H)
        → s.guild_id ≡ g
        → s.history ≡ scrub h
        → get r (history_key g) d' ≡ some (snapshot s)
        → w'.scheduled g ≡ true
        → IsSaved g h w ((d', w'), returns s)
    not_saved : {d' : r.Db} {e : Error} → IsSaved g h w ((d', w), raises e)

  after_cache-IsSaved :
      (g : ℕ) (h : H) (s : Snapshot H) (w : Writer H) (x : r.Db × Bool)
      → s.guild_id ≡ g
      → s.history ≡ scrub h
      → IsOffered r s x
      → IsSaved g h w (after_cache history_checksum scrub r a s w (x.0, returns x.1))
  unfolding after_cache
  after_cache-IsSaved g h s w x eg eh refused = not_saved
  after_cache-IsSaved g h s w x eg eh (written {d} holds) =
      saved s eg eh (ap (λ n. get r (history_key n) d) (sym eg) ∙ holds) (ground (arith, eg))

  pub save-IsSaved :
      (g : ℕ) (h : H) (n : ℕ) (fresh : Bool) (now : ℕ) (d : r.Db) (w : Writer H)
      → IsSaved g h w (save history_checksum scrub r a g h n fresh now d w)
  unfolding save cache build_snapshot
  save-IsSaved g h n fresh now d w = elim (Bool-cases w.closed) [
    | inl shut ↦ simp shut not_saved
    | inr opened ↦ simp opened (elim (Bool-cases (snapshot_is_valid history_checksum s)) [
      | inl valid ↦ rw valid (
          after_cache-IsSaved g h s w _ refl refl (cache_if_newer-IsOffered r s (some now) fresh _))
      | inr bad ↦ rw bad not_saved
    ])
  ]
    where
      s : Snapshot H
      s = build_snapshot history_checksum g (scrub h) (n + 1)
