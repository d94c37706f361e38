-- ===== src/Purge/History/Ends.antt =====
-- How `_purge_history` of src/proactive_agent/purge.py ends, whatever fails.
use proactive_agent.Prelude.{
  ℕ, ◌≡◌, refl, ap, ◌∙◌, Bool, true, false, not, ◌&&◌, ◌||◌, ◌⊎◌, arith, inl, inr, Option, none,
  some, if◌then◌else◌, Bool-cases,
}
use proactive_agent.Keys.{Key, same, purge_epoch_key, legacy_history_key}
use proactive_agent.Redis.{Redis, exists}
use proactive_agent.History.{Snapshot, Stored, Tombstone}
use proactive_agent.History.Repository.{tombstone, Outcome, Api, returns, raises}
use proactive_agent.History.Writer.{discard, try_call}
use proactive_agent.History.Writer.Replaced.{replace_purged-IsPurged, writer-replace_purged}
use proactive_agent.Purge.{Ended, Weather, Target, Command}
use proactive_agent.Purge.History.{
  legacy_state, mark_of, Legacy, absent, unreadable, readable, is_unreadable, is_readable, is_some,
  World, is_empty_copy, end_empty, write_history, purge_copy, migrate, after_load, purge_history,
}
use proactive_agent.Purge.History.Forgotten.{
  IsCopy, stored, only_legacy, no_copy, IsClean, nothing, empty, no_fold, load, IsReplaced, written,
  unput, halfway, IsHistoryPurged, unneeded, rewritten, untouched, not_put, half_done,
  after_replace-IsReplaced,
}

module _ {H : Type 0} (history_checksum : H → ℕ) (scrub : H → H) (r : Redis Key (Stored H) same)
    (a : Api H) (t : Target H) (c : Command) (e : Weather) (external : Bool) (now : ℕ) where
  write_history-IsHistoryPurged :
      (old : Option (Option Tombstone)) (drop_legacy : Bool) (s : Snapshot H) (w0 w : World r a)
      → w.api ≡ w0.api
      → w.writer ≡ w0.writer
      → w.stores ≡ w0.stores
      → (o : Option (H × ℕ))
      → IsHistoryPurged history_checksum scrub r a t c e external now w0
          (write_history history_checksum scrub r a t c e external now old drop_legacy s w o)
  unfolding write_history
  write_history-IsHistoryPurged old drop_legacy s w0 w ea ew es none = untouched refl ea ew
  write_history-IsHistoryPurged old drop_legacy s w0 w ea ew es (some (history, hits)) =
      elim (Bool-cases (t.holds_id history)) [
        | inl leaks ↦ rw leaks (untouched refl ea ew)
        | inr clean ↦ rw clean (elim (Bool-cases e.lost_before_write) [
          | inl fence ↦ simp fence (untouched refl ea ew)
          | inr held ↦ simp held (
              from_start (
                after_replace-IsReplaced history_checksum scrub r a t c e external now old
                  drop_legacy (some hits) history s.revision w.redis w _
                  (writer-replace_purged history_checksum scrub r a e.writing e.forgetting
                    e.invalidating (mark_of c) c.guild_id history s.revision now w.redis w.api
                    w.writer)
                  clean
                  (replace_purged-IsPurged history_checksum scrub r a e.writing e.forgetting
                    e.invalidating (mark_of c) c.guild_id history s.revision now w.redis w.api
                    w.writer)))
        ])
      ]
    where
      from_start :
          {x : World r a × Ended Bool}
          → IsReplaced history_checksum scrub r a t c e external now w x
          → IsHistoryPurged history_checksum scrub r a t c e external now w0 x
      from_start (written s f g) = rewritten s f g
      from_start (unput f g) = not_put (f ∙ es) (g ∙ ap (λ v. (discard c.guild_id v).0) ew)
      from_start (halfway s h f) = half_done s h f

  end_empty-IsHistoryPurged :
      (w0 w : World r a) (drop_legacy : Bool)
      → w.api ≡ w0.api
      → w.writer ≡ w0.writer
      → (copy : Option (Snapshot H)) → IsCopy history_checksum scrub r a t c e external now w0 copy
      → IsClean history_checksum scrub r a t c e external now copy
      → is_some (tombstone r c.guild_id w0.redis) ≡ false
      → IsHistoryPurged history_checksum scrub r a t c e external now w0
          (end_empty history_checksum scrub r a t c e external now drop_legacy w)
  unfolding end_empty
  end_empty-IsHistoryPurged w0 w false ea ew copy of clean free = unneeded copy of clean free ea ew
  end_empty-IsHistoryPurged w0 w true ea ew copy of clean free = elim (Bool-cases (forget_call.1)) [
    | inl deleted ↦ rw deleted (unneeded copy of clean free ea ew)
    | inr left ↦ rw left (untouched refl ea ew)
  ]
    where
      forget_call : r.Db × Bool
      forget_call =
          try_call history_checksum scrub r a e.dropping_legacy
            (λ d. r.write (legacy_history_key c.guild_id) none d) w.redis

  purge_copy-IsHistoryPurged :
      (old : Option (Option Tombstone)) (l : Legacy H) (migrated : Bool) (w0 w : World r a)
      → w.api ≡ w0.api
      → w.writer ≡ w0.writer
      → w.stores ≡ w0.stores
      → tombstone r c.guild_id w0.redis ≡ old
      → (s : Option (Snapshot H)) → IsCopy history_checksum scrub r a t c e external now w0 s
      → (is_some old && is_empty_copy history_checksum scrub r a t c e external now s) ≡ false
      → IsHistoryPurged history_checksum scrub r a t c e external now w0
          (purge_copy history_checksum scrub r a t c e external now old l migrated s w)
  unfolding purge_copy
  purge_copy-IsHistoryPurged old l migrated w0 w ea ew es eo none of usable =
      end_empty-IsHistoryPurged w0 w _ ea ew none of nothing (ground (arith, eo, usable))
  purge_copy-IsHistoryPurged old l migrated w0 w ea ew es eo (some s) of usable =
      elim (Bool-cases (t.is_empty_history s.history)) [
        | inl none_left ↦ rw none_left (
            end_empty-IsHistoryPurged w0 w _ ea ew (some s) of (empty none_left)
              (ground (arith, eo, usable, none_left)))
        | inr full ↦
            rw full
              (elim (Bool-cases (
                t.needs_no_fold s.history
                && not (migrated || is_some old || (external && is_readable l)))) [
                  | inl clean ↦ rw clean (
                      unneeded (some s) of (no_fold (ground (arith, clean)))
                        (ground (arith, eo, clean)) ea ew)
                  | inr dirty ↦ rw dirty (
                      write_history-IsHistoryPurged old (external && is_readable l) s w0
                        (record w { name_hits = some 0 }) ea ew es
                        (if t.needs_no_fold s.history
                          then some (s.history, 0)
                          else t.fold s.history))
                ])
      ]

  module _ (w0 : World r a) where
    abbrev loaded : r.Db × Outcome (Option (Snapshot H))
    loaded = load history_checksum scrub r a t c e external now w0

    stored_or_none :
        (s : Option (Snapshot H))
        → loaded.1 ≡ returns s
        → (is_readable (legacy_state history_checksum r c.guild_id w0.redis) ≡ false)
          ⊎ (exists r (purge_epoch_key c.guild_id) loaded.0 ≡ true)
        → IsCopy history_checksum scrub r a t c e external now w0 s
    stored_or_none none el h = no_copy el h
    stored_or_none (some s) el h = stored el

    migrate-IsHistoryPurged :
        (old : Option (Option Tombstone)) (l : Legacy H) (epoch : Bool) (w : World r a)
        → w.api ≡ w0.api
        → w.writer ≡ w0.writer
        → w.stores ≡ w0.stores
        → tombstone r c.guild_id w0.redis ≡ old
        → legacy_state history_checksum r c.guild_id w0.redis ≡ l
        → exists r (purge_epoch_key c.guild_id) loaded.0 ≡ epoch
        → (s : Option (Snapshot H)) → loaded.1 ≡ returns s
        → (is_some old && is_empty_copy history_checksum scrub r a t c e external now s) ≡ false
        → IsHistoryPurged history_checksum scrub r a t c e external now w0
            (migrate history_checksum scrub r a t c e external now old l epoch s w)
    unfolding migrate
    migrate-IsHistoryPurged old (readable s) false w ea ew es eo ly ep none el usable =
        purge_copy-IsHistoryPurged old (readable s) true w0 w ea ew es eo (some s)
          (only_legacy el ly ep) (ground (arith, usable))
    migrate-IsHistoryPurged old (readable s) true w ea ew es eo ly ep none el usable =
        purge_copy-IsHistoryPurged old (readable s) false w0 w ea ew es eo none
          (no_copy el (inr ep)) usable
    migrate-IsHistoryPurged old absent epoch w ea ew es eo ly ep s el usable =
        purge_copy-IsHistoryPurged old absent false w0 w ea ew es eo s
          (stored_or_none s el (inl (ap is_readable ly))) usable
    migrate-IsHistoryPurged old unreadable epoch w ea ew es eo ly ep s el usable =
        purge_copy-IsHistoryPurged old unreadable false w0 w ea ew es eo s
          (stored_or_none s el (inl (ap is_readable ly))) usable
    migrate-IsHistoryPurged old (readable l) false w ea ew es eo ly ep (some s) el usable =
        purge_copy-IsHistoryPurged old (readable l) false w0 w ea ew es eo (some s) (stored el)
          usable
    migrate-IsHistoryPurged old (readable l) true w ea ew es eo ly ep (some s) el usable =
        purge_copy-IsHistoryPurged old (readable l) false w0 w ea ew es eo (some s) (stored el)
          usable

    after_load-IsHistoryPurged :
        (old : Option (Option Tombstone)) (l : Legacy H) (epoch : Bool) (w : World r a)
        → w.api ≡ w0.api
        → w.writer ≡ w0.writer
        → w.stores ≡ w0.stores
        → tombstone r c.guild_id w0.redis ≡ old
        → legacy_state history_checksum r c.guild_id w0.redis ≡ l
        → exists r (purge_epoch_key c.guild_id) loaded.0 ≡ epoch
        → (o : Outcome (Option (Snapshot H))) → loaded.1 ≡ o
        → IsHistoryPurged history_checksum scrub r a t c e external now w0
            (after_load history_checksum scrub r a t c e external now old l epoch w o)
    unfolding after_load
    after_load-IsHistoryPurged old l epoch w ea ew es eo ly ep (raises x) el = untouched refl ea ew
    after_load-IsHistoryPurged old l epoch w ea ew es eo ly ep (returns s) el =
        elim (Bool-cases (is_unreadable l && (external || not (is_some s) && not epoch))) [
          | inl bytes ↦ rw bytes (untouched refl ea ew)
          | inr usable ↦
              rw usable
                (elim (Bool-cases
                  (is_some old && is_empty_copy history_checksum scrub r a t c e external now s)) [
                    | inl stuck ↦ rw stuck (untouched refl ea ew)
                    | inr copy ↦
                        rw copy (migrate-IsHistoryPurged old l epoch w ea ew es eo ly ep s el copy)
                  ])
        ]

  -- Whatever fails, the purge of a history ends in one of five ways. It was not needed,
  -- since there was no tombstone and the copy that loads, or else the legacy one, is missing, empty or
  -- needs no fold, or it failed early without asking for a retry, and in both cases Postgres and the
  -- writer are as they were; or the PUT failed; or it says that it was done, and Postgres holds a history of the guild without the user
  -- id, v1 holds the same or nothing, and there is no dirty copy; or it asks for a retry, and Postgres
  -- holds such a history and there is no dirty copy.
  pub purge_history-IsHistoryPurged :
      (w : World r a)
      → IsHistoryPurged history_checksum scrub r a t c e external now w
          (purge_history history_checksum scrub r a t c e external now w)
  unfolding purge_history
  purge_history-IsHistoryPurged w = elim (Bool-cases e.reads) [
    | inl up ↦ simp up (
        after_load-IsHistoryPurged w _ _ _
          (record w { redis = (load history_checksum scrub r a t c e external now w).0 }) refl refl
          refl refl refl refl _ refl)
    | inr down ↦ simp down (untouched refl refl refl)
  ]
