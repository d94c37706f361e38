-- ===== src/Purge/History/Forgotten.antt =====
-- What `_purge_history` of src/proactive_agent/purge.py leaves in both stores of a history.
use proactive_agent.Prelude.{
  ℕ, ◌≡◌, refl, ap, ◌∙◌, Bool, true, false, ◌⊎◌, inl, inr, Option, none, some, List, ◌==◌,
  Bool-cases, arith,
}
use proactive_agent.Keys.{
  Key, same, purge_epoch_key, history_key, legacy_history_key, tombstone_cleared_key,
}
use proactive_agent.Redis.{Redis, exists, get}
use proactive_agent.Redis.Laws.{lookup-write_ne}
use proactive_agent.History.{Snapshot, Stored, Tombstone, snapshot}
use proactive_agent.History.Repository.{Api, Outcome, returns, tombstone, load_canonical}
use proactive_agent.History.Writer.{
  Writer, Fault, Purged, fine, lost, indexed, unheard, discard, try_call,
}
use proactive_agent.History.Writer.Replaced.{
  replaced, forgotten, tombstoned, unmarked, IsPurged, purged, kept,
}
use proactive_agent.Purge.{
  Store, Why, put_failed, is_retry, Ended, ended, raised, Weather, Target, Command,
}
use proactive_agent.Purge.History.{
  readable, is_readable, is_some, legacy_state, World, end_purged, note_cleared, after_replace,
}

module _ {H : Type 0} (history_checksum : H → ℕ) (scrub : H → H) (r : Redis Key (Stored H) same)
    (a : Api H) (t : Target H) (c : Command) (e : Weather) (external : Bool) (now : ℕ) where
  -- Postgres holds a history without the user id, and no dirty copy is left to write over it.
  pub record IsForgotten (w : World r a) (s : Snapshot H) : Type 0 where
    pub holds : a.history_of w.api c.guild_id ≡ some s
    pub guild : s.guild_id ≡ c.guild_id
    pub clean : t.holds_id s.history ≡ false
    pub settled : w.writer.dirty c.guild_id ≡ none

  -- The v1 key holds that history, or nothing.
  abbrev pub IsServed : r.Db → Snapshot H → Type 0
  IsServed d s =
      (get r (history_key s.guild_id) d ≡ some (snapshot s))
      ⊎ (exists r (history_key s.guild_id) d ≡ false)

  abbrev pub load : World r a → r.Db × Outcome (Option (Snapshot H))
  load w = load_canonical history_checksum r a c.guild_id now w.redis w.api

  -- The copy that there is to purge: the one that loads, or the legacy key's if nothing loads and the
  -- guild has no purge epoch.
  pub data IsCopy (w : World r a) : Option (Snapshot H) → Type 0 where
    stored : {s : Snapshot H} → (load w).1 ≡ returns (some s) → IsCopy w (some s)
    only_legacy :
        {l : Snapshot H}
        → (load w).1 ≡ returns none
        → legacy_state history_checksum r c.guild_id w.redis ≡ readable l
        → exists r (purge_epoch_key c.guild_id) (load w).0 ≡ false
        → IsCopy w (some l)
    no_copy :
        (load w).1 ≡ returns none
        → (is_readable (legacy_state history_checksum r c.guild_id w.redis) ≡ false)
          ⊎ (exists r (purge_epoch_key c.guild_id) (load w).0 ≡ true)
        → IsCopy w none

  -- A copy that holds nothing to purge.
  pub data IsClean : Option (Snapshot H) → Type 0 where
    nothing : IsClean none
    empty : {s : Snapshot H} → t.is_empty_history s.history ≡ true → IsClean (some s)
    no_fold : {s : Snapshot H} → t.needs_no_fold s.history ≡ true → IsClean (some s)

  -- How a write of the purged history ends, and what is left to do after it.
  pub data IsReplaced (w : World r a) : World r a × Ended Bool → Type 0 where
    written :
        {w' : World r a} (s : Snapshot H)
        → IsForgotten w' s
        → IsServed w'.redis s
        → IsReplaced w (w', ended true)
    unput :
        {w' : World r a}
        → w'.stores ≡ w.stores
        → w'.writer ≡ (discard c.guild_id w.writer).0
        → IsReplaced w (w', raised put_failed)
    halfway :
        {w' : World r a} {why : Why} (s : Snapshot H)
        → is_retry why ≡ true
        → IsForgotten w' s
        → IsReplaced w (w', raised why)

  -- How the purge of a history ends.
  pub data IsHistoryPurged (w : World r a) : World r a × Ended Bool → Type 0 where
    unneeded :
        {w' : World r a} (copy : Option (Snapshot H))
        → IsCopy w copy
        → IsClean copy
        → is_some (tombstone r c.guild_id w.redis) ≡ false
        → w'.api ≡ w.api
        → w'.writer ≡ w.writer
        → IsHistoryPurged w (w', ended false)
    rewritten :
        {w' : World r a} (s : Snapshot H)
        → IsForgotten w' s
        → IsServed w'.redis s
        → IsHistoryPurged w (w', ended true)
    untouched :
        {w' : World r a} {why : Why}
        → is_retry why ≡ false
        → w'.api ≡ w.api
        → w'.writer ≡ w.writer
        → IsHistoryPurged w (w', raised why)
    not_put :
        {w' : World r a}
        → w'.stores ≡ w.stores
        → w'.writer ≡ (discard c.guild_id w.writer).0
        → IsHistoryPurged w (w', raised put_failed)
    half_done :
        {w' : World r a} {why : Why} (s : Snapshot H)
        → is_retry why ≡ true
        → IsForgotten w' s
        → IsHistoryPurged w (w', raised why)

  lookup-try_call :
      (f : Fault) (g : r.Db → r.Db) (k : Key) (d : r.Db)
      → ((d' : r.Db) → r.lookup (g d') k ≡ r.lookup d' k)
      → r.lookup (try_call history_checksum scrub r a f g d).0 k ≡ r.lookup d k
  unfolding try_call
  lookup-try_call fine g k d h = h d
  lookup-try_call unheard g k d h = h d
  lookup-try_call lost g k d h = refl
  lookup-try_call indexed g k d h = refl

  lookup-note_cleared :
      (old : Option (Option Tombstone)) (n : ℕ) (d : r.Db)
      → r.lookup (note_cleared history_checksum scrub r a t c e external now old d) (history_key n)
        ≡ r.lookup d (history_key n)
  unfolding note_cleared
  lookup-note_cleared none n d = refl
  lookup-note_cleared (some none) n d = refl
  lookup-note_cleared (some (some old)) n d = elim (Bool-cases (old.run_id == c.run_id)) [
    | inl own ↦ rw own refl
    | inr another ↦ rw another (
        lookup-try_call e.noting _ (history_key n) d (λ d'.
          lookup-write_ne r (tombstone_cleared_key old.run_id c.guild_id) (history_key n) _ d'
            refl))
  ]

  IsServed-lookup :
      (d d' : r.Db) (s : Snapshot H)
      → r.lookup d' (history_key s.guild_id) ≡ r.lookup d (history_key s.guild_id)
      → IsServed d s
      → IsServed d' s
  IsServed-lookup d d' s h (inl holds) = inl (ground (arith, h, holds))
  IsServed-lookup d d' s h (inr gone) = inr (ground (arith, h, gone))

  end_purged-IsReplaced :
      (w0 w : World r a) (drop_legacy : Bool) (s : Snapshot H)
      → IsForgotten w s
      → IsServed w.redis s
      → IsReplaced w0 (end_purged history_checksum scrub r a t c e external now drop_legacy w)
  unfolding end_purged
  end_purged-IsReplaced w0 w false s forgot served = written s forgot served
  end_purged-IsReplaced w0 w true s forgot served = elim (Bool-cases flag) [
    | inl deleted ↦
        rw deleted (written s (same_copy _) (IsServed-lookup w.redis _ s other_key served))
    | inr left ↦ rw left (halfway s refl (same_copy _))
  ]
    where
      forget_call : r.Db × Bool
      forget_call =
          try_call history_checksum scrub r a e.dropping_legacy
            (λ d. r.write (legacy_history_key c.guild_id) none d) w.redis

      flag : Bool
      flag = forget_call.1

      other_key :
          r.lookup forget_call.0 (history_key s.guild_id)
          ≡ r.lookup w.redis (history_key s.guild_id)
      other_key = lookup-try_call e.dropping_legacy _ (history_key s.guild_id) w.redis (λ d'.
          lookup-write_ne r (legacy_history_key c.guild_id) (history_key s.guild_id) none d' refl)

      same_copy :
          (stores : List Store)
          → IsForgotten (record w { redis = forget_call.0; stores = stores }) s
      same_copy stores = record {
        holds = forgot.holds;
        guild = forgot.guild;
        clean = forgot.clean;
        settled = forgot.settled;
      }

  pub after_replace-IsReplaced :
      (old : Option (Option Tombstone)) (drop_legacy : Bool) (hits : Option ℕ) (history : H) (n : ℕ)
      (d : r.Db) (w : World r a) (x : (r.Db × a.Db × Writer H) × Purged H)
      → x.0.2 ≡ (discard c.guild_id w.writer).0
      → t.holds_id history ≡ false
      → IsPurged history_checksum scrub r a c.guild_id history n d x
      → IsReplaced w
          (after_replace history_checksum scrub r a t c e external now old drop_legacy hits w x)
  unfolding after_replace
  after_replace-IsReplaced old drop_legacy hits history n d w x v clean (kept dirty idle) =
      unput refl v
  after_replace-IsReplaced old drop_legacy hits history n d w x v clean
        (purged {s = s} durable (tombstoned there) dirty idle) =
      halfway s refl (record {
        holds = durable.holds;
        guild = durable.guild;
        clean = ap t.holds_id durable.new_history ∙ clean;
        settled = dirty;
      })
  after_replace-IsReplaced old drop_legacy hits history n d w x v clean
        (purged {s = s} durable unmarked dirty idle) =
      halfway s refl (record {
        holds = durable.holds;
        guild = durable.guild;
        clean = ap t.holds_id durable.new_history ∙ clean;
        settled = dirty;
      })
  after_replace-IsReplaced old drop_legacy hits history n d w x v clean
        (purged {d'} {p'} {w'} {o} {s} durable (replaced v1 invalid) dirty idle) =
      end_purged-IsReplaced w _ drop_legacy s
        (record {
          holds = durable.holds;
          guild = durable.guild;
          clean = ap t.holds_id durable.new_history ∙ clean;
          settled = dirty;
        })
        (inl (let e1 = lookup-note_cleared old s.guild_id d' in ground (arith, e1, v1)))
  after_replace-IsReplaced old drop_legacy hits history n d w x v clean
        (purged {d'} {p'} {w'} {o} {s} durable (forgotten gone) dirty idle) =
      end_purged-IsReplaced w _ drop_legacy s
        (record {
          holds = durable.holds;
          guild = durable.guild;
          clean = ap t.holds_id durable.new_history ∙ clean;
          settled = dirty;
        })
        (inr (let e1 = lookup-note_cleared old s.guild_id d' in ground (arith, e1, gone)))
