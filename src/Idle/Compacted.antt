-- ===== src/Idle/Compacted.antt =====
-- What src/proactive_agent/idle.py leaves of an idle history.
use proactive_agent.Prelude.{
  ℕ, ◌-◌, ◌≤◌, ◌≡◌, ◌≢◌, ◌<◌, refl, ap, ◌∙◌, ◌⊎◌, inl, inr, Bool, true, false, Option, none, some,
  List, [], ltb, Bool-cases, arith,
}
use proactive_agent.Text.{Text}
use proactive_agent.Keys.{Key, same, same_self, history_key, history_idle_key, history_invalid_key}
use proactive_agent.Redis.{Redis, exists, get}
use proactive_agent.Redis.Laws.{lookup-write_ne, lookup-write_self, exists-lookup_none}
use proactive_agent.Conversation.{Message, leading_note_pair, is_summary_only}
use proactive_agent.History.{Snapshot, Stored, snapshot}
use proactive_agent.History.Repository.{
  stored_revision, checksum_error, value_error, api_error, stale_history, writer_closed, idle_state,
  load_canonical, Error, Outcome, Api, returns, raises,
}
use proactive_agent.History.Writer.{Writer, save}
use proactive_agent.History.Writer.Saved.{IsSaved, saved, not_saved, save-IsSaved}
use proactive_agent.Idle.{
  after_save, store, forgetting, replace_at, replace_unreadable, shorten, compact_read,
  compact_loaded, compact_at, compact_fenced, forget_idle, Format, Ending, Stores, tombstoned,
  not_indexed, written_since, empty, unreadable_replaced, already_summary_only, tail_dropped,
  folded, idle_window, reindex, unreadable_note,
}
use proactive_agent.Idle.Noted.{
  memory_note_pair-is_summary_only, leading_note_pair-is_summary_only, fold_idle-is_summary_only,
}

module _ {H : Type 0} (history_checksum : H → ℕ) (scrub : H → H) (r : Redis Key (Stored H) same)
    (a : Api H) (f : Format H) (summarize : List Message → Option Text) (guild_id now : ℕ) where
  abbrev pub State : Type 0
  State = Stores r.Db a.Db (Writer H)

  -- The v1 key holds the scrubbed dump of a conversation that is a memory note alone, the writer is
  -- about to flush that or something newer, and the sweep has nothing more to do with the guild.
  pub record IsNoted (w : State) : Type 0 where
    pub note : List Message
    pub alone : is_summary_only note ≡ true
    pub of : Snapshot H
    pub of_note : of.history ≡ scrub (f.dump note)
    pub v1 : get r (history_key guild_id) w.redis ≡ some (snapshot of)
    pub scheduled : w.writer.scheduled guild_id ≡ true
    pub unindexed : exists r (history_idle_key guild_id) w.redis ≡ false

  abbrev pub idle : State → Option ℕ × Bool
  idle w = idle_state r guild_id w.redis

  abbrev pub loaded : State → r.Db × Outcome (Option (Snapshot H))
  loaded w = load_canonical history_checksum r a guild_id now w.redis w.api

  -- The guild is not tombstoned, and was last written two hours ago or earlier.
  pub record IsDue (w : State) : Type 0 where
    pub alive : exists r (history_invalid_key guild_id) w.redis ≡ false
    pub written_at : ℕ
    pub indexed : (idle w).0 ≡ some written_at
    pub since : idle_window ≤ now - written_at

  -- What loads, for each ending.
  pub data IsSeen (w : State) : Ending → Type 0 where
    nothing_there : (loaded w).1 ≡ returns none → IsSeen w empty
    nothing_in :
        (s : Snapshot H)
        → (loaded w).1 ≡ returns (some s)
        → f.is_empty_history s.history ≡ true
        → IsSeen w empty
    only_summary :
        (s : Snapshot H) (history : List Message)
        → (loaded w).1 ≡ returns (some s)
        → f.read s.history ≡ some history
        → is_summary_only history ≡ true
        → IsSeen w already_summary_only
    bad_checksum : (loaded w).1 ≡ raises checksum_error → IsSeen w unreadable_replaced
    unparsed :
        (s : Snapshot H)
        → (loaded w).1 ≡ returns (some s)
        → f.read s.history ≡ none
        → IsSeen w unreadable_replaced
    noted :
        (s : Snapshot H) (history pair : List Message)
        → (loaded w).1 ≡ returns (some s)
        → f.read s.history ≡ some history
        → is_summary_only history ≡ false
        → (idle w).1 ≡ true
        → leading_note_pair history ≡ some pair
        → IsSeen w tail_dropped
    to_fold :
        (s : Snapshot H) (history : List Message)
        → (loaded w).1 ≡ returns (some s)
        → f.read s.history ≡ some history
        → is_summary_only history ≡ false
        → ((idle w).1 ≡ false) ⊎ (leading_note_pair history ≡ none)
        → IsSeen w folded

  -- What raised.
  pub data IsRaised (w : State) (e : Error) : Type 0 where
    by_load : (loaded w).1 ≡ raises e → IsRaised w e
    by_revision :
        stored_revision history_checksum r a guild_id (loaded w).0 w.api ≡ raises e → IsRaised w e
    by_save :
        (note : List Message) (n : ℕ)
        → is_summary_only note ≡ true
        → (save history_checksum scrub r a guild_id
            (f.dump note)
            n
            false
            now
            (loaded w).0
            w.writer).1
          ≡ raises e
        → IsRaised w e

  -- How the compaction of an idle history ends.
  pub data IsCompacted (w : State) : State × Outcome Ending → Type 0 where
    no_copy_kept :
        {w' : State} {ending : Ending}
        → (ending ≡ unreadable_replaced) ⊎ ((ending ≡ tail_dropped) ⊎ (ending ≡ folded))
        → IsDue w
        → IsSeen w ending
        → IsNoted w'
        → IsCompacted w (w', returns ending)
    nothing_to_do :
        {w' : State} {ending : Ending}
        → (ending ≡ empty) ⊎ (ending ≡ already_summary_only)
        → IsDue w
        → IsSeen w ending
        → w'.writer ≡ w.writer
        → exists r (history_idle_key guild_id) w'.redis ≡ false
        → IsCompacted w (w', returns ending)
    unlisted :
        {w' : State}
        → exists r (history_invalid_key guild_id) w.redis ≡ false
        → (idle w).0 ≡ none
        → w'.writer ≡ w.writer
        → exists r (history_idle_key guild_id) w'.redis ≡ false
        → IsCompacted w (w', returns not_indexed)
    left :
        exists r (history_invalid_key guild_id) w.redis ≡ true
        → IsCompacted w (w, returns tombstoned)
    too_early :
        {w' : State} (written_at : ℕ)
        → exists r (history_invalid_key guild_id) w.redis ≡ false
        → (idle w).0 ≡ some written_at
        → now - written_at < idle_window
        → w' ≡ record w {
          redis = reindex history_checksum scrub r a f summarize guild_id now written_at w.redis;
        }
        → IsCompacted w (w', returns written_since)
    failed :
        {w' : State} {e : Error}
        → IsDue w
        → IsRaised w e
        → w'.writer ≡ w.writer
        → IsCompacted w (w', raises e)

  exists-forget_idle :
      (d : r.Db)
      → exists r
          (history_idle_key guild_id)
          (forget_idle history_checksum scrub r a f summarize guild_id now d)
        ≡ false
  exists-forget_idle d =
      let k = history_idle_key guild_id in
      exists-lookup_none r k _ (lookup-write_self r k none d (same_self k))

  get-forget_idle :
      (d : r.Db)
      → get r
          (history_key guild_id)
          (forget_idle history_checksum scrub r a f summarize guild_id now d)
        ≡ get r (history_key guild_id) d
  get-forget_idle d =
      let e = lookup-write_ne r (history_idle_key guild_id) (history_key guild_id) none d refl in
      ground (arith, e)

  -- A note is stored whole or not at all.
  IsNoting : Ending → Type 0
  IsNoting ending = (ending ≡ unreadable_replaced) ⊎ ((ending ≡ tail_dropped) ⊎ (ending ≡ folded))

  module _ (w0 : State) (due : IsDue w0) where
    abbrev at_load : State
    at_load = record w0 { redis = (loaded w0).0 }

    after_save-IsCompacted :
        (ending : Ending) (note : List Message) (n : ℕ)
        (x : (r.Db × Writer H) × Outcome (Snapshot H))
        → IsNoting ending
        → IsSeen w0 ending
        → is_summary_only note ≡ true
        → save history_checksum scrub r a guild_id (f.dump note) n false now (loaded w0).0 w0.writer
          ≡ x
        → IsSaved history_checksum scrub r a guild_id (f.dump note) w0.writer x
        → IsCompacted w0
            (after_save history_checksum scrub r a f summarize guild_id now at_load ending x)
    unfolding after_save IsNoting
    after_save-IsCompacted ending note n x noting seen alone call not_saved =
        failed due (by_save note n alone (ap (λ y. y.1) call)) refl
    after_save-IsCompacted ending note n x noting seen alone call
          (saved {d'} s own of_note v1 scheduled) =
        no_copy_kept noting due seen (record {
          note = note;
          alone = alone;
          of = s;
          of_note = of_note;
          v1 = get-forget_idle d' ∙ v1;
          scheduled = scheduled;
          unindexed = exists-forget_idle d';
        })

    store-IsCompacted :
        (ending : Ending) (note : List Message) (n : ℕ)
        → IsNoting ending
        → IsSeen w0 ending
        → is_summary_only note ≡ true
        → IsCompacted w0
            (store history_checksum scrub r a f summarize guild_id now at_load ending note n)
    unfolding store
    store-IsCompacted ending note n noting seen alone =
        after_save-IsCompacted ending note n _ noting seen alone refl (
          save-IsSaved history_checksum scrub r a guild_id (f.dump note) n false now (loaded w0).0
            w0.writer)

    forgetting-IsCompacted :
        (ending : Ending)
        → (ending ≡ empty) ⊎ (ending ≡ already_summary_only)
        → IsSeen w0 ending
        → IsCompacted w0
            (forgetting history_checksum scrub r a f summarize guild_id now at_load ending)
    forgetting-IsCompacted ending kind seen =
        nothing_to_do kind due seen refl (exists-forget_idle (loaded w0).0)

    replace_at-IsCompacted :
        (o : Outcome ℕ)
        → stored_revision history_checksum r a guild_id (loaded w0).0 w0.api ≡ o
        → IsSeen w0 unreadable_replaced
        → IsCompacted w0 (replace_at history_checksum scrub r a f summarize guild_id now at_load o)
    unfolding replace_at IsNoting
    replace_at-IsCompacted (raises e) call seen = failed due (by_revision call) refl
    replace_at-IsCompacted (returns n) call seen =
        store-IsCompacted unreadable_replaced _ n (inl refl) seen
          (memory_note_pair-is_summary_only unreadable_note)

    replace_unreadable-IsCompacted :
        IsSeen w0 unreadable_replaced
        → IsCompacted w0
            (replace_unreadable history_checksum scrub r a f summarize guild_id now at_load)
    unfolding replace_unreadable
    replace_unreadable-IsCompacted seen = replace_at-IsCompacted _ refl seen

    shorten-IsCompacted :
        (s : Snapshot H) (fresh : Bool) (history : List Message) (o : Option (List Message))
        → (loaded w0).1 ≡ returns (some s)
        → f.read s.history ≡ some history
        → is_summary_only history ≡ false
        → (idle w0).1 ≡ fresh
        → history ≢ []
        → leading_note_pair history ≡ o
        → IsCompacted w0 (
            shorten history_checksum scrub r a f summarize guild_id now at_load fresh s.revision
              history o)
    unfolding shorten IsNoting
    shorten-IsCompacted s true history (some pair) el er more ef full e =
        store-IsCompacted tail_dropped pair s.revision (inr (inl refl))
          (noted s history pair el er more ef e) (leading_note_pair-is_summary_only history pair e)
    shorten-IsCompacted s true history none el er more ef full e =
        store-IsCompacted folded _ s.revision (inr (inr refl))
          (to_fold s history el er more (inr e)) (fold_idle-is_summary_only summarize history full)
    shorten-IsCompacted s false history (some pair) el er more ef full e =
        store-IsCompacted folded _ s.revision (inr (inr refl))
          (to_fold s history el er more (inl ef)) (fold_idle-is_summary_only summarize history full)
    shorten-IsCompacted s false history none el er more ef full e =
        store-IsCompacted folded _ s.revision (inr (inr refl))
          (to_fold s history el er more (inl ef)) (fold_idle-is_summary_only summarize history full)

    compact_read-IsCompacted :
        (s : Snapshot H) (fresh : Bool)
        → (loaded w0).1 ≡ returns (some s)
        → (idle w0).1 ≡ fresh
        → (o : Option (List Message)) → f.read s.history ≡ o
        → o ≢ some []
        → IsCompacted w0 (
            compact_read history_checksum scrub r a f summarize guild_id now at_load fresh
              s.revision o)
    unfolding compact_read
    compact_read-IsCompacted s fresh el ef none er full =
        replace_unreadable-IsCompacted (unparsed s el er)
    compact_read-IsCompacted s fresh el ef (some history) er full =
        elim (Bool-cases (is_summary_only history)) [
          | inl done ↦ rw done (
              forgetting-IsCompacted already_summary_only (inr refl)
                (only_summary s history el er done))
          | inr more ↦ rw more (
              shorten-IsCompacted s fresh history _ el er more ef (λ e. full (ap (λ m. some m) e))
                refl)
        ]

    compact_loaded-IsCompacted :
        (read-nonempty : (h : H) → f.is_empty_history h ≡ false → f.read h ≢ some []) (fresh : Bool)
        → (idle w0).1 ≡ fresh
        → (o : Outcome (Option (Snapshot H))) → (loaded w0).1 ≡ o
        → IsCompacted w0
            (compact_loaded history_checksum scrub r a f summarize guild_id now at_load fresh o)
    unfolding compact_loaded
    compact_loaded-IsCompacted rn fresh ef (raises checksum_error) el =
        replace_unreadable-IsCompacted (bad_checksum el)
    compact_loaded-IsCompacted rn fresh ef (raises value_error) el = failed due (by_load el) refl
    compact_loaded-IsCompacted rn fresh ef (raises api_error) el = failed due (by_load el) refl
    compact_loaded-IsCompacted rn fresh ef (raises stale_history) el = failed due (by_load el) refl
    compact_loaded-IsCompacted rn fresh ef (raises writer_closed) el = failed due (by_load el) refl
    compact_loaded-IsCompacted rn fresh ef (returns none) el =
        forgetting-IsCompacted empty (inl refl) (nothing_there el)
    compact_loaded-IsCompacted rn fresh ef (returns (some s)) el =
        elim (Bool-cases (f.is_empty_history s.history)) [
          | inl none_left ↦
              rw none_left (forgetting-IsCompacted empty (inl refl) (nothing_in s el none_left))
          | inr some_left ↦
              rw some_left (compact_read-IsCompacted s fresh el ef _ refl (rn s.history some_left))
        ]

  module _ (read-nonempty : (h : H) → f.is_empty_history h ≡ false → f.read h ≢ some []) where
    compact_at-IsCompacted :
        (w : State)
        → exists r (history_invalid_key guild_id) w.redis ≡ false
        → (x : Option ℕ × Bool) → idle w ≡ x
        → IsCompacted w (compact_at history_checksum scrub r a f summarize guild_id now w x)
    unfolding compact_at
    compact_at-IsCompacted w alive (none, fresh) e =
        unlisted alive (ap (λ y. y.0) e) refl (exists-forget_idle w.redis)
    compact_at-IsCompacted w alive (some t, fresh) e =
        elim (Bool-cases (ltb (now - t) idle_window)) [
          | inl early ↦ rw early (too_early t alive (ap (λ y. y.0) e) (ground arith) refl)
          | inr late ↦ rw late (
              compact_loaded-IsCompacted w
                (record {
                  alive = alive;
                  written_at = t;
                  indexed = ap (λ y. y.0) e;
                  since = ground arith;
                })
                read-nonempty fresh (ap (λ y. y.1) e) _ refl)
        ]

    -- An idle guild's compaction, where a history that is not empty is not read as an empty one, ends
    -- with a memory note alone in v1 and its flush scheduled, unless the guild is tombstoned, is not
    -- in the idle index, was written within two hours, has nothing to fold, or the load, the reading
    -- of the revision or the save raises; in these cases the writer is as it was. Each ending is told
    -- only of what loads for it, and a guild that needs no more work has left the idle index.
    pub compact_fenced-IsCompacted :
        (w : State)
        → IsCompacted w (compact_fenced history_checksum scrub r a f summarize guild_id now w)
    unfolding compact_fenced
    compact_fenced-IsCompacted w =
        elim (Bool-cases (exists r (history_invalid_key guild_id) w.redis)) [
          | inl dead ↦ rw dead (left dead)
          | inr alive ↦ rw alive (compact_at-IsCompacted w alive _ refl)
        ]
