-- ===== src/Purge/Guild/Settled.antt =====
-- What the purge of a guild in src/proactive_agent/purge.py leaves of its history and of the copy that
-- was about to be flushed.
use proactive_agent.Prelude.{
  ℕ, ◌≡◌, refl, sym, ap, ◌∙◌, ◌⊎◌, inl, inr, Bool, true, false, ◌||◌, Option, none, some, ltb,
  if◌then◌else◌, Bool-cases, arith,
}
use proactive_agent.Keys.{Key, same}
use proactive_agent.Redis.{Redis}
use proactive_agent.History.{Snapshot, Stored}
use proactive_agent.History.Repository.{Api}
use proactive_agent.History.Writer.{Writer, put_at, discard, restore, try_call}
use proactive_agent.History.Writer.Restored.{IsOwn, dirty-restore}
use proactive_agent.Purge.{
  Store, postgres_history, queued_notifications, dead_letters, Why, other, put_failed, is_retry,
  is_partial, Ended, ended, raised, Weather, Target, Command,
}
use proactive_agent.Purge.History.{World}
use proactive_agent.Purge.History.Forgotten.{
  IsForgotten, IsHistoryPurged, unneeded, rewritten, untouched, not_put, half_done,
}
use proactive_agent.Purge.History.Ends.{purge_history-IsHistoryPurged}
use proactive_agent.Purge.Guild.{
  Around, Guild, incr_epoch, add_store, bump_epoch, after_watch, finish, finish_if, restored,
  after_history, purge_memory, after_discard, purge_letters, purge_fenced,
}

module _ {H : Type 0} (history_checksum : H → ℕ) (scrub : H → H) (r : Redis Key (Stored H) same)
    (a : Api H) (x : Around) (t : Target H) (c : Command) (e : Weather) (external : Bool)
    (now : ℕ) where
  -- How the purge of a guild ends.
  pub data IsSettled (g : Guild r a x) : Guild r a x × Ended (Unit {0}) → Type 0 where
    as_before :
        {g' : Guild r a x} {o : Ended (Unit {0})}
        → g'.memory.api ≡ g.memory.api
        → g'.memory.writer.dirty c.guild_id ≡ g.memory.writer.dirty c.guild_id
        → ((why : Why) → o ≡ raised why → is_retry why ≡ false)
        → IsSettled g (g', o)
    unsent :
        {g' : Guild r a x}
        → g'.memory.writer.dirty c.guild_id ≡ g.memory.writer.dirty c.guild_id
        → IsSettled g (g', raised put_failed)
    forgotten :
        {g' : Guild r a x} {o : Ended (Unit {0})} (s : Snapshot H)
        → IsForgotten history_checksum scrub r a t c e external now g'.memory s
        → (g'.told ≡ true) ⊎ (o ≡ raised other)
        → IsSettled g (g', o)

  -- A step that leaves the stores and the writer alone, and raises no retry.
  record IsAfter (g : Guild r a x) (p : Guild r a x × Ended (Unit {0})) : Type 0 where
    api : p.0.memory.api ≡ g.memory.api
    writer : p.0.memory.writer ≡ g.memory.writer
    told : p.0.told ≡ g.told
    no_retry : (why : Why) → p.1 ≡ raised why → is_retry why ≡ false

  after_watch-IsAfter :
      (g : Guild r a x) (y : x.Channels × Ended Bool)
      → ((why : Why) → y.1 ≡ raised why → is_retry why ≡ false)
      → IsAfter g (after_watch history_checksum scrub r a x t c e external now g y)
  unfolding after_watch
  after_watch-IsAfter g (s, raised why) h = record {
    api = refl;
    writer = refl;
    told = refl;
    no_retry = λ y f. h y (ground (arith, f));
  }
  after_watch-IsAfter g (s, ended true) h = record {
    api = refl;
    writer = refl;
    told = refl;
    no_retry = λ why f. absurd cc;
  }
  after_watch-IsAfter g (s, ended false) h = record {
    api = refl;
    writer = refl;
    told = refl;
    no_retry = λ why f. absurd cc;
  }

  finish-IsAfter :
      (b : Bool) (g : Guild r a x)
      → IsAfter g (
          if b
          then after_watch history_checksum scrub r a x t c e external now g
              (x.purge_watch e.lost_before_watch g.channels)
          else (g, ended tt))
  finish-IsAfter true g =
      after_watch-IsAfter g _ (x.purge_watch-no_retry e.lost_before_watch g.channels)
  finish-IsAfter false g = record {
    api = refl;
    writer = refl;
    told = refl;
    no_retry = λ why f. absurd cc;
  }

  -- A bump leaves Postgres and the writer alone, and says whether the runtime was told.
  record IsBumped (g : Guild r a x) (p : Guild r a x × Bool) : Type 0 where
    api : p.0.memory.api ≡ g.memory.api
    writer : p.0.memory.writer ≡ g.memory.writer
    told : p.1 ≡ true → p.0.told ≡ true

  bump_epoch-IsBumped :
      (best_effort : Bool) (g : Guild r a x)
      → IsBumped g (bump_epoch history_checksum scrub r a x t c e external now best_effort g)
        × (best_effort ≡ true
            → (bump_epoch history_checksum scrub r a x t c e external now best_effort g).1 ≡ true)
  unfolding bump_epoch
  bump_epoch-IsBumped best_effort g =
      elim (Bool-cases (
        (try_call history_checksum scrub r a e.bumping
          (incr_epoch history_checksum scrub r a x t c e external now) g.memory.redis).1
        || best_effort)) [
          | inl done ↦ simp done (record { api = refl; writer = refl; told = λ f. refl }, λ f. refl)
          | inr not_done ↦ simp not_done (
            record { api = refl; writer = refl; told = λ f. absurd cc },
            λ f. absurd (ground (arith, not_done, f)),
          )
        ]

  IsForgotten-after :
      (w w' : World r a) (s : Snapshot H)
      → w'.api ≡ w.api
      → w'.writer ≡ w.writer
      → IsForgotten history_checksum scrub r a t c e external now w s
      → IsForgotten history_checksum scrub r a t c e external now w' s
  IsForgotten-after w w' s ea ew f = record {
    holds = ap (λ p. a.history_of p c.guild_id) ea ∙ f.holds;
    guild = f.guild;
    clean = f.clean;
    settled = ap (λ v. v.dirty c.guild_id) ew ∙ f.settled;
  }

  finish_if-IsSettled :
      (g0 g : Guild r a x) (s : Snapshot H) (p : Guild r a x × Bool)
      → IsForgotten history_checksum scrub r a t c e external now g.memory s
      → IsBumped g p
      → IsSettled g0 (finish_if history_checksum scrub r a x t c e external now p)
  unfolding finish_if finish
  finish_if-IsSettled g0 g s (g', true) f b =
      let after = finish-IsAfter external g' in
      forgotten s (IsForgotten-after g.memory _ s (after.api ∙ b.api) (after.writer ∙ b.writer) f)
        (inl (after.told ∙ b.told refl))
  finish_if-IsSettled g0 g s (g', false) f b =
      forgotten s (IsForgotten-after g.memory _ s b.api b.writer f) (inr refl)

  -- The writer is open and has no dirty copy of the guild.
  IsCleared : Writer H → Type 0
  IsCleared v = (v.closed ≡ false) × (v.dirty c.guild_id ≡ none)

  discard-IsCleared :
      (w v : Writer H) → w.closed ≡ false → v ≡ (discard c.guild_id w).0 → IsCleared v
  unfolding discard IsCleared
  discard-IsCleared w v opened ew =
      (ap (λ u. u.closed) ew ∙ opened, ap (λ u. u.dirty c.guild_id) ew ∙ put_at_self)
    where
      put_at_self : put_at c.guild_id none w.dirty c.guild_id ≡ none
      put_at_self = ground arith

  dirty_back :
      (v : Writer H) (taken : Option (Snapshot H))
      → IsOwn c.guild_id taken
      → IsCleared v
      → (restore taken v).dirty c.guild_id ≡ taken
  unfolding IsCleared
  dirty_back v taken own (opened, clean) = dirty-restore c.guild_id v opened clean taken own

  after_history-IsSettled :
      (g : Guild r a x)
      → g.memory.writer.closed ≡ false
      → IsOwn c.guild_id (g.memory.writer.dirty c.guild_id)
      → (y : World r a × Ended Bool)
      → IsHistoryPurged history_checksum scrub r a t c e external now
          (record g.memory { writer = (discard c.guild_id g.memory.writer).0 })
          y
      → IsSettled g (
          after_history history_checksum scrub r a x t c e external now
            (g.memory.writer.dirty c.guild_id)
            g
            y)
  unfolding after_history finish IsCleared
  after_history-IsSettled g opened own y (unneeded {w'} copy found clean free ea ew) =
      let after = finish-IsAfter external (record g {
        memory =
            restored history_checksum scrub r a x t c e external now
              (g.memory.writer.dirty c.guild_id) w';
      }) in
      as_before (after.api ∙ ea)
        (ap (λ v. v.dirty c.guild_id) after.writer
          ∙ dirty_back w'.writer _ own (discard-IsCleared g.memory.writer w'.writer opened ew))
        after.no_retry
  after_history-IsSettled g opened own y (rewritten {w'} s f served) =
      finish_if-IsSettled g (record g { memory = w' }) s _ f
        (bump_epoch-IsBumped false (record g { memory = w' })).0
  after_history-IsSettled g opened own y (untouched {w'} {why} no_retry ea ew) = simp no_retry (
      as_before ea
        (dirty_back w'.writer _ own (discard-IsCleared g.memory.writer w'.writer opened ew))
        (λ y f. ground (arith, no_retry, f)))
  after_history-IsSettled g opened own y (not_put {w'} es ew) = unsent (
      dirty_back w'.writer _ own (
        discard-IsCleared (discard c.guild_id g.memory.writer).0 w'.writer
          (discard-IsCleared g.memory.writer _ opened refl).0 ew))
  after_history-IsSettled g opened own y (half_done {w'} {why} s retry f) = simp retry (
      half (add_store r a x (is_partial why) postgres_history (record g { memory = w' }))
        (stored (is_partial why)))
    where
      stored :
          (b : Bool)
          → IsForgotten history_checksum scrub r a t c e external now
              (add_store r a x b postgres_history (record g { memory = w' })).memory
              s
      stored true = record {
        holds = f.holds;
        guild = f.guild;
        clean = f.clean;
        settled = f.settled;
      }
      stored false = f

      half :
          (g' : Guild r a x)
          → IsForgotten history_checksum scrub r a t c e external now g'.memory s
          → IsSettled g
              ((bump_epoch history_checksum scrub r a x t c e external now true g').0, raised why)
      half g' f' =
          let (bumped, told) = bump_epoch-IsBumped true g' in
          forgotten s (IsForgotten-after g'.memory _ s bumped.api bumped.writer f')
            (inl (bumped.told (told refl)))

  -- Postgres and the writer are as they were.
  record IsSame (g g' : Guild r a x) : Type 0 where
    api : g'.memory.api ≡ g.memory.api
    writer : g'.memory.writer ≡ g.memory.writer

  IsSettled-same :
      (g g' : Guild r a x) (y : Guild r a x × Ended (Unit {0}))
      → IsSame g g'
      → IsSettled g' y
      → IsSettled g y
  IsSettled-same g g' y h (as_before ea ed no_retry) =
      as_before (ea ∙ h.api) (ed ∙ ap (λ v. v.dirty c.guild_id) h.writer) no_retry
  IsSettled-same g g' y h (unsent ed) = unsent (ed ∙ ap (λ v. v.dirty c.guild_id) h.writer)
  IsSettled-same g g' y h (forgotten s f told) = forgotten s f told

  purge_memory-IsSettled :
      (g : Guild r a x)
      → g.memory.writer.closed ≡ false
      → IsOwn c.guild_id (g.memory.writer.dirty c.guild_id)
      → IsSettled g (purge_memory history_checksum scrub r a x t c e external now g)
  unfolding purge_memory discard
  purge_memory-IsSettled g opened own = after_history-IsSettled g opened own _ (
      purge_history-IsHistoryPurged history_checksum scrub r a t c e external now
        (record g.memory { writer = (discard c.guild_id g.memory.writer).0 }))

  IsSame-add_store :
      (b : Bool) (store : Store) (g0 g : Guild r a x)
      → IsSame g0 g
      → IsSame g0 (add_store r a x b store g)
  IsSame-add_store true store g0 g h = record { api = h.api; writer = h.writer }
  IsSame-add_store false store g0 g h = h

  after_discard-IsSettled :
      (store : Store) (g0 g : Guild r a x) (y : x.Queue × Option ℕ)
      (rest : Guild r a x → Guild r a x × Ended (Unit {0}))
      → IsSame g0 g
      → ((g' : Guild r a x) → IsSame g0 g' → IsSettled g0 (rest g'))
      → IsSettled g0 (after_discard history_checksum scrub r a x t c e external now store g y rest)
  unfolding after_discard
  after_discard-IsSettled store g0 g (q, none) rest h k =
      as_before h.api (ap (λ v. v.dirty c.guild_id) h.writer) (λ why f. ground (arith, f))
  after_discard-IsSettled store g0 g (q, some dropped) rest h k = k _ (
      IsSame-add_store (ltb 0 dropped) store g0 (record g { queue = q })
        (record { api = h.api; writer = h.writer }))

  purge_letters-IsSettled :
      (g : Guild r a x)
      → g.memory.writer.closed ≡ false
      → IsOwn c.guild_id (g.memory.writer.dirty c.guild_id)
      → (g' : Guild r a x) → IsSame g g'
      → IsSettled g (purge_letters history_checksum scrub r a x t c e external now g')
  unfolding purge_letters
  purge_letters-IsSettled g opened own g' h =
      after_discard-IsSettled dead_letters g g' (x.discard_dead_letters c.guild_id g'.queue)
        (purge_memory history_checksum scrub r a x t c e external now) h at_last
    where
      at_last :
          (g2 : Guild r a x)
          → IsSame g g2
          → IsSettled g (purge_memory history_checksum scrub r a x t c e external now g2)
      at_last g2 h = IsSettled-same g g2 _ h (
          purge_memory-IsSettled g2 (ap (λ v. v.closed) h.writer ∙ opened)
            (λ s f. own s (sym (ap (λ v. v.dirty c.guild_id) h.writer) ∙ f)))

  -- However the calls of a guild's purge fail, it ends in one of three ways, if the writer is open and
  -- its dirty copy is the guild's own. Postgres and the dirty copy are as they were, and no retry is
  -- asked for; or the PUT failed, and the dirty copy is back; or Postgres holds a history of the guild
  -- without the user id, no dirty copy is left to write over it, and the guild's runtime was told to
  -- drop its copy, or the purge says that it failed.
  pub purge_fenced-IsSettled :
      (g : Guild r a x)
      → g.memory.writer.closed ≡ false
      → IsOwn c.guild_id (g.memory.writer.dirty c.guild_id)
      → IsSettled g (purge_fenced history_checksum scrub r a x t c e external now g)
  unfolding purge_fenced
  purge_fenced-IsSettled g opened own =
      after_discard-IsSettled queued_notifications g g (x.discard_notifications c.guild_id g.queue)
        (purge_letters history_checksum scrub r a x t c e external now)
        (record { api = refl; writer = refl }) (purge_letters-IsSettled g opened own)
