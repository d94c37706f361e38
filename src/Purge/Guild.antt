-- ===== src/Purge/Guild.antt =====
-- The purge of one guild in src/proactive_agent/purge.py: `_purge_fenced`, `_bump_epoch` and
-- `_purge_guild`.
pub mod Settled
use proactive_agent.Prelude.{
  ℕ, ◌+◌, ◌≡◌, Bool, true, false, not, ◌&&◌, ◌||◌, Option, none, some, List, [], ◌∷◌, ◌++◌, ltb,
  ◌==◌, if◌then◌else◌,
}
use proactive_agent.Keys.{Key, same, purge_epoch_key, history_invalid_key}
use proactive_agent.Redis.{Redis, exists, get, increment}
use proactive_agent.History.{Snapshot, Stored, epoch}
use proactive_agent.History.Repository.{Api}
use proactive_agent.History.Writer.{discard, restore, try_call}
use proactive_agent.Purge.{
  Store, postgres_history, watch_instructions, queued_notifications, dead_letters, Why, other,
  is_retry, is_partial, Ended, ended, raised, Weather, Target, Command, Verdict, purged, unchanged,
  failed, GuildOutcome,
}
use proactive_agent.Purge.History.{World, add_stores, purge_history}

-- What else of a guild is purged: what its queue holds, and its watch instructions. A discard gives
-- how much it dropped, or fails; `purge_watch` is told whether the fence is lost, and whether it
-- rewrote a channel; it never raises PurgeRetry or PartialPurgeError.
pub record Around : Type 1 where
  pub Queue : Type 0
  pub discard_notifications : ℕ → Queue → Queue × Option ℕ
  pub discard_dead_letters : ℕ → Queue → Queue × Option ℕ
  pub Channels : Type 0
  pub purge_watch : Bool → Channels → Channels × Ended Bool
  pub purge_watch-no_retry :
      (lost : Bool) (s : Channels) (why : Why)
      → (purge_watch lost s).1 ≡ raised why
      → is_retry why ≡ false

module _ {H : Type 0} (r : Redis Key (Stored H) same) (a : Api H) (x : Around) where
  -- `told` says that the guild's runtime was forgotten.
  pub record Guild : Type 0 where
    pub memory : World r a
    pub queue : x.Queue
    pub channels : x.Channels
    pub told : Bool

  abbrev pub add_store : Bool → Store → Guild → Guild
  add_store true store g = record g { memory = add_stores r a (store ∷ []) g.memory }
  add_store false store g = g

module _ {H : Type 0} where
  abbrev pub epoch_of : Option (Stored H) → Option ℕ
  epoch_of (some (epoch n)) = some n
  epoch_of _ = none

module _ {H : Type 0} (history_checksum : H → ℕ) (scrub : H → H) (r : Redis Key (Stored H) same)
    (a : Api H) (x : Around) (t : Target H) (c : Command) (e : Weather) (external : Bool)
    (now : ℕ) where
  abbrev pub incr_epoch : r.Db → r.Db
  incr_epoch d =
      increment r (purge_epoch_key c.guild_id) epoch
        (epoch_of (get r (purge_epoch_key c.guild_id) d)) 1 d

  -- The flag says that no exception was raised; a best effort raises none.
  unfoldable pub bump_epoch : Bool → Guild r a x → Guild r a x × Bool
  unfolding try_call
  bump_epoch best_effort g =
      let (d, bumped) = try_call history_checksum scrub r a e.bumping incr_epoch g.memory.redis in
      let counted = record g { memory = record g.memory { redis = d } } in
      if bumped || best_effort then (record counted { told = true }, true) else (counted, false)

  -- the watch instructions, which the worker owns of an external guild
  unfoldable pub after_watch :
      Guild r a x → x.Channels × Ended Bool → Guild r a x × Ended (Unit {0})
  after_watch g (s, raised why) = (record g { channels = s }, raised why)
  after_watch g (s, ended changed) =
      (add_store r a x changed watch_instructions (record g { channels = s }), ended tt)

  unfoldable pub finish : Guild r a x → Guild r a x × Ended (Unit {0})
  unfolding after_watch
  finish g =
      if external
      then after_watch g (x.purge_watch e.lost_before_watch g.channels)
      else (g, ended tt)

  unfoldable pub finish_if : Guild r a x × Bool → Guild r a x × Ended (Unit {0})
  unfolding finish
  finish_if (g, true) = finish g
  finish_if (g, false) = (g, raised other)

  abbrev pub restored : Option (Snapshot H) → World r a → World r a
  restored taken w = record w { writer = restore taken w.writer }

  -- what the end of `_purge_history` makes of the dirty copy that was taken
  unfoldable pub after_history :
      Option (Snapshot H) → Guild r a x → World r a × Ended Bool → Guild r a x × Ended (Unit {0})
  unfolding bump_epoch finish_if restore
  after_history taken g (w, ended true) = finish_if (bump_epoch false (record g { memory = w }))
  after_history taken g (w, ended false) = finish (record g { memory = restored taken w })
  after_history taken g (w, raised why) =
      if is_retry why
      then (
        (bump_epoch true
            (add_store r a x (is_partial why) postgres_history (record g { memory = w }))).0,
        raised why,
      )
      else (record g { memory = restored taken w }, raised why)

  unfoldable pub purge_memory : Guild r a x → Guild r a x × Ended (Unit {0})
  unfolding after_history discard purge_history
  purge_memory g =
      let (v, taken) = discard c.guild_id g.memory.writer in
      after_history taken g (
        purge_history history_checksum scrub r a t c e external now
          (record g.memory { writer = v }))

  unfoldable pub after_discard :
      Store
      → Guild r a x
      → x.Queue × Option ℕ
      → (Guild r a x → Guild r a x × Ended (Unit {0}))
      → Guild r a x × Ended (Unit {0})
  after_discard store g (q, none) rest = (record g { queue = q }, raised other)
  after_discard store g (q, some dropped) rest =
      rest (add_store r a x (ltb 0 dropped) store (record g { queue = q }))

  unfoldable pub purge_letters : Guild r a x → Guild r a x × Ended (Unit {0})
  unfolding after_discard purge_memory
  purge_letters g =
      after_discard dead_letters g (x.discard_dead_letters c.guild_id g.queue) purge_memory

  unfoldable pub purge_fenced : Guild r a x → Guild r a x × Ended (Unit {0})
  unfolding after_discard purge_letters
  purge_fenced g =
      after_discard queued_notifications g (x.discard_notifications c.guild_id g.queue)
        purge_letters

  abbrev pub verdict : List Store → Verdict
  verdict [] = unchanged
  verdict (store ∷ stores) = purged

  -- the outcome once the fence is held
  unfoldable pub guild_outcome : Guild r a x × Ended (Unit {0}) → GuildOutcome
  guild_outcome (g, ended done) = record {
    outcome = verdict g.memory.stores;
    stores = g.memory.stores;
    name_hits = g.memory.name_hits;
    tombstoned = false;
    retry = false;
  }
  guild_outcome (g, raised why) =
      let tombstoned =
        if e.looking
        then exists r (history_invalid_key c.guild_id) g.memory.redis
        else is_partial why in
      record {
        outcome = failed;
        stores = g.memory.stores;
        name_hits = g.memory.name_hits;
        tombstoned = tombstoned;
        retry = is_retry why || tombstoned;
      }

  abbrev pub unfenced : GuildOutcome
  unfenced = record {
    outcome = failed;
    stores = [];
    name_hits = none;
    tombstoned = false;
    retry = false;
  }

  -- `_purge_guild`, which is given whether the fence could be acquired
  unfoldable pub purge_guild : Bool → Guild r a x → Guild r a x × GuildOutcome
  unfolding purge_fenced guild_outcome
  purge_guild false g = (g, unfenced)
  purge_guild true g = let (g', o) = purge_fenced g in (g', guild_outcome (g', o))
