-- ===== src/Purge/Delivery.antt =====
-- How src/proactive_agent/purge.py handles one command of the purge stream: class
-- PrivacyPurgeConsumer from `handle` to `_others_done_with`. The purge of a guild, the server and
-- what may fail of them are the parameter `Consumer`.
pub mod Still
pub mod GivenUp
pub mod Handled
mod Tests
use proactive_agent.Prelude.{
  ℕ, zero, suc, ◌+◌, Bool, true, false, not, ◌&&◌, ◌||◌, Option, none, some, List, [], ◌∷◌, leb,
  ltb, ◌==◌, select, any, if◌then◌else◌,
}
use proactive_agent.Purge.{Verdict, failed, GuildOutcome}

abbrev pub max_deliveries : ℕ
max_deliveries = 5

-- `saves` is one attempt to write a done record; `tombstoned` is true also where it cannot be told;
-- `post_ack` gives true for an accepted ack, false for an unknown run, none for no answer.
pub record Consumer : Type 1 where
  pub World : Type 0
  pub recover_tombstones : List ℕ → World → World
  pub tombstoned : World → ℕ → Bool
  pub enforcing_target : World → World × Bool
  pub purge_guild : ℕ → World → World × GuildOutcome
  pub post_ack : ℕ → GuildOutcome → World → World × Option Bool
  pub saves : World → World × Bool
  pub others_done_with : World → Bool

-- A consumer group as XINFO GROUPS and XPENDING give it; ids are ordered as numbers.
pub record Group : Type 0 where
  pub last_delivered_id : ℕ
  pub entries_read : Option ℕ
  pub consumers : ℕ
  pub holds_entry : Bool

-- `_others_done_with`, for the one other expected group
unfoldable pub group_done_with : ℕ → Option Group → Bool
group_done_with entry none = false
group_done_with entry (some group) =
    if ltb group.last_delivered_id entry
    then false
    else if is_none group.entries_read || group.consumers == 0
    then false
    else not group.holds_entry
  where
    is_none : Option ℕ → Bool
    is_none none = true
    is_none (some n) = false

abbrev pub failed_outcome : Bool → GuildOutcome
failed_outcome tombstoned = record {
  outcome = failed;
  stores = [];
  name_hits = none;
  tombstoned = tombstoned;
  retry = false;
}

module _ (c : Consumer) where
  open c use {World}

  -- An entry of the stream: how often it was delivered, the done records of its run, the acks that
  -- the server accepted, newest first, whether the stream has it, and whether this group still does.
  pub record Entry : Type 0 where
    pub deliveries : ℕ
    pub done : ℕ → Option GuildOutcome
    pub acks : List (ℕ × GuildOutcome)
    pub in_stream : Bool
    pub pending : Bool
    pub world : World

  abbrev pub ack : Entry → Entry
  ack d = record d { pending = false }

  unfoldable pub drop_entry : Bool → Entry → Entry
  drop_entry unknown_run d =
      if unknown_run || c.others_done_with d.world
      then record d { in_stream = false; pending = false }
      else record d { pending = false }

  -- one attempt of `_record_done`
  unfoldable pub save_once : ℕ → GuildOutcome → Entry → World × Bool → Entry × Bool
  save_once guild_id o d (w, true) =
      (record d { world = w; done = λ g. if g == guild_id then some o else d.done g }, true)
  save_once guild_id o d (w, false) = (record d { world = w }, false)

  unfoldable pub save_again : ℕ → GuildOutcome → Entry × Bool → Entry × Bool
  unfolding save_once
  save_again guild_id o (d, true) = (d, true)
  save_again guild_id o (d, false) = save_once guild_id o d (c.saves d.world)

  -- `_record_done`, tried twice
  unfoldable pub record_done : ℕ → GuildOutcome → Entry → Entry × Bool
  unfolding save_once save_again
  record_done guild_id o d = save_again guild_id o (save_once guild_id o d (c.saves d.world))

  abbrev pub accept :
      ℕ → GuildOutcome → Option Bool → List (ℕ × GuildOutcome) → List (ℕ × GuildOutcome)
  accept guild_id o (some true) acks = (guild_id, o) ∷ acks
  accept guild_id o _ acks = acks

  -- `_post_ack`
  unfoldable pub post : ℕ → GuildOutcome → Entry → Entry × Option Bool
  post guild_id o d =
      let (w, reply) = c.post_ack guild_id o d.world in
      (record d { world = w; acks = accept guild_id o reply d.acks }, reply)

  abbrev pub is_failed : Verdict → Bool
  is_failed failed = true
  is_failed _ = false

  -- a guild's result once it was purged
  unfoldable pub recorded : ℕ → World × GuildOutcome → Entry → Entry × GuildOutcome
  unfolding record_done
  recorded guild_id (w, o) d =
      if o.retry || is_failed o.outcome
      then (record d { world = w }, o)
      else ((record_done guild_id o (record d { world = w })).0, o)

  -- A guild that is done is never purged again; a done record asks for no retry.
  unfoldable pub result_of : ℕ → Option GuildOutcome → Entry → Entry × GuildOutcome
  unfolding recorded
  result_of guild_id (some o) d = (d, record o { retry = false })
  result_of guild_id none d = recorded guild_id (c.purge_guild guild_id d.world) d

  unfoldable pub forget_run : List ℕ → Entry → Entry
  unfolding drop_entry
  forget_run guild_ids d =
      drop_entry true (record d { world = c.recover_tombstones guild_ids d.world })

  -- after the ack of one guild
  unfoldable pub after_ack : List ℕ → Bool → (Bool → Entry → Entry) → Entry × Option Bool → Entry
  unfolding forget_run
  after_ack guild_ids all_acked rest (d, none) = rest false d
  after_ack guild_ids all_acked rest (d, some false) = forget_run guild_ids d
  after_ack guild_ids all_acked rest (d, some true) = rest all_acked d

  abbrev pub acknowledged :
      ℕ → List ℕ → Bool → (Bool → Entry → Entry) → Entry × GuildOutcome → Entry
  acknowledged g guild_ids all_acked rest (d, o) =
      after_ack guild_ids (all_acked && not o.retry) rest (post g o d)

  -- the loop of `handle`
  unfoldable pub purge_guilds : List ℕ → List ℕ → Bool → Entry → Entry
  unfolding result_of post after_ack
  purge_guilds guild_ids [] all_acked d = if all_acked then ack d else d
  purge_guilds guild_ids (g ∷ guilds) all_acked d =
      acknowledged g guild_ids all_acked (λ acked d'. purge_guilds guild_ids guilds acked d')
        (result_of g (d.done g) d)

  unfoldable pub after_report : (Entry → Entry) → Entry × Option Bool → Entry
  unfolding drop_entry
  after_report rest (d, some false) = drop_entry true d
  after_report rest (d, none) = rest d
  after_report rest (d, some true) = rest d

  -- the acks of guilds that stay tombstoned while the list does not block the user yet
  unfoldable pub report_tombstoned : List ℕ → Entry → Entry
  unfolding post after_report
  report_tombstoned [] d = d
  report_tombstoned (g ∷ guilds) d =
      after_report (λ d'. report_tombstoned guilds d') (post g (failed_outcome true) d)

  -- a guild that is not done is recorded as failed; the flag says whether its result is saved
  unfoldable pub unfinished : ℕ → Option GuildOutcome → Entry → Entry × GuildOutcome × Bool
  unfolding record_done
  unfinished g (some o) d = (d, o, true)
  unfinished g none d =
      let o = failed_outcome (c.tombstoned d.world g) in
      let (x, saved) = record_done g o d in (x, o, saved)

  unfoldable pub gave : Bool → (Bool → Entry → Entry) → Bool → Entry × Option Bool → Entry
  unfolding drop_entry
  gave unrecorded rest saved (x, some false) = drop_entry true x
  gave unrecorded rest saved (x, none) = rest (unrecorded || not saved) x
  gave unrecorded rest saved (x, some true) = rest unrecorded x

  abbrev pub reported : ℕ → Bool → (Bool → Entry → Entry) → Entry × GuildOutcome × Bool → Entry
  reported g unrecorded rest (d, o, saved) = gave unrecorded rest saved (post g o d)

  -- the loop of `_give_up`
  unfoldable pub give_up : List ℕ → Bool → Entry → Entry
  unfolding unfinished gave post drop_entry
  give_up [] unrecorded d = if unrecorded then d else drop_entry false d
  give_up (g ∷ guilds) unrecorded d =
      reported g unrecorded (λ missing x. give_up guilds missing x) (unfinished g (d.done g) d)

  unfoldable pub handle_command : List ℕ → Entry → Entry
  unfolding give_up report_tombstoned purge_guilds
  handle_command guild_ids d =
      let counted = record d {
        deliveries = d.deliveries + 1;
        world = c.recover_tombstones guild_ids d.world;
      } in
      let tombstoned = select (c.tombstoned counted.world) guild_ids in
      if leb (max_deliveries + 1) counted.deliveries
        && not (any (c.tombstoned counted.world) guild_ids)
      then give_up guild_ids false counted
      else (let (w, enforcing) = c.enforcing_target counted.world in
          if enforcing
          then purge_guilds guild_ids guild_ids true (record counted { world = w })
          else report_tombstoned tombstoned (record counted { world = w }))

  -- none is a payload that does not parse
  unfoldable pub handle_entry : Option (List ℕ) → Entry → Entry
  unfolding drop_entry handle_command
  handle_entry none d = drop_entry false d
  handle_entry (some guild_ids) d = handle_command guild_ids d
