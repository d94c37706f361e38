-- ===== src/Runtime/Dispatch.antt =====
-- `_dispatch` of src/proactive_agent/runtime.py and its class ActionJournal: a wake's actions in
-- Discord, and the journal that keeps a retried wake from doing them again. The expiry of the journal
-- after a week is left out. Discord, and the writes of the journal, may fail: the parameter `Outside`.
pub mod Once
mod Tests
use proactive_agent.Prelude.{
  ℕ, zero, suc, ◌+◌, Bool, true, false, not, ◌&&◌, ◌||◌, Option, none, some, List, [], ◌∷◌, ◌==◌,
  any, select, map, if◌then◌else◌,
}
use proactive_agent.Text.{Text}
use proactive_agent.Reply.{split_for_discord}

pub data ActionId : Type 0 where
  response_part : ℕ → ℕ → ActionId
  reaction images close : ℕ → ActionId

abbrev pub same_action : ActionId → ActionId → Bool
same_action (response_part i p) (response_part j q) = i == j && p == q
same_action (reaction i) (reaction j) = i == j
same_action (images i) (images j) = i == j
same_action (close i) (close j) = i == j
same_action _ _ = false

pub data Call : Type 0 where
  send_message : ℕ → Text → Option ℕ → Call
  add_reaction : ℕ → ℕ → Text → Call
  send_files : ℕ → List Text → Option ℕ → Call
  close_channel : ℕ → Text → Call

pub record Response : Type 0 where
  pub channel_id : ℕ
  pub content : Text
  pub reply_to_id : Option ℕ

pub record Reaction : Type 0 where
  pub channel_id : ℕ
  pub message_id : ℕ
  pub emoji : Text

-- The images that wait for a channel, by their file names.
pub record Images : Type 0 where
  pub channel_id : ℕ
  pub filenames : List Text

pub record Plan : Type 0 where
  pub responses : List Response
  pub reactions : List Reaction
  pub images_by_channel : List Images
  pub closing : List (ℕ × Text)

-- A call of Discord, and a write of the journal; each says whether it went well.
pub record Outside : Type 1 where
  pub World : Type 0
  pub perform : Call → World → World × Bool
  pub keep : ActionId → World → World × Bool

module _ (o : Outside) where
  open o use {World, perform, keep}

  pub record Dispatch : Type 0 where
    pub journal : List ActionId
    pub world : World

  -- `ActionJournal.completed`
  abbrev pub completed : ActionId → Dispatch → Bool
  completed id s = any (same_action id) s.journal

  -- `ActionJournal.record`; false is an exception
  unfoldable pub record_action : ActionId → Dispatch → World × Bool → Dispatch × Bool
  record_action id s (w, true) = (record s { journal = id ∷ s.journal; world = w }, true)
  record_action id s (w, false) = (record s { world = w }, false)

  -- after the call; one that is best effort goes on without the record
  unfoldable pub after_call : Bool → ActionId → Dispatch → World × Bool → Dispatch × Bool
  unfolding record_action
  after_call best_effort id s (w, false) = (record s { world = w }, best_effort)
  after_call best_effort id s (w, true) = record_action id s (keep id w)

  unfoldable pub act : Bool → ActionId → Call → Dispatch → Dispatch × Bool
  unfolding after_call
  act best_effort id call s =
      if completed id s then (s, true) else after_call best_effort id s (perform call s.world)

  unfoldable pub and_then : Dispatch × Bool → (Dispatch → Dispatch × Bool) → Dispatch × Bool
  and_then (s, true) rest = rest s
  and_then (s, false) rest = (s, false)

  -- a loop over actions, each with its id
  unfoldable pub act_all : Bool → List (ActionId × Call) → Dispatch → Dispatch × Bool
  unfolding act and_then
  act_all best_effort [] s = (s, true)
  act_all best_effort ((id, call) ∷ calls) s =
      and_then (act best_effort id call s) (λ s'. act_all best_effort calls s')

  -- the closes come last, and a close that fails is left
  unfoldable pub in_turn :
      (sends reacts files closes : List (ActionId × Call)) → Dispatch → Dispatch × Bool
  unfolding act_all and_then
  in_turn sends reacts files closes s = and_then (act_all false sends s) (λ s1.
      and_then (act_all false reacts s1)
        (λ s2. and_then (act_all false files s2) (λ s3. act_all true closes s3)))

  abbrev pub counted : ℕ → Dispatch × Bool → Dispatch × Option ℕ
  counted n (s, true) = (s, some n)
  counted n (s, false) = (s, none)

-- the parts of a response; the first one replies
unfoldable pub part_calls : ℕ → ℕ → ℕ → Option ℕ → List Text → List (ActionId × Call)
part_calls index part channel_id reply_to_id [] = []
part_calls index part channel_id reply_to_id (text ∷ texts) =
    (
      response_part index part,
      send_message channel_id text (if part == 0 then reply_to_id else none),
    )
    ∷ part_calls index (part + 1) channel_id reply_to_id texts

unfoldable pub appended : List (ActionId × Call) → List (ActionId × Call) → List (ActionId × Call)
appended [] rest = rest
appended (call ∷ calls) rest = call ∷ appended calls rest

module _ (is_space : ℕ → Bool) (enabled recipe : ℕ → Bool) where
  -- the calls of the responses, in the channels that are enabled or named by a recipe
  unfoldable pub response_calls : ℕ → List Response → List (ActionId × Call)
  unfolding part_calls appended split_for_discord
  response_calls index [] = []
  response_calls index (x ∷ responses) =
      let rest = response_calls (index + 1) responses in
      if enabled x.channel_id || recipe x.channel_id
      then appended
          (part_calls index 0 x.channel_id x.reply_to_id (split_for_discord is_space x.content))
          rest
      else rest

  abbrev pub has_parts : List Text → ℕ
  has_parts [] = 0
  has_parts (part ∷ parts) = 1

  -- `dispatched`, where no call raises
  unfoldable pub count_dispatched : List Response → ℕ
  unfolding split_for_discord
  count_dispatched [] = 0
  count_dispatched (x ∷ responses) =
      let rest = count_dispatched responses in
      if enabled x.channel_id || recipe x.channel_id
      then has_parts (split_for_discord is_space x.content) + rest
      else rest

  unfoldable pub reaction_calls : ℕ → List Reaction → List (ActionId × Call)
  reaction_calls index [] = []
  reaction_calls index (x ∷ reactions) =
      let rest = reaction_calls (index + 1) reactions in
      if enabled x.channel_id
      then (reaction index, add_reaction x.channel_id x.message_id x.emoji) ∷ rest
      else rest

  -- the reply of a channel's images: that of its first response that replies
  unfoldable pub reply_of : ℕ → List Response → Option ℕ
  reply_of channel_id [] = none
  reply_of channel_id (x ∷ responses) =
      let rest = reply_of channel_id responses in
      if x.channel_id == channel_id
      then elim x.reply_to_id [ none ↦ rest | some id ↦ some id ]
      else rest

  unfoldable pub image_calls : List Response → List Images → List (ActionId × Call)
  unfolding reply_of
  image_calls responses [] = []
  image_calls responses (x ∷ pending) =
      let rest = image_calls responses pending in
      if enabled x.channel_id
      then (
        images x.channel_id,
        send_files x.channel_id x.filenames (reply_of x.channel_id responses),
      )
        ∷ rest
      else rest

  abbrev pub close_calls : List (ℕ × Text) → List (ActionId × Call)
  close_calls = map (λ x. (close x.0, close_channel x.0 x.1))

  -- Whether it returned, and then how many responses it counts.
  unfoldable pub dispatch : (o : Outside) → Plan → Dispatch o → Dispatch o × Option ℕ
  unfolding in_turn response_calls reaction_calls image_calls count_dispatched
  dispatch o plan s = counted o (count_dispatched plan.responses) (
      in_turn o (response_calls 0 plan.responses) (reaction_calls 0 plan.reactions)
        (image_calls plan.responses plan.images_by_channel) (close_calls plan.closing) s)
