-- ===== src/Conversation.antt =====
-- A conversation with the model as src/proactive_agent/agent.py keeps and edits it: requests, which
-- hold the prompts and the tools' answers, and the model's responses. A kind of part keeps what the
-- edits look at.
pub mod Parts
pub mod Turns
pub mod Stripped
pub mod Fold
mod Tests
use proactive_agent.Prelude.{
  ℕ, zero, suc, ◌+◌, ◌-◌, Bool, true, false, not, ◌&&◌, ◌||◌, Option, none, some, List, [], ◌∷◌,
  ◌++◌, map, leb, ◌==◌, if◌then◌else◌, length, take, drop, select, any,
}
use proactive_agent.Text.{Text, codes, starts_with}

-- The flag of `user_prompt` is false for a content that is a list and no string.
pub data RequestPart : Type 0 where
  system_prompt : Text → RequestPart
  user_prompt : Bool → Text → RequestPart
  tool_return retry_prompt : ℕ → Text → RequestPart

-- The flag of `thinking` is true for the provider "anthropic".
pub data ResponsePart : Type 0 where
  text : Text → ResponsePart
  thinking : Bool → Text → ResponsePart
  tool_call : ℕ → Text → ResponsePart

pub data Message : Type 0 where
  request : List RequestPart → Option Text → Message
  response : List ResponsePart → Text → Message

abbrev pub is_request : Message → Bool
is_request (request parts instructions) = true
is_request (response parts model_name) = false

abbrev pub ends_in_request : List Message → Bool
ends_in_request [] = false
ends_in_request (m ∷ kept) = is_request m

-- The state of the loop in `_without_parts`: `kept` is newest first.
pub record Walk : Type 0 where
  pub index : ℕ
  pub kept : List Message
  pub changed : Bool
  pub merge_next : Bool

-- Which part to drop, by the message's index and model name.
abbrev pub Drops : Type 0
Drops = ℕ → Text → ResponsePart → Bool

abbrev pub left : Drops → ℕ → Text → List ResponsePart → List ResponsePart
left drops index name = select (λ part. not (drops index name part))

-- a request joins the one before it
merge_request : List RequestPart → Option Text → List Message → List Message
merge_request parts instructions (request earlier old ∷ kept) =
    request (earlier ++ parts) instructions ∷ kept
merge_request parts instructions kept = request parts instructions ∷ kept

keep_response : List ResponsePart → Text → Walk → Walk
keep_response [] name s = record s {
  index = s.index + 1;
  changed = true;
  merge_next = ends_in_request s.kept;
}
keep_response (part ∷ parts) name s = record {
  index = s.index + 1;
  kept = response (part ∷ parts) name ∷ s.kept;
  changed = true;
  merge_next = false;
}

walk_step : Drops → Walk → Message → Walk
unfolding merge_request keep_response
walk_step drops s (request parts instructions) = record {
  index = s.index + 1;
  kept =
      if s.merge_next
      then merge_request parts instructions s.kept
      else request parts instructions ∷ s.kept;
  changed = s.changed;
  merge_next = false;
}
walk_step drops s (response parts name) =
    if length (left drops s.index name parts) == length parts
    then record {
      index = s.index + 1;
      kept = response parts name ∷ s.kept;
      changed = s.changed;
      merge_next = false;
    }
    else keep_response (left drops s.index name parts) name s

walk : Drops → Walk → List Message → Walk
unfolding walk_step
walk drops s [] = s
walk drops s (m ∷ messages) = walk drops (walk_step drops s m) messages

abbrev pub reversed : List Message → List Message → List Message
reversed [] after = after
reversed (m ∷ kept) after = reversed kept (m ∷ after)

abbrev pub start_walk : Walk
start_walk = record { index = 0; kept = []; changed = false; merge_next = false }

-- `_without_parts`
unfoldable pub without_parts : Drops → List Message → List Message
unfolding walk
without_parts drops messages =
    let s = walk drops start_walk messages in if s.changed then reversed s.kept [] else messages

abbrev pub is_claude_thinking : ResponsePart → Bool
is_claude_thinking (thinking claude content) = claude
is_claude_thinking _ = false

abbrev pub is_thinking : ResponsePart → Bool
is_thinking (thinking claude content) = true
is_thinking _ = false

unfoldable pub strip_claude_thinking : ℕ → List Message → List Message
unfolding without_parts
strip_claude_thinking start =
    without_parts (λ index name part. leb start index && is_claude_thinking part)

unfoldable pub without_thinking : List Message → List Message
unfolding without_parts
without_thinking = without_parts (λ index name part. is_thinking part)

-- `model_name` is not empty.
unfoldable pub drop_other_models_claude_thinking : List Message → Text → List Message
unfolding without_parts
drop_other_models_claude_thinking history model_name =
    without_parts (λ index name part. is_claude_thinking part && not (starts_with model_name name))
      history

abbrev pub is_system_prompt : RequestPart → Bool
is_system_prompt (system_prompt content) = true
is_system_prompt _ = false

-- one request of `without_system_prompts`, dropped if no part is left
drop_system_prompts : List RequestPart → Option Text → List Message → List Message
drop_system_prompts [] instructions rest = rest
drop_system_prompts (part ∷ parts) instructions rest = request (part ∷ parts) instructions ∷ rest

abbrev has_system_prompt : Message → Bool
has_system_prompt (request parts instructions) = any is_system_prompt parts
has_system_prompt (response parts name) = false

rebuild : List Message → List Message
unfolding drop_system_prompts
rebuild [] = []
rebuild (response parts name ∷ messages) = response parts name ∷ rebuild messages
rebuild (request parts instructions ∷ messages) =
    drop_system_prompts (select (λ part. not (is_system_prompt part)) parts) instructions
      (rebuild messages)

unfoldable pub without_system_prompts : List Message → List Message
unfolding rebuild
without_system_prompts messages =
    if any has_system_prompt messages then rebuild messages else messages

unfoldable pub without_stored_instructions : List Message → List Message
without_stored_instructions = map (λ m. clear m)
  where
    clear : Message → Message
    clear (request parts instructions) = request parts none
    clear (response parts name) = response parts name

abbrev pub is_user_prompt : RequestPart → Bool
is_user_prompt (user_prompt is_text content) = true
is_user_prompt _ = false

abbrev pub starts_wake_turn : Message → Bool
starts_wake_turn (request parts instructions) = any is_user_prompt parts
starts_wake_turn (response parts name) = false

abbrev pub starts_at : ℕ → List Message → Bool
starts_at n [] = false
starts_at zero (m ∷ history) = starts_wake_turn m
starts_at (suc n) (m ∷ history) = starts_at n history

-- `for index in range(index, index + count)`
first_start : ℕ → ℕ → List Message → Option ℕ
first_start zero index history = none
first_start (suc count) index history =
    let rest = first_start count (index + 1) history in
    if starts_at index history then some index else rest

-- `for index in range(index, 0, -1)`
last_start : ℕ → List Message → Option ℕ
last_start zero history = none
last_start (suc n) history =
    let rest = last_start n history in if starts_at (suc n) history then some (suc n) else rest

or_before : Option ℕ → ℕ → List Message → Option ℕ
unfolding last_start
or_before (some index) ideal history = some index
or_before none ideal history = last_start (ideal - 1) history

unfoldable pub fold_boundary : List Message → ℕ → Option ℕ
unfolding first_start or_before
fold_boundary history keep_messages =
    let ideal = length history - keep_messages in
    or_before (first_start (length history - ideal) ideal history) ideal history

abbrev pub memory_note_prefix : Text
memory_note_prefix = codes "[COMPACTION MEMORY NOTE"

abbrev note_heading : Text
note_heading =
    codes
      "[COMPACTION MEMORY NOTE — you wrote this yourself when your earlier transcript was folded. It is NOT a user message: attribute its contents only to the users and channels it names, never to whoever engages you next]\n"

abbrev note_answer : Text
note_answer =
    codes "Understood — that is my own memory note, not user input. Continuing from there."

-- The response carries no model name.
unfoldable pub memory_note_pair : Text → List Message
memory_note_pair summary =
    request (user_prompt true (note_heading ++ summary) ∷ []) none
    ∷ response (text note_answer ∷ []) []
    ∷ []

abbrev pub is_note : RequestPart → Bool
is_note (user_prompt is_text content) = is_text && starts_with memory_note_prefix content
is_note _ = false

unfoldable pub leading_note_pair : List Message → Option (List Message)
leading_note_pair (request parts i ∷ response answer name ∷ rest) =
    if any is_note parts then some (request parts i ∷ response answer name ∷ []) else none
leading_note_pair _ = none

unfoldable pub is_summary_only : List Message → Bool
unfolding leading_note_pair
is_summary_only history =
    length history == 2 && elim (leading_note_pair history) [ none ↦ false | some pair ↦ true ]

-- the note of a summary in place of what it covers
note_before : Option Text → List Message → Option (List Message)
unfolding memory_note_pair strip_claude_thinking
note_before none tail = none
note_before (some summary) tail = some (memory_note_pair summary ++ strip_claude_thinking 0 tail)

-- A cut at 0 folds nothing.
fold_at : (List Message → Option Text) → List Message → Option ℕ → Option (List Message)
unfolding note_before
fold_at summarize history none = some history
fold_at summarize history (some zero) = some history
fold_at summarize history (some (suc n)) =
    note_before (summarize (take (suc n) history)) (drop (suc n) history)

-- The size in tokens is a parameter, and so is the model's summary, which may fail.
unfoldable pub compact_agent_history :
    (List Message → ℕ) → ℕ → (List Message → Option Text) → ℕ → List Message → Option (List Message)
unfolding fold_boundary fold_at
compact_agent_history estimated_history_tokens token_limit summarize keep_messages history =
    if leb (estimated_history_tokens history) token_limit
    then some history
    else fold_at summarize history (fold_boundary history keep_messages)

unfoldable pub note_alone : Option Text → Option (List Message)
unfolding memory_note_pair
note_alone none = none
note_alone (some summary) = some (memory_note_pair summary)

unfoldable pub purge_agent_history :
    (List Message → Option Text) → List Message → Option (List Message)
unfolding note_alone
purge_agent_history summarize [] = some []
purge_agent_history summarize (m ∷ history) = note_alone (summarize (m ∷ history))
