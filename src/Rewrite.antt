-- ===== src/Rewrite.antt =====
-- How src/proactive_agent/agent.py has the model rewrite its memory without a user (rewrite checks
-- privacy:v1). A run of the model is a parameter: it is given a conversation and a prompt.
pub mod Clean
pub mod Watch
mod Tests
use proactive_agent.Prelude.{
  ℕ, zero, suc, ◌+◌, Bool, true, false, not, ◌&&◌, Option, none, some, List, [], ◌∷◌, map, leb, ltb,
  ◌==◌, if◌then◌else◌, length, select, any,
}
use proactive_agent.Text.{Text, is_empty, is_in, strip}
use proactive_agent.Conversation.{Message, without_thinking}
use proactive_agent.Names.{Unicode, name_hits}

-- privacy_max_id_retries and privacy_max_name_retries
abbrev pub max_id_retries : ℕ
max_id_retries = 2

abbrev pub max_name_retries : ℕ
max_name_retries = 1

-- What the model is asked: the purge's prompt, or one of those that follow it.
pub data Prompt : Type 0 where
  ask : Prompt
  ask_without_id : Prompt
  ask_without_name : Prompt
  ask_again : Prompt

-- An answer, what it was billed, and all messages of the run; or no answer.
pub data Answer (A : Type 0) : Type 0 where
  answer : A → ℕ → List Message → Answer A
  timed_out model_error : Answer A

pub data Failure : Type 0 where
  empty_output target_id timeout other_error : Failure

-- `unfinished` is a loop that has run out of fuel.
pub data Result (A : Type 0) : Type 0 where
  stored : A → Result A
  failed : Failure → Result A
  unfinished : Result A

-- PrivacyNote, with the usage's counters as one number
pub record PrivacyNote : Type 0 where
  pub text : Text
  pub name_hits : ℕ
  pub attempts : ℕ
  pub usage : ℕ

-- The state of a loop: how often it has asked again, how often it has asked, and what that cost.
pub record Asking : Type 0 where
  pub id_retries : ℕ
  pub name_retries : ℕ
  pub attempts : ℕ
  pub usage : ℕ

abbrev pub first_asking : Asking
first_asking = record { id_retries = 0; name_retries = 0; attempts = 0; usage = 0 }

-- `action` of a WatchDecision
pub data Action : Type 0 where
  keep drop : Action
  rewrite : Option Text → Action

-- An instruction's id and its text.
abbrev pub Entries : Type 0
Entries = List (ℕ × Text)

abbrev pub Decisions : Type 0
Decisions = List (ℕ × Action)

-- What becomes of each entry; none drops it.
abbrev pub Outcome : Type 0
Outcome = List (ℕ × Option Text)

-- `by_id.get(key)`: the last decision on an id counts
abbrev pub decision_on : ℕ → Decisions → Action
decision_on key [] = keep
decision_on key ((id, action) ∷ decisions) =
    if any (λ d. d.0 == key) decisions
    then decision_on key decisions
    else if id == key
    then action
    else keep

module _ (u : Unicode) where
  open u use {is_space}

  -- `(decision.text or "").strip()`
  unfoldable pub stripped : Option Text → Text
  stripped none = []
  stripped (some text) = strip is_space text

  -- one entry's outcome; none is an empty rewrite
  unfoldable pub decide : Text → Action → Option (Option Text)
  unfolding stripped
  decide text keep = some (some text)
  decide text drop = some none
  decide text (rewrite new) = if is_empty (stripped new) then none else some (some (stripped new))

  unfoldable pub join_outcome : ℕ → Option (Option Text) → Option Outcome → Option Outcome
  join_outcome key none rest = none
  join_outcome key (some text) none = none
  join_outcome key (some text) (some rest) = some ((key, text) ∷ rest)

  -- the `for` over the entries
  unfoldable pub outcome_of : Decisions → Entries → Option Outcome
  unfolding decide join_outcome
  outcome_of decisions [] = some []
  outcome_of decisions ((key, text) ∷ entries) =
      join_outcome key (decide text (decision_on key decisions)) (outcome_of decisions entries)

abbrev pub kept : Outcome → List Text
kept [] = []
kept ((key, none) ∷ outcome) = kept outcome
kept ((key, some text) ∷ outcome) = text ∷ kept outcome

module _ (u : Unicode) (user_id : Text) (names : List Text) where
  open u use {is_space}

  module _ (run : List Message → Prompt → Answer Text) (max_id max_name : ℕ) where
    -- the body of the loop of `privacy_compaction_summary` after an answer
    unfoldable pub judge :
        (Asking → List Message → Prompt → Result PrivacyNote)
        → Asking
        → Answer Text
        → Result PrivacyNote
    unfolding name_hits
    judge again s timed_out = failed timeout
    judge again s model_error = failed other_error
    judge again s (answer note spent history) =
        let asked = record s { attempts = s.attempts + 1; usage = s.usage + spent } in
        if is_empty (strip is_space note)
        then failed empty_output
        else if is_in user_id note
        then if leb max_id s.id_retries
          then failed target_id
          else again (record asked { id_retries = s.id_retries + 1 }) history ask_without_id
        else if ltb 0 (length (name_hits u note names)) && ltb s.name_retries max_name
        then again (record asked { name_retries = s.name_retries + 1 }) history ask_without_name
        else stored (record {
          text = note;
          name_hits = length (name_hits u note names);
          attempts = asked.attempts;
          usage = asked.usage;
        })

    unfoldable pub rewriting : ℕ → Asking → List Message → Prompt → Result PrivacyNote
    unfolding judge
    rewriting zero s history prompt = unfinished
    rewriting (suc fuel) s history prompt =
        judge (λ s' history' prompt'. rewriting fuel s' history' prompt') s (run history prompt)

    unfoldable pub privacy_compaction_summary : List Message → Result PrivacyNote
    unfolding rewriting without_thinking
    privacy_compaction_summary messages =
        rewriting (suc (max_id + max_name)) first_asking (without_thinking messages) ask

  module _ (run : Entries → List Message → Prompt → Answer Decisions) where
    leaks_name : Outcome → ℕ
    unfolding name_hits
    leaks_name outcome =
        length (select (λ text. ltb 0 (length (name_hits u text names))) (kept outcome))

    unfoldable pub judge_outcome :
        (Asking → List Message → Prompt → Result (Outcome × ℕ))
        → Asking
        → List Message
        → Option Outcome
        → Result (Outcome × ℕ)
    unfolding leaks_name
    judge_outcome again s history none = failed empty_output
    judge_outcome again s history (some outcome) =
        if any (is_in user_id) (kept outcome)
        then if leb max_id_retries s.id_retries
          then failed target_id
          else again (record s { id_retries = s.id_retries + 1 }) history ask_again
        else if ltb 0 (leaks_name outcome) && ltb s.name_retries max_name_retries
        then again (record s { name_retries = s.name_retries + 1 }) history ask_again
        else stored (outcome, leaks_name outcome)

    unfoldable pub judge_decisions :
        (Asking → List Message → Prompt → Result (Outcome × ℕ))
        → Asking
        → Entries
        → Answer Decisions
        → Result (Outcome × ℕ)
    unfolding judge_outcome outcome_of
    judge_decisions again s entries timed_out = failed timeout
    judge_decisions again s entries model_error = failed other_error
    judge_decisions again s entries (answer decisions spent history) =
        judge_outcome again s history (outcome_of u decisions entries)

    unfoldable pub deciding : ℕ → Asking → Entries → List Message → Prompt → Result (Outcome × ℕ)
    unfolding judge_decisions
    deciding zero s entries history prompt = unfinished
    deciding (suc fuel) s entries history prompt =
        judge_decisions (λ s' history' prompt'. deciding fuel s' entries history' prompt') s entries
          (run entries history prompt)

    unfoldable pub privacy_watch_decisions : Entries → Result (Outcome × ℕ)
    unfolding deciding
    privacy_watch_decisions [] = stored ([], 0)
    privacy_watch_decisions (entry ∷ entries) =
        deciding (suc (max_id_retries + max_name_retries)) first_asking (entry ∷ entries) [] ask
