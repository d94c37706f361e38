-- ===== src/Idle/Noted.antt =====
-- What src/proactive_agent/idle.py folds a conversation to is a memory note alone.
use proactive_agent.Prelude.{
  ◌≡◌, ◌≢◌, refl, inl, inr, true, Option, none, some, List, [], ◌∷◌, any, Bool-cases, arith,
}
use proactive_agent.Text.{Text}
use proactive_agent.Conversation.{
  Message, request, response, is_note, memory_note_pair, leading_note_pair, is_summary_only,
  note_alone, purge_agent_history,
}
use proactive_agent.Idle.{own_note, folded_or, fold_idle, unsummarized_note}

-- A memory note alone is what is left.
pub memory_note_pair-is_summary_only :
    (note : Text) → is_summary_only (memory_note_pair note) ≡ true
unfolding memory_note_pair is_summary_only
memory_note_pair-is_summary_only note = refl

pub leading_note_pair-is_summary_only :
    (history pair : List Message)
    → leading_note_pair history ≡ some pair
    → is_summary_only pair ≡ true
unfolding leading_note_pair is_summary_only
leading_note_pair-is_summary_only [] pair h = absurd cc
leading_note_pair-is_summary_only (request parts i ∷ []) pair h = absurd cc
leading_note_pair-is_summary_only (response parts i ∷ []) pair h = absurd cc
leading_note_pair-is_summary_only (request parts i ∷ request p j ∷ rest) pair h = absurd cc
leading_note_pair-is_summary_only (response parts i ∷ m ∷ rest) pair h = absurd cc
leading_note_pair-is_summary_only (request parts i ∷ response answer name ∷ rest) pair h =
    elim (Bool-cases (any is_note parts)) [
      | inl note ↦
          let e : pair ≡ request parts i ∷ response answer name ∷ [] = ground (arith, note, h) in
          rw (e, note) refl
      | inr plain ↦ absurd (ground (arith, plain, h))
    ]

own_note-is_summary_only :
    (history : List Message) (o : Option (List Message))
    → leading_note_pair history ≡ o
    → is_summary_only (own_note o) ≡ true
unfolding own_note
own_note-is_summary_only history none h = memory_note_pair-is_summary_only unsummarized_note
own_note-is_summary_only history (some pair) h = leading_note_pair-is_summary_only history pair h

folded_or-is_summary_only :
    (history : List Message) (o : Option Text)
    → is_summary_only (folded_or history (note_alone o)) ≡ true
unfolding folded_or note_alone
folded_or-is_summary_only history none = own_note-is_summary_only history _ refl
folded_or-is_summary_only history (some summary) = memory_note_pair-is_summary_only summary

pub fold_idle-is_summary_only :
    (summarize : List Message → Option Text) (history : List Message)
    → history ≢ []
    → is_summary_only (fold_idle summarize history) ≡ true
unfolding fold_idle purge_agent_history
fold_idle-is_summary_only summarize [] h = absurd (h refl)
fold_idle-is_summary_only summarize (m ∷ history) h =
    folded_or-is_summary_only (m ∷ history) (summarize (m ∷ history))
