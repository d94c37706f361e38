-- ===== src/Conversation/Tests.antt =====
-- Conversations of a few messages, and a summary that answers a fixed text.
use proactive_agent.Prelude.{
  ◌≡◌, ◌≢◌, refl, true, false, Option, none, some, List, [], ◌∷◌, ◌++◌, length,
}
use proactive_agent.Text.{Text, codes}
use proactive_agent.Conversation.{
  Message, Drops, request, response, user_prompt, tool_return, thinking, tool_call, is_thinking,
  without_parts, without_thinking, fold_boundary, memory_note_pair, is_summary_only,
  leading_note_pair, compact_agent_history, purge_agent_history, drop_other_models_claude_thinking,
  without_system_prompts, without_stored_instructions, strip_claude_thinking, system_prompt,
}
use proactive_agent.Conversation.Parts.{all_parts, surviving, all_parts-without_parts}
use proactive_agent.Conversation.Turns.{IsAlternating, without_parts-IsAlternating}
use proactive_agent.Conversation.Fold.{
  IsBoundary, IsCompacted, fold_boundary-IsBoundary, compact_agent_history-IsCompacted,
  purge_agent_history-is_summary_only,
}

abbrev asked : Message
asked = request (user_prompt true (codes "hi") ∷ []) none

abbrev thought : Message
thought = response (thinking true (codes "hm") ∷ []) (codes "claude")

abbrev called : Message
called = response (thinking false (codes "hm") ∷ tool_call 1 (codes "look") ∷ []) (codes "kimi")

abbrev returned : Message
returned = request (tool_return 1 (codes "seen") ∷ []) none

abbrev talk : List Message
talk = asked ∷ thought ∷ asked ∷ called ∷ returned ∷ []

abbrev drops_thinking : Drops
drops_thinking = λ index name part. is_thinking part

abbrev brief : List Message → Option Text
brief messages = some (codes "short")

talk_edited :
    without_thinking talk
    ≡ request (user_prompt true (codes "hi") ∷ user_prompt true (codes "hi") ∷ []) none
      ∷ response (tool_call 1 (codes "look") ∷ []) (codes "kimi")
      ∷ returned
      ∷ []
unfolding without_thinking
talk_edited = refl

talk_of_kimi :
    drop_other_models_claude_thinking (thought ∷ called ∷ []) (codes "claude")
    ≡ thought ∷ called ∷ []
unfolding drop_other_models_claude_thinking
talk_of_kimi = refl

talk_from_two : strip_claude_thinking 2 talk ≡ talk
unfolding strip_claude_thinking
talk_from_two = refl

talk_without_system :
    without_system_prompts (request (system_prompt (codes "be") ∷ []) none ∷ talk) ≡ talk
unfolding without_system_prompts
talk_without_system = refl

talk_without_instructions :
    without_stored_instructions (request [] (some (codes "be")) ∷ []) ≡ request [] none ∷ []
unfolding without_stored_instructions
talk_without_instructions = refl

cut_of_talk : fold_boundary talk 2 ≡ some 2
unfolding fold_boundary
cut_of_talk = refl

compacted_talk :
    compact_agent_history length 4 brief 2 talk
    ≡ some (memory_note_pair (codes "short") ++ (asked ∷ called ∷ returned ∷ []))
unfolding compact_agent_history
compacted_talk = refl

all_parts-without_parts_example :
    all_parts (without_parts drops_thinking talk) ≡ surviving drops_thinking 0 talk
all_parts-without_parts_example = all_parts-without_parts drops_thinking talk

talk-IsAlternating : IsAlternating talk
unfolding IsAlternating
talk-IsAlternating = ((λ e. refl), ((λ e. cc), ((λ e. refl), ((λ e. cc), ((λ e. refl), tt)))))

without_parts-IsAlternating_example : IsAlternating (without_parts drops_thinking talk)
without_parts-IsAlternating_example =
    without_parts-IsAlternating drops_thinking talk talk-IsAlternating

fold_boundary-IsBoundary_example : IsBoundary talk 2 (fold_boundary talk 2)
fold_boundary-IsBoundary_example = fold_boundary-IsBoundary talk 2

compact_agent_history-IsCompacted_example :
    IsCompacted length 4 brief 2 talk (compact_agent_history length 4 brief 2 talk)
compact_agent_history-IsCompacted_example = compact_agent_history-IsCompacted length 4 brief 2 talk

talk-purged : purge_agent_history brief talk ≡ some (memory_note_pair (codes "short"))
unfolding purge_agent_history
talk-purged = refl

talk-nonempty : talk ≢ []
talk-nonempty = λ e. absurd cc

purge_agent_history-is_summary_only_example :
    (is_summary_only (memory_note_pair (codes "short")) ≡ true)
    × (leading_note_pair (memory_note_pair (codes "short"))
        ≡ some (memory_note_pair (codes "short")))
purge_agent_history-is_summary_only_example =
    purge_agent_history-is_summary_only brief talk (memory_note_pair (codes "short")) talk-nonempty
      talk-purged
