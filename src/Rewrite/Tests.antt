-- ===== src/Rewrite/Tests.antt =====
-- A model that first leaks the id, and then the name.
use proactive_agent.Prelude.{◌≡◌, refl, some, List, [], ◌∷◌}
use proactive_agent.Text.{Text, codes}
use proactive_agent.Conversation.{Message}
use proactive_agent.Names.Tests.{plain}
use proactive_agent.Rewrite.{
  Prompt, ask, ask_without_id, ask_without_name, ask_again, Answer, answer, stored, failed,
  target_id, Entries, Decisions, rewrite, drop, keep, privacy_compaction_summary,
  privacy_watch_decisions,
}
use proactive_agent.Rewrite.Clean.{IsRewritten, privacy_compaction_summary-IsRewritten}
use proactive_agent.Rewrite.Watch.{IsDecided, privacy_watch_decisions-IsDecided}

abbrev target : Text
target = codes "77"

abbrev called : List Text
called = codes "ann" ∷ []

abbrev writer : List Message → Prompt → Answer Text
writer history ask = answer (codes "ann is 77") 3 history
writer history ask_without_id = answer (codes "ann left") 3 history
writer history ask_without_name = answer (codes "one left") 3 history
writer history ask_again = answer [] 3 history

rewritten_twice :
    privacy_compaction_summary plain target called writer 2 1 []
    ≡ stored (record { text = codes "one left"; name_hits = 0; attempts = 3; usage = 9 })
unfolding privacy_compaction_summary
rewritten_twice = refl

never_asked_again : privacy_compaction_summary plain target called writer 0 0 [] ≡ failed target_id
unfolding privacy_compaction_summary
never_asked_again = refl

abbrev decider : Entries → List Message → Prompt → Answer Decisions
decider entries history prompt =
    answer ((1, drop) ∷ (2, rewrite (some (codes " watch "))) ∷ (1, keep) ∷ []) 2 history

decided_once :
    privacy_watch_decisions plain target called decider
      ((1, codes "a") ∷ (2, codes "b") ∷ (3, codes "ann") ∷ [])
    ≡ stored ((1, some (codes "a")) ∷ (2, some (codes "watch")) ∷ (3, some (codes "ann")) ∷ [], 1)
unfolding privacy_watch_decisions
decided_once = refl

privacy_compaction_summary-IsRewritten_example :
    IsRewritten plain target called writer 2 1
      (privacy_compaction_summary plain target called writer 2 1 [])
privacy_compaction_summary-IsRewritten_example =
    privacy_compaction_summary-IsRewritten plain target called writer 2 1 []

privacy_watch_decisions-IsDecided_example :
    IsDecided plain target called decider
      ((1, codes "ann is 77") ∷ [])
      (privacy_watch_decisions plain target called decider ((1, codes "ann is 77") ∷ []))
privacy_watch_decisions-IsDecided_example =
    privacy_watch_decisions-IsDecided plain target called decider ((1, codes "ann is 77") ∷ [])
