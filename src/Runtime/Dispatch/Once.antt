-- ===== src/Runtime/Dispatch/Once.antt =====
-- What the journal of src/proactive_agent/runtime.py keeps from being done twice.
use proactive_agent.Prelude.{◌≡◌, true, List, [], ◌∷◌}
use proactive_agent.Runtime.Dispatch.{ActionId, Call, Outside, Dispatch, completed}

module _ (o : Outside) where
  -- What was recorded stays recorded.
  IsLater : Dispatch o → Dispatch o → Type 0
  IsLater s s' = (id : ActionId) → completed o id s ≡ true → completed o id s' ≡ true

  -- every action is recorded
  AreCompleted : List (ActionId × Call) → Dispatch o → Type 0
  AreCompleted [] s = true ≡ true
  AreCompleted ((id, call) ∷ calls) s = (completed o id s ≡ true) × AreCompleted calls s
