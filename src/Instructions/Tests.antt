-- ===== src/Instructions/Tests.antt =====
-- A store that fills up, and its theorems.
use proactive_agent.Prelude.{ℕ, ◌≡◌, refl, List, [], ◌∷◌, arith}
use proactive_agent.Instructions.{
  WatchInstruction, InstructionStore, StoredInstructions, listed, set_instruction,
  clear_instruction, prune_expired,
}
use proactive_agent.Instructions.Bounded.{
  IsWellFormed, IsAdded, IsDistinct, Operation, sets, clears, prunes, step, steps,
  set_instruction-IsAdded, steps-IsWellFormed,
}

abbrev entry : ℕ → ℕ → WatchInstruction
entry n t = record { instruction_id = n; text = "links"; expires_at = t }

abbrev store : InstructionStore
store = record {
  seed = "mentions";
  entries = entry 2 500 ∷ entry 4 900 ∷ [];
  updates = 0;
  next_id = 5;
}

well_formed : IsWellFormed store
unfolding IsDistinct
well_formed = record {
  bounded = omega arith;
  fresh = (omega arith, (omega arith, tt));
  distinct = ((λ h. omega (arith, h), tt), (tt, tt));
}

abbrev week : List Operation
week =
    sets "a" 3600 600
    ∷ sets "b" 10 600
    ∷ clears 4
    ∷ sets "c" 999999 600
    ∷ prunes 700
    ∷ sets "d" 60 700
    ∷ []

-- The first entry expired at 500, and the next id goes on from 5.
ids : (steps week store).next_id ≡ 9
unfolding steps step set_instruction clear_instruction prune_expired
ids = refl

set_instruction-IsAdded_example : IsAdded "a" 3600 600 store (set_instruction "a" 3600 600 store)
set_instruction-IsAdded_example = set_instruction-IsAdded "a" 3600 600 store

steps-IsWellFormed_example : IsWellFormed (steps week store)
steps-IsWellFormed_example = steps-IsWellFormed week store well_formed

abbrev listed_of : StoredInstructions → List WatchInstruction
listed_of (listed es) = es
listed_of _ = []
