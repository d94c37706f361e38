-- ===== src/Instructions/Bounded.antt =====
-- What holds of a store of watch instructions whatever is set, cleared and pruned, in
-- src/proactive_agent/environment.py.
use Prim.Native.String.{String}
use proactive_agent.Prelude.{
  ℕ, ◌+◌, ◌≤◌, ◌<◌, ◌≡◌, ◌≢◌, refl, sym, ap, ◌∙◌, Bool, true, not, Option, none, some, List, [],
  ◌∷◌, ◌++◌, ◌==◌, leb, length, select, All, All-append, All-select, length-append,
  length-select-le, select-append, arith, Bool-cases, inl, inr,
}
use proactive_agent.Instructions.{
  WatchInstruction, InstructionStore, StoredInstructions, nothing, no_list, legacy, listed,
  is_active, active, prune_expired, new_entry, set_instruction, clear_instruction, from_stored,
  highest, max_watch_instructions, store_of,
}

-- No two entries have the same id.
unfoldable pub IsDistinct : List WatchInstruction → Type 0
IsDistinct [] = Unit
IsDistinct (e ∷ es) = All (λ f. f.instruction_id ≢ e.instruction_id) es × IsDistinct es

-- Every id is below the next one, so the next one is new.
pub record IsWellFormed (s : InstructionStore) : Type 0 where
  pub bounded : length s.entries ≤ max_watch_instructions
  pub fresh : All (λ e. e.instruction_id < s.next_id) s.entries
  pub distinct : IsDistinct s.entries

IsDistinct-select :
    (p : WatchInstruction → Bool) (es : List WatchInstruction)
    → IsDistinct es
    → IsDistinct (select p es)
unfolding IsDistinct
IsDistinct-select p [] h = tt
IsDistinct-select p (e ∷ es) (new, h) = elim (Bool-cases (p e)) [
  | inl keep ↦ rw keep (All-select _ p es new, IsDistinct-select p es h)
  | inr gone ↦ rw gone (IsDistinct-select p es h)
]

IsDistinct-append :
    (n : ℕ) (es : List WatchInstruction) (e : WatchInstruction)
    → All (λ f. f.instruction_id < n) es
    → e.instruction_id ≡ n
    → IsDistinct es
    → IsDistinct (es ++ e ∷ [])
unfolding IsDistinct
IsDistinct-append n [] e below same_id h = (tt, tt)
IsDistinct-append n (f ∷ es) e (less, below) same_id (new, h) = (
  All-append _ es (e ∷ []) new ((λ q. omega (arith, less, same_id, q)), tt),
  IsDistinct-append n es e below same_id h,
)

select-all :
    {A : Type 0} (p : A → Bool) (xs : List A)
    → length (select (λ x. not (p x)) xs) ≡ 0
    → select p xs ≡ xs
select-all p [] h = refl
select-all p (x ∷ xs) h = elim (Bool-cases (p x)) [
  | inl yes_ ↦ rw yes_ (ap (◌∷◌ x) (select-all p xs (ground (arith, h, yes_))))
  | inr no_ ↦ ground (arith, h, no_)
]

select-select : {A : Type 0} (p : A → Bool) (xs : List A) → select p (select p xs) ≡ select p xs
select-select p [] = refl
select-select p (x ∷ xs) = elim (Bool-cases (p x)) [
  | inl yes_ ↦ ground (arith, yes_, select-select p xs)
  | inr no_ ↦ ground (arith, no_, select-select p xs)
]

select-joined :
    {A : Type 0} (p : A → Bool) (xs : List A) (x : A)
    → p x ≡ true
    → select p (select p xs ++ x ∷ []) ≡ select p xs ++ x ∷ []
select-joined p xs x h = rw (select-append p (select p xs) (x ∷ []), select-select p xs, h) refl

entries-prune_expired :
    (now : ℕ) (s : InstructionStore)
    → (prune_expired now s).0.entries ≡ select (is_active now) s.entries
unfolding prune_expired
entries-prune_expired now s =
    elim (Bool-cases (0 == length (select (λ e. not (is_active now e)) s.entries))) [
      | inl clean ↦ rw clean (sym (select-all (is_active now) s.entries (ground arith)))
      | inr some_expired ↦ rw some_expired refl
    ]

next_id-prune_expired :
    (now : ℕ) (s : InstructionStore) → (prune_expired now s).0.next_id ≡ s.next_id
unfolding prune_expired
next_id-prune_expired now s = ground arith

prune_expired-IsWellFormed :
    (now : ℕ) (s : InstructionStore) → IsWellFormed s → IsWellFormed (prune_expired now s).0
prune_expired-IsWellFormed now s w =
    let e = entries-prune_expired now s in
    let le = length-select-le (is_active now) s.entries in
    record {
      bounded = rw e (omega (arith, w.bounded));
      fresh = rw (e, next_id-prune_expired now s) (All-select _ (is_active now) s.entries w.fresh);
      distinct = rw e (IsDistinct-select (is_active now) s.entries w.distinct);
    }

All-below_suc :
    (n : ℕ) (es : List WatchInstruction)
    → All (λ e. e.instruction_id < n) es
    → All (λ e. e.instruction_id < n + 1) es
All-below_suc n [] h = tt
All-below_suc n (e ∷ es) (less, h) = (omega arith, All-below_suc n es h)

-- The two ends of a call: with five active entries left it is refused, and otherwise the new entry
-- joins the active ones, and is active itself.
pub data IsAdded (text : String) (ttl now : ℕ) (s : InstructionStore)
    : InstructionStore × Option WatchInstruction → Type 0 where
  full :
      {s' : InstructionStore}
      → max_watch_instructions ≤ length (active now s)
      → s'.entries ≡ active now s
      → s'.next_id ≡ s.next_id
      → IsAdded text ttl now s (s', none)
  joined :
      {s' : InstructionStore} {e : WatchInstruction}
      → length (active now s) < max_watch_instructions
      → s'.entries ≡ active now s ++ e ∷ []
      → active now s' ≡ active now s ++ e ∷ []
      → s'.next_id ≡ s.next_id + 1
      → e.instruction_id ≡ s.next_id
      → (now + 60 ≤ e.expires_at) × (e.expires_at ≤ now + 86400)
      → IsAdded text ttl now s (s', some e)

-- Setting an instruction prunes what has expired. With five active entries left it is refused;
-- otherwise the watcher sees the active entries and then the new one, whose id is the store's next
-- id, and which expires between a minute and a day from now.
pub set_instruction-IsAdded :
    (text : String) (ttl now : ℕ) (s : InstructionStore)
    → IsAdded text ttl now s (set_instruction text ttl now s)
unfolding set_instruction active new_entry
set_instruction-IsAdded text ttl now s =
    let s' = (prune_expired now s).0 in
    let e = entries-prune_expired now s in
    let n = next_id-prune_expired now s in
    elim (Bool-cases (leb max_watch_instructions (length s'.entries))) [
      | inl many ↦ rw many (full (ground (arith, many, ap length e)) e n)
      | inr few ↦
          let x = new_entry text ttl now s' in
          let is_new : is_active now x ≡ true = ground arith in
          rw few (
            joined (ground (arith, few, ap length e)) (ap (λ es. es ++ x ∷ []) e)
              (ap (λ es. select (is_active now) (es ++ x ∷ [])) e
                ∙ select-joined (is_active now) s.entries x is_new)
              (ap (λ k. k + 1) n) n (omega arith, omega arith))
    ]

-- What the agent and time do to the store.
pub data Operation : Type 0 where
  sets : String → ℕ → ℕ → Operation
  clears prunes : ℕ → Operation

unfoldable pub step : Operation → InstructionStore → InstructionStore
step (sets text ttl now) s = (set_instruction text ttl now s).0
step (clears id) s = (clear_instruction id s).0
step (prunes now) s = (prune_expired now s).0

unfoldable pub steps : List Operation → InstructionStore → InstructionStore
unfolding step
steps [] s = s
steps (o ∷ os) s = steps os (step o s)

set_instruction-IsWellFormed :
    {text : String} {ttl now : ℕ} (s : InstructionStore)
    {o : InstructionStore × Option WatchInstruction}
    → IsWellFormed s
    → IsAdded text ttl now s o
    → IsWellFormed o.0
unfolding active
set_instruction-IsWellFormed {now = now} s w (full _ e n) =
    let le = length-select-le (is_active now) s.entries in
    record {
      bounded = rw e (omega (arith, w.bounded));
      fresh = rw (e, n) (All-select _ (is_active now) s.entries w.fresh);
      distinct = rw e (IsDistinct-select (is_active now) s.entries w.distinct);
    }
set_instruction-IsWellFormed {now = now} s w (joined {e = x} few e _ n id _) =
    let below = All-select _ (is_active now) s.entries w.fresh in
    record {
      bounded = rw (e, length-append) (omega (arith, few));
      fresh =
          rw (e, n)
            (All-append _ _ (x ∷ []) (All-below_suc s.next_id _ below) (omega (arith, id), tt));
      distinct = rw e (
          IsDistinct-append s.next_id _ x below id
            (IsDistinct-select (is_active now) s.entries w.distinct));
    }

clear_instruction-IsWellFormed :
    (id : ℕ) (s : InstructionStore) → IsWellFormed s → IsWellFormed (clear_instruction id s).0
unfolding clear_instruction
clear_instruction-IsWellFormed id s w =
    let p : WatchInstruction → Bool = λ e. not (e.instruction_id == id) in
    let le = length-select-le p s.entries in
    elim (Bool-cases (length (select p s.entries) == length s.entries)) [
      | inl same_length ↦ rw same_length w
      | inr fewer ↦ rw fewer record {
        bounded = omega (arith, w.bounded);
        fresh = All-select _ p s.entries w.fresh;
        distinct = IsDistinct-select p s.entries w.distinct;
      }
    ]

-- From a well-formed store, whatever is set, cleared and pruned, at most five entries are left, with
-- distinct ids, all below the next id.
pub steps-IsWellFormed :
    (os : List Operation) (s : InstructionStore) → IsWellFormed s → IsWellFormed (steps os s)
unfolding steps step
steps-IsWellFormed [] s w = w
steps-IsWellFormed (sets text ttl now ∷ os) s w =
    steps-IsWellFormed os _
      (set_instruction-IsWellFormed s w (set_instruction-IsAdded text ttl now s))
steps-IsWellFormed (clears id ∷ os) s w =
    steps-IsWellFormed os _ (clear_instruction-IsWellFormed id s w)
steps-IsWellFormed (prunes now ∷ os) s w =
    steps-IsWellFormed os _ (prune_expired-IsWellFormed now s w)

below-highest :
    (n : ℕ) (es : List WatchInstruction) → highest es ≤ n → All (λ e. e.instruction_id < n + 1) es
unfolding highest
below-highest n [] h = tt
below-highest n (e ∷ es) h = (omega (arith, h), below-highest n es (omega (arith, h)))

-- A store loaded from at most five stored entries with distinct ids is well formed, so that a new id
-- is none of the stored ones; what cannot be read loads as a well-formed store too.
from_stored-IsWellFormed :
    (seed : String) (stored : StoredInstructions) (now : ℕ)
    → ((es : List WatchInstruction)
        → stored ≡ listed es
        → (length es ≤ max_watch_instructions) × IsDistinct es)
    → IsWellFormed (from_stored seed stored now)
unfolding from_stored IsDistinct
from_stored-IsWellFormed seed nothing now h = record {
  bounded = omega arith;
  fresh = tt;
  distinct = tt;
}
from_stored-IsWellFormed seed no_list now h = record {
  bounded = omega arith;
  fresh = tt;
  distinct = tt;
}
from_stored-IsWellFormed seed (legacy text) now h = record {
  bounded = omega arith;
  fresh = (omega arith, tt);
  distinct = (tt, tt);
}
from_stored-IsWellFormed seed (listed es) now h =
    let (few, apart) = h es refl in
    let s = store_of seed es (highest es + 1) in
    let w = prune_expired-IsWellFormed now s (record {
      bounded = few;
      fresh = below-highest (highest es) es (omega arith);
      distinct = apart;
    }) in
    record { bounded = w.bounded; fresh = w.fresh; distinct = w.distinct }
