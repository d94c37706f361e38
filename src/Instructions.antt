-- ===== src/Instructions.antt =====
-- class InstructionStore of src/proactive_agent/environment.py: the watcher's wake criteria. The id
-- `w{n}` is the number n, and times are seconds.
pub mod Bounded
mod Tests
use Prim.Native.String.{String}
use proactive_agent.Prelude.{
  ℕ, ◌+◌, ◌≡◌, Bool, true, false, not, Option, none, some, List, [], ◌∷◌, ◌++◌, ◌==◌, ltb, leb,
  if◌then◌else◌, length, select, min, max,
}

abbrev pub max_watch_instructions : ℕ
max_watch_instructions = 5

abbrev pub max_watch_instruction_ttl_seconds : ℕ
max_watch_instruction_ttl_seconds = 86400

pub record WatchInstruction : Type 0 where
  pub instruction_id : ℕ
  pub text : String
  pub expires_at : ℕ

pub record InstructionStore : Type 0 where
  pub seed : String
  pub entries : List WatchInstruction
  pub updates : ℕ
  pub next_id : ℕ

abbrev pub is_active : ℕ → WatchInstruction → Bool
is_active now e = ltb now e.expires_at

-- the entries that `current` shows to the watcher
unfoldable pub active : ℕ → InstructionStore → List WatchInstruction
active now s = select (is_active now) s.entries

unfoldable pub prune_expired : ℕ → InstructionStore → InstructionStore × List WatchInstruction
prune_expired now s =
    let expired = select (λ e. not (is_active now e)) s.entries in
    if 0 == length expired
    then (s, expired)
    else (record s { entries = select (is_active now) s.entries; updates = s.updates + 1 }, expired)

-- the entry that `set_instruction` writes
unfoldable pub new_entry : String → ℕ → ℕ → InstructionStore → WatchInstruction
new_entry text ttl_seconds now s = record {
  instruction_id = s.next_id;
  text = text;
  expires_at = now + min (max ttl_seconds 60) max_watch_instruction_ttl_seconds;
}

-- none is the ValueError; what has expired is pruned all the same
unfoldable pub set_instruction :
    String → ℕ → ℕ → InstructionStore → InstructionStore × Option WatchInstruction
unfolding prune_expired new_entry
set_instruction text ttl_seconds now s =
    let s' = (prune_expired now s).0 in
    if leb max_watch_instructions (length s'.entries)
    then (s', none)
    else (let entry = new_entry text ttl_seconds now s' in
        (
          record s' {
            entries = s'.entries ++ entry ∷ [];
            updates = s'.updates + 1;
            next_id = s'.next_id + 1;
          },
          some entry,
        ))

unfoldable pub clear_instruction : ℕ → InstructionStore → InstructionStore × Bool
clear_instruction instruction_id s =
    let remaining =
      select (λ (e : WatchInstruction). not (e.instruction_id == instruction_id)) s.entries in
    if length remaining == length s.entries
    then (s, false)
    else (record s { entries = remaining; updates = s.updates + 1 }, true)

-- the highest number of the stored ids
highest : List WatchInstruction → ℕ
highest [] = 0
highest (e ∷ es) = max e.instruction_id (highest es)

-- What is stored: nothing, text that is no JSON, JSON that is no list, or a list of entries that parse.
pub data StoredInstructions : Type 0 where
  nothing no_list : StoredInstructions
  legacy : String → StoredInstructions
  listed : List WatchInstruction → StoredInstructions

abbrev store_of : String → List WatchInstruction → ℕ → InstructionStore
store_of seed entries next_id = record {
  seed = seed;
  entries = entries;
  updates = 0;
  next_id = next_id;
}

unfoldable pub from_stored : String → StoredInstructions → ℕ → InstructionStore
unfolding highest prune_expired
from_stored seed nothing now = store_of seed [] 1
from_stored seed no_list now = store_of seed [] 1
from_stored seed (legacy text) now =
    store_of seed
      (record {
        instruction_id = 1;
        text = text;
        expires_at = now + max_watch_instruction_ttl_seconds;
      }
        ∷ [])
      2
from_stored seed (listed entries) now =
    record (prune_expired now (store_of seed entries (highest entries + 1))).0 { updates = 0 }
