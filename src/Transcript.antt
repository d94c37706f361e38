-- ===== src/Transcript.antt =====
-- The speaker tags of src/proactive_agent/transcript.py. A letter is its code point, and an author id
-- a number.
pub mod Tags
mod Tests
use proactive_agent.Prelude.{
  ℕ, zero, suc, ◌+◌, ◌-◌, ◌/◌, ◌%◌, Bool, true, false, Option, none, some, List, [], ◌∷◌, ◌==◌,
  length, if◌then◌else◌,
}
use proactive_agent.Text.{Text}

pub record Record : Type 0 where
  pub author_id : ℕ
  pub is_blocked : Bool

-- the loop of `_letter_tag`, with fuel
unfoldable pub tag_letters : ℕ → ℕ → Text → Text
tag_letters zero index letters = letters
tag_letters (suc fuel) index letters =
    let rest = tag_letters fuel ((index - 1) / 26) ((65 + (index - 1) % 26) ∷ letters) in
    if index == 0 then letters else rest

unfoldable pub letter_tag : ℕ → Text
unfolding tag_letters
letter_tag index = tag_letters (index + 1) (index + 1) []

-- The dictionary is an association list, newest author first.
abbrev pub tag_of : ℕ → List (ℕ × Text) → Option Text
tag_of author [] = none
tag_of author ((other, tag) ∷ tags) = if other == author then some tag else tag_of author tags

unfoldable pub add_tag : ℕ → Option Text → List (ℕ × Text) → List (ℕ × Text)
unfolding letter_tag
add_tag author (some tag) tags = tags
add_tag author none tags = (author, letter_tag (length tags)) ∷ tags

unfoldable pub tag_all : List Record → List (ℕ × Text) → List (ℕ × Text)
unfolding add_tag
tag_all [] tags = tags
tag_all (record_of ∷ records) tags = tag_all records (
    if record_of.is_blocked
    then tags
    else add_tag record_of.author_id (tag_of record_of.author_id tags) tags)

unfoldable pub speaker_tags : List Record → List (ℕ × Text)
unfolding tag_all
speaker_tags records = tag_all records []
