-- ===== src/Text.antt =====
-- Text as Python sees it: a list of code points, with the searches of `str` that the worker uses.
use Prim.Native.Char.{code}
use Prim.Native.String.{String}
use proactive_agent.Prelude.{
  ℕ, zero, suc, Bool, true, false, ◌&&◌, ◌||◌, Option, none, some, List, [], ◌∷◌, ◌==◌,
  if◌then◌else◌,
}

abbrev pub Text : Type 0
Text = List ℕ

-- The code points of a literal.
abbrev pub codes : String → Text
codes String.[] = []
codes (String.◌∷◌ c s) = code c ∷ codes s

abbrev pub is_empty : Text → Bool
is_empty [] = true
is_empty (c ∷ cs) = false

-- `text.startswith(start)`
abbrev pub starts_with : Text → Text → Bool
starts_with [] text = true
starts_with (c ∷ start) [] = false
starts_with (c ∷ start) (d ∷ text) = c == d && starts_with start text

-- `needle in text`
abbrev pub is_in : Text → Text → Bool
is_in needle [] = starts_with needle []
is_in needle (c ∷ text) = starts_with needle (c ∷ text) || is_in needle text

abbrev pub code_at : ℕ → Text → Option ℕ
code_at n [] = none
code_at zero (c ∷ text) = some c
code_at (suc n) (c ∷ text) = code_at n text

-- `text.strip()`, with Python's white space as a parameter
abbrev pub strip_left : (ℕ → Bool) → Text → Text
strip_left is_space [] = []
strip_left is_space (c ∷ text) =
    let rest = strip_left is_space text in if is_space c then rest else c ∷ text

abbrev pub strip_right : (ℕ → Bool) → Text → Text
strip_right is_space [] = []
strip_right is_space (c ∷ text) =
    let rest = strip_right is_space text in if is_empty rest && is_space c then [] else c ∷ rest

abbrev pub strip : (ℕ → Bool) → Text → Text
strip is_space text = strip_right is_space (strip_left is_space text)
