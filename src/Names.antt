-- ===== src/Names.antt =====
-- The matcher of names in src/proactive_agent/agent.py (privacy:v1). Python's NFC, casefold and white
-- space are the parameter `Unicode`.
pub mod Found
pub mod Alone
pub mod Occurs
pub mod Tests
use proactive_agent.Prelude.{
  ℕ, zero, suc, ◌+◌, ◌-◌, Bool, true, false, not, ◌&&◌, ◌||◌, Option, none, some, List, [], ◌∷◌,
  ◌++◌, map, leb, ltb, ◌==◌, if◌then◌else◌, length, drop, select, any, all,
}
use proactive_agent.Text.{Text, codes, is_empty, starts_with, is_in, code_at, strip}

pub record Unicode : Type 0 where
  -- `unicodedata.normalize("NFC", text).casefold()`
  pub normalise_for_match : Text → Text
  pub is_space : ℕ → Bool

abbrev pub min_checked_ascii_name_chars : ℕ
min_checked_ascii_name_chars = 2

abbrev ascii_name_chars : Text
ascii_name_chars = codes "abcdefghijklmnopqrstuvwxyz0123456789_ "

abbrev ascii_letters : Text
ascii_letters = codes "abcdefghijklmnopqrstuvwxyz"

abbrev pub member : ℕ → Text → Bool
member c = any (λ d. c == d)

unfoldable pub is_ascii_name : Text → Bool
is_ascii_name = all (λ c. member c ascii_name_chars)

-- `haystack[index] in _ASCII_LETTERS`, false past the end
unfoldable pub letter_at : ℕ → Text → Bool
letter_at index haystack = elim (code_at index haystack) [
  | none ↦ false
  | some c ↦ member c ascii_letters
]

-- `haystack.find(needle, start)`
unfoldable pub scan : Text → ℕ → Text → Option ℕ
scan needle index [] = if is_empty needle then some index else none
scan needle index (c ∷ text) =
    let rest = scan needle (index + 1) text in
    if starts_with needle (c ∷ text) then some index else rest

unfoldable pub find : Text → ℕ → Text → Option ℕ
unfolding scan
find needle start haystack =
    if leb start (length haystack) then scan needle start (drop start haystack) else none

-- `before and after`
unfoldable pub stands_alone : Text → Text → ℕ → Bool
unfolding letter_at
stands_alone haystack needle index =
    let end = index + length needle in
    (index == 0 || not (letter_at (index - 1) haystack))
    && (end == length haystack || not (letter_at end haystack))

-- one turn of the loop, with what its search gave
unfoldable pub hit_or : Text → Text → (ℕ → Bool) → Option ℕ → Bool
unfolding stands_alone
hit_or haystack needle again none = false
hit_or haystack needle again (some index) =
    if stands_alone haystack needle index then true else again (index + 1)

-- the loop of `_name_occurs`, with fuel
unfoldable pub search_alone : ℕ → Text → Text → ℕ → Bool
unfolding find hit_or
search_alone zero haystack needle start = false
search_alone (suc fuel) haystack needle start =
    hit_or haystack needle (λ next. search_alone fuel haystack needle next)
      (find needle start haystack)

unfoldable pub name_occurs : Text → Text → Bool
unfolding is_ascii_name search_alone
name_occurs haystack needle =
    if not (is_ascii_name needle)
    then is_in needle haystack
    else if ltb (length needle) min_checked_ascii_name_chars
    then false
    else search_alone (suc (length haystack)) haystack needle 0

abbrev pub equal_text : Text → Text → Bool
equal_text [] [] = true
equal_text (c ∷ s) (d ∷ t) = c == d && equal_text s t
equal_text _ _ = false

-- A name as it was given, and as it is matched.
pub record Name : Type 0 where
  pub original : Text
  pub needle : Text

module _ (u : Unicode) where
  open u use {normalise_for_match, is_space}

  -- the loop of `_normalised_names`; `seen` is in the order of insertion
  collect : List Text → List Name → List Name
  collect [] seen = seen
  collect (name ∷ names) seen =
      let needle = normalise_for_match (strip is_space name) in
      let fresh = not (is_empty needle) && not (any (λ n. equal_text n.needle needle) seen) in
      collect names (
        if fresh
        then seen ++ (record { original = strip is_space name; needle = needle } ∷ [])
        else seen)

  unfoldable pub normalised_names : List Text → List Name
  unfolding collect
  normalised_names names = collect names []

  unfoldable pub checked_names : List Text → List Text
  unfolding normalised_names
  checked_names names =
      map (λ n. n.original)
        (select
          (λ n. not (is_ascii_name n.needle) || leb min_checked_ascii_name_chars (length n.needle))
          (normalised_names names))

  unfoldable pub unchecked_name_list : List Text → List Text
  unfolding normalised_names
  unchecked_name_list names =
      map (λ n. n.original)
        (select (λ n. is_ascii_name n.needle && ltb (length n.needle) min_checked_ascii_name_chars)
          (normalised_names names))

  unfoldable pub unchecked_names : List Text → ℕ
  unfolding unchecked_name_list
  unchecked_names names = length (unchecked_name_list names)

  unfoldable pub name_hits : Text → List Text → List Text
  unfolding normalised_names name_occurs
  name_hits text names =
      map (λ n. n.original)
        (select (λ n. name_occurs (normalise_for_match text) n.needle) (normalised_names names))

  unfoldable pub mentions_target : Text → Text → List Text → Bool
  unfolding name_hits
  mentions_target text user_id names = is_in user_id text || ltb 0 (length (name_hits text names))
