-- ===== src/Names/Occurs.antt =====
-- Where the matcher of src/proactive_agent/agent.py finds a name.
use proactive_agent.Prelude.{
  ℕ, zero, suc, ◌+◌, ◌≤◌, ◌<◌, ◌≡◌, refl, sym, ap, ◌∙◌, ◌↔◌, ◌⊎◌, inl, inr, Bool, true, false,
  Option, [], ◌∷◌, ltb, all, length, Bool-cases, arith,
}
use proactive_agent.Text.{Text, starts_with, is_in}
use proactive_agent.Names.{is_ascii_name, stands_alone, hit_or, search_alone, name_occurs}
use proactive_agent.Names.Alone.{
  is_name_char, IsUntouched, all-is_ascii_name, stands_alone-IsUntouched,
}
use proactive_agent.Names.Found.{
  IsAt, drop-nil, at-length, IsFound, found, missing, find-IsFound, compared,
}

-- A name of ASCII letters, digits, underscores and spaces, of two characters at least, occurs where
-- no letter touches it; any other name occurs as a substring.
pub data Occurs (haystack needle : Text) : Type 0 where
  whole :
      (index : ℕ)
      → all is_name_char needle ≡ true
      → 2 ≤ length needle
      → IsAt haystack needle index
      → IsUntouched haystack needle index
      → Occurs haystack needle
  within :
      (index : ℕ)
      → all is_name_char needle ≡ false
      → IsAt haystack needle index
      → Occurs haystack needle

-- The needle stands alone somewhere.
abbrev Alone : Text → Text → Type 0
Alone haystack needle =
    (index : ℕ) × IsAt haystack needle index × (stands_alone haystack needle index ≡ true)

-- Whatever the loop says, it says truly.
hit_or_sound :
    (haystack needle : Text) (again : ℕ → Bool)
    → ((next : ℕ) → again next ≡ true → Alone haystack needle)
    → (start : ℕ) (o : Option ℕ) → IsFound haystack needle start o
    → hit_or haystack needle again o ≡ true
    → Alone haystack needle
unfolding hit_or
hit_or_sound haystack needle again sound start o (missing quiet) h = absurd cc
hit_or_sound haystack needle again sound start o (found index le at quiet) h =
    elim (Bool-cases (stands_alone haystack needle index)) [
      | inl alone ↦ (index, at, alone)
      | inr touched ↦ sound (index + 1) (ground (arith, touched, h))
    ]

search_alone_sound :
    (haystack needle : Text)
    → 0 < length needle
    → (fuel start : ℕ) → search_alone fuel haystack needle start ≡ true
    → Alone haystack needle
unfolding search_alone
search_alone_sound haystack needle some_char zero start h = absurd cc
search_alone_sound haystack needle some_char (suc fuel) start h =
    hit_or_sound haystack needle _ (search_alone_sound haystack needle some_char fuel) start _
      (find-IsFound haystack needle start some_char) h

true-false : {b : Bool} → b ≡ true → b ≡ false → ⊥
true-false {b} h k = let e : true ≡ false = sym h ∙ k in cc

-- With enough fuel the loop misses nothing.
hit_or_complete :
    (haystack needle : Text) (again : ℕ → Bool) (start index : ℕ)
    → start ≤ index
    → IsAt haystack needle index
    → stands_alone haystack needle index ≡ true
    → ((next : ℕ) → start < next → next ≤ index → again next ≡ true)
    → (o : Option ℕ) → IsFound haystack needle start o
    → hit_or haystack needle again o ≡ true
unfolding hit_or
hit_or_complete haystack needle again start index le at alone complete o (missing quiet) =
    let q = quiet index le in absurd cc
hit_or_complete haystack needle again start index le at alone complete o
      (found first low at_first quiet) =
    elim (Bool-cases (stands_alone haystack needle first)) [
      | inl first_alone ↦ rw first_alone refl
      | inr touched ↦
          rw touched (complete (first + 1) (omega arith) (below touched (compared index first)))
    ]
  where
    below :
        stands_alone haystack needle first ≡ false
        → (index < first) ⊎ ((index ≡ first) ⊎ (first < index))
        → first + 1 ≤ index
    below touched (inl lt) = absurd (true-false (at) (quiet index le lt))
    below touched (inr (inl e)) =
        absurd (true-false alone (ap (stands_alone haystack needle) e ∙ touched))
    below touched (inr (inr gt)) = omega (arith, gt)

search_alone_complete :
    (haystack needle : Text) (index : ℕ)
    → 0 < length needle
    → IsAt haystack needle index
    → stands_alone haystack needle index ≡ true
    → (fuel start : ℕ) → start ≤ index
    → length haystack < start + fuel
    → search_alone fuel haystack needle start ≡ true
unfolding search_alone
search_alone_complete haystack needle index some_char at alone zero start le enough =
    absurd (omega (arith, at-length needle index haystack some_char at, le, enough))
search_alone_complete haystack needle index some_char at alone (suc fuel) start le enough =
    hit_or_complete haystack needle _ start index le at alone
      (λ next lt le'.
        search_alone_complete haystack needle index some_char at alone fuel next le'
          (omega (arith, enough, lt)))
      _ (find-IsFound haystack needle start some_char)

is_in-IsAt :
    (needle haystack : Text)
    → is_in needle haystack ≡ true
    → (index : ℕ) × IsAt haystack needle index
is_in-IsAt needle [] h = (0, h)
is_in-IsAt needle (c ∷ haystack) h = elim (Bool-cases (starts_with needle (c ∷ haystack))) [
  | inl here ↦ (0, here)
  | inr not_here ↦
      let (index, at) = is_in-IsAt needle haystack (ground (arith, not_here, h)) in (suc index, at)
]

IsAt-is_in :
    (needle : Text) (index : ℕ) (haystack : Text)
    → IsAt haystack needle index
    → is_in needle haystack ≡ true
IsAt-is_in needle index [] at = ap (starts_with needle) (sym (drop-nil index)) ∙ at
IsAt-is_in needle zero (c ∷ haystack) at = rw at refl
IsAt-is_in needle (suc index) (c ∷ haystack) at =
    let rest = IsAt-is_in needle index haystack at in ground (arith, rest)

-- The matcher finds a name exactly where it should: a name of at least two ASCII letters, digits,
-- underscores and spaces where no ASCII letter touches it, any other name as a substring; a shorter
-- ASCII name is never found.
pub name_occurs-Occurs :
    (haystack needle : Text) → (name_occurs haystack needle ≡ true) ↔ Occurs haystack needle
unfolding name_occurs
name_occurs-Occurs haystack needle = (sound, complete)
  where
    sound : name_occurs haystack needle ≡ true → Occurs haystack needle
    sound h = elim (Bool-cases (is_ascii_name needle)) [
      | inr other ↦
          let (index, at) = is_in-IsAt needle haystack (ground (arith, other, h)) in
          within index (sym (all-is_ascii_name needle) ∙ other) at
      | inl ascii ↦ elim (Bool-cases (ltb (length needle) 2)) [
        | inl short ↦ absurd (ground (arith, ascii, short, h))
        | inr long ↦
            let (index, at, alone) =
              search_alone_sound haystack needle (ground arith) (suc (length haystack)) 0
                (ground (arith, ascii, long, h)) in
            whole index (sym (all-is_ascii_name needle) ∙ ascii) (ground arith) at
              ((stands_alone-IsUntouched haystack needle index).0 alone)
      ]
    ]

    complete : Occurs haystack needle → name_occurs haystack needle ≡ true
    complete (within index other at) =
        rw (all-is_ascii_name needle ∙ other) (IsAt-is_in needle index haystack at)
    complete (whole index named long at untouched) =
        let ascii = all-is_ascii_name needle ∙ named in
        let alone = (stands_alone-IsUntouched haystack needle index).1 untouched in
        let not_short : ltb (length needle) 2 ≡ false = ground arith in
        simp (ascii, not_short)
          (search_alone_complete haystack needle index (omega (arith, long)) at alone
            (suc (length haystack)) 0 (omega arith) (omega arith))
