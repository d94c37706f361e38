-- ===== src/Names/Found.antt =====
-- Where `str.find` finds a needle, in the matcher of src/proactive_agent/agent.py.
use proactive_agent.Prelude.{
  ℕ, zero, suc, ◌+◌, ◌-◌, ◌≤◌, ◌<◌, ◌≡◌, refl, sym, ap, ◌∙◌, ◌⊎◌, inl, inr, Bool, true, false,
  Option, none, some, [], ◌∷◌, leb, ltb, ◌==◌, length, drop, Bool-cases, arith,
}
use proactive_agent.Text.{Text, is_empty, starts_with}
use proactive_agent.Names.{scan, find}

-- The needle stands at an index.
abbrev pub IsAt : Text → Text → ℕ → Type 0
IsAt haystack needle index = starts_with needle (drop index haystack) ≡ true

abbrev pub IsNotAt : Text → Text → ℕ → Type 0
IsNotAt haystack needle index = starts_with needle (drop index haystack) ≡ false

starts_with-nil : (needle : Text) → starts_with needle [] ≡ is_empty needle
starts_with-nil [] = refl
starts_with-nil (c ∷ needle) = refl

abbrev pub no_text : Text
no_text = []

pub drop-nil : (n : ℕ) → drop n no_text ≡ no_text
drop-nil zero = refl
drop-nil (suc n) = refl

drop-drop : (n m : ℕ) (text : Text) → drop n (drop m text) ≡ drop (m + n) text
drop-drop n zero text = let e : n ≡ 0 + n = omega arith in ap (λ k. drop k text) e
drop-drop n (suc m) [] = drop-nil n ∙ sym (drop-nil (suc m + n))
drop-drop n (suc m) (c ∷ text) =
    let e : suc (m + n) ≡ suc m + n = omega arith in
    drop-drop n m text ∙ ap (λ k. drop k (c ∷ text)) e

pub compared : (m n : ℕ) → (m < n) ⊎ ((m ≡ n) ⊎ (n < m))
compared m n = elim (Bool-cases (ltb m n)) [
  | inl lt ↦ inl (ground arith)
  | inr ge ↦ elim (Bool-cases (m == n)) [
    | inl e ↦ inr (inl (ground arith))
    | inr other ↦ inr (inr (ground arith))
  ]
]

pub at-length :
    (needle : Text) (index : ℕ) (haystack : Text)
    → 0 < length needle
    → IsAt haystack needle index
    → index < length haystack
at-length (c ∷ needle) index [] h at = let e = drop-nil index in absurd (ground (arith, e, at))
at-length needle zero (d ∷ haystack) h at = omega arith
at-length needle (suc index) (d ∷ haystack) h at =
    omega (arith, at-length needle index haystack h at)
at-length [] index haystack h at = absurd (omega (arith, h))

-- The first index from `start` on at which the needle stands in the text that starts there.
data IsScan (needle text : Text) (start : ℕ) : Option ℕ → Type 0 where
  found :
      (k index : ℕ)
      → index ≡ start + k
      → IsAt text needle k
      → ((j : ℕ) → j < k → IsNotAt text needle j)
      → IsScan needle text start (some index)
  missing : ((j : ℕ) → IsNotAt text needle j) → IsScan needle text start none

past : (P : ℕ → Type 0) → P 0 → ((j : ℕ) → P (suc j)) → (j : ℕ) → P j
past P zero_case step zero = zero_case
past P zero_case step (suc j) = step j

IsScan-later :
    (needle : Text) (c : ℕ) (text : Text) (start : ℕ)
    → IsNotAt (c ∷ text) needle 0
    → (o : Option ℕ) → IsScan needle text (start + 1) o
    → IsScan needle (c ∷ text) start o
IsScan-later needle c text start h o (found k index e at quiet) =
    found (suc k) index (omega (arith, e)) at (
      past (λ j. j < suc k → IsNotAt (c ∷ text) needle j) (λ lt. h)
        (λ j lt. quiet j (omega (arith, lt))))
IsScan-later needle c text start h o (missing quiet) =
    missing (past (λ j. IsNotAt (c ∷ text) needle j) h quiet)

scan-IsScan :
    (needle : Text) (start : ℕ) (text : Text) → IsScan needle text start (scan needle start text)
unfolding scan
scan-IsScan needle start [] = elim (Bool-cases (is_empty needle)) [
  | inl empty ↦ rw empty (
      found 0 start (omega arith) (starts_with-nil needle ∙ empty)
        (λ j lt. absurd (omega (arith, lt))))
  | inr some_char ↦
      rw some_char (missing (λ j. rw (drop-nil j) (starts_with-nil needle ∙ some_char)))
]
scan-IsScan needle start (c ∷ text) = elim (Bool-cases (starts_with needle (c ∷ text))) [
  | inl here ↦ rw here (found 0 start (omega arith) here (λ j lt. absurd (omega (arith, lt))))
  | inr not_here ↦
      rw not_here
        (IsScan-later needle c text start not_here _ (scan-IsScan needle (start + 1) text))
]

-- The first index at or after `start` at which the needle stands.
pub data IsFound (haystack needle : Text) (start : ℕ) : Option ℕ → Type 0 where
  found :
      (index : ℕ)
      → start ≤ index
      → IsAt haystack needle index
      → ((j : ℕ) → start ≤ j → j < index → IsNotAt haystack needle j)
      → IsFound haystack needle start (some index)
  missing : ((j : ℕ) → start ≤ j → IsNotAt haystack needle j) → IsFound haystack needle start none

shifted :
    (haystack needle : Text) (start j : ℕ) {b : Bool}
    → start ≤ j
    → starts_with needle (drop (j - start) (drop start haystack)) ≡ b
    → starts_with needle (drop j haystack) ≡ b
shifted haystack needle start j le h =
    let e : start + (j - start) ≡ j = omega (arith, le) in
    ap (λ n. starts_with needle (drop n haystack)) (sym e)
    ∙ ap (starts_with needle) (sym (drop-drop (j - start) start haystack))
    ∙ h

pub find-IsFound :
    (haystack needle : Text) (start : ℕ)
    → 0 < length needle
    → IsFound haystack needle start (find needle start haystack)
unfolding find
find-IsFound haystack needle start some_char = elim (Bool-cases (leb start (length haystack))) [
  | inl inside ↦ rw inside (from_scan _ (scan-IsScan needle start (drop start haystack)))
  | inr outside ↦ rw outside (missing (λ j le. beyond j le (ground (arith, outside)) _ refl))
]
  where
    from_scan :
        (o : Option ℕ)
        → IsScan needle (drop start haystack) start o
        → IsFound haystack needle start o
    from_scan o (found k index e at quiet) =
        let k_is : k ≡ index - start = omega (arith, e) in
        found index (omega (arith, e))
          (shifted haystack needle start index (omega (arith, e)) (rw (sym k_is) at))
          (λ j le lt.
            shifted haystack needle start j le (quiet (j - start) (omega (arith, e, le, lt))))
    from_scan o (missing quiet) =
        missing (λ j le. shifted haystack needle start j le (quiet (j - start)))

    beyond :
        (j : ℕ)
        → start ≤ j
        → length haystack < start
        → (b : Bool) → starts_with needle (drop j haystack) ≡ b
        → IsNotAt haystack needle j
    beyond j le lt true at =
        absurd (omega (arith, le, lt, at-length needle j haystack some_char at))
    beyond j le lt false not_at = not_at
