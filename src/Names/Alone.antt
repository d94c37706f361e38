-- ===== src/Names/Alone.antt =====
-- The characters that the matcher of src/proactive_agent/agent.py tells apart, by their code points.
use proactive_agent.Prelude.{
  ℕ, zero, suc, ◌+◌, ◌-◌, ◌<◌, ◌≡◌, ◌↔◌, refl, ap, ◌∙◌, Bool, true, false, ◌&&◌, ◌||◌, Option, none,
  some, [], ◌∷◌, ◌++◌, leb, ltb, ◌==◌, all, length, Bool-cases, inl, inr, arith,
}
use proactive_agent.Text.{Text, code_at}
use proactive_agent.Names.{
  ascii_letters, ascii_name_chars, member, is_ascii_name, letter_at, stands_alone,
}

-- `a` to `z`
abbrev pub is_letter : ℕ → Bool
is_letter c = leb 97 c && leb c 122

-- a letter, a digit, an underscore or a space
abbrev pub is_name_char : ℕ → Bool
is_name_char c = is_letter c || leb 48 c && leb c 57 || c == 95 || c == 32

-- No letter stands right before or right after the place.
pub record IsUntouched (haystack needle : Text) (index : ℕ) : Type 0 where
  pub before : (c : ℕ) → 0 < index → code_at (index - 1) haystack ≡ some c → is_letter c ≡ false
  pub after : (c : ℕ) → code_at (index + length needle) haystack ≡ some c → is_letter c ≡ false

range : ℕ → ℕ → Text
range low zero = []
range low (suc n) = low ∷ range (suc low) n

member-range : (c low n : ℕ) → member c (range low n) ≡ (leb low c && ltb c (low + n))
unfolding range
member-range c low zero = ground arith
member-range c low (suc n) = ground (arith, member-range c (suc low) n)

member-append : (c : ℕ) (s t : Text) → member c (s ++ t) ≡ (member c s || member c t)
member-append c [] t = refl
member-append c (d ∷ s) t = ground (arith, member-append c s t)

member-letters : (c : ℕ) → member c ascii_letters ≡ is_letter c
unfolding range
member-letters c =
    let e : member c ascii_letters ≡ member c (range 97 26) = refl in
    e ∙ member-range c 97 26 ∙ ground arith

member-name_chars : (c : ℕ) → member c ascii_name_chars ≡ is_name_char c
unfolding range
member-name_chars c =
    let e : member c ascii_name_chars ≡ member c (range 97 26 ++ (range 48 10 ++ (95 ∷ 32 ∷ []))) =
      refl in
    let split = member-append c (range 97 26) (range 48 10 ++ (95 ∷ 32 ∷ [])) in
    let split2 = member-append c (range 48 10) (95 ∷ 32 ∷ []) in
    let letters = member-range c 97 26 in
    let digits = member-range c 48 10 in e ∙ split ∙ rw (split2, letters, digits) (ground arith)

-- A name's letters, digits, underscores and spaces are told by their ranges.
pub all-is_ascii_name : (needle : Text) → is_ascii_name needle ≡ all is_name_char needle
unfolding is_ascii_name
all-is_ascii_name [] = refl
all-is_ascii_name (c ∷ needle) =
    let rest = all-is_ascii_name needle in rw (member-name_chars c, rest) refl

letter_at-some :
    (index c : ℕ) (haystack : Text)
    → code_at index haystack ≡ some c
    → letter_at index haystack ≡ is_letter c
unfolding letter_at
letter_at-some index c haystack h = ground (arith, h, member-letters c)

letter_at-false :
    (index : ℕ) (haystack : Text)
    → ((c : ℕ) → code_at index haystack ≡ some c → is_letter c ≡ false)
    → letter_at index haystack ≡ false
unfolding letter_at
letter_at-false index haystack h = by_code (code_at index haystack) h
  where
    by_code :
        (o : Option ℕ)
        → ((c : ℕ) → o ≡ some c → is_letter c ≡ false)
        → elim o [ none ↦ false | some c ↦ member c ascii_letters ] ≡ false
    by_code none h = refl
    by_code (some c) h = member-letters c ∙ h c refl

code_at-length : (haystack : Text) → code_at (length haystack) haystack ≡ none
code_at-length [] = refl
code_at-length (c ∷ haystack) = code_at-length haystack

-- A place stands alone exactly when no letter touches it.
pub stands_alone-IsUntouched :
    (haystack needle : Text) (index : ℕ)
    → (stands_alone haystack needle index ≡ true) ↔ IsUntouched haystack needle index
unfolding stands_alone
stands_alone-IsUntouched haystack needle index = (sound, complete)
  where
    sound : stands_alone haystack needle index ≡ true → IsUntouched haystack needle index
    sound h = record {
      before = λ c later at.
          let e = letter_at-some (index - 1) c haystack at in ground (arith, h, later, e);
      after = λ c at.
          let e = letter_at-some (index + length needle) c haystack at in
          elim (Bool-cases (index + length needle == length haystack)) [
            | inl last ↦
                let same_end : index + length needle ≡ length haystack = ground (arith, last) in
                let no_code = ap (λ n. code_at n haystack) same_end ∙ code_at-length haystack in
                absurd (ground (arith, no_code, at))
            | inr more ↦ ground (arith, h, more, e)
          ];
    }

    complete : IsUntouched haystack needle index → stands_alone haystack needle index ≡ true
    complete u =
        let last = letter_at-false (index + length needle) haystack u.after in
        elim (Bool-cases (index == 0)) [
          | inl first ↦ ground (arith, first, last)
          | inr later ↦
              let some_before : 0 < index = ground (arith, later) in
              let earlier =
                letter_at-false (index - 1) haystack (λ c at. u.before c some_before at) in
              ground (arith, later, last, earlier)
        ]
