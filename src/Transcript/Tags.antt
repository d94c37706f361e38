-- ===== src/Transcript/Tags.antt =====
-- Speaker tags of src/proactive_agent/transcript.py are read back, and tell authors apart.
use proactive_agent.Prelude.{
  ℕ, zero, suc, ◌+◌, ◌-◌, ◌*◌, ◌/◌, ◌%◌, ◌≤◌, ◌<◌, ◌≡◌, refl, sym, ap, ◌∙◌, true, false, Option,
  none, some, List, [], ◌∷◌, ◌==◌, length, Bool-cases, inl, inr, arith,
}
use proactive_agent.Text.{Text}
use proactive_agent.Transcript.{
  Record, tag_letters, letter_tag, tag_of, add_tag, tag_all, speaker_tags,
}

-- The number that a tag writes, with the digits A to Z for 1 to 26.
unfoldable pub tag_value : ℕ → Text → ℕ
tag_value n [] = n
tag_value n (letter ∷ letters) = tag_value (n * 26 + (letter - 65) + 1) letters

last_digit : (n : ℕ) → (n == 0) ≡ false → (n - 1) / 26 * 26 + (65 + (n - 1) % 26 - 65) + 1 ≡ n
last_digit n h = ground arith

tag_value-tag_letters :
    (fuel n : ℕ) (letters : Text)
    → n ≤ fuel
    → tag_value 0 (tag_letters fuel n letters) ≡ tag_value n letters
unfolding tag_letters tag_value
tag_value-tag_letters zero n letters le =
    let e : 0 ≡ n = omega (arith, le) in ap (λ k. tag_value k letters) e
tag_value-tag_letters (suc fuel) n letters le = elim (Bool-cases (n == 0)) [
  | inl none_left ↦ let e : 0 ≡ n = ground arith in rw none_left (ap (λ k. tag_value k letters) e)
  | inr more ↦ rw more (
      tag_value-tag_letters fuel ((n - 1) / 26) ((65 + (n - 1) % 26) ∷ letters) (smaller more)
      ∙ ap (λ k. tag_value k letters) (last_digit n more))
]
  where
    smaller : (n == 0) ≡ false → (n - 1) / 26 ≤ fuel
    smaller more = ground (arith, le)

-- A tag's letters give its index back.
pub tag_value-letter_tag : (index : ℕ) → tag_value 0 (letter_tag index) ≡ index + 1
unfolding letter_tag tag_value
tag_value-letter_tag index =
    tag_value-tag_letters (index + 1) (index + 1) [] (omega arith) ∙ one_digit
  where
    one_digit : tag_value (index + 1) [] ≡ index + 1
    one_digit = refl

-- Each tag is that of its place.
IsNumbered : List (ℕ × Text) → Type 0
IsNumbered [] = Unit
IsNumbered ((author, tag) ∷ tags) = (tag ≡ letter_tag (length tags)) × IsNumbered tags

add_tag-IsNumbered :
    (author : ℕ) (o : Option Text) (tags : List (ℕ × Text))
    → IsNumbered tags
    → IsNumbered (add_tag author o tags)
unfolding add_tag IsNumbered
add_tag-IsNumbered author (some tag) tags h = h
add_tag-IsNumbered author none tags h = (refl, h)

tag_all-IsNumbered :
    (records : List Record) (tags : List (ℕ × Text))
    → IsNumbered tags
    → IsNumbered (tag_all records tags)
unfolding tag_all
tag_all-IsNumbered [] tags h = h
tag_all-IsNumbered (x ∷ records) tags h = elim (Bool-cases x.is_blocked) [
  | inl hidden ↦ simp hidden (tag_all-IsNumbered records tags h)
  | inr shown ↦ simp shown (tag_all-IsNumbered records _ (add_tag-IsNumbered x.author_id _ tags h))
]

-- An author's tag is the letter of a place in the list.
tag_of-place :
    (author : ℕ) (tag : Text) (tags : List (ℕ × Text))
    → IsNumbered tags
    → tag_of author tags ≡ some tag
    → (place : ℕ) × (place < length tags) × (tag ≡ letter_tag place)
unfolding IsNumbered
tag_of-place author tag [] h e = absurd cc
tag_of-place author tag ((other, own) ∷ tags) (numbered, h) e =
    elim (Bool-cases (other == author)) [
      | inl here ↦ (length tags, omega arith, sym (own_tag here) ∙ numbered)
      | inr further ↦
          let (place, lt, f) = tag_of-place author tag tags h (ground (arith, further, e)) in
          (place, omega (arith, lt), f)
    ]
  where
    own_tag : (other == author) ≡ true → own ≡ tag
    own_tag here = ground (arith, here, e)

same_place : (i j : ℕ) → letter_tag i ≡ letter_tag j → i ≡ j
same_place i j e =
    let f = sym (tag_value-letter_tag i) ∙ ap (tag_value 0) e ∙ tag_value-letter_tag j in
    omega (arith, f)

-- The author at the head shares no tag with one further down.
no_clash :
    (author : ℕ) (tag own : Text) (tags : List (ℕ × Text))
    → own ≡ letter_tag (length tags)
    → IsNumbered tags
    → own ≡ tag
    → tag_of author tags ≡ some tag
    → ⊥
no_clash author tag own tags numbered h own_tag later =
    let (place, lt, g) = tag_of-place author tag tags h later in
    let k = same_place (length tags) place (sym numbered ∙ own_tag ∙ g) in omega (arith, lt, k)

tag_of-distinct :
    (a b : ℕ) (tag : Text) (tags : List (ℕ × Text))
    → IsNumbered tags
    → tag_of a tags ≡ some tag
    → tag_of b tags ≡ some tag
    → a ≡ b
unfolding IsNumbered
tag_of-distinct a b tag [] h e f = absurd cc
tag_of-distinct a b tag ((other, own) ∷ tags) (numbered, h) e f = elim (Bool-cases (other == a)) [
  | inl is_a ↦ elim (Bool-cases (other == b)) [
    | inl is_b ↦ ground (arith, is_a, is_b)
    | inr not_b ↦
        absurd
          (no_clash b tag own tags numbered h (ground (arith, is_a, e)) (ground (arith, not_b, f)))
  ]
  | inr not_a ↦ elim (Bool-cases (other == b)) [
    | inl is_b ↦
        absurd
          (no_clash a tag own tags numbered h (ground (arith, is_b, f)) (ground (arith, not_a, e)))
    | inr not_b ↦
        tag_of-distinct a b tag tags h (ground (arith, not_a, e)) (ground (arith, not_b, f))
  ]
]

-- Two authors never have the same tag.
pub speaker_tags-distinct :
    (records : List Record) (a b : ℕ) (tag : Text)
    → tag_of a (speaker_tags records) ≡ some tag
    → tag_of b (speaker_tags records) ≡ some tag
    → a ≡ b
unfolding speaker_tags IsNumbered
speaker_tags-distinct records a b tag =
    tag_of-distinct a b tag (tag_all records []) (tag_all-IsNumbered records [] tt)
