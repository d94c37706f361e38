-- ===== src/Reply/Bounds.antt =====
-- The messages of src/proactive_agent/response_fitting.py fit Discord's limit.
use proactive_agent.Prelude.{
  ℕ, zero, suc, ◌+◌, ◌-◌, ◌≤◌, ◌<◌, ◌≡◌, refl, Bool, false, not, ◌&&◌, Option, none, some, List, [],
  ◌∷◌, leb, ltb, length, take, drop, select, All, length-append, length-take, Bool-cases, inl, inr,
  arith,
}
use proactive_agent.Text.{Text, is_empty, code_at, strip, strip_right}
use proactive_agent.Reply.{
  discord_message_limit, split_target, is_code, rfind, positive_or, split_at, shortened, split_long,
  split_for_discord,
}

-- A message that Discord takes: not empty, and within its limit.
abbrev pub IsMessage : Text → Type 0
IsMessage part = (is_empty part ≡ false) × (length part ≤ discord_message_limit)

data IsBelow (high : ℕ) : Option ℕ → Type 0 where
  nowhere : IsBelow high none
  below : {n : ℕ} → n < high → IsBelow high (some n)

rfind-IsBelow : (c low high : ℕ) (text : Text) → IsBelow high (rfind c low high text)
unfolding rfind
rfind-IsBelow c low zero text = nowhere
rfind-IsBelow c low (suc high) text =
    elim (Bool-cases (leb low high && is_code c (code_at high text))) [
      | inl here ↦ rw here (below (omega arith))
      | inr elsewhere ↦ rw elsewhere (lower _ (rfind-IsBelow c low high text))
    ]
  where
    lower : (o : Option ℕ) → IsBelow high o → IsBelow (suc high) o
    lower o nowhere = nowhere
    lower o (below lt) = below (omega (arith, lt))

positive_or-le :
    (o : Option ℕ) (n : ℕ)
    → IsBelow (split_target + 1) o
    → n ≤ split_target
    → positive_or o n ≤ split_target
unfolding positive_or
positive_or-le o n nowhere le = le
positive_or-le (some zero) n (below lt) le = le
positive_or-le (some (suc k)) n (below lt) le = omega (arith, lt)

split_at-le : (stripped : Text) → split_at stripped ≤ split_target
unfolding split_at
split_at-le stripped =
    let low = length stripped - discord_message_limit in
    let at_space =
      positive_or-le (rfind 32 low (split_target + 1) stripped) split_target
        (rfind-IsBelow 32 low (split_target + 1) stripped) (omega arith) in
    positive_or-le (rfind 10 low (split_target + 1) stripped)
      (positive_or (rfind 32 low (split_target + 1) stripped) split_target)
      (rfind-IsBelow 10 low (split_target + 1) stripped) at_space

length-strip_right :
    (is_space : ℕ → Bool) (text : Text) → length (strip_right is_space text) ≤ length text
length-strip_right is_space [] = omega arith
length-strip_right is_space (c ∷ text) =
    elim (Bool-cases (is_empty (strip_right is_space text) && is_space c)) [
      | inl blank ↦ rw blank (omega arith)
      | inr shown ↦ rw shown (let le = length-strip_right is_space text in omega (arith, le))
    ]

shortened-le : (tail : Text) → length (shortened tail) ≤ discord_message_limit
unfolding shortened
shortened-le tail = elim (Bool-cases (ltb discord_message_limit (length tail))) [
  | inr short ↦ rw short (ground (arith, short))
  | inl long ↦
      let e = length-append (take (discord_message_limit - 1) tail) (8230 ∷ []) in
      let f = length-take (discord_message_limit - 1) tail in rw long (omega (arith, e, f))
]

select-IsMessage :
    (parts : List Text)
    → All (λ part. length part ≤ discord_message_limit) parts
    → All IsMessage (select (λ part. not (is_empty part)) parts)
select-IsMessage [] h = tt
select-IsMessage ([] ∷ parts) (le, h) = select-IsMessage parts h
select-IsMessage ((c ∷ text) ∷ parts) (le, h) = ((refl, le), select-IsMessage parts h)

length-select_two : (x y : Text) → length (select (λ part. not (is_empty part)) (x ∷ y ∷ [])) ≤ 2
length-select_two [] [] = omega arith
length-select_two [] (d ∷ y) = omega arith
length-select_two (c ∷ x) [] = omega arith
length-select_two (c ∷ x) (d ∷ y) = omega arith

length-select_one : (x : Text) → length (select (λ part. not (is_empty part)) (x ∷ [])) ≤ 2
length-select_one [] = omega arith
length-select_one (c ∷ x) = omega arith

two_messages :
    (x y : Text)
    → length x ≤ discord_message_limit
    → length y ≤ discord_message_limit
    → All IsMessage (select (λ part. not (is_empty part)) (x ∷ y ∷ []))
      × (length (select (λ part. not (is_empty part)) (x ∷ y ∷ [])) ≤ 2)
two_messages x y le_x le_y =
    (select-IsMessage (x ∷ y ∷ []) (le_x, (le_y, tt)), length-select_two x y)

head-le :
    (is_space : ℕ → Bool) (stripped : Text)
    → length (strip_right is_space (take (split_at stripped) stripped)) ≤ discord_message_limit
head-le is_space stripped =
    let a = length-strip_right is_space (take (split_at stripped) stripped) in
    let b = length-take (split_at stripped) stripped in
    let c = split_at-le stripped in omega (arith, a, b, c)

-- A reply becomes at most two messages, none of which is empty or longer than 2000 characters.
pub split_for_discord-bounds :
    (is_space : ℕ → Bool) (text : Text)
    → All IsMessage (split_for_discord is_space text)
      × (length (split_for_discord is_space text) ≤ 2)
unfolding split_for_discord split_long
split_for_discord-bounds is_space text =
    let stripped = strip is_space text in
    elim (Bool-cases (leb (length stripped) discord_message_limit)) [
      | inl fits ↦
          rw fits (
            select-IsMessage (stripped ∷ []) (ground (arith, fits), tt),
            length-select_one stripped,
          )
      | inr long ↦ rw long (
          two_messages (strip_right is_space (take (split_at stripped) stripped))
            (shortened (strip is_space (drop (split_at stripped) stripped)))
            (head-le is_space stripped)
            (shortened-le (strip is_space (drop (split_at stripped) stripped))))
    ]
