-- ===== src/Conversation/Parts.antt =====
-- What `_without_parts` of src/proactive_agent/agent.py keeps of a conversation.
use mathlib.Core.List.{append-nil, append_assoc}
use proactive_agent.Prelude.{
  ℕ, ◌+◌, ◌≡◌, refl, sym, ap, ◌∙◌, ◌⊎◌, inl, inr, Bool, true, false, not, Option, List, [], ◌∷◌,
  ◌++◌, map, ◌==◌, length, select, length-select-le, Bool-cases, arith,
}
use proactive_agent.Text.{Text}
use proactive_agent.Conversation.{
  RequestPart, ResponsePart, Message, request, response, Walk, Drops, left, merge_request,
  keep_response, walk_step, walk, reversed, start_walk, without_parts,
}

abbrev pub Part : Type 0
Part = RequestPart ⊎ ResponsePart

abbrev pub parts_of : Message → List Part
parts_of (request parts instructions) = map (λ p. inl p) parts
parts_of (response parts name) = map (λ p. inr p) parts

-- All parts of a conversation, in order.
unfoldable pub all_parts : List Message → List Part
all_parts [] = []
all_parts (m ∷ ms) = parts_of m ++ all_parts ms

-- The parts that `drops` does not name, from a message's index on.
unfoldable pub surviving : Drops → ℕ → List Message → List Part
surviving drops index [] = []
surviving drops index (request parts i ∷ ms) =
    map (λ p. inl p) parts ++ surviving drops (index + 1) ms
surviving drops index (response parts name ∷ ms) =
    map (λ p. inr p) (left drops index name parts) ++ surviving drops (index + 1) ms

-- the parts of messages that stand newest first
in_order : List Message → List Part
in_order [] = []
in_order (m ∷ kept) = in_order kept ++ parts_of m

select-length :
    {A : Type 0} (p : A → Bool) (xs : List A) → length (select p xs) ≡ length xs → select p xs ≡ xs
select-length p [] h = refl
select-length p (x ∷ xs) h = elim (Bool-cases (p x)) [
  | inl keep ↦ rw keep (ap (◌∷◌ x) (select-length p xs (ground (arith, h, keep))))
  | inr gone ↦ let le = length-select-le p xs in absurd (ground (arith, h, gone, le))
]

map-append : {A B : Type 0} (f : A → B) (xs ys : List A) → map f (xs ++ ys) ≡ map f xs ++ map f ys
map-append f [] ys = refl
map-append f (x ∷ xs) ys = ap (◌∷◌ (f x)) (map-append f xs ys)

in_order-merge_request :
    (parts : List RequestPart) (i : Option Text) (kept : List Message)
    → in_order (merge_request parts i kept) ≡ in_order kept ++ map (λ p. inl p) parts
unfolding merge_request in_order
in_order-merge_request parts i [] = refl
in_order-merge_request parts i (request earlier old ∷ kept) =
    ap (λ xs. in_order kept ++ xs) (map-append (λ p. inl p) earlier parts)
    ∙ sym (append_assoc (in_order kept) (map (λ p. inl p) earlier) (map (λ p. inl p) parts))
in_order-merge_request parts i (response earlier name ∷ kept) = refl

in_order-keep_response :
    (parts : List ResponsePart) (name : Text) (s : Walk)
    → in_order (keep_response parts name s).kept ≡ in_order s.kept ++ map (λ p. inr p) parts
unfolding keep_response in_order
in_order-keep_response [] name s = sym (append-nil (in_order s.kept))
in_order-keep_response (p ∷ parts) name s = refl

abbrev step_parts : Drops → ℕ → Message → List Part
step_parts drops index (request parts i) = map (λ p. inl p) parts
step_parts drops index (response parts name) = map (λ p. inr p) (left drops index name parts)

in_order-walk_step :
    (drops : Drops) (s : Walk) (m : Message)
    → in_order (walk_step drops s m).kept ≡ in_order s.kept ++ step_parts drops s.index m
unfolding walk_step in_order
in_order-walk_step drops s (request parts i) = elim (Bool-cases s.merge_next) [
  | inl merging ↦ simp merging (in_order-merge_request parts i s.kept)
  | inr apart ↦ simp apart refl
]
in_order-walk_step drops s (response parts name) =
    elim (Bool-cases (length (left drops s.index name parts) == length parts)) [
      | inl whole ↦
          let e = select-length _ parts (ground (arith, whole)) in
          simp whole (ap (λ ps. in_order s.kept ++ map (λ p. inr p) ps) (sym e))
      | inr less ↦ simp less (in_order-keep_response (left drops s.index name parts) name s)
    ]

index-keep_response :
    (parts : List ResponsePart) (name : Text) (s : Walk)
    → (keep_response parts name s).index ≡ s.index + 1
unfolding keep_response
index-keep_response [] name s = refl
index-keep_response (p ∷ parts) name s = refl

index-walk_step :
    (drops : Drops) (s : Walk) (m : Message) → (walk_step drops s m).index ≡ s.index + 1
unfolding walk_step
index-walk_step drops s (request parts i) = refl
index-walk_step drops s (response parts name) =
    ground (arith, index-keep_response (left drops s.index name parts) name s)

surviving-cons :
    (drops : Drops) (index : ℕ) (m : Message) (ms : List Message)
    → surviving drops index (m ∷ ms) ≡ step_parts drops index m ++ surviving drops (index + 1) ms
unfolding surviving
surviving-cons drops index (request parts i) ms = refl
surviving-cons drops index (response parts name) ms = refl

in_order-walk :
    (drops : Drops) (ms : List Message) (s : Walk)
    → in_order (walk drops s ms).kept ≡ in_order s.kept ++ surviving drops s.index ms
unfolding walk surviving
in_order-walk drops [] s = sym (append-nil (in_order s.kept))
in_order-walk drops (m ∷ ms) s =
    in_order-walk drops ms (walk_step drops s m)
    ∙ rw
        (in_order-walk_step drops s m, index-walk_step drops s m, surviving-cons drops s.index m ms)
        (append_assoc (in_order s.kept) (step_parts drops s.index m)
          (surviving drops (s.index + 1) ms))

all_parts-reversed :
    (kept after : List Message) → all_parts (reversed kept after) ≡ in_order kept ++ all_parts after
unfolding all_parts in_order
all_parts-reversed [] after = refl
all_parts-reversed (m ∷ kept) after =
    all_parts-reversed kept (m ∷ after)
    ∙ sym (append_assoc (in_order kept) (parts_of m) (all_parts after))

-- Nothing was dropped so far, so nothing is.
changed-keep_response :
    (parts : List ResponsePart) (name : Text) (s : Walk)
    → (keep_response parts name s).changed ≡ true
unfolding keep_response
changed-keep_response [] name s = refl
changed-keep_response (p ∷ parts) name s = refl

changed-walk_step :
    (drops : Drops) (s : Walk) (m : Message)
    → (walk_step drops s m).changed ≡ false
    → (s.changed ≡ false) × (step_parts drops s.index m ≡ parts_of m)
unfolding walk_step
changed-walk_step drops s (request parts i) h = (h, refl)
changed-walk_step drops s (response parts name) h =
    elim (Bool-cases (length (left drops s.index name parts) == length parts)) [
      | inl whole ↦
          let e =
            select-length (λ part. not (drops s.index name part)) parts (ground (arith, whole)) in
          (ground (arith, h, whole), ap (λ ps. map (λ p. inr p) ps) e)
      | inr less ↦
          let e = changed-keep_response (left drops s.index name parts) name s in
          absurd (ground (arith, h, less, e))
    ]

changed-walk :
    (drops : Drops) (ms : List Message) (s : Walk)
    → (walk drops s ms).changed ≡ false
    → (s.changed ≡ false) × (surviving drops s.index ms ≡ all_parts ms)
unfolding walk surviving all_parts
changed-walk drops [] s h = (h, refl)
changed-walk drops (m ∷ ms) s h =
    let (clean, rest) = changed-walk drops ms (walk_step drops s m) h in
    let (earlier, own) = changed-walk_step drops s m clean in
    (
      earlier,
      surviving-cons drops s.index m ms
          ∙ ap (λ ps. ps ++ surviving drops (s.index + 1) ms) own
          ∙ ap (λ ps. parts_of m ++ ps)
              (ap (λ n. surviving drops n ms) (sym (index-walk_step drops s m)) ∙ rest),
    )

-- The parts of the edited conversation are exactly those that `drops` does not name, in order:
-- dropping emptied responses and merging the requests around them loses nothing else.
pub all_parts-without_parts :
    (drops : Drops) (ms : List Message) → all_parts (without_parts drops ms) ≡ surviving drops 0 ms
unfolding without_parts in_order all_parts surviving
all_parts-without_parts drops ms = elim (Bool-cases (walk drops start_walk ms).changed) [
  | inl edited ↦ simp edited (
      all_parts-reversed (walk drops start_walk ms).kept []
      ∙ append-nil (in_order (walk drops start_walk ms).kept)
      ∙ in_order-walk drops ms start_walk)
  | inr same ↦ simp same (sym (changed-walk drops ms start_walk same).1)
]
