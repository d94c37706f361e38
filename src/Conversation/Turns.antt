-- ===== src/Conversation/Turns.antt =====
-- `_without_parts` of src/proactive_agent/agent.py leaves no two requests in a row.
use proactive_agent.Prelude.{
  ◌≡◌, refl, Bool, true, false, ◌==◌, Option, List, [], ◌∷◌, length, Bool-cases, inl, inr,
}
use proactive_agent.Text.{Text}
use proactive_agent.Conversation.{
  RequestPart, ResponsePart, Message, request, response, is_request, ends_in_request, Walk, Drops,
  left, merge_request, keep_response, walk_step, walk, reversed, start_walk, without_parts,
}

-- No two requests stand next to each other.
unfoldable pub IsAlternating : List Message → Type 0
IsAlternating [] = Unit
IsAlternating (m ∷ ms) = (is_request m ≡ true → ends_in_request ms ≡ false) × IsAlternating ms

-- What was kept alternates, and a request that comes next joins a request before it.
record IsJoining (s : Walk) (ms : List Message) : Type 0 where
  alternates : IsAlternating s.kept
  joins : ends_in_request s.kept ≡ true → ends_in_request ms ≡ true → s.merge_next ≡ true

not_both : (a b : Bool) → b ≡ false → (a ≡ true → b ≡ true) → a ≡ false
not_both false b h k = refl
not_both true b h k = let e = k refl in cc

swapped : (a b : Bool) → b ≡ true → (a ≡ true → b ≡ false) → a ≡ false
swapped false b h k = refl
swapped true b h k = let e = k refl in cc

merge_request-IsAlternating :
    (parts : List RequestPart) (i : Option Text) (kept : List Message)
    → IsAlternating kept
    → IsAlternating (merge_request parts i kept)
      × (ends_in_request (merge_request parts i kept) ≡ true)
unfolding merge_request IsAlternating
merge_request-IsAlternating parts i [] h = (((λ e. refl), tt), refl)
merge_request-IsAlternating parts i (request earlier old ∷ kept) h = (h, refl)
merge_request-IsAlternating parts i (response earlier name ∷ kept) h = (((λ e. refl), h), refl)

keep_response-IsJoining :
    (parts : List ResponsePart) (name : Text) (s : Walk) (ms : List Message)
    → IsAlternating s.kept
    → IsJoining (keep_response parts name s) ms
unfolding keep_response IsAlternating
keep_response-IsJoining [] name s ms h = record { alternates = h; joins = λ e f. e }
keep_response-IsJoining (p ∷ parts) name s ms h = record {
  alternates = ((λ e. cc), h);
  joins = λ e f. cc;
}

walk_step-IsJoining :
    (drops : Drops) (s : Walk) (m : Message) (ms : List Message)
    → IsAlternating (m ∷ ms)
    → IsJoining s (m ∷ ms)
    → IsJoining (walk_step drops s m) ms
unfolding walk_step IsAlternating
walk_step-IsJoining drops s (request parts i) ms (apart, h) j = elim (Bool-cases s.merge_next) [
  | inl merging ↦
      let (a, e) = merge_request-IsAlternating parts i s.kept j.alternates in
      record { alternates = simp merging a; joins = λ x y. let z = apart refl in cc }
  | inr not_merging ↦ record {
    alternates = simp not_merging (
      (λ e. not_both (ends_in_request s.kept) s.merge_next not_merging (λ f. j.joins f refl)),
      j.alternates,
    );
    joins = λ x y. let z = apart refl in cc;
  }
]
walk_step-IsJoining drops s (response parts name) ms (apart, h) j =
    elim (Bool-cases (length (left drops s.index name parts) == length parts)) [
      | inl whole ↦ simp whole record { alternates = ((λ e. cc), j.alternates); joins = λ x y. cc }
      | inr less ↦
          simp less (keep_response-IsJoining (left drops s.index name parts) name s ms j.alternates)
    ]

walk-IsAlternating :
    (drops : Drops) (ms : List Message) (s : Walk)
    → IsAlternating ms
    → IsJoining s ms
    → IsAlternating (walk drops s ms).kept
unfolding walk IsAlternating
walk-IsAlternating drops [] s h j = j.alternates
walk-IsAlternating drops (m ∷ ms) s h j =
    walk-IsAlternating drops ms (walk_step drops s m) h.1 (walk_step-IsJoining drops s m ms h j)

reversed-IsAlternating :
    (kept after : List Message)
    → IsAlternating kept
    → IsAlternating after
    → (ends_in_request kept ≡ true → ends_in_request after ≡ false)
    → IsAlternating (reversed kept after)
unfolding IsAlternating
reversed-IsAlternating [] after h k apart = k
reversed-IsAlternating (m ∷ kept) after (first, h) k apart =
    reversed-IsAlternating kept (m ∷ after) h (apart, k)
      (λ e. swapped (is_request m) (ends_in_request kept) e first)

-- If no two requests stood in a row before, none do after parts are dropped.
pub without_parts-IsAlternating :
    (drops : Drops) (ms : List Message) → IsAlternating ms → IsAlternating (without_parts drops ms)
unfolding without_parts IsAlternating
without_parts-IsAlternating drops ms h = elim (Bool-cases (walk drops start_walk ms).changed) [
  | inl edited ↦ simp edited (
      reversed-IsAlternating (walk drops start_walk ms).kept []
        (walk-IsAlternating drops ms start_walk h (record { alternates = tt; joins = λ e f. cc }))
        tt (λ e. refl))
  | inr same ↦ simp same h
]
