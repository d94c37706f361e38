-- ===== src/Channel/Window.antt =====
-- The windows of src/proactive_agent/environment.py are parts of the channel, no longer than asked.
use proactive_agent.Prelude.{
  ℕ, ◌+◌, ◌-◌, ◌≤◌, ◌≡◌, refl, ap, ◌∙◌, false, Option, none, some, List, [], ◌++◌, ◌==◌, length,
  take, drop, take-append-drop, length-take, length-drop, arith,
}
use mathlib.Core.List.{append-nil}
use proactive_agent.Channel.{Message, position, last, history, slice_around, around, up_to}

-- A part of at most `bound` messages in a row.
pub record IsPart (bound : ℕ) (part visible : List Message) : Type 0 where
  pub older : List Message
  pub newer : List Message
  pub parts : older ++ part ++ newer ≡ visible
  pub short : length part ≤ bound

around-IsPart :
    (radius : ℕ) (visible : List Message) (o : Option ℕ)
    → IsPart (radius + radius + 1) (around radius visible o) visible
unfolding around
around-IsPart radius visible none = record {
  older = [];
  newer = visible;
  parts = refl;
  short = omega arith;
}
around-IsPart radius visible (some p) =
    let front = take (p + radius + 1) visible in
    let k = p - radius in
    let size = length-drop k front in
    let front_size = length-take (p + radius + 1) visible in
    record {
      older = take k front;
      newer = drop (p + radius + 1) visible;
      parts =
          ap (λ xs. xs ++ drop (p + radius + 1) visible) (take-append-drop k front)
          ∙ take-append-drop (p + radius + 1) visible;
      short = omega (arith, size, front_size);
    }

-- `slice_around` gives messages in a row, with at most the radius on either side of one.
pub slice_around-IsPart :
    (n radius : ℕ) (visible : List Message)
    → IsPart (radius + radius + 1) (slice_around n radius visible) visible
unfolding slice_around
slice_around-IsPart n radius visible = around-IsPart radius visible (position n visible)

last-IsPart :
    (limit : ℕ) (pool newer visible : List Message)
    → pool ++ newer ≡ visible
    → IsPart (limit + 1) (last (limit + 1) pool) visible
unfolding last
last-IsPart limit pool newer visible e =
    let k = length pool - (limit + 1) in
    let size = length-drop k pool in
    let positive : (limit + 1 == 0) ≡ false = ground arith in
    rw positive record {
      older = take k pool;
      newer = newer;
      parts = ap (λ xs. xs ++ newer) (take-append-drop k pool) ∙ e;
      short = omega (arith, size);
    }

up_to-part :
    (visible : List Message) (o : Option ℕ)
    → (newer : List Message) × (up_to o visible ++ newer ≡ visible)
unfolding up_to
up_to-part visible none = (visible, refl)
up_to-part visible (some p) = (drop p visible, take-append-drop p visible)

-- With a positive limit, `history` gives messages in a row, at most as many as the limit.
pub history-IsPart :
    (limit : ℕ) (before : Option ℕ) (visible : List Message)
    → IsPart (limit + 1) (history (limit + 1) before visible) visible
unfolding history
history-IsPart limit none visible = last-IsPart limit visible [] visible (append-nil visible)
history-IsPart limit (some n) visible =
    let (newer, e) = up_to-part visible (position n visible) in
    last-IsPart limit (up_to (position n visible) visible) newer visible e
