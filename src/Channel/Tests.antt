-- ===== src/Channel/Tests.antt =====
-- A channel of four messages, one of them blocked.
use proactive_agent.Prelude.{◌≡◌, refl, some, List, [], ◌∷◌}
use proactive_agent.Channel.{Message, message, blocked, position, last, history, slice_around}

abbrev visible : List Message
visible = message 4 "a" ∷ message 5 "b" ∷ blocked ∷ message 9 "c" ∷ []

around_five : slice_around 5 1 visible ≡ message 4 "a" ∷ message 5 "b" ∷ blocked ∷ []
unfolding slice_around position
around_five = refl

before_nine : history 2 (some 9) visible ≡ message 5 "b" ∷ blocked ∷ []
unfolding history position last
before_nine = refl
