-- ===== src/Reply/Tests.antt =====
-- Replies where only the space and the line feed are white.
use proactive_agent.Prelude.{ℕ, ◌≡◌, ◌≤◌, refl, Bool, ◌||◌, [], ◌∷◌, ◌==◌, length, All}
use proactive_agent.Text.{codes}
use proactive_agent.Reply.{rfind, split_for_discord}
use proactive_agent.Reply.Bounds.{IsMessage, split_for_discord-bounds}
use proactive_agent.Prelude.{some}

abbrev is_white : ℕ → Bool
is_white c = c == 32 || c == 10

short_reply : split_for_discord is_white (codes " hi ") ≡ codes "hi" ∷ []
unfolding split_for_discord
short_reply = refl

empty_reply : split_for_discord is_white (codes "  ") ≡ []
unfolding split_for_discord
empty_reply = refl

last_space : rfind 32 0 5 (codes "a b c d") ≡ some 3
unfolding rfind
last_space = refl

split_for_discord-bounds_example :
    All IsMessage (split_for_discord is_white (codes " hi "))
    × (length (split_for_discord is_white (codes " hi ")) ≤ 2)
split_for_discord-bounds_example = split_for_discord-bounds is_white (codes " hi ")
