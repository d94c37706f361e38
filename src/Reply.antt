-- ===== src/Reply.antt =====
-- src/proactive_agent/response_fitting.py: a reply in at most two Discord messages. Python's white
-- space is a parameter; a line feed is 10, a space 32, and the ellipsis 8230.
pub mod Bounds
mod Tests
use proactive_agent.Prelude.{
  ℕ, zero, suc, ◌+◌, ◌-◌, Bool, true, false, not, ◌&&◌, Option, none, some, List, [], ◌∷◌, ◌++◌,
  leb, ltb, ◌==◌, length, take, drop, select, if◌then◌else◌,
}
use proactive_agent.Text.{Text, is_empty, code_at, strip, strip_right}

abbrev pub discord_message_limit : ℕ
discord_message_limit = 2000

abbrev pub split_target : ℕ
split_target = 1500

abbrev pub is_code : ℕ → Option ℕ → Bool
is_code c none = false
is_code c (some d) = d == c

-- `text.rfind(c, low, high)` for a single character
unfoldable pub rfind : ℕ → ℕ → ℕ → Text → Option ℕ
rfind c low zero text = none
rfind c low (suc high) text =
    let rest = rfind c low high text in
    if leb low high && is_code c (code_at high text) then some high else rest

-- `if split_at <= 0`
unfoldable pub positive_or : Option ℕ → ℕ → ℕ
positive_or none other = other
positive_or (some zero) other = other
positive_or (some (suc n)) other = suc n

unfoldable pub split_at : Text → ℕ
unfolding rfind positive_or
split_at stripped =
    let earliest = length stripped - discord_message_limit in
    positive_or (rfind 10 earliest (split_target + 1) stripped)
      (positive_or (rfind 32 earliest (split_target + 1) stripped) split_target)

unfoldable pub shortened : Text → Text
shortened tail =
    if ltb discord_message_limit (length tail)
    then take (discord_message_limit - 1) tail ++ (8230 ∷ [])
    else tail

module _ (is_space : ℕ → Bool) where
  unfoldable pub split_long : Text → List Text
  unfolding split_at shortened
  split_long stripped =
      select (λ part. not (is_empty part))
        (strip_right is_space (take (split_at stripped) stripped)
          ∷ shortened (strip is_space (drop (split_at stripped) stripped))
          ∷ [])

  unfoldable pub split_for_discord : Text → List Text
  unfolding split_long
  split_for_discord text =
      let stripped = strip is_space text in
      if leb (length stripped) discord_message_limit
      then select (λ part. not (is_empty part)) (stripped ∷ [])
      else split_long stripped
