-- ===== src/Channel.antt =====
-- class ChannelEnvironment of src/proactive_agent/environment.py: the windows of a channel's messages
-- that the agent's tools read.
pub mod Window
mod Tests
use Prim.Native.String.{String}
use proactive_agent.Prelude.{
  ℕ, suc, ◌+◌, ◌-◌, ◌≡◌, Bool, true, false, not, Option, none, some, List, [], ◌∷◌, ◌==◌,
  if◌then◌else◌, length, take, drop,
}

-- An id and a text; a blocked message has neither.
pub data Message : Type 0 where
  message : ℕ → String → Message
  blocked : Message

abbrev has_id : ℕ → Message → Bool
has_id n (message i text) = i == n
has_id n blocked = false

abbrev prefer : Option Message → Message → Option Message
prefer (some later) m = some later
prefer none m = some m

-- `lookup`, whose dictionary keeps the last message of an id and no blocked one
unfoldable pub lookup : ℕ → List Message → Option Message
lookup n [] = none
lookup n (message i text ∷ ms) =
    let later = lookup n ms in if i == n then prefer later (message i text) else later
lookup n (blocked ∷ ms) = lookup n ms

abbrev after : Option ℕ → Option ℕ
after none = none
after (some p) = some (suc p)

-- the first position of an id
unfoldable pub position : ℕ → List Message → Option ℕ
position n [] = none
position n (m ∷ ms) = let rest = position n ms in if has_id n m then some 0 else after rest

-- `pool[-limit:]`; a limit of 0 is the whole pool
unfoldable pub last : ℕ → List Message → List Message
last limit pool = if limit == 0 then pool else drop (length pool - limit) pool

up_to : Option ℕ → List Message → List Message
up_to none visible = []
up_to (some p) visible = take p visible

unfoldable pub history : ℕ → Option ℕ → List Message → List Message
unfolding last position up_to
history limit none visible = last limit visible
history limit (some before_id) visible = last limit (up_to (position before_id visible) visible)

around : ℕ → List Message → Option ℕ → List Message
around radius visible none = []
around radius visible (some p) = drop (p - radius) (take (p + radius + 1) visible)

unfoldable pub slice_around : ℕ → ℕ → List Message → List Message
unfolding position around
slice_around message_id radius visible = around radius visible (position message_id visible)
