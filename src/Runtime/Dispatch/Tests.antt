-- ===== src/Runtime/Dispatch/Tests.antt =====
-- A wake with one response, one reaction and one post to close, where the world is the log of the calls.
use proactive_agent.Prelude.{ℕ, ◌≡◌, refl, Bool, true, none, some, List, [], ◌∷◌, ◌==◌, length}
use proactive_agent.Text.{codes}
use proactive_agent.Runtime.Dispatch.{Call, Plan, Outside, Dispatch, dispatch}

abbrev log : Outside
log = record {
  World = List Call;
  perform = λ call calls. (call ∷ calls, true);
  keep = λ id calls. (calls, true);
}

abbrev is_white : ℕ → Bool
is_white c = c == 32

abbrev is_seven : ℕ → Bool
is_seven channel_id = channel_id == 7

abbrev is_nine : ℕ → Bool
is_nine channel_id = channel_id == 9

abbrev plan : Plan
plan = record {
  responses =
      record { channel_id = 7; content = codes "hi"; reply_to_id = some 3 }
      ∷ record { channel_id = 8; content = codes "hi"; reply_to_id = none }
      ∷ [];
  reactions = record { channel_id = 7; message_id = 3; emoji = codes "+" } ∷ [];
  images_by_channel = [];
  closing = (7, codes "done") ∷ [];
}

abbrev start : Dispatch log
start = record { journal = []; world = [] }

three_calls : length (dispatch is_white is_seven is_nine log plan start).0.world ≡ 3
unfolding dispatch
three_calls = refl
