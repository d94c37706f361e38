-- ===== src/Queue/Tests.antt =====
-- A database with streams that meets the queue's assumptions, and the queue's theorems on it.
use proactive_agent.Prelude.{
  ℕ, ◌+◌, ◌≡◌, refl, true, false, not, Option, none, some, List, [], ◌∷◌, ◌++◌, ◌==◌, if◌then◌else◌,
  any, select, arith,
}
use proactive_agent.Contracts.{NotificationEnvelope, Value, mention, items, number}
use proactive_agent.Keys.{Key, same, pending_key, pending_dropped_key, wake_stream_key}
use proactive_agent.Redis.{Entry, Redis, live}
use proactive_agent.Queue.{PendingKeys, pending_keys, append_script}
use proactive_agent.Queue.Pending.{pending_keys-IsDistinct, IsDistinct}
use proactive_agent.Queue.Drain.{
  IsDrained, append_script-IsDrained, Move, pushes, claims, drains, moves, pushed, held, held-moves,
}
use proactive_agent.Queue.Streams.{DeadLetter, Streams, WakeBatch}
use proactive_agent.Queue.Batch.{build_batch}
use proactive_agent.Queue.Settle.{error_type, acknowledge, record_failure}
use proactive_agent.Queue.Settled.{
  IsSettled, IsBuried, acknowledge-IsSettled, record_failure-IsBuried,
}

abbrev Item : Type 0
Item = ℕ × NotificationEnvelope

pub record Server : Type 0 where
  now : ℕ
  at : Key → Option (Entry Value)
  streams : Key → List Item
  unread : Key → List Item
  letters : List DeadLetter

abbrev pub redis : Redis Key Value same
redis = record {
  Db = Server;
  clock = λ d. d.now;
  lookup = λ d k. d.at k;
  write = λ k e d. record d { at = λ j. if same k j then e else d.at j };
  tick = λ n d. record d { now = d.now + n; at = λ j. live (d.now + n) (d.at j) };
  lookup-write = λ k j e d. refl;
  clock-write = λ k e d. refl;
  lookup-tick = λ n k d. refl;
  clock-tick = λ n d. refl;
}

abbrev pub streams : Streams redis
streams = record {
  entries = λ s d. d.streams s;
  xgroup_create = λ s d. d;
  xautoclaim = λ s d. (d, []);
  xreadgroup = λ s d. (record d { unread = λ t. if same s t then [] else d.unread t }, d.unread s);
  remove = λ s ids d. record d {
    streams = λ t.
        if same s t
        then select (λ (e : Item). not (any (λ i. i == e.0) ids)) (d.streams t)
        else d.streams t;
  };
  dead_letters = λ d. d.letters;
  add_dead_letter = λ x d. record d { letters = x ∷ d.letters };
  lookup-xgroup_create = λ s k d. refl;
  lookup-xautoclaim = λ s k d. refl;
  lookup-xreadgroup = λ s k d. refl;
  lookup-remove = λ s k ids d. refl;
  lookup-add_dead_letter = λ k x d. refl;
  entries-remove = λ s t ids d. refl;
  entries-write = λ t k e d. refl;
  entries-add_dead_letter = λ t x d. refl;
  dead_letters-add = λ x d. (d.letters, refl);
  dead_letters-write = λ k e d. refl;
  dead_letters-remove = λ s ids d. refl;
}

abbrev envelope : ℕ → NotificationEnvelope
envelope n = record {
  notification_id = n;
  guild_id = 7;
  channel_id = 3;
  channel_name = "general";
  kind = mention;
  created_at = 1000;
  body = "hello";
  message_ids = [];
  wakes = true;
  passive = false;
}

abbrev lists : Key → Option (Entry Value)
lists (pending_key g) =
    some (record { value = items (envelope 1 ∷ envelope 2 ∷ []); deadline = none })
lists (pending_dropped_key g) = some (record { value = number 4; deadline = none })
lists _ = none

abbrev waking_at : Key → List Item
waking_at (wake_stream_key g) = (50, envelope 9) ∷ []
waking_at _ = []

abbrev pub server : Server
server = record { now = 5000; at = lists; streams = waking_at; unread = waking_at; letters = [] }

abbrev keys : PendingKeys Key
keys = pending_keys 7 9 false

abbrev pub batch : WakeBatch
batch = record {
  guild_id = 7;
  wake_id = 9;
  ready_ids = [];
  waking = record { stream_id = 50; envelope = envelope 9; forum = false } ∷ [];
  pending = envelope 1 ∷ envelope 2 ∷ [];
  dropped = 4;
  forum = false;
}

-- The first wake of the guild takes the pending list and its counter.
first_wake : (build_batch redis streams 7 [] false [] server).1 ≡ some batch
unfolding build_batch
first_wake = refl

-- A second wake of the shared lane finds nothing to wake for.
no_second_wake :
    (build_batch redis streams 7 [] false [] (build_batch redis streams 7 [] false [] server).0).1
    ≡ none
unfolding build_batch
no_second_wake = refl

abbrev distinct : IsDistinct same keys
distinct = pending_keys-IsDistinct 7 9 false

append_script-IsDrained_example :
    IsDrained redis keys 60 distinct server (append_script redis keys 60 server)
append_script-IsDrained_example = append_script-IsDrained redis keys 60 distinct server

abbrev run : List (Move redis keys 60 distinct)
run = claims ∷ pushes (envelope 3) ∷ claims ∷ pushes (envelope 4) ∷ drains ∷ []

held-moves_example :
    held redis keys 60 distinct (moves redis keys 60 distinct run server)
    ≡ held redis keys 60 distinct server ++ pushed redis keys 60 distinct run
held-moves_example = held-moves redis keys 60 distinct run server

acknowledge-IsSettled_example :
    IsSettled redis streams batch server (acknowledge redis streams batch server)
acknowledge-IsSettled_example = acknowledge-IsSettled redis streams batch server

-- Of an exception with its message only the type is kept.
message_dropped : error_type 200 "ValueError: some text" ≡ "ValueError"
unfolding error_type
message_dropped = refl

record_failure-IsBuried_example :
    ((record_failure redis streams batch "ValueError" 1 server).1 ≡ true)
    × IsBuried redis streams batch
        (error_type 200 "ValueError")
        1
        server
        (record_failure redis streams batch "ValueError" 1 server).0
record_failure-IsBuried_example =
    record_failure-IsBuried redis streams batch "ValueError" 1 server (omega arith)
