-- ===== src/Idle/Tests.antt =====
-- Idle guilds whose history is one message, on the small stores of the history's tests.
use proactive_agent.Prelude.{
  ℕ, ◌+◌, ◌≡◌, ◌≢◌, refl, true, false, Option, none, some, List, [], ◌∷◌, ◌==◌, if◌then◌else◌,
  length,
}
use proactive_agent.Text.{Text, codes}
use proactive_agent.Conversation.{Message, request, user_prompt}
use proactive_agent.Redis.{set}
use proactive_agent.Redis.Dict.{Table}
use proactive_agent.Keys.{Key, history_idle_key}
use proactive_agent.History.{Stored, score}
use proactive_agent.History.Tests.{
  redis, postgres, checksum_of, same_history, start, rows, idle_writer,
}
use proactive_agent.History.Writer.{Writer}
use proactive_agent.History.Repository.{returns}
use proactive_agent.Idle.{
  Format, Stores, folded, written_since, fence_busy, compact_fenced, compact_guild, sweep_once,
}
use proactive_agent.Idle.Compacted.{IsCompacted, compact_fenced-IsCompacted}

abbrev format : Format ℕ
format = record {
  is_empty_history = λ h. h == 0;
  read = λ h. some (request (user_prompt true (codes "hi") ∷ []) none ∷ []);
  dump = λ history. length history;
}

abbrev summary : List Message → Option Text
summary history = some (codes "short")

abbrev indexed : Table Key (Stored ℕ)
indexed = set redis (history_idle_key 7) (score 100) start

abbrev idle : Stores (Table Key (Stored ℕ)) postgres.Db (Writer ℕ)
idle = record { redis = indexed; api = rows; writer = idle_writer }

folded_when_idle :
    (compact_fenced checksum_of same_history redis postgres format summary 7 7300 idle).1
    ≡ returns folded
unfolding compact_fenced
folded_when_idle = refl

not_yet_idle :
    (compact_guild checksum_of same_history redis postgres format summary 7 7299 true idle).1
    ≡ returns written_since
unfolding compact_guild
not_yet_idle = refl

read-nonempty : (h : ℕ) → (h == 0) ≡ false → format.read h ≢ some []
read-nonempty h e = λ f. absurd cc

compact_fenced-IsCompacted_example :
    IsCompacted checksum_of same_history redis postgres format summary 7 7300 idle
      (compact_fenced checksum_of same_history redis postgres format summary 7 7300 idle)
compact_fenced-IsCompacted_example =
    compact_fenced-IsCompacted checksum_of same_history redis postgres format summary 7 7300
      read-nonempty idle

swept_two :
    (sweep_once
      (λ g n. if g == 7 then (n + 1, returns folded) else (n, returns fence_busy))
      true
      (7 ∷ 8 ∷ [])
      0).1
    ≡ (7, folded) ∷ (8, fence_busy) ∷ []
unfolding sweep_once
swept_two = refl
