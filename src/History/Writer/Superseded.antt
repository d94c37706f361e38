-- ===== src/History/Writer/Superseded.antt =====
-- What a flush does that Postgres refuses with a 409, in src/proactive_agent/history.py.
use proactive_agent.Prelude.{ℕ, Bool, false, Option, none, some, ◌==◌}
use proactive_agent.Keys.{Key, same}
use proactive_agent.Redis.{Redis}
use proactive_agent.History.{Snapshot, Stored}
use proactive_agent.History.Repository.{Api}
use proactive_agent.History.Writer.{Writer}

module _ {H : Type 0} (history_checksum : H → ℕ) (scrub : H → H) (r : Redis Key (Stored H) same)
    (a : Api H) where
  open r use {Db, lookup}
  open a use {history_of, answers}

  -- a copy at this revision
  abbrev pub is_at : ℕ → Option (Snapshot H) → Bool
  is_at n none = false
  is_at n (some s) = s.revision == n
