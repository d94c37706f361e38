-- ===== src/Redis/Dict.antt =====
-- A database that meets the laws of `Redis`: a clock and a function from keys to entries.
use proactive_agent.Prelude.{ℕ, ◌+◌, refl, Bool, Option, if◌then◌else◌}
use proactive_agent.Redis.{Entry, Redis, live}

pub record Table (K V : Type 0) : Type 0 where
  pub now : ℕ
  pub at : K → Option (Entry V)

abbrev pub dict : (K V : Type 0) (same : K → K → Bool) → Redis K V same
dict K V same = record {
  Db = Table K V;
  clock = λ d. d.now;
  lookup = λ d k. d.at k;
  write = λ k e d. record d { at = λ j. if same k j then e else d.at j };
  tick = λ n d. record { now = d.now + n; at = λ j. live (d.now + n) (d.at j) };
  lookup-write = λ k j e d. refl;
  clock-write = λ k e d. refl;
  lookup-tick = λ n k d. refl;
  clock-tick = λ n d. refl;
}
