-- ===== src/Blocked/Cutoff.antt =====
-- Which messages are hidden of a user who opted back in, in src/proactive_agent/blocked_users.py.
use proactive_agent.Prelude.{
  ℕ, ◌+◌, ◌-◌, ◌*◌, ◌^◌, ◌≤◌, ◌<◌, ◌≡◌, false, some, any, ◌==◌, ltb, arith,
}
use proactive_agent.Blocked.{
  BlockedUsers, first_snowflake, is_blocked, id, before, cutoff_of, discord_epoch_ms,
}

-- The id of a message that Discord creates at a moment: milliseconds since its epoch, then 22 bits.
pub record IsIdAt (moment n : ℕ) : Type 0 where
  pub since_epoch : discord_epoch_ms ≤ moment
  pub low : ℕ
  pub low_bits : low < 2 ^ 22
  pub layout : n ≡ (moment - discord_epoch_ms) * 2 ^ 22 + low

-- Of a user who is off the list and may be read from a moment on, exactly the messages created before
-- that moment are hidden, by their millisecond.
pub is_blocked-cutoff :
    (b : BlockedUsers) (user from moment n : ℕ)
    → any (λ u. u == user) b.user_ids ≡ false
    → cutoff_of user b.read_from ≡ some (first_snowflake from)
    → discord_epoch_ms ≤ from
    → IsIdAt moment n
    → is_blocked (some user) (id n) b ≡ ltb moment from
unfolding is_blocked before first_snowflake
is_blocked-cutoff b user from moment n off cut after i =
    let h = i.layout in
    let low = i.low_bits in
    let e = i.since_epoch in rw (off, cut) (ground (arith, h, low, e, after))
