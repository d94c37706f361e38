-- ===== src/Purge/Delivery/Tests.antt =====
-- A run of two guilds on a world that counts calls: the server knows the run, and the second guild's
-- first purge asks for a retry.
use proactive_agent.Prelude.{ℕ, ◌+◌, ◌≡◌, refl, Bool, true, false, none, some, [], ◌∷◌, ◌==◌}
use proactive_agent.Purge.{GuildOutcome, purged}
use proactive_agent.Purge.Delivery.{Consumer, Entry, group_done_with, handle_command, handle_entry}
use proactive_agent.Purge.Delivery.Handled.{IsHandled, handle_command-IsHandled}

abbrev outcome : Bool → GuildOutcome
outcome retry = record {
  outcome = purged;
  stores = [];
  name_hits = none;
  tombstoned = false;
  retry = retry;
}

abbrev consumer : Consumer
consumer = record {
  World = ℕ;
  recover_tombstones = λ guild_ids n. n;
  tombstoned = λ n g. false;
  enforcing_target = λ n. (n, true);
  purge_guild = λ g n. (n + 1, outcome (n == 1));
  post_ack = λ g o n. (n, some true);
  saves = λ n. (n, true);
  others_done_with = λ n. false;
}

abbrev fresh : Entry consumer
fresh = record {
  deliveries = 0;
  done = λ g. none;
  acks = [];
  in_stream = true;
  pending = true;
  world = 0;
}

-- The second guild is purged again, and the first is not.
kept_then_acked :
    let first = handle_command consumer (7 ∷ 8 ∷ []) fresh in
    let second = handle_command consumer (7 ∷ 8 ∷ []) first in
    (first.pending ≡ true)
    × (second.pending ≡ false)
    × (second.in_stream ≡ true)
    × (second.world ≡ 3)
unfolding handle_command
kept_then_acked = (refl, refl, refl, refl)

dropped_malformed : (handle_entry consumer none fresh).pending ≡ false
unfolding handle_entry
dropped_malformed = refl

not_done_without_consumers :
    group_done_with 5 (
      some (record {
        last_delivered_id = 9;
        entries_read = some 3;
        consumers = 0;
        holds_entry = false;
      }))
    ≡ false
unfolding group_done_with
not_done_without_consumers = refl

handle_command-IsHandled_example :
    IsHandled consumer (7 ∷ 8 ∷ []) fresh (handle_command consumer (7 ∷ 8 ∷ []) fresh)
handle_command-IsHandled_example = handle_command-IsHandled consumer (7 ∷ 8 ∷ []) fresh
