-- ===== src/Purge/Tests.antt =====
-- A purge of the user whom history 42 holds, whom the model leaves out in history 5.
use proactive_agent.Prelude.{ℕ, ◌+◌, ◌≡◌, refl, true, false, not, none, some, [], ◌∷◌, ◌==◌, arith}
use proactive_agent.History.Tests.{
  redis, postgres, checksum_of, same_history, start, rows, idle_writer, at_revision,
}
use proactive_agent.History.Writer.{fine, lost, unheard}
use proactive_agent.History.Writer.Restored.{IsOwn}
use proactive_agent.Purge.{
  Weather, Target, Command, Why, ended, raised, is_retry, purged, failed, redis_history,
  postgres_history, queued_notifications, watch_instructions,
}
use proactive_agent.Purge.History.{World, purge_history}
use proactive_agent.Purge.History.Forgotten.{IsHistoryPurged}
use proactive_agent.Purge.History.Ends.{purge_history-IsHistoryPurged}
use proactive_agent.Purge.Guild.{Around, Guild, purge_fenced, purge_guild}
use proactive_agent.Purge.Guild.Settled.{IsSettled, purge_fenced-IsSettled}

abbrev fair : Weather
fair = record {
  reads = true;
  writing = fine;
  forgetting = fine;
  invalidating = fine;
  dropping_legacy = fine;
  bumping = fine;
  noting = fine;
  looking = true;
  lost_before_write = false;
  lost_before_watch = false;
}

abbrev stormy : Weather
stormy = record fair { writing = unheard; forgetting = lost }

abbrev user : Target ℕ
user = record {
  is_empty_history = λ h. h == 0;
  needs_no_fold = λ h. not (h == 42);
  holds_id = λ h. h == 42;
  fold = λ h. some (5, 0);
}

abbrev command : Command
command = record { run_id = 1; request_id = 2; guild_id = 7 }

watch_ended : (why : Why) → ended true ≡ raised why → is_retry why ≡ false
watch_ended why e = absurd cc

abbrev around : Around
around = record {
  Queue = ℕ;
  discard_notifications = λ g q. (0, some q);
  discard_dead_letters = λ g q. (q, some 0);
  Channels = ℕ;
  purge_watch = λ lost s. (s + 1, ended true);
  purge_watch-no_retry = λ lost s why. watch_ended why;
}

abbrev memory : World redis postgres
memory = record { redis = start; api = rows; writer = idle_writer; stores = []; name_hits = none }

abbrev guild : Guild redis postgres around
guild = record { memory = memory; queue = 3; channels = 0; told = false }

purged_in_fair_weather :
    (purge_guild checksum_of same_history redis postgres around user command fair true 200 true
      guild).1
    ≡ record {
      outcome = purged;
      stores = queued_notifications ∷ postgres_history ∷ redis_history ∷ watch_instructions ∷ [];
      name_hits = some 0;
      tombstoned = false;
      retry = false;
    }
unfolding purge_guild
purged_in_fair_weather = refl

retried_in_a_storm :
    (purge_guild checksum_of same_history redis postgres around user command stormy true 200 true
      guild).1
    ≡ record {
      outcome = failed;
      stores = queued_notifications ∷ postgres_history ∷ [];
      name_hits = some 0;
      tombstoned = true;
      retry = true;
    }
unfolding purge_guild
retried_in_a_storm = refl

purge_history-IsHistoryPurged_example :
    IsHistoryPurged checksum_of same_history redis postgres user command fair true 200 memory
      (purge_history checksum_of same_history redis postgres user command fair true 200 memory)
purge_history-IsHistoryPurged_example =
    purge_history-IsHistoryPurged checksum_of same_history redis postgres user command fair true 200
      memory

dirty_copy-IsOwn : IsOwn 7 (some (at_revision 4))
dirty_copy-IsOwn s e = ground (arith, e)

purge_fenced-IsSettled_example :
    IsSettled checksum_of same_history redis postgres around user command stormy true 200 guild (
      purge_fenced checksum_of same_history redis postgres around user command stormy true 200
        guild)
purge_fenced-IsSettled_example =
    purge_fenced-IsSettled checksum_of same_history redis postgres around user command stormy true
      200 guild refl dirty_copy-IsOwn
