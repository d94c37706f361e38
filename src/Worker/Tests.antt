-- ===== src/Worker/Tests.antt =====
-- A runtime whose tries end as a list says, and the worker's theorems on it.
use proactive_agent.Prelude.{ℕ, ◌+◌, ◌≡◌, refl, none, List, [], ◌∷◌}
use proactive_agent.Queue.Tests.{Server, redis, streams, server, batch}
use proactive_agent.Worker.{
  Runtime, Run, completed, http, acknowledged, dead_lettered, process_with_unavailable_retries,
  run_batch,
}
use proactive_agent.Worker.Retries.{IsTried, process_with_unavailable_retries-IsTried}
use proactive_agent.Worker.Ends.{IsRun, run_batch-IsRun}

-- the tries that are left, and the seconds slept
record Script : Type 0 where
  runs : List Run
  slept : ℕ

abbrev run_script : Server → ℕ → List Run → (Server × Script) × Run
run_script d n [] = ((d, record { runs = []; slept = n }), completed)
run_script d n (run ∷ runs) = ((d, record { runs = runs; slept = n }), run)

abbrev runtime : Runtime Server Script
runtime = record {
  get = λ g st. (st, completed);
  process = λ b st. run_script st.0 st.1.slept st.1.runs;
  drained = λ b st. record { waking = b.waking; pending = []; dropped = 1 };
  record_unavailable_retries = λ b n recovered st. st;
  report_failure = λ b name st. st;
  sleep = λ n st. (st.0, record { runs = st.1.runs; slept = st.1.slept + n });
}

-- Two 503s are waited out.
recovers :
    ((run_batch redis streams runtime 5 7 batch none
        (server, record { runs = http 503 ∷ http 503 ∷ []; slept = 0 })).1
      ≡ acknowledged)
unfolding run_batch
recovers = refl

-- Four are not.
gives_up :
    ((run_batch redis streams runtime 5 7 batch none
        (server, record { runs = http 503 ∷ http 503 ∷ http 503 ∷ http 503 ∷ []; slept = 0 })).1
      ≡ dead_lettered)
unfolding run_batch
gives_up = refl

abbrev start : Server × Script
start = (server, record { runs = http 503 ∷ http 503 ∷ []; slept = 0 })

process_with_unavailable_retries-IsTried_example :
    IsTried runtime batch start (process_with_unavailable_retries runtime batch start)
process_with_unavailable_retries-IsTried_example =
    process_with_unavailable_retries-IsTried runtime batch start

run_batch-IsRun_example :
    IsRun redis streams runtime 5 batch 7 none start
      (run_batch redis streams runtime 5 7 batch none start)
run_batch-IsRun_example = run_batch-IsRun redis streams runtime 5 batch 7 none start
