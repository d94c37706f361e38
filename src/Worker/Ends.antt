-- ===== src/Worker/Ends.antt =====
-- `_run_batch` of src/proactive_agent/worker.py: which wakes are settled, retried or buried.
use proactive_agent.Prelude.{
  ℕ, ◌+◌, ◌≤◌, ◌<◌, ◌≡◌, ◌≢◌, refl, Bool, true, false, Option, none, some, Bool-cases, inl, inr,
  arith, ltb, if◌then◌else◌,
}
use proactive_agent.Contracts.{Value}
use proactive_agent.Keys.{Key, same, attempts_key}
use proactive_agent.Redis.{Redis, get}
use proactive_agent.Queue.{count_of}
use proactive_agent.Queue.Streams.{Streams, WakeBatch}
use proactive_agent.Queue.Settle.{error_type}
use proactive_agent.Queue.Settled.{
  IsSettled, IsRetried, IsBuried, acknowledge-IsSettled, record_failure-IsRetried,
  record_failure-IsBuried,
}
use proactive_agent.Worker.{
  Runtime, Run, Failure, End, acknowledged, deferred, kept_for_retry, dead_lettered,
  history_unavailable, lease_lost, unavailable, model_http_error, other, detail, limit, announce,
  fail, handle, after_process, with_runtime, run_batch, failure_of,
  process_with_unavailable_retries, extended,
}

module _ (r : Redis Key Value same) (x : Streams r) {W : Type 0} (m : Runtime r.Db W)
    (max_attempts : ℕ) where
  module _ (batch : WakeBatch) where
    -- the attempts that a failure makes, this one counted
    abbrev pub attempts : r.Db → ℕ
    attempts d = count_of (get r (attempts_key batch.guild_id batch.wake_id) d) + 1

    -- What becomes of a wake that failed in the state `st`, with or without a runtime.
    pub data IsHandled (has_runtime : Bool) (failure : Failure) (st : r.Db × W)
        : (r.Db × W) × End → Type 0 where
      put_off : failure ≡ history_unavailable → IsHandled has_runtime failure st (st, deferred)
      retried :
          {d : r.Db}
          → failure ≢ history_unavailable
          → attempts st.0 < limit max_attempts failure
          → IsRetried r x batch st.0 d
          → IsHandled has_runtime failure st ((d, st.1), kept_for_retry)
      buried :
          {d : r.Db}
          → failure ≢ history_unavailable
          → limit max_attempts failure ≤ attempts st.0
          → IsBuried r x batch (error_type 200 (detail failure)) (attempts st.0) st.0 d
          → IsHandled has_runtime failure st (
            if has_runtime then announce r x m max_attempts failure batch (d, st.1) else (d, st.1),
            dead_lettered,
          )

    fail-IsHandled :
        (has_runtime : Bool) (failure : Failure) (st : r.Db × W)
        → failure ≢ history_unavailable
        → IsHandled has_runtime failure st (fail r x m max_attempts has_runtime failure batch st)
    unfolding fail
    fail-IsHandled has_runtime failure st h =
        elim (Bool-cases (ltb (attempts st.0) (limit max_attempts failure))) [
          | inl fewer ↦
              let (e, kept) =
                record_failure-IsRetried r x batch (detail failure) (limit max_attempts failure)
                  st.0 (ground arith) in
              rw e (retried h (ground arith) kept)
          | inr last ↦
              let (e, gone) =
                record_failure-IsBuried r x batch (detail failure) (limit max_attempts failure) st.0
                  (ground arith) in
              rw e (buried h (ground arith) gone)
        ]

    -- A wake that fails because its history is tombstoned is put off with nothing changed. Any other
    -- failure keeps the batch while the attempts are below the limit, and buries it from there on.
    pub handle-IsHandled :
        (has_runtime : Bool) (failure : Failure) (st : r.Db × W)
        → IsHandled has_runtime failure st (handle r x m max_attempts has_runtime failure batch st)
    unfolding handle
    handle-IsHandled b history_unavailable st = put_off refl
    handle-IsHandled b lease_lost st = fail-IsHandled b lease_lost st (λ h. cc)
    handle-IsHandled b (unavailable n) st = fail-IsHandled b (unavailable n) st (λ h. cc)
    handle-IsHandled b (model_http_error n) st = fail-IsHandled b (model_http_error n) st (λ h. cc)
    handle-IsHandled b (other name) st = fail-IsHandled b (other name) st (λ h. cc)

    unavailable-dead_lettered :
        (b : Bool) (n : ℕ) (st : r.Db × W) {o : (r.Db × W) × End}
        → IsHandled b (unavailable n) st o
        → o.1 ≡ dead_lettered
    unfolding limit
    unavailable-dead_lettered b n st (put_off e) = cc
    unavailable-dead_lettered b n st (retried h below _) = absurd (ground (arith, below))
    unavailable-dead_lettered b n st (buried _ _ _) = refl

    -- A wake whose model stayed unavailable through its retries is dead-lettered at once, whatever
    -- attempts it had before and whatever the limit of attempts is.
    pub handle-unavailable :
        (b : Bool) (n : ℕ) (st : r.Db × W)
        → (handle r x m max_attempts b (unavailable n) batch st).1 ≡ dead_lettered
    handle-unavailable b n st =
        unavailable-dead_lettered b n st (handle-IsHandled b (unavailable n) st)

  -- How a wake of `_run_batch` ends, from the state `s`.
  pub data IsRun (batch : WakeBatch) (g : ℕ) (interrupted : Option (r.Db × W)) (s : r.Db × W)
      : (r.Db × W) × End → Type 0 where
    without_runtime :
        {u : r.Db × W} {run : Run} {f : Failure} {o : (r.Db × W) × End}
        → m.get g s ≡ (u, run)
        → failure_of m run ≡ some f
        → IsHandled batch false f u o
        → IsRun batch g interrupted s o
    lost :
        {u c : r.Db × W} {run : Run} {o : (r.Db × W) × End}
        → m.get g s ≡ (u, run)
        → failure_of m run ≡ none
        → interrupted ≡ some c
        → IsHandled (extended m batch c) true lease_lost c o
        → IsRun batch g interrupted s o
    failed :
        {u v : r.Db × W} {run : Run} {f : Failure} {o : (r.Db × W) × End}
        → m.get g s ≡ (u, run)
        → failure_of m run ≡ none
        → interrupted ≡ none
        → process_with_unavailable_retries m batch u ≡ (v, some f)
        → IsHandled (extended m batch v) true f v o
        → IsRun batch g interrupted s o
    settled :
        {u v : r.Db × W} {run : Run} {d : r.Db}
        → m.get g s ≡ (u, run)
        → failure_of m run ≡ none
        → interrupted ≡ none
        → process_with_unavailable_retries m batch u ≡ (v, none)
        → IsSettled r x (extended m batch v) v.0 d
        → IsRun batch g interrupted s ((d, v.1), acknowledged)

  after_process-IsRun :
      (batch : WakeBatch) (g : ℕ) (s u : r.Db × W) (run : Run)
      → m.get g s ≡ (u, run)
      → failure_of m run ≡ none
      → (y : (r.Db × W) × Option Failure) → process_with_unavailable_retries m batch u ≡ y
      → IsRun batch g none s (after_process r x m max_attempts batch y)
  unfolding after_process
  after_process-IsRun batch g s u run got fine (v, none) e =
      settled got fine refl e (acknowledge-IsSettled r x (extended m batch v) v.0)
  after_process-IsRun batch g s u run got fine (v, some f) e =
      failed got fine refl e (handle-IsHandled (extended m batch v) true f v)

  with_runtime-IsRun :
      (batch : WakeBatch) (g : ℕ) (interrupted : Option (r.Db × W)) (s u : r.Db × W) (run : Run)
      (f : Option Failure)
      → m.get g s ≡ (u, run)
      → failure_of m run ≡ f
      → IsRun batch g interrupted s (with_runtime r x m max_attempts batch interrupted u f)
  unfolding with_runtime
  with_runtime-IsRun batch g interrupted s u run (some f) got e =
      without_runtime got e (handle-IsHandled batch false f u)
  with_runtime-IsRun batch g (some c) s u run none got fine =
      lost got fine refl (handle-IsHandled (extended m batch c) true lease_lost c)
  with_runtime-IsRun batch g none s u run none got fine =
      after_process-IsRun batch g s u run got fine _ refl

  -- A wake is acknowledged only when its tries completed under a lease that was kept; otherwise it
  -- is put off, kept for a retry or dead-lettered, by its failure and its attempts. What settles or
  -- buries it covers the notifications that its tries drained.
  pub run_batch-IsRun :
      (batch : WakeBatch) (g : ℕ) (interrupted : Option (r.Db × W)) (s : r.Db × W)
      → IsRun batch g interrupted s (run_batch r x m max_attempts g batch interrupted s)
  unfolding run_batch
  run_batch-IsRun batch g interrupted s = with_runtime-IsRun batch g interrupted s _ _ _ refl refl
