-- ===== src/Worker.antt =====
-- src/proactive_agent/worker.py: one guild's wakes under its lease, one wake with its retries, and
-- what a failed wake becomes. The guild runtime is the interface `Runtime`; its calls may change Redis
-- as they like. A failure is an exception's type. Notes and notices whose own failure is logged and
-- dropped return only the state.
pub mod Retries
pub mod Ends
mod Tests
use Prim.Native.String.{String}
use proactive_agent.Prelude.{
  ℕ, zero, suc, ◌+◌, ◌≡◌, Bool, true, false, not, ◌&&◌, Option, none, some, List, [], ◌∷◌, ◌++◌,
  ◌==◌, if◌then◌else◌,
}
use proactive_agent.Contracts.{NotificationEnvelope, Value}
use proactive_agent.Keys.{Key, same}
use proactive_agent.Redis.{Redis}
use proactive_agent.Lease.{renew, release}
use proactive_agent.Queue.Streams.{ReadyRecord, StreamNotification, Streams, WakeBatch, of_lane}
use proactive_agent.Queue.Batch.{build_batch}
use proactive_agent.Queue.Settle.{acknowledge, acknowledge_ready, record_failure}

abbrev pub unavailable_retry_delays : List ℕ
unavailable_retry_delays = 30 ∷ 60 ∷ 120 ∷ []

-- How a call of the runtime ends.
pub data Run : Type 0 where
  completed history_gone : Run
  http : ℕ → Run
  raised : String → Run

-- What one wake failed with.
pub data Failure : Type 0 where
  history_unavailable lease_lost : Failure
  unavailable model_http_error : ℕ → Failure
  other : String → Failure

pub data End : Type 0 where
  acknowledged deferred kept_for_retry dead_lettered : End

-- `exception_type_name`
unfoldable pub detail : Failure → String
detail history_unavailable = "proactive_agent.history.HistoryUnavailableError"
detail lease_lost = "proactive_agent.worker.GuildLeaseLostError"
detail (unavailable retries) = "proactive_agent.worker.UnavailableRetriesExhausted"
detail (model_http_error status) = "pydantic_ai.exceptions.ModelHTTPError"
detail (other name) = name

unfoldable pub limit : ℕ → Failure → ℕ
limit max_attempts (unavailable retries) = 1
limit max_attempts _ = max_attempts

-- What the calls of `drain_midrun` in a wake append to its batch, in place.
pub record Drained : Type 0 where
  pub waking : List StreamNotification
  pub pending : List NotificationEnvelope
  pub dropped : ℕ

-- The state is Redis and whatever else the runtime keeps, what was drained into the batch among it.
pub record Runtime (Db W : Type 0) : Type 0 where
  pub get : ℕ → Db × W → (Db × W) × Run
  pub process : WakeBatch → Db × W → (Db × W) × Run
  pub drained : WakeBatch → Db × W → Drained
  pub record_unavailable_retries : WakeBatch → ℕ → Bool → Db × W → Db × W
  pub report_failure : WakeBatch → String → Db × W → Db × W
  pub sleep : ℕ → Db × W → Db × W

module _ {Db W : Type 0} (m : Runtime Db W) where
  abbrev St : Type 0
  St = Db × W

  -- the batch as its drains have left it
  abbrev pub extended : WakeBatch → St → WakeBatch
  extended batch st =
      let more = m.drained batch st in
      record batch {
        waking = batch.waking ++ more.waking;
        pending = batch.pending ++ more.pending;
        dropped = batch.dropped + more.dropped;
      }

  unfoldable pub failure_of : Run → Option Failure
  failure_of completed = none
  failure_of history_gone = some history_unavailable
  failure_of (http status) = some (model_http_error status)
  failure_of (raised name) = some (other name)

  abbrev pub note_recovery : ℕ → WakeBatch → St → St
  note_recovery zero batch st = st
  note_recovery (suc n) batch st = m.record_unavailable_retries batch (suc n) true st

  -- one turn of the loop, and what it does on a 503
  turn : ℕ → WakeBatch → St × Run → (St → St × Option Failure) → St × Option Failure
  unfolding failure_of
  turn retries batch (st, completed) again = (note_recovery retries batch st, none)
  turn retries batch (st, history_gone) again = (st, failure_of history_gone)
  turn retries batch (st, raised name) again = (st, failure_of (raised name))
  turn retries batch (st, http status) again =
      if status == 503 then again st else (st, failure_of (http status))

  attempt : List ℕ → ℕ → WakeBatch → St → St × Option Failure
  unfolding turn
  attempt [] retries batch st =
      turn retries batch (m.process batch st) (λ st'. (st', some (unavailable retries)))
  attempt (delay ∷ delays) retries batch st =
      turn retries batch (m.process batch st)
        (λ st'. attempt delays (suc retries) batch (m.sleep delay st'))

  unfoldable pub process_with_unavailable_retries : WakeBatch → St → St × Option Failure
  unfolding attempt
  process_with_unavailable_retries batch st = attempt unavailable_retry_delays 0 batch st

module _ (r : Redis Key Value same) (x : Streams r) {W : Type 0} (m : Runtime r.Db W)
    (max_attempts : ℕ) where
  -- what a dead-lettered wake tells the guild and its history
  pub announce : Failure → WakeBatch → r.Db × W → r.Db × W
  unfolding detail
  announce (unavailable retries) batch st =
      m.report_failure batch (detail (unavailable retries))
        (m.record_unavailable_retries batch retries false st)
  announce failure batch st = m.report_failure batch (detail failure) st

  -- `except Exception` of `_run_batch`; without a runtime nothing is noted or announced
  fail : Bool → Failure → WakeBatch → r.Db × W → (r.Db × W) × End
  unfolding record_failure limit detail announce
  fail has_runtime failure batch st =
      let (d, dead) = record_failure r x batch (detail failure) (limit max_attempts failure) st.0 in
      if dead
      then (if has_runtime then announce failure batch (d, st.1) else (d, st.1), dead_lettered)
      else ((d, st.1), kept_for_retry)

  unfoldable pub handle : Bool → Failure → WakeBatch → r.Db × W → (r.Db × W) × End
  unfolding fail
  handle has_runtime history_unavailable batch st = (st, deferred)
  handle has_runtime failure batch st = fail has_runtime failure batch st

  after_process : WakeBatch → (r.Db × W) × Option Failure → (r.Db × W) × End
  unfolding handle acknowledge
  after_process batch (st, none) =
      ((acknowledge r x (extended m batch st) st.0, st.1), acknowledged)
  after_process batch (st, some failure) = handle true failure (extended m batch st) st

  -- `_run_batch` once the runtime is there or is not
  with_runtime : WakeBatch → Option (r.Db × W) → r.Db × W → Option Failure → (r.Db × W) × End
  unfolding after_process process_with_unavailable_retries handle
  with_runtime batch interrupted st (some failure) = handle false failure batch st
  with_runtime batch (some cancelled) st none =
      handle true lease_lost (extended m batch cancelled) cancelled
  with_runtime batch none st none =
      after_process batch (process_with_unavailable_retries m batch st)

  -- `_run_batch`. If the lease cannot be renewed, `interrupted` is the state in which the wake's work
  -- was cancelled.
  unfoldable pub run_batch : ℕ → WakeBatch → Option (r.Db × W) → r.Db × W → (r.Db × W) × End
  unfolding with_runtime failure_of
  run_batch guild_id batch interrupted st =
      let (st', got) = m.get guild_id st in with_runtime batch interrupted st' (failure_of m got)

  -- one turn of `_run_guild_with_lease`'s loop over the lanes
  run_lane :
      ℕ
      → List ReadyRecord
      → Bool
      → (WakeBatch → r.Db × W → Option (r.Db × W))
      → List ℕ
      → r.Db × W
      → (r.Db × W) × List ℕ
  unfolding build_batch acknowledge_ready run_batch
  run_lane guild_id ready forum race known st =
      let (d, batch, known') = build_batch r x guild_id ready forum known st.0 in
      elim batch [
        | none ↦ ((acknowledge_ready r x (of_lane forum ready) d, st.1), known')
        | some b ↦ ((run_batch guild_id b (race b (d, st.1)) (d, st.1)).0, known')
      ]

  -- `_run_guild_with_lease`: the shared lane, the forum lane if the lease is still held, the release
  unfoldable pub run_guild_with_lease :
      ℕ
      → String
      → ℕ
      → List ReadyRecord
      → (WakeBatch → r.Db × W → Option (r.Db × W))
      → List ℕ
      → r.Db × W
      → r.Db × W
  unfolding run_lane renew release
  run_guild_with_lease guild_id token ttl_seconds ready race known st =
      let (st₁, known₁) = run_lane guild_id ready false race known st in
      let (d, held) = renew r guild_id token ttl_seconds st₁.0 in
      let st₂ =
        if held then (run_lane guild_id ready true race known₁ (d, st₁.1)).0 else (d, st₁.1) in
      ((release r guild_id token st₂.0).0, st₂.1)
