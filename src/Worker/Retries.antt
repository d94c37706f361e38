-- ===== src/Worker/Retries.antt =====
-- `_process_with_unavailable_retries` of src/proactive_agent/worker.py: how often a wake is tried.
use proactive_agent.Prelude.{
  ℕ, suc, ◌+◌, ◌≤◌, ◌≡◌, ◌≢◌, refl, ap, ◌∙◌, Option, none, some, List, [], ◌∷◌, ◌==◌, length,
  Bool-cases, inl, inr, arith,
}
use proactive_agent.Queue.Streams.{WakeBatch}
use proactive_agent.Worker.{
  Runtime, Run, Failure, completed, history_gone, http, raised, unavailable,
  unavailable_retry_delays, failure_of, turn, attempt, note_recovery,
  process_with_unavailable_retries,
}

module _ {Db W : Type 0} (m : Runtime Db W) (batch : WakeBatch) where
  -- `Tries s n delays t`: from `s`, n tries in a row ended with a 503, each followed by its delay, and
  -- led to `t`; `delays` are left.
  pub data Tries (s : Db × W) : ℕ → List ℕ → Db × W → Type 0 where
    first : Tries s 0 unavailable_retry_delays s
    again :
        {n delay : ℕ} {delays : List ℕ} {t u : Db × W}
        → Tries s n (delay ∷ delays) t
        → m.process batch t ≡ (u, http 503)
        → Tries s (suc n) delays (m.sleep delay u)

  -- How the tries from `s` end.
  pub data IsTried (s : Db × W) : (Db × W) × Option Failure → Type 0 where
    exhausted :
        {t u : Db × W} {n : ℕ}
        → n ≡ 3
        → Tries s n [] t
        → m.process batch t ≡ (u, http 503)
        → IsTried s (u, some (unavailable n))
    done :
        {n : ℕ} {delays : List ℕ} {t u : Db × W}
        → n ≤ 3
        → Tries s n delays t
        → m.process batch t ≡ (u, completed)
        → IsTried s (note_recovery m n batch u, none)
    failed :
        {n : ℕ} {delays : List ℕ} {t u : Db × W} {x : Run} {f : Failure}
        → n ≤ 3
        → Tries s n delays t
        → m.process batch t ≡ (u, x)
        → x ≢ http 503
        → failure_of m x ≡ some f
        → IsTried s (u, some f)

  Tries-length :
      {s t : Db × W} {n : ℕ} {delays : List ℕ} → Tries s n delays t → n + length delays ≡ 3
  Tries-length first = refl
  Tries-length (again before e) = let h = Tries-length before in omega arith

  Tries-le : {s t : Db × W} {n : ℕ} {delays : List ℕ} → Tries s n delays t → n ≤ 3
  Tries-le before = let h = Tries-length before in omega arith

  -- A turn that is not a 503 ends the tries, whatever a 503 would have done.
  turn-IsTried :
      {s t : Db × W} (n : ℕ) {delays : List ℕ} (next : Db × W → (Db × W) × Option Failure)
      → Tries s n delays t
      → (x : (Db × W) × Run) → m.process batch t ≡ x
      → ((u : Db × W) → m.process batch t ≡ (u, http 503) → IsTried s (next u))
      → IsTried s (turn m n batch x next)
  unfolding turn failure_of
  turn-IsTried n next before (u, completed) e on_503 = done (Tries-le before) before e
  turn-IsTried n next before (u, history_gone) e on_503 =
      failed (Tries-le before) before e (λ h. cc) refl
  turn-IsTried n next before (u, raised name) e on_503 =
      failed (Tries-le before) before e (λ h. cc) refl
  turn-IsTried n next before (u, http status) e on_503 = elim (Bool-cases (status == 503)) [
    | inl gone ↦
        let h : status ≡ 503 = ground arith in rw gone (on_503 u (e ∙ ap (λ k. (u, http k)) h))
    | inr alive ↦ rw alive (failed (Tries-le before) before e (λ h. ground (arith, alive, h)) refl)
  ]

  attempt-IsTried :
      (delays : List ℕ) {s t : Db × W} {n : ℕ}
      → Tries s n delays t
      → IsTried s (attempt m delays n batch t)
  unfolding attempt
  attempt-IsTried [] before =
      let h = Tries-length before in
      turn-IsTried _ _ before _ refl (λ u e. exhausted (omega arith) before e)
  attempt-IsTried (delay ∷ delays) before =
      turn-IsTried _ _ before _ refl (λ u e. attempt-IsTried delays (again before e))

  -- A wake is tried at most four times, with the delays of 30, 60 and 120 seconds between, and only
  -- while each try ends with a 503: the first that completes or fails otherwise ends the wake as it
  -- ended, and a fourth 503 ends it as unavailable after three retries.
  pub process_with_unavailable_retries-IsTried :
      (s : Db × W) → IsTried s (process_with_unavailable_retries m batch s)
  unfolding process_with_unavailable_retries
  process_with_unavailable_retries-IsTried s = attempt-IsTried unavailable_retry_delays first
