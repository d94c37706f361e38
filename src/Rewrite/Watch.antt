-- ===== src/Rewrite/Watch.antt =====
-- What src/proactive_agent/agent.py makes of the watch instructions of a channel.
use proactive_agent.Prelude.{
  ℕ, zero, suc, ◌+◌, ◌≤◌, ◌<◌, ◌≡◌, refl, false, ◌&&◌, inl, inr, Option, none, some, List, [], ◌∷◌,
  leb, ltb, any, Bool-cases, arith,
}
use proactive_agent.Text.{Text, is_empty, is_in}
use proactive_agent.Conversation.{Message}
use proactive_agent.Names.{Unicode}
use proactive_agent.Rewrite.{
  max_id_retries, max_name_retries, Prompt, Answer, answer, timed_out, model_error, Failure, Result,
  stored, failed, Asking, first_asking, Action, keep, drop, rewrite, Entries, Decisions, Outcome,
  decision_on, stripped, decide, join_outcome, outcome_of, kept, leaks_name, judge_outcome,
  judge_decisions, deciding, privacy_watch_decisions,
}

-- Each entry, in order, is kept as it was, dropped, or rewritten to a text that is not empty.
pub data IsRevised : Entries → Outcome → Type 0 where
  end : IsRevised [] []
  unchanged :
      (key : ℕ) (text : Text) {entries : Entries} {outcome : Outcome}
      → IsRevised entries outcome
      → IsRevised ((key, text) ∷ entries) ((key, some text) ∷ outcome)
  dropped :
      (key : ℕ) (text : Text) {entries : Entries} {outcome : Outcome}
      → IsRevised entries outcome
      → IsRevised ((key, text) ∷ entries) ((key, none) ∷ outcome)
  rewritten :
      (key : ℕ) (text new : Text) {entries : Entries} {outcome : Outcome}
      → is_empty new ≡ false
      → IsRevised entries outcome
      → IsRevised ((key, text) ∷ entries) ((key, some new) ∷ outcome)

-- An outcome, if there is one, is a revision.
data IsOutcome (entries : Entries) : Option Outcome → Type 0 where
  no_outcome : IsOutcome entries none
  revised : {outcome : Outcome} → IsRevised entries outcome → IsOutcome entries (some outcome)

module _ (u : Unicode) where
  join_outcome-IsOutcome :
      (key : ℕ) (text : Text) (entries : Entries) (action : Action) (o : Option Outcome)
      → IsOutcome entries o
      → IsOutcome ((key, text) ∷ entries) (join_outcome u key (decide u text action) o)
  unfolding decide join_outcome
  join_outcome-IsOutcome key text entries keep o no_outcome = no_outcome
  join_outcome-IsOutcome key text entries keep o (revised r) = revised (unchanged key text r)
  join_outcome-IsOutcome key text entries drop o no_outcome = no_outcome
  join_outcome-IsOutcome key text entries drop o (revised r) = revised (dropped key text r)
  join_outcome-IsOutcome key text entries (rewrite new) o h =
      elim (Bool-cases (is_empty (stripped u new))) [
        | inl blank ↦ rw blank no_outcome
        | inr full ↦ rw full (with_new o h full)
      ]
    where
      with_new :
          (o : Option Outcome)
          → IsOutcome entries o
          → is_empty (stripped u new) ≡ false
          → IsOutcome ((key, text) ∷ entries) (join_outcome u key (some (some (stripped u new))) o)
      with_new o no_outcome full = no_outcome
      with_new o (revised r) full = revised (rewritten key text (stripped u new) full r)

  outcome_of-IsOutcome :
      (decisions : Decisions) (entries : Entries)
      → IsOutcome entries (outcome_of u decisions entries)
  unfolding outcome_of
  outcome_of-IsOutcome decisions [] = revised end
  outcome_of-IsOutcome decisions ((key, text) ∷ entries) =
      join_outcome-IsOutcome key text entries (decision_on key decisions) _
        (outcome_of-IsOutcome decisions entries)

module _ (u : Unicode) (user_id : Text) (names : List Text)
    (run : Entries → List Message → Prompt → Answer Decisions) where
  -- The decisions fail, or revise the entries so that no kept text holds the user id.
  pub data IsDecided (entries : Entries) : Result (Outcome × ℕ) → Type 0 where
    gave_up : (f : Failure) → IsDecided entries (failed f)
    decided :
        (outcome : Outcome) (leaks : ℕ)
        → IsRevised entries outcome
        → any (is_in user_id) (kept outcome) ≡ false
        → IsDecided entries (stored (outcome, leaks))

  -- The loop asks again while its retries last.
  IsBounded : ℕ → Asking → Type 0
  IsBounded fuel s =
      (s.id_retries ≤ max_id_retries)
      × (s.name_retries ≤ max_name_retries)
      × (max_id_retries + max_name_retries < s.id_retries + s.name_retries + fuel)

  judge_outcome-IsDecided :
      (fuel : ℕ) (s : Asking) (entries : Entries) (history : List Message)
      → IsBounded (suc fuel) s
      → (again : Asking → List Message → Prompt → Result (Outcome × ℕ))
      → ((s' : Asking) (history : List Message) (prompt : Prompt)
          → IsBounded fuel s'
          → IsDecided entries (again s' history prompt))
      → (o : Option Outcome) → IsOutcome entries o
      → IsDecided entries (judge_outcome u user_id names run again s history o)
  unfolding judge_outcome IsBounded
  judge_outcome-IsDecided fuel s entries history c again ok o no_outcome = gave_up _
  judge_outcome-IsDecided fuel s entries history (ids, hits, enough) again ok o
        (revised {outcome} r) =
      elim (Bool-cases (any (is_in user_id) (kept outcome))) [
        | inl leaks ↦ rw leaks (elim (Bool-cases (leb max_id_retries s.id_retries)) [
          | inl last ↦ rw last (gave_up _)
          | inr more ↦ rw more (ok _ _ _ (ground arith, hits, ground arith))
        ])
        | inr id_gone ↦
            rw id_gone
              (elim (Bool-cases (
                ltb 0 (leaks_name u user_id names run outcome)
                && ltb s.name_retries max_name_retries)) [
                  | inl named ↦ rw named (ok _ _ _ (ids, ground arith, ground arith))
                  | inr done ↦ rw done (decided outcome _ r id_gone)
                ])
      ]

  judge_decisions-IsDecided :
      (fuel : ℕ) (s : Asking) (entries : Entries)
      → IsBounded (suc fuel) s
      → (again : Asking → List Message → Prompt → Result (Outcome × ℕ))
      → ((s' : Asking) (history : List Message) (prompt : Prompt)
          → IsBounded fuel s'
          → IsDecided entries (again s' history prompt))
      → (a : Answer Decisions)
      → IsDecided entries (judge_decisions u user_id names run again s entries a)
  unfolding judge_decisions
  judge_decisions-IsDecided fuel s entries c again ok timed_out = gave_up _
  judge_decisions-IsDecided fuel s entries c again ok model_error = gave_up _
  judge_decisions-IsDecided fuel s entries c again ok (answer decisions spent after) =
      judge_outcome-IsDecided fuel s entries after c again ok _
        (outcome_of-IsOutcome u decisions entries)

  deciding-IsDecided :
      (fuel : ℕ) (s : Asking) (entries : Entries) (history : List Message) (prompt : Prompt)
      → IsBounded fuel s
      → IsDecided entries (deciding u user_id names run fuel s entries history prompt)
  unfolding deciding IsBounded
  deciding-IsDecided zero s entries history prompt (ids, hits, enough) =
      absurd (omega (arith, ids, hits, enough))
  deciding-IsDecided (suc fuel) s entries history prompt c =
      judge_decisions-IsDecided fuel s entries c _
        (λ s' h' p' c'. deciding-IsDecided fuel s' entries h' p' c') (run entries history prompt)

  -- The decisions on watch instructions end, by failing or with an outcome for each entry, in order:
  -- kept as it was, dropped, or rewritten to a text that is not empty; no kept text holds the user id.
  pub privacy_watch_decisions-IsDecided :
      (entries : Entries) → IsDecided entries (privacy_watch_decisions u user_id names run entries)
  unfolding privacy_watch_decisions IsBounded
  privacy_watch_decisions-IsDecided [] = decided [] 0 end refl
  privacy_watch_decisions-IsDecided (entry ∷ entries) =
      deciding-IsDecided (suc (max_id_retries + max_name_retries)) first_asking (entry ∷ entries) []
        _ (omega arith, omega arith, omega arith)
