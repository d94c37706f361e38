-- ===== src/Rewrite/Clean.antt =====
-- What src/proactive_agent/agent.py stores of a rewritten memory.
use proactive_agent.Prelude.{
  ℕ, zero, suc, ◌+◌, ◌≤◌, ◌<◌, ◌≡◌, refl, false, ◌&&◌, ◌⊎◌, inl, inr, List, leb, ltb, length,
  Bool-cases, arith,
}
use proactive_agent.Text.{Text, is_empty, is_in, strip}
use proactive_agent.Conversation.{Message}
use proactive_agent.Names.{Unicode, name_hits}
use proactive_agent.Rewrite.{
  Prompt, Answer, answer, timed_out, model_error, Result, stored, failed, PrivacyNote, Asking,
  first_asking, judge, rewriting, privacy_compaction_summary,
}

module _ (u : Unicode) (user_id : Text) (names : List Text)
    (run : List Message → Prompt → Answer Text) (max_id max_name : ℕ) where
  -- How a rewriting ends: it fails, or a note is stored that is not blank, does not hold the user id,
  -- and was asked for no more often than allowed; names are left only if that was asked about.
  pub data IsRewritten : Result PrivacyNote → Type 0 where
    gave_up : (f : _) → IsRewritten (failed f)
    clean :
        (note : PrivacyNote)
        → is_in user_id note.text ≡ false
        → is_empty (strip u.is_space note.text) ≡ false
        → note.name_hits ≡ length (name_hits u note.text names)
        → 0 < note.attempts
        → note.attempts ≤ 1 + max_id + max_name
        → (note.name_hits ≡ 0) ⊎ (max_name < note.attempts)
        → IsRewritten (stored note)

  -- The attempts are those that asked again.
  IsCounted : ℕ → Asking → Type 0
  IsCounted fuel s =
      (s.attempts ≡ s.id_retries + s.name_retries)
      × (s.id_retries ≤ max_id)
      × (s.name_retries ≤ max_name)
      × (max_id + max_name < s.attempts + fuel)

  judge-IsRewritten :
      (fuel : ℕ) (s : Asking)
      → IsCounted (suc fuel) s
      → (again : Asking → List Message → Prompt → Result PrivacyNote)
      → ((s' : Asking) (history : List Message) (prompt : Prompt)
          → IsCounted fuel s'
          → IsRewritten (again s' history prompt))
      → (a : Answer Text) → IsRewritten (judge u user_id names run max_id max_name again s a)
  unfolding judge IsCounted
  judge-IsRewritten fuel s c again ok timed_out = gave_up _
  judge-IsRewritten fuel s c again ok model_error = gave_up _
  judge-IsRewritten fuel s (asked, ids, hits, enough) again ok (answer note spent history) =
      elim (Bool-cases (is_empty (strip u.is_space note))) [
        | inl blank ↦ rw blank (gave_up _)
        | inr text ↦ rw text (elim (Bool-cases (is_in user_id note)) [
          | inl leaks ↦ rw leaks (elim (Bool-cases (leb max_id s.id_retries)) [
            | inl last ↦ rw last (gave_up _)
            | inr more ↦ rw more (ok _ _ _ (ground arith, ground arith, hits, ground arith))
          ])
          | inr id_gone ↦
              rw id_gone
                (elim (Bool-cases
                  (ltb 0 (length (name_hits u note names)) && ltb s.name_retries max_name)) [
                    | inl named ↦
                        rw named (ok _ _ _ (ground arith, ids, ground arith, ground arith))
                    | inr done ↦
                        rw done
                          (clean _ id_gone text refl (ground arith) (ground arith) (hits_left done))
                  ])
        ])
      ]
    where
      hits_left :
          (ltb 0 (length (name_hits u note names)) && ltb s.name_retries max_name) ≡ false
          → (length (name_hits u note names) ≡ 0) ⊎ (max_name < s.attempts + 1)
      hits_left e = elim (Bool-cases (ltb 0 (length (name_hits u note names)))) [
        | inl some_hit ↦ inr (ground arith)
        | inr no_hit ↦ inl (ground arith)
      ]

  rewriting-IsRewritten :
      (fuel : ℕ) (s : Asking) (history : List Message) (prompt : Prompt)
      → IsCounted fuel s
      → IsRewritten (rewriting u user_id names run max_id max_name fuel s history prompt)
  unfolding rewriting IsCounted
  rewriting-IsRewritten zero s history prompt (asked, ids, hits, enough) =
      absurd (omega (arith, asked, ids, hits, enough))
  rewriting-IsRewritten (suc fuel) s history prompt c =
      judge-IsRewritten fuel s c _ (rewriting-IsRewritten fuel) (run history prompt)

  -- A rewriting ends, by failing or with a note that is not blank, does not hold the user id, and was
  -- asked for at most once more than the retries allow; names are left in it only if it was asked for
  -- more often than names may be asked about.
  pub privacy_compaction_summary-IsRewritten :
      (messages : List Message)
      → IsRewritten (privacy_compaction_summary u user_id names run max_id max_name messages)
  unfolding privacy_compaction_summary IsCounted
  privacy_compaction_summary-IsRewritten messages =
      rewriting-IsRewritten (suc (max_id + max_name)) first_asking _ _
        (omega arith, omega arith, omega arith, omega arith)
