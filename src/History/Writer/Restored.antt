-- ===== src/History/Writer/Restored.antt =====
-- `restore` of src/proactive_agent/history.py puts back what `discard` took.
use proactive_agent.Prelude.{ℕ, ◌≡◌, refl, ap, ◌∙◌, false, Option, none, some, arith}
use proactive_agent.History.{Snapshot}
use proactive_agent.History.Writer.{Writer, restore, schedule_flush}

module _ {H : Type 0} where
  -- A dirty copy stands under its own guild.
  abbrev pub IsOwn : ℕ → Option (Snapshot H) → Type 0
  IsOwn g taken = (s : Snapshot H) → taken ≡ some s → s.guild_id ≡ g

  dirty-schedule_flush :
      (g : ℕ) (s : Snapshot H) (w : Writer H)
      → s.guild_id ≡ g
      → (schedule_flush s w).dirty g ≡ some s
  unfolding schedule_flush
  dirty-schedule_flush g s w e = ground (arith, e)

  restore-schedule_flush :
      (s : Snapshot H) (w : Writer H)
      → w.closed ≡ false
      → (o : Option (Snapshot H)) → w.dirty s.guild_id ≡ o
      → o ≡ none
      → restore (some s) w ≡ schedule_flush s w
  unfolding restore
  restore-schedule_flush s w open_writer none e f = simp (open_writer, e) refl
  restore-schedule_flush s w open_writer (some x) e f = absurd cc

  -- What was taken comes back to a writer that is open and has no dirty copy of the guild.
  pub dirty-restore :
      (g : ℕ) (w : Writer H)
      → w.closed ≡ false
      → w.dirty g ≡ none
      → (taken : Option (Snapshot H)) → IsOwn g taken
      → (restore taken w).dirty g ≡ taken
  unfolding restore
  dirty-restore g w open_writer clean none own = clean
  dirty-restore g w open_writer clean (some s) own =
      let at_own : w.dirty s.guild_id ≡ none = ap w.dirty (own s refl) ∙ clean in
      ap (λ v. v.dirty g) (restore-schedule_flush s w open_writer _ refl at_own)
      ∙ dirty-schedule_flush g s w (own s refl)
