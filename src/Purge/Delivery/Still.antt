-- ===== src/Purge/Delivery/Still.antt =====
-- What leaves an entry of the purge stream where it was, in src/proactive_agent/purge.py.
use proactive_agent.Prelude.{
  ℕ, ◌≡◌, refl, ◌∙◌, Bool, true, false, ◌||◌, Option, none, some, Bool-cases, inl, inr,
}
use proactive_agent.Purge.{GuildOutcome}
use proactive_agent.Purge.Delivery.{
  Consumer, Entry, is_failed, save_once, save_again, record_done, recorded, result_of,
}

module _ (c : Consumer) where
  -- The entry is where it was.
  pub record IsStill (d d' : Entry c) : Type 0 where
    pub pending : d'.pending ≡ d.pending
    pub in_stream : d'.in_stream ≡ d.in_stream
    pub acks : d'.acks ≡ d.acks

  save_once-IsStill :
      (g : ℕ) (o : GuildOutcome) (d : Entry c) (x : c.World × Bool)
      → IsStill d (save_once c g o d x).0
  unfolding save_once
  save_once-IsStill g o d (w, true) = record { pending = refl; in_stream = refl; acks = refl }
  save_once-IsStill g o d (w, false) = record { pending = refl; in_stream = refl; acks = refl }

  IsStill-trans : {d e f : Entry c} → IsStill d e → IsStill e f → IsStill d f
  IsStill-trans h k = record {
    pending = k.pending ∙ h.pending;
    in_stream = k.in_stream ∙ h.in_stream;
    acks = k.acks ∙ h.acks;
  }

  save_again-IsStill :
      (g : ℕ) (o : GuildOutcome) (d : Entry c) (x : Entry c × Bool)
      → IsStill d x.0
      → IsStill d (save_again c g o x).0
  unfolding save_again
  save_again-IsStill g o d (e, true) h = h
  save_again-IsStill g o d (e, false) h =
      IsStill-trans h (save_once-IsStill g o e (c.saves e.world))

  pub record_done-IsStill :
      (g : ℕ) (o : GuildOutcome) (d : Entry c) → IsStill d (record_done c g o d).0
  unfolding record_done
  record_done-IsStill g o d = save_again-IsStill g o d _ (save_once-IsStill g o d (c.saves d.world))

  recorded-IsStill :
      (g : ℕ) (x : c.World × GuildOutcome) (d : Entry c) → IsStill d (recorded c g x d).0
  unfolding recorded
  recorded-IsStill g (w, o) d = elim (Bool-cases (o.retry || is_failed c o.outcome)) [
    | inl again ↦ rw again (record { pending = refl; in_stream = refl; acks = refl })
    | inr finished ↦
        let e : Entry c = record d { world = w } in
        rw finished (
          IsStill-trans {d = d} {e = e} (record { pending = refl; in_stream = refl; acks = refl })
            (record_done-IsStill g o e))
  ]

  pub result_of-IsStill :
      (g : ℕ) (o : Option GuildOutcome) (d : Entry c) → IsStill d (result_of c g o d).0
  unfolding result_of
  result_of-IsStill g (some o) d = record { pending = refl; in_stream = refl; acks = refl }
  result_of-IsStill g none d = recorded-IsStill g _ d
