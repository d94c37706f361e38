-- ===== src/Purge/Delivery/GivenUp.antt =====
-- How `_give_up` of src/proactive_agent/purge.py ends, guild by guild.
use proactive_agent.Prelude.{
  ℕ, ◌≡◌, refl, ap, ◌∙◌, Bool, true, false, not, ◌||◌, ◌⊎◌, inl, inr, Option, none, some, List, [],
  ◌∷◌, ◌==◌, any, all, Bool-cases, arith,
}
use proactive_agent.Purge.{GuildOutcome}
use proactive_agent.Purge.Delivery.{
  Consumer, Entry, failed_outcome, drop_entry, save_once, save_again, record_done, accept, post,
  unfinished, gave, give_up,
}
use proactive_agent.Purge.Delivery.Still.{IsStill, record_done-IsStill}

module _ (c : Consumer) where
  -- The server answered an ack of the run that it does not know it.
  pub record IsDisowned : Type 0 where
    pub guild_id : ℕ
    pub result : GuildOutcome
    pub world : c.World
    pub answer : (c.post_ack guild_id result world).1 ≡ some false

  abbrev is_there : Option GuildOutcome → Bool
  is_there none = false
  is_there (some o) = true

  -- A guild's result is recorded, or the server accepted one.
  abbrev pub told : Entry c → ℕ → Bool
  told d g = is_there (d.done g) || any (λ x. x.0 == g) d.acks

  abbrev pub IsMoreTold : Entry c → Entry c → Type 0
  IsMoreTold d d' = (g : ℕ) → told d g ≡ true → told d' g ≡ true

  save_once-told :
      (g : ℕ) (o : GuildOutcome) (d : Entry c) (x : c.World × Bool)
      → IsMoreTold d (save_once c g o d x).0
        × ((save_once c g o d x).1 ≡ true → told (save_once c g o d x).0 g ≡ true)
  unfolding save_once
  save_once-told g o d (w, true) = (λ k h. ground (arith, h), λ h. ground arith)
  save_once-told g o d (w, false) = (λ k h. h, λ h. absurd cc)

  save_again-told :
      (g : ℕ) (o : GuildOutcome) (d : Entry c) (x : Entry c × Bool)
      → IsMoreTold d x.0 × (x.1 ≡ true → told x.0 g ≡ true)
      → IsMoreTold d (save_again c g o x).0
        × ((save_again c g o x).1 ≡ true → told (save_again c g o x).0 g ≡ true)
  unfolding save_again
  save_again-told g o d (e, true) h = h
  save_again-told g o d (e, false) (more, own) =
      let (more', own') = save_once-told g o e (c.saves e.world) in
      (λ k h. more' k (more k h), own')

  record_done-told :
      (g : ℕ) (o : GuildOutcome) (d : Entry c)
      → IsMoreTold d (record_done c g o d).0
        × ((record_done c g o d).1 ≡ true → told (record_done c g o d).0 g ≡ true)
  unfolding record_done
  record_done-told g o d = save_again-told g o d _ (save_once-told g o d (c.saves d.world))

  -- What a guild's turn leaves before its ack.
  record IsRecorded (g : ℕ) (d : Entry c) (x : Entry c × GuildOutcome × Bool) : Type 0 where
    still : IsStill c d x.0
    more : IsMoreTold d x.0
    own : x.2 ≡ true → told x.0 g ≡ true

  unfinished-IsRecorded :
      (g : ℕ) (d : Entry c) (o : Option GuildOutcome)
      → d.done g ≡ o
      → IsRecorded g d (unfinished c g o d)
  unfolding unfinished
  unfinished-IsRecorded g d (some o) e = record {
    still = record { pending = refl; in_stream = refl; acks = refl };
    more = λ k h. h;
    own = λ h. ground (arith, e);
  }
  unfinished-IsRecorded g d none e =
      let o = failed_outcome (c.tombstoned d.world g) in
      let (more, own) = record_done-told g o d in
      record { still = record_done-IsStill c g o d; more = more; own = own }

  -- How the loop ends, where `b` says that a guild before has no record and no answered ack.
  pub data IsGiven (b : Bool) (guilds : List ℕ) (d d' : Entry c) : Type 0 where
    left : d'.pending ≡ d.pending → d'.in_stream ≡ d.in_stream → IsGiven b guilds d d'
    unknown_run : IsDisowned → d'.pending ≡ false → d'.in_stream ≡ false → IsGiven b guilds d d'
    told_all :
        b ≡ false
        → d'.pending ≡ false
        → (d'.in_stream ≡ d.in_stream) ⊎ (c.others_done_with d'.world ≡ true)
        → all (told d') guilds ≡ true
        → IsMoreTold d d'
        → IsGiven b guilds d d'

  stream_from :
      (d e f : Entry c)
      → e.in_stream ≡ d.in_stream
      → (f.in_stream ≡ e.in_stream) ⊎ (c.others_done_with f.world ≡ true)
      → (f.in_stream ≡ d.in_stream) ⊎ (c.others_done_with f.world ≡ true)
  stream_from d e f h (inl q) = inl (q ∙ h)
  stream_from d e f h (inr q) = inr q

  next-IsGiven :
      (b b' : Bool) (g : ℕ) (guilds : List ℕ) (d e f : Entry c)
      → e.pending ≡ d.pending
      → e.in_stream ≡ d.in_stream
      → IsMoreTold d e
      → (b' ≡ false → (b ≡ false) × (told e g ≡ true))
      → IsGiven b' guilds e f
      → IsGiven b (g ∷ guilds) d f
  next-IsGiven b b' g guilds d e f p q more own (left p' q') = left (p' ∙ p) (q' ∙ q)
  next-IsGiven b b' g guilds d e f p q more own (unknown_run said p' q') = unknown_run said p' q'
  next-IsGiven b b' g guilds d e f p q more own (told_all ok p' q' all_told more') =
      let (before, here) = own ok in
      told_all before p' (stream_from d e f q q')
        (let first = more' g here in ground (arith, first, all_told)) (λ k h. more' k (more k h))

  reported-IsGiven :
      (b : Bool) (g : ℕ) (guilds : List ℕ) (d : Entry c) (rest : Bool → Entry c → Entry c)
      → ((b' : Bool) (e : Entry c) → IsGiven b' guilds e (rest b' e))
      → (x : Entry c × GuildOutcome × Bool) → IsRecorded g d x
      → (w : c.World) (reply : Option Bool) → c.post_ack g x.1 x.0.world ≡ (w, reply)
      → IsGiven b (g ∷ guilds) d (
          gave c b rest x.2 (record x.0 { world = w; acks = accept c g x.1 reply x.0.acks }, reply))
  unfolding gave drop_entry
  reported-IsGiven b g guilds d rest ih (e, o, saved) h w (some false) said =
      unknown_run
        (record { guild_id = g; result = o; world = e.world; answer = ap (λ y. y.1) said }) refl
        refl
  reported-IsGiven b g guilds d rest ih (e, o, saved) h w none said =
      next-IsGiven b (b || not saved) g guilds d (record e { world = w }) _ h.still.pending
        h.still.in_stream h.more (λ ok. (ground (arith, ok), h.own (ground (arith, ok))))
        (ih (b || not saved) (record e { world = w }))
  reported-IsGiven b g guilds d rest ih (e, o, saved) h w (some true) said =
      let e' : Entry c = record e { world = w; acks = (g, o) ∷ e.acks } in
      next-IsGiven b b g guilds d e' _ h.still.pending h.still.in_stream
        (λ k t. let m = h.more k t in ground (arith, m)) (λ ok. (ok, ground arith)) (ih b e')

  pub give_up-IsGiven :
      (guilds : List ℕ) (b : Bool) (d : Entry c) → IsGiven b guilds d (give_up c guilds b d)
  unfolding give_up drop_entry post
  give_up-IsGiven [] true d = left refl refl
  give_up-IsGiven [] false d = elim (Bool-cases (c.others_done_with d.world)) [
    | inl others ↦ rw others (told_all refl refl (inr others) refl (λ g h. h))
    | inr waiting ↦ rw waiting (told_all refl refl (inl refl) refl (λ g h. h))
  ]
  give_up-IsGiven (g ∷ guilds) b d =
      let x = unfinished c g (d.done g) d in
      let y = c.post_ack g x.1 x.0.world in
      reported-IsGiven b g guilds d _ (λ b' e. give_up-IsGiven guilds b' e) x
        (unfinished-IsRecorded g d (d.done g) refl) y.0 y.1 refl
