-- ===== src/Purge/Delivery/Handled.antt =====
-- When src/proactive_agent/purge.py is done with an entry of the purge stream.
use proactive_agent.Prelude.{
  ℕ, ◌+◌, ◌≤◌, ◌≡◌, refl, sym, ap, ◌∙◌, Bool, true, false, not, ◌&&◌, Option, none, some, List, [],
  ◌∷◌, leb, ◌==◌, any, all, ◌⊎◌, Bool-cases, inl, inr, arith,
}
use proactive_agent.Purge.{GuildOutcome}
use proactive_agent.Purge.Delivery.{
  max_deliveries, Consumer, Entry, failed_outcome, drop_entry, accept, post, result_of, forget_run,
  after_ack, purge_guilds, after_report, report_tombstoned, handle_command,
}
use proactive_agent.Purge.Delivery.Still.{IsStill, result_of-IsStill}
use proactive_agent.Purge.Delivery.GivenUp.{
  IsDisowned, told, IsGiven, left, unknown_run, told_all, give_up-IsGiven,
}

abbrev pub Acks : Type 0
Acks = List (ℕ × GuildOutcome)

-- The server has accepted a result of the guild that asks for no retry.
abbrev pub acked : Acks → ℕ → Bool
acked acks g = any (λ x. x.0 == g && not x.1.retry) acks

abbrev pub IsMore : Acks → Acks → Type 0
IsMore old new = (g : ℕ) → acked old g ≡ true → acked new g ≡ true

module _ (c : Consumer) where
  -- How the loop over the guilds ends, where the guilds before were all acked if `b`: the entry is
  -- where it was; the run is unknown, and the entry is gone; or the group is done with it, and the
  -- server accepted a result of every guild that asks for no retry.
  data IsRun (b : Bool) (guilds : List ℕ) (d d' : Entry c) : Type 0 where
    still : d'.pending ≡ d.pending → d'.in_stream ≡ d.in_stream → IsRun b guilds d d'
    unknown : IsDisowned c → d'.pending ≡ false → d'.in_stream ≡ false → IsRun b guilds d d'
    finished :
        b ≡ true
        → d'.in_stream ≡ d.in_stream
        → all (acked d'.acks) guilds ≡ true
        → IsMore d.acks d'.acks
        → IsRun b guilds d d'

  accepted_one :
      (b : Bool) (g : ℕ) (guilds : List ℕ) (o : GuildOutcome) (d e f : Entry c)
      → IsStill c d e
      → IsRun (b && not o.retry) guilds (record e { acks = (g, o) ∷ e.acks }) f
      → IsRun b (g ∷ guilds) d f
  accepted_one b g guilds o d e f h (still p q) = still (p ∙ h.pending) (q ∙ h.in_stream)
  accepted_one b g guilds o d e f h (unknown said p q) = unknown said p q
  accepted_one b g guilds o d e f h (finished ok q done more) =
      finished (ground (arith, ok)) (q ∙ h.in_stream)
        (let own = more g (ground (arith, ok)) in ground (arith, own, done))
        (λ k was.
          more k (let same_acks = ap (λ a. acked a k) h.acks in ground (arith, same_acks, was)))

  unanswered :
      (b : Bool) (g : ℕ) (guilds : List ℕ) (d e f : Entry c)
      → IsStill c d e
      → IsRun false guilds e f
      → IsRun b (g ∷ guilds) d f
  unanswered b g guilds d e f h (still p q) = still (p ∙ h.pending) (q ∙ h.in_stream)
  unanswered b g guilds d e f h (unknown said p q) = unknown said p q
  unanswered b g guilds d e f h (finished never q done more) = absurd cc

  after_ack-IsRun :
      (b : Bool) (guild_ids : List ℕ) (g : ℕ) (guilds : List ℕ) (o : GuildOutcome) (d e : Entry c)
      (w : c.World) (rest : Bool → Entry c → Entry c)
      → IsStill c d e
      → ((b' : Bool) (x : Entry c) → IsRun b' guilds x (rest b' x))
      → (reply : Option Bool) → (c.post_ack g o e.world).1 ≡ reply
      → IsRun b (g ∷ guilds) d (
          after_ack c guild_ids
            (b && not o.retry)
            rest
            (record e { world = w; acks = accept c g o reply e.acks }, reply))
  unfolding after_ack forget_run drop_entry
  after_ack-IsRun b guild_ids g guilds o d e w rest h ih none said =
      unanswered b g guilds d (record e { world = w }) _
        (record { pending = h.pending; in_stream = h.in_stream; acks = h.acks })
        (ih false (record e { world = w }))
  after_ack-IsRun b guild_ids g guilds o d e w rest h ih (some false) said =
      unknown (record { guild_id = g; result = o; world = e.world; answer = said }) refl refl
  after_ack-IsRun b guild_ids g guilds o d e w rest h ih (some true) said =
      accepted_one b g guilds o d (record e { world = w }) _
        (record { pending = h.pending; in_stream = h.in_stream; acks = h.acks })
        (ih (b && not o.retry) (record e { world = w; acks = (g, o) ∷ e.acks }))

  purge_guilds-IsRun :
      (guild_ids guilds : List ℕ) (b : Bool) (d : Entry c)
      → IsRun b guilds d (purge_guilds c guild_ids guilds b d)
  unfolding purge_guilds post
  purge_guilds-IsRun guild_ids [] true d = finished refl refl refl (λ g was. was)
  purge_guilds-IsRun guild_ids [] false d = still refl refl
  purge_guilds-IsRun guild_ids (g ∷ guilds) b d =
      let x = result_of c g (d.done g) d in
      let y = c.post_ack g x.1 x.0.world in
      after_ack-IsRun b guild_ids g guilds x.1 d x.0 y.0 _ (result_of-IsStill c g (d.done g) d)
        (λ b' e. purge_guilds-IsRun guild_ids guilds b' e) y.1 refl

  reread :
      (d e f : Entry c)
      → e.pending ≡ d.pending
      → e.in_stream ≡ d.in_stream
      → IsRun false [] e f
      → IsRun false [] d f
  reread d e f p q (still p' q') = still (p' ∙ p) (q' ∙ q)
  reread d e f p q (unknown said p' q') = unknown said p' q'
  reread d e f p q (finished never q' done more) = absurd cc

  after_report-IsRun :
      (b : Bool) (g : ℕ) (o : GuildOutcome) (d : Entry c) (w : c.World) (rest : Entry c → Entry c)
      → ((x : Entry c) → IsRun false [] x (rest x))
      → (reply : Option Bool) → (c.post_ack g o d.world).1 ≡ reply
      → IsRun false [] d
          (after_report c rest (record d { world = w; acks = accept c g o reply d.acks }, reply))
  unfolding after_report drop_entry
  after_report-IsRun b g o d w rest ih none said =
      reread d _ _ refl refl (ih (record d { world = w }))
  after_report-IsRun b g o d w rest ih (some false) said =
      unknown (record { guild_id = g; result = o; world = d.world; answer = said }) refl refl
  after_report-IsRun b g o d w rest ih (some true) said =
      reread d _ _ refl refl (ih (record d { world = w; acks = (g, o) ∷ d.acks }))

  report_tombstoned-IsRun :
      (guilds : List ℕ) (d : Entry c) → IsRun false [] d (report_tombstoned c guilds d)
  unfolding report_tombstoned post
  report_tombstoned-IsRun [] d = still refl refl
  report_tombstoned-IsRun (g ∷ guilds) d =
      let y = c.post_ack g (failed_outcome true) d.world in
      after_report-IsRun false g (failed_outcome true) d y.0 _ (report_tombstoned-IsRun guilds) y.1
        refl

  -- What the handling of a command makes of its entry.
  pub data IsHandled (guild_ids : List ℕ) (d d' : Entry c) : Type 0 where
    kept : d'.pending ≡ d.pending → d'.in_stream ≡ d.in_stream → IsHandled guild_ids d d'
    run_unknown :
        IsDisowned c → d'.pending ≡ false → d'.in_stream ≡ false → IsHandled guild_ids d d'
    acked_by_all :
        d'.in_stream ≡ d.in_stream → all (acked d'.acks) guild_ids ≡ true → IsHandled guild_ids d d'
    given_up :
        max_deliveries ≤ d.deliveries
        → any (c.tombstoned (c.recover_tombstones guild_ids d.world)) guild_ids ≡ false
        → d'.pending ≡ false
        → (d'.in_stream ≡ d.in_stream) ⊎ (c.others_done_with d'.world ≡ true)
        → all (told c d') guild_ids ≡ true
        → IsHandled guild_ids d d'

  IsRun-IsHandled :
      {b : Bool} (guilds guild_ids : List ℕ) (d e f : Entry c)
      → e.pending ≡ d.pending
      → e.in_stream ≡ d.in_stream
      → (b ≡ true → guilds ≡ guild_ids)
      → IsRun b guilds e f
      → IsHandled guild_ids d f
  IsRun-IsHandled guilds guild_ids d e f p q same_guilds (still p' q') = kept (p' ∙ p) (q' ∙ q)
  IsRun-IsHandled guilds guild_ids d e f p q same_guilds (unknown said p' q') =
      run_unknown said p' q'
  IsRun-IsHandled guilds guild_ids d e f p q same_guilds (finished ok q' done more) =
      acked_by_all (q' ∙ q) (ap (λ l. all (acked f.acks) l) (sym (same_guilds ok)) ∙ done)

  -- A command's entry stays where it was, pending for this group, unless one of three things
  -- happened: the server answered that it does not know the run, and the entry is deleted; the server
  -- accepted, of every guild of the command, a result that asks for no retry; or the command was
  -- delivered more than five times, no guild of it is tombstoned, and of every guild there is a done
  -- record or an answered ack.
  pub handle_command-IsHandled :
      (guild_ids : List ℕ) (d : Entry c) → IsHandled guild_ids d (handle_command c guild_ids d)
  unfolding handle_command
  handle_command-IsHandled guild_ids d =
      elim (Bool-cases
        (leb (max_deliveries + 1) (d.deliveries + 1) && not (any (c.tombstoned world) guild_ids))) [
          | inl over ↦ rw over (
              gave_up (ground (arith, over)) (ground (arith, over)) _
                (give_up-IsGiven c guild_ids false (started world)))
          | inr within ↦ rw within (elim (Bool-cases (c.enforcing_target world).1) [
            | inl enforcing ↦ rw enforcing (
                IsRun-IsHandled guild_ids guild_ids d (started (c.enforcing_target world).0) _ refl
                  refl (λ e. refl)
                  (purge_guilds-IsRun guild_ids guild_ids true
                    (started (c.enforcing_target world).0)))
            | inr waiting ↦ rw waiting (
                IsRun-IsHandled [] guild_ids d (started (c.enforcing_target world).0) _ refl refl
                  (λ e. absurd cc)
                  (report_tombstoned-IsRun _ (started (c.enforcing_target world).0)))
          ])
        ]
    where
      world : c.World
      world = c.recover_tombstones guild_ids d.world

      started : c.World → Entry c
      started w = record d { deliveries = d.deliveries + 1; world = w }

      gave_up :
          max_deliveries ≤ d.deliveries
          → any (c.tombstoned world) guild_ids ≡ false
          → (f : Entry c) → IsGiven c false guild_ids (started world) f
          → IsHandled guild_ids d f
      gave_up many free f (left p q) = kept p q
      gave_up many free f (unknown_run said p q) = run_unknown said p q
      gave_up many free f (told_all ok p q all_told more) = given_up many free p q all_told
