-- ===== src/Queue/Pending.antt =====
-- No pending notification is lost, repeated or put out of order by the scripts of
-- src/proactive_agent/queue.py that move a guild's pending list into a wake's batch.
use proactive_agent.Prelude.{
  ℕ, ◌≡◌, refl, ap, ◌∙◌, inl, inr, Bool, true, false, none, some, List, [], ◌++◌, arith, Bool-cases,
}
use mathlib.Core.List.{append-nil}
use proactive_agent.Contracts.{NotificationEnvelope, Value}
use proactive_agent.Keys.{same, same_self}
use proactive_agent.Redis.{Redis, exists, get, rename}
use proactive_agent.Redis.Laws.{
  lookup-write_ne, lookup-write_self, lookup-pexpire_ne, get-pexpire_self,
}
use proactive_agent.Queue.{
  PendingKeys, list_of, claim_script, move_pending, move_dropped, pending_keys,
}

-- The four keys are four.
pub record IsDistinct {K : Type 0} (same : K → K → Bool) (k : PendingKeys K) : Type 0 where
  pub self : (j : K) → same j j ≡ true
  pub pending_batch : same k.pending k.batch ≡ false
  pub batch_pending : same k.batch k.pending ≡ false
  pub dropped_batch : same k.dropped k.batch ≡ false
  pub batch_dropped_batch : same k.batch_dropped k.batch ≡ false
  pub dropped_pending : same k.dropped k.pending ≡ false
  pub batch_dropped_pending : same k.batch_dropped k.pending ≡ false
  pub pending_dropped : same k.pending k.dropped ≡ false
  pub batch_dropped' : same k.batch k.dropped ≡ false
  pub batch_dropped_dropped : same k.batch_dropped k.dropped ≡ false
  pub pending_batch_dropped : same k.pending k.batch_dropped ≡ false
  pub batch_batch_dropped : same k.batch k.batch_dropped ≡ false
  pub dropped_batch_dropped : same k.dropped k.batch_dropped ≡ false

pub pending_keys-IsDistinct : (g w : ℕ) (forum : Bool) → IsDistinct same (pending_keys g w forum)
unfolding pending_keys
pending_keys-IsDistinct g w true = record {
  self = same_self;
  pending_batch = refl;
  batch_pending = refl;
  dropped_batch = refl;
  batch_dropped_batch = refl;
  dropped_pending = refl;
  batch_dropped_pending = refl;
  pending_dropped = refl;
  batch_dropped' = refl;
  batch_dropped_dropped = refl;
  pending_batch_dropped = refl;
  batch_batch_dropped = refl;
  dropped_batch_dropped = refl;
}
pending_keys-IsDistinct g w false = record {
  self = same_self;
  pending_batch = refl;
  batch_pending = refl;
  dropped_batch = refl;
  batch_dropped_batch = refl;
  dropped_pending = refl;
  batch_dropped_pending = refl;
  pending_dropped = refl;
  batch_dropped' = refl;
  batch_dropped_dropped = refl;
  pending_batch_dropped = refl;
  batch_batch_dropped = refl;
  dropped_batch_dropped = refl;
}

module _ {K : Type 0} {same : K → K → Bool} (r : Redis K Value same) (k : PendingKeys K) (ms : ℕ)
    (i : IsDistinct same k) where
  open r use {Db, clock, lookup, write, lookup-write}

  abbrev pub batch_of : Db → List NotificationEnvelope
  batch_of d = list_of (get r k.batch d)

  abbrev pub pending_of : Db → List NotificationEnvelope
  pending_of d = list_of (get r k.pending d)

  lookup-move_dropped :
      (j : K) (d : Db)
      → same k.dropped j ≡ false
      → same k.batch_dropped j ≡ false
      → lookup (move_dropped r k ms d) j ≡ lookup d j
  unfolding move_dropped
  lookup-move_dropped j d p q = grind (arith, lookup-write)

  lookup-rename_ne :
      (j : K) (d : Db)
      → same k.pending j ≡ false
      → same k.batch j ≡ false
      → lookup (rename r k.pending k.batch d) j ≡ lookup d j
  lookup-rename_ne j d p q =
      lookup-write_ne r k.batch j _ _ q ∙ lookup-write_ne r k.pending j none d p

  lookup-move_pending :
      (j : K) (d : Db)
      → same k.pending j ≡ false
      → same k.batch j ≡ false
      → lookup (move_pending r k ms d) j ≡ lookup d j
  unfolding move_pending
  lookup-move_pending j d p q = ground (
    arith,
    lookup-rename_ne j d p q,
    lookup-pexpire_ne r k.batch j ms (rename r k.pending k.batch d) q,
  )

  batch-move_pending :
      (d : Db) → exists r k.batch d ≡ false → batch_of (move_pending r k ms d) ≡ pending_of d
  unfolding move_pending
  batch-move_pending d h =
      let d' = rename r k.pending k.batch d in
      ground (
        arith,
        get-pexpire_self r k.batch ms d' (i.self k.batch),
        lookup-write_self r k.batch (lookup d k.pending) (write k.pending none d) (i.self k.batch),
      )

  pending-move_pending : (d : Db) → pending_of (move_pending r k ms d) ≡ []
  unfolding move_pending
  pending-move_pending d =
      let d' = rename r k.pending k.batch d in
      ground (
        arith,
        lookup-pexpire_ne r k.batch k.pending ms d' i.batch_pending,
        lookup-write_ne r k.batch k.pending (lookup d k.pending) (write k.pending none d)
            i.batch_pending,
        lookup-write_self r k.pending none d (i.self k.pending),
      )

  -- Claiming returns what the batch then holds.
  pub claim-returns : (d : Db) → (claim_script r k ms d).1.1 ≡ batch_of (claim_script r k ms d).0
  unfolding claim_script
  claim-returns d = refl

  claim-existing : (d : Db) → exists r k.batch d ≡ true → (claim_script r k ms d).0 ≡ d
  unfolding claim_script
  claim-existing d h = rw h refl

  claim-new :
      (d : Db)
      → exists r k.batch d ≡ false
      → (claim_script r k ms d).0 ≡ move_dropped r k ms (move_pending r k ms d)
  unfolding claim_script
  claim-new d h = rw h refl

  batch-claim :
      (d : Db) → exists r k.batch d ≡ false → batch_of (claim_script r k ms d).0 ≡ pending_of d
  batch-claim d h = rw (claim-new d h) (
      ap (λ o. list_of (elim o [ none ↦ none | some e ↦ some e.value ]))
        (lookup-move_dropped k.batch (move_pending r k ms d) i.dropped_batch i.batch_dropped_batch)
      ∙ batch-move_pending d h)

  pending-claim : (d : Db) → exists r k.batch d ≡ false → pending_of (claim_script r k ms d).0 ≡ []
  pending-claim d h = rw (claim-new d h) (
      ap (λ o. list_of (elim o [ none ↦ none | some e ↦ some e.value ]))
        (lookup-move_dropped k.pending (move_pending r k ms d) i.dropped_pending
          i.batch_dropped_pending)
      ∙ pending-move_pending d)

  no_batch : (d : Db) → exists r k.batch d ≡ false → batch_of d ≡ []
  no_batch d h = ground arith

  -- Whatever the keys hold, what the batch and then the pending list hold after a claim is what they
  -- held before it, in order.
  pub claim-conserves :
      (d : Db)
      → batch_of (claim_script r k ms d).0 ++ pending_of (claim_script r k ms d).0
        ≡ batch_of d ++ pending_of d
  claim-conserves d = elim (Bool-cases (exists r k.batch d)) [
    | inl old ↦ rw (claim-existing d old) refl
    | inr new ↦ rw (batch-claim d new, pending-claim d new, no_batch d new) (append-nil _)
  ]
