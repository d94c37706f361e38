-- ===== src/Queue/Drain.antt =====
-- `_APPEND_PENDING_LUA` of src/proactive_agent/queue.py, and runs of both scripts between the bot's
-- own writes: the batch and the pending list together hold every notification once, in order.
use proactive_agent.Prelude.{
  ℕ, ◌+◌, ◌≡◌, refl, sym, ap, ◌∙◌, inl, inr, Bool, false, Option, none, some, List, [], ◌∷◌, ◌++◌,
  arith, ltb, Bool-cases,
}
use mathlib.Core.List.{append-nil, append_assoc}
use proactive_agent.Contracts.{NotificationEnvelope, Value, number, items}
use proactive_agent.Redis.{Redis, get, del, modify, increment}
use proactive_agent.Redis.Laws.{
  lookup-write_ne, lookup-write_self, lookup-pexpire_ne, get-pexpire_self, lookup-modify_ne,
  get-modify_self,
}
use proactive_agent.Queue.{
  PendingKeys, list_of, count_of, counter, claim_script, append_script, push_all, append_list,
  append_dropped, expire_unless,
}
use proactive_agent.Queue.Pending.{IsDistinct, batch_of, pending_of, claim-conserves}

module _ {K : Type 0} {same : K → K → Bool} (r : Redis K Value same) (k : PendingKeys K) (ms : ℕ)
    (i : IsDistinct same k) where
  open r use {Db, clock, lookup, write, lookup-write}

  batch-push_all :
      (vs : List NotificationEnvelope) (d : Db)
      → list_of (get r k.batch (push_all r k ms vs d)) ≡ list_of (get r k.batch d) ++ vs
  unfolding push_all
  batch-push_all [] d = sym (append-nil _)
  batch-push_all (v ∷ vs) d =
      let l = list_of (get r k.batch d) in
      let d' = modify r k.batch (items (l ++ v ∷ [])) d in
      batch-push_all vs d'
      ∙ ap (λ o. list_of o ++ vs)
          (get-modify_self r k.batch (items (l ++ v ∷ [])) d (i.self k.batch))
      ∙ append_assoc l (v ∷ []) vs

  lookup-push_all :
      (j : K) (vs : List NotificationEnvelope) (d : Db)
      → same k.batch j ≡ false
      → lookup (push_all r k ms vs d) j ≡ lookup d j
  unfolding push_all
  lookup-push_all j [] d h = refl
  lookup-push_all j (v ∷ vs) d h = lookup-push_all j vs _ h ∙ lookup-modify_ne r k.batch j _ d h

  get-expire_unless : (key : K) (d : Db) → get r key (expire_unless r k ms key d) ≡ get r key d
  unfolding expire_unless
  get-expire_unless key d = ground (arith, get-pexpire_self r key ms d (i.self key))

  lookup-expire_unless :
      (key j : K) (d : Db) → same key j ≡ false → lookup (expire_unless r k ms key d) j ≡ lookup d j
  unfolding expire_unless
  lookup-expire_unless key j d h = ground (arith, lookup-pexpire_ne r key j ms d h)

  get_of_lookup : (j : K) (d d' : Db) → lookup d j ≡ lookup d' j → get r j d ≡ get r j d'
  get_of_lookup j d d' e = ap (λ o. elim o [ none ↦ none | some e ↦ some e.value ]) e

  batch-append_list :
      (vs : List NotificationEnvelope) (d : Db)
      → list_of (get r k.batch (append_list r k ms vs d)) ≡ list_of (get r k.batch d) ++ vs
  unfolding append_list
  batch-append_list [] d = sym (append-nil _)
  batch-append_list (v ∷ vs) d =
      let d' = push_all r k ms (v ∷ vs) d in
      ap list_of (get-expire_unless k.batch (del r k.pending d'))
      ∙ ap list_of (
          get_of_lookup k.batch (del r k.pending d') d'
            (lookup-write_ne r k.pending k.batch none d' i.pending_batch))
      ∙ batch-push_all (v ∷ vs) d

  pending-append_list :
      (vs : List NotificationEnvelope) (d : Db)
      → list_of (get r k.pending d) ≡ vs
      → list_of (get r k.pending (append_list r k ms vs d)) ≡ []
  unfolding append_list
  pending-append_list [] d e = e
  pending-append_list (v ∷ vs) d e =
      let d' = push_all r k ms (v ∷ vs) d in
      let gone =
        lookup-expire_unless k.batch k.pending (del r k.pending d') i.batch_pending
        ∙ lookup-write_self r k.pending none d' (i.self k.pending) in
      ground (arith, gone)

  lookup-increment :
      (key j : K) (c : Option ℕ) (n : ℕ) (d : Db)
      → same key j ≡ false
      → lookup (increment r key number c n d) j ≡ lookup d j
  lookup-increment key j none n d h = lookup-write_ne r key j _ d h
  lookup-increment key j (some m) n d h = lookup-modify_ne r key j (number (m + n)) d h

  get-increment :
      (key : K) (c : Option ℕ) (n : ℕ) (d : Db)
      → count_of (get r key (increment r key number c n d)) ≡ (elim c [ none ↦ 0 | some m ↦ m ]) + n
  get-increment key none n d = ground (
    arith,
    lookup-write_self r key (some (record { value = number n; deadline = none })) d (i.self key),
  )
  get-increment key (some m) n d =
      ground (arith, get-modify_self r key (number (m + n)) d (i.self key))

  counter-count : (o : Option Value) → elim (counter o) [ none ↦ 0 | some m ↦ m ] ≡ count_of o
  counter-count none = refl
  counter-count (some (number n)) = refl
  counter-count (some (Value.str t)) = refl
  counter-count (some (items l)) = refl

  counted : ℕ → Db → Db
  counted n d =
      del r k.dropped (increment r k.batch_dropped number (counter (get r k.batch_dropped d)) n d)

  lookup-append_dropped :
      (j : K) (n : ℕ) (d : Db)
      → same k.dropped j ≡ false
      → same k.batch_dropped j ≡ false
      → lookup (append_dropped r k ms n d) j ≡ lookup d j
  unfolding append_dropped counted
  lookup-append_dropped j n d p q = elim (Bool-cases (ltb 0 n)) [
    | inr nothing ↦ rw nothing refl
    | inl some_dropped ↦
        let d' = increment r k.batch_dropped number (counter (get r k.batch_dropped d)) n d in
        rw some_dropped (
          lookup-expire_unless k.batch_dropped j (counted n d) q
          ∙ lookup-write_ne r k.dropped j none d' p
          ∙ lookup-increment k.batch_dropped j _ n d q)
  ]

  -- The two counters together keep their sum.
  count-append_dropped :
      (d : Db)
      → let n = count_of (get r k.dropped d) in
        count_of (get r k.batch_dropped (append_dropped r k ms n d))
          + count_of (get r k.dropped (append_dropped r k ms n d))
        ≡ count_of (get r k.batch_dropped d) + n
  unfolding append_dropped counted
  count-append_dropped d =
      let n = count_of (get r k.dropped d) in
      let c = counter (get r k.batch_dropped d) in
      let d' = increment r k.batch_dropped number c n d in
      elim (Bool-cases (ltb 0 n)) [
        | inr nothing ↦ rw nothing refl
        | inl some_dropped ↦ rw some_dropped (
            ground (
              arith,
              get-expire_unless k.batch_dropped (counted n d),
              lookup-write_ne r k.dropped k.batch_dropped none d' i.dropped_batch_dropped,
              get-increment k.batch_dropped c n d,
              counter-count (get r k.batch_dropped d),
              lookup-expire_unless k.batch_dropped k.dropped (counted n d) i.batch_dropped_dropped,
              lookup-write_self r k.dropped none d' (i.self k.dropped),
            ))
      ]

  -- After a drain the batch holds what it held and then the whole pending list, which is empty. The
  -- script returns the pending list and the dropped count, and the counters keep their sum.
  pub record IsDrained (before : Db) (after : Db × (ℕ × List NotificationEnvelope)) : Type 0 where
    pub appended :
        batch_of r k ms i after.0 ≡ batch_of r k ms i before ++ pending_of r k ms i before
    pub emptied : pending_of r k ms i after.0 ≡ []
    pub values : after.1.1 ≡ pending_of r k ms i before
    pub reported : after.1.0 ≡ count_of (get r k.dropped before)
    pub counters :
        count_of (get r k.batch_dropped after.0) + count_of (get r k.dropped after.0)
        ≡ count_of (get r k.batch_dropped before) + count_of (get r k.dropped before)

  lookup-append_list :
      (j : K) (vs : List NotificationEnvelope) (d : Db)
      → same k.batch j ≡ false
      → same k.pending j ≡ false
      → lookup (append_list r k ms vs d) j ≡ lookup d j
  unfolding append_list
  lookup-append_list j [] d p q = refl
  lookup-append_list j (v ∷ vs) d p q =
      lookup-expire_unless k.batch j (del r k.pending (push_all r k ms (v ∷ vs) d)) p
      ∙ lookup-write_ne r k.pending j none (push_all r k ms (v ∷ vs) d) q
      ∙ lookup-push_all j (v ∷ vs) d p

  -- A mid-run drain appends the pending list to the batch in order, empties the pending list and
  -- returns both it and the dropped count; the two counters keep their sum.
  pub append_script-IsDrained : (d : Db) → IsDrained d (append_script r k ms d)
  unfolding append_script
  append_script-IsDrained d =
      let vs = list_of (get r k.pending d) in
      let d' = append_list r k ms vs d in
      let n = count_of (get r k.dropped d') in
      let same_dropped =
        get_of_lookup k.dropped d' d
          (lookup-append_list k.dropped vs d i.batch_dropped' i.pending_dropped) in
      let same_batch_dropped =
        get_of_lookup k.batch_dropped d' d
          (lookup-append_list k.batch_dropped vs d i.batch_batch_dropped i.pending_batch_dropped) in
      record {
        appended =
            ap list_of (
              get_of_lookup k.batch (append_dropped r k ms n d') d'
                (lookup-append_dropped k.batch n d' i.dropped_batch i.batch_dropped_batch))
            ∙ batch-append_list vs d;
        emptied =
            ap list_of (
              get_of_lookup k.pending (append_dropped r k ms n d') d'
                (lookup-append_dropped k.pending n d' i.dropped_pending i.batch_dropped_pending))
            ∙ pending-append_list vs d refl;
        values = refl;
        reported = ap count_of same_dropped;
        counters = omega (
          arith,
          count-append_dropped d',
          ap count_of same_dropped,
          ap count_of same_batch_dropped,
        );
      }

  -- What happens to a guild's lists between the first claim of a wake and its acknowledgement: the
  -- bot appends a notification, the wake (or its retry) claims, the wake drains.
  pub data Move : Type 0 where
    pushes : NotificationEnvelope → Move
    claims drains : Move

  pub move : Move → Db → Db
  move (pushes e) d = modify r k.pending (items (list_of (get r k.pending d) ++ e ∷ [])) d
  move claims d = (claim_script r k ms d).0
  move drains d = (append_script r k ms d).0

  pub moves : List Move → Db → Db
  unfolding move
  moves [] d = d
  moves (m ∷ ms') d = moves ms' (move m d)

  pub pushed : List Move → List NotificationEnvelope
  pushed [] = []
  pushed (pushes e ∷ ms') = e ∷ pushed ms'
  pushed (claims ∷ ms') = pushed ms'
  pushed (drains ∷ ms') = pushed ms'

  abbrev pub held : Db → List NotificationEnvelope
  held d = batch_of r k ms i d ++ pending_of r k ms i d

  held-push : (e : NotificationEnvelope) (d : Db) → held (move (pushes e) d) ≡ held d ++ e ∷ []
  unfolding move
  held-push e d =
      let l = list_of (get r k.pending d) in
      let d' = modify r k.pending (items (l ++ e ∷ [])) d in
      ap (λ b. b ++ list_of (get r k.pending d'))
        (ap list_of (
          get_of_lookup k.batch d' d
            (lookup-modify_ne r k.pending k.batch (items (l ++ e ∷ [])) d i.pending_batch)))
      ∙ ap (λ p. list_of (get r k.batch d) ++ list_of p)
          (get-modify_self r k.pending (items (l ++ e ∷ [])) d (i.self k.pending))
      ∙ sym (append_assoc (list_of (get r k.batch d)) l (e ∷ []))

  held-drain : (d : Db) → held (move drains d) ≡ held d
  unfolding move
  held-drain d =
      let s = append_script-IsDrained d in
      ap (λ p. batch_of r k ms i (append_script r k ms d).0 ++ p) s.emptied
      ∙ append-nil _
      ∙ s.appended

  -- After any number of pushes, claims and drains, the batch followed by the pending list is what
  -- they were at the start, followed by what the bot pushed: nothing is lost, doubled or reordered.
  pub held-moves : (ms' : List Move) (d : Db) → held (moves ms' d) ≡ held d ++ pushed ms'
  unfolding moves pushed
  held-moves [] d = sym (append-nil _)
  held-moves (pushes e ∷ ms') d =
      held-moves ms' (move (pushes e) d)
      ∙ ap (λ h. h ++ pushed ms') (held-push e d)
      ∙ append_assoc (held d) (e ∷ []) (pushed ms')
  held-moves (claims ∷ ms') d =
      held-moves ms' (move claims d)
      ∙ ap (λ h. h ++ pushed ms') (unfold move in claim-conserves r k ms i d)
  held-moves (drains ∷ ms') d =
      held-moves ms' (move drains d) ∙ ap (λ h. h ++ pushed ms') (held-drain d)
