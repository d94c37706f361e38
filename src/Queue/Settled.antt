-- ===== src/Queue/Settled.antt =====
-- What acknowledging a wake's batch leaves of it, and what a failed attempt does, for `acknowledge`
-- and `record_failure` of src/proactive_agent/queue.py.
use Prim.Native.String.{String}
use proactive_agent.Prelude.{
  ℕ, ◌*◌, ◌≤◌, ◌<◌, lt→ltb, ◌+◌, ◌≡◌, refl, ap, ◌∙◌, inl, inr, Bool, true, false, not, Option, none,
  some, List, [], ◌∷◌, map, arith, ltb, ◌==◌, ◌||◌, if◌then◌else◌, Bool-cases, select, any,
}
use proactive_agent.Contracts.{NotificationEnvelope, Value, number}
use proactive_agent.Keys.{
  Key, same, ready_stream_key, forum_ready_stream_key, batch_key, batch_dropped_key, attempts_key,
}
use proactive_agent.Redis.{Entry, Redis, get, del, pexpire, modify, increment}
use proactive_agent.Redis.Laws.{lookup-pexpire_ne, lookup-increment_ne}
use proactive_agent.Queue.{count_of, counter}
use proactive_agent.Queue.Streams.{WakeBatch, DeadLetter, Streams, ready_stream, wake_stream}
use proactive_agent.Queue.Settle.{
  error_type, acknowledge, record_failure, count_attempt, dead_letter_of, remove_ids,
}

-- The entries whose ids are not among the given ones.
abbrev pub without : List ℕ → List (ℕ × NotificationEnvelope) → List (ℕ × NotificationEnvelope)
without ids = select (λ e. not (any (λ i. i == e.0) ids))

abbrev waking_ids : WakeBatch → List ℕ
waking_ids batch = map (λ item. item.stream_id) batch.waking

-- The keys that a batch has of its own.
abbrev pub is_own : WakeBatch → Key → Bool
is_own batch k =
    same (attempts_key batch.guild_id batch.wake_id) k
    || same (batch_dropped_key batch.guild_id batch.wake_id) k
    || same (batch_key batch.guild_id batch.wake_id) k

streams_apart :
    (g : ℕ) (forum : Bool) (t : Key)
    → same (ready_stream forum) t ≡ true
    → same (wake_stream g forum) t ≡ false
unfolding ready_stream wake_stream
streams_apart g true forum_ready_stream_key h = refl
streams_apart g false ready_stream_key h = refl
streams_apart g forum t h = ground arith

module _ (r : Redis Key Value same) (x : Streams r) where
  open r use {Db, lookup, write, lookup-write}
  open x use {
    dead_letters, add_dead_letter, dead_letters-add, dead_letters-write, dead_letters-remove,
    lookup-add_dead_letter, entries-add_dead_letter, entries, lookup-remove, entries-remove,
    entries-write,
  }

  -- Of the keys, those that the batch has of its own are gone and every other is as it was; its
  -- entries are gone from its wake stream and its ready stream, and every other entry is there.
  pub record IsSettled (batch : WakeBatch) (before after : Db) : Type 0 where
    pub keys : (k : Key) → lookup after k ≡ (if is_own batch k then none else lookup before k)
    pub streams :
        (t : Key)
        → entries t after ≡ (
            if same (ready_stream batch.forum) t
            then without batch.ready_ids (entries t before)
            else if same (wake_stream batch.guild_id batch.forum) t
            then without (waking_ids batch) (entries t before)
            else entries t before)

  lookup-remove_ids :
      (s k : Key) (ids : List ℕ) (d : Db) → lookup (remove_ids r x s ids d) k ≡ lookup d k
  unfolding remove_ids
  lookup-remove_ids s k [] d = refl
  lookup-remove_ids s k (i ∷ ids) d = lookup-remove s k (i ∷ ids) d

  without-nil : (l : List (ℕ × NotificationEnvelope)) → without [] l ≡ l
  without-nil [] = refl
  without-nil (e ∷ l) = ap (◌∷◌ e) (without-nil l)

  or_none :
      (a b c : Bool) {u v : Option (Entry Value)}
      → u ≡ v
      → (if a then none else if b then none else if c then none else u)
        ≡ (if a || b || c then none else v)
  or_none a b c e = ground arith

  -- A stream is the ready stream, or the wake stream, or neither.
  choose :
      (ready : Bool) {wake : Bool} (rids wids : List ℕ) {now : List (ℕ × NotificationEnvelope)}
      (before : List (ℕ × NotificationEnvelope))
      → (ready ≡ true → wake ≡ false)
      → now ≡ (if wake then without wids before else before)
      → (if ready then without rids now else now)
        ≡ (if ready then without rids before else if wake then without wids before else before)
  choose true rids wids before apart e = rw (e, apart refl) refl
  choose false rids wids before apart e = e

  entries-remove_ids :
      (s t : Key) (ids : List ℕ) (d : Db)
      → entries t (remove_ids r x s ids d)
        ≡ (if same s t then without ids (entries t d) else entries t d)
  unfolding remove_ids
  entries-remove_ids s t [] d = ground (arith, without-nil (entries t d))
  entries-remove_ids s t (i ∷ ids) d = entries-remove s t (i ∷ ids) d

  -- Acknowledging a batch settles it.
  pub acknowledge-IsSettled :
      (batch : WakeBatch) (d : Db) → IsSettled batch d (acknowledge r x batch d)
  unfolding acknowledge
  acknowledge-IsSettled batch d =
      let g = batch.guild_id in
      let w = batch.wake_id in
      let d₁ = remove_ids r x (wake_stream g batch.forum) (waking_ids batch) d in
      let d₂ = remove_ids r x (ready_stream batch.forum) batch.ready_ids d₁ in
      let d₃ = del r (batch_key g w) d₂ in
      let d₄ = del r (batch_dropped_key g w) d₃ in
      record {
        keys = λ k.
            rw (lookup-write, lookup-write, lookup-write)
              (or_none (same (attempts_key g w) k) (same (batch_dropped_key g w) k)
                (same (batch_key g w) k)
                (lookup-remove_ids (ready_stream batch.forum) k batch.ready_ids d₁
                  ∙ lookup-remove_ids (wake_stream g batch.forum) k (waking_ids batch) d));
        streams = λ t.
            entries-write t (attempts_key g w) none d₄
            ∙ entries-write t (batch_dropped_key g w) none d₃
            ∙ entries-write t (batch_key g w) none d₂
            ∙ entries-remove_ids (ready_stream batch.forum) t batch.ready_ids d₁
            ∙ choose (same (ready_stream batch.forum) t) batch.ready_ids (waking_ids batch)
                (entries t d) (streams_apart g batch.forum t)
                (entries-remove_ids (wake_stream g batch.forum) t (waking_ids batch) d);
      }

  IsSettled-from :
      (batch : WakeBatch) (d d' after : Db)
      → ((k : Key)
          → same (attempts_key batch.guild_id batch.wake_id) k ≡ false
          → lookup d' k ≡ lookup d k)
      → ((t : Key) → entries t d' ≡ entries t d)
      → IsSettled batch d' after
      → IsSettled batch d after
  IsSettled-from batch d d' after ks ts s = record {
    keys = λ k. elim (Bool-cases (same (attempts_key batch.guild_id batch.wake_id) k)) [
      | inl own ↦ s.keys k ∙ rw own refl
      | inr other ↦ s.keys k ∙ rw (other, ks k other) refl
    ];
    streams = λ t. s.streams t ∙ rw (ts t) refl;
  }

  lookup-count_attempt :
      (batch : WakeBatch) (k : Key) (d : Db)
      → same (attempts_key batch.guild_id batch.wake_id) k ≡ false
      → lookup (count_attempt r x batch d).0 k ≡ lookup d k
  unfolding count_attempt
  lookup-count_attempt batch k d h =
      let key = attempts_key batch.guild_id batch.wake_id in
      lookup-pexpire_ne r key k _ _ h
      ∙ lookup-increment_ne r key k number (counter (get r key d)) 1 d h

  entries-pexpire : (t k : Key) (ms : ℕ) (d : Db) → entries t (pexpire r k ms d) ≡ entries t d
  entries-pexpire t k ms d = grind (arith, entries-write)

  entries-modify : (t k : Key) (v : Value) (d : Db) → entries t (modify r k v d) ≡ entries t d
  entries-modify t k v d = grind (arith, entries-write)

  entries-increment :
      (t k : Key) (c : Option ℕ) (n : ℕ) (d : Db)
      → entries t (increment r k number c n d) ≡ entries t d
  entries-increment t k none n d = entries-write t k _ d
  entries-increment t k (some m) n d = entries-modify t k (number (m + n)) d

  entries-count_attempt :
      (batch : WakeBatch) (t : Key) (d : Db) → entries t (count_attempt r x batch d).0 ≡ entries t d
  unfolding count_attempt
  entries-count_attempt batch t d =
      let key = attempts_key batch.guild_id batch.wake_id in
      let c = counter (get r key d) in
      entries-pexpire t key (7 * 24 * 60 * 60 * 1000) (increment r key number c 1 d)
      ∙ entries-increment t key c 1 d

  dead_letters-remove_ids :
      (s : Key) (ids : List ℕ) (d : Db) → dead_letters (remove_ids r x s ids d) ≡ dead_letters d
  unfolding remove_ids
  dead_letters-remove_ids s [] d = refl
  dead_letters-remove_ids s (i ∷ ids) d = dead_letters-remove s (i ∷ ids) d

  dead_letters-acknowledge :
      (batch : WakeBatch) (d : Db) → dead_letters (acknowledge r x batch d) ≡ dead_letters d
  unfolding acknowledge
  dead_letters-acknowledge batch d =
      dead_letters-write _ none _
      ∙ dead_letters-write _ none _
      ∙ dead_letters-write _ none _
      ∙ dead_letters-remove_ids _ batch.ready_ids _
      ∙ dead_letters-remove_ids _ (waking_ids batch) d

  -- A failed attempt below the limit is counted, and touches nothing else.
  pub record IsRetried (batch : WakeBatch) (before after : Db) : Type 0 where
    pub others :
        (k : Key)
        → (if same (attempts_key batch.guild_id batch.wake_id) k then none else lookup after k)
          ≡ (if same (attempts_key batch.guild_id batch.wake_id) k then none else lookup before k)
    pub kept : (t : Key) → entries t after ≡ entries t before

  -- The last attempt settles the batch, with a dead letter on top of the stream.
  pub record IsBuried (batch : WakeBatch) (error : String) (attempts : ℕ) (before after : Db)
      : Type 0 where
    pub settled : IsSettled batch before after
    pub older : List DeadLetter
    pub buried : dead_letters after ≡ dead_letter_of r x batch error attempts ∷ older

  module _ (batch : WakeBatch) (error : String) (max_attempts : ℕ) (d : Db) where
    abbrev attempts : ℕ
    attempts = count_of (get r (attempts_key batch.guild_id batch.wake_id) d) + 1

    -- While the attempts, this one counted, are fewer than the limit, a failure keeps the batch and
    -- its stream entries for the retry.
    pub record_failure-IsRetried :
        attempts < max_attempts
        → ((record_failure r x batch error max_attempts d).1 ≡ false)
          × IsRetried batch d (record_failure r x batch error max_attempts d).0
    unfolding record_failure count_attempt
    record_failure-IsRetried below =
        let fewer = lt→ltb attempts max_attempts below in
        rw fewer (
          refl,
          record {
            others = λ k. elim (Bool-cases (same (attempts_key batch.guild_id batch.wake_id) k)) [
              | inl own ↦ rw own refl
              | inr other ↦ rw other (lookup-count_attempt batch k d other)
            ];
            kept = λ t. entries-count_attempt batch t d;
          },
        )

    -- The attempt that reaches the limit settles the batch and leaves a dead letter of it.
    pub record_failure-IsBuried :
        max_attempts ≤ attempts
        → ((record_failure r x batch error max_attempts d).1 ≡ true)
          × IsBuried batch
              (error_type 200 error)
              attempts
              d
              (record_failure r x batch error max_attempts d).0
    unfolding record_failure count_attempt
    record_failure-IsBuried reached =
        let last : ltb attempts max_attempts ≡ false = ground arith in
        let d' = (count_attempt r x batch d).0 in
        let letter = dead_letter_of r x batch (error_type 200 error) attempts in
        let d'' = add_dead_letter letter d' in
        let (older, newest) = dead_letters-add letter d' in
        rw last (
          refl,
          record {
            settled =
                IsSettled-from batch d d'' (acknowledge r x batch d'')
                  (λ k h. lookup-add_dead_letter k letter d' ∙ lookup-count_attempt batch k d h)
                  (λ t. entries-add_dead_letter t letter d' ∙ entries-count_attempt batch t d)
                  (acknowledge-IsSettled batch d'');
            older = older;
            buried = dead_letters-acknowledge batch d'' ∙ newest;
          },
        )
