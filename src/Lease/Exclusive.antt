-- ===== src/Lease/Exclusive.antt =====
-- Mutual exclusion of the guild lease, over every interleaving of acquisitions, renewals, releases,
-- the passing of time, and the writes of the bot and of purges to the other keys.
use Prim.Native.String.{String}
use text.Mathlib.Text.{◌==◌ as str_eq}
use text.Mathlib.TextEquality.{eq_iff}
use proactive_agent.Prelude.{
  ℕ, ◌+◌, ◌*◌, ◌≤◌, ◌<◌, ◌≡◌, refl, Bool-cases, ◌⊎◌, inl, inr, Bool, true, false, Option, none,
  some, if◌then◌else◌, arith,
}
use proactive_agent.Contracts.{Value, str, number, items}
use proactive_agent.Keys.{Key, same, same_self, lease_key, ownership_key, privacy_lock_key}
use proactive_agent.Redis.{Entry, Redis, exists, get, pexpire}
use proactive_agent.Lease.{acquire_lease, renew, release, is_text}

-- The entry behind a GET that returned the token.
text_entry :
    (s : String) (o : Option (Entry Value))
    → is_text s (elim o [ none ↦ none | some e ↦ some e.value ]) ≡ true
    → (t : Option ℕ) × (o ≡ some (record { value = str s; deadline = t }))
text_entry s none h = cc
text_entry s (some e) h = (e.deadline, ground (arith, text_value s e.value))
  where
    text_value : (s : String) (v : Value) → is_text s (some v) ≡ true → v ≡ str s
    text_value s (str t) h = ground (arith, eq_iff t s)
    text_value s (number n) h = cc
    text_value s (items l) h = cc

module _ (r : Redis Key Value same) (guild_id : ℕ) where
  open r use {Db, clock, lookup, write, tick, lookup-write, clock-write, lookup-tick, clock-tick}

  -- The database, and for each lease token the time up to which its worker was told that it holds the
  -- lease: 0 for a worker that was never told so, or has released it or failed to renew it.
  pub record Fleet : Type 0 where
    pub db : Db
    pub until : String → ℕ

  abbrev pub told : String → ℕ → (String → ℕ) → String → ℕ
  told token t until u = if str_eq token u then t else until u

  -- The worker's view after a reply: the time to live counts from the reply if the lease is held.
  abbrev pub reply : String → ℕ → Db × Bool → Fleet → Fleet
  reply token seconds (d, held) s = record s {
    db = d;
    until = told token (if held then clock d + seconds * 1000 else 0) s.until;
  }

  pub data Step : Fleet → Fleet → Type 0 where
    acquires :
        (s : Fleet) (token : String) (seconds : ℕ)
        → Step s (reply token seconds (acquire_lease r guild_id token seconds s.db) s)
    renews :
        (s : Fleet) (token : String) (seconds : ℕ)
        → Step s (reply token seconds (renew r guild_id token seconds s.db) s)
    releases :
        (s : Fleet) (token : String)
        → Step s (record s { db = (release r guild_id token s.db).0; until = told token 0 s.until })
    passes : (s : Fleet) (n : ℕ) → Step s (record s { db = tick n s.db })
    writes :
        (s : Fleet) (k : Key) (e : Option (Entry Value))
        → same k (lease_key guild_id) ≡ false
        → Step s (record s { db = write k e s.db })

  pub data Reach (s : Fleet) : Fleet → Type 0 where
    here : Reach s s
    next : {t u : Fleet} → Reach s t → Step t u → Reach s u

  abbrev pub Holds : String → ℕ → Option (Entry Value) → Type 0
  Holds token until e =
      (deadline : ℕ) × (e ≡ some (record { value = str token; deadline = some deadline }))
      × (until ≤ deadline)

  -- A worker within its time to live holds the key.
  pub record IsHonest (s : Fleet) : Type 0 where
    pub held :
        (token : String)
        → clock s.db < s.until token
        → Holds token (s.until token) (lookup s.db (lease_key guild_id))

  abbrev lease : Db → Option (Entry Value)
  lease d = lookup d (lease_key guild_id)

  abbrev held_by : String → ℕ → Option (Entry Value)
  held_by token deadline = some (record { value = str token; deadline = some deadline })

  -- The key after a command: untouched and refused, or held by the token, which nobody else held.
  Granted : String → ℕ → Db → Db × Bool → Type 0
  Granted token ms d o =
      ((u : String) (t : ℕ) → lease d ≡ held_by u t → u ≡ token)
      × (lease o.0 ≡ held_by token (clock d + ms))
      × (clock o.0 ≡ clock d)

  abbrev Outcome : String → ℕ → Db → Db × Bool → Type 0
  Outcome token ms d o = (o ≡ (d, false)) ⊎ ((o.1 ≡ true) × Granted token ms d o)

  granted :
      (token : String) (ms : ℕ) (d : Db) (d' : Db)
      → ((u : String) (t : ℕ) → lease d ≡ held_by u t → u ≡ token)
      → d' ≡ write (lease_key guild_id) (held_by token (clock d + ms)) d
      → Outcome token ms d (d', true)
  unfolding Granted
  granted token ms d d' free e =
      rw e (inr (refl, (free, rw (lookup-write, same_self) refl, clock-write _ _ d)))

  acquire_lease-Outcome :
      (token : String) (seconds : ℕ) (d : Db)
      → Outcome token (seconds * 1000) d (acquire_lease r guild_id token seconds d)
  unfolding acquire_lease
  acquire_lease-Outcome token seconds d =
      elim (Bool-cases (is_text "external" (get r (ownership_key guild_id) d))) [
        | inr embedded ↦ rw embedded (inl refl)
        | inl external ↦ elim (Bool-cases (exists r (privacy_lock_key guild_id) d)) [
          | inl locked ↦ rw (external, locked) (inl refl)
          | inr unlocked ↦ elim (Bool-cases (exists r (lease_key guild_id) d)) [
            | inl taken ↦ rw (external, unlocked, taken) (inl refl)
            | inr free ↦
                rw (external, unlocked, free)
                  (granted token (seconds * 1000) d _ (λ u t e. ground arith) refl)
          ]
        ]
      ]

  renew-Outcome :
      (token : String) (seconds : ℕ) (d : Db)
      → Outcome token (seconds * 1000) d (renew r guild_id token seconds d)
  unfolding renew
  renew-Outcome token seconds d = elim (Bool-cases (is_text token (get r (lease_key guild_id) d))) [
    | inr other ↦ rw other (inl refl)
    | inl mine ↦ elim (Bool-cases (is_text "external" (get r (ownership_key guild_id) d))) [
      | inr embedded ↦ rw (mine, embedded) (inl refl)
      | inl external ↦
          let (t, held) = text_entry token (lease d) mine in
          rw (mine, external)
            (granted token (seconds * 1000) d _ (λ u t e. ground (arith, eq_iff u token))
              (rw (held, pexpire) refl))
    ]
  ]

  -- The release of one token leaves the key to another.
  release-other :
      (token u : String) (t : ℕ) (d : Db)
      → str_eq token u ≡ false
      → lease d ≡ held_by u t
      → (release r guild_id token d).0 ≡ d
  unfolding release
  release-other token u t d ne e = ground (arith, eq_iff token u, eq_iff u token)

  clock-release : (token : String) (d : Db) → clock (release r guild_id token d).0 ≡ clock d
  unfolding release
  clock-release token d = ground (arith, clock-write (lease_key guild_id) none d)

  reply-held :
      (s : Fleet) (token u : String) (seconds : ℕ) (o : Db × Bool)
      → Outcome token (seconds * 1000) s.db o
      → IsHonest s
      → clock (reply token seconds o s).db < (reply token seconds o s).until u
      → Holds u ((reply token seconds o s).until u) (lease (reply token seconds o s).db)
  unfolding Granted
  reply-held s token u seconds (d, b) (inl e) h live = elim (Bool-cases (str_eq token u)) [
    | inl own ↦ absurd (ground arith)
    | inr other ↦ let (t, k, le) = h.held u (ground arith) in (t, ground arith, ground arith)
  ]
  reply-held s token u seconds (d, b) (inr (won, (free, key, same_clock))) h live =
      elim (Bool-cases (str_eq token u)) [
        | inl own ↦ (clock s.db + seconds * 1000, ground (arith, eq_iff token u), ground arith)
        | inr other ↦
            let (t, k, le) = h.held u (ground arith) in
            absurd (ground (arith, free u t, eq_iff token u))
      ]

  Step-IsHonest : {s t : Fleet} → Step s t → IsHonest s → IsHonest t
  Step-IsHonest (acquires s token seconds) h = record {
    held =
        λ u live. reply-held s token u seconds _ (acquire_lease-Outcome token seconds s.db) h live;
  }
  Step-IsHonest (renews s token seconds) h = record {
    held = λ u live. reply-held s token u seconds _ (renew-Outcome token seconds s.db) h live;
  }
  Step-IsHonest (releases s token) h = record {
    held = λ u live. elim (Bool-cases (str_eq token u)) [
      | inl own ↦ absurd (ground arith)
      | inr other ↦
          let (t, k, le) = h.held u (ground (arith, clock-release token s.db)) in
          (t, rw (release-other token u t s.db other k) k, ground arith)
    ];
  }
  Step-IsHonest (passes s n) h = record {
    held = λ u live.
        let (t, e, le) = h.held u (omega (arith, clock-tick n s.db)) in
        (t, rw (lookup-tick, e) (ground (arith, clock-tick n s.db)), le);
  }
  Step-IsHonest (writes s k e other) h = record {
    held = λ u live.
        let (t, e', le) = h.held u (omega (arith, clock-write k e s.db)) in
        (t, rw (lookup-write, other) e', le);
  }

  Reach-IsHonest : {s t : Fleet} → IsHonest s → Reach s t → IsHonest t
  Reach-IsHonest h here = h
  Reach-IsHonest h (next reach step) = Step-IsHonest step (Reach-IsHonest h reach)

  -- From a fleet in which no worker was told that it holds the lease, and after any interleaving of
  -- acquisitions, renewals, releases, time, and writes to other keys: two workers whose last reply
  -- granted the lease, and whose time to live since then has not run out, have the same token.
  pub lease-exclusive :
      (s t : Fleet) (u v : String)
      → ((token : String) → s.until token ≡ 0)
      → Reach s t
      → clock t.db < t.until u
      → clock t.db < t.until v
      → u ≡ v
  lease-exclusive s t u v fresh reach live_u live_v =
      let h =
        Reach-IsHonest (record { held = λ token live. absurd (ground (arith, fresh token)) })
          reach in
      let (a, held_u, _) = h.held u live_u in let (b, held_v, _) = h.held v live_v in cc
