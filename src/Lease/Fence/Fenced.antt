-- ===== src/Lease/Fence/Fenced.antt =====
-- What holds when `try_fence` of src/proactive_agent/idle.py has fenced a guild, or has not.
use Prim.Native.String.{String}
use text.Mathlib.TextPositions.{eq_refl}
use proactive_agent.Prelude.{
  ℕ, ◌*◌, ◌≡◌, refl, sym, ap, ◌∙◌, Bool, true, false, Option, none, some, if◌then◌else◌, Bool-cases,
  Option-cases, inl, inr, arith,
}
use proactive_agent.Contracts.{Value, str}
use proactive_agent.Keys.{Key, same, same_self, lease_key, ownership_key, privacy_lock_key}
use proactive_agent.Redis.{Entry, Redis, exists, get, set_px, del}
use proactive_agent.Redis.Laws.{lookup-write_ne, lookup-write_self, get-lookup}
use proactive_agent.Lease.{is_text, acquire_script, acquire_lease, externally_owned}
use proactive_agent.Lease.Fence.{
  Fence, lease, lock, release_lock, release_lock_script, leased, unless_leased, try_fence,
}

module _ (r : Redis Key Value same) (guild_id : ℕ) (token : String) where
  open r use {Db, lookup}

  -- A fence that was granted keeps others out: the worker's lease under its token while there is no
  -- lock, or the lock under its token while no wake holds the lease. A refusal changes nothing.
  pub data IsFenced (d : Db) : Db × Option Fence → Type 0 where
    by_lease :
        {d' : Db}
        → get r (lease_key guild_id) d' ≡ some (str token)
        → exists r (privacy_lock_key guild_id) d' ≡ false
        → exists r (lease_key guild_id) d ≡ false
        → IsFenced d (d', some (lease token))
    by_lock :
        {d' : Db}
        → get r (privacy_lock_key guild_id) d' ≡ some (str token)
        → exists r (lease_key guild_id) d' ≡ false
        → exists r (privacy_lock_key guild_id) d ≡ false
        → IsFenced d (d', some (lock token))
    refused :
        {d' : Db}
        → lookup d' (privacy_lock_key guild_id) ≡ lookup d (privacy_lock_key guild_id)
        → ((k : Key) → same (privacy_lock_key guild_id) k ≡ false → lookup d' k ≡ lookup d k)
        → IsFenced d (d', none)

  exists-write_ne :
      (k j : Key) (e : Option (Entry Value)) (d : Db) {b : Bool}
      → same k j ≡ false
      → exists r j d ≡ b
      → exists r j (r.write k e d) ≡ b
  exists-write_ne k j e d h there = let f = lookup-write_ne r k j e d h in ground (arith, f, there)

  pub leased-IsFenced :
      (seconds : ℕ) (d : Db)
      → IsFenced d (leased r token (acquire_lease r guild_id token seconds d))
  unfolding leased acquire_lease acquire_script
  leased-IsFenced seconds d =
      elim (Bool-cases (is_text "external" (get r (ownership_key guild_id) d))) [
        | inr bot ↦ rw bot (refused refl (λ k other. refl))
        | inl external ↦ rw external (elim (Bool-cases (exists r (privacy_lock_key guild_id) d)) [
          | inl locked ↦ rw locked (refused refl (λ k other. refl))
          | inr unlocked ↦ rw unlocked (elim (Bool-cases (exists r (lease_key guild_id) d)) [
            | inl held ↦ rw held (refused refl (λ k other. refl))
            | inr free ↦ rw free (by_lease holds (still_unlocked unlocked) free)
          ])
        ])
      ]
    where
      holds :
          get r (lease_key guild_id) (set_px r (lease_key guild_id) (str token) (seconds * 1000) d)
          ≡ some (str token)
      holds =
          get-lookup r (lease_key guild_id) _
            (lookup-write_self r (lease_key guild_id) _ d (same_self (lease_key guild_id)))

      still_unlocked :
          exists r (privacy_lock_key guild_id) d ≡ false
          → exists r
              (privacy_lock_key guild_id)
              (set_px r (lease_key guild_id) (str token) (seconds * 1000) d)
            ≡ false
      still_unlocked unlocked =
          exists-write_ne (lease_key guild_id) (privacy_lock_key guild_id) _ d refl unlocked

  release_lock-IsFree :
      (d : Db)
      → get r (privacy_lock_key guild_id) d ≡ some (str token)
      → release_lock r guild_id token d ≡ del r (privacy_lock_key guild_id) d
  unfolding release_lock release_lock_script
  release_lock-IsFree d h = ground (arith, h, eq_refl token)

  lookup-exists_none : (k : Key) (d : Db) → exists r k d ≡ false → lookup d k ≡ none
  lookup-exists_none k d h = elim (Option-cases (lookup d k)) [
    | inl gone ↦ gone
    | inr (x, there) ↦ absurd (ground (arith, there, h))
  ]

  unless_leased-IsFenced :
      (seconds : ℕ) (d : Db)
      → exists r (privacy_lock_key guild_id) d ≡ false
      → IsFenced d (
          unless_leased r guild_id token
            (set_px r (privacy_lock_key guild_id) (str token) (seconds * 1000) d))
  unfolding unless_leased
  unless_leased-IsFenced seconds d unlocked =
      elim (Bool-cases (exists r (lease_key guild_id) locked)) [
        | inl held ↦ rw held (refused lock_as_before as_before)
        | inr free ↦ rw free (by_lock holds free unlocked)
      ]
    where
      locked : Db
      locked = set_px r (privacy_lock_key guild_id) (str token) (seconds * 1000) d

      holds : get r (privacy_lock_key guild_id) locked ≡ some (str token)
      holds = get-lookup r (privacy_lock_key guild_id) _ (
          lookup-write_self r (privacy_lock_key guild_id) _ d
            (same_self (privacy_lock_key guild_id)))

      released : Db
      released = del r (privacy_lock_key guild_id) locked

      lock_as_before :
          lookup (release_lock r guild_id token locked) (privacy_lock_key guild_id)
          ≡ lookup d (privacy_lock_key guild_id)
      lock_as_before =
          ap (λ d'. lookup d' (privacy_lock_key guild_id)) (release_lock-IsFree locked holds)
          ∙ lookup-write_self r (privacy_lock_key guild_id) none locked
              (same_self (privacy_lock_key guild_id))
          ∙ sym (lookup-exists_none (privacy_lock_key guild_id) d unlocked)

      as_before :
          (k : Key)
          → same (privacy_lock_key guild_id) k ≡ false
          → lookup (release_lock r guild_id token locked) k ≡ lookup d k
      as_before k other =
          ap (λ d'. lookup d' k) (release_lock-IsFree locked holds)
          ∙ lookup-write_ne r (privacy_lock_key guild_id) k none locked other
          ∙ lookup-write_ne r (privacy_lock_key guild_id) k _ d other

  by_test :
      (d : Db) (b : Bool) (x y : Db × Option Fence)
      → (b ≡ true → IsFenced d x)
      → (b ≡ false → IsFenced d y)
      → IsFenced d (if b then x else y)
  by_test d true x y h k = h refl
  by_test d false x y h k = k refl

  -- A fence that `try_fence` grants keeps others out: it is the worker's lease under its token, while
  -- there is no lock, or the lock under its token, while no wake holds the lease; what it takes was
  -- free before. If it grants none, Redis is as it was.
  pub try_fence-IsFenced :
      (lease_seconds fence_seconds : ℕ) (d : Db)
      → IsFenced d (try_fence r guild_id token lease_seconds fence_seconds d)
  unfolding try_fence
  try_fence-IsFenced lease_seconds fence_seconds d =
      by_test d (externally_owned r guild_id d) _ _ (λ external. leased-IsFenced lease_seconds d)
        (λ bot.
          by_test d (exists r (privacy_lock_key guild_id) d) _ _
            (λ locked. refused refl (λ k other. refl))
            (λ unlocked. unless_leased-IsFenced fence_seconds d unlocked))
