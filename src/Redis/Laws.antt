-- ===== src/Redis/Laws.antt =====
-- What the commands of `Redis` do to the key they name, and to every other key.
use proactive_agent.Prelude.{ℕ, ◌+◌, ◌≡◌, refl, Bool, true, false, Option, none, some, arith}
use proactive_agent.Redis.{Entry, Redis, exists, get, modify, pexpire, increment}

module _ {K V : Type 0} {same : K → K → Bool} (r : Redis K V same) where
  open r use {Db, clock, lookup, write, lookup-write}

  pub lookup-write_ne :
      (k j : K) (e : Option (Entry V)) (d : Db)
      → same k j ≡ false
      → lookup (write k e d) j ≡ lookup d j
  lookup-write_ne k j e d h = rw (lookup-write, h) refl

  pub lookup-write_self :
      (k : K) (e : Option (Entry V)) (d : Db) → same k k ≡ true → lookup (write k e d) k ≡ e
  lookup-write_self k e d h = rw (lookup-write, h) refl

  pub lookup-pexpire_ne :
      (k j : K) (ms : ℕ) (d : Db) → same k j ≡ false → lookup (pexpire r k ms d) j ≡ lookup d j
  lookup-pexpire_ne k j ms d h = grind (arith, lookup-write_ne)

  pub get-pexpire_self :
      (k : K) (ms : ℕ) (d : Db) → same k k ≡ true → get r k (pexpire r k ms d) ≡ get r k d
  get-pexpire_self k ms d h = grind (arith, lookup-write_self)

  pub lookup-modify_ne :
      (k j : K) (v : V) (d : Db) → same k j ≡ false → lookup (modify r k v d) j ≡ lookup d j
  lookup-modify_ne k j v d h = grind (arith, lookup-write_ne)

  pub get-modify_self :
      (k : K) (v : V) (d : Db) → same k k ≡ true → get r k (modify r k v d) ≡ some v
  get-modify_self k v d h = grind (arith, lookup-write_self)

  pub lookup-increment_ne :
      (k j : K) (number : ℕ → V) (c : Option ℕ) (n : ℕ) (d : Db)
      → same k j ≡ false
      → lookup (increment r k number c n d) j ≡ lookup d j
  lookup-increment_ne k j number none n d h = lookup-write_ne k j _ d h
  lookup-increment_ne k j number (some m) n d h = lookup-modify_ne k j (number (m + n)) d h

  pub get-lookup : (k : K) (d : Db) {e : Entry V} → lookup d k ≡ some e → get r k d ≡ some e.value
  get-lookup k d h = ground arith

  pub exists-lookup_some :
      (k : K) (d : Db) {e : Entry V} → lookup d k ≡ some e → exists r k d ≡ true
  exists-lookup_some k d h = ground arith

  pub exists-lookup_none : (k : K) (d : Db) → lookup d k ≡ none → exists r k d ≡ false
  exists-lookup_none k d h = ground arith
