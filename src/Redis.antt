-- ===== src/Redis.antt =====
-- What the worker relies on in Redis. A database is a parameter: it is read through `lookup`, changed
-- through `write`, and its clock moves by `tick`; the laws are Redis's documented behaviour. The
-- commands that the scripts of queue.py, purge.py and history.py call are written over those two.
pub mod Dict
pub mod Laws
use proactive_agent.Prelude.{
  ℕ, ◌+◌, ◌≡◌, Bool, true, false, Option, none, some, leb, ltb, if◌then◌else◌,
}

-- A stored value and the millisecond at which it expires, if it does.
pub record Entry (V : Type 0) : Type 0 where
  pub value : V
  pub deadline : Option ℕ

module _ {V : Type 0} where
  -- An entry that has expired is absent.
  abbrev pub live : ℕ → Option (Entry V) → Option (Entry V)
  live now none = none
  live now (some e) = elim e.deadline [
    | none ↦ some e
    | some t ↦ if leb t now then none else some e
  ]

-- `t` is before the deadline; no deadline is the latest.
abbrev pub later : Option ℕ → ℕ → Bool
later none t = true
later (some deadline) t = ltb t deadline

-- Keys are told apart by `same`.
pub record Redis (K V : Type 0) (same : K → K → Bool) : Type 1 where
  pub Db : Type 0
  pub clock : Db → ℕ
  pub lookup : Db → K → Option (Entry V)
  pub write : K → Option (Entry V) → Db → Db
  pub tick : ℕ → Db → Db
  pub lookup-write :
      (k j : K) (e : Option (Entry V)) (d : Db)
      → lookup (write k e d) j ≡ (if same k j then e else lookup d j)
  pub clock-write : (k : K) (e : Option (Entry V)) (d : Db) → clock (write k e d) ≡ clock d
  -- `tick n` lets n milliseconds pass, and what has expired by then is gone.
  pub lookup-tick : (n : ℕ) (k : K) (d : Db) → lookup (tick n d) k ≡ live (clock d + n) (lookup d k)
  pub clock-tick : (n : ℕ) (d : Db) → clock (tick n d) ≡ clock d + n

module _ {K V : Type 0} {same : K → K → Bool} (r : Redis K V same) where
  open r use {Db, clock, lookup, write}

  -- EXISTS
  abbrev pub exists : K → Db → Bool
  exists k d = elim (lookup d k) [ none ↦ false | some e ↦ true ]

  -- GET, and the reads that other types of value have
  abbrev pub get : K → Db → Option V
  get k d = elim (lookup d k) [ none ↦ none | some e ↦ some e.value ]

  -- SET, which drops an expiry
  abbrev pub set : K → V → Db → Db
  set k v = write k (some (record { value = v; deadline = none }))

  -- SET … PX ms
  abbrev pub set_px : K → V → ℕ → Db → Db
  set_px k v ms d = write k (some (record { value = v; deadline = some (clock d + ms) })) d

  -- DEL
  abbrev pub del : K → Db → Db
  del k = write k none

  -- a change of the value, which keeps the expiry
  abbrev pub modify : K → V → Db → Db
  modify k v d = elim (lookup d k) [
    | none ↦ set k v d
    | some e ↦ write k (some (record e { value = v })) d
  ]

  -- PEXPIRE
  abbrev pub pexpire : K → ℕ → Db → Db
  pexpire k ms d = elim (lookup d k) [
    | none ↦ d
    | some e ↦ write k (some (record e { deadline = some (clock d + ms) })) d
  ]

  -- `PTTL < 0`: the key is missing, or has no expiry
  abbrev pub no_ttl : K → Db → Bool
  no_ttl k d = elim (lookup d k) [
    | none ↦ true
    | some e ↦ elim e.deadline [ none ↦ true | some t ↦ false ]
  ]

  -- RENAME of a key that exists
  abbrev pub rename : K → K → Db → Db
  rename k j d = write j (lookup d k) (write k none d)

  -- PEXPIREAT … LT: an earlier expiry only; one that has passed deletes the key
  abbrev pub pexpireat_lt : K → ℕ → Db → Db
  pexpireat_lt k t d = elim (lookup d k) [
    | none ↦ d
    | some e ↦
        if later e.deadline t
        then if leb t (clock d) then del k d else write k (some (record e { deadline = some t })) d
        else d
  ]

  -- INCR and INCRBY of a counter whose value is given
  abbrev pub increment : K → (ℕ → V) → Option ℕ → ℕ → Db → Db
  increment k number none n d = set k (number n) d
  increment k number (some m) n d = modify k (number (m + n)) d
