-- ===== src/Blocked/Published.antt =====
-- What the replicas of src/proactive_agent/blocked_users.py publish, in any order of their reports.
use proactive_agent.Prelude.{
  ℕ, ◌≤◌, ◌≡◌, refl, ap, ◌∙◌, true, Option, none, some, List, [], ◌∷◌, any, select, ◌==◌, min,
  if◌then◌else◌, Bool-cases, ◌⊎◌, inl, inr, arith,
}
use proactive_agent.Blocked.{Reports, report_script, lowest, lower, set_add, is_live}

-- A replica reports its revision, or one of the keys expires. The registry lives a day longer than
-- any replica's key since its last report, so it expires only when no replica is live.
pub data Step (s : Reports) : Reports → Type 0 where
  reports : (replica revision : ℕ) → Step s (report_script replica revision s)
  replica_expires :
      (replica : ℕ)
      → Step s (record s { reported = λ k. if k == replica then none else s.reported k })
  aggregate_expires : Step s (record s { aggregate = none })
  registry_expires : ((k : ℕ) → s.reported k ≡ none) → Step s (record s { registry = [] })

pub data Reach (s : Reports) : Reports → Type 0 where
  here : Reach s s
  next : {t u : Reports} → Reach s t → Step t u → Reach s u

-- Every live replica is registered, and has a revision that the aggregate does not exceed.
pub record IsPublished (s : Reports) : Type 0 where
  pub registered : (k v : ℕ) → s.reported k ≡ some v → any (λ y. y == k) s.registry ≡ true
  pub low : (n k v : ℕ) → s.aggregate ≡ some n → s.reported k ≡ some v → n ≤ v

any-select :
    (reported : ℕ → Option ℕ) (k v : ℕ) (xs : List ℕ)
    → reported k ≡ some v
    → any (λ y. y == k) xs ≡ true
    → any (λ y. y == k) (select (is_live reported) xs) ≡ true
any-select reported k v [] live h = cc
any-select reported k v (x ∷ xs) live h = elim (Bool-cases (x == k)) [
  | inl found ↦
      let e : x ≡ k = ground arith in
      let here_live : is_live reported x ≡ true = rw e (ground (arith, live)) in
      rw here_live (rw found refl)
  | inr other ↦
      let rest = any-select reported k v xs live (ground (arith, h, other)) in
      elim (Bool-cases (is_live reported x)) [
        | inl up ↦ rw (up, other) rest
        | inr down ↦ rw down rest
      ]
]

lower-le_left : (v : ℕ) (o : Option ℕ) → (m : ℕ) × (lower (some v) o ≡ some m) × (m ≤ v)
lower-le_left v none = (v, refl, omega arith)
lower-le_left v (some b) = (min v b, refl, omega arith)

lower-le_right : (o : Option ℕ) (b v : ℕ) → b ≤ v → (m : ℕ) × (lower o (some b) ≡ some m) × (m ≤ v)
lower-le_right none b v h = (b, refl, h)
lower-le_right (some a) b v h = (min a b, refl, omega (arith, h))

-- The lowest of the reports is at most each of them.
lowest-le :
    (reported : ℕ → Option ℕ) (k v : ℕ) (xs : List ℕ)
    → any (λ y. y == k) xs ≡ true
    → reported k ≡ some v
    → (m : ℕ) × (lowest reported xs ≡ some m) × (m ≤ v)
unfolding lowest
lowest-le reported k v [] h live = cc
lowest-le reported k v (x ∷ xs) h live = elim (Bool-cases (x == k)) [
  | inl found ↦
      let e : reported x ≡ some v = ap reported (ground arith) ∙ live in
      rw e (lower-le_left v (lowest reported xs))
  | inr other ↦
      let (b, e, le) = lowest-le reported k v xs (ground (arith, h, other)) live in
      rw e (lower-le_right (reported x) b v le)
]

any-set_add :
    (x k : ℕ) (xs : List ℕ)
    → (x ≡ k) ⊎ (any (λ y. y == k) xs ≡ true)
    → any (λ y. y == k) (set_add x xs) ≡ true
any-set_add x k xs (inl e) = elim (Bool-cases (any (λ y. y == x) xs)) [
  | inl old ↦ rw old (ground (arith, old, e))
  | inr fresh ↦ rw fresh (ground (arith, e))
]
any-set_add x k xs (inr h) = elim (Bool-cases (any (λ y. y == x) xs)) [
  | inl old ↦ rw old h
  | inr fresh ↦ rw fresh (ground (arith, h))
]

report_script-IsPublished :
    (replica revision : ℕ) (s : Reports)
    → IsPublished s
    → IsPublished (report_script replica revision s)
unfolding report_script
report_script-IsPublished replica revision s w = record {
  registered = λ k v live. any-select reported k v members live (member k v live);
  low = λ n k v e live.
      let (m, e', le) = lowest-le reported k v members (member k v live) live in
      ground (arith, e, e', le);
}
  where
    reported : ℕ → Option ℕ
    reported k = if k == replica then some revision else s.reported k

    members : List ℕ
    members = set_add replica s.registry

    member : (k v : ℕ) → reported k ≡ some v → any (λ y. y == k) members ≡ true
    member k v live = elim (Bool-cases (k == replica)) [
      | inl own ↦ any-set_add replica k s.registry (inl (ground arith))
      | inr other ↦
          any-set_add replica k s.registry (inr (w.registered k v (ground (arith, live, other))))
    ]

step-IsPublished : {s t : Reports} → IsPublished s → Step s t → IsPublished t
step-IsPublished {s = s} w (reports replica revision) =
    report_script-IsPublished replica revision s w
step-IsPublished {s = s} w (replica_expires replica) = record {
  registered = λ k v live. w.registered k v (kept k v live);
  low = λ n k v e live. w.low n k v e (kept k v live);
}
  where
    kept :
        (k v : ℕ) → (if k == replica then none else s.reported k) ≡ some v → s.reported k ≡ some v
    kept k v live = ground (arith, live)
step-IsPublished w aggregate_expires = record {
  registered = w.registered;
  low = λ n k v e live. cc;
}
step-IsPublished w (registry_expires gone) = record {
  registered = λ k v live. let g = gone k in cc;
  low = w.low;
}

-- After any sequence of reports by any replicas and of expiries, the published revision never exceeds
-- the revision of a replica whose report is live, and every such replica is registered.
pub Reach-IsPublished : {s t : Reports} → IsPublished s → Reach s t → IsPublished t
Reach-IsPublished w here = w
Reach-IsPublished w (next before step) = step-IsPublished (Reach-IsPublished w before) step
