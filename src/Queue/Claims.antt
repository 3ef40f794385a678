-- ===== src/Queue/Claims.antt =====
-- The rows that a pass claims and completes, by their ids.
use skn25_final_4team.Prelude.{
  ℕ, zero, suc, ◌+◌, ◌≡◌, refl, sym, ◌∙◌, ap, Bool, true, false, ◌&&◌, ◌||◌, List, [], ◌∷◌, map,
  ◌==◌, ==_iff, any, keep, length, Bool-cases, ◌⊎◌, inl, inr, arith, All, All-mono,
}
use skn25_final_4team.Equalize.{sorted}
use skn25_final_4team.Queue.{
  QueueRow, Claim, take, row_before, claimable, claimable_ids, locked, pass,
}
use skn25_final_4team.Queue.Drain.{is_in, any-sorted, complete-waiting}
use skn25_final_4team.Queue.Outputs.{completed}

-- queue_id is the primary key.
abbrev pub Unique : List QueueRow → Type 0
Unique [] = Unit
Unique (q ∷ rest) = (any (λ r. r.queue_id == q.queue_id) rest ≡ false) × Unique rest

-- Some row has the id of a row.
abbrev matches : List QueueRow → QueueRow → Bool
matches rows q = any (λ l. q.queue_id == l.queue_id) rows

matches_self : (queue : List QueueRow) → All (λ q. matches queue q ≡ true) queue
matches_self [] = tt
matches_self (q ∷ rest) = (
  ground (arith, (==_iff q.queue_id q.queue_id).1 refl),
  All-mono (λ r. matches rest r ≡ true) (λ r. matches (q ∷ rest) r ≡ true) (λ r h. ground arith)
      rest (matches_self rest),
)

-- A row matches one of the rows with an id of a list just if its own id is in the list, and the row
-- matches one at all.
matches-keep :
    (ids : List ℕ) (queue : List QueueRow) (q : QueueRow)
    → matches (keep (is_in ids) queue) q ≡ (is_in ids q && matches queue q)
matches-keep ids [] q = ground arith
matches-keep ids (l ∷ rest) q = elim (Bool-cases (q.queue_id == l.queue_id)) [
  | inl same ↦
      let e : q.queue_id ≡ l.queue_id = (==_iff q.queue_id l.queue_id).0 same in
      elim (Bool-cases (is_in ids l)) [
        | inl f ↦
            let k : is_in ids q ≡ true = ap (λ (n : ℕ). any (λ id. n == id) ids) e ∙ f in
            rw (f, same, k) refl
        | inr f ↦
            let k : is_in ids q ≡ false = ap (λ (n : ℕ). any (λ id. n == id) ids) e ∙ f in
            let later = matches-keep ids rest q in rw (f, k) (rw k at later)
      ]
  | inr other ↦ elim (Bool-cases (is_in ids l)) [
    | inl f ↦ rw (f, other) (matches-keep ids rest q)
    | inr f ↦ rw (f, other) (matches-keep ids rest q)
  ]
]

keep-agree :
    (p q : QueueRow → Bool) (rows : List QueueRow)
    → All (λ r. p r ≡ q r) rows
    → keep p rows ≡ keep q rows
keep-agree p q [] h = refl
keep-agree p q (r ∷ rest) (here, later) = rw (here, keep-agree p q rest later) refl

-- The UPDATE returns the rows that were locked.
pub completed-locked :
    (busy : ℕ → Bool) (c : Claim) (queue : List QueueRow)
    → completed (locked busy c queue) queue ≡ locked busy c queue
unfolding completed locked
completed-locked busy c queue =
    let ids = claimable_ids busy c queue in
    keep-agree (matches (keep (is_in ids) queue)) (is_in ids) queue (
      All-mono (λ q. matches queue q ≡ true) (λ q. matches (keep (is_in ids) queue) q ≡ is_in ids q)
        (λ q h. matches-keep ids queue q ∙ ground (arith, h)) queue (matches_self queue))

-- The rows that a test keeps, by ids: where ids are unique, a row that matches one of them is kept.
module _ (test : QueueRow → Bool) where
  absent-kept :
      (q : QueueRow) (rows : List QueueRow)
      → any (λ r. r.queue_id == q.queue_id) rows ≡ false
      → matches (keep test rows) q ≡ false
  absent-kept q [] h = refl
  absent-kept q (r ∷ rest) h = ground (
    arith,
    absent-kept q rest,
    (==_iff q.queue_id r.queue_id).0,
    (==_iff r.queue_id q.queue_id).1,
  )

  absent-All :
      (q : QueueRow) (rows : List QueueRow)
      → any (λ r. r.queue_id == q.queue_id) rows ≡ false
      → All (λ r. (r.queue_id == q.queue_id) ≡ false) rows
  absent-All q [] h = tt
  absent-All q (r ∷ rest) h = (ground arith, absent-All q rest (ground arith))

  abbrev Kept : List QueueRow → QueueRow → Type 0
  Kept rows r = matches (keep test rows) r ≡ true → test r ≡ true

  Kept-cons :
      (q r : QueueRow) (rest : List QueueRow)
      → (r.queue_id == q.queue_id) ≡ false
      → Kept rest r
      → Kept (q ∷ rest) r
  Kept-cons q r rest other h = elim (Bool-cases (test q)) [
    | inl e ↦ rw (e, other) h
    | inr e ↦ rw e h
  ]

  Unique-Kept : (queue : List QueueRow) → Unique queue → All (Kept queue) queue
  Unique-Kept [] u = tt
  Unique-Kept (q ∷ rest) (fresh, u) =
      (here (Bool-cases (test q)), both rest (Unique-Kept rest u) (absent-All q rest fresh))
    where
      here : (test q ≡ true) ⊎ (test q ≡ false) → Kept (q ∷ rest) q
      here (inl e) = λ _. e
      here (inr e) = rw e (λ h. let none = absent-kept q rest fresh in cc)

      both :
          (rows : List QueueRow)
          → All (Kept rest) rows
          → All (λ r. (r.queue_id == q.queue_id) ≡ false) rows
          → All (Kept (q ∷ rest)) rows
      both [] a b = tt
      both (r ∷ rows) (k, ks) (n, ns) = (Kept-cons q r rest n k, both rows ks ns)

is_in-map :
    (rows : List QueueRow) (q : QueueRow) → is_in (map (λ r. r.queue_id) rows) q ≡ matches rows q
is_in-map [] q = refl
is_in-map (r ∷ rest) q = ap (λ b. (q.queue_id == r.queue_id) || b) (is_in-map rest q)

matches-take :
    (n : ℕ) (rows : List QueueRow) (q : QueueRow)
    → matches (take n rows) q ≡ true
    → matches rows q ≡ true
unfolding take
matches-take zero rows q h = cc
matches-take (suc n) [] q h = cc
matches-take (suc n) (r ∷ rest) q h = ground (arith, matches-take n rest q)

module _ (busy : ℕ → Bool) (c : Claim) (queue : List QueueRow) where
  claimed-claimable :
      (q : QueueRow)
      → Kept (claimable busy c) queue q
      → (claimable busy c q && is_in (claimable_ids busy c queue) q)
        ≡ is_in (claimable_ids busy c queue) q
  unfolding claimable_ids
  claimed-claimable q kept = elim (Bool-cases (is_in (claimable_ids busy c queue) q)) [
    | inr e ↦ rw e (ground arith)
    | inl e ↦
        let ready = sorted row_before (keep (claimable busy c) queue) in
        let one =
          matches-take c.batch_size ready q (sym (is_in-map (take c.batch_size ready) q) ∙ e) in
        let two =
          any-sorted row_before (λ l. q.queue_id == l.queue_id) (keep (claimable busy c) queue) in
        let free = kept (sym two ∙ one) in rw (e, free) refl
  ]

  -- Where ids are unique, a pass leaves as many claimable rows less as it claims.
  pub pass-claimed :
      Unique queue
      → length (keep (claimable busy c) (pass busy c queue)) + length (locked busy c queue)
        ≡ length (keep (claimable busy c) queue)
  unfolding pass locked
  pass-claimed u =
      let ids = claimable_ids busy c queue in
      let same =
        keep-agree (λ q. claimable busy c q && is_in ids q) (is_in ids) queue
          (All-mono (Kept (claimable busy c) queue)
            (λ q. (claimable busy c q && is_in ids q) ≡ is_in ids q) claimed-claimable queue
            (Unique-Kept (claimable busy c) queue u)) in
      rw (← same) (complete-waiting busy c ids queue)
