-- ===== src/Queue/Drain.antt =====
-- How the queue shrinks: what one pass completes, and that passes drain the claimable rows.
use skn25_final_4team.Prelude.{
  ℕ, zero, suc, ◌+◌, ◌≤◌, ◌<◌, ◌≡◌, refl, sym, ◌∙◌, ap, Bool, true, ◌&&◌, ◌||◌, List, [], ◌∷◌, map,
  ◌==◌, any, keep, length, Bool-cases, List-cases, ltb, ltb→lt, inl, inr, arith,
}
use skn25_final_4team.Equalize.{insert_by, sorted}
use skn25_final_4team.Queue.{
  QueueRow, Claim, take, row_before, claimable, claimable_ids, complete, pass,
}

-- The queue after a number of passes of one worker.
unfoldable pub passes : (ℕ → Bool) → Claim → ℕ → List QueueRow → List QueueRow
unfolding pass
passes busy c zero queue = queue
passes busy c (suc n) queue = passes busy c n (pass busy c queue)

module _ {ℓ} {A : Type ℓ} (less : A → A → Bool) where
  any-insert_by :
      (test : A → Bool) (a : A) (l : List A)
      → any test (insert_by less a l) ≡ (test a || any test l)
  unfolding insert_by
  any-insert_by test a [] = refl
  any-insert_by test a (b ∷ l) = ground (arith, any-insert_by test a l)

  pub any-sorted : (test : A → Bool) (l : List A) → any test (sorted less l) ≡ any test l
  unfolding sorted
  any-sorted test [] = refl
  any-sorted test (a ∷ l) =
      any-insert_by test a (sorted less l) ∙ ap (λ b. test a || b) (any-sorted test l)

any-length {ℓ} : {A : Type ℓ} (l : List A) → 0 < length l → any (λ a. true) l ≡ true
any-length [] h = ground arith
any-length (a ∷ l) h = refl

positive : (n : ℕ) → 0 < n → (m : ℕ) × (n ≡ suc m)
positive zero h = ground arith
positive (suc m) h = (m, refl)

empty_list {ℓ} : {A : Type ℓ} (l : List A) → length l ≤ 0 → l ≡ []
empty_list [] h = refl
empty_list (a ∷ l) h = ground arith

abbrev pub is_in : List ℕ → QueueRow → Bool
is_in ids q = any (λ id. q.queue_id == id) ids

module _ (busy : ℕ → Bool) (c : Claim) where
  abbrev waiting : List QueueRow → ℕ
  waiting queue = length (keep (claimable busy c) queue)

  abbrev taken : List ℕ → List QueueRow → ℕ
  taken ids queue = length (keep (λ q. claimable busy c q && is_in ids q) queue)

  pub complete-waiting :
      (ids : List ℕ) (queue : List QueueRow)
      → waiting (complete ids queue) + taken ids queue ≡ waiting queue
  unfolding complete
  complete-waiting ids [] = refl
  complete-waiting ids (q ∷ rest) = elim (Bool-cases (is_in ids q)) [
    | inl e ↦ elim (Bool-cases (claimable busy c q)) [
      | inl f ↦ rw (e, f) (omega (arith, complete-waiting ids rest))
      | inr f ↦ rw (e, f) (complete-waiting ids rest)
    ]
    | inr e ↦ elim (Bool-cases (claimable busy c q)) [
      | inl f ↦ rw (e, f) (omega (arith, complete-waiting ids rest))
      | inr f ↦ rw (e, f) (complete-waiting ids rest)
    ]
  ]

  taken-positive :
      (i : ℕ) (ids : List ℕ) (queue : List QueueRow)
      → any (λ q. q.queue_id == i) (keep (claimable busy c) queue) ≡ true
      → 0 < taken (i ∷ ids) queue
  taken-positive i ids [] h = cc
  taken-positive i ids (q ∷ rest) h = elim (Bool-cases (claimable busy c q)) [
    | inr f ↦ rw f (taken-positive i ids rest (rw f at h))
    | inl f ↦ elim (Bool-cases (q.queue_id == i)) [
      | inl e ↦ rw (f, e) (omega arith)
      | inr e ↦
          let below = taken-positive i ids rest (rw (f, e) at h) in
          rw (f, e) (ground (arith, below))
    ]
  ]

  abbrev queued : List QueueRow → List QueueRow
  queued queue = sorted row_before (keep (claimable busy c) queue)

  -- The first row of the sorted ones is taken.
  head_taken :
      (queue later : List QueueRow) (x : QueueRow) (n : ℕ)
      → queued queue ≡ x ∷ later
      → c.batch_size ≡ suc n
      → claimable_ids busy c queue ≡ x.queue_id ∷ map (λ q. q.queue_id) (take n later)
  unfolding claimable_ids take
  head_taken queue later x n e size = rw (size, e) refl

  -- A pass takes a row if there is one.
  pass-takes :
      (queue : List QueueRow)
      → 0 < c.batch_size
      → 0 < waiting queue
      → 0 < taken (claimable_ids busy c queue) queue
  pass-takes queue batch some_wait = elim (List-cases (queued queue)) [
    | inl e ↦
        let same = any-sorted row_before (λ q. true) (keep (claimable busy c) queue) in
        let none_left = rw e at same in
        let some_left = any-length (keep (claimable busy c) queue) some_wait in cc
    | inr (x, later, e) ↦
        let (n, size) = positive (c.batch_size) batch in
        let same =
          any-sorted row_before (λ q. q.queue_id == x.queue_id) (keep (claimable busy c) queue) in
        let found = rw e at same in
        rw (head_taken queue later x n e size) (
          taken-positive x.queue_id (map (λ q. q.queue_id) (take n later)) queue
            (sym found ∙ ground arith))
  ]

  -- A pass leaves fewer claimable rows, if there is one and the batch size is positive.
  pub pass-waiting :
      (queue : List QueueRow)
      → 0 < c.batch_size
      → 0 < waiting queue
      → waiting (pass busy c queue) < waiting queue
  unfolding pass
  pass-waiting queue batch some_wait =
      omega (
        arith,
        complete-waiting (claimable_ids busy c queue) queue,
        pass-takes queue batch some_wait,
      )

  pass-fewer :
      (n : ℕ) (queue : List QueueRow)
      → 0 < c.batch_size
      → waiting queue ≤ suc n
      → waiting (pass busy c queue) ≤ n
  unfolding pass
  pass-fewer n queue batch few = elim (Bool-cases (ltb 0 (waiting queue))) [
    | inl some_wait ↦
        omega (arith, few, pass-waiting queue batch (ltb→lt 0 (waiting queue) some_wait))
    | inr nothing ↦
        let none_wait : waiting queue ≡ 0 = ground arith in
        omega (arith, none_wait, complete-waiting (claimable_ids busy c queue) queue)
  ]

  -- While the same rows stay locked by others, a claim with a positive batch size drains the queue:
  -- as many passes as there are claimable rows leave none.
  pub passes-drain :
      (n : ℕ) (queue : List QueueRow)
      → 0 < c.batch_size
      → waiting queue ≤ n
      → keep (claimable busy c) (passes busy c n queue) ≡ []
  unfolding passes
  passes-drain zero queue batch few = empty_list (keep (claimable busy c) queue) few
  passes-drain (suc n) queue batch few =
      passes-drain n (pass busy c queue) batch (pass-fewer n queue batch few)
