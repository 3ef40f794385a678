-- ===== src/Canonical/Backed.antt =====
-- What stands in the canonical tables after a pass, and which checks are spent.
use mathlib.Core.List.{Mem, mem-cons_self, mem-cons_of_mem}
use skn25_final_4team.Prelude.{
  ℕ, zero, suc, ◌≡◌, refl, String, Bool, true, false, not, ◌&&◌, ◌==◌, ◌⊎◌, inl, inr, List, [], ◌∷◌,
  ◌++◌, map, ltb, any, keep, All, All-mono, Bool-cases, arith,
}
use skn25_final_4team.Equalize.{insert_by, sorted}
use skn25_final_4team.Live.{Resolution, res_15min, res_1h}
use skn25_final_4team.Queue.{take}
use skn25_final_4team.Canonical.{
  CheckRow, LiveRow, Params, CanonicalRow, Tables, is_eligible, is_source_of, check_before,
  eligible_checks, rows_of, joined_rows, same_key, first_of_each, source_rows, upsert_canonical,
  promote_rows, mark_checks, promotion_pass,
}

module _ {ℓ κ} {A : Type ℓ} (P : A → Type κ) where
  All-append : (xs ys : List A) → All P xs → All P ys → All P (xs ++ ys)
  All-append [] ys h k = k
  All-append (x ∷ xs) ys (here, later) k = (here, All-append xs ys later k)

  All-keep : (test : A → Bool) (xs : List A) → All P xs → All P (keep test xs)
  All-keep test [] h = tt
  All-keep test (x ∷ xs) (here, later) = elim (Bool-cases (test x)) [
    | inl e ↦ rw e (here, All-keep test xs later)
    | inr e ↦ rw e (All-keep test xs later)
  ]

  All-kept :
      (test : A → Bool) (xs : List A) → All P xs → All (λ x. P x × (test x ≡ true)) (keep test xs)
  All-kept test [] h = tt
  All-kept test (x ∷ xs) (here, later) = elim (Bool-cases (test x)) [
    | inl e ↦ rw e ((here, e), All-kept test xs later)
    | inr e ↦ rw e (All-kept test xs later)
  ]

  All-take : (n : ℕ) (xs : List A) → All P xs → All P (take n xs)
  unfolding take
  All-take zero xs h = tt
  All-take (suc n) [] h = tt
  All-take (suc n) (x ∷ xs) (here, later) = (here, All-take n xs later)

  All-insert_by :
      (less : A → A → Bool) (a : A) (xs : List A) → P a → All P xs → All P (insert_by less a xs)
  unfolding insert_by
  All-insert_by less a [] h k = (h, tt)
  All-insert_by less a (x ∷ xs) h (here, later) = elim (Bool-cases (less x a)) [
    | inl e ↦ rw e (here, All-insert_by less a xs h later)
    | inr e ↦ rw e (h, (here, later))
  ]

  All-sorted : (less : A → A → Bool) (xs : List A) → All P xs → All P (sorted less xs)
  unfolding sorted
  All-sorted less [] h = tt
  All-sorted less (x ∷ xs) (here, later) =
      All-insert_by less x (sorted less xs) here (All-sorted less xs later)

All-map {ℓ κ ι} :
    {A : Type ℓ} {B : Type κ} (P : B → Type ι) (f : A → B) (xs : List A)
    → All (λ a. P (f a)) xs
    → All P (map f xs)
All-map P f [] h = tt
All-map P f (x ∷ xs) (here, later) = (here, All-map P f xs later)

All-Mem {ℓ} : {A : Type ℓ} (xs : List A) → All (λ x. Mem x xs) xs
All-Mem [] = tt
All-Mem (x ∷ xs) = (
  mem-cons_self,
  All-mono (λ y. Mem y xs) (λ y. Mem y (x ∷ xs)) (λ y. mem-cons_of_mem x) xs (All-Mem xs),
)

module _ {F : Type 0} (at_most : F → F → Bool) (near : F → ℕ → ℕ → Bool) where
  -- The rows of a list of checks of which something holds.
  abbrev IsRowOf : (CheckRow F → Type 0) → Resolution → List (LiveRow F) → LiveRow F × ℕ → Type 0
  IsRowOf E resolution live (src, id) =
      (pc : CheckRow F) × E pc
      × Mem src live
      × (is_source_of at_most near resolution pc src ≡ true)
      × (id ≡ pc.check_id)

  rows_of-IsRowOf :
      (E : CheckRow F → Type 0) (resolution : Resolution) (live : List (LiveRow F))
      (pc : CheckRow F)
      → E pc
      → All (IsRowOf E resolution live) (rows_of at_most near resolution live pc)
  unfolding rows_of
  rows_of-IsRowOf E resolution live pc h =
      let test : LiveRow F → Bool = is_source_of at_most near resolution pc in
      All-map (IsRowOf E resolution live) (λ src. (src, pc.check_id)) (keep test live)
        (All-mono (λ src. Mem src live × (test src ≡ true))
          (λ src. IsRowOf E resolution live (src, pc.check_id)) (λ src k. (pc, h, k.0, k.1, refl))
          (keep test live) (All-kept (λ src. Mem src live) test live (All-Mem live)))

  joined_rows-IsRowOf :
      (E : CheckRow F → Type 0) (resolution : Resolution) (live : List (LiveRow F))
      (checks : List (CheckRow F))
      → All E checks
      → All (IsRowOf E resolution live) (joined_rows at_most near resolution live checks)
  unfolding joined_rows
  joined_rows-IsRowOf E resolution live [] h = tt
  joined_rows-IsRowOf E resolution live (pc ∷ rest) (here, later) =
      All-append (IsRowOf E resolution live) (rows_of at_most near resolution live pc)
        (joined_rows at_most near resolution live rest) (rows_of-IsRowOf E resolution live pc here)
        (joined_rows-IsRowOf E resolution live rest later)

  first_of_each-All :
      (P : LiveRow F × ℕ → Type 0) (rows : List (LiveRow F × ℕ))
      → All P rows
      → All P (first_of_each at_most near rows)
  unfolding first_of_each
  first_of_each-All P [] h = tt
  first_of_each-All P (r ∷ rest) (here, later) = (
    here,
    All-keep P (λ s. not (same_key at_most near r.0 s.0)) (first_of_each at_most near rest)
        (first_of_each-All P rest later),
  )

  source_rows-IsRowOf :
      (E : CheckRow F → Type 0) (resolution : Resolution) (live : List (LiveRow F))
      (checks : List (CheckRow F))
      → All E checks
      → All (IsRowOf E resolution live) (source_rows at_most near resolution live checks)
  unfolding source_rows
  source_rows-IsRowOf E resolution live checks h =
      let rows = joined_rows at_most near resolution live checks in
      first_of_each-All (IsRowOf E resolution live) (sorted (λ a b. ltb b.1 a.1) rows) (
        All-sorted (IsRowOf E resolution live) (λ a b. ltb b.1 a.1) rows
          (joined_rows-IsRowOf E resolution live checks h))

  upsert_canonical-All :
      (Q : CanonicalRow F → Type 0) (r : CanonicalRow F) (table : List (CanonicalRow F))
      → Q r
      → All Q table
      → All Q (upsert_canonical at_most near r table)
  unfolding upsert_canonical
  upsert_canonical-All Q r [] h k = (h, tt)
  upsert_canonical-All Q r (old ∷ rest) h (here, later) =
      elim (Bool-cases (same_key at_most near old.source r.source)) [
        | inl e ↦ rw e (h, later)
        | inr e ↦ rw e (here, upsert_canonical-All Q r rest h later)
      ]

  abbrev promoted_row : String → LiveRow F × ℕ → CanonicalRow F
  promoted_row promotion_id (src, id) = record {
    source = src;
    promotion_check_id = id;
    promotion_id = promotion_id;
  }

  promote_rows-All :
      (Q : CanonicalRow F → Type 0) (promotion_id : String) (rows : List (LiveRow F × ℕ))
      (table : List (CanonicalRow F))
      → All (λ s. Q (promoted_row promotion_id s)) rows
      → All Q table
      → All Q (promote_rows at_most near promotion_id rows table)
  unfolding promote_rows
  promote_rows-All Q promotion_id [] table h k = k
  promote_rows-All Q promotion_id (s ∷ rest) table (here, later) k =
      promote_rows-All Q promotion_id rest
        (upsert_canonical at_most near (promoted_row promotion_id s) table) later
        (upsert_canonical-All Q (promoted_row promotion_id s) table here k)

  -- A check of the table that was eligible.
  abbrev pub WasEligible : Params F → Tables F → CheckRow F → Type 0
  WasEligible p t pc = Mem pc t.checks × (is_eligible at_most near p t pc ≡ true)

  -- A canonical row that was there, or that a check which was eligible backs: it is a row of the live
  -- table which the check is about, with consistent counts, the check's id and the promotion's.
  abbrev pub IsBacked :
      Params F
      → Tables F
      → Resolution
      → List (LiveRow F)
      → List (CanonicalRow F)
      → CanonicalRow F
      → Type 0
  IsBacked p t resolution live old r =
      Mem r old
      ⊎ ((pc : CheckRow F) × WasEligible p t pc
          × Mem r.source live
          × (is_source_of at_most near resolution pc r.source ≡ true)
          × (r.promotion_check_id ≡ pc.check_id)
          × (r.promotion_id ≡ p.promotion_id))

  eligible_checks-WasEligible :
      (busy : ℕ → Bool) (p : Params F) (t : Tables F)
      → All (WasEligible p t) (eligible_checks at_most near busy p t)
  unfolding eligible_checks
  eligible_checks-WasEligible busy p t =
      let test : CheckRow F → Bool =
        λ pc. is_eligible at_most near p t pc && not (busy pc.check_id) in
      let kept = All-kept (λ pc. Mem pc t.checks) test t.checks (All-Mem t.checks) in
      let good =
        All-mono (λ pc. Mem pc t.checks × (test pc ≡ true)) (WasEligible p t)
          (λ pc h. (h.0, ground (arith, h.1))) (keep test t.checks) kept in
      All-take (WasEligible p t) p.batch_size
        (sorted (check_before at_most near) (keep test t.checks))
        (All-sorted (WasEligible p t) (check_before at_most near) (keep test t.checks) good)

  table-IsBacked :
      (busy : ℕ → Bool) (p : Params F) (t : Tables F) (resolution : Resolution)
      (live : List (LiveRow F)) (old : List (CanonicalRow F))
      → All (IsBacked p t resolution live old) (
          promote_rows at_most near p.promotion_id
            (source_rows at_most near resolution live (eligible_checks at_most near busy p t))
            old)
  table-IsBacked busy p t resolution live old =
      let checks = eligible_checks at_most near busy p t in
      let rows = source_rows at_most near resolution live checks in
      promote_rows-All (IsBacked p t resolution live old) p.promotion_id rows old
        (All-mono (IsRowOf (WasEligible p t) resolution live)
          (λ s. IsBacked p t resolution live old (promoted_row p.promotion_id s))
          (λ s h. inr (h.0, h.1, h.2, h.3, h.4, refl)) rows
          (source_rows-IsRowOf (WasEligible p t) resolution live checks
            (eligible_checks-WasEligible busy p t)))
        (All-mono (λ r. Mem r old) (IsBacked p t resolution live old) (λ r. inl) old (All-Mem old))

  -- Whether a list of source rows has a row of a check.
  abbrev pub is_marked : List (LiveRow F × ℕ) → CheckRow F → Bool
  is_marked sources pc = any (λ s. pc.check_id == s.1) sources

  mark_checks-spent :
      (sources : List (LiveRow F × ℕ)) (checks : List (CheckRow F)) (p : Params F) (t : Tables F)
      → All
          (λ pc. (is_marked sources pc ≡ false) ⊎ (is_eligible at_most near p t pc ≡ false))
          (mark_checks at_most near sources checks)
  unfolding mark_checks
  mark_checks-spent sources [] p t = tt
  mark_checks-spent sources (pc ∷ rest) p t = elim (Bool-cases (is_marked sources pc)) [
    | inl e ↦ rw e (inr (ground arith), mark_checks-spent sources rest p t)
    | inr e ↦ rw e (inl e, mark_checks-spent sources rest p t)
  ]

  -- The source rows that a pass promotes.
  abbrev pub promoted : (ℕ → Bool) → Params F → Tables F → List (LiveRow F × ℕ)
  promoted busy p t =
      let checks = eligible_checks at_most near busy p t in
      source_rows at_most near res_15min t.live_15min checks
      ++ source_rows at_most near res_1h t.live_1h checks

  -- After a pass, each check either has no row among those that the pass promoted, or is not
  -- eligible any more, whatever the parameters and the other tables of a later pass.
  pub promotion_pass-spent :
      (busy : ℕ → Bool) (p : Params F) (t : Tables F) (q : Params F) (u : Tables F)
      → All
          (λ pc.
            (is_marked (promoted busy p t) pc ≡ false) ⊎ (is_eligible at_most near q u pc ≡ false))
          (promotion_pass at_most near busy p t).checks
  unfolding promotion_pass
  promotion_pass-spent busy p t q u = mark_checks-spent (promoted busy p t) t.checks q u

  -- After a pass, every row of a canonical table was there before, or is a row of the live table of
  -- its resolution that a check which was eligible is about, by source table, series, bucket and
  -- policy version; that row expects the 15 or 60 points of its resolution, with observed and gap
  -- points together no more than those and a ratio to match, and the check's id and the promotion's
  -- are in the provenance.
  pub promotion_pass-IsBacked :
      (busy : ℕ → Bool) (p : Params F) (t : Tables F)
      → All
          (IsBacked p t res_15min t.live_15min t.canonical_15min)
          (promotion_pass at_most near busy p t).canonical_15min
        × All
            (IsBacked p t res_1h t.live_1h t.canonical_1h)
            (promotion_pass at_most near busy p t).canonical_1h
  unfolding promotion_pass
  promotion_pass-IsBacked busy p t = (
    table-IsBacked busy p t res_15min t.live_15min t.canonical_15min,
    table-IsBacked busy p t res_1h t.live_1h t.canonical_1h,
  )
