-- ===== src/Equalize/Sums.antt =====
-- Aggregation to a coarser grain keeps the sums of the points.
use skn25_final_4team.Prelude.{ℕ, ◌+◌, ◌≡◌, refl, ap, ◌∙◌, Bool, List, [], ◌∷◌, ◌++◌, arith, ok}
use skn25_final_4team.Equalize.{Floats, EqualizedRow, bucket_start, insert_by, sorted}
use skn25_final_4team.Equalize.Aggregate.{
  total, AggregatedRow, BucketKey, Buckets, bucket_add, bucket_all, bucket_less, aggregate_bucket,
  aggregate_each, aggregate_observed_rows,
}

pub total-append {ℓ} :
    {A : Type ℓ} (f : A → ℕ) (xs bs : List A) → total f (xs ++ bs) ≡ total f xs + total f bs
unfolding total
total-append f [] bs = omega arith
total-append f (a ∷ rest) bs = omega (arith, total-append f rest bs)

total-insert_by {ℓ} :
    {A : Type ℓ} (less : A → A → Bool) (f : A → ℕ) (a : A) (xs : List A)
    → total f (insert_by less a xs) ≡ f a + total f xs
unfolding total insert_by
total-insert_by less f a [] = refl
total-insert_by less f a (x ∷ xs) = ground (arith, total-insert_by less f a xs)

-- Sorting keeps a sum.
pub total-sorted {ℓ} :
    {A : Type ℓ} (less : A → A → Bool) (f : A → ℕ) (xs : List A)
    → total f (sorted less xs) ≡ total f xs
unfolding total sorted
total-sorted less f [] = refl
total-sorted less f (x ∷ xs) =
    total-insert_by less f x (sorted less xs) ∙ ap (λ n. f x + n) (total-sorted less f xs)

module _ (F : Floats) (f : EqualizedRow F → ℕ) where
  abbrev in_bucket : BucketKey × List (EqualizedRow F) → ℕ
  in_bucket b = total f b.1

  total-bucket_add :
      (key : BucketKey) (r : EqualizedRow F) (bs : Buckets F)
      → total in_bucket (bucket_add F key r bs) ≡ f r + total in_bucket bs
  unfolding total bucket_add
  total-bucket_add key r [] = ground arith
  total-bucket_add key r ((k, rs) ∷ rest) =
      ground (arith, total-bucket_add key r rest, total-append f rs (r ∷ []))

  total-bucket_all :
      (minutes : ℕ) (rows : List (EqualizedRow F)) (bs : Buckets F)
      → total in_bucket (bucket_all F minutes bs rows) ≡ total in_bucket bs + total f rows
  unfolding total bucket_all
  total-bucket_all minutes [] bs = omega arith
  total-bucket_all minutes (r ∷ rs) bs =
      let key : BucketKey = (r.meter_urn, r.measurement, bucket_start r.timestamp minutes) in
      omega (arith, total-bucket_all minutes rs (bucket_add F key r bs), total-bucket_add key r bs)

  total-aggregate_each :
      (g : AggregatedRow F → ℕ)
      → ((minutes : ℕ) (key : BucketKey) (rs : List (EqualizedRow F))
          → g (aggregate_bucket F minutes key rs) ≡ total f rs)
      → (minutes : ℕ) (bs : Buckets F) → total g (aggregate_each F minutes bs) ≡ total in_bucket bs
  unfolding total aggregate_each
  total-aggregate_each g sums minutes [] = refl
  total-aggregate_each g sums minutes ((k, rs) ∷ rest) =
      omega (arith, sums minutes k rs, total-aggregate_each g sums minutes rest)

  -- A field that a bucket's row sums has the same sum after the aggregation as before.
  aggregated-sum :
      (g : AggregatedRow F → ℕ)
      → ((minutes : ℕ) (key : BucketKey) (rs : List (EqualizedRow F))
          → g (aggregate_bucket F minutes key rs) ≡ total f rs)
      → (rows : List (EqualizedRow F)) (minutes : ℕ) (out : List (AggregatedRow F))
      → aggregate_observed_rows F rows minutes ≡ ok out
      → total g out ≡ total f rows
  unfolding total aggregate_observed_rows
  aggregated-sum g sums rows minutes out h =
      let same : out
          ≡ aggregate_each F minutes (sorted (bucket_less F) (bucket_all F minutes [] rows)) =
        ground arith in
      ap (total g) same
      ∙ total-aggregate_each g sums minutes (sorted (bucket_less F) (bucket_all F minutes [] rows))
      ∙ total-sorted (bucket_less F) in_bucket (bucket_all F minutes [] rows)
      ∙ total-bucket_all minutes rows []
      ∙ start
    where
      start : total in_bucket [] + total f rows ≡ total f rows
      start = omega arith

-- Whatever the rows and the grain, the rows that aggregate_observed_rows returns have together the
-- same expected, observed and gap points as the rows that it was given.
pub aggregate_observed_rows-conserves :
    (F : Floats) (rows : List (EqualizedRow F)) (minutes : ℕ) (out : List (AggregatedRow F))
    → aggregate_observed_rows F rows minutes ≡ ok out
    → (total (λ (a : AggregatedRow F). a.expected_points) out
        ≡ total (λ (r : EqualizedRow F). r.expected_points) rows)
      × (total (λ (a : AggregatedRow F). a.observed_points) out
          ≡ total (λ (r : EqualizedRow F). r.observed_points) rows)
      × (total (λ (a : AggregatedRow F). a.gap_points) out
          ≡ total (λ (r : EqualizedRow F). r.gap_points) rows)
unfolding aggregate_bucket
aggregate_observed_rows-conserves F rows minutes out h = (
  aggregated-sum F (λ r. r.expected_points) (λ a. a.expected_points) (λ m k rs. refl) rows minutes
      out h,
  aggregated-sum F (λ r. r.observed_points) (λ a. a.observed_points) (λ m k rs. refl) rows minutes
      out h,
  aggregated-sum F (λ r. r.gap_points) (λ a. a.gap_points) (λ m k rs. refl) rows minutes out h,
)
