-- ===== src/Bucket/Missing/Gaps.antt =====
-- What the materializer returns: exactly the gaps, and nothing when it is run again.
use skn25_final_4team.Prelude.{
  ◌<◌, ◌≡◌, refl, ap, ◌↔◌, inl, inr, true, false, not, ◌&&◌, List, [], ◌∷◌, ◌++◌, map, none, arith,
  str_eq_iff, any-append, All, Result, ok, raises, ◌>>=◌, Bool-cases,
}
use skn25_final_4team.Bucket.{ExpectedBucket, BucketKey, expected_bucket_key}
use skn25_final_4team.Bucket.Missing.{
  MissingBucketRow, ExistingKey, tuple, missing_row_from_expected_bucket, normalize_bucket_key,
  normalize_all, key_eq, key_in, missing_rows, materialize_missing_buckets, row_key,
}

abbrev pub HasPoints : ExpectedBucket → Type 0
HasPoints b = 0 < b.expected_points

-- The key of every row of a list.
abbrev pub row_keys : List MissingBucketRow → List BucketKey
row_keys rows = map row_key rows

key_eq_iff : (k j : BucketKey) → (key_eq k j ≡ true) ↔ (k ≡ j)
unfolding key_eq
key_eq_iff (m, n, t) (m', n', t') = ground (arith, str_eq_iff m m', str_eq_iff n n')

key_eq_refl : (k : BucketKey) → key_eq k k ≡ true
key_eq_refl k = (key_eq_iff k k).1 refl

-- Equal keys are in the same lists.
key_in_congr :
    (k j : BucketKey) (ks : List BucketKey) → key_eq k j ≡ true → key_in k ks ≡ key_in j ks
key_in_congr k j ks h = ap (λ (i : BucketKey). key_in i ks) ((key_eq_iff k j).0 h)

-- The row that stands for an absent bucket.
abbrev pub row_of : ExpectedBucket → MissingBucketRow
row_of b = record {
  meter_urn = b.meter_urn;
  measurement = b.measurement;
  bucket_ts = b.bucket_ts;
  expected_points = b.expected_points;
  cadence_class = b.cadence_class;
  value = none;
  observed_points = 0;
  missing_points = b.expected_points;
  coverage_ratio = 0;
  mask_code = "missing_observation";
  quality_code = "null_observation";
  provenance = "expected_bucket_materializer";
  bad_row = false;
}

missing_row-eq :
    (b : ExpectedBucket) → HasPoints b → missing_row_from_expected_bucket b ≡ ok (row_of b)
unfolding missing_row_from_expected_bucket
missing_row-eq b h = ground arith

row_key-row_of : (b : ExpectedBucket) → row_key (row_of b) ≡ expected_bucket_key b
unfolding expected_bucket_key
row_key-row_of b = refl

-- The rows hold the keys that are expected and not there.
missing_rows-keys :
    (bs : List ExpectedBucket) (ks : List BucketKey)
    → All HasPoints bs
    → (rows : List MissingBucketRow) × (missing_rows bs ks ≡ ok rows)
      × ((k : BucketKey)
          → key_in k (row_keys rows) ≡ (key_in k (map expected_bucket_key bs) && not (key_in k ks)))
unfolding missing_rows
missing_rows-keys [] ks h = ([], refl, λ k. refl)
missing_rows-keys (b ∷ bs) ks (here, later) =
    let (rows, returned, holds) = missing_rows-keys bs ks later in
    let key = expected_bucket_key b in
    elim (Bool-cases (key_in key ks)) [
      | inl old ↦ (rows, rw old returned, λ k. ground (arith, holds k, old, key_in_congr k key ks))
      | inr new ↦ (
        row_of b ∷ rows,
        rw (new, missing_row-eq b here, returned),
        λ k. rw (row_key-row_of b) (ground (arith, holds k, new, key_in_congr k key ks)),
      )
    ]

-- Where every expected key is there, no row is made.
missing_rows-none :
    (bs : List ExpectedBucket) (ks : List BucketKey)
    → All (λ b. key_in (expected_bucket_key b) ks ≡ true) bs
    → missing_rows bs ks ≡ ok []
unfolding missing_rows
missing_rows-none [] ks h = refl
missing_rows-none (b ∷ bs) ks (here, later) = rw here (missing_rows-none bs ks later)

covers_all :
    (bs : List ExpectedBucket) (ks : List BucketKey)
    → ((k : BucketKey) → key_in k (map expected_bucket_key bs) ≡ true → key_in k ks ≡ true)
    → All (λ b. key_in (expected_bucket_key b) ks ≡ true) bs
covers_all [] ks h = tt
covers_all (b ∷ bs) ks h = (
  h (expected_bucket_key b) (rw (key_eq_refl (expected_bucket_key b))),
  covers_all bs ks λ k m. h k (ground (arith, m)),
)

-- The rows of an earlier run, given back as existing keys.
abbrev pub as_existing : List MissingBucketRow → List ExistingKey
as_existing rows = map (λ r. tuple (row_key r)) rows

normalize_all-rows :
    (rows : List MissingBucketRow) → normalize_all (as_existing rows) ≡ ok (row_keys rows)
unfolding normalize_all
normalize_all-rows [] = refl
normalize_all-rows (r ∷ rows) = rw (normalize_all-rows rows)

normalize_all-append :
    (xs : List ExistingKey) (rows : List MissingBucketRow)
    → normalize_all (xs ++ as_existing rows)
      ≡ (normalize_all xs >>= λ keys. ok (keys ++ row_keys rows))
unfolding normalize_all
normalize_all-append [] rows = normalize_all-rows rows
normalize_all-append (x ∷ xs) rows =
    simp (normalize_all-append xs rows) (regroup (normalize_bucket_key x) (normalize_all xs))
  where
    regroup :
        (m : Result BucketKey) (n : Result (List BucketKey))
        → (m >>= λ k. (n >>= λ ks. ok (ks ++ row_keys rows)) >>= λ ks. ok (k ∷ ks))
          ≡ ((m >>= λ k. n >>= λ ks. ok (k ∷ ks)) >>= λ ks. ok (ks ++ row_keys rows))
    regroup (ok k) (ok ks) = refl
    regroup (ok k) (raises e) = refl
    regroup (raises e) n = refl

-- For expected buckets that have points and existing keys that can be read, the materializer
-- returns, its rows have exactly the keys that are expected and not there, and a second run over
-- the old keys and those of its rows returns no row.
pub materialize-gaps :
    (bs : List ExpectedBucket) (existing : List ExistingKey) (keys : List BucketKey)
    → All HasPoints bs
    → normalize_all existing ≡ ok keys
    → (rows : List MissingBucketRow) × (materialize_missing_buckets bs existing ≡ ok rows)
      × ((k : BucketKey)
          → key_in k (row_keys rows)
            ≡ (key_in k (map expected_bucket_key bs) && not (key_in k keys)))
      × (materialize_missing_buckets bs (existing ++ as_existing rows) ≡ ok [])
unfolding materialize_missing_buckets
materialize-gaps bs existing keys points read =
    let (rows, returned, holds) = missing_rows-keys bs keys points in
    let again = normalize_all-append existing rows in
    (
      rows,
      rw read returned,
      holds,
      rw (again, read)
          (missing_rows-none bs (keys ++ row_keys rows) (
            covers_all bs (keys ++ row_keys rows)
              λ k m. rw any-append (ground (arith, holds k, m)))),
    )
