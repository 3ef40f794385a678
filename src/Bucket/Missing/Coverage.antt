-- ===== src/Bucket/Missing/Coverage.antt =====
-- expected_bucket.py and missing_bucket_materializer.py together: generate, then materialize.
use text.Mathlib.TextPositions.{eq_refl}
use skn25_final_4team.Prelude.{
  ℕ, ◌%◌, ◌≤◌, ◌<◌, ◌≡◌, refl, ◌∙◌, ◌↔◌, Bool, true, false, not, ◌&&◌, List, [], ◌∷◌, map, arith,
  All, ok,
}
use skn25_final_4team.Bucket.{
  aware, ExpectedBucket, BucketRequest, BucketKey, expected_bucket_key, generate_expected_buckets,
}
use skn25_final_4team.Bucket.Grid.{has_ts}
use skn25_final_4team.Bucket.Generate.{
  is_periodic, step_of, Fills, generate-covers, generate-buckets, request_positive,
}
use skn25_final_4team.Bucket.Missing.{
  MissingBucketRow, ExistingKey, normalize_all, key_eq, key_in, materialize_missing_buckets,
}
use skn25_final_4team.Bucket.Missing.Gaps.{HasPoints, row_keys, materialize-gaps}

-- A key of the request's series is expected exactly when its instant is.
key_in-expected :
    (r : BucketRequest) (t : ℕ) (bs : List ExpectedBucket)
    → All (Fills r) bs
    → key_in (r.meter_urn, r.measurement, t) (map expected_bucket_key bs) ≡ has_ts t bs
unfolding key_eq expected_bucket_key
key_in-expected r t [] h = refl
key_in-expected r t (b ∷ bs) ((m, n, _), later) =
    rw (m, n, eq_refl, eq_refl) (ground (arith, key_in-expected r t bs later))

Fills-HasPoints :
    (r : BucketRequest)
    → 0 < r.target_grain_seconds
    → (bs : List ExpectedBucket) → All (Fills r) bs
    → All HasPoints bs
Fills-HasPoints r h [] fills = tt
Fills-HasPoints r h (b ∷ bs) ((_, _, e), later) = (grind (arith, e), Fills-HasPoints r h bs later)

-- A test that another test and the absence of a key decide.
gap_iff :
    {P Q R : Type 0} (row wanted there : Bool)
    → row ≡ (wanted && not there)
    → (wanted ≡ true) ↔ (P × Q × R)
    → (row ≡ true) ↔ (P × Q × R × (there ≡ false))
gap_iff row true true e h = (λ x. cc, λ (p, q, r, x). cc)
gap_iff row true false e h = (λ x. let (p, q, r) = h.0 refl in (p, q, r, refl), λ y. e)
gap_iff row false there e h = (λ x. cc, λ (p, q, r, x). e ∙ h.1 (p, q, r))

module _ (r : BucketRequest) (bs : List ExpectedBucket) (start stop : ℕ)
    (starts : r.start_ts ≡ aware start) (ends : r.end_ts ≡ aware stop)
    (returned : generate_expected_buckets r ≡ ok bs) (periodic : is_periodic r ≡ true)
    (existing : List ExistingKey) (keys : List BucketKey)
    (read : normalize_all existing ≡ ok keys) where
  -- Over the buckets that a successful call generates for a series with a period, and existing
  -- keys that can be read, the materializer returns; and it has a row of the series for an instant
  -- exactly when the instant is a multiple of the grain in the half-open interval and the series
  -- has no existing key there.
  pub materialize-coverage :
      (rows : List MissingBucketRow) × (materialize_missing_buckets bs existing ≡ ok rows)
      × ((t : ℕ)
          → (key_in (r.meter_urn, r.measurement, t) (row_keys rows) ≡ true) ↔ (
              (start ≤ t)
              × (t < stop)
              × (t % step_of r ≡ 0)
              × (key_in (r.meter_urn, r.measurement, t) keys ≡ false)))
  materialize-coverage =
      let fills = (generate-buckets r bs start stop starts ends returned periodic).1 in
      let positive = request_positive r bs start stop starts ends returned periodic in
      let (rows, made, holds, _) =
        materialize-gaps bs existing keys (Fills-HasPoints r positive bs fills) read in
      (
        rows,
        made,
        λ t.
            gap_iff _ (key_in (r.meter_urn, r.measurement, t) (map expected_bucket_key bs)) _
              (holds (r.meter_urn, r.measurement, t))
              (rw (key_in-expected r t bs fills)
                (generate-covers r bs start stop starts ends returned periodic t)),
      )
