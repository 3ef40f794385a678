-- ===== src/Bucket/Tests.antt =====
-- Runs of the expected-bucket functions on small inputs.
use skn25_final_4team.Prelude.{
  ℕ, ◌≤◌, ◌<◌, ◌%◌, ◌≡◌, refl, ◌↔◌, arith, true, false, not, ◌&&◌, none, List, [], ◌∷◌, ◌++◌, map,
  All, Result, ok, raises, is_ok, get_ok, get_ok-eq, some,
}
use skn25_final_4team.Bucket.{
  aware, other, ExpectedBucket, BucketRequest, BucketKey, generate_expected_buckets,
  resolve_cadence, expected_points_for_bucket, expected_bucket_key,
}
use skn25_final_4team.Bucket.Grid.{has_ts, Increasing}
use skn25_final_4team.Bucket.Generate.{
  Fills, is_periodic, is_valid, step_of, generate-covers, generate-buckets, generate-is_ok,
}
use skn25_final_4team.Bucket.Missing.{
  ExistingKey, tuple, MissingBucketRow, normalize_all, key_in, materialize_missing_buckets,
}
use skn25_final_4team.Bucket.Missing.Gaps.{HasPoints, row_keys, as_existing, materialize-gaps}
use skn25_final_4team.Bucket.Missing.Coverage.{materialize-coverage}

abbrev quarter : BucketRequest
quarter = record {
  meter_urn = "m";
  measurement = "P";
  start_ts = aware 1_000_000;
  end_ts = aware 2_700_000_001;
  source_native_interval_seconds = 60;
  target_grain_seconds = 900;
  cadence_class = none;
}

abbrev stamps : Result (List ExpectedBucket) → List ℕ
stamps (ok bs) = map (λ b. b.bucket_ts) bs
stamps (raises e) = []

quarter_stamps :
    stamps (generate_expected_buckets quarter) ≡ 900_000_000 ∷ 1_800_000_000 ∷ 2_700_000_000 ∷ []
unfolding generate_expected_buckets
quarter_stamps = refl

frozen_examples :
    (expected_points_for_bucket 60 900 none ≡ ok 15)
    × (expected_points_for_bucket 10 60 none ≡ ok 6)
    × (expected_points_for_bucket 300 900 none ≡ ok 3)
unfolding expected_points_for_bucket
frozen_examples = (refl, refl, refl)

quarter-ok : is_ok (generate_expected_buckets quarter) ≡ true
unfolding generate_expected_buckets
quarter-ok = refl

abbrev quarter_buckets : List ExpectedBucket
quarter_buckets = get_ok (generate_expected_buckets quarter) quarter-ok

quarter-eq : generate_expected_buckets quarter ≡ ok quarter_buckets
quarter-eq = get_ok-eq (generate_expected_buckets quarter) quarter-ok

quarter-periodic : is_periodic quarter ≡ true
unfolding resolve_cadence
quarter-periodic = refl

generate-covers_example : (has_ts 900_000_000 quarter_buckets ≡ true) ↔ (
    (1_000_000 ≤ 900_000_000) × (900_000_000 < 2_700_000_001) × (900_000_000 % step_of quarter ≡ 0))
generate-covers_example =
    generate-covers quarter quarter_buckets 1_000_000 2_700_000_001 refl refl quarter-eq
      quarter-periodic 900_000_000

generate-buckets_example :
    Increasing 1_000_000 quarter_buckets × All (Fills quarter) quarter_buckets
generate-buckets_example =
    generate-buckets quarter quarter_buckets 1_000_000 2_700_000_001 refl refl quarter-eq
      quarter-periodic

generate-is_ok_example : is_ok (generate_expected_buckets quarter) ≡ is_valid quarter
generate-is_ok_example = generate-is_ok quarter refl

-- The loop adds one grain to its last bucket, so an interval that ends with the year 9999 raises.
last_quarter :
    is_ok (
      generate_expected_buckets (record quarter {
        start_ts = aware 253_402_299_900_000_000;
        end_ts = aware 253_402_300_799_999_999;
      }))
    ≡ false
unfolding generate_expected_buckets
last_quarter = refl

-- An empty cadence name is inferred.
unnamed :
    generate_expected_buckets (record quarter { cadence_class = some (other "") })
    ≡ generate_expected_buckets (record quarter { cadence_class = none })
unfolding generate_expected_buckets
unnamed = refl

-- One of the buckets is there already.
abbrev there : List ExistingKey
there = tuple ("m", "P", 900_000_000) ∷ []

abbrev there_keys : List BucketKey
there_keys = ("m", "P", 900_000_000) ∷ []

there-read : normalize_all there ≡ ok there_keys
unfolding normalize_all
there-read = refl

quarter-points : All HasPoints quarter_buckets
unfolding generate_expected_buckets
quarter-points = (omega arith, (omega arith, (omega arith, tt)))

materialize-gaps_example :
    (rows : List MissingBucketRow) × (materialize_missing_buckets quarter_buckets there ≡ ok rows)
    × ((k : BucketKey)
        → key_in k (row_keys rows)
          ≡ (key_in k (map expected_bucket_key quarter_buckets) && not (key_in k there_keys)))
    × (materialize_missing_buckets quarter_buckets (there ++ as_existing rows) ≡ ok [])
materialize-gaps_example =
    materialize-gaps quarter_buckets there there_keys quarter-points there-read

materialize-coverage_example :
    (rows : List MissingBucketRow) × (materialize_missing_buckets quarter_buckets there ≡ ok rows)
    × ((t : ℕ)
        → (key_in ("m", "P", t) (row_keys rows) ≡ true) ↔ (
            (1_000_000 ≤ t)
            × (t < 2_700_000_001)
            × (t % step_of quarter ≡ 0)
            × (key_in ("m", "P", t) there_keys ≡ false)))
materialize-coverage_example =
    materialize-coverage quarter quarter_buckets 1_000_000 2_700_000_001 refl refl quarter-eq
      quarter-periodic there there_keys there-read
