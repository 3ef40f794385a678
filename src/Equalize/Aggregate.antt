-- ===== src/Equalize/Aggregate.antt =====
-- src/cms/data/live_equalization_processor.py: the means over coarser grains and the whole run.
use skn25_final_4team.Prelude.{
  ℕ, ◌+◌, String, str_eq, Bool, ◌&&◌, ◌||◌, not, Option, none, some, List, [], ◌∷◌, ◌++◌, map, ltb,
  ◌==◌, if◌then◌else◌, value_error, Result, ok, require, ◌>>=◌, ◌>>◌, length, keep, all,
}
use skn25_final_4team.Equalize.{
  Floats, LiveHarmonizedEvent, EqualizedRow, Quality, gap, partial, observed, Counts, count_add,
  unique_non_null, bucket_start, series_key, sorted, key_less, str_less,
}
use skn25_final_4team.Equalize.Series.{Policies, equalize_with_cadence}

pub record AggregatedRow (F : Floats) : Type 0 where
  pub meter_urn : String
  pub measurement : String
  pub timestamp : ℕ
  pub value : F.Float
  pub grain_minutes : ℕ
  pub expected_points : ℕ
  pub observed_points : ℕ
  pub gap_points : ℕ
  pub coverage_ratio : F.Float
  pub quality_summary : Counts
  pub source_event_ids : List String
  pub mask_code : Option String
  pub source_native_interval_seconds : Option ℕ
  pub cadence_policy_id : Option String
  pub timestamp_policy_ids : List String
  pub source_timezones : List String
  pub source_ts_columns : List String
  pub source_ts_raw_samples : List String
  pub timestamp_quality_summary : Counts
  pub timestamp_origin_rules : List String

abbrev quality_text : Quality → String
quality_text gap = "gap"
quality_text partial = "partial"
quality_text observed = "observed"

-- (meter_urn, measurement, bucket_start)
abbrev pub BucketKey : Type 0
BucketKey = String × String × ℕ

abbrev pub bucket_key_eq : BucketKey → BucketKey → Bool
bucket_key_eq (a, m, i) (b, n, j) = str_eq a b && str_eq m n && i == j

abbrev bucket_key_less : BucketKey → BucketKey → Bool
bucket_key_less (a, m, i) (b, n, j) =
    str_less a b || str_eq a b && (str_less m n || str_eq m n && ltb i j)

-- next(iter(set)) of a set with one item
abbrev single {ℓ} : {A : Type ℓ} → (A → A → Bool) → List A → Option A
single eq [] = none
single eq (a ∷ rest) = if all (eq a) rest then some a else none

-- sum(f(row) for row in rows)
unfoldable pub total {ℓ} : {A : Type ℓ} → (A → ℕ) → List A → ℕ
total f [] = 0
total f (a ∷ rest) = f a + total f rest

-- The values of all the rows, one after another.
abbrev gather {ℓ κ} : {A : Type ℓ} {B : Type κ} → (A → List B) → List A → List B
gather f [] = []
gather f (a ∷ rest) = f a ++ gather f rest

abbrev add_counts : Counts → Counts → Counts
add_counts counts [] = counts
add_counts counts ((code, n) ∷ rest) = add_counts (count_add code n counts) rest

module _ (F : Floats) where
  abbrev Row : Type 0
  Row = EqualizedRow F

  abbrev sum_from : F.Float → List Row → F.Float
  sum_from s [] = s
  sum_from s (r ∷ rs) = sum_from (F.plus s r.value) rs

  abbrev mean_of : List Row → F.Float
  mean_of [] = F.nan
  mean_of (r ∷ rs) = F.over (sum_from (F.of_nat 0) (r ∷ rs)) (length (r ∷ rs))

  abbrev quality_from : Counts → List Row → Counts
  quality_from counts [] = counts
  quality_from counts (r ∷ rs) = quality_from (count_add (quality_text r.quality) 1 counts) rs

  abbrev codes_from : Counts → List Row → Counts
  codes_from counts [] = counts
  codes_from counts (r ∷ rs) = codes_from (add_counts counts r.timestamp_quality_summary) rs

  abbrev unique_from_rows : (Row → List String) → List Row → List String
  unique_from_rows f rows = unique_non_null (map some (gather f rows))

  -- The row of one bucket.
  unfoldable pub aggregate_bucket : ℕ → BucketKey → List Row → AggregatedRow F
  unfolding total
  aggregate_bucket minutes (meter, measurement, start) rows =
      let expected = total (λ (r : Row). r.expected_points) rows in
      let points = total (λ (r : Row). r.observed_points) rows in
      let gaps = total (λ (r : Row). r.gap_points) rows in
      record {
        meter_urn = meter;
        measurement = measurement;
        timestamp = start;
        value = mean_of (keep (λ (r : Row). not (F.is_nan r.value)) rows);
        grain_minutes = minutes;
        expected_points = expected;
        observed_points = points;
        gap_points = gaps;
        coverage_ratio =
            if expected == 0 then F.of_nat 0 else F.least (F.ratio points expected) (F.of_nat 1);
        quality_summary = quality_from [] rows;
        source_event_ids = gather (λ (r : Row). r.source_event_ids) rows;
        mask_code = if gaps == 0 then none else some "gap";
        source_native_interval_seconds =
            single (λ a b. a == b) (map (λ (r : Row). r.source_native_interval_seconds) rows);
        cadence_policy_id = single str_eq (map (λ (r : Row). r.cadence_policy_id) rows);
        timestamp_policy_ids = unique_from_rows (λ (r : Row). r.timestamp_policy_ids) rows;
        source_timezones = unique_from_rows (λ (r : Row). r.source_timezones) rows;
        source_ts_columns = unique_from_rows (λ (r : Row). r.source_ts_columns) rows;
        source_ts_raw_samples = unique_from_rows (λ (r : Row). r.source_ts_raw_samples) rows;
        timestamp_quality_summary = codes_from [] rows;
        timestamp_origin_rules = unique_from_rows (λ (r : Row). r.timestamp_origin_rules) rows;
      }

  abbrev pub Buckets : Type 0
  Buckets = List (BucketKey × List Row)

  -- buckets[key].append(row)
  unfoldable pub bucket_add : BucketKey → Row → Buckets → Buckets
  bucket_add key r [] = (key, r ∷ []) ∷ []
  bucket_add key r ((k, rs) ∷ rest) =
      let later = bucket_add key r rest in
      if bucket_key_eq k key then (k, rs ++ r ∷ []) ∷ rest else (k, rs) ∷ later

  unfoldable pub bucket_all : ℕ → Buckets → List Row → Buckets
  unfolding bucket_start bucket_add
  bucket_all minutes buckets [] = buckets
  bucket_all minutes buckets (r ∷ rs) =
      bucket_all minutes
        (bucket_add (r.meter_urn, r.measurement, bucket_start r.timestamp minutes) r buckets) rs

  abbrev pub bucket_less : BucketKey × List Row → BucketKey × List Row → Bool
  bucket_less a b = bucket_key_less a.0 b.0

  unfoldable pub aggregate_each : ℕ → Buckets → List (AggregatedRow F)
  unfolding aggregate_bucket
  aggregate_each minutes [] = []
  aggregate_each minutes ((k, rs) ∷ rest) =
      aggregate_bucket minutes k rs ∷ aggregate_each minutes rest

  unfoldable pub aggregate_observed_rows : List Row → ℕ → Result (List (AggregatedRow F))
  unfolding bucket_all aggregate_each sorted
  aggregate_observed_rows rows minutes = do
    require (ltb 0 minutes) (value_error "minutes must be positive")
    ok (aggregate_each minutes (sorted bucket_less (bucket_all minutes [] rows)))

  abbrev pub downsample_mean_non_cumulative : List Row → ℕ → Result (List (AggregatedRow F))
  downsample_mean_non_cumulative rows minutes = aggregate_observed_rows rows minutes

  abbrev aggregated_key : AggregatedRow F → String × ℕ × ℕ
  aggregated_key r = (series_key r.meter_urn r.measurement, r.grain_minutes, r.timestamp)

  abbrev pub sort_aggregated : List (AggregatedRow F) → List (AggregatedRow F)
  sort_aggregated rows = sorted (λ a b. key_less (aggregated_key a) (aggregated_key b)) rows

  pub record LiveEqualizationResult : Type 0 where
    pub rows_1min : List Row
    pub rows_5min : List (AggregatedRow F)
    pub rows_15min : List (AggregatedRow F)
    pub rows_1h : List (AggregatedRow F)

  abbrev pub of_grain : ℕ → List Row → List Row
  of_grain minutes rows = keep (λ (r : Row). r.grain_minutes == minutes) rows

  unfoldable pub process_live_equalization :
      List (LiveHarmonizedEvent F) → ℕ → ℕ → Option Policies → Result LiveEqualizationResult
  unfolding equalize_with_cadence aggregate_observed_rows sorted
  process_live_equalization events start stop policies = do
    rows ← equalize_with_cadence F events start stop policies
    five ← downsample_mean_non_cumulative (of_grain 1 rows) 5
    quarter ← downsample_mean_non_cumulative (of_grain 1 rows) 15
    quarter_direct ← aggregate_observed_rows (of_grain 15 rows) 15
    hour ← downsample_mean_non_cumulative (of_grain 1 rows) 60
    hour_quarter ← aggregate_observed_rows (of_grain 15 rows) 60
    hour_direct ← aggregate_observed_rows (of_grain 60 rows) 60
    ok (record {
      rows_1min = of_grain 1 rows;
      rows_5min = five;
      rows_15min = sort_aggregated (quarter ++ quarter_direct);
      rows_1h = sort_aggregated (hour ++ hour_quarter ++ hour_direct);
    })
