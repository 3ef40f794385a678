-- ===== src/Live/Rollup.antt =====
-- src/cms/data/live_workers.py: the rows that the workers build from the minutes of a bucket.
use skn25_final_4team.Prelude.{
  ℕ, ◌-◌, String, Bool, true, false, ◌&&◌, Option, none, some, List, [], ◌∷◌, map, ltb, leb, ◌==◌,
  str_eq, length, if◌then◌else◌, value_error, Result, ok, raises, require, ◌>>=◌, ◌>>◌, ◌||◌,
}
use skn25_final_4team.Live.{
  Resolution, res_15min, SourceMode, live_observed, same_mode, live_measurement_1min,
  live_measurement_15min, live_measurement_1h, mart_peak_feature_15min, floor_to_resolution,
  require_live_observed_source,
}
use skn25_final_4team.Live.Coverage.{
  WorkerFloats, ExpectedPointsPolicy, derive_expected_points, live_mean_rollup_output_contract,
  live_rollup_value_semantic, Coverage, missing_points, compute_coverage, count_observed_points,
}

module _ (W : WorkerFloats) where
  pub record MeanRollupRecord : Type 0 where
    pub table : String
    pub bucket_ts : ℕ
    pub resolution : Resolution
    pub meter_urn : String
    pub measurement : String
    pub value : Option W.Float
    pub expected_points : ℕ
    pub observed_points : ℕ
    pub gap_points : ℕ
    pub coverage_ratio : W.Float
    pub native_cadence_seconds : ℕ
    pub source_layer : String
    pub source_mode : SourceMode
    pub aggregation_policy : String
    pub source_event_ids : List String
    pub quality_code : String

  -- The Mapping that a peak feature carries, with the two entries that are checked.
  pub record Provenance : Type 0 where
    pub source_layer : String
    pub source_mode : SourceMode
    pub source_event_ids : List String
    pub expected_points_policy : String

  pub record PeakFeatureRecord : Type 0 where
    pub table : String
    pub bucket_ts : ℕ
    pub meter_urn : String
    pub measurement : String
    pub peak_value : Option W.Float
    pub peak_ts : Option ℕ
    pub max_value : Option W.Float
    pub min_value : Option W.Float
    pub mean_value : Option W.Float
    pub std_value : Option W.Float
    pub expected_points : ℕ
    pub observed_points : ℕ
    pub missing_points : ℕ
    pub coverage_ratio : W.Float
    pub valid_peak_window : Bool
    pub source_event_ids : List String
    pub source_layer : String
    pub source_mode : SourceMode
    pub provenance : Provenance

  -- [float(value) for value in values if it is observed]
  unfoldable pub observed_floats : List (Option W.Float) → List W.Float
  observed_floats [] = []
  observed_floats (none ∷ rest) = observed_floats rest
  observed_floats (some v ∷ rest) =
      let later = observed_floats rest in if W.is_nan v then later else v ∷ later

  abbrev mean_or_none : List W.Float → Option W.Float
  mean_or_none [] = none
  mean_or_none (v ∷ rest) = some (W.mean (v ∷ rest))

  abbrev mean_quality : List W.Float → String
  mean_quality [] = "null_observation"
  mean_quality (v ∷ rest) = "observed_mean"

  -- (timestamp, value, event id) with a value
  abbrev pub Observation : Type 0
  Observation = ℕ × W.Float × String

  unfoldable pub observed_rows : List (ℕ × Option W.Float × String) → List Observation
  observed_rows [] = []
  observed_rows ((ts, none, id) ∷ rest) = observed_rows rest
  observed_rows ((ts, some v, id) ∷ rest) =
      let later = observed_rows rest in if W.is_nan v then later else (ts, v, id) ∷ later

  -- max(items, key=value): the first of the greatest.
  unfoldable pub max_by {ℓ} : {A : Type ℓ} → (A → W.Float) → A → List A → A
  max_by value best [] = best
  max_by value best (a ∷ rest) =
      let kept = max_by value best rest in
      let changed = max_by value a rest in if W.less (value best) (value a) then changed else kept

  unfoldable pub min_of : W.Float → List W.Float → W.Float
  min_of least [] = least
  min_of least (a ∷ rest) =
      let kept = min_of least rest in
      let changed = min_of a rest in if W.less a least then changed else kept

  module _ (fold : String → String) where
    -- MeanRollupRecord.__post_init__
    unfoldable pub mean_record : MeanRollupRecord → Result MeanRollupRecord
    unfolding live_mean_rollup_output_contract require_live_observed_source
    mean_record r = do
      contract ← live_mean_rollup_output_contract r.resolution
      require (str_eq r.table live_measurement_15min || str_eq r.table live_measurement_1h)
          (value_error "mean rollup must target live rollup table")
      require (str_eq r.aggregation_policy live_rollup_value_semantic)
          (value_error "mean rollup value must be mean_observed_only")
      source ← require_live_observed_source fold r.source_layer (some r.source_mode)
      require (ltb 0 r.expected_points) (value_error "expected_points must be positive")
      require (leb r.observed_points r.expected_points)
          (value_error "observed_points must be within expected_points")
      require (r.gap_points == r.expected_points - r.observed_points)
          (value_error "gap_points must equal missing native points")
      require (ltb 0 r.native_cadence_seconds)
          (value_error "native_cadence_seconds must be positive")
      ok r

    -- The row that is built, with its fields in the source's order.
    unfoldable pub mean_row :
        String
        → Coverage W
        → ℕ
        → Resolution
        → String
        → String
        → List (Option W.Float)
        → ExpectedPointsPolicy
        → List String
        → MeanRollupRecord
    unfolding observed_floats floor_to_resolution
    mean_row table coverage bucket_ts resolution meter_urn measurement values policy
          source_event_ids =
        record {
          table = table;
          bucket_ts = floor_to_resolution bucket_ts resolution;
          resolution = resolution;
          meter_urn = meter_urn;
          measurement = measurement;
          value = mean_or_none (observed_floats values);
          expected_points = coverage.expected_points;
          observed_points = coverage.observed_points;
          gap_points = missing_points W coverage;
          coverage_ratio = coverage.coverage_ratio;
          native_cadence_seconds = policy.native_cadence_seconds;
          source_layer = live_measurement_1min;
          source_mode = live_observed;
          aggregation_policy = live_rollup_value_semantic;
          source_event_ids = source_event_ids;
          quality_code = mean_quality (observed_floats values);
        }

    unfoldable pub build_mean_rollup :
        ℕ
        → Resolution
        → String
        → String
        → List (Option W.Float)
        → ExpectedPointsPolicy
        → List String
        → Result MeanRollupRecord
    unfolding live_mean_rollup_output_contract derive_expected_points count_observed_points mean_row
        compute_coverage observed_floats floor_to_resolution mean_record
    build_mean_rollup bucket_ts resolution meter_urn measurement values policy source_event_ids = do
      contract ← live_mean_rollup_output_contract resolution
      expected ← derive_expected_points policy resolution
      coverage ← compute_coverage W (count_observed_points W values) expected
      mean_record (
          mean_row contract.table coverage bucket_ts resolution meter_urn measurement values policy
            source_event_ids)

    -- PeakFeatureRecord.__post_init__; the builder's provenance is never empty.
    unfoldable pub peak_record : PeakFeatureRecord → Result PeakFeatureRecord
    unfolding require_live_observed_source
    peak_record r = do
      require (str_eq r.table mart_peak_feature_15min)
          (value_error "peak feature records must stay in mart.peak_feature_15min")
      source ← require_live_observed_source fold r.source_layer (some r.source_mode)
      require (ltb 0 r.expected_points)
          (value_error "peak feature expected_points must be positive")
      require (leb r.observed_points r.expected_points)
          (value_error "peak feature observed_points must be within expected_points")
      require (r.missing_points == r.expected_points - r.observed_points)
          (value_error "peak feature missing_points must equal expected_points - observed_points")
      require
          (str_eq r.provenance.source_layer r.source_layer
            && same_mode r.provenance.source_mode r.source_mode)
          (value_error "peak feature provenance must carry matching source_layer and source_mode")
      ok r

    abbrev peak_provenance : Bool → List Observation → Provenance
    peak_provenance native observed = record {
      source_layer = live_measurement_1min;
      source_mode = live_observed;
      source_event_ids = map (λ o. o.2) observed;
      expected_points_policy = if native then "native_cadence" else "explicit_legacy";
    }

    -- The expected points of a peak feature, and whether a policy gives them.
    unfoldable pub peak_expected : Option ExpectedPointsPolicy → Option ℕ → Result (ℕ × Bool)
    unfolding derive_expected_points
    peak_expected (some policy) points = do
      expected ← derive_expected_points policy res_15min
      ok (expected, true)
    peak_expected none (some points) = ok (points, false)
    peak_expected none none = raises (value_error "expected_policy or expected_points is required")

    -- The row without statistics, and the row of one observation and the rest.
    unfoldable pub peak_row :
        Coverage W → ℕ → String → String → W.Float → Bool → List Observation → PeakFeatureRecord
    unfolding floor_to_resolution max_by min_of
    peak_row coverage bucket_ts meter_urn measurement min_coverage native [] = record {
      table = mart_peak_feature_15min;
      bucket_ts = floor_to_resolution bucket_ts res_15min;
      meter_urn = meter_urn;
      measurement = measurement;
      peak_value = none;
      peak_ts = none;
      max_value = none;
      min_value = none;
      mean_value = none;
      std_value = none;
      expected_points = coverage.expected_points;
      observed_points = 0;
      missing_points = missing_points W coverage;
      coverage_ratio = coverage.coverage_ratio;
      valid_peak_window = false;
      source_event_ids = [];
      source_layer = live_measurement_1min;
      source_mode = live_observed;
      provenance = peak_provenance native [];
    }
    peak_row coverage bucket_ts meter_urn measurement min_coverage native (o ∷ rest) =
        let peak = max_by (λ p. p.1) o rest in
        let values = o.1 ∷ map (λ p. p.1) rest in
        record {
          table = mart_peak_feature_15min;
          bucket_ts = floor_to_resolution bucket_ts res_15min;
          meter_urn = meter_urn;
          measurement = measurement;
          peak_value = some peak.1;
          peak_ts = some peak.0;
          max_value = some (max_by (λ v. v) o.1 (map (λ p. p.1) rest));
          min_value = some (min_of o.1 (map (λ p. p.1) rest));
          mean_value = some (W.mean values);
          std_value = some (W.deviation values);
          expected_points = coverage.expected_points;
          observed_points = length (o ∷ rest);
          missing_points = missing_points W coverage;
          coverage_ratio = coverage.coverage_ratio;
          valid_peak_window = W.at_most min_coverage coverage.coverage_ratio;
          source_event_ids = map (λ p. p.2) (o ∷ rest);
          source_layer = live_measurement_1min;
          source_mode = live_observed;
          provenance = peak_provenance native (o ∷ rest);
        }

    unfoldable pub build_peak_feature :
        ℕ
        → String
        → String
        → List (ℕ × Option W.Float × String)
        → Option ℕ
        → Option ExpectedPointsPolicy
        → W.Float
        → Result PeakFeatureRecord
    unfolding peak_expected observed_rows compute_coverage peak_row peak_record
    build_peak_feature bucket_ts meter_urn measurement observations points policy min_coverage = do
      expected ← peak_expected policy points
      coverage ← compute_coverage W (length (observed_rows observations)) expected.0
      peak_record (
          peak_row coverage bucket_ts meter_urn measurement min_coverage expected.1
            (observed_rows observations))
