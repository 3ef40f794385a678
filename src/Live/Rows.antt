-- ===== src/Live/Rows.antt =====
-- What the rows of the workers say of the minutes that they were built from.
use skn25_final_4team.Prelude.{
  ℕ, ◌+◌, ◌-◌, ◌≤◌, ◌<◌, ◌≡◌, refl, sym, ◌∙◌, ap, String, true, inl, inr, Option, some, List, ltb,
  leb, ◌==◌, ok, is_ok, lt→ltb, >>=-eq-ok, ok-injective, ◌||◌, require-ok, Bool-cases, arith,
  str_eq,
}
use skn25_final_4team.Live.{
  Resolution, res_1min, res_15min, res_1h, live_measurement_1min, live_measurement_15min,
  live_measurement_1h, live_observed, require_live_observed_source, is_live_observed_source,
  classify_source_mode, classified,
}
use skn25_final_4team.Live.Coverage.{
  WorkerFloats, Coverage, ExpectedPointsPolicy, derive_expected_points, explicit_expected_points,
  cadence_points, live_mean_rollup_output_contract, compute_coverage, live_rollup_value_semantic,
  count_observed_points, output_contract,
}
use skn25_final_4team.Live.Rollup.{MeanRollupRecord, mean_row, mean_record, build_mean_rollup}

module _ (W : WorkerFloats) (fold : String → String) where
  -- The counts of a row agree with each other.
  abbrev pub IsCounted : MeanRollupRecord W → Type 0
  IsCounted r =
      (r.observed_points ≤ r.expected_points)
      × (r.observed_points + r.gap_points ≡ r.expected_points)
      × (0 < r.expected_points)
      × (0 < r.native_cadence_seconds)

  mean_record-IsCounted :
      (r s : MeanRollupRecord W) → mean_record W fold r ≡ ok s → (s ≡ r) × IsCounted r
  unfolding mean_record
  mean_record-IsCounted r s h =
      let (contract, h0, h1) = >>=-eq-ok (live_mean_rollup_output_contract r.resolution) _ h in
      let (t2, h2) =
        require-ok (str_eq r.table live_measurement_15min || str_eq r.table live_measurement_1h) _ _
          h1 in
      let (t3, h3) = require-ok (str_eq r.aggregation_policy live_rollup_value_semantic) _ _ h2 in
      let (source, h4, h5) =
        >>=-eq-ok (require_live_observed_source fold r.source_layer (some r.source_mode)) _ h3 in
      let (some_points, h6) = require-ok (ltb 0 r.expected_points) _ _ h5 in
      let (within, h7) = require-ok (leb r.observed_points r.expected_points) _ _ h6 in
      let (gap, h8) = require-ok (r.gap_points == r.expected_points - r.observed_points) _ _ h7 in
      let (cadence, h9) = require-ok (ltb 0 r.native_cadence_seconds) _ _ h8 in
      let same : r ≡ s = ok-injective h9 in
      (sym same, (ground arith, ground arith, ground arith, ground arith))

  compute_coverage-counts :
      (observed expected : ℕ) (c : Coverage W)
      → compute_coverage W observed expected ≡ ok c
      → (c.observed_points ≡ observed) × (c.expected_points ≡ expected)
  unfolding compute_coverage
  compute_coverage-counts observed expected c h =
      let (positive, same) = require-ok (ltb 0 expected) _ _ h in
      let back = sym (ok-injective same) in rw back (refl, refl)

  -- The rollup that the worker builds has the expected points of its policy, the observed points of
  -- its values, and the gap between the two, which is never below zero.
  pub build_mean_rollup-IsCounted :
      (bucket_ts : ℕ) (resolution : Resolution) (meter_urn measurement : String)
      (values : List (Option W.Float)) (policy : ExpectedPointsPolicy) (ids : List String)
      (r : MeanRollupRecord W)
      → build_mean_rollup W fold bucket_ts resolution meter_urn measurement values policy ids ≡ ok r
      → IsCounted r
        × (r.observed_points ≡ count_observed_points W values)
        × (derive_expected_points policy resolution ≡ ok r.expected_points)
  unfolding derive_expected_points explicit_expected_points build_mean_rollup mean_row
  build_mean_rollup-IsCounted bucket_ts resolution meter_urn measurement values policy ids r h =
      let (contract, h0, h1) = >>=-eq-ok (live_mean_rollup_output_contract resolution) _ h in
      let (expected, h2, h3) = >>=-eq-ok (derive_expected_points policy resolution) _ h1 in
      let (coverage, h4, h5) =
        >>=-eq-ok (compute_coverage W (count_observed_points W values) expected) _ h3 in
      let (same, counted) =
        mean_record-IsCounted
          (mean_row W fold contract.table coverage bucket_ts resolution meter_urn measurement values
            policy ids)
          r h5 in
      let (seen, wanted) =
        compute_coverage-counts (count_observed_points W values) expected coverage h4 in
      rw same (counted, seen, h2 ∙ ap ok (sym wanted))

  derive_expected_points-positive :
      (policy : ExpectedPointsPolicy) (resolution : Resolution) (n : ℕ)
      → derive_expected_points policy resolution ≡ ok n
      → 0 < n
  unfolding derive_expected_points explicit_expected_points cadence_points
  derive_expected_points-positive policy res_1min n h = cc
  derive_expected_points-positive policy res_15min n h = ground arith
  derive_expected_points-positive policy res_1h n h = ground arith

  same_count : (n : ℕ) → (n == n) ≡ true
  same_count n = ground arith

  classified_minutes :
      fold live_measurement_1min ≡ live_measurement_1min
      → classify_source_mode fold live_measurement_1min ≡ ok live_observed
  unfolding classify_source_mode classified
  classified_minutes h = ap (λ t. classified t live_measurement_1min) h

  live_minutes :
      classify_source_mode fold live_measurement_1min ≡ ok live_observed
      → is_live_observed_source fold live_measurement_1min (some live_observed) ≡ true
  unfolding is_live_observed_source
  live_minutes h = rw (h, is_live_observed_source) refl

  minutes_are_observed :
      fold live_measurement_1min ≡ live_measurement_1min
      → require_live_observed_source fold live_measurement_1min (some live_observed) ≡ ok tt
  unfolding require_live_observed_source
  minutes_are_observed h =
      rw (live_minutes (classified_minutes h), require_live_observed_source) refl

  -- A rollup of a bucket of 15 minutes or an hour is built exactly if the values that were observed
  -- are no more than the points that the policy expects; the policy has a positive cadence, and
  -- `fold` leaves the name of the minutes' table as it is.
  pub build_mean_rollup-is_ok :
      (bucket_ts : ℕ) (resolution : Resolution) (meter_urn measurement : String)
      (values : List (Option W.Float)) (policy : ExpectedPointsPolicy) (ids : List String) (n : ℕ)
      → derive_expected_points policy resolution ≡ ok n
      → 0 < policy.native_cadence_seconds
      → fold live_measurement_1min ≡ live_measurement_1min
      → is_ok
          (build_mean_rollup W fold bucket_ts resolution meter_urn measurement values policy ids)
        ≡ leb (count_observed_points W values) n
  unfolding derive_expected_points explicit_expected_points build_mean_rollup mean_row mean_record
      compute_coverage live_mean_rollup_output_contract output_contract
  build_mean_rollup-is_ok bucket_ts res_1min meter_urn measurement values policy ids n derived
        cadence folds =
      cc
  build_mean_rollup-is_ok bucket_ts res_15min meter_urn measurement values policy ids n derived
        cadence folds =
      let positive = lt→ltb 0 n (derive_expected_points-positive policy res_15min n derived) in
      let source = minutes_are_observed folds in
      elim (Bool-cases (leb (count_observed_points W values) n)) [
        | inl within ↦
            let cadence_ok = lt→ltb 0 policy.native_cadence_seconds cadence in
            rw (derived, positive, source, positive, within, same_count, cadence_ok) refl
        | inr over ↦ rw (derived, positive, source, positive, over) refl
      ]
  build_mean_rollup-is_ok bucket_ts res_1h meter_urn measurement values policy ids n derived cadence
        folds =
      let positive = lt→ltb 0 n (derive_expected_points-positive policy res_1h n derived) in
      let source = minutes_are_observed folds in
      elim (Bool-cases (leb (count_observed_points W values) n)) [
        | inl within ↦
            let cadence_ok = lt→ltb 0 policy.native_cadence_seconds cadence in
            rw (derived, positive, source, positive, within, same_count, cadence_ok) refl
        | inr over ↦ rw (derived, positive, source, positive, over) refl
      ]
