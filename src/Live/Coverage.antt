-- ===== src/Live/Coverage.antt =====
-- src/cms/contracts/live_pipeline.py: the expected points of a bucket and its coverage.
use skn25_final_4team.Prelude.{
  ℕ, ◌-◌, ◌/◌, String, Bool, true, false, ◌||◌, Option, none, some, List, [], ◌∷◌, max, ltb, leb,
  str_eq, length, keep, not, value_error, Result, ok, raises, require, ◌>>=◌, ◌>>◌,
}
use skn25_final_4team.Live.{
  Resolution, res_1min, res_15min, res_1h, live_measurement_15min, live_measurement_1h,
}

-- What the workers use of Python's float: `is_nan` is math.isnan, `ratio` divides an int by an
-- int, `mean` is sum(values) / len(values) and `deviation` the square root of the mean square
-- distance from it; `clamp` is max(0.0, min(1.0, x)), `less` is < and `at_most` is <=.
pub record WorkerFloats : Type 1 where
  pub Float : Type 0
  pub is_nan : Float → Bool
  pub ratio : ℕ → ℕ → Float
  pub clamp : Float → Float
  pub of_nat : ℕ → Float
  pub less : Float → Float → Bool
  pub at_most : Float → Float → Bool
  pub mean : List Float → Float
  pub deviation : List Float → Float

pub record ExpectedPointsPolicy : Type 0 where
  pub native_cadence_seconds : ℕ
  pub expected_points_15min : Option ℕ
  pub expected_points_1h : Option ℕ
  pub sub_minute_policy_approved : Bool

unfoldable pub explicit_expected_points : ExpectedPointsPolicy → Resolution → Result (Option ℕ)
explicit_expected_points p res_15min = ok p.expected_points_15min
explicit_expected_points p res_1h = ok p.expected_points_1h
explicit_expected_points p res_1min =
    raises (value_error "expected-points policy is unsupported for resolution: 1min")

-- The source's table has the two rollup resolutions only; 1min is refused before it is read.
abbrev pub bucket_seconds : Resolution → ℕ
bucket_seconds res_1min = 60
bucket_seconds res_15min = 900
bucket_seconds res_1h = 3600

-- The points that the cadence gives where the policy names none.
unfoldable pub cadence_points : ExpectedPointsPolicy → Resolution → Result ℕ
cadence_points p resolution = do
  require (ltb 0 p.native_cadence_seconds) (value_error "native cadence seconds must be positive")
  require (leb 60 p.native_cadence_seconds || p.sub_minute_policy_approved)
      (value_error "sub-minute cadence requires explicit expected points or approved policy")
  ok (max 1 (bucket_seconds resolution / p.native_cadence_seconds))

unfoldable pub derive_expected_points : ExpectedPointsPolicy → Resolution → Result ℕ
unfolding explicit_expected_points cadence_points
derive_expected_points p resolution = do
  explicit ← explicit_expected_points p resolution
  elim explicit [
    | some points ↦ do
      require (ltb 0 points) (value_error "explicit expected points must be positive")
      ok points
    | none ↦ cadence_points p resolution
  ]

pub record LiveRollupOutputContract : Type 0 where
  pub table : String
  pub resolution : Resolution
  pub value_semantic : String
  pub peak_fields : List String

abbrev rollup_table : Resolution → Result String
rollup_table res_15min = ok live_measurement_15min
rollup_table res_1h = ok live_measurement_1h
rollup_table res_1min =
    raises (value_error "live rollup output is unsupported for resolution: 1min")

abbrev pub live_rollup_value_semantic : String
live_rollup_value_semantic = "mean_observed_only"

abbrev no_fields : List String → Bool
no_fields [] = true
no_fields (f ∷ rest) = false

-- __post_init__
unfoldable pub output_contract : LiveRollupOutputContract → Result LiveRollupOutputContract
output_contract c = do
  expected ← rollup_table c.resolution
  require (str_eq c.table expected) (value_error "live rollup output table mismatch")
  require (str_eq c.value_semantic live_rollup_value_semantic)
      (value_error "unsupported live rollup value semantic")
  require (no_fields c.peak_fields)
      (value_error "live mean rollup outputs must not expose peak fields")
  ok c

unfoldable pub live_mean_rollup_output_contract : Resolution → Result LiveRollupOutputContract
unfolding output_contract
live_mean_rollup_output_contract resolution = do
  table ← rollup_table resolution
  output_contract (record {
    table = table;
    resolution = resolution;
    value_semantic = live_rollup_value_semantic;
    peak_fields = [];
  })

module _ (W : WorkerFloats) where
  pub record Coverage : Type 0 where
    pub observed_points : ℕ
    pub expected_points : ℕ
    pub coverage_ratio : W.Float

  -- Coverage.missing_points; the subtraction of naturals stops at 0.
  abbrev pub missing_points : Coverage → ℕ
  missing_points c = c.expected_points - c.observed_points

  unfoldable pub compute_coverage : ℕ → ℕ → Result Coverage
  compute_coverage observed expected = do
    require (ltb 0 expected) (value_error "expected_points must be positive")
    ok (record {
      observed_points = observed;
      expected_points = expected;
      coverage_ratio = W.clamp (W.ratio observed expected);
    })

  abbrev pub is_observed_value : Option W.Float → Bool
  is_observed_value none = false
  is_observed_value (some value) = not (W.is_nan value)

  unfoldable pub count_observed_points : List (Option W.Float) → ℕ
  count_observed_points values = length (keep is_observed_value values)
