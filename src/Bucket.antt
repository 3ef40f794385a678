-- ===== src/Bucket.antt =====
-- src/cms/data/expected_bucket.py: which buckets a series should have in an interval.
-- An aware datetime is the number of microseconds since 1970-01-01T00:00Z; a naive one carries no
-- instant that the code uses. Seconds are natural numbers, so `value <= 0` is `value == 0`.
-- It is in UTC, and a sum past the year 9999 raises.
-- A cadence name is a constructor for each text that the file writes, and `other` for a caller's.
-- The proofs are in the modules below.
pub mod Grid
pub mod Generate
pub mod Missing
mod Tests
use skn25_final_4team.Prelude.{
  ℕ, zero, suc, ◌+◌, ◌-◌, ◌*◌, ◌/◌, ◌%◌, String, Bool, true, false, not, ◌&&◌, Option, none, some,
  List, [], ◌∷◌, ltb, leb, ◌==◌, if◌then◌else◌, str_eq, Exc, value_error, overflow_error, Result,
  ok, raises, require, ◌>>=◌, ◌>>◌,
}

pub data DateTime : Type 0 where
  naive : DateTime
  aware : ℕ → DateTime

pub data CadenceClass : Type 0 where
  native_1min native_subminute native_5min : CadenceClass
  sparse_event state_hold_last state_hold structural_not_expected : CadenceClass
  native_seconds : ℕ → CadenceClass
  other : String → CadenceClass

pub record ExpectedBucket : Type 0 where
  pub meter_urn : String
  pub measurement : String
  pub bucket_ts : ℕ
  pub expected_points : ℕ
  pub cadence_class : CadenceClass

-- The keyword arguments of `generate_expected_buckets`; `timezone_policy` is never read.
pub record BucketRequest : Type 0 where
  pub meter_urn : String
  pub measurement : String
  pub start_ts : DateTime
  pub end_ts : DateTime
  pub source_native_interval_seconds : ℕ
  pub target_grain_seconds : ℕ
  pub cadence_class : Option CadenceClass

abbrev pub is_structural : CadenceClass → Bool
is_structural sparse_event = true
is_structural state_hold_last = true
is_structural state_hold = true
is_structural structural_not_expected = true
is_structural _ = false

abbrev pub is_native_5min : CadenceClass → Bool
is_native_5min native_5min = true
is_native_5min _ = false

unfoldable pub validate_positive_seconds : ℕ → String → Result (Unit {0})
validate_positive_seconds value name = require (ltb 0 value) (value_error name)

-- The instant of a datetime that passes the check.
unfoldable pub validate_aware_datetime : DateTime → String → Result ℕ
validate_aware_datetime naive name = raises (value_error name)
validate_aware_datetime (aware micros) name = ok micros

unfoldable pub validate_aware_interval : DateTime → DateTime → Result (ℕ × ℕ)
unfolding validate_aware_datetime
validate_aware_interval start_ts end_ts = do
  start ← validate_aware_datetime start_ts "start_ts"
  stop ← validate_aware_datetime end_ts "end_ts"
  require (ltb start stop) (value_error "end_ts must be after start_ts")
  ok (start, stop)

unfoldable pub validate_series_identity : String → String → Result (Unit {0})
validate_series_identity meter_urn measurement = do
  require (not (str_eq meter_urn "")) (value_error "meter_urn must be non-empty")
  require (not (str_eq measurement "")) (value_error "measurement must be non-empty")

unfoldable pub infer_cadence_class : ℕ → Result CadenceClass
unfolding validate_positive_seconds
infer_cadence_class seconds = do
  validate_positive_seconds seconds "source_native_interval_seconds"
  if ltb seconds 60
      then ok native_subminute
      else if seconds == 60
      then ok native_1min
      else if seconds == 300
      then ok native_5min
      else ok (native_seconds seconds)

-- not cadence_class
abbrev pub is_empty_name : CadenceClass → Bool
is_empty_name (other s) = str_eq s ""
is_empty_name _ = false

-- cadence_class or infer_cadence_class(source_native_interval_seconds)
unfoldable pub resolve_cadence : Option CadenceClass → ℕ → Result CadenceClass
unfolding infer_cadence_class
resolve_cadence (some c) seconds =
    let inferred = infer_cadence_class seconds in if is_empty_name c then inferred else ok c
resolve_cadence none seconds = infer_cadence_class seconds

unfoldable pub expected_points_for_bucket : ℕ → ℕ → Option CadenceClass → Result ℕ
unfolding validate_positive_seconds resolve_cadence
expected_points_for_bucket source target cadence = do
  validate_positive_seconds source "source_native_interval_seconds"
  validate_positive_seconds target "target_grain_seconds"
  resolved ← resolve_cadence cadence source
  require (not (is_structural resolved)) (value_error "structural cadence has no expected_points")
  require (leb source target) (value_error "target_grain_seconds must be >= source")
  require (target % source == 0) (value_error "target_grain_seconds must be divisible")
  ok (target / source)

abbrev pub micros_per_second : ℕ
micros_per_second = 1_000_000

-- datetime.max, and a sum with a timedelta that must not pass it
abbrev pub max_datetime : ℕ
max_datetime = 253_402_300_799_999_999

abbrev pub in_range : ℕ → Result ℕ
in_range ts =
    if leb ts max_datetime then ok ts else raises (overflow_error "date value out of range")

-- The aligned instant at or after `ts`, once the checks have passed.
unfoldable pub next_boundary : ℕ → ℕ → ℕ
next_boundary ts grain =
    let remainder = ts % grain in if remainder == 0 then ts else ts + (grain - remainder)

unfoldable pub align_start_to_grain : DateTime → ℕ → Result ℕ
unfolding validate_aware_datetime validate_positive_seconds next_boundary
align_start_to_grain ts target = do
  instant ← validate_aware_datetime ts "ts"
  validate_positive_seconds target "target_grain_seconds"
  in_range (next_boundary instant (target * micros_per_second))

-- while bucket_ts < end_ts: append a bucket; bucket_ts += step
unfoldable pub bucket_loop : ℕ → (ℕ → ExpectedBucket) → ℕ → ℕ → ℕ → Result (List ExpectedBucket)
bucket_loop zero make ts stop step = ok []
bucket_loop (suc fuel) make ts stop step =
    let rest = bucket_loop fuel make (ts + step) stop step in
    let appended = (do next ← in_range (ts + step); buckets ← rest; ok (make ts ∷ buckets)) in
    if ltb ts stop then appended else ok []

unfoldable pub generate_expected_buckets : BucketRequest → Result (List ExpectedBucket)
unfolding validate_series_identity validate_aware_interval validate_positive_seconds resolve_cadence
    expected_points_for_bucket align_start_to_grain bucket_loop
generate_expected_buckets r = do
  validate_series_identity r.meter_urn r.measurement
  interval ← validate_aware_interval r.start_ts r.end_ts
  validate_positive_seconds r.source_native_interval_seconds "source_native_interval_seconds"
  validate_positive_seconds r.target_grain_seconds "target_grain_seconds"
  resolved ← resolve_cadence r.cadence_class r.source_native_interval_seconds
  if is_structural resolved
      then ok []
      else if is_native_5min resolved && ltb r.target_grain_seconds r.source_native_interval_seconds
      then ok []
      else do
        points ←
            expected_points_for_bucket r.source_native_interval_seconds r.target_grain_seconds
              (some resolved)
        first ← align_start_to_grain r.start_ts r.target_grain_seconds
        bucket_loop (suc ((interval.1 - first) / (r.target_grain_seconds * micros_per_second)))
            (λ ts. record {
              meter_urn = r.meter_urn;
              measurement = r.measurement;
              bucket_ts = ts;
              expected_points = points;
              cadence_class = resolved;
            })
            first interval.1 (r.target_grain_seconds * micros_per_second)

-- A bucket's identity: (meter_urn, measurement, bucket_ts).
abbrev pub BucketKey : Type 0
BucketKey = String × String × ℕ

unfoldable pub expected_bucket_key : ExpectedBucket → BucketKey
expected_bucket_key b = (b.meter_urn, b.measurement, b.bucket_ts)
