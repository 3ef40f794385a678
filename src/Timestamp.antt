-- ===== src/Timestamp.antt =====
-- src/cms/contracts/timestamp_policy.py and src/cms/data/timestamp_normalizer.py: the timestamp of a
-- source row, read in the policy's zone and put on the boundary of its native interval.
-- An instant is the number of microseconds since the epoch, which no source precedes. The source
-- divides float seconds, exact for these instants up to the rounding of a double; the model
-- divides the integers. zoneinfo, fromisoformat and str.strip are the fields of `TimeLib`.
pub mod Registry
pub mod Lookup
pub mod Origin
mod Tests
use skn25_final_4team.Prelude.{
  ℕ, ◌+◌, ◌*◌, ◌/◌, ◌%◌, String, Bool, true, false, not, ◌&&◌, ◌||◌, Option, none, some, List, [],
  ◌∷◌, ltb, ◌==◌, str_eq, str_append, any, if◌then◌else◌, value_error, Result, ok, raises, require,
  ◌>>=◌, ◌>>◌,
}

-- A datetime of Python: without a zone it is a wall time, with one it is an instant.
pub data DateTime : Type 0 where
  naive : ℕ → DateTime
  aware : ℕ → DateTime

pub record TimeLib : Type 0 where
  -- ZoneInfo(name) is found
  pub has_zone : String → Bool
  -- the instant of a wall time in a zone
  pub to_utc : String → ℕ → ℕ
  -- text.strip()
  pub strip : String → String
  -- datetime.fromisoformat(text.replace("Z", "+00:00")), with none for a ValueError
  pub from_iso : String → Option DateTime

-- The value of a column.
pub data SourceValue : Type 0 where
  moment : DateTime → SourceValue
  text : String → SourceValue
  other : SourceValue

pub record TimestampPolicy : Type 0 where
  pub timestamp_policy_id : String
  pub meter_urn : String
  pub measurement : String
  pub timestamp_column : String
  pub source_timezone : String
  pub source_timestamp_type : String
  pub native_interval_seconds : ℕ
  pub target_grain_minutes : Option ℕ
  pub timestamp_origin_rule : String
  pub cadence_policy_id : String
  pub aggregation_policy : String

abbrev pub among : String → List String → Bool
among item table = any (str_eq item) table

abbrev pub source_timestamp_types : List String
source_timestamp_types = "utc_instant" ∷ "local_wall_time" ∷ []

abbrev pub timestamp_origin_rules : List String
timestamp_origin_rules = "exact_boundary" ∷ "floor_to_native_interval" ∷ "reject_off_boundary" ∷ []

abbrev pub required_texts : TimestampPolicy → List (String × String)
required_texts p =
    ("timestamp_policy_id", p.timestamp_policy_id)
    ∷ ("meter_urn", p.meter_urn)
    ∷ ("measurement", p.measurement)
    ∷ ("timestamp_column", p.timestamp_column)
    ∷ ("source_timezone", p.source_timezone)
    ∷ ("source_timestamp_type", p.source_timestamp_type)
    ∷ ("timestamp_origin_rule", p.timestamp_origin_rule)
    ∷ ("cadence_policy_id", p.cadence_policy_id)
    ∷ ("aggregation_policy", p.aggregation_policy)
    ∷ []

-- The loop over the fields: the first one that is empty raises.
unfoldable pub require_texts : List (String × String) → Result (Unit {0})
require_texts [] = ok tt
require_texts ((name, value) ∷ rest) = do
  require (not (str_eq value "")) (value_error (str_append name " must be a non-empty string"))
  require_texts rest

abbrev pub positive_or_none : Option ℕ → Bool
positive_or_none none = true
positive_or_none (some n) = ltb 0 n

-- __post_init__
unfoldable pub timestamp_policy : TimestampPolicy → Result TimestampPolicy
unfolding require_texts
timestamp_policy p = do
  require_texts (required_texts p)
  require (among p.source_timestamp_type source_timestamp_types)
      (value_error "source_timestamp_type must be one of the supported types")
  require (among p.timestamp_origin_rule timestamp_origin_rules)
      (value_error "timestamp_origin_rule must be one of the supported rules")
  require (ltb 0 p.native_interval_seconds)
      (value_error "native_interval_seconds must be a positive integer")
  require (positive_or_none p.target_grain_minutes)
      (value_error "target_grain_minutes must be a positive integer when provided")
  ok p

pub record NormalizedTimestamp : Type 0 where
  pub source_ts_raw : SourceValue
  pub source_ts_column : String
  pub event_ts_utc : ℕ
  pub source_timezone : String
  pub timestamp_policy_id : String
  pub timestamp_parse_status : String
  pub timestamp_origin_rule : String
  pub timestamp_quality_code : String

-- value.timestamp() // interval * interval
unfoldable pub floor_to_interval : ℕ → ℕ → ℕ
floor_to_interval ts seconds = ts / 1_000_000 / seconds * seconds * 1_000_000

unfoldable pub is_on_interval_boundary : ℕ → ℕ → Bool
is_on_interval_boundary ts seconds = ts % 1_000_000 == 0 && ts / 1_000_000 % seconds == 0

unfoldable pub apply_origin_rule : ℕ → TimestampPolicy → Result (ℕ × String)
unfolding floor_to_interval is_on_interval_boundary
apply_origin_rule ts p =
    if str_eq p.timestamp_origin_rule "floor_to_native_interval"
    then (let floored = floor_to_interval ts p.native_interval_seconds in
        ok (
          floored,
          if floored == ts then "timestamp_normalized" else "timestamp_floored_to_native_interval",
        ))
    else do
      require (is_on_interval_boundary ts p.native_interval_seconds)
          (value_error "timestamp is not aligned to the native interval boundary")
      require
          (str_eq p.timestamp_origin_rule "exact_boundary"
            || str_eq p.timestamp_origin_rule "reject_off_boundary")
          (value_error "unsupported timestamp_origin_rule")
      ok (ts, "timestamp_normalized")

module _ (lib : TimeLib) where
  unfoldable pub parse_datetime_value : SourceValue → Result DateTime
  parse_datetime_value (moment t) = ok t
  parse_datetime_value (text s) = do
    require (not (str_eq (lib.strip s) "")) (value_error "empty timestamp")
    elim (lib.from_iso (lib.strip s)) [
      | some t ↦ ok t
      | none ↦ raises (value_error "Invalid isoformat string")
    ]
  parse_datetime_value other = raises (value_error "timestamp must be datetime or ISO string")

  -- The instant of a parsed value, by the type of the policy.
  unfoldable pub instant_of : DateTime → TimestampPolicy → Result ℕ
  instant_of (aware t) p =
      if str_eq p.source_timestamp_type "utc_instant"
      then ok t
      else if str_eq p.source_timestamp_type "local_wall_time"
      then raises (value_error "local_wall_time timestamps must not include timezone information")
      else raises (value_error "unsupported source_timestamp_type")
  instant_of (naive t) p =
      if str_eq p.source_timestamp_type "utc_instant"
      then raises (value_error "utc_instant timestamps must include timezone information")
      else if str_eq p.source_timestamp_type "local_wall_time"
      then ok (lib.to_utc p.source_timezone t)
      else raises (value_error "unsupported source_timestamp_type")

  unfoldable pub parse_to_utc : SourceValue → TimestampPolicy → Result ℕ
  unfolding parse_datetime_value instant_of
  parse_to_utc value p = do
    require (lib.has_zone p.source_timezone) (value_error "unknown source_timezone")
    elim (parse_datetime_value value) [
      | raises e ↦ raises (value_error "failed to parse timestamp from its column")
      | ok t ↦ instant_of t p
    ]

  -- row[policy.timestamp_column], with none for a column that is missing
  unfoldable pub normalize_timestamp :
      (String → Option SourceValue) → TimestampPolicy → Result NormalizedTimestamp
  unfolding parse_to_utc apply_origin_rule
  normalize_timestamp row p = elim (row p.timestamp_column) [
    | none ↦ raises (value_error "timestamp column is missing")
    | some value ↦ do
      utc ← parse_to_utc value p
      ruled ← apply_origin_rule utc p
      ok (record {
        source_ts_raw = value;
        source_ts_column = p.timestamp_column;
        event_ts_utc = ruled.0;
        source_timezone = p.source_timezone;
        timestamp_policy_id = p.timestamp_policy_id;
        timestamp_parse_status = "ok";
        timestamp_origin_rule = p.timestamp_origin_rule;
        timestamp_quality_code = ruled.1;
      })
  ]
