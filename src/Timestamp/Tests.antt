-- ===== src/Timestamp/Tests.antt =====
-- A wall time in a zone nine hours ahead, floored to a quarter of an hour.
use skn25_final_4team.Prelude.{
  ℕ, ◌-◌, ◌≡◌, refl, String, str_eq, if◌then◌else◌, true, false, All, List, [], ◌∷◌, Option, none,
  some, ok, is_ok, get_ok, get_ok-eq,
}
use skn25_final_4team.Timestamp.{
  DateTime, naive, TimeLib, SourceValue, text, TimestampPolicy, timestamp_policy,
  NormalizedTimestamp, parse_to_utc, normalize_timestamp,
}
use skn25_final_4team.Timestamp.Registry.{
  Row, required_registry_fields, load_timestamp_policy_registry, validate_header, load_rows,
  policy_from_row,
}
use skn25_final_4team.Timestamp.Lookup.{IsFound, load_timestamp_policy_registry-IsFound}
use skn25_final_4team.Timestamp.Origin.{Lands, normalize_timestamp-Lands}

abbrev day_one : String → Option DateTime
day_one s = if str_eq s "1970-01-02T09:20:05" then some (naive 120_005_000_000) else none

abbrev lib : TimeLib
lib = record {
  has_zone = λ zone. str_eq zone "Asia/Seoul";
  to_utc = λ zone wall. wall - 32_400_000_000;
  strip = λ s. s;
  from_iso = day_one;
}

abbrev policy : TimestampPolicy
policy = record {
  timestamp_policy_id = "tp1";
  meter_urn = "m1";
  measurement = "kw";
  timestamp_column = "ts";
  source_timezone = "Asia/Seoul";
  source_timestamp_type = "local_wall_time";
  native_interval_seconds = 900;
  target_grain_minutes = none;
  timestamp_origin_rule = "floor_to_native_interval";
  cadence_policy_id = "c1";
  aggregation_policy = "mean_non_cumulative";
}

accepted : timestamp_policy policy ≡ ok policy
unfolding timestamp_policy
accepted = refl

abbrev row : String → Option SourceValue
row column = if str_eq column "ts" then some (text "1970-01-02T09:20:05") else none

normalized-ok : is_ok (normalize_timestamp lib row policy) ≡ true
unfolding normalize_timestamp
normalized-ok = refl

abbrev normalized : NormalizedTimestamp
normalized = get_ok (normalize_timestamp lib row policy) normalized-ok

normalize_timestamp-Lands_example :
    (value : SourceValue) × (utc : ℕ) × (row "ts" ≡ some value)
    × (parse_to_utc lib value policy ≡ ok utc)
    × Lands policy utc (normalized.event_ts_utc, normalized.timestamp_quality_code)
normalize_timestamp-Lands_example =
    normalize_timestamp-Lands lib row policy normalized accepted
      (get_ok-eq (normalize_timestamp lib row policy) normalized-ok)

-- Two rows of a file, which differ in their meter.
abbrev csv_row : String → Row
csv_row meter field =
    if str_eq field "meter_urn"
    then some meter
    else if str_eq field "source_timestamp_type"
    then some "utc_instant"
    else if str_eq field "timestamp_origin_rule"
    then some "exact_boundary"
    else if str_eq field "target_grain_minutes"
    then none
    else if str_eq field "native_interval_seconds"
    then some "900"
    else some "text"

abbrev rows : List Row
rows = csv_row "m1" ∷ csv_row "m2" ∷ []

abbrev int : String → Option ℕ
int s = if str_eq s "900" then some 900 else none

loaded-ok :
    is_ok (load_timestamp_policy_registry lib int (some required_registry_fields) rows) ≡ true
unfolding load_timestamp_policy_registry validate_header load_rows policy_from_row
loaded-ok = refl

abbrev registry : List TimestampPolicy
registry =
    get_ok (load_timestamp_policy_registry lib int (some required_registry_fields) rows) loaded-ok

load_timestamp_policy_registry-IsFound_example : All (IsFound lib int registry) rows
load_timestamp_policy_registry-IsFound_example =
    load_timestamp_policy_registry-IsFound lib int (some required_registry_fields) rows registry (
      get_ok-eq (load_timestamp_policy_registry lib int (some required_registry_fields) rows)
        loaded-ok)

duplicate_refused :
    is_ok (
      load_timestamp_policy_registry lib int
        (some required_registry_fields)
        (csv_row "m1" ∷ csv_row "m1" ∷ []))
    ≡ false
unfolding load_timestamp_policy_registry validate_header load_rows policy_from_row
duplicate_refused = refl
