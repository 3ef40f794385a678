-- ===== src/Timestamp/Registry.antt =====
-- src/cms/data/timestamp_policy_registry.py: the registry of timestamp policies. The header and the
-- rows are what csv.DictReader reads of the file; int() of a text is the parameter `int`, with none
-- for a ValueError and 0 for a negative number, which the policy refuses as it refuses 0. The fields
-- source_id and file_pattern and the numbers of the lines are left out.
use skn25_final_4team.Prelude.{
  ℕ, String, Bool, true, false, not, ◌&&◌, Option, none, some, List, [], ◌∷◌, any, str_eq,
  str_append, if◌then◌else◌, value_error, key_error, Result, ok, raises, require, ◌>>=◌, ◌>>◌,
}
use skn25_final_4team.Timestamp.{TimeLib, TimestampPolicy, timestamp_policy, among}

abbrev pub required_registry_fields : List String
required_registry_fields =
    "meter_urn" ∷ "measurement" ∷ "timestamp_policy_id" ∷ "timestamp_column" ∷ "source_timezone"
    ∷ "source_timestamp_type" ∷ "native_interval_seconds" ∷ "timestamp_origin_rule"
    ∷ "cadence_policy_id" ∷ []

-- row.get
abbrev pub Row : Type 0
Row = String → Option String

unfoldable pub require_columns : List String → List String → Result (Unit {0})
require_columns fields [] = ok tt
require_columns fields (field ∷ rest) = do
  require (among field fields)
      (value_error (str_append "timestamp policy registry missing required column " field))
  require_columns fields rest

unfoldable pub validate_header : Option (List String) → Result (Unit {0})
unfolding require_columns
validate_header none = raises (value_error "timestamp policy registry is missing a header")
validate_header (some fields) = require_columns fields required_registry_fields

-- The dict of policies: the key of a policy is its meter and its measurement.
abbrev pub has_key : String → String → TimestampPolicy → Bool
has_key meter_urn measurement p = str_eq p.meter_urn meter_urn && str_eq p.measurement measurement

unfoldable pub get_policy : List TimestampPolicy → String → String → Result TimestampPolicy
get_policy [] meter_urn measurement = raises (key_error "no timestamp policy")
get_policy (p ∷ policies) meter_urn measurement =
    let found = get_policy policies meter_urn measurement in
    if has_key meter_urn measurement p then ok p else found

module _ (lib : TimeLib) (int : String → Option ℕ) where
  unfoldable pub blank_to_none : Option String → Option String
  blank_to_none none = none
  blank_to_none (some value) = if str_eq (lib.strip value) "" then none else some (lib.strip value)

  abbrev is_none {ℓ} : {A : Type ℓ} → Option A → Bool
  is_none none = true
  is_none (some a) = false

  unfoldable pub require_fields : Row → List String → Result (Unit {0})
  unfolding blank_to_none
  require_fields row [] = ok tt
  require_fields row (field ∷ rest) = do
    require (not (is_none (blank_to_none (row field))))
        (value_error (str_append field " is required"))
    require_fields row rest

  -- str(row[field]).strip(), for a field that is there
  abbrev stripped : Option String → String
  stripped none = ""
  stripped (some value) = lib.strip value

  unfoldable pub parse_int : String → String → Result ℕ
  parse_int value field = elim (int (lib.strip value)) [
    | none ↦ raises (value_error (str_append field " must be an integer"))
    | some n ↦ ok n
  ]

  unfoldable pub parse_optional_int : Option String → String → Result (Option ℕ)
  unfolding blank_to_none parse_int
  parse_optional_int none field = ok none
  parse_optional_int (some value) field =
      let parsed = (do n ← parse_int value field; ok (some n)) in
      if is_none (blank_to_none (some value)) then ok none else parsed

  -- str(row.get("aggregation_policy") or "mean_non_cumulative").strip()
  abbrev aggregation_of : Option String → String
  aggregation_of none = lib.strip "mean_non_cumulative"
  aggregation_of (some value) = lib.strip (if str_eq value "" then "mean_non_cumulative" else value)

  unfoldable pub policy_from_row : Row → Result TimestampPolicy
  unfolding require_fields parse_int parse_optional_int timestamp_policy
  policy_from_row row = do
    require_fields row required_registry_fields
    interval ← parse_int (stripped (row "native_interval_seconds")) "native_interval_seconds"
    grain ← parse_optional_int (row "target_grain_minutes") "target_grain_minutes"
    timestamp_policy (record {
      timestamp_policy_id = stripped (row "timestamp_policy_id");
      meter_urn = stripped (row "meter_urn");
      measurement = stripped (row "measurement");
      timestamp_column = stripped (row "timestamp_column");
      source_timezone = stripped (row "source_timezone");
      source_timestamp_type = stripped (row "source_timestamp_type");
      native_interval_seconds = interval;
      target_grain_minutes = grain;
      timestamp_origin_rule = stripped (row "timestamp_origin_rule");
      cadence_policy_id = stripped (row "cadence_policy_id");
      aggregation_policy = aggregation_of (row "aggregation_policy");
    })

  -- The loop over the rows, with the policies that are in the dict already, the newest first.
  unfoldable pub load_rows : List Row → List TimestampPolicy → Result (List TimestampPolicy)
  unfolding policy_from_row
  load_rows [] policies = ok policies
  load_rows (row ∷ rest) policies = do
    p ← policy_from_row row
    require (not (any (has_key p.meter_urn p.measurement) policies))
        (value_error "duplicate timestamp policy")
    load_rows rest (p ∷ policies)

  unfoldable pub load_timestamp_policy_registry :
      Option (List String) → List Row → Result (List TimestampPolicy)
  unfolding validate_header load_rows
  load_timestamp_policy_registry fieldnames rows = do validate_header fieldnames; load_rows rows []
