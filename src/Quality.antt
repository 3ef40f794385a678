-- ===== src/Quality.antt =====
-- src/cms/data/value_quality.py: whether an arrived value is accepted or quarantined.
-- A float is NaN, an infinity, or a sign and a magnitude in units of the smallest double,
-- 2 ^ -1074, of which every finite double is a whole multiple; the code only compares floats.
-- What Python's `str`, `strip`, `upper`, `lower` and `float` make of a text are arguments.
pub mod Decisions
mod Tests
use skn25_final_4team.Prelude.{
  ℕ, zero, suc, ◌^◌, String, Bool, true, false, not, ◌&&◌, ◌||◌, Option, none, some, List, [], ◌∷◌,
  leb, str_eq, any, if◌then◌else◌,
}

pub data Float : Type 0 where
  nan infinity neg_infinity : Float
  finite neg_finite : ℕ → Float

-- 1.0
abbrev pub one : ℕ
one = 2 ^ 1074

-- What float() does with an object: a float, a TypeError or a ValueError, or an OverflowError, as of an
-- integer that no float holds.
pub data Conversion : Type 0 where
  converts : Float → Conversion
  refuses overflows : Conversion

-- A Python object: `number` is a float; another object, such as an integer or a Decimal, is known by
-- what float() does with it.
pub data Value : Type 0 where
  null : Value
  object : Conversion → Value
  boolean : Bool → Value
  text : String → Value
  number : Float → Value

pub record Text : Type 0 where
  -- str(value or "").strip().upper() of a value, and of a text
  pub upper_of : Value → String
  pub upper : String → String
  -- text.strip().lower()
  pub lower : String → String
  -- float(text), with none for a ValueError
  pub parse : String → Option Float

-- The first argument: a measurement's name, or an object with these three fields, None where it
-- lacks one (the code's default for a missing measurement, "", is normalised to the same text).
pub data Source : Type 0 where
  name : String → Source
  event : Value → Value → Value → Source

pub record ValueQualityDecision : Type 0 where
  pub accepted : Bool
  pub quarantine : Bool
  pub reason_code : Option String
  pub warnings : List String
  pub normalized_value : Option Float
  pub measurement : String
  pub qa_stage : String

-- What `_parse_numeric` does: return None or a float, or raise.
pub data Parsed : Type 0 where
  missing : Parsed
  value : Float → Parsed
  type_or_value_error : Parsed
  overflow_error : Parsed

abbrev pub known : String → Bool
known m = any (str_eq m) ("P" ∷ "I" ∷ "V" ∷ "PF" ∷ [])

abbrev pub never_negative : String → Bool
never_negative m = any (str_eq m) ("I" ∷ "V" ∷ [])

abbrev pub is_finite : Float → Bool
is_finite (finite n) = true
is_finite (neg_finite n) = true
is_finite _ = false

-- value < 0.0
abbrev pub negative : Float → Bool
negative neg_infinity = true
negative (neg_finite (suc n)) = true
negative _ = false

-- -1.0 <= value <= 1.0
unfoldable pub within_one : Float → Bool
within_one (finite n) = leb n one
within_one (neg_finite n) = leb n one
within_one _ = false

abbrev given : Option Value → Value → Value
given none default = default
given (some v) default = v

-- numeric_candidate if numeric_candidate is not None else text_candidate
abbrev first_present : Value → Value → Value
first_present null v = v
first_present v w = v

-- raw_candidate
unfoldable pub candidate : Source → Option Value → Option Value → Value
candidate (name m) value_numeric value_text =
    first_present (given value_numeric null) (given value_text null)
candidate (event m numeric txt) value_numeric value_text =
    first_present (given value_numeric numeric) (given value_text txt)

abbrev accept : String → List String → Option Float → ValueQualityDecision
accept m warnings v = record {
  accepted = true;
  quarantine = false;
  reason_code = none;
  warnings = warnings;
  normalized_value = v;
  measurement = m;
  qa_stage = "value_quality";
}

abbrev reject : String → String → Option Float → ValueQualityDecision
reject m reason v = record {
  accepted = false;
  quarantine = true;
  reason_code = some reason;
  warnings = [];
  normalized_value = v;
  measurement = m;
  qa_stage = "value_quality";
}

-- The decision for what was parsed; an OverflowError is not caught, so there is no decision.
unfoldable pub decide_parsed : String → String → Parsed → Option ValueQualityDecision
unfolding within_one
decide_parsed m missing_warning_code type_or_value_error = some (
    if known m
    then reject m "value_non_numeric" none
    else accept m ("unknown_measurement_range_policy" ∷ "value_not_numeric_for_unknown_policy" ∷ [])
        none)
decide_parsed m missing_warning_code overflow_error = none
decide_parsed m missing_warning_code missing = some (accept m (missing_warning_code ∷ []) none)
decide_parsed m missing_warning_code (value x) = some (
    if not (is_finite x)
    then reject m "value_not_finite" (some x)
    else if never_negative m && negative x
    then reject m "value_negative_impossible" (some x)
    else if str_eq m "PF" && not (within_one x)
    then reject m "power_factor_out_of_range" (some x)
    else accept m (if known m then [] else "unknown_measurement_range_policy" ∷ []) (some x))

abbrev converted : Conversion → Parsed
converted (converts x) = value x
converted refuses = type_or_value_error
converted overflows = overflow_error

module _ (py : Text) where
  unfoldable pub parse_numeric : Value → Parsed
  parse_numeric null = missing
  parse_numeric (boolean b) = type_or_value_error
  parse_numeric (text s) =
      if any (str_eq (py.lower s)) ("" ∷ "none" ∷ "null" ∷ [])
      then missing
      else elim (py.parse s) [ some x ↦ value x | none ↦ type_or_value_error ]
  parse_numeric (number x) = value x
  parse_numeric (object c) = converted c

  abbrev pub measurement_of : Source → String
  measurement_of (name m) = py.upper m
  measurement_of (event m numeric txt) = py.upper_of m

  unfoldable pub decide_value_quality :
      Source → Option Value → Option Value → String → Option ValueQualityDecision
  unfolding candidate parse_numeric decide_parsed
  decide_value_quality source value_numeric value_text missing_warning_code =
      decide_parsed (measurement_of source) missing_warning_code
        (parse_numeric (candidate source value_numeric value_text))

  unfoldable pub decide_numeric_value_quality :
      String → Value → Option Value → Option ValueQualityDecision
  unfolding decide_value_quality
  decide_numeric_value_quality measurement v value_text =
      decide_value_quality (name measurement) (some v) value_text "missing_null_observation"

  unfoldable pub decide_measurement_value_quality : Source → Option ValueQualityDecision
  unfolding decide_value_quality
  decide_measurement_value_quality source =
      decide_value_quality source none none "missing_null_observation"
