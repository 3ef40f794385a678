-- ===== src/Quality/Decisions.antt =====
-- What the value-quality check accepts, and what a decision says.
use skn25_final_4team.Prelude.{
  zero, suc, ◌≡◌, String, Bool, true, false, not, ◌&&◌, ◌||◌, Option, none, some, arith, leb,
  str_eq,
}
use skn25_final_4team.Quality.{
  Float, nan, infinity, neg_infinity, finite, neg_finite, one, Value, Text, Source,
  ValueQualityDecision, Parsed, missing, value, type_or_value_error, overflow_error, known,
  measurement_of, parse_numeric, candidate, decide_parsed, decide_value_quality,
}

-- A reading that the meter can have made: a current or a voltage is not negative, a power factor
-- lies between -1 and 1, and everything is finite.
abbrev pub plausible : String → Float → Bool
plausible m (finite n) = not (str_eq m "PF") || leb n one
plausible m (neg_finite zero) = true
plausible m (neg_finite (suc n)) =
    not (str_eq m "I") && not (str_eq m "V") && (not (str_eq m "PF") || leb (suc n) one)
plausible m _ = false

-- A text that is no number is let through for measurements without a policy only.
abbrev pub acceptable : String → Parsed → Bool
acceptable m missing = true
acceptable m (value x) = plausible m x
acceptable m type_or_value_error = not (known m)
acceptable m overflow_error = false

abbrev pub has_reason : Option String → Bool
has_reason none = false
has_reason (some r) = true

-- How the numeric value stands in a decision: as it was parsed.
abbrev pub parsed_value : Parsed → Option Float
parsed_value (value x) = some x
parsed_value _ = none

-- What a decision says of what was parsed.
Says : String → Parsed → ValueQualityDecision → Type 0
Says m p d =
    (d.accepted ≡ acceptable m p)
    × (d.quarantine ≡ not d.accepted)
    × (has_reason d.reason_code ≡ d.quarantine)
    × (d.normalized_value ≡ parsed_value p)
    × (d.measurement ≡ m)

decide_parsed-Says :
    (m code : String) (p : Parsed) (d : ValueQualityDecision)
    → decide_parsed m code p ≡ some d
    → Says m p d
unfolding decide_parsed Says
decide_parsed-Says m code missing d h = ground arith
decide_parsed-Says m code type_or_value_error d h = ground arith
decide_parsed-Says m code overflow_error d h = ground arith
decide_parsed-Says m code (value nan) d h = ground arith
decide_parsed-Says m code (value infinity) d h = ground arith
decide_parsed-Says m code (value neg_infinity) d h = ground arith
decide_parsed-Says m code (value (finite n)) d h = ground arith
decide_parsed-Says m code (value (neg_finite zero)) d h = ground arith
decide_parsed-Says m code (value (neg_finite (suc n))) d h = ground arith

module _ (py : Text) (source : Source) (value_numeric value_text : Option Value) (code : String)
    (d : ValueQualityDecision)
    (decided : decide_value_quality py source value_numeric value_text code ≡ some d) where
  -- Every decision accepts a value exactly if the reading is plausible for its measurement, missing,
  -- or not numeric in a measurement without a policy; it quarantines exactly what it does not
  -- accept, gives a reason exactly then, and hands on the value as it was parsed.
  pub decide-accepts :
      (d.accepted
        ≡ acceptable
            (measurement_of py source)
            (parse_numeric py (candidate source value_numeric value_text)))
      × (d.quarantine ≡ not d.accepted)
      × (has_reason d.reason_code ≡ d.quarantine)
      × (d.normalized_value
          ≡ parsed_value (parse_numeric py (candidate source value_numeric value_text)))
      × (d.measurement ≡ measurement_of py source)
  unfolding decide_value_quality Says
  decide-accepts =
      decide_parsed-Says (measurement_of py source) code
        (parse_numeric py (candidate source value_numeric value_text)) d decided
