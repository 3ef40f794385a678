-- ===== src/Quality/Tests.antt =====
-- The value-quality check on a negative current, a text and a huge integer.
use skn25_final_4team.Prelude.{◌≡◌, refl, true, false, not, Option, none, some, []}
use skn25_final_4team.Quality.{
  neg_finite, object, overflows, number, Text, name, ValueQualityDecision, candidate, parse_numeric,
  measurement_of, decide_value_quality,
}
use skn25_final_4team.Quality.Decisions.{acceptable, has_reason, parsed_value, decide-accepts}

abbrev py : Text
py = record { upper_of = λ v. "P"; upper = λ s. s; lower = λ s. s; parse = λ s. none }

abbrev current : Option ValueQualityDecision
current =
    decide_value_quality py (name "I") (some (number (neg_finite 3))) none
      "missing_null_observation"

abbrev refusal : ValueQualityDecision
refusal = record {
  accepted = false;
  quarantine = true;
  reason_code = some "value_negative_impossible";
  warnings = [];
  normalized_value = some (neg_finite 3);
  measurement = "I";
  qa_stage = "value_quality";
}

current-refused : current ≡ some refusal
unfolding decide_value_quality
current-refused = refl

decide-accepts_example :
    (refusal.accepted
      ≡ acceptable
          (measurement_of py (name "I"))
          (parse_numeric py (candidate (name "I") (some (number (neg_finite 3))) none)))
    × (refusal.quarantine ≡ not refusal.accepted)
    × (has_reason refusal.reason_code ≡ refusal.quarantine)
    × (refusal.normalized_value
        ≡ parsed_value
            (parse_numeric py (candidate (name "I") (some (number (neg_finite 3))) none)))
    × (refusal.measurement ≡ measurement_of py (name "I"))
decide-accepts_example =
    decide-accepts py (name "I") (some (number (neg_finite 3))) none "missing_null_observation"
      refusal current-refused

overflow_escapes :
    decide_value_quality py (name "P") (some (object overflows)) none "missing_null_observation"
    ≡ none
unfolding decide_value_quality
overflow_escapes = refl
