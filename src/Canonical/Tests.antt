-- ===== src/Canonical/Tests.antt =====
-- Tables on which the promotion to the canonical tables is run; a ratio is a number of percent.
use skn25_final_4team.Prelude.{
  ℕ, ◌*◌, ◌/◌, ◌≡◌, refl, ◌⊎◌, String, Bool, true, false, Option, none, some, [], ◌∷◌, ltb, leb,
  ◌==◌, All, str_eq, if◌then◌else◌, Result, ok, is_ok, get_ok,
}
use skn25_final_4team.Equalize.{sorted, insert_by}
use skn25_final_4team.Live.{res_15min, res_1h, live_measurement_15min}
use skn25_final_4team.Live.Coverage.{WorkerFloats}
use skn25_final_4team.Queue.{take}
use skn25_final_4team.Canonical.{
  CheckRow, PolicyRow, LiveRow, Params, Tables, is_eligible, promotion_pass, eligible_checks,
  source_rows, promote_rows, mark_checks, joined_rows, rows_of, first_of_each, upsert_canonical,
}
use skn25_final_4team.Canonical.Command.{
  CanonicalPromotionCommand, CanonicalPromotionResult, write_env_flag, write_gate_errors,
  execute_canonical_promotion_command,
}
use skn25_final_4team.Canonical.Backed.{
  IsBacked, is_marked, promoted, promotion_pass-IsBacked, promotion_pass-spent,
}

abbrev near : ℕ → ℕ → ℕ → Bool
near ratio points all_points = ratio * all_points == points * 100

abbrev quarter : LiveRow ℕ
quarter = record {
  bucket_ts = 900_000_000;
  meter_urn = "m1";
  measurement = "kw";
  resolution = res_15min;
  policy_version = 2;
  expected_points = 15;
  observed_points = 15;
  gap_points = 0;
  coverage_ratio = 100;
}

abbrev check : CheckRow ℕ
check = record {
  check_id = 4;
  source_table = live_measurement_15min;
  meter_urn = "m1";
  measurement = "kw";
  bucket_ts = 900_000_000;
  policy_id = 1;
  policy_version = 2;
  passes = true;
  block_reasons = [];
  canonical_write = none;
  coverage_ratio = some 100;
}

abbrev native : PolicyRow
native = record {
  policy_id = 1;
  policy_version = 2;
  meter_urn = "m1";
  measurement = "kw";
  enabled = true;
  canonical_eligible = true;
  cadence_group = "native_1min";
  source_native_interval_seconds = 60;
}

abbrev tables : Tables ℕ
tables = record {
  checks = check ∷ record check { check_id = 5; passes = false } ∷ [];
  policies = native ∷ [];
  live_15min = quarter ∷ [];
  live_1h = [];
  canonical_15min = [];
  canonical_1h = [];
}

abbrev params : Params ℕ
params = record {
  source_tables = live_measurement_15min ∷ [];
  batch_size = 100;
  min_coverage_ratio = 90;
  max_bucket_ts = none;
  promotion_id = "p1";
}

abbrev nobody : ℕ → Bool
nobody id = false

one_row :
    (promotion_pass leb near nobody params tables).canonical_15min
    ≡ record { source = quarter; promotion_check_id = 4; promotion_id = "p1" } ∷ []
unfolding promotion_pass eligible_checks source_rows promote_rows mark_checks joined_rows rows_of
    first_of_each upsert_canonical sorted insert_by take
one_row = refl

promotion_pass-IsBacked_example :
    All
      (IsBacked leb near params tables res_15min tables.live_15min [])
      (promotion_pass leb near nobody params tables).canonical_15min
    × All
        (IsBacked leb near params tables res_1h tables.live_1h [])
        (promotion_pass leb near nobody params tables).canonical_1h
promotion_pass-IsBacked_example = promotion_pass-IsBacked leb near nobody params tables

promotion_pass-spent_example :
    All
      (λ pc.
        (is_marked leb near (promoted leb near nobody params tables) pc ≡ false)
        ⊎ (is_eligible leb near params tables pc ≡ false))
      (promotion_pass leb near nobody params tables).checks
promotion_pass-spent_example = promotion_pass-spent leb near nobody params tables params tables

abbrev percent : WorkerFloats
percent = record {
  Float = ℕ;
  is_nan = λ x. false;
  ratio = λ a b. a * 100 / b;
  clamp = λ x. x;
  of_nat = λ n. n * 100;
  less = ltb;
  at_most = leb;
  mean = λ l. 0;
  deviation = λ l. 0;
}

abbrev command : CanonicalPromotionCommand percent
command = record {
  source_tables = live_measurement_15min ∷ [];
  target_tables = "canonical.measurement_15min" ∷ [];
  approval_id = "a1";
  promotion_id = "p1";
  batch_size = 100;
  min_coverage_ratio = 90;
  max_bucket_ts = none;
  write_gate_env = write_env_flag;
}

abbrev flag_set : String → Option String
flag_set name = if str_eq name write_env_flag then some "1" else none

abbrev executed : Result CanonicalPromotionResult
executed =
    execute_canonical_promotion_command percent (λ s. s) (λ c. ok (1, 0, 1, 1)) command true
      flag_set

executed-is_ok : is_ok executed ≡ true
unfolding execute_canonical_promotion_command write_gate_errors
executed-is_ok = refl

executed-attempted : (get_ok executed executed-is_ok).attempted ≡ true
unfolding execute_canonical_promotion_command write_gate_errors
executed-attempted = refl
