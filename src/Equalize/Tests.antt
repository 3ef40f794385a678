-- ===== src/Equalize/Tests.antt =====
-- A quarter of an hour of readings each minute, on the boundary and off it.
use skn25_final_4team.Prelude.{
  ℕ, ◌+◌, ◌≡◌, refl, Bool, true, false, Option, none, some, List, [], ◌∷◌, length, keep, All, ◌==◌,
  ok, is_ok, get_ok, get_ok-eq,
}
use skn25_final_4team.Equalize.{
  Floats, LiveHarmonizedEvent, default_policy, EqualizedRow, target_grain_of, target_grain_minutes,
  bucket_start,
}
use skn25_final_4team.Equalize.Series.{equalize_series}
use skn25_final_4team.Equalize.Aggregate.{AggregatedRow, aggregate_observed_rows}
use skn25_final_4team.Equalize.Plan.{
  SeriesCadenceCountPolicy, EqualizationCountPlan, build_cadence_equalization_count_plan,
}
use skn25_final_4team.Equalize.Totals.{
  in_window, points, equalize_series-conserves, equalize_series-unaligned,
}
use skn25_final_4team.Equalize.Masks.{Masks, equalize_series-Masks}
use skn25_final_4team.Equalize.Planned.{rows_of_grain, plan-rows}

-- A stand-in for the floats: naturals, with none for NaN.
abbrev add : Option ℕ → Option ℕ → Option ℕ
add none b = none
add (some a) none = none
add (some a) (some b) = some (a + b)

abbrev missing : Option ℕ → Bool
missing none = true
missing (some n) = false

abbrev F : Floats
F = record {
  Float = Option ℕ;
  nan = none;
  is_nan = missing;
  of_nat = λ n. some n;
  plus = add;
  over = λ x n. x;
  ratio = λ a b. some a;
  least = λ x y. x;
}

abbrev reading : ℕ → LiveHarmonizedEvent F
reading ts = record {
  meter_urn = "m";
  measurement = "P";
  timestamp = ts;
  value = some 4;
  source_event_id = some "e";
  timestamp_policy_id = none;
  source_timezone = none;
  source_ts_raw = none;
  source_ts_column = none;
  timestamp_quality_code = none;
  timestamp_origin_rule = none;
}

-- Readings at 1:00:05, 1:00:40 and 1:02:10.
abbrev readings : List (LiveHarmonizedEvent F)
readings = reading 3_605_000_000 ∷ reading 3_640_000_000 ∷ reading 3_730_000_000 ∷ []

default-ok : is_ok (equalize_series F readings 3_600_000_000 3_780_000_000 default_policy) ≡ true
unfolding equalize_series target_grain_of
default-ok = refl

abbrev rows : List (EqualizedRow F)
rows = get_ok (equalize_series F readings 3_600_000_000 3_780_000_000 default_policy) default-ok

rows-eq : equalize_series F readings 3_600_000_000 3_780_000_000 default_policy ≡ ok rows
rows-eq =
    get_ok-eq (equalize_series F readings 3_600_000_000 3_780_000_000 default_policy) default-ok

minute-grain : target_grain_minutes default_policy ≡ ok 1
unfolding target_grain_of
minute-grain = refl

on_boundary : bucket_start 3_600_000_000 1 ≡ 3_600_000_000
unfolding bucket_start
on_boundary = refl

equalize_series-conserves_example :
    points F rows ≡ length (keep (in_window F 3_600_000_000 3_780_000_000) readings)
equalize_series-conserves_example =
    equalize_series-conserves F readings 3_600_000_000 3_780_000_000 default_policy 1 rows refl
      minute-grain on_boundary rows-eq

late-ok : is_ok (equalize_series F readings 3_600_000_001 3_780_000_000 default_policy) ≡ true
unfolding equalize_series target_grain_of
late-ok = refl

abbrev late_rows : List (EqualizedRow F)
late_rows = get_ok (equalize_series F readings 3_600_000_001 3_780_000_000 default_policy) late-ok

off_boundary : (bucket_start 3_600_000_001 1 == 3_600_000_001) ≡ false
unfolding bucket_start
off_boundary = refl

equalize_series-unaligned_example : points F late_rows ≡ 0
equalize_series-unaligned_example =
    equalize_series-unaligned F readings 3_600_000_001 3_780_000_000 default_policy 1 late_rows refl
      minute-grain off_boundary
      (get_ok-eq (equalize_series F readings 3_600_000_001 3_780_000_000 default_policy) late-ok)

equalize_series-Masks_example : All (Masks F) rows
equalize_series-Masks_example =
    equalize_series-Masks F readings 3_600_000_000 3_780_000_000 default_policy rows rows-eq

five-ok : is_ok (aggregate_observed_rows F rows 5) ≡ true
unfolding aggregate_observed_rows
five-ok = refl

abbrev five : List (AggregatedRow F)
five = get_ok (aggregate_observed_rows F rows 5) five-ok

-- Two hours of a 1-minute series and a 15-minute one.
abbrev two_series : List SeriesCadenceCountPolicy
two_series =
    record { native_interval_seconds = 60; target_grain_minutes = none }
    ∷ record { native_interval_seconds = 900; target_grain_minutes = none }
    ∷ []

plan-ok : is_ok (build_cadence_equalization_count_plan two_series 120) ≡ true
unfolding build_cadence_equalization_count_plan
plan-ok = refl

abbrev plan : EqualizationCountPlan
plan = get_ok (build_cadence_equalization_count_plan two_series 120) plan-ok

abbrev one_series : List SeriesCadenceCountPolicy
one_series = record { native_interval_seconds = 60; target_grain_minutes = none } ∷ []

one-ok : is_ok (build_cadence_equalization_count_plan one_series 60) ≡ true
unfolding build_cadence_equalization_count_plan
one-ok = refl

abbrev one_plan : EqualizationCountPlan
one_plan = get_ok (build_cadence_equalization_count_plan one_series 60) one-ok

hour-ok : is_ok (equalize_series F readings 3_600_000_000 7_200_000_000 default_policy) ≡ true
unfolding equalize_series target_grain_of
hour-ok = refl

abbrev hour_rows : List (EqualizedRow F)
hour_rows = get_ok (equalize_series F readings 3_600_000_000 7_200_000_000 default_policy) hour-ok

plan-rows_example : length hour_rows ≡ rows_of_grain 1 one_plan
plan-rows_example =
    plan-rows F (reading 3_605_000_000) (reading 3_640_000_000 ∷ reading 3_730_000_000 ∷ [])
      3_600_000_000 60 default_policy 1 hour_rows one_plan refl minute-grain
      (get_ok-eq (build_cadence_equalization_count_plan one_series 60) one-ok)
      (get_ok-eq (equalize_series F readings 3_600_000_000 7_200_000_000 default_policy) hour-ok)
