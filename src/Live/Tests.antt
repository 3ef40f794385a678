-- ===== src/Live/Tests.antt =====
-- Events, minutes and floats on which the contract and the workers are run.
use skn25_final_4team.Prelude.{
  ℕ, ◌*◌, ◌/◌, ◌≡◌, refl, String, Bool, true, false, Option, none, some, List, [], ◌∷◌, ltb, leb,
  ◌⊎◌, Result, ok, is_ok, get_ok, get_ok-eq, arith,
}
use skn25_final_4team.Live.{LiveMeasurementEvent, LiveMeasurementPolicy, state_hold_last, res_15min}
use skn25_final_4team.Live.Trigger.{
  plain, TriggerDecisionResult, decide_trigger_actions, trigger_operation, resolve_policy_lookup,
  decide_for_policy, trigger_policy_block_reasons, derive_trigger_queue_jobs, queue_jobs_for,
  validate_queue_key,
}
use skn25_final_4team.Live.Decisions.{
  IsWithin, decide_trigger_actions-IsWithin, admits, decide_trigger_actions-admits,
}
use skn25_final_4team.Live.Coverage.{
  WorkerFloats, ExpectedPointsPolicy, derive_expected_points, count_observed_points,
}
use skn25_final_4team.Live.Rollup.{
  MeanRollupRecord, PeakFeatureRecord, build_mean_rollup, build_peak_feature, observed_rows,
}
use skn25_final_4team.Live.Rows.{build_mean_rollup-is_ok}
use skn25_final_4team.Live.Peaks.{IsPeakOf, build_peak_feature-IsPeakOf}

abbrev event : LiveMeasurementEvent ℕ
event = record {
  event_id = "e1";
  meter_urn = "m1";
  measurement = "kw";
  source_ts = 3_725_000_000;
  value = some 7;
  source_system = "kafka.measurement_raw_v1";
  source_event_id = none;
}

abbrev held : LiveMeasurementPolicy
held = record {
  meter_urn = "m1";
  measurement = "kw";
  policy_version = 2;
  enabled = true;
  heterogeneous_native_cadence = false;
  policy_kind = state_hold_last;
  state_hold_last_evidence = some "relay log";
}

abbrev decision : Result TriggerDecisionResult
decision = decide_trigger_actions event (plain held)

decided : is_ok decision ≡ true
unfolding decide_trigger_actions trigger_operation resolve_policy_lookup decide_for_policy
    trigger_policy_block_reasons derive_trigger_queue_jobs queue_jobs_for validate_queue_key
decided = refl

decide_trigger_actions-IsWithin_example : IsWithin event (get_ok decision decided)
decide_trigger_actions-IsWithin_example =
    decide_trigger_actions-IsWithin event (plain held) (get_ok decision decided)
      (get_ok-eq decision decided)

decide_trigger_actions-admits_example :
    (r : TriggerDecisionResult) × (decide_trigger_actions event (plain held) ≡ ok r)
    × (r.upsert_1min ≡ admits held)
decide_trigger_actions-admits_example =
    decide_trigger_actions-admits event held refl refl (omega arith)

-- Floats as naturals and NaN.
abbrev below : Option ℕ → Option ℕ → Bool
below (some a) (some b) = ltb a b
below _ _ = false

abbrev at_most : Option ℕ → Option ℕ → Bool
at_most (some a) (some b) = leb a b
at_most _ _ = false

abbrev not_a_number : Option ℕ → Bool
not_a_number none = true
not_a_number (some a) = false

abbrev first : List (Option ℕ) → Option ℕ
first [] = none
first (a ∷ rest) = a

abbrev floats : WorkerFloats
floats = record {
  Float = Option ℕ;
  is_nan = not_a_number;
  ratio = λ a b. some (a * 100 / b);
  clamp = λ a. a;
  of_nat = λ n. some (n * 100);
  less = below;
  at_most = at_most;
  mean = first;
  deviation = first;
}

irreflexive : (a : Option ℕ) → below a a ≡ false
irreflexive none = refl
irreflexive (some a) = ground arith

asymmetric : (a b : Option ℕ) → below a b ≡ true → below b a ≡ false
asymmetric none none h = refl
asymmetric none (some b) h = refl
asymmetric (some a) none h = refl
asymmetric (some a) (some b) h = ground arith

splits :
    (a b c : Option ℕ)
    → not_a_number b ≡ false
    → below a c ≡ true
    → (below a b ≡ true) ⊎ (below b c ≡ true)
splits a none c number h = cc
splits none (some b) c number h = cc
splits (some a) (some b) none number h = cc
splits (some a) (some b) (some c) number h = ground arith

abbrev values : List (Option (Option ℕ))
values = some (some 5) ∷ none ∷ some none ∷ some (some 9) ∷ []

abbrev every_five_minutes : ExpectedPointsPolicy
every_five_minutes = record {
  native_cadence_seconds = 300;
  expected_points_15min = none;
  expected_points_1h = none;
  sub_minute_policy_approved = false;
}

abbrev rollup : Result (MeanRollupRecord floats)
rollup =
    build_mean_rollup floats (λ s. s) 1_000_000_000 res_15min "m1" "kw" values every_five_minutes []

rolled : is_ok rollup ≡ true
unfolding build_mean_rollup
rolled = refl

three_points : derive_expected_points every_five_minutes res_15min ≡ ok 3
unfolding derive_expected_points
three_points = refl

build_mean_rollup-is_ok_example :
    is_ok (
      build_mean_rollup floats
        (λ s. s)
        1_000_000_000
        res_15min
        "m1"
        "kw"
        values
        every_five_minutes
        [])
    ≡ leb (count_observed_points floats values) 3
build_mean_rollup-is_ok_example =
    build_mean_rollup-is_ok floats (λ s. s) 1_000_000_000 res_15min "m1" "kw" values
      every_five_minutes [] 3 three_points (omega arith) refl

abbrev observations : List (ℕ × Option (Option ℕ) × String)
observations =
    (10, some (some 5), "a")
    ∷ (20, some none, "b")
    ∷ (30, some (some 9), "c")
    ∷ (40, none, "d")
    ∷ []

abbrev feature : Result (PeakFeatureRecord floats)
feature = build_peak_feature floats (λ s. s) 10 "m1" "kw" observations (some 4) none (some 50)

featured : is_ok feature ≡ true
unfolding build_peak_feature
featured = refl

build_peak_feature-IsPeakOf_example :
    IsPeakOf floats irreflexive asymmetric splits
      (get_ok feature featured)
      (observed_rows floats observations)
build_peak_feature-IsPeakOf_example =
    build_peak_feature-IsPeakOf floats irreflexive asymmetric splits (λ s. s) 10 "m1" "kw"
      observations (some 4) none (some 50) (get_ok feature featured) (get_ok-eq feature featured)
