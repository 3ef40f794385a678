-- ===== src/Live.antt =====
-- src/cms/contracts/live_pipeline.py: the contract of the live measurement pipeline.
-- A datetime is the number of microseconds since a midnight, as in Equalize.antt; the numbers of
-- points, of seconds and of versions are naturals, so a test against a negative one is left out.
-- str.strip().lower() is the parameter `fold`, and a float is a parameter too. This module has the
-- names, the events, the buckets and the source modes; Live/Trigger the trigger on an inserted
-- event, Live/Coverage the expected points, Live/Gates the gates and the workers that share them,
-- Live/Rollup the workers that build rows.
pub mod Trigger
pub mod Coverage
pub mod Gates
pub mod Rollup
pub mod Decisions
pub mod Promotable
pub mod Rows
pub mod Peaks
mod Tests
use Prim.Native.String.{len, find}
use text.Mathlib.Text.{starts_with}
use skn25_final_4team.Prelude.{
  ℕ, ◌*◌, ◌/◌, ◌%◌, String, Bool, true, false, ◌||◌, not, Option, none, some, List, [], ◌∷◌, leb,
  str_eq, str_append, any, if◌then◌else◌, Exc, value_error, Result, ok, raises,
}
use skn25_final_4team.Equalize.{minute_micros, hour_micros, replace}

abbrev pub live_measurement_event : String
live_measurement_event = "live.measurement_event"

abbrev pub live_measurement_policy : String
live_measurement_policy = "live.measurement_policy"

abbrev pub live_measurement_1min : String
live_measurement_1min = "live.measurement_1min"

abbrev pub live_measurement_15min : String
live_measurement_15min = "live.measurement_15min"

abbrev pub live_measurement_1h : String
live_measurement_1h = "live.measurement_1h"

abbrev pub live_bucket_queue : String
live_bucket_queue = "live.bucket_queue"

abbrev pub live_promotion_check : String
live_promotion_check = "live.promotion_check"

abbrev pub qa_live_measurement_issue : String
qa_live_measurement_issue = "qa.live_issue"

abbrev pub mart_peak_feature_15min : String
mart_peak_feature_15min = "mart.peak_feature_15min"

abbrev pub mart_peak_input_15min : String
mart_peak_input_15min = "mart.peak_feature_15min"

abbrev pub source_layer_kafka_raw : String
source_layer_kafka_raw = "kafka.measurement_raw_v1"

abbrev pub canonical_tables : List String
canonical_tables =
    "canonical.measurement_1min" ∷ "canonical.measurement_15min" ∷ "canonical.measurement_1h" ∷ []

abbrev pub mart_peak_tables : List String
mart_peak_tables = mart_peak_feature_15min ∷ mart_peak_input_15min ∷ []

abbrev pub observed_source_layers : List String
observed_source_layers =
    source_layer_kafka_raw ∷ live_measurement_event ∷ live_measurement_1min ∷ live_measurement_15min
    ∷ live_measurement_1h ∷ mart_peak_feature_15min ∷ mart_peak_input_15min ∷ canonical_tables

abbrev pub reference_source_layers : List String
reference_source_layers = "reference.corrected_resampled" ∷ "corrected_resampled" ∷ []

-- item in table
abbrev pub among : String → List String → Bool
among item table = any (str_eq item) table

pub data SourceMode : Type 0 where
  reference_backfill hybrid_warm_start live_observed : SourceMode

abbrev pub same_mode : SourceMode → SourceMode → Bool
same_mode reference_backfill reference_backfill = true
same_mode hybrid_warm_start hybrid_warm_start = true
same_mode live_observed live_observed = true
same_mode _ _ = false

pub data JobKind : Type 0 where
  mean_rollup peak_feature : JobKind

pub data Resolution : Type 0 where
  res_1min res_15min res_1h : Resolution

abbrev pub same_spec : JobKind × Resolution → JobKind × Resolution → Bool
same_spec (mean_rollup, res_1min) (mean_rollup, res_1min) = true
same_spec (mean_rollup, res_15min) (mean_rollup, res_15min) = true
same_spec (mean_rollup, res_1h) (mean_rollup, res_1h) = true
same_spec (peak_feature, res_1min) (peak_feature, res_1min) = true
same_spec (peak_feature, res_15min) (peak_feature, res_15min) = true
same_spec (peak_feature, res_1h) (peak_feature, res_1h) = true
same_spec _ _ = false

abbrev pub allowed_queue_job_specs : List (JobKind × Resolution)
allowed_queue_job_specs =
    (mean_rollup, res_15min) ∷ (mean_rollup, res_1h) ∷ (peak_feature, res_15min) ∷ []

-- The payload, which the modelled code only passes on, is left out.
pub record LiveMeasurementEvent (F : Type 0) : Type 0 where
  pub event_id : String
  pub meter_urn : String
  pub measurement : String
  pub source_ts : ℕ
  pub value : Option F
  pub source_system : String
  pub source_event_id : Option String

pub data PolicyKind : Type 0 where
  mean_observed state_hold_last cumulative unknown circular : PolicyKind

-- The expected points and the cadence of the policy are not read by the trigger and left out.
pub record LiveMeasurementPolicy : Type 0 where
  pub meter_urn : String
  pub measurement : String
  pub policy_version : ℕ
  pub enabled : Bool
  pub heterogeneous_native_cadence : Bool
  pub policy_kind : PolicyKind
  pub state_hold_last_evidence : Option String

-- `not text`, for a text that may be None
abbrev pub blank : Option String → Bool
blank none = true
blank (some s) = str_eq s ""

-- marker in text
abbrev pub contains : String → String → Bool
contains text marker = leb (find text marker) (len text)

-- timestamp.replace(second=0, microsecond=0) is the start of its minute.
unfoldable pub floor_to_resolution : ℕ → Resolution → ℕ
unfolding replace
floor_to_resolution ts res_1min = ts / minute_micros * minute_micros
floor_to_resolution ts res_15min =
    replace ts (ts / hour_micros % 24) (ts / minute_micros % 60 / 15 * 15)
floor_to_resolution ts res_1h = replace ts (ts / hour_micros % 24) 0

-- The exception of require_live_observed_source; the mode at the end of its text is left out.
abbrev refused_mode : String → Exc
refused_mode source_layer =
    value_error (str_append "live serving requires live_observed source_layer, got " source_layer)

-- The body of classify_source_mode after `normalized = ...`; the layers of the table are in lower
-- case already.
unfoldable pub classified : String → String → Result SourceMode
classified normalized source_layer =
    if str_eq normalized ""
    then raises (value_error "source_layer is required")
    else if any (contains normalized) reference_source_layers
    then ok reference_backfill
    else if among normalized observed_source_layers
        || starts_with normalized "live."
        || starts_with normalized "canonical."
    then ok live_observed
    else raises (value_error (str_append "unknown source_layer: " source_layer))

module _ (fold : String → String) where
  unfoldable pub classify_source_mode : String → Result SourceMode
  unfolding classified
  classify_source_mode source_layer = classified (fold source_layer) source_layer

  -- source_mode is not None and source_mode != inferred
  abbrev pub other_mode : Option SourceMode → SourceMode → Bool
  other_mode none inferred = false
  other_mode (some mode) inferred = not (same_mode mode inferred)

  unfoldable pub is_live_observed_source : String → Option SourceMode → Bool
  unfolding classify_source_mode
  is_live_observed_source source_layer source_mode = elim (classify_source_mode source_layer) [
    | raises e ↦ false
    | ok inferred ↦
        if other_mode source_mode inferred then false else same_mode inferred live_observed
  ]

  -- The message reads the mode, and classifies the layer again if there is none.
  unfoldable pub require_live_observed_source : String → Option SourceMode → Result (Unit {0})
  unfolding is_live_observed_source classify_source_mode
  require_live_observed_source source_layer source_mode =
      if is_live_observed_source source_layer source_mode then ok tt else elim source_mode [
        | some mode ↦ raises (refused_mode source_layer)
        | none ↦ elim (classify_source_mode source_layer) [
          | raises e ↦ raises e
          | ok mode ↦ raises (refused_mode source_layer)
        ]
      ]
