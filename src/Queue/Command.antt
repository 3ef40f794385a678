-- ===== src/Queue/Command.antt =====
-- src/cms/data/live_bucket_queue_runner.py: the checks that a worker command is built with, and the
-- count row of its result.
use skn25_final_4team.Prelude.{
  ℕ, String, Bool, true, false, not, ◌&&◌, Option, none, some, List, [], ◌∷◌, ltb, str_eq, any,
  keep, if◌then◌else◌, value_error, Result, ok, require, ◌>>=◌, ◌>>◌,
}
use skn25_final_4team.Live.{
  JobKind, mean_rollup, peak_feature, Resolution, res_1min, res_15min, res_1h,
  allowed_queue_job_specs, among, canonical_tables, live_bucket_queue, live_measurement_1min,
  live_measurement_15min, live_measurement_1h, mart_peak_feature_15min, live_promotion_check,
}
use skn25_final_4team.Live.Coverage.{WorkerFloats}

abbrev pub allowed_output_tables : List String
allowed_output_tables =
    live_measurement_15min ∷ live_measurement_1h ∷ mart_peak_feature_15min ∷ live_promotion_check
    ∷ []

-- The SQL text is a function of job_specs, and its parameters are the last four fields.
pub record LiveBucketQueueWorkerCommand (W : WorkerFloats) : Type 0 where
  pub source_table : String
  pub source_detail_table : String
  pub output_tables : List String
  pub job_specs : List (JobKind × Resolution)
  pub batch_size : ℕ
  pub worker_id : String
  pub min_coverage_ratio : W.Float
  pub max_bucket_ts : Option ℕ

abbrev pub is_empty {ℓ} : {A : Type ℓ} → List A → Bool
is_empty [] = true
is_empty (a ∷ rest) = false

unfoldable pub assert_allowed_worker_outputs : List String → Result (Unit {0})
assert_allowed_worker_outputs output_tables = do
  require (is_empty (keep (λ t. among t canonical_tables) output_tables))
      (value_error "live bucket worker must not write canonical tables")
  require (is_empty (keep (λ t. not (among t allowed_output_tables)) output_tables))
      (value_error "unsupported live bucket worker output tables")

-- None and an empty sequence ask for everything; the elements of the sequence are texts.
unfoldable pub optional_text_set : Option (List String) → Result (Option (List String))
optional_text_set none = ok none
optional_text_set (some values) = do
  require (not (any (λ v. str_eq v "") values))
      (value_error "the filter must contain only non-empty strings")
  ok (if is_empty values then none else some values)

abbrev job_kind_text : JobKind → String
job_kind_text mean_rollup = "mean_rollup"
job_kind_text peak_feature = "peak_feature"

abbrev resolution_text : Resolution → String
resolution_text res_1min = "1min"
resolution_text res_15min = "15min"
resolution_text res_1h = "1h"

abbrev requested : String → Option (List String) → Bool
requested text none = true
requested text (some wanted) = among text wanted

abbrev pub wanted_spec : Option (List String) → Option (List String) → JobKind × Resolution → Bool
wanted_spec kinds resolutions (kind, resolution) =
    requested (job_kind_text kind) kinds && requested (resolution_text resolution) resolutions

unfoldable pub normalize_job_specs :
    Option (List String) → Option (List String) → Result (List (JobKind × Resolution))
unfolding optional_text_set
normalize_job_specs job_kinds resolutions = do
  kinds ← optional_text_set job_kinds
  wanted ← optional_text_set resolutions
  require (not (is_empty (keep (wanted_spec kinds wanted) allowed_queue_job_specs)))
      (value_error "the filters do not match any allowed live.bucket_queue job spec")
  ok (keep (wanted_spec kinds wanted) allowed_queue_job_specs)

-- A datetime's zone is aware or not; strip is str.strip of Python.
module _ (W : WorkerFloats) (strip : String → String) where
  -- __post_init__
  unfoldable pub command_post_init :
      LiveBucketQueueWorkerCommand W → Result (LiveBucketQueueWorkerCommand W)
  unfolding assert_allowed_worker_outputs
  command_post_init c = do
    require (str_eq c.source_table live_bucket_queue)
        (value_error "live bucket worker source_table must be live.bucket_queue")
    require (str_eq c.source_detail_table live_measurement_1min)
        (value_error "live bucket worker source_detail_table must be live.measurement_1min")
    assert_allowed_worker_outputs c.output_tables
    require (not (is_empty c.job_specs))
        (value_error "at least one bucket queue job spec is required")
    ok c

  abbrev pub unaware : Option (ℕ × Bool) → Bool
  unaware none = false
  unaware (some (ts, aware)) = not aware

  abbrev pub instant : Option (ℕ × Bool) → Option ℕ
  instant none = none
  instant (some (ts, aware)) = some ts

  -- The command that is built; the other fields of the source's class have their defaults.
  abbrev pub command_of :
      ℕ
      → String
      → List (JobKind × Resolution)
      → W.Float
      → Option (ℕ × Bool)
      → LiveBucketQueueWorkerCommand W
  command_of batch_size worker_id specs min_coverage max_ts = record {
    source_table = live_bucket_queue;
    source_detail_table = live_measurement_1min;
    output_tables = allowed_output_tables;
    job_specs = specs;
    batch_size = batch_size;
    worker_id = worker_id;
    min_coverage_ratio = min_coverage;
    max_bucket_ts = instant max_ts;
  }

  unfoldable pub make_live_bucket_queue_worker_command :
      ℕ
      → String
      → Option (List String)
      → Option (List String)
      → W.Float
      → Option (ℕ × Bool)
      → Result (LiveBucketQueueWorkerCommand W)
  unfolding normalize_job_specs assert_allowed_worker_outputs command_post_init
  make_live_bucket_queue_worker_command batch_size worker_id job_kinds resolutions min_coverage
        max_ts =
      do
        require (ltb 0 batch_size) (value_error "batch_size must be a positive integer")
        require (not (str_eq (strip worker_id) "")) (value_error "worker_id must be non-empty")
        require (W.at_most (W.of_nat 0) min_coverage && W.at_most min_coverage (W.of_nat 1))
            (value_error "min_coverage_ratio must be between 0 and 1")
        require (not (unaware max_ts)) (value_error "max_bucket_ts must be timezone-aware")
        specs ← normalize_job_specs job_kinds resolutions
        assert_allowed_worker_outputs allowed_output_tables
        command_post_init (command_of batch_size worker_id specs min_coverage max_ts)
