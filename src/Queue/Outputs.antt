-- ===== src/Queue/Outputs.antt =====
-- src/cms/data/live_bucket_queue_runner.py: the tables that a pass writes, and its count row.
use skn25_final_4team.Prelude.{
  ℕ, ◌+◌, String, Bool, ◌&&◌, List, [], ◌∷◌, ◌++◌, map, ◌==◌, any, str_eq, keep, length,
  if◌then◌else◌,
}
use skn25_final_4team.Live.{
  JobKind, mean_rollup, peak_feature, Resolution, res_15min, res_1h, same_spec,
  live_measurement_15min, live_measurement_1h, mart_peak_feature_15min,
}
use skn25_final_4team.Live.Coverage.{WorkerFloats}
use skn25_final_4team.Queue.{QueueRow, Claim, locked, pass}
use skn25_final_4team.Queue.Stats.{MinuteRow, BucketStats, bucket_stats}

-- A row of live.promotion_check.
pub record PromotionCheck : Type 0 where
  pub source_table : String
  pub meter_urn : String
  pub measurement : String
  pub resolution : Resolution
  pub bucket_ts : ℕ
  pub policy_version : ℕ
  pub passes : Bool
  pub block_reasons : List String

pub record LiveBucketQueueWorkerResult : Type 0 where
  pub claimed_count : ℕ
  pub mean_rollup_count : ℕ
  pub peak_feature_count : ℕ
  pub promotion_check_count : ℕ
  pub completed_count : ℕ

abbrev check_source : JobKind → Resolution → String
check_source peak_feature resolution = mart_peak_feature_15min
check_source mean_rollup res_1h = live_measurement_1h
check_source mean_rollup _ = live_measurement_15min

-- UPDATE live.bucket_queue ... RETURNING q.queue_id: the rows that have a row of `locked` by queue_id.
unfoldable pub completed : List QueueRow → List QueueRow → List QueueRow
completed rows queue = keep (λ q. any (λ l. q.queue_id == l.queue_id) rows) queue

module _ (W : WorkerFloats) where
  abbrev spec_of : BucketStats W → JobKind × Resolution
  spec_of s = (s.row.job_kind, s.row.resolution)

  -- The rows that an INSERT ... SELECT of one branch takes: those of its job kind and resolution.
  unfoldable pub branch : JobKind × Resolution → List (BucketStats W) → List (BucketStats W)
  branch spec stats = keep (λ s. same_spec (spec_of s) spec) stats

  -- ON CONFLICT (meter_urn, measurement, resolution, bucket_ts, policy_version)
  abbrev same_bucket : BucketStats W → BucketStats W → Bool
  same_bucket a b =
      str_eq a.row.meter_urn b.row.meter_urn
      && (str_eq a.row.measurement b.row.measurement
          && (a.row.bucket_ts == b.row.bucket_ts && a.row.policy_version == b.row.policy_version))

  -- DO UPDATE SET, or an insert
  unfoldable pub upsert : BucketStats W → List (BucketStats W) → List (BucketStats W)
  upsert s [] = s ∷ []
  upsert s (old ∷ rest) =
      let later = upsert s rest in if same_bucket old s then s ∷ rest else old ∷ later

  unfoldable pub upsert_all : List (BucketStats W) → List (BucketStats W) → List (BucketStats W)
  unfolding upsert
  upsert_all [] table = table
  upsert_all (s ∷ rest) table = upsert_all rest (upsert s table)

  unfoldable pub promotion_check : W.Float → BucketStats W → PromotionCheck
  promotion_check min_coverage s =
      let pass = W.at_most min_coverage s.coverage_ratio in
      record {
        source_table = check_source s.row.job_kind s.row.resolution;
        meter_urn = s.row.meter_urn;
        measurement = s.row.measurement;
        resolution = s.row.resolution;
        bucket_ts = s.row.bucket_ts;
        policy_version = s.row.policy_version;
        passes = pass;
        block_reasons = if pass then [] else "coverage_below_threshold" ∷ [];
      }

  pub record Tables : Type 0 where
    pub queue : List QueueRow
    pub minutes : List MinuteRow
    pub mean_15min : List (BucketStats W)
    pub mean_1h : List (BucketStats W)
    pub checks : List PromotionCheck

  abbrev stats_of : (ℕ → Bool) → Claim → Tables → List (BucketStats W)
  unfolding bucket_stats locked
  stats_of busy c t = map (bucket_stats W t.minutes) (locked busy c t.queue)

  -- The tables after the statement; mart.peak_feature_15min is left out.
  unfoldable pub run : (ℕ → Bool) → Claim → W.Float → Tables → Tables
  unfolding branch upsert_all promotion_check pass locked bucket_stats
  run busy c min_coverage t = record t {
    queue = pass busy c t.queue;
    mean_15min = upsert_all (branch (mean_rollup, res_15min) (stats_of busy c t)) t.mean_15min;
    mean_1h = upsert_all (branch (mean_rollup, res_1h) (stats_of busy c t)) t.mean_1h;
    checks = t.checks ++ map (promotion_check min_coverage) (stats_of busy c t);
  }

  -- The row of counts: an upsert returns a row for every row that it takes.
  unfoldable pub counts : (ℕ → Bool) → Claim → W.Float → Tables → LiveBucketQueueWorkerResult
  unfolding branch promotion_check locked bucket_stats completed
  counts busy c min_coverage t =
      let stats = stats_of busy c t in
      record {
        claimed_count = length (locked busy c t.queue);
        mean_rollup_count =
            length (branch (mean_rollup, res_15min) stats)
            + length (branch (mean_rollup, res_1h) stats);
        peak_feature_count = length (branch (peak_feature, res_15min) stats);
        promotion_check_count = length (map (promotion_check min_coverage) stats);
        completed_count = length (completed (locked busy c t.queue) t.queue);
      }
