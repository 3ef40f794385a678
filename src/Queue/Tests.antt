-- ===== src/Queue/Tests.antt =====
-- A queue of three rows and the minutes of one bucket.
use skn25_final_4team.Prelude.{
  ℕ, ◌+◌, ◌*◌, ◌/◌, ◌≤◌, ◌≡◌, refl, false, none, List, [], ◌∷◌, ltb, leb, keep, length, arith,
}
use skn25_final_4team.Live.{mean_rollup, peak_feature, res_15min, res_1h}
use skn25_final_4team.Live.Coverage.{WorkerFloats}
use skn25_final_4team.Queue.{QueueRow, Claim, pending, done, claimable, claimable_ids}
use skn25_final_4team.Queue.Stats.{MinuteRow, in_bucket, bucket_stats}
use skn25_final_4team.Queue.Outputs.{Tables, LiveBucketQueueWorkerResult, run, counts}
use skn25_final_4team.Queue.Drain.{passes, passes-drain}
use skn25_final_4team.Queue.Sums.{repeated, bucket_stats-repeated, counts-bounded}

abbrev percent : WorkerFloats
percent = record {
  Float = ℕ;
  is_nan = λ x. false;
  ratio = λ a b. a * 100 / b;
  clamp = λ x. x;
  of_nat = λ n. n * 100;
  less = ltb;
  at_most = leb;
  mean = λ l. 0;
  deviation = λ l. 0;
}

abbrev mean_row : QueueRow
mean_row = record {
  queue_id = 1;
  meter_urn = "m1";
  measurement = "kw";
  resolution = res_15min;
  bucket_ts = 0;
  job_kind = mean_rollup;
  policy_version = 1;
  status = pending;
  locked_by = none;
  last_error = none;
}

abbrev three_rows : List QueueRow
three_rows =
    record mean_row { queue_id = 2; resolution = res_1h }
    ∷ mean_row
    ∷ record mean_row { queue_id = 3; job_kind = peak_feature; status = done }
    ∷ []

abbrev one_at_a_time : Claim
one_at_a_time = record {
  job_specs = (mean_rollup, res_15min) ∷ (mean_rollup, res_1h) ∷ [];
  max_bucket_ts = none;
  batch_size = 1;
}

-- The bucket that started first goes first, and of those the row that was queued first.
first_id : claimable_ids (λ id. false) one_at_a_time three_rows ≡ 1 ∷ []
unfolding claimable_ids
first_id = refl

passes-drain_example :
    keep (claimable (λ id. false) one_at_a_time) (passes (λ id. false) one_at_a_time 2 three_rows)
    ≡ []
passes-drain_example =
    passes-drain (λ id. false) one_at_a_time 2 three_rows (omega arith) (omega arith)

-- Two minutes; the second one was read from two events.
abbrev two_minutes : List MinuteRow
two_minutes =
    record {
      meter_urn = "m1";
      measurement = "kw";
      policy_version = 1;
      bucket_ts = 0;
      expected_points = 1;
      observed_points = 1;
      gap_points = 0;
      source_event_ids = "a" ∷ [];
    }
    ∷ record {
      meter_urn = "m1";
      measurement = "kw";
      policy_version = 1;
      bucket_ts = 60_000_000;
      expected_points = 1;
      observed_points = 1;
      gap_points = 0;
      source_event_ids = "b" ∷ "c" ∷ [];
    }
    ∷ []

three_expected : (bucket_stats percent two_minutes mean_row).expected_points ≡ 3
unfolding bucket_stats
three_expected = refl

bucket_stats-repeated_example :
    ((bucket_stats percent two_minutes mean_row).expected_points
      ≡ repeated (λ m. m.expected_points) (keep (in_bucket mean_row) two_minutes))
    × ((bucket_stats percent two_minutes mean_row).observed_points
        ≡ repeated (λ m. m.observed_points) (keep (in_bucket mean_row) two_minutes))
    × ((bucket_stats percent two_minutes mean_row).gap_points
        ≡ repeated (λ m. m.gap_points) (keep (in_bucket mean_row) two_minutes))
bucket_stats-repeated_example = bucket_stats-repeated percent two_minutes mean_row

abbrev tables : Tables percent
tables = record {
  queue = three_rows;
  minutes = two_minutes;
  mean_15min = [];
  mean_1h = [];
  checks = [];
}

abbrev counted : LiveBucketQueueWorkerResult
counted = counts percent (λ id. false) one_at_a_time 50 tables

counts-bounded_example :
    (counted.claimed_count ≤ 1)
    × (counted.mean_rollup_count + counted.peak_feature_count ≤ counted.claimed_count)
    × (counted.completed_count ≡ counted.claimed_count)
    × (length (
            keep
              (claimable (λ id. false) one_at_a_time)
              (run percent (λ id. false) one_at_a_time 50 tables).queue)
          + counted.completed_count
        ≡ length (keep (claimable (λ id. false) one_at_a_time) tables.queue))
    × (length (run percent (λ id. false) one_at_a_time 50 tables).checks
        ≡ length tables.checks + counted.promotion_check_count)
    × (counted.promotion_check_count ≡ counted.claimed_count)
counts-bounded_example =
    counts-bounded percent (λ id. false) one_at_a_time 50 tables (refl, (refl, (refl, tt)))
