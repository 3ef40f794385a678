-- ===== src/Queue/Stats.antt =====
-- src/cms/data/live_bucket_queue_runner.py: source_1min and the sums of bucket_stats.
use skn25_final_4team.Prelude.{
  ℕ, ◌+◌, String, Bool, ◌&&◌, Option, none, some, List, [], ◌∷◌, ◌++◌, map, ltb, leb, ◌==◌, str_eq,
  keep, if◌then◌else◌,
}
use skn25_final_4team.Live.Coverage.{WorkerFloats}
use skn25_final_4team.Queue.{QueueRow, bucket_end}

-- A row of live.measurement_1min with resolution '1min'; the value is read by statistics alone.
pub record MinuteRow : Type 0 where
  pub meter_urn : String
  pub measurement : String
  pub policy_version : ℕ
  pub bucket_ts : ℕ
  pub expected_points : ℕ
  pub observed_points : ℕ
  pub gap_points : ℕ
  pub source_event_ids : List String

-- The ON clause of source_1min.
abbrev pub in_bucket : QueueRow → MinuteRow → Bool
in_bucket l m =
    str_eq m.meter_urn l.meter_urn
    && (str_eq m.measurement l.measurement
        && (m.policy_version == l.policy_version
            && (leb l.bucket_ts m.bucket_ts
                && ltb m.bucket_ts (bucket_end l.resolution l.bucket_ts))))

-- LEFT JOIN LATERAL unnest(s.source_event_ids) ON TRUE: one row for each id, or one without an id.
unfoldable pub unnest : MinuteRow → List String → List (MinuteRow × Option String)
unnest m [] = (m, none) ∷ []
unnest m (id ∷ ids) = map (λ i. (m, some i)) (id ∷ ids)

unfoldable pub joined : List MinuteRow → List (MinuteRow × Option String)
unfolding unnest
joined [] = []
joined (m ∷ rest) = unnest m m.source_event_ids ++ joined rest

-- COALESCE(sum(...), 0)
unfoldable pub sum_over : (MinuteRow → ℕ) → List (MinuteRow × Option String) → ℕ
sum_over points [] = 0
sum_over points ((m, id) ∷ rest) = points m + sum_over points rest

module _ (W : WorkerFloats) where
  pub record BucketStats : Type 0 where
    pub row : QueueRow
    pub expected_points : ℕ
    pub observed_points : ℕ
    pub gap_points : ℕ
    pub coverage_ratio : W.Float

  unfoldable pub bucket_stats : List MinuteRow → QueueRow → BucketStats
  unfolding joined sum_over
  bucket_stats minutes l =
      let source = joined (keep (in_bucket l) minutes) in
      let expected = sum_over (λ m. m.expected_points) source in
      let seen = sum_over (λ m. m.observed_points) source in
      record {
        row = l;
        expected_points = expected;
        observed_points = seen;
        gap_points = sum_over (λ m. m.gap_points) source;
        coverage_ratio = if ltb 0 expected then W.clamp (W.ratio seen expected) else W.of_nat 0;
      }
