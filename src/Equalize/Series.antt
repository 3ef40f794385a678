-- ===== src/Equalize/Series.antt =====
-- src/cms/data/live_equalization_processor.py: the rows of each series at its own grain.
use skn25_final_4team.Prelude.{
  ℕ, zero, suc, ◌+◌, ◌-◌, ◌*◌, String, str_eq, Bool, true, false, ◌&&◌, Option, none, some, List,
  [], ◌∷◌, ◌++◌, map, ltb, leb, ◌==◌, if◌then◌else◌, value_error, Result, ok, require, ◌>>=◌, ◌>>◌,
  length, keep,
}
use skn25_final_4team.Equalize.{
  Floats, LiveHarmonizedEvent, SeriesCadencePolicy, default_policy, EqualizedRow, series_key,
  target_grain_minutes, expected_points_per_bucket, minute_micros, bucket_start, bucket_quality,
  mask_code, unique_non_null, count_non_null, sorted, key_less,
}

-- target = start; while target < end: ...; target += step. Enough fuel is the width of the window.
unfoldable pub targets : ℕ → ℕ → ℕ → ℕ → List ℕ
targets zero target stop step = []
targets (suc fuel) target stop step = elim (ltb target stop) [
  | true ↦ target ∷ targets fuel (target + step) stop step
  | false ↦ []
]

-- A key of the mapping of policies is a pair of texts or one text.
pub data PolicyKey : Type 0 where
  pair_key : String → String → PolicyKey
  text_key : String → PolicyKey

abbrev pub Policies : Type 0
Policies = List (PolicyKey × SeriesCadencePolicy)

abbrev key_eq : PolicyKey → PolicyKey → Bool
key_eq (pair_key a b) (pair_key c d) = str_eq a c && str_eq b d
key_eq (text_key a) (text_key b) = str_eq a b
key_eq (pair_key a b) (text_key c) = false
key_eq (text_key a) (pair_key c d) = false

-- policies.get(key, default)
unfoldable pub policy_get : PolicyKey → SeriesCadencePolicy → Policies → SeriesCadencePolicy
policy_get key default [] = default
policy_get key default ((k, p) ∷ rest) = if key_eq k key then p else policy_get key default rest

module _ (F : Floats) where
  abbrev Event : Type 0
  Event = LiveHarmonizedEvent F

  -- sum(values) / len(events), the sum taken from the left; NaN without events
  unfoldable pub mean_value : List Event → F.Float
  mean_value [] = F.nan
  mean_value (e ∷ es) = F.over (sum_from (F.of_nat 0) (e ∷ es)) (length (e ∷ es))
    where
      sum_from : F.Float → List Event → F.Float
      sum_from s [] = s
      sum_from s (x ∷ xs) = sum_from (F.plus s x.value) xs

  -- The list of events_by_bucket under the key `target`.
  unfoldable pub bucket_events : List Event → ℕ → ℕ → ℕ → ℕ → List Event
  unfolding bucket_start
  bucket_events events start stop grain target =
      keep
        (λ e.
          leb start e.timestamp && ltb e.timestamp stop && bucket_start e.timestamp grain == target)
        events

  abbrev or_first : Event → List Event → List Event
  or_first first [] = first ∷ []
  or_first first (e ∷ es) = e ∷ es

  abbrev some_ids : List Event → List String
  some_ids [] = []
  some_ids (e ∷ es) = elim e.source_event_id [ some id ↦ id ∷ some_ids es | none ↦ some_ids es ]

  -- The row of one bucket of the series of `first`.
  unfoldable pub make_row : Event → List Event → SeriesCadencePolicy → ℕ → ℕ → ℕ → EqualizedRow F
  unfolding mean_value bucket_quality mask_code
  make_row first events policy grain expected target =
      let points = length events in
      let origin = or_first first events in
      record {
        meter_urn = first.meter_urn;
        measurement = first.measurement;
        timestamp = target;
        value = mean_value events;
        quality = bucket_quality points expected;
        mask_code = mask_code (bucket_quality points expected);
        expected_points = expected;
        observed_points = points;
        gap_points = expected - points;
        coverage_ratio =
            if expected == 0 then F.of_nat 0 else F.least (F.ratio points expected) (F.of_nat 1);
        source_event_ids = some_ids events;
        grain_minutes = grain;
        source_native_interval_seconds = policy.native_interval_seconds;
        cadence_policy_id = policy.cadence_policy_id;
        aggregation_policy = policy.aggregation_policy;
        timestamp_policy_ids = unique_non_null (map (λ (e : Event). e.timestamp_policy_id) origin);
        source_timezones = unique_non_null (map (λ (e : Event). e.source_timezone) origin);
        source_ts_columns = unique_non_null (map (λ (e : Event). e.source_ts_column) origin);
        source_ts_raw_samples = unique_non_null (map (λ (e : Event). e.source_ts_raw) events);
        timestamp_quality_summary =
            count_non_null (map (λ (e : Event). e.timestamp_quality_code) events);
        timestamp_origin_rules =
            unique_non_null (map (λ (e : Event). e.timestamp_origin_rule) origin);
      }

  -- The rows of the loop, one for each target.
  unfoldable pub bucket_rows :
      Event → List Event → SeriesCadencePolicy → ℕ → ℕ → ℕ → ℕ → List ℕ → List (EqualizedRow F)
  unfolding make_row bucket_events
  bucket_rows first events policy grain expected start stop [] = []
  bucket_rows first events policy grain expected start stop (t ∷ ts) =
      make_row first (bucket_events events start stop grain t) policy grain expected t
      ∷ bucket_rows first events policy grain expected start stop ts

  unfoldable pub equalize_series :
      List Event → ℕ → ℕ → SeriesCadencePolicy → Result (List (EqualizedRow F))
  unfolding expected_points_per_bucket targets bucket_rows
  equalize_series [] start stop policy = ok []
  equalize_series (first ∷ events) start stop policy = do
    grain ← target_grain_minutes policy
    expected ← expected_points_per_bucket policy grain
    ok (
        bucket_rows first (first ∷ events) policy grain expected start stop
          (targets (stop - start) start stop (grain * minute_micros)))

  -- grouped[event.series_key].append(event)
  unfoldable pub group_add : Event → List (String × List Event) → List (String × List Event)
  group_add e [] = (series_key e.meter_urn e.measurement, e ∷ []) ∷ []
  group_add e ((k, es) ∷ rest) =
      let later = group_add e rest in
      if str_eq k (series_key e.meter_urn e.measurement)
      then (k, es ++ e ∷ []) ∷ rest
      else (k, es) ∷ later

  abbrev group_from : List (String × List Event) → List Event → List (String × List Event)
  group_from groups [] = groups
  group_from groups (e ∷ es) = group_from (group_add e groups) es

  abbrev earlier : Event → Event → Bool
  earlier a b = ltb a.timestamp b.timestamp

  unfoldable pub group_events : List Event → List (List Event)
  unfolding group_add sorted
  group_events events = map (λ (g : String × List Event). sorted earlier g.1) (group_from [] events)

  unfoldable pub resolve_cadence_policy : Event → Option Policies → SeriesCadencePolicy
  unfolding policy_get
  resolve_cadence_policy e none = default_policy
  resolve_cadence_policy e (some ps) =
      policy_get (pair_key e.meter_urn e.measurement)
        (policy_get (text_key (series_key e.meter_urn e.measurement)) default_policy ps) ps

  abbrev policy_of : List Event → Option Policies → SeriesCadencePolicy
  policy_of [] policies = default_policy
  policy_of (e ∷ es) policies = resolve_cadence_policy e policies

  unfoldable pub equalize_groups :
      List (List Event) → ℕ → ℕ → Option Policies → Result (List (EqualizedRow F))
  unfolding equalize_series resolve_cadence_policy
  equalize_groups [] start stop policies = ok []
  equalize_groups (g ∷ gs) start stop policies = do
    rows ← equalize_series g start stop (policy_of g policies)
    more ← equalize_groups gs start stop policies
    ok (rows ++ more)

  abbrev pub row_key : EqualizedRow F → String × ℕ × ℕ
  row_key r = (series_key r.meter_urn r.measurement, r.grain_minutes, r.timestamp)

  unfoldable pub equalize_with_cadence :
      List Event → ℕ → ℕ → Option Policies → Result (List (EqualizedRow F))
  unfolding group_events equalize_groups sorted
  equalize_with_cadence events start stop policies = do
    require (ltb start stop) (value_error "end must be after start")
    rows ← equalize_groups (group_events events) start stop policies
    ok (sorted (λ a b. key_less (row_key a) (row_key b)) rows)

  unfoldable pub equalize_to_1min :
      List Event → ℕ → ℕ → Option Policies → Result (List (EqualizedRow F))
  unfolding equalize_with_cadence
  equalize_to_1min events start stop policies = do
    rows ← equalize_with_cadence events start stop policies
    ok (keep (λ (r : EqualizedRow F). r.grain_minutes == 1) rows)
