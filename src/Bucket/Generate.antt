-- ===== src/Bucket/Generate.antt =====
-- What `generate_expected_buckets` returns: when it raises, and which buckets it gives.
use native.Mathlib.Nat.{div-add-mod'}
use skn25_final_4team.Prelude.{
  ℕ, suc, ◌+◌, ◌-◌, ◌*◌, ◌/◌, ◌%◌, ◌≤◌, ◌<◌, ◌≡◌, refl, ◌↔◌, Bool, true, false, not, ◌&&◌, ◌||◌,
  List, arith, ltb, leb, ◌==◌, str_eq, Result, ok, raises, is_ok, All, inl, inr, Result-cases,
  Bool-cases, sym, ap, ◌∙◌, leb→le,
}
use skn25_final_4team.Bucket.{
  DateTime, naive, aware, CadenceClass, ExpectedBucket, BucketRequest, is_structural,
  is_native_5min, micros_per_second, next_boundary, max_datetime, bucket_loop, resolve_cadence,
  generate_expected_buckets,
}
use skn25_final_4team.Bucket.Grid.{
  has_ts, next_boundary_bounds, grid_loop, bucket_loop-grid, bucket_loop-is_ok, Increasing,
  grid_loop-Increasing, grid_loop-All, grid_sound, grid_complete,
}

-- The request names a cadence, or leaves it to be inferred, that has expected buckets.
abbrev periodic_with : Result CadenceClass → ℕ → ℕ → Bool
periodic_with (ok c) source target =
    not (is_structural c) && not (is_native_5min c && ltb target source)
periodic_with (raises e) source target = false

abbrev pub is_periodic : BucketRequest → Bool
is_periodic r =
    periodic_with (resolve_cadence r.cadence_class r.source_native_interval_seconds)
      r.source_native_interval_seconds r.target_grain_seconds

abbrev pub step_of : BucketRequest → ℕ
step_of r = r.target_grain_seconds * micros_per_second

abbrev make : BucketRequest → CadenceClass → ℕ → ExpectedBucket
make r c ts = record {
  meter_urn = r.meter_urn;
  measurement = r.measurement;
  bucket_ts = ts;
  expected_points = r.target_grain_seconds / r.source_native_interval_seconds;
  cadence_class = c;
}

-- A bucket of the request's series, which the native interval fills exactly.
abbrev pub Fills : BucketRequest → ExpectedBucket → Type 0
Fills r b =
    (b.meter_urn ≡ r.meter_urn)
    × (b.measurement ≡ r.measurement)
    × (b.expected_points * r.source_native_interval_seconds ≡ r.target_grain_seconds)

-- A successful call for a periodic request, taken apart.
record Ran (r : BucketRequest) (start stop : ℕ) (c : CadenceClass) (bs : List ExpectedBucket)
    : Type 0 where
  ordered : start < stop
  source_positive : 0 < r.source_native_interval_seconds
  target_positive : 0 < r.target_grain_seconds
  divides : r.target_grain_seconds % r.source_native_interval_seconds ≡ 0
  result :
      bs
      ≡ grid_loop
          (suc ((stop - next_boundary start (step_of r)) / step_of r))
          (make r c)
          (next_boundary start (step_of r))
          stop
          (step_of r)

module _ (r : BucketRequest) (bs : List ExpectedBucket) (start stop : ℕ)
    (starts : r.start_ts ≡ aware start) (ends : r.end_ts ≡ aware stop)
    (returned : generate_expected_buckets r ≡ ok bs) (periodic : is_periodic r ≡ true) where
  taken_apart :
      (c : CadenceClass)
      → resolve_cadence r.cadence_class r.source_native_interval_seconds ≡ ok c
      → Ran r start stop c bs
  unfolding generate_expected_buckets
  taken_apart c e = record {
    ordered = ground arith;
    source_positive = ground arith;
    target_positive = ground arith;
    divides = ground arith;
    result =
        bucket_loop-grid (make r c) stop (step_of r)
          (suc ((stop - next_boundary start (step_of r)) / step_of r))
          (next_boundary start (step_of r)) bs (ground arith);
  }

  cadence_of :
      (c : CadenceClass) × (resolve_cadence r.cadence_class r.source_native_interval_seconds ≡ ok c)
  cadence_of =
      elim (Result-cases (resolve_cadence r.cadence_class r.source_native_interval_seconds)) [
        | inl found ↦ found
        | inr failed ↦ absurd (ground arith)
      ]

  pub request_positive : 0 < r.target_grain_seconds
  request_positive = let (c, e) = cadence_of in (taken_apart c e).target_positive

  -- A successful call for a series with a period returns a bucket at an instant exactly when the
  -- instant lies in the half-open interval and is a multiple of the grain: no boundary of the grid
  -- is left out, and nothing off the grid or outside the interval is made up.
  pub generate-covers :
      (t : ℕ) → (has_ts t bs ≡ true) ↔ ((start ≤ t) × (t < stop) × (t % step_of r ≡ 0))
  generate-covers t =
      let (c, e) = cadence_of in
      let ran = taken_apart c e in
      let positive : 0 < step_of r = omega (arith, ran.target_positive) in
      rw ran.result (
        grid_sound (make r c) (λ ts. refl) start stop (step_of r) positive t,
        λ (low, high, on).
            grid_complete (make r c) (λ ts. refl) start stop (step_of r) positive t low high on,
      )

  -- The buckets of a successful call for a series with a period come in strictly increasing order
  -- of time, so no instant has two of them, and each has the identity of the request and as many
  -- expected points as make the source's native interval fill the bucket exactly.
  pub generate-buckets : Increasing start bs × All (Fills r) bs
  generate-buckets =
      let (c, e) = cadence_of in
      let ran = taken_apart c e in
      let positive : 0 < step_of r = omega (arith, ran.target_positive) in
      rw ran.result (
        grid_loop-Increasing (make r c) (λ ts. refl) stop (step_of r) positive _ start
            (next_boundary start (step_of r)) (next_boundary_bounds start (step_of r) positive).0,
        grid_loop-All (Fills r) (make r c) (λ ts. (refl, refl, exact ran.divides)) _ _ stop
            (step_of r),
      )
    where
      exact :
          r.target_grain_seconds % r.source_native_interval_seconds ≡ 0
          → r.target_grain_seconds / r.source_native_interval_seconds
              * r.source_native_interval_seconds
            ≡ r.target_grain_seconds
      exact d =
          omega (arith, d, div-add-mod' r.target_grain_seconds r.source_native_interval_seconds)

-- The instants of two datetimes are in order, and both are aware.
abbrev in_order : DateTime → DateTime → Bool
in_order (aware start) (aware stop) = ltb start stop
in_order _ _ = false

-- What the cadence asks of the two intervals.
abbrev divisible : Result CadenceClass → ℕ → ℕ → Bool
divisible (ok c) source target =
    is_structural c
    || (is_native_5min c && ltb target source)
    || (leb source target && target % source == 0)
divisible (raises e) source target = false

abbrev pub is_valid : BucketRequest → Bool
is_valid r =
    not (str_eq r.meter_urn "")
    && not (str_eq r.measurement "")
    && in_order r.start_ts r.end_ts
    && ltb 0 r.source_native_interval_seconds
    && ltb 0 r.target_grain_seconds
    && divisible (resolve_cadence r.cadence_class r.source_native_interval_seconds)
        r.source_native_interval_seconds r.target_grain_seconds

-- There is room for one grain more between the end and the last instant that a datetime has.
abbrev pub has_room : BucketRequest → DateTime → Bool
has_room r naive = true
has_room r (aware stop) = leb (stop + step_of r) max_datetime

module _ (r : BucketRequest) (start stop : ℕ) (starts : r.start_ts ≡ aware start)
    (ends : r.end_ts ≡ aware stop) (room : leb (stop + step_of r) max_datetime ≡ true) where
  first_in_range :
      ltb start stop ≡ true
      → ltb 0 r.target_grain_seconds ≡ true
      → leb (next_boundary start (step_of r)) max_datetime ≡ true
  first_in_range ordered positive =
      let big : 0 < step_of r = ground (arith, positive) in
      ground (arith, (next_boundary_bounds start (step_of r) big).1, room, ordered)

  refused : is_valid r ≡ false → is_ok (generate_expected_buckets r) ≡ false
  unfolding generate_expected_buckets
  refused bad = ground arith

  runs :
      (c : CadenceClass)
      → is_valid r ≡ true
      → resolve_cadence r.cadence_class r.source_native_interval_seconds ≡ ok c
      → (is_structural c
          || is_native_5min c && ltb r.target_grain_seconds r.source_native_interval_seconds)
        ≡ false
      → leb (next_boundary start (step_of r)) max_datetime ≡ true
      → generate_expected_buckets r
        ≡ bucket_loop
            (suc ((stop - next_boundary start (step_of r)) / step_of r))
            (make r c)
            (next_boundary start (step_of r))
            stop
            (step_of r)
  unfolding generate_expected_buckets
  runs c valid resolved periodic fits = ground arith

  empty :
      (c : CadenceClass)
      → is_valid r ≡ true
      → resolve_cadence r.cadence_class r.source_native_interval_seconds ≡ ok c
      → (is_structural c
          || is_native_5min c && ltb r.target_grain_seconds r.source_native_interval_seconds)
        ≡ true
      → is_ok (generate_expected_buckets r) ≡ true
  unfolding generate_expected_buckets
  empty c valid resolved aperiodic = ground arith

  timed-is_ok : is_ok (generate_expected_buckets r) ≡ is_valid r
  timed-is_ok = elim (Bool-cases (is_valid r)) [
    | inr bad ↦ refused bad ∙ sym bad
    | inl valid ↦
        elim (Result-cases (resolve_cadence r.cadence_class r.source_native_interval_seconds)) [
          | inr (x, failed) ↦ absurd (ground arith)
          | inl (c, resolved) ↦
              elim (Bool-cases (
                is_structural c
                || is_native_5min c
                  && ltb r.target_grain_seconds r.source_native_interval_seconds)) [
                    | inl aperiodic ↦ empty c valid resolved aperiodic ∙ sym valid
                    | inr periodic ↦
                        let fits = first_in_range (ground arith) (ground arith) in
                        ap is_ok (runs c valid resolved periodic fits)
                        ∙ bucket_loop-is_ok (make r c) stop (step_of r) (leb→le _ _ room) _ _
                        ∙ sym valid
                  ]
        ]
  ]

-- For a request whose end leaves room for one more grain before the end of the year 9999, the call
-- returns exactly when both names are non-empty, both ends are aware and in order, both intervals are
-- positive, and the cadence, inferred if it is not named, either expects no bucket or divides the
-- grain; in every other case it raises.
pub generate-is_ok :
    (r : BucketRequest)
    → has_room r r.end_ts ≡ true
    → is_ok (generate_expected_buckets r) ≡ is_valid r
unfolding generate_expected_buckets
generate-is_ok r room = by_times r.start_ts r.end_ts refl refl room
  where
    by_times :
        (a b : DateTime)
        → r.start_ts ≡ a
        → r.end_ts ≡ b
        → has_room r b ≡ true
        → is_ok (generate_expected_buckets r) ≡ is_valid r
    by_times naive b starts ends room = ground arith
    by_times (aware start) naive starts ends room = ground arith
    by_times (aware start) (aware stop) starts ends room = timed-is_ok r start stop starts ends room
