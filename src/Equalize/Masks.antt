-- ===== src/Equalize/Masks.antt =====
-- What the mask of a row says of its gap.
use native.Mathlib.Nat.{div-add-mod'}
use skn25_final_4team.Prelude.{
  ℕ, zero, suc, ◌+◌, ◌-◌, ◌*◌, ◌/◌, ◌%◌, ◌≤◌, ◌≡◌, ◌↔◌, Option, none, some, List, [], ◌∷◌, arith,
  All, ok, ◌>>=◌, >>=-eq-ok,
}
use skn25_final_4team.Equalize.{
  Floats, LiveHarmonizedEvent, SeriesCadencePolicy, EqualizedRow, bucket_quality, mask_code,
  target_grain_of, target_grain_minutes, expected_points_per_bucket, minute_micros, derived_grain,
}
use skn25_final_4team.Equalize.Series.{
  targets, bucket_events, make_row, bucket_rows, equalize_series,
}

quotient-positive : (a n : ℕ) → 1 ≤ a → a % n ≡ 0 → 1 ≤ n → 1 ≤ a / n
quotient-positive a (suc n) some_a divides positive =
    by_quotient (a / suc n) (div-add-mod' a (suc n))
  where
    by_quotient : (q : ℕ) → q * suc n + a % suc n ≡ a → 1 ≤ q
    by_quotient zero h = omega arith
    by_quotient (suc q) h = omega arith
quotient-positive a zero some_a divides positive = omega arith

-- A policy that is accepted expects at least one point in a bucket.
expected-positive :
    (p : SeriesCadencePolicy) (g x : ℕ)
    → target_grain_minutes p ≡ ok g
    → expected_points_per_bucket p g ≡ ok x
    → 1 ≤ x
unfolding target_grain_of expected_points_per_bucket derived_grain
expected-positive p g x grain expected =
    let native : 1 ≤ p.native_interval_seconds = ground arith in
    let some_grain : 1 ≤ g =
      grain-positive p.native_interval_seconds p.target_grain_minutes g grain in
    let divides : g * 60 % p.native_interval_seconds ≡ 0 = ground arith in
    let same : g * 60 / p.native_interval_seconds ≡ x = ground arith in
    rw same at (quotient-positive (g * 60) p.native_interval_seconds (omega arith) divides native)
  where
    grain-positive : (s : ℕ) (o : Option ℕ) (n : ℕ) → target_grain_of s o ≡ ok n → 1 ≤ n
    grain-positive s none n h = ground arith
    grain-positive s (some m) n h = ground arith

module _ (F : Floats) where
  -- The mask of a row is none just if it has no gap.
  abbrev pub Masks : EqualizedRow F → Type 0
  Masks r = (r.mask_code ≡ none) ↔ (r.gap_points ≡ 0)

  make_row-Masks :
      (first : LiveHarmonizedEvent F) (es : List (LiveHarmonizedEvent F)) (p : SeriesCadencePolicy)
      (g x t : ℕ)
      → 1 ≤ x
      → Masks (make_row F first es p g x t)
  unfolding make_row bucket_quality mask_code
  make_row-Masks first es p g x t positive = ground arith

  bucket_rows-Masks :
      (first : LiveHarmonizedEvent F) (es : List (LiveHarmonizedEvent F)) (p : SeriesCadencePolicy)
      (g x start stop : ℕ)
      → 1 ≤ x
      → (ts : List ℕ) → All Masks (bucket_rows F first es p g x start stop ts)
  unfolding bucket_rows
  bucket_rows-Masks first es p g x start stop positive [] = tt
  bucket_rows-Masks first es p g x start stop positive (t ∷ ts) = (
    make_row-Masks first (bucket_events F es start stop g t) p g x t positive,
    bucket_rows-Masks first es p g x start stop positive ts,
  )

  -- Whatever the events, the window and the policy, a row that equalize_series returns has no mask
  -- just if none of its expected points is missing.
  pub equalize_series-Masks :
      (events : List (LiveHarmonizedEvent F)) (start stop : ℕ) (p : SeriesCadencePolicy)
      (rows : List (EqualizedRow F))
      → equalize_series F events start stop p ≡ ok rows
      → All Masks rows
  unfolding equalize_series
  equalize_series-Masks [] start stop p rows h =
      let same : [] ≡ rows = ground arith in rw (← same) tt
  equalize_series-Masks (e ∷ es) start stop p rows h =
      let (g, grain, h1) =
        >>=-eq-ok (target_grain_minutes p)
          (λ g. expected_points_per_bucket p g >>= λ x. ok (
            bucket_rows F e (e ∷ es) p g x start stop
              (targets (stop - start) start stop (g * minute_micros))))
          h in
      let (x, expected, h2) =
        >>=-eq-ok (expected_points_per_bucket p g)
          (λ x. ok (
            bucket_rows F e (e ∷ es) p g x start stop
              (targets (stop - start) start stop (g * minute_micros))))
          h1 in
      let same : bucket_rows F e (e ∷ es) p g x start stop
            (targets (stop - start) start stop (g * minute_micros))
          ≡ rows =
        ground arith in
      rw same at (
        bucket_rows-Masks e (e ∷ es) p g x start stop (expected-positive p g x grain expected)
          (targets (stop - start) start stop (g * minute_micros)))
