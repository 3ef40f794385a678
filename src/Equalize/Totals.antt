-- ===== src/Equalize/Totals.antt =====
-- The points of a series' rows: each event of the window is counted once, in an aligned window.
use skn25_final_4team.Prelude.{
  ℕ, ◌+◌, ◌-◌, ◌*◌, ◌/◌, ◌≡◌, refl, ap, ◌∙◌, ◌⊎◌, Bool, true, false, ◌&&◌, none, List, [], ◌∷◌,
  arith, ltb, leb, ◌==◌, if◌then◌else◌, length, keep, ok,
}
use skn25_final_4team.Equalize.{
  Floats, LiveHarmonizedEvent, SeriesCadencePolicy, EqualizedRow, bucket_start, target_grain_of,
  target_grain_minutes, expected_points_per_bucket, minute_micros, derived_grain,
}
use skn25_final_4team.Equalize.Grains.{derived_grain-cases}
use skn25_final_4team.Equalize.Windows.{hits, derived-once, derived-never}
use skn25_final_4team.Equalize.Series.{
  targets, bucket_events, make_row, bucket_rows, equalize_series,
}
use skn25_final_4team.Equalize.Aggregate.{total}

target_grain-derived : (s g : ℕ) → target_grain_of s none ≡ ok g → (g ≡ 1) ⊎ ((g ≡ 15) ⊎ (g ≡ 60))
unfolding target_grain_of
target_grain-derived s g h =
    let same : derived_grain s ≡ g = ground arith in rw same at (derived_grain-cases s)

module _ (F : Floats) where
  abbrev pub in_window : ℕ → ℕ → LiveHarmonizedEvent F → Bool
  in_window start stop e = leb start e.timestamp && ltb e.timestamp stop

  abbrev pub points : List (EqualizedRow F) → ℕ
  points rows = total (λ (r : EqualizedRow F). r.observed_points) rows

  module _ (first : LiveHarmonizedEvent F) (policy : SeriesCadencePolicy)
      (grain expected start stop : ℕ) where
    points-none :
        (ts : List ℕ) → points (bucket_rows F first [] policy grain expected start stop ts) ≡ 0
    unfolding total bucket_rows make_row bucket_events
    points-none [] = refl
    points-none (t ∷ ts) = ground (arith, points-none ts)

    -- One more event counts in the rows of the targets that are its bucket.
    points-cons :
        (e : LiveHarmonizedEvent F) (es : List (LiveHarmonizedEvent F)) (ts : List ℕ)
        → points (bucket_rows F first (e ∷ es) policy grain expected start stop ts)
          ≡ (if in_window start stop e then hits (bucket_start e.timestamp grain) ts else 0)
            + points (bucket_rows F first es policy grain expected start stop ts)
    unfolding total bucket_rows make_row bucket_events hits
    points-cons e es [] = ground arith
    points-cons e es (t ∷ ts) = ground (arith, points-cons e es ts)

    -- If each event of the window is met c times, the rows have c points for each.
    points-rows :
        (c : ℕ) (ts : List ℕ)
        → ((e : LiveHarmonizedEvent F)
            → in_window start stop e ≡ true
            → hits (bucket_start e.timestamp grain) ts ≡ c)
        → (es : List (LiveHarmonizedEvent F))
        → points (bucket_rows F first es policy grain expected start stop ts)
          ≡ length (keep (in_window start stop) es) * c
    points-rows c ts met [] = points-none ts ∙ omega arith
    points-rows c ts met (e ∷ es) =
        points-cons e es ts ∙ by_inside (in_window start stop e) (met e) (points-rows c ts met es)
      where
        by_inside :
            (b : Bool)
            → (b ≡ true → hits (bucket_start e.timestamp grain) ts ≡ c)
            → points (bucket_rows F first es policy grain expected start stop ts)
              ≡ length (keep (in_window start stop) es) * c
            → (if b then hits (bucket_start e.timestamp grain) ts else 0)
                + points (bucket_rows F first es policy grain expected start stop ts)
              ≡ length
                  (if b then e ∷ keep (in_window start stop) es else keep (in_window start stop) es)
                * c
        by_inside true m rest = (let h = m refl in omega arith)
        by_inside false m rest = omega arith

  -- The call, taken apart.
  module _ (e : LiveHarmonizedEvent F) (es : List (LiveHarmonizedEvent F)) (start stop : ℕ)
      (p : SeriesCadencePolicy) where
    pub series-eq :
        (g : ℕ) (rows : List (EqualizedRow F))
        → target_grain_minutes p ≡ ok g
        → equalize_series F (e ∷ es) start stop p ≡ ok rows
        → (x : ℕ) × (rows
            ≡ bucket_rows F e
                (e ∷ es)
                p
                g
                x
                start
                stop
                (targets (stop - start) start stop (g * minute_micros)))
    unfolding equalize_series expected_points_per_bucket
    series-eq g rows h r = (g * 60 / p.native_interval_seconds, ground arith)

  pub default-met :
      (p : SeriesCadencePolicy) (g : ℕ)
      → p.target_grain_minutes ≡ none
      → target_grain_minutes p ≡ ok g
      → (g ≡ 1) ⊎ ((g ≡ 15) ⊎ (g ≡ 60))
  default-met p g h r = target_grain-derived p.native_interval_seconds g (rw h at r)

  -- If a policy names no grain and the window starts on a boundary of the grain that the cadence
  -- gives, then the observed points of the rows that equalize_series returns are, together, as many
  -- as the events of the window: no event is lost and none counted twice.
  pub equalize_series-conserves :
      (events : List (LiveHarmonizedEvent F)) (start stop : ℕ) (p : SeriesCadencePolicy) (g : ℕ)
      (rows : List (EqualizedRow F))
      → p.target_grain_minutes ≡ none
      → target_grain_minutes p ≡ ok g
      → bucket_start start g ≡ start
      → equalize_series F events start stop p ≡ ok rows
      → points rows ≡ length (keep (in_window start stop) events)
  unfolding equalize_series total
  equalize_series-conserves [] start stop p g rows d gr al r = ground arith
  equalize_series-conserves (e ∷ es) start stop p g rows d gr al r =
      let (x, same) = series-eq e es start stop p g rows gr r in
      let ts = targets (stop - start) start stop (g * minute_micros) in
      ap points same
      ∙ points-rows e p g x start stop 1 ts
          (λ v inside.
            derived-once start stop v.timestamp (ground arith) (ground arith) g
              (default-met p g d gr) al)
          (e ∷ es)
      ∙ omega arith

  -- If a policy names no grain and the window does not start on a boundary of the grain that the
  -- cadence gives, then no row that equalize_series returns has an observed point, whatever the events.
  pub equalize_series-unaligned :
      (events : List (LiveHarmonizedEvent F)) (start stop : ℕ) (p : SeriesCadencePolicy) (g : ℕ)
      (rows : List (EqualizedRow F))
      → p.target_grain_minutes ≡ none
      → target_grain_minutes p ≡ ok g
      → (bucket_start start g == start) ≡ false
      → equalize_series F events start stop p ≡ ok rows
      → points rows ≡ 0
  unfolding equalize_series total
  equalize_series-unaligned [] start stop p g rows d gr off r = ground arith
  equalize_series-unaligned (e ∷ es) start stop p g rows d gr off r =
      let (x, same) = series-eq e es start stop p g rows gr r in
      let ts = targets (stop - start) start stop (g * minute_micros) in
      ap points same
      ∙ points-rows e p g x start stop 0 ts
          (λ v inside.
            derived-never start stop v.timestamp (ground arith) (ground arith) g
              (default-met p g d gr) off)
          (e ∷ es)
      ∙ omega arith
