-- ===== src/Equalize/Planned.antt =====
-- How many rows the run gives, against the plan, and what a row's mask says of its gap.
use skn25_final_4team.Prelude.{
  ℕ, zero, suc, ◌+◌, ◌-◌, ◌*◌, ◌/◌, ◌%◌, ◌≤◌, ◌≡◌, refl, ap, sym, ◌∙◌, ◌⊎◌, inl, inr, none, List,
  [], ◌∷◌, arith, ◌==◌, if◌then◌else◌, length, ok, require, value_error, ◌>>=◌, ◌>>◌, >>=-eq-ok,
  Result-cases,
}
use skn25_final_4team.Equalize.{
  Floats, LiveHarmonizedEvent, SeriesCadencePolicy, EqualizedRow, target_grain_of,
  target_grain_minutes, minute_micros,
}
use skn25_final_4team.Equalize.Windows.{length-targets}
use skn25_final_4team.Equalize.Series.{targets, bucket_rows, equalize_series}
use skn25_final_4team.Equalize.Totals.{series-eq, default-met}
use skn25_final_4team.Equalize.Plan.{
  SeriesCadenceCountPolicy, EqualizationCountPlan, RowCounts, no_rows, plan_grain, count_grain,
  count_loop, build_cadence_equalization_count_plan,
}

pub count_grain-hour :
    (w g : ℕ) (c d : RowCounts)
    → count_grain w g c ≡ ok d
    → (d.hour ≡ c.hour + w / 60) × (c.one ≡ c.five * 5 → w % 60 ≡ 0 → d.one ≡ d.five * 5)
unfolding count_grain
count_grain-hour w g c d h = ground arith

-- One round of the loop that is passed.
count_loop-cons :
    (w : ℕ) (p : SeriesCadenceCountPolicy) (ps : List SeriesCadenceCountPolicy) (c d : RowCounts)
    → count_loop w (p ∷ ps) c ≡ ok d
    → (g : ℕ) × (n : RowCounts) × (plan_grain p ≡ ok g)
      × (count_grain w g c ≡ ok n)
      × (count_loop w ps n ≡ ok d)
unfolding count_loop
count_loop-cons w p ps c d h =
    let (g, eg, h1) =
      >>=-eq-ok (plan_grain p)
        (λ g.
          require (w % g == 0)
            (value_error "window_minutes must be divisible by every target grain")
          >> (count_grain w g c >>= λ next. count_loop w ps next))
        h in
    let (_, _, h2) =
      >>=-eq-ok
        (require (w % g == 0)
          (value_error "window_minutes must be divisible by every target grain"))
        (λ _. count_grain w g c >>= λ next. count_loop w ps next) h1 in
    let (n, en, h3) = >>=-eq-ok (count_grain w g c) (λ next. count_loop w ps next) h2 in
    (g, n, eg, en, h3)

count_loop-hour :
    (w : ℕ) (ps : List SeriesCadenceCountPolicy) (c d : RowCounts)
    → count_loop w ps c ≡ ok d
    → (d.hour ≡ c.hour + length ps * (w / 60))
      × (c.one ≡ c.five * 5 → w % 60 ≡ 0 → d.one ≡ d.five * 5)
unfolding count_loop
count_loop-hour w [] c d h = ground arith
count_loop-hour w (p ∷ ps) c d h =
    let (g, n, _, en, rest) = count_loop-cons w p ps c d h in
    let (hours, fives) = count_grain-hour w g c n en in
    let (later, more) = count_loop-hour w ps n d rest in (omega arith, λ e z. more (fives e z) z)

assoc : (n q : ℕ) → n * q * 60 ≡ n * (q * 60)
assoc n q = omega arith

-- A plan that is made counts one row per series and hour, and five 1-minute rows for each 5-minute row.
pub plan-totals :
    (ps : List SeriesCadenceCountPolicy) (w : ℕ) (plan : EqualizationCountPlan)
    → build_cadence_equalization_count_plan ps w ≡ ok plan
    → (plan.rows_out_1h * 60 ≡ length ps * w) × (plan.rows_out_1min ≡ plan.rows_out_5min * 5)
unfolding build_cadence_equalization_count_plan
plan-totals ps w plan h = elim (Result-cases (count_loop w ps no_rows)) [
  | inr (e, failed) ↦ absurd (ground arith)
  | inl (c, passed) ↦
      let (hours, fives) = count_loop-hour w ps no_rows c passed in
      let whole : w % 60 ≡ 0 = ground arith in
      let five = fives refl whole in
      let w60 : w / 60 * 60 ≡ w = omega arith in
      let scaled : length ps * (w / 60) * 60 ≡ length ps * w =
        assoc (length ps) (w / 60) ∙ ap (λ x. length ps * x) w60 in
      (ground arith, ground arith)
]

-- The targets of w minutes, n steps long.
length-window :
    (start w n step : ℕ)
    → 1 ≤ step
    → n * step ≡ w * minute_micros
    → length (targets (start + w * minute_micros - start) start (start + w * minute_micros) step)
      ≡ n
length-window start w n step positive exact =
    let few : n ≤ n * step = scale step positive in
    let fits : n ≤ start + w * minute_micros - start = omega arith in
    rw (← exact) (length-targets (start + n * step - start) start step n positive (omega arith))
  where
    scale : (k : ℕ) → 1 ≤ k → n ≤ n * k
    scale zero h = omega arith
    scale (suc k) h = omega arith

-- What the plan of one series has for its grain.
plan-single :
    (p : SeriesCadenceCountPolicy) (w g : ℕ) (plan : EqualizationCountPlan)
    → plan_grain p ≡ ok g
    → build_cadence_equalization_count_plan (p ∷ []) w ≡ ok plan
    → (w % 60 ≡ 0)
      × (g ≡ 1 → plan.rows_out_1min ≡ w)
      × (g ≡ 15 → plan.rows_out_15min ≡ w / 15)
      × (g ≡ 60 → plan.rows_out_1h ≡ w / 60)
unfolding build_cadence_equalization_count_plan count_loop count_grain
plan-single p w g plan gr planned = (ground arith, ground arith, ground arith, ground arith)

-- The planned rows of a grain.
abbrev pub rows_of_grain : ℕ → EqualizationCountPlan → ℕ
rows_of_grain g plan =
    if g == 1 then plan.rows_out_1min else if g == 15 then plan.rows_out_15min else plan.rows_out_1h

module _ (F : Floats) where
  length-bucket_rows :
      (first : LiveHarmonizedEvent F) (es : List (LiveHarmonizedEvent F)) (p : SeriesCadencePolicy)
      (g x start stop : ℕ) (ts : List ℕ)
      → length (bucket_rows F first es p g x start stop ts) ≡ length ts
  unfolding bucket_rows
  length-bucket_rows first es p g x start stop [] = refl
  length-bucket_rows first es p g x start stop (t ∷ ts) =
      ap suc (length-bucket_rows first es p g x start stop ts)

  -- One series whose policy names no grain, over a window of w minutes: if its plan is made and
  -- equalize_series returns, then there are as many rows as the plan has for the series' own grain.
  pub plan-rows :
      (e : LiveHarmonizedEvent F) (es : List (LiveHarmonizedEvent F)) (start w : ℕ)
      (p : SeriesCadencePolicy) (g : ℕ) (rows : List (EqualizedRow F))
      (plan : EqualizationCountPlan)
      → p.target_grain_minutes ≡ none
      → target_grain_minutes p ≡ ok g
      → build_cadence_equalization_count_plan
          (record {
            native_interval_seconds = p.native_interval_seconds;
            target_grain_minutes = none;
          }
            ∷ [])
          w
        ≡ ok plan
      → equalize_series F (e ∷ es) start (start + w * minute_micros) p ≡ ok rows
      → length rows ≡ rows_of_grain g plan
  unfolding build_cadence_equalization_count_plan count_loop count_grain
  plan-rows e es start w p g rows plan d gr planned r =
      let (x, same) = series-eq F e es start (start + w * minute_micros) p g rows gr r in
      let gr' : target_grain_of p.native_interval_seconds none ≡ ok g = rw d at gr in
      let n =
        ap length same
        ∙ length-bucket_rows e (e ∷ es) p g x start (start + w * minute_micros) (
            targets (start + w * minute_micros - start) start (start + w * minute_micros)
              (g * minute_micros)) in
      let (whole, one, quarter, hour) =
        plan-single
          (record {
            native_interval_seconds = p.native_interval_seconds;
            target_grain_minutes = none;
          })
          w g plan gr' planned in
      n ∙ by_grain whole one quarter hour (default-met F p g d gr)
    where
      by_grain :
          w % 60 ≡ 0
          → (g ≡ 1 → plan.rows_out_1min ≡ w)
          → (g ≡ 15 → plan.rows_out_15min ≡ w / 15)
          → (g ≡ 60 → plan.rows_out_1h ≡ w / 60)
          → (g ≡ 1) ⊎ ((g ≡ 15) ⊎ (g ≡ 60))
          → length (
              targets
                (start + w * minute_micros - start)
                start
                (start + w * minute_micros)
                (g * minute_micros))
            ≡ rows_of_grain g plan
      by_grain whole one quarter hour (inl is) =
          rw is
            (length-window start w w (1 * minute_micros) (omega arith) (omega arith) ∙ sym (one is))
      by_grain whole one quarter hour (inr (inl is)) = rw is (
          length-window start w (w / 15) (15 * minute_micros) (omega arith) (omega arith)
          ∙ sym (quarter is))
      by_grain whole one quarter hour (inr (inr is)) = rw is (
          length-window start w (w / 60) (60 * minute_micros) (omega arith) (omega arith)
          ∙ sym (hour is))
