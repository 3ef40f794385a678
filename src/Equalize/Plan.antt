-- ===== src/Equalize/Plan.antt =====
-- src/cms/data/live_equalization_plan.py: the row counts that a run over whole hours should give.
use skn25_final_4team.Prelude.{
  ℕ, zero, suc, ◌+◌, ◌/◌, ◌%◌, Option, none, List, [], ◌∷◌, ltb, ◌==◌, if◌then◌else◌, value_error,
  Result, ok, raises, require, ◌>>=◌, ◌>>◌, length,
}
use skn25_final_4team.Equalize.{target_grain_of}

pub record SeriesCadenceCountPolicy : Type 0 where
  pub native_interval_seconds : ℕ
  pub target_grain_minutes : Option ℕ

pub record EqualizationCountPlan : Type 0 where
  pub measurement_series_count : ℕ
  pub window_minutes : ℕ
  pub rows_out_1min : ℕ
  pub rows_out_5min : ℕ
  pub rows_out_15min : ℕ
  pub rows_out_1h : ℕ

-- The four counters of the loop.
pub record RowCounts : Type 0 where
  pub one : ℕ
  pub five : ℕ
  pub quarter : ℕ
  pub hour : ℕ

abbrev pub no_rows : RowCounts
no_rows = record { one = 0; five = 0; quarter = 0; hour = 0 }

-- The file repeats the rule of live_equalization_processor.py.
abbrev pub plan_grain : SeriesCadenceCountPolicy → Result ℕ
plan_grain p = target_grain_of p.native_interval_seconds p.target_grain_minutes

-- The body of the loop, for one grain.
unfoldable pub count_grain : ℕ → ℕ → RowCounts → Result RowCounts
count_grain w grain c =
    if grain == 1
    then ok (record {
      one = c.one + w;
      five = c.five + w / 5;
      quarter = c.quarter + w / 15;
      hour = c.hour + w / 60;
    })
    else if grain == 15
    then ok (record c { quarter = c.quarter + w / 15; hour = c.hour + w / 60 })
    else if grain == 60
    then ok (record c { hour = c.hour + w / 60 })
    else raises (value_error "unsupported target grain")

unfoldable pub count_loop : ℕ → List SeriesCadenceCountPolicy → RowCounts → Result RowCounts
unfolding target_grain_of count_grain
count_loop w [] c = ok c
count_loop w (p ∷ ps) c = do
  grain ← plan_grain p
  require (w % grain == 0) (value_error "window_minutes must be divisible by every target grain")
  next ← count_grain w grain c
  count_loop w ps next

unfoldable pub build_cadence_equalization_count_plan :
    List SeriesCadenceCountPolicy → ℕ → Result EqualizationCountPlan
unfolding count_loop
build_cadence_equalization_count_plan policies w = do
  require (ltb 0 w) (value_error "window_minutes must be positive")
  require (w % 60 == 0) (value_error "window_minutes must be divisible by 60")
  c ← count_loop w policies no_rows
  ok (record {
    measurement_series_count = length policies;
    window_minutes = w;
    rows_out_1min = c.one;
    rows_out_5min = c.five;
    rows_out_15min = c.quarter;
    rows_out_1h = c.hour;
  })

abbrev copies {ℓ} : {A : Type ℓ} → ℕ → A → List A
copies zero a = []
copies (suc n) a = a ∷ copies n a

-- measurement_series_count is a natural number, so it is never negative.
unfoldable pub build_equalization_count_plan : ℕ → ℕ → Result EqualizationCountPlan
unfolding build_cadence_equalization_count_plan
build_equalization_count_plan n w =
    build_cadence_equalization_count_plan
      (copies n (record { native_interval_seconds = 60; target_grain_minutes = none })) w
