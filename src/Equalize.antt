-- ===== src/Equalize.antt =====
-- src/cms/data/live_equalization_processor.py: live events on a series' grid of buckets.
-- A datetime is the number of microseconds since a midnight, all in one zone, so that hour, minute
-- and replace() are divisions. A float, its NaN and its arithmetic are the parameter `Floats`.
-- This module has the data and the rules of one bucket; Equalize/Series the rows of the series,
-- Equalize/Aggregate the coarser grains and Equalize/Plan the planned row counts.
pub mod Series
pub mod Aggregate
pub mod Plan
pub mod Grains
pub mod Windows
pub mod Totals
pub mod Masks
pub mod Sums
pub mod Planned
mod Tests
use Prim.Native.Nat.{Ordering}
use Prim.Native.String.{compare as str_compare}
use skn25_final_4team.Prelude.{
  ℕ, zero, suc, ◌+◌, ◌-◌, ◌*◌, ◌/◌, ◌%◌, String, str_append, str_eq, Bool, true, false, ◌&&◌, ◌||◌,
  not, Option, none, some, List, [], ◌∷◌, ltb, leb, ◌==◌, if◌then◌else◌, value_error, Result, ok,
  raises, require, ◌>>=◌, ◌>>◌, any,
}

-- The part of Python's float that the file uses; `over` divides by an int, `ratio` an int by one.
pub record Floats : Type 1 where
  pub Float : Type 0
  pub nan : Float
  pub is_nan : Float → Bool
  pub of_nat : ℕ → Float
  pub plus : Float → Float → Float
  pub over : Float → ℕ → Float
  pub ratio : ℕ → ℕ → Float
  pub least : Float → Float → Float

-- The fields that the file never reads, and those that are constants, are left out.
pub record LiveHarmonizedEvent (F : Floats) : Type 0 where
  pub meter_urn : String
  pub measurement : String
  pub timestamp : ℕ
  pub value : F.Float
  pub source_event_id : Option String
  pub timestamp_policy_id : Option String
  pub source_timezone : Option String
  pub source_ts_raw : Option String
  pub source_ts_column : Option String
  pub timestamp_quality_code : Option String
  pub timestamp_origin_rule : Option String

pub record SeriesCadencePolicy : Type 0 where
  pub native_interval_seconds : ℕ
  pub target_grain_minutes : Option ℕ
  pub cadence_policy_id : String
  pub aggregation_policy : String

abbrev pub default_policy : SeriesCadencePolicy
default_policy = record {
  native_interval_seconds = 60;
  target_grain_minutes = none;
  cadence_policy_id = "native_1min";
  aggregation_policy = "mean_non_cumulative";
}

pub data Quality : Type 0 where
  gap partial observed : Quality

-- The counts of a dictionary from texts to ints, in the order of insertion.
abbrev pub Counts : Type 0
Counts = List (String × ℕ)

pub record EqualizedRow (F : Floats) : Type 0 where
  pub meter_urn : String
  pub measurement : String
  pub timestamp : ℕ
  pub value : F.Float
  pub quality : Quality
  pub mask_code : Option String
  pub expected_points : ℕ
  pub observed_points : ℕ
  pub gap_points : ℕ
  pub coverage_ratio : F.Float
  pub source_event_ids : List String
  pub grain_minutes : ℕ
  pub source_native_interval_seconds : ℕ
  pub cadence_policy_id : String
  pub aggregation_policy : String
  pub timestamp_policy_ids : List String
  pub source_timezones : List String
  pub source_ts_columns : List String
  pub source_ts_raw_samples : List String
  pub timestamp_quality_summary : Counts
  pub timestamp_origin_rules : List String

abbrev pub series_key : String → String → String
series_key meter_urn measurement = str_append (str_append meter_urn ".") measurement

-- The rule for a policy that names no grain.
unfoldable pub derived_grain : ℕ → ℕ
derived_grain seconds = if leb seconds 60 then 1 else if leb seconds 900 then 15 else 60

unfoldable pub target_grain_of : ℕ → Option ℕ → Result ℕ
unfolding derived_grain
target_grain_of seconds grain = do
  require (ltb 0 seconds) (value_error "native_interval_seconds must be positive")
  elim grain [
    | some minutes ↦ do
      require (ltb 0 minutes) (value_error "target_grain_minutes must be positive")
      ok minutes
    | none ↦ ok (derived_grain seconds)
  ]

abbrev pub target_grain_minutes : SeriesCadencePolicy → Result ℕ
target_grain_minutes p = target_grain_of p.native_interval_seconds p.target_grain_minutes

unfoldable pub expected_points_per_bucket : SeriesCadencePolicy → ℕ → Result ℕ
expected_points_per_bucket p grain = do
  require (grain * 60 % p.native_interval_seconds == 0)
      (value_error "target grain must be divisible by native interval")
  ok (grain * 60 / p.native_interval_seconds)

abbrev pub minute_micros : ℕ
minute_micros = 60_000_000

abbrev pub hour_micros : ℕ
hour_micros = 3_600_000_000

abbrev pub day_micros : ℕ
day_micros = 86_400_000_000

-- timestamp.replace(hour=hour, minute=minute, second=0, microsecond=0)
unfoldable pub replace : ℕ → ℕ → ℕ → ℕ
replace ts hour minute = ts / day_micros * day_micros + hour * hour_micros + minute * minute_micros

unfoldable pub bucket_start : ℕ → ℕ → ℕ
unfolding replace
bucket_start ts minutes =
    if leb 60 minutes
    then replace ts (ts / hour_micros % 24 / (minutes / 60) * (minutes / 60)) 0
    else replace ts (ts / hour_micros % 24) (ts / minute_micros % 60 / minutes * minutes)

unfoldable pub bucket_quality : ℕ → ℕ → Quality
bucket_quality points expected =
    if points == 0 then gap else if ltb points expected then partial else observed

unfoldable pub mask_code : Quality → Option String
mask_code gap = some "gap"
mask_code partial = some "low_coverage"
mask_code observed = none

-- The texts that are neither None nor seen before.
unfoldable pub unique_from : List String → List (Option String) → List String
unique_from seen [] = []
unique_from seen (none ∷ vs) = unique_from seen vs
unique_from seen (some v ∷ vs) =
    let rest = unique_from (v ∷ seen) vs in
    let skipped = unique_from seen vs in if any (str_eq v) seen then skipped else v ∷ rest

abbrev pub unique_non_null : List (Option String) → List String
unique_non_null values = unique_from [] values

-- counts[value] = counts.get(value, 0) + n
unfoldable pub count_add : String → ℕ → Counts → Counts
count_add v n [] = (v, n) ∷ []
count_add v n ((k, m) ∷ rest) =
    let later = count_add v n rest in if str_eq k v then (k, m + n) ∷ rest else (k, m) ∷ later

abbrev pub count_from : Counts → List (Option String) → Counts
unfolding count_add
count_from counts [] = counts
count_from counts (none ∷ vs) = count_from counts vs
count_from counts (some v ∷ vs) = count_from (count_add v 1 counts) vs

abbrev pub count_non_null : List (Option String) → Counts
count_non_null values = count_from [] values

-- sorted(): `less b a` says that b comes strictly before a; equals keep their order.
unfoldable pub insert_by {ℓ} : {A : Type ℓ} → (A → A → Bool) → A → List A → List A
insert_by less a [] = a ∷ []
insert_by less a (b ∷ bs) =
    let rest = insert_by less a bs in if less b a then b ∷ rest else a ∷ b ∷ bs

unfoldable pub sorted {ℓ} : {A : Type ℓ} → (A → A → Bool) → List A → List A
unfolding insert_by
sorted less [] = []
sorted less (a ∷ rest) = insert_by less a (sorted less rest)

abbrev pub str_less : String → String → Bool
str_less a b = elim (str_compare a b) [ Ordering.lt ↦ true | _ ↦ false ]

-- (text, number, number) < (text, number, number)
abbrev pub key_less : String × ℕ × ℕ → String × ℕ × ℕ → Bool
key_less (a, m, i) (b, n, j) = str_less a b || str_eq a b && (ltb m n || m == n && ltb i j)
