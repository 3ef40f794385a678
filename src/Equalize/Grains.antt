-- ===== src/Equalize/Grains.antt =====
-- The grains that the cadence rule derives: their buckets are whole multiples of the grain.
use skn25_final_4team.Prelude.{ℕ, ◌*◌, ◌/◌, ◌≡◌, ◌⊎◌, arith}
use skn25_final_4team.Equalize.{derived_grain, replace, bucket_start}

-- The start of the bucket of a time, for a step in microseconds.
abbrev pub floor_to : ℕ → ℕ → ℕ
floor_to ts step = ts / step * step

pub bucket_start-minute : (ts : ℕ) → bucket_start ts 1 ≡ floor_to ts 60_000_000
unfolding bucket_start replace
bucket_start-minute ts = omega arith

pub bucket_start-quarter : (ts : ℕ) → bucket_start ts 15 ≡ floor_to ts 900_000_000
unfolding bucket_start replace
bucket_start-quarter ts = omega arith

pub bucket_start-hour : (ts : ℕ) → bucket_start ts 60 ≡ floor_to ts 3_600_000_000
unfolding bucket_start replace
bucket_start-hour ts = omega arith

pub derived_grain-cases :
    (s : ℕ) → (derived_grain s ≡ 1) ⊎ ((derived_grain s ≡ 15) ⊎ (derived_grain s ≡ 60))
unfolding derived_grain
derived_grain-cases s = ground arith
