-- ===== src/Equalize/Windows.antt =====
-- How often the targets of a window meet the bucket of an event.
use skn25_final_4team.Prelude.{
  ℕ, zero, suc, ◌+◌, ◌-◌, ◌*◌, ◌/◌, ◌≤◌, ◌<◌, ◌≡◌, refl, ◌⊎◌, inl, inr, true, false, List, [], ◌∷◌,
  arith, ltb, ◌==◌, if◌then◌else◌, length, Bool-cases,
}
use skn25_final_4team.Equalize.{bucket_start}
use skn25_final_4team.Equalize.Grains.{
  floor_to, bucket_start-minute, bucket_start-quarter, bucket_start-hour,
}
use skn25_final_4team.Equalize.Series.{targets}

targets-inside :
    (fuel t stop step : ℕ)
    → ltb t stop ≡ true
    → targets (suc fuel) t stop step ≡ t ∷ targets fuel (t + step) stop step
unfolding targets
targets-inside fuel t stop step h = rw (h, targets) refl

targets-outside : (fuel t stop step : ℕ) → ltb t stop ≡ false → targets (suc fuel) t stop step ≡ []
unfolding targets
targets-outside fuel t stop step h = rw (h, targets) refl

-- How many of the targets are b.
unfoldable pub hits : ℕ → List ℕ → ℕ
hits b [] = 0
hits b (t ∷ ts) = (if b == t then 1 else 0) + hits b ts

pub hits-below : (fuel t stop step b : ℕ) → b < t → hits b (targets fuel t stop step) ≡ 0
unfolding hits targets
hits-below zero t stop step b h = refl
hits-below (suc fuel) t stop step b h = elim (Bool-cases (ltb t stop)) [
  | inl e ↦
      rw (targets-inside fuel t stop step e)
        (ground (arith, hits-below fuel (t + step) stop step b))
  | inr e ↦ rw (targets-outside fuel t stop step e) refl
]

-- A bucket that is k steps on, before the end, is met once.
pub hits-once :
    (fuel t stop step b k : ℕ)
    → 1 ≤ step
    → b ≡ t + k * step
    → k < fuel
    → b < stop
    → hits b (targets fuel t stop step) ≡ 1
unfolding hits targets
hits-once zero t stop step b k positive at enough inside = omega arith
hits-once (suc fuel) t stop step b zero positive at enough inside =
    let now : ltb t stop ≡ true = ground arith in
    rw (targets-inside fuel t stop step now)
      (ground (arith, hits-below fuel (t + step) stop step b))
hits-once (suc fuel) t stop step b (suc k) positive at enough inside =
    let now : ltb t stop ≡ true = ground arith in
    let on : b ≡ t + step + k * step = omega arith in
    let rest = hits-once fuel (t + step) stop step b k positive on (omega arith) inside in
    rw (targets-inside fuel t stop step now) (ground arith)

-- A time that is no whole number of steps on is never met.
pub hits-never :
    (fuel t stop step b : ℕ)
    → ((k : ℕ) → (t + k * step == b) ≡ false)
    → hits b (targets fuel t stop step) ≡ 0
unfolding hits targets
hits-never zero t stop step b off = refl
hits-never (suc fuel) t stop step b off = elim (Bool-cases (ltb t stop)) [
  | inl e ↦
      let here : (b == t) ≡ false = (let o = off 0 in ground arith) in
      let rest =
        hits-never fuel (t + step) stop step b (λ k. let o = off (suc k) in ground arith) in
      rw (targets-inside fuel t stop step e) (ground arith)
  | inr e ↦ rw (targets-outside fuel t stop step e) refl
]

pub length-targets :
    (fuel t step n : ℕ) → 1 ≤ step → n ≤ fuel → length (targets fuel t (t + n * step) step) ≡ n
unfolding targets
length-targets zero t step n positive enough = omega arith
length-targets (suc fuel) t step zero positive enough =
    let done : ltb t (t + zero * step) ≡ false = ground arith in
    rw (targets-outside fuel t (t + zero * step) step done) refl
length-targets (suc fuel) t step (suc n) positive enough =
    let now : ltb t (t + suc n * step) ≡ true = ground arith in
    let same : t + suc n * step ≡ t + step + n * step = omega arith in
    rw (targets-inside fuel t (t + suc n * step) step now) (
      rw same
        (let rest = length-targets fuel (t + step) step n positive (omega arith) in ground arith))

-- One of the three derived grains, with its buckets as multiples of the step.
module _ (start stop ts : ℕ) (after : start ≤ ts) (before : ts < stop) where
  once_at :
      (step : ℕ)
      → 1 ≤ step
      → start / step * step ≡ start
      → ts / step * step ≡ start + (ts / step - start / step) * step
      → ts / step - start / step ≤ ts - start
      → ts / step * step ≤ ts
      → hits (floor_to ts step) (targets (stop - start) start stop step) ≡ 1
  once_at step positive aligned on few low =
      hits-once (stop - start) start stop step (floor_to ts step) (ts / step - start / step)
        positive on (omega arith) (omega arith)

  pub derived-once :
      (grain : ℕ)
      → (grain ≡ 1) ⊎ ((grain ≡ 15) ⊎ (grain ≡ 60))
      → bucket_start start grain ≡ start
      → hits (bucket_start ts grain) (targets (stop - start) start stop (grain * 60_000_000)) ≡ 1
  derived-once grain (inl e) aligned =
      rw (e, bucket_start-minute ts)
        (let a = bucket_start-minute start in
          let al : bucket_start start 1 ≡ start = rw e at aligned in
          once_at 60_000_000 (omega arith) (omega arith) (omega arith) (omega arith) (omega arith))
  derived-once grain (inr (inl e)) aligned =
      rw (e, bucket_start-quarter ts)
        (let a = bucket_start-quarter start in
          let al : bucket_start start 15 ≡ start = rw e at aligned in
          once_at 900_000_000 (omega arith) (omega arith) (omega arith) (omega arith) (omega arith))
  derived-once grain (inr (inr e)) aligned =
      rw (e, bucket_start-hour ts)
        (let a = bucket_start-hour start in
          let al : bucket_start start 60 ≡ start = rw e at aligned in
          once_at 3_600_000_000 (omega arith) (omega arith) (omega arith) (omega arith)
            (omega arith))

  pub derived-never :
      (grain : ℕ)
      → (grain ≡ 1) ⊎ ((grain ≡ 15) ⊎ (grain ≡ 60))
      → (bucket_start start grain == start) ≡ false
      → hits (bucket_start ts grain) (targets (stop - start) start stop (grain * 60_000_000)) ≡ 0
  derived-never grain (inl e) off = rw e (
      let al : (bucket_start start 1 == start) ≡ false = rw e at off in
      hits-never (stop - start) start stop 60_000_000 (bucket_start ts 1)
        (λ k. let a = bucket_start-minute start in let b = bucket_start-minute ts in ground arith))
  derived-never grain (inr (inl e)) off = rw e (
      let al : (bucket_start start 15 == start) ≡ false = rw e at off in
      hits-never (stop - start) start stop 900_000_000 (bucket_start ts 15) (λ k.
        let a = bucket_start-quarter start in let b = bucket_start-quarter ts in ground arith))
  derived-never grain (inr (inr e)) off = rw e (
      let al : (bucket_start start 60 == start) ≡ false = rw e at off in
      hits-never (stop - start) start stop 3_600_000_000 (bucket_start ts 60)
        (λ k. let a = bucket_start-hour start in let b = bucket_start-hour ts in ground arith))
