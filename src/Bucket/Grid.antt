-- ===== src/Bucket/Grid.antt =====
-- The time grid of expected_bucket.py: alignment, and what the generated buckets are.
use native.Mathlib.Nat.{
  mod-lt, div-add-mod, lt_of_mul-lt-mul_left, mul-le-mul_left, mul-add, mul-mod_right,
  add-mul-mod_self_left, le_of_mul-le-mul_left, le-div_iff_mul-le,
}
use skn25_final_4team.Prelude.{
  ℕ, zero, suc, ◌+◌, ◌-◌, ◌*◌, ◌/◌, ◌%◌, ◌≤◌, ◌<◌, ◌≡◌, ◌∙◌, ap, inl, inr, true, List, [], ◌∷◌,
  arith, ltb, leb, if◌then◌else◌, refl, sym, Result-cases, ok, is_ok, ok-injective, >>=-eq-ok, ◌==◌,
  any, All, Bool, Bool-cases,
}
use skn25_final_4team.Bucket.{ExpectedBucket, next_boundary, max_datetime, in_range, bucket_loop}

-- The buckets of the loop, if no sum is out of range.
unfoldable pub grid_loop : ℕ → (ℕ → ExpectedBucket) → ℕ → ℕ → ℕ → List ExpectedBucket
grid_loop zero make ts stop step = []
grid_loop (suc fuel) make ts stop step =
    let rest = grid_loop fuel make (ts + step) stop step in
    if ltb ts stop then make ts ∷ rest else []

module _ (make : ℕ → ExpectedBucket) (stop step : ℕ) where
  pub bucket_loop-grid :
      (fuel ts : ℕ) (bs : List ExpectedBucket)
      → bucket_loop fuel make ts stop step ≡ ok bs
      → bs ≡ grid_loop fuel make ts stop step
  unfolding bucket_loop grid_loop
  bucket_loop-grid zero ts bs h = sym (ok-injective h)
  bucket_loop-grid (suc fuel) ts bs h = elim (Bool-cases (ltb ts stop)) [
    | inr e ↦ rw e (sym (ok-injective (rw e at h)))
    | inl e ↦
        let (next, passed, h1) = >>=-eq-ok (in_range (ts + step)) _ (rw e at h) in
        let (rest, ran, h2) = >>=-eq-ok (bucket_loop fuel make (ts + step) stop step) _ h1 in
        rw (e, ← bucket_loop-grid fuel (ts + step) rest ran) (sym (ok-injective h2))
  ]

  -- With room for one step more after the end, no sum is out of range.
  pub bucket_loop-is_ok :
      stop + step ≤ max_datetime → (fuel ts : ℕ) → is_ok (bucket_loop fuel make ts stop step) ≡ true
  unfolding bucket_loop
  bucket_loop-is_ok room zero ts = refl
  bucket_loop-is_ok room (suc fuel) ts = elim (Bool-cases (ltb ts stop)) [
    | inr e ↦ rw e refl
    | inl e ↦
        let fits : leb (ts + step) max_datetime ≡ true = ground (arith, room, e) in
        let ran = bucket_loop-is_ok room fuel (ts + step) in
        elim (Result-cases (bucket_loop fuel make (ts + step) stop step)) [
          | inl (bs, d) ↦ rw (e, fits, d) refl
          | inr (x, d) ↦ (let wrong = rw d at ran in cc)
        ]
  ]

-- A multiple of `g` at or after `ts` is at or after the next boundary.
mul_gap : (g q k r : ℕ) → 0 < r → g * q + r ≤ g * k → g * q + g ≤ g * k
mul_gap g q k r h le =
    let p : q < k = lt_of_mul-lt-mul_left g (omega arith) in omega (arith, mul-le-mul_left g p)

multiple_gap : (g j k : ℕ) → j ≤ k → g * k ≡ g * j + g * (k - j)
multiple_gap g j k h =
    let e : k ≡ j + (k - j) = omega arith in ap (λ (n : ℕ). g * n) e ∙ mul-add g j (k - j)

module _ (ts g : ℕ) (positive : 0 < g) where
  pub next_boundary_bounds : (ts ≤ next_boundary ts g) × (next_boundary ts g < ts + g)
  unfolding next_boundary
  next_boundary_bounds = ground (arith, mod-lt ts positive)

  pub next_boundary_multiple : (k : ℕ) × (next_boundary ts g ≡ g * k)
  unfolding next_boundary
  next_boundary_multiple = elim (Bool-cases (ts % g == 0)) [
    | inl e ↦ (ts / g, ground (arith, div-add-mod ts g))
    | inr e ↦ (ts / g + 1, ground (arith, div-add-mod ts g, mod-lt ts positive))
  ]

  pub next_boundary_least : (k : ℕ) → ts ≤ g * k → next_boundary ts g ≤ g * k
  unfolding next_boundary
  next_boundary_least k le =
      ground (arith, mul_gap g (ts / g) k (ts % g), div-add-mod ts g, mod-lt ts positive)

-- A bucket with this timestamp is among `bs`.
abbrev pub has_ts : ℕ → List ExpectedBucket → Bool
has_ts t bs = any (λ b. b.bucket_ts == t) bs

module _ (make : ℕ → ExpectedBucket) (stamp : (ts : ℕ) → (make ts).bucket_ts ≡ ts)
    (stop step : ℕ) where
  pub grid_loop_sound :
      (fuel ts t : ℕ)
      → has_ts t (grid_loop fuel make ts stop step) ≡ true
      → (k : ℕ) × (t ≡ ts + step * k) × (t < stop)
  unfolding grid_loop
  grid_loop_sound zero ts t h = cc
  grid_loop_sound (suc fuel) ts t h = elim (Bool-cases (ltb ts stop)) [
    | inl e ↦ elim (Bool-cases (ts == t)) [
      | inl same ↦ (0, ground arith, ground arith)
      | inr differs ↦
          let (k, at, before) = grid_loop_sound fuel (ts + step) t (ground (arith, stamp ts)) in
          (k + 1, omega arith, before)
    ]
    | inr e ↦ ground arith
  ]

  pub grid_loop_complete :
      (fuel ts k : ℕ)
      → ts + step * k < stop
      → k < fuel
      → has_ts (ts + step * k) (grid_loop fuel make ts stop step) ≡ true
  unfolding grid_loop
  grid_loop_complete zero ts k h f = absurd (omega arith)
  grid_loop_complete (suc fuel) ts zero h f = ground (arith, stamp ts)
  grid_loop_complete (suc fuel) ts (suc k) h f =
      let e : ts + step + step * k ≡ ts + step * suc k = omega arith in
      let ih = grid_loop_complete fuel (ts + step) k (omega arith) (omega arith) in
      ground (arith, rw e at ih)

-- The loop as the generator runs it: from the first boundary, with fuel for every step that fits.
module _ (make : ℕ → ExpectedBucket) (stamp : (ts : ℕ) → (make ts).bucket_ts ≡ ts)
    (start stop g : ℕ) (positive : 0 < g) where
  abbrev pub grid : List ExpectedBucket
  grid = grid_loop (suc ((stop - next_boundary start g) / g)) make (next_boundary start g) stop g

  pub grid_sound : (t : ℕ) → has_ts t grid ≡ true → (start ≤ t) × (t < stop) × (t % g ≡ 0)
  grid_sound t h =
      let (k, at, before) = grid_loop_sound make stamp stop g _ _ t h in
      let (k₀, at₀) = next_boundary_multiple start g positive in
      let low = (next_boundary_bounds start g positive).0 in
      (
        omega arith,
        before,
        ap (λ (n : ℕ). n % g) at
            ∙ add-mul-mod_self_left (next_boundary start g) g k
            ∙ ap (λ (n : ℕ). n % g) at₀
            ∙ mul-mod_right g k₀,
      )

  pub grid_complete : (t : ℕ) → start ≤ t → t < stop → t % g ≡ 0 → has_ts t grid ≡ true
  grid_complete t low high on =
      let (k₀, at₀) = next_boundary_multiple start g positive in
      let whole : t ≡ g * (t / g) = omega (arith, div-add-mod t g) in
      let first = next_boundary_least start g positive (t / g) (omega arith) in
      let order : k₀ ≤ t / g = le_of_mul-le-mul_left (omega arith) positive in
      let split : g * (t / g) ≡ g * k₀ + g * (t / g - k₀) = multiple_gap g k₀ (t / g) order in
      let at : next_boundary start g + g * (t / g - k₀) ≡ t = omega arith in
      let fits =
        (le-div_iff_mul-le {x = t / g - k₀} {y = stop - next_boundary start g} positive).1
          (omega arith) in
      rw at at (
        grid_loop_complete make stamp stop g (suc ((stop - next_boundary start g) / g))
          (next_boundary start g) (t / g - k₀) (omega arith) (omega arith))

-- Each timestamp comes before the next.
abbrev pub Increasing : ℕ → List ExpectedBucket → Type 0
Increasing low [] = Unit
Increasing low (b ∷ bs) = (low ≤ b.bucket_ts) × Increasing (suc b.bucket_ts) bs

module _ (make : ℕ → ExpectedBucket) (stamp : (ts : ℕ) → (make ts).bucket_ts ≡ ts) (stop step : ℕ)
    (positive : 0 < step) where
  pub grid_loop-Increasing :
      (fuel low ts : ℕ) → low ≤ ts → Increasing low (grid_loop fuel make ts stop step)
  unfolding grid_loop
  grid_loop-Increasing zero low ts h = tt
  grid_loop-Increasing (suc fuel) low ts h = elim (Bool-cases (ltb ts stop)) [
    | inl e ↦ rw e (
      rw (stamp ts) h,
      rw (stamp ts) (grid_loop-Increasing fuel (suc ts) (ts + step) (omega arith)),
    )
    | inr e ↦ rw e tt
  ]

-- What holds of every bucket that can be made holds of the list.
pub grid_loop-All {ℓ} :
    (P : ExpectedBucket → Type ℓ) (make : ℕ → ExpectedBucket) (made : (ts : ℕ) → P (make ts))
    (fuel ts stop step : ℕ)
    → All P (grid_loop fuel make ts stop step)
unfolding grid_loop
grid_loop-All P make made zero ts stop step = tt
grid_loop-All P make made (suc fuel) ts stop step = elim (Bool-cases (ltb ts stop)) [
  | inl e ↦ rw e (made ts, grid_loop-All P make made fuel (ts + step) stop step)
  | inr e ↦ rw e tt
]
