-- ===== src/Live/Peaks.antt =====
-- The peak of a peak feature: the first of the greatest values that were observed.
use mathlib.Core.Logic.Or
use mathlib.Core.Path.{subst}
use mathlib.Core.List.{Mem, Mem-prop, mem-cons_self, mem-cons_of_mem, eq-or-mem_of_mem-cons}
use skn25_final_4team.Prelude.{
  ℕ, ◌-◌, ◌≡◌, refl, sym, String, Bool, true, false, ◌&&◌, ◌==◌, ◌⊎◌, inl, inr, Option, none, some,
  List, [], ◌∷◌, ltb, leb, length, All, str_eq, ok, >>=-eq-ok, ok-injective, require-ok, Bool-cases,
}
use skn25_final_4team.Live.{same_mode, mart_peak_feature_15min, require_live_observed_source}
use skn25_final_4team.Live.Coverage.{WorkerFloats, ExpectedPointsPolicy, Coverage, compute_coverage}
use skn25_final_4team.Live.Rollup.{
  PeakFeatureRecord, Observation, observed_rows, max_by, peak_expected, peak_row, peak_record,
  build_peak_feature,
}

module _ (W : WorkerFloats) where
  -- No value is NaN.
  abbrev IsNumber : Observation W → Type 0
  IsNumber o = W.is_nan o.1 ≡ false

  observed_rows-IsNumber :
      (rows : List (ℕ × Option W.Float × String)) → All IsNumber (observed_rows W rows)
  unfolding observed_rows
  observed_rows-IsNumber [] = tt
  observed_rows-IsNumber ((ts, none, id) ∷ rest) = observed_rows-IsNumber rest
  observed_rows-IsNumber ((ts, some v, id) ∷ rest) = elim (Bool-cases (W.is_nan v)) [
    | inl e ↦ rw e (observed_rows-IsNumber rest)
    | inr e ↦ rw e (e, observed_rows-IsNumber rest)
  ]

  abbrev pick : Observation W → List (Observation W) → Observation W
  pick o rest = max_by W (λ p. p.1) o rest

  pick-only : (o : Observation W) → pick o [] ≡ o
  unfolding max_by
  pick-only o = refl

  pick-later :
      (o p : Observation W) (rest : List (Observation W))
      → W.less o.1 p.1 ≡ true
      → pick o (p ∷ rest) ≡ pick p rest
  unfolding max_by
  pick-later o p rest e = rw e refl

  pick-kept :
      (o p : Observation W) (rest : List (Observation W))
      → W.less o.1 p.1 ≡ false
      → pick o (p ∷ rest) ≡ pick o rest
  unfolding max_by
  pick-kept o p rest e = rw e refl

  skip-second :
      (a o p : Observation W) (rest : List (Observation W))
      → Mem a (o ∷ rest)
      → Mem a (o ∷ p ∷ rest)
  skip-second a o p rest h =
      Or.elim Mem-prop (eq-or-mem_of_mem-cons h) (λ e. rw e mem-cons_self)
        (λ m. mem-cons_of_mem o (mem-cons_of_mem p m))

  pick-Mem : (o : Observation W) (rest : List (Observation W)) → Mem (pick o rest) (o ∷ rest)
  unfolding max_by
  pick-Mem o [] = mem-cons_self
  pick-Mem o (p ∷ rest) = elim (Bool-cases (W.less o.1 p.1)) [
    | inl e ↦ rw (pick-later o p rest e) (mem-cons_of_mem o (pick-Mem p rest))
    | inr e ↦ rw (pick-kept o p rest e) (skip-second (pick o rest) o p rest (pick-Mem o rest))
  ]

  peak_record-eq :
      (fold : String → String) (r s : PeakFeatureRecord W) → peak_record W fold r ≡ ok s → r ≡ s
  unfolding peak_record
  peak_record-eq fold r s h =
      let (t1, h1) = require-ok (str_eq r.table mart_peak_feature_15min) _ _ h in
      let (source, h2, h3) =
        >>=-eq-ok (require_live_observed_source fold r.source_layer (some r.source_mode)) _ h1 in
      let (t4, h4) = require-ok (ltb 0 r.expected_points) _ _ h3 in
      let (t5, h5) = require-ok (leb r.observed_points r.expected_points) _ _ h4 in
      let (t6, h6) =
        require-ok (r.missing_points == r.expected_points - r.observed_points) _ _ h5 in
      let (t7, h7) =
        require-ok
          (str_eq r.provenance.source_layer r.source_layer
            && same_mode r.provenance.source_mode r.source_mode)
          _ _ h6 in
      ok-injective h7

  -- The laws of < on floats: no float is below itself, of two only one is below the other, and a
  -- number stands on one side or the other of a gap.
  module _ (irreflexive : (a : W.Float) → W.less a a ≡ false)
      (asymmetric : (a b : W.Float) → W.less a b ≡ true → W.less b a ≡ false)
      (splits : (a b c : W.Float)
        → W.is_nan b ≡ false
        → W.less a c ≡ true
        → (W.less a b ≡ true) ⊎ (W.less b c ≡ true)) where
    -- No row is above the value.
    abbrev Tops : W.Float → List (Observation W) → Type 0
    Tops m rows = All (λ p. W.less m p.1 ≡ false) rows

    not_below :
        (a b c : W.Float)
        → W.is_nan b ≡ false
        → W.less a b ≡ false
        → W.less b c ≡ false
        → W.less a c ≡ false
    not_below a b c number ab bc = elim (Bool-cases (W.less a c)) [
      | inr e ↦ e
      | inl e ↦ elim (splits a b c number e) [ inl t ↦ cc | inr t ↦ cc ]
    ]

    pick-Tops :
        (o : Observation W) (rest : List (Observation W))
        → All IsNumber (o ∷ rest)
        → Tops (pick o rest).1 (o ∷ rest)
    pick-Tops o [] numbers = (rw (pick-only o) (irreflexive o.1), tt)
    pick-Tops o (p ∷ rest) (number, (number', numbers)) = elim (Bool-cases (W.less o.1 p.1)) [
      | inl e ↦
          let (top, below) = pick-Tops p rest (number', numbers) in
          subst (λ q. Tops q.1 (o ∷ p ∷ rest)) (sym (pick-later o p rest e))
            (not_below (pick p rest).1 p.1 o.1 number' top (asymmetric o.1 p.1 e), (top, below))
      | inr e ↦
          let (top, below) = pick-Tops o rest (number, numbers) in
          subst (λ q. Tops q.1 (o ∷ p ∷ rest)) (sym (pick-kept o p rest e))
            (top, (not_below (pick o rest).1 o.1 p.1 number top e, below))
    ]

    -- What a peak feature says of the rows that were observed.
    abbrev pub IsPeakOf : PeakFeatureRecord W → List (Observation W) → Type 0
    IsPeakOf r rows =
        ((rows ≡ []) × (r.peak_value ≡ none))
        ⊎ ((o : Observation W) × Mem o rows
            × (r.peak_value ≡ some o.1)
            × (r.peak_ts ≡ some o.0)
            × Tops o.1 rows)

    peak_row-IsPeakOf :
        (fold : String → String) (c : Coverage W) (bucket_ts : ℕ) (meter_urn measurement : String)
        (min_coverage : W.Float) (native : Bool) (rows : List (Observation W))
        → All IsNumber rows
        → IsPeakOf (peak_row W fold c bucket_ts meter_urn measurement min_coverage native rows) rows
    unfolding peak_row
    peak_row-IsPeakOf fold c bucket_ts meter_urn measurement min_coverage native [] numbers =
        inl (refl, refl)
    peak_row-IsPeakOf fold c bucket_ts meter_urn measurement min_coverage native (o ∷ rest)
          numbers =
        inr (pick o rest, pick-Mem o rest, refl, refl, pick-Tops o rest numbers)

    -- If < on floats is irreflexive and asymmetric, and a number stands on one side or the other of
    -- a gap, then a peak feature that is built has no peak if nothing was observed; else its peak
    -- is the value and the time of a row that was observed, and no such row is above it.
    pub build_peak_feature-IsPeakOf :
        (fold : String → String) (bucket_ts : ℕ) (meter_urn measurement : String)
        (observations : List (ℕ × Option W.Float × String)) (points : Option ℕ)
        (policy : Option ExpectedPointsPolicy) (min_coverage : W.Float) (r : PeakFeatureRecord W)
        → build_peak_feature W fold bucket_ts meter_urn measurement observations points policy
            min_coverage
          ≡ ok r
        → IsPeakOf r (observed_rows W observations)
    unfolding build_peak_feature
    build_peak_feature-IsPeakOf fold bucket_ts meter_urn measurement observations points policy
          min_coverage r h =
        let rows = observed_rows W observations in
        let (expected, h0, h1) = >>=-eq-ok (peak_expected W fold policy points) _ h in
        let (coverage, h2, h3) = >>=-eq-ok (compute_coverage W (length rows) expected.0) _ h1 in
        let row =
          peak_row W fold coverage bucket_ts meter_urn measurement min_coverage expected.1 rows in
        let same = peak_record-eq fold row r h3 in
        rw (← same) (
          peak_row-IsPeakOf fold coverage bucket_ts meter_urn measurement min_coverage expected.1
            rows (observed_rows-IsNumber observations))
