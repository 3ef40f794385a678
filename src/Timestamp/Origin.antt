-- ===== src/Timestamp/Origin.antt =====
-- The origin rules: where a timestamp lands, and when it is refused.
use native.Mathlib.Nat.{mod-lt, mul-mod_left, mod-add-div'}
use skn25_final_4team.Prelude.{
  ==_iff, is_ok, Option-cases, ℕ, ◌+◌, ◌*◌, ◌/◌, ◌%◌, ◌≤◌, ◌<◌, ◌≡◌, ◌↔◌, refl, String, Bool, true,
  false, ◌||◌, ◌==◌, Option, some, str_eq, ltb, ltb→lt, inl, inr, ok, >>=-eq-ok, ok-carry,
  require-ok, Bool-cases, arith,
}
use skn25_final_4team.Timestamp.{
  TimestampPolicy, TimeLib, SourceValue, NormalizedTimestamp, among, timestamp_origin_rules,
  timestamp_policy, require_texts, required_texts, source_timestamp_types, floor_to_interval,
  is_on_interval_boundary, apply_origin_rule, parse_to_utc, normalize_timestamp,
}

-- The length of an interval in microseconds.
abbrev pub interval : TimestampPolicy → ℕ
interval p = p.native_interval_seconds * 1_000_000

floor-within :
    (ts seconds : ℕ)
    → 0 < seconds
    → (floor_to_interval ts seconds ≤ ts)
      × (ts < floor_to_interval ts seconds + seconds * 1_000_000)
unfolding floor_to_interval
floor-within ts seconds positive =
    let small = mod-lt (ts / 1_000_000) positive in
    let split = mod-add-div' (ts / 1_000_000) seconds in
    (omega (arith, small, split), omega (arith, small, split))

boundary-floor :
    (ts seconds : ℕ)
    → 0 < seconds
    → is_on_interval_boundary ts seconds ≡ true
    → floor_to_interval ts seconds ≡ ts
unfolding floor_to_interval is_on_interval_boundary
boundary-floor ts seconds positive h =
    let split = mod-add-div' (ts / 1_000_000) seconds in
    let whole : ts % 1_000_000 ≡ 0 = ground arith in
    let aligned : ts / 1_000_000 % seconds ≡ 0 = ground arith in
    omega (arith, split, whole, aligned)

floor-boundary :
    (ts seconds : ℕ)
    → 0 < seconds
    → is_on_interval_boundary (floor_to_interval ts seconds) seconds ≡ true
unfolding floor_to_interval is_on_interval_boundary
floor-boundary ts seconds positive =
    let multiple = mul-mod_left (ts / 1_000_000 / seconds) seconds in
    let back : ts / 1_000_000 / seconds * seconds * 1_000_000 / 1_000_000
        ≡ ts / 1_000_000 / seconds * seconds =
      omega arith in
    let whole : ts / 1_000_000 / seconds * seconds * 1_000_000 % 1_000_000 ≡ 0 = omega arith in
    rw (back, whole, multiple) refl

abbrev floors : TimestampPolicy → Bool
floors p = str_eq p.timestamp_origin_rule "floor_to_native_interval"

-- A timestamp on a boundary, at most one interval before the instant that it stands for; its code
-- says whether it was moved.
abbrev pub Lands : TimestampPolicy → ℕ → ℕ × String → Type 0
Lands p utc (ts, code) =
    (is_on_interval_boundary ts p.native_interval_seconds ≡ true)
    × (ts ≤ utc)
    × (utc < ts + interval p)
    × ((str_eq code "timestamp_normalized" ≡ true) ↔ (ts ≡ utc))

apply_origin_rule-Lands :
    (utc : ℕ) (p : TimestampPolicy) (r : ℕ × String)
    → 0 < p.native_interval_seconds
    → apply_origin_rule utc p ≡ ok r
    → Lands p utc r
unfolding apply_origin_rule
apply_origin_rule-Lands utc p r positive h = elim (Bool-cases (floors p)) [
  | inl e ↦
      let (below, above) = floor-within utc p.native_interval_seconds positive in
      elim (Bool-cases (floor_to_interval utc p.native_interval_seconds == utc)) [
        | inl f ↦ ok-carry (Lands p utc) (rw (e, f) at h) (
          floor-boundary utc p.native_interval_seconds positive,
          below,
          above,
          ((λ _. (==_iff (floor_to_interval utc p.native_interval_seconds) utc).0 f), (λ _. refl)),
        )
        | inr f ↦ ok-carry (Lands p utc) (rw (e, f) at h) (
          floor-boundary utc p.native_interval_seconds positive,
          below,
          above,
          (
            (λ wrong. cc),
            (λ same.
                let yes = (==_iff (floor_to_interval utc p.native_interval_seconds) utc).1 same in
                cc),
          ),
        )
      ]
  | inr e ↦
      let (aligned, h1) =
        require-ok (is_on_interval_boundary utc p.native_interval_seconds) _ _ (rw e at h) in
      let (known, h2) =
        require-ok
          (str_eq p.timestamp_origin_rule "exact_boundary"
            || str_eq p.timestamp_origin_rule "reject_off_boundary")
          _ _ h1 in
      ok-carry (Lands p utc) h2
        (aligned, omega arith, omega (arith, positive), (λ _. refl, λ _. refl))
]

-- What a policy that is accepted guarantees to the normalizer.
timestamp_policy-accepts :
    (p q : TimestampPolicy)
    → timestamp_policy p ≡ ok q
    → (0 < p.native_interval_seconds)
      × (among p.timestamp_origin_rule timestamp_origin_rules ≡ true)
unfolding timestamp_policy
timestamp_policy-accepts p q h =
    let (texts, h0, h1) = >>=-eq-ok (require_texts (required_texts p)) _ h in
    let (types, h2) = require-ok (among p.source_timestamp_type source_timestamp_types) _ _ h1 in
    let (rules, h3) = require-ok (among p.timestamp_origin_rule timestamp_origin_rules) _ _ h2 in
    let (positive, h4) = require-ok (ltb 0 p.native_interval_seconds) _ _ h3 in
    (ltb→lt 0 p.native_interval_seconds positive, rules)

abbrev exact : TimestampPolicy → Bool
exact p =
    str_eq p.timestamp_origin_rule "exact_boundary"
    || str_eq p.timestamp_origin_rule "reject_off_boundary"

exact_rules :
    (p : TimestampPolicy)
    → among p.timestamp_origin_rule timestamp_origin_rules ≡ true
    → floors p ≡ false
    → exact p ≡ true
exact_rules p h e = ground arith

-- With a policy that is accepted, an origin rule returns exactly if it floors or the timestamp is on
-- a boundary of the native interval.
pub apply_origin_rule-is_ok :
    (utc : ℕ) (p : TimestampPolicy)
    → timestamp_policy p ≡ ok p
    → is_ok (apply_origin_rule utc p) ≡ (
        str_eq p.timestamp_origin_rule "floor_to_native_interval"
        || is_on_interval_boundary utc p.native_interval_seconds)
unfolding apply_origin_rule
apply_origin_rule-is_ok utc p accepted = elim (Bool-cases (floors p)) [
  | inl e ↦ rw e refl
  | inr e ↦
      let known = exact_rules p (timestamp_policy-accepts p p accepted).1 e in
      elim (Bool-cases (is_on_interval_boundary utc p.native_interval_seconds)) [
        | inl f ↦ rw (e, f, known) refl
        | inr f ↦ rw (e, f) refl
      ]
]

-- With a policy that is accepted, a timestamp that an origin rule returned is returned by it again,
-- as normalized.
pub apply_origin_rule-again :
    (utc : ℕ) (p : TimestampPolicy) (r : ℕ × String)
    → timestamp_policy p ≡ ok p
    → apply_origin_rule utc p ≡ ok r
    → apply_origin_rule r.0 p ≡ ok (r.0, "timestamp_normalized")
unfolding apply_origin_rule
apply_origin_rule-again utc p r accepted h =
    let (positive, rules) = timestamp_policy-accepts p p accepted in
    let aligned = (apply_origin_rule-Lands utc p r positive h).0 in
    elim (Bool-cases (floors p)) [
      | inl e ↦
          let same = boundary-floor r.0 p.native_interval_seconds positive aligned in
          rw (e, same, (==_iff r.0 r.0).1 refl) refl
      | inr e ↦ rw (e, aligned, exact_rules p rules e) refl
    ]

-- With a policy that is accepted, a normalized timestamp is the instant of the row's value, put on
-- the boundary of the native interval at or before it and less than one interval away; its quality
-- code is "timestamp_normalized" exactly if it was not moved.
pub normalize_timestamp-Lands :
    (lib : TimeLib) (row : String → Option SourceValue) (p : TimestampPolicy)
    (n : NormalizedTimestamp)
    → timestamp_policy p ≡ ok p
    → normalize_timestamp lib row p ≡ ok n
    → (value : SourceValue) × (utc : ℕ) × (row p.timestamp_column ≡ some value)
      × (parse_to_utc lib value p ≡ ok utc)
      × Lands p utc (n.event_ts_utc, n.timestamp_quality_code)
unfolding normalize_timestamp
normalize_timestamp-Lands lib row p n accepted h = elim (Option-cases (row p.timestamp_column)) [
  | inl e ↦ let wrong = rw (e, normalize_timestamp) at h in cc
  | inr (value, e) ↦
      let (utc, h1, h2) =
        >>=-eq-ok (parse_to_utc lib value p) _ (rw (e, normalize_timestamp) at h) in
      let (ruled, h3, h4) = >>=-eq-ok (apply_origin_rule utc p) _ h2 in
      let positive = (timestamp_policy-accepts p p accepted).0 in
      let lands = apply_origin_rule-Lands utc p ruled positive h3 in
      (
        value,
        utc,
        e,
        h1,
        ok-carry (λ m. Lands p utc (m.event_ts_utc, m.timestamp_quality_code)) h4 lands,
      )
]
