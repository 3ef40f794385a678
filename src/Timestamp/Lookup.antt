-- ===== src/Timestamp/Lookup.antt =====
-- What get_policy finds in a registry that was loaded.
use skn25_final_4team.Prelude.{
  ℕ, ◌≡◌, String, Bool, true, false, not, Option, List, [], ◌∷◌, any, str_eq, str_eq_iff, ok, All,
  refl, >>=-eq-ok, require-ok, Bool-cases, inl, inr, ok-injective, arith,
}
use skn25_final_4team.Timestamp.{TimeLib, TimestampPolicy}
use skn25_final_4team.Timestamp.Registry.{
  Row, has_key, get_policy, policy_from_row, load_rows, validate_header,
  load_timestamp_policy_registry,
}

-- A policy that is found is the first with its key, so some policy has the key.
get_policy-has_key :
    (policies : List TimestampPolicy) (meter_urn measurement : String) (p : TimestampPolicy)
    → get_policy policies meter_urn measurement ≡ ok p
    → any (has_key meter_urn measurement) policies ≡ true
unfolding get_policy
get_policy-has_key [] meter_urn measurement p h = cc
get_policy-has_key (q ∷ rest) meter_urn measurement p h =
    elim (Bool-cases (has_key meter_urn measurement q)) [
      | inl e ↦ rw e refl
      | inr e ↦ rw e (get_policy-has_key rest meter_urn measurement p (rw e at h))
    ]

-- A policy with a new key hides none.
get_policy-kept :
    (q : TimestampPolicy) (policies : List TimestampPolicy) (meter_urn measurement : String)
    (p : TimestampPolicy)
    → any (has_key q.meter_urn q.measurement) policies ≡ false
    → get_policy policies meter_urn measurement ≡ ok p
    → get_policy (q ∷ policies) meter_urn measurement ≡ ok p
unfolding get_policy
get_policy-kept q policies meter_urn measurement p fresh h =
    elim (Bool-cases (has_key meter_urn measurement q)) [
      | inl e ↦
          let first : str_eq q.meter_urn meter_urn ≡ true = ground (arith, e) in
          let second : str_eq q.measurement measurement ≡ true = ground (arith, e) in
          let same : q.meter_urn ≡ meter_urn = (str_eq_iff q.meter_urn meter_urn).0 first in
          let also : q.measurement ≡ measurement =
            (str_eq_iff q.measurement measurement).0 second in
          let there = get_policy-has_key policies meter_urn measurement p h in
          let gone = rw (same, also) at fresh in cc
      | inr e ↦ rw e h
    ]

unset : (b : Bool) → not b ≡ true → b ≡ false
unset true h = cc
unset false h = refl

module _ (lib : TimeLib) (int : String → Option ℕ) where
  -- A row of the file whose policy a registry finds under its key.
  abbrev pub IsFound : List TimestampPolicy → Row → Type 0
  IsFound r row =
      (p : TimestampPolicy) × (policy_from_row lib int row ≡ ok p)
      × (get_policy r p.meter_urn p.measurement ≡ ok p)

  load_rows-keeps :
      (rows : List Row) (policies r : List TimestampPolicy) (meter_urn measurement : String)
      (p : TimestampPolicy)
      → load_rows lib int rows policies ≡ ok r
      → get_policy policies meter_urn measurement ≡ ok p
      → get_policy r meter_urn measurement ≡ ok p
  unfolding load_rows
  load_rows-keeps [] policies r meter_urn measurement p h found = rw (← ok-injective h) found
  load_rows-keeps (row ∷ rest) policies r meter_urn measurement p h found =
      let (q, h1, h2) = >>=-eq-ok (policy_from_row lib int row) _ h in
      let (t3, h3) = require-ok (not (any (has_key q.meter_urn q.measurement) policies)) _ _ h2 in
      load_rows-keeps rest (q ∷ policies) r meter_urn measurement p h3 (
        get_policy-kept q policies meter_urn measurement p
          (unset (any (has_key q.meter_urn q.measurement) policies) t3) found)

  get_policy-first :
      (q : TimestampPolicy) (policies : List TimestampPolicy)
      → get_policy (q ∷ policies) q.meter_urn q.measurement ≡ ok q
  unfolding get_policy
  get_policy-first q policies =
      rw
        (
          (str_eq_iff q.meter_urn q.meter_urn).1 refl,
          (str_eq_iff q.measurement q.measurement).1 refl,
        )
        refl

  load_rows-IsFound :
      (rows : List Row) (policies r : List TimestampPolicy)
      → load_rows lib int rows policies ≡ ok r
      → All (IsFound r) rows
  unfolding load_rows
  load_rows-IsFound [] policies r h = tt
  load_rows-IsFound (row ∷ rest) policies r h =
      let (q, h1, h2) = >>=-eq-ok (policy_from_row lib int row) _ h in
      let (t3, h3) = require-ok (not (any (has_key q.meter_urn q.measurement) policies)) _ _ h2 in
      (
        (
          q,
          h1,
          load_rows-keeps rest (q ∷ policies) r q.meter_urn q.measurement q h3
              (get_policy-first q policies),
        ),
        load_rows-IsFound rest (q ∷ policies) r h3,
      )

  -- When a registry loads, each row of the file gives a policy, and get_policy finds just that policy
  -- under the row's meter and measurement: no other row takes its place.
  pub load_timestamp_policy_registry-IsFound :
      (fieldnames : Option (List String)) (rows : List Row) (r : List TimestampPolicy)
      → load_timestamp_policy_registry lib int fieldnames rows ≡ ok r
      → All (IsFound r) rows
  unfolding load_timestamp_policy_registry
  load_timestamp_policy_registry-IsFound fieldnames rows r h =
      let (u, h1, h2) = >>=-eq-ok (validate_header fieldnames) _ h in load_rows-IsFound rows [] r h2
