-- ===== src/Canonical.antt =====
-- src/cms/data/canonical_promotion_runner.py: the pass that promotes live rows to the canonical
-- tables. The SQL statement is a function of the tables that it reads, one function for each of its
-- common table expressions; Canonical/Command has the checks of a command and the write gate. The
-- columns that are copied unread (value, unit, masks, quality, lineage) and the times are left out;
-- the test of the coverage ratio is the parameter `near`. The policy of a check is found by its id,
-- a key, so a join with it keeps at most one row.
pub mod Command
pub mod Backed
pub mod Gate
mod Tests
use skn25_final_4team.Prelude.{
  ℕ, zero, suc, ◌+◌, ◌*◌, String, Bool, true, false, not, ◌&&◌, ◌||◌, Option, none, some, List, [],
  ◌∷◌, ◌++◌, map, ltb, leb, ◌==◌, str_eq, any, keep, if◌then◌else◌,
}
use skn25_final_4team.Equalize.{sorted}
use skn25_final_4team.Live.{
  Resolution, res_1min, res_15min, res_1h, among, live_measurement_15min, live_measurement_1h,
}
use skn25_final_4team.Queue.{take, bucket_end}

-- A row of live.promotion_check, with what the statement reads of its evidence.
pub record CheckRow (F : Type 0) : Type 0 where
  pub check_id : ℕ
  pub source_table : String
  pub meter_urn : String
  pub measurement : String
  pub bucket_ts : ℕ
  pub policy_id : ℕ
  pub policy_version : ℕ
  pub passes : Bool
  pub block_reasons : List String
  pub canonical_write : Option Bool
  pub coverage_ratio : Option F

pub record PolicyRow : Type 0 where
  pub policy_id : ℕ
  pub policy_version : ℕ
  pub meter_urn : String
  pub measurement : String
  pub enabled : Bool
  pub canonical_eligible : Bool
  pub cadence_group : String
  pub source_native_interval_seconds : ℕ

-- A row of live.measurement_15min or live.measurement_1h.
pub record LiveRow (F : Type 0) : Type 0 where
  pub bucket_ts : ℕ
  pub meter_urn : String
  pub measurement : String
  pub resolution : Resolution
  pub policy_version : ℕ
  pub expected_points : ℕ
  pub observed_points : ℕ
  pub gap_points : ℕ
  pub coverage_ratio : F

-- The parameters of the command that the statement reads.
pub record Params (F : Type 0) : Type 0 where
  pub source_tables : List String
  pub batch_size : ℕ
  pub min_coverage_ratio : F
  pub max_bucket_ts : Option ℕ
  pub promotion_id : String

-- A row of a canonical table, with the check and the promotion of its provenance.
pub record CanonicalRow (F : Type 0) : Type 0 where
  pub source : LiveRow F
  pub promotion_check_id : ℕ
  pub promotion_id : String

pub record Tables (F : Type 0) : Type 0 where
  pub checks : List (CheckRow F)
  pub policies : List PolicyRow
  pub live_15min : List (LiveRow F)
  pub live_1h : List (LiveRow F)
  pub canonical_15min : List (CanonicalRow F)
  pub canonical_1h : List (CanonicalRow F)

abbrev pub same_resolution : Resolution → Resolution → Bool
same_resolution res_1min res_1min = true
same_resolution res_15min res_15min = true
same_resolution res_1h res_1h = true
same_resolution _ _ = false

abbrev written : Option Bool → Bool
written (some true) = true
written _ = false

abbrev no_reasons : List String → Bool
no_reasons [] = true
no_reasons (r ∷ rest) = false

-- The table and the points of a bucket of a resolution.
abbrev pub live_table : Resolution → String
live_table res_1h = live_measurement_1h
live_table _ = live_measurement_15min

abbrev pub full_points : Resolution → ℕ
full_points res_1h = 60
full_points _ = 15

-- A module for the parameters: <= on ratios, and whether a ratio is within 0.000001 of a fraction.
module _ {F : Type 0} (at_most : F → F → Bool) (near : F → ℕ → ℕ → Bool) where
  abbrev policy_allows : CheckRow F → PolicyRow → Bool
  policy_allows pc policy =
      policy.policy_id == pc.policy_id
      && (policy.policy_version == pc.policy_version
          && (str_eq policy.meter_urn pc.meter_urn
              && (str_eq policy.measurement pc.measurement
                  && (policy.enabled
                      && (policy.canonical_eligible
                          && (str_eq policy.cadence_group "native_1min"
                              && policy.source_native_interval_seconds == 60))))))

  abbrev covered : Option F → F → Bool
  covered none least = true
  covered (some ratio) least = at_most least ratio

  abbrev ended : Option ℕ → CheckRow F → Bool
  ended none pc = true
  ended (some max_ts) pc =
      str_eq pc.source_table live_measurement_15min
        && leb (bucket_end res_15min pc.bucket_ts) max_ts
      || str_eq pc.source_table live_measurement_1h && leb (bucket_end res_1h pc.bucket_ts) max_ts

  -- The conditions on a source row: its counts are consistent, and it is the row of a check.
  abbrev pub is_consistent : Resolution → LiveRow F → Bool
  is_consistent resolution src =
      same_resolution src.resolution resolution
      && (src.expected_points == full_points resolution
          && (leb src.observed_points src.expected_points
              && (leb src.gap_points src.expected_points
                  && (leb (src.observed_points + src.gap_points) src.expected_points
                      && near src.coverage_ratio src.observed_points src.expected_points))))

  abbrev pub is_source_of : Resolution → CheckRow F → LiveRow F → Bool
  is_source_of resolution pc src =
      str_eq pc.source_table (live_table resolution)
      && (src.bucket_ts == pc.bucket_ts
          && (str_eq src.meter_urn pc.meter_urn
              && (str_eq src.measurement pc.measurement
                  && (src.policy_version == pc.policy_version && is_consistent resolution src))))

  -- The WHERE clause of eligible_checks.
  abbrev pub is_eligible : Params F → Tables F → CheckRow F → Bool
  is_eligible p t pc =
      pc.passes
      && (among pc.source_table p.source_tables
          && (no_reasons pc.block_reasons
              && (any (policy_allows pc) t.policies
                  && (not (written pc.canonical_write)
                      && (covered pc.coverage_ratio p.min_coverage_ratio
                          && (ended p.max_bucket_ts pc
                              && (any (is_source_of res_15min pc) t.live_15min
                                  || any (is_source_of res_1h pc) t.live_1h)))))))

  abbrev pub check_before : CheckRow F → CheckRow F → Bool
  check_before a b =
      ltb a.bucket_ts b.bucket_ts || a.bucket_ts == b.bucket_ts && ltb a.check_id b.check_id

  -- `busy` are the checks that another transaction has locked.
  unfoldable pub eligible_checks : (ℕ → Bool) → Params F → Tables F → List (CheckRow F)
  unfolding take sorted
  eligible_checks busy p t =
      take p.batch_size
        (sorted check_before (keep (λ pc. is_eligible p t pc && not (busy pc.check_id)) t.checks))

  -- The rows of one check, each with the check's id.
  unfoldable pub rows_of : Resolution → List (LiveRow F) → CheckRow F → List (LiveRow F × ℕ)
  rows_of resolution live pc =
      map (λ src. (src, pc.check_id)) (keep (is_source_of resolution pc) live)

  unfoldable pub joined_rows :
      Resolution → List (LiveRow F) → List (CheckRow F) → List (LiveRow F × ℕ)
  unfolding rows_of
  joined_rows resolution live [] = []
  joined_rows resolution live (pc ∷ rest) =
      rows_of resolution live pc ++ joined_rows resolution live rest

  abbrev pub same_key : LiveRow F → LiveRow F → Bool
  same_key a b =
      a.bucket_ts == b.bucket_ts
      && (str_eq a.meter_urn b.meter_urn && str_eq a.measurement b.measurement)

  -- The first of the rows with a key.
  unfoldable pub first_of_each : List (LiveRow F × ℕ) → List (LiveRow F × ℕ)
  first_of_each [] = []
  first_of_each (r ∷ rest) = r ∷ keep (λ s. not (same_key r.0 s.0)) (first_of_each rest)

  -- SELECT DISTINCT ON (bucket_ts, meter_urn, measurement) ... ORDER BY ..., check_id DESC
  unfoldable pub source_rows :
      Resolution → List (LiveRow F) → List (CheckRow F) → List (LiveRow F × ℕ)
  unfolding joined_rows first_of_each sorted
  source_rows resolution live checks =
      first_of_each (sorted (λ a b. ltb b.1 a.1) (joined_rows resolution live checks))

  -- INSERT ... ON CONFLICT (bucket_ts, meter_urn, measurement) DO UPDATE
  unfoldable pub upsert_canonical : CanonicalRow F → List (CanonicalRow F) → List (CanonicalRow F)
  upsert_canonical r [] = r ∷ []
  upsert_canonical r (old ∷ rest) =
      let later = upsert_canonical r rest in
      if same_key old.source r.source then r ∷ rest else old ∷ later

  unfoldable pub promote_rows :
      String → List (LiveRow F × ℕ) → List (CanonicalRow F) → List (CanonicalRow F)
  unfolding upsert_canonical
  promote_rows promotion_id [] table = table
  promote_rows promotion_id ((src, id) ∷ rest) table = promote_rows promotion_id rest (
      upsert_canonical
        (record { source = src; promotion_check_id = id; promotion_id = promotion_id }) table)

  -- UPDATE live.promotion_check: the evidence of the checks that were promoted
  unfoldable pub mark_checks : List (LiveRow F × ℕ) → List (CheckRow F) → List (CheckRow F)
  mark_checks sources [] = []
  mark_checks sources (pc ∷ rest) =
      (if any (λ s. pc.check_id == s.1) sources
        then record pc { canonical_write = some true }
        else pc)
      ∷ mark_checks sources rest

  unfoldable pub promotion_pass : (ℕ → Bool) → Params F → Tables F → Tables F
  unfolding eligible_checks source_rows promote_rows mark_checks
  promotion_pass busy p t =
      let checks = eligible_checks busy p t in
      let quarters = source_rows res_15min t.live_15min checks in
      let hours = source_rows res_1h t.live_1h checks in
      record t {
        checks = mark_checks (quarters ++ hours) t.checks;
        canonical_15min = promote_rows p.promotion_id quarters t.canonical_15min;
        canonical_1h = promote_rows p.promotion_id hours t.canonical_1h;
      }
