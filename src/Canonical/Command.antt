-- ===== src/Canonical/Command.antt =====
-- src/cms/data/canonical_promotion_runner.py: the checks of a command, and the write gate.
use text.Mathlib.Text.{starts_with}
use skn25_final_4team.Prelude.{
  ℕ, String, Bool, true, false, not, ◌&&◌, ◌||◌, Option, none, some, List, [], ◌∷◌, ltb, str_eq,
  str_append, if◌then◌else◌, value_error, Result, ok, raises, require, ◌>>=◌, ◌>>◌,
}
use skn25_final_4team.Live.{
  among, contains, live_measurement_15min, live_measurement_1h, mart_peak_tables,
}
use skn25_final_4team.Live.Gates.{block_if}
use skn25_final_4team.Live.Trigger.{is_empty}
use skn25_final_4team.Live.Coverage.{WorkerFloats}

abbrev pub allowed_source_tables : List String
allowed_source_tables = live_measurement_15min ∷ live_measurement_1h ∷ []

abbrev pub write_env_flag : String
write_env_flag = "CMS_ENABLE_CANONICAL_PROMOTION"

-- The SQL text is a function of source_tables.
pub record CanonicalPromotionCommand (W : WorkerFloats) : Type 0 where
  pub source_tables : List String
  pub target_tables : List String
  pub approval_id : String
  pub promotion_id : String
  pub batch_size : ℕ
  pub min_coverage_ratio : W.Float
  pub max_bucket_ts : Option ℕ
  pub write_gate_env : String

pub record CanonicalPromotionResult : Type 0 where
  pub is_done : Bool
  pub attempted : Bool
  pub promoted_15min_count : ℕ
  pub promoted_1h_count : ℕ
  pub promotion_check_count : ℕ
  pub marked_promotion_check_count : ℕ
  pub is_blocked : Bool
  pub errors : List String

-- tuple(dict.fromkeys(values)): each value once, where it comes first
unfoldable pub from_keys : List String → List String → List String
from_keys seen [] = []
from_keys seen (v ∷ vs) =
    let rest = from_keys (v ∷ seen) vs in
    let skipped = from_keys seen vs in if among v seen then skipped else v ∷ rest

unfoldable pub validate_each : List String → Result (Unit {0})
validate_each [] = ok tt
validate_each (source ∷ rest) = do
  require (not (among source mart_peak_tables || starts_with source "mart."))
      (value_error "canonical promotion must not use mart/peak source table")
  require (not (starts_with source "reference." || contains source "corrected"))
      (value_error "canonical promotion must not use reference/corrected source table")
  require (among source allowed_source_tables)
      (value_error "unsupported canonical promotion source table")
  validate_each rest

unfoldable pub validate_source_tables : List String → Result (Unit {0})
unfolding validate_each
validate_source_tables sources = do
  require (not (is_empty sources)) (value_error "at least one source table is required")
  validate_each sources

unfoldable pub target_table_for_source : String → Result String
target_table_for_source source =
    if str_eq source live_measurement_15min
    then ok "canonical.measurement_15min"
    else if str_eq source live_measurement_1h
    then ok "canonical.measurement_1h"
    else raises (value_error "unsupported canonical promotion source table")

unfoldable pub target_tables_for : List String → Result (List String)
unfolding target_table_for_source
target_tables_for [] = ok []
target_tables_for (source ∷ rest) = do
  target ← target_table_for_source source
  targets ← target_tables_for rest
  ok (target ∷ targets)

module _ (W : WorkerFloats) (strip : String → String) where
  abbrev pub unaware : Option (ℕ × Bool) → Bool
  unaware none = false
  unaware (some (ts, aware)) = not aware

  abbrev instant : Option (ℕ × Bool) → Option ℕ
  instant none = none
  instant (some (ts, aware)) = some ts

  unfoldable pub make_canonical_promotion_command :
      String
      → String
      → ℕ
      → List String
      → W.Float
      → Option (ℕ × Bool)
      → Result (CanonicalPromotionCommand W)
  unfolding from_keys validate_source_tables target_tables_for
  make_canonical_promotion_command promotion_id approval_id batch_size sources min_coverage max_ts =
      do
        require (not (str_eq (strip promotion_id) "")) (value_error "promotion_id is required")
        require (not (str_eq (strip approval_id) "")) (value_error "approval_id is required")
        require (ltb 0 batch_size) (value_error "batch_size must be a positive integer")
        require (W.at_most (W.of_nat 0) min_coverage && W.at_most min_coverage (W.of_nat 1))
            (value_error "min_coverage_ratio must be between 0 and 1")
        require (not (unaware max_ts)) (value_error "max_bucket_ts must be timezone-aware")
        validate_source_tables (from_keys [] sources)
        targets ← target_tables_for (from_keys [] sources)
        ok (record {
          source_tables = from_keys [] sources;
          target_tables = targets;
          approval_id = approval_id;
          promotion_id = promotion_id;
          batch_size = batch_size;
          min_coverage_ratio = min_coverage;
          max_bucket_ts = instant max_ts;
          write_gate_env = write_env_flag;
        })

  abbrev pub is_one : Option String → Bool
  is_one none = false
  is_one (some s) = str_eq s "1"

  unfoldable pub write_gate_errors :
      CanonicalPromotionCommand W → Bool → (String → Option String) → List String
  write_gate_errors command allow_write env = block_if (not allow_write) "allow_write_required" (
      block_if (not (is_one (env command.write_gate_env)))
        (str_append command.write_gate_env "=1_required")
        (block_if (str_eq command.approval_id "") "approval_id_required"
          (block_if (str_eq command.promotion_id "") "promotion_id_required" [])))

  -- The counts that the database returns for a command, in the order of the result's fields, or what
  -- the database client raises.
  unfoldable pub execute_canonical_promotion_command :
      (CanonicalPromotionCommand W → Result (ℕ × ℕ × ℕ × ℕ))
      → CanonicalPromotionCommand W
      → Bool
      → (String → Option String)
      → Result CanonicalPromotionResult
  unfolding write_gate_errors
  execute_canonical_promotion_command run command allow_write env =
      let errors = write_gate_errors command allow_write env in
      let done = (do
        counted ← run command
        ok (record {
          is_done = true;
          attempted = true;
          promoted_15min_count = counted.0;
          promoted_1h_count = counted.1;
          promotion_check_count = counted.2;
          marked_promotion_check_count = counted.3;
          is_blocked = false;
          errors = [];
        })) in
      if is_empty errors
      then done
      else ok (record {
        is_done = false;
        attempted = false;
        promoted_15min_count = 0;
        promoted_1h_count = 0;
        promotion_check_count = 0;
        marked_promotion_check_count = 0;
        is_blocked = true;
        errors = errors;
      })
