-- ===== src/Live/Gates.antt =====
-- src/cms/contracts/live_pipeline.py and src/cms/data/live_workers.py: the gates before a row is
-- promoted or an archive deleted. A block reason is the text that the source appends.
use skn25_final_4team.Prelude.{
  String, str_append, Bool, true, false, not, ◌&&◌, Option, none, some, List, [], ◌∷◌, ◌++◌, map,
  str_eq, if◌then◌else◌, ok, raises,
}
use skn25_final_4team.Live.{
  SourceMode, blank, among, canonical_tables, mart_peak_tables, require_live_observed_source,
}
use skn25_final_4team.Live.Coverage.{WorkerFloats, Coverage}

-- if test: reasons.append(reason), and then the reasons of the later tests
abbrev pub block_if : Bool → String → List String → List String
block_if test reason rest = if test then reason ∷ rest else rest

abbrev pub none_blocks : List String → Bool
none_blocks [] = true
none_blocks (reason ∷ rest) = false

pub record PromotionDecision : Type 0 where
  pub allowed : Bool
  pub block_reasons : List String

unfoldable pub guard_peak_feature_promotion : String → String → PromotionDecision
guard_peak_feature_promotion source_table target_table =
    let reasons = block_if (among source_table mart_peak_tables) "peak_feature_never_canonical" (
      block_if (among target_table canonical_tables && among source_table mart_peak_tables)
        "peak_leakage_block" []) in
    record { allowed = none_blocks reasons; block_reasons = reasons }

abbrev pub source_authority_pc1_archive : String
source_authority_pc1_archive = "pc1_archive"

pub record GzipCleanupPlan : Type 0 where
  pub candidate_paths : List String
  pub executable_delete_targets : List String
  pub dry_run : Bool
  pub approval_id : Option String
  pub source_authority : String
  pub block_reasons : List String

-- The candidates are the paths after Path(path).as_posix().
unfoldable pub plan_gzip_cleanup : List String → Bool → Option String → String → GzipCleanupPlan
plan_gzip_cleanup candidates dry_run approval_id source_authority =
    let reasons =
      block_if (not (str_eq source_authority source_authority_pc1_archive))
        "pc1_source_authority_required"
        (block_if dry_run "dry_run_only" (block_if (blank approval_id) "approval_required" [])) in
    record {
      candidate_paths = candidates;
      executable_delete_targets = if none_blocks reasons then candidates else [];
      dry_run = dry_run;
      approval_id = approval_id;
      source_authority = source_authority;
      block_reasons = reasons;
    }

pub record EligibilityDecision : Type 0 where
  pub allowed : Bool
  pub block_reasons : List String

module _ (W : WorkerFloats) where
  -- not 0 <= ratio <= 1
  abbrev pub out_of_bounds : W.Float → Bool
  out_of_bounds ratio = not (W.at_most (W.of_nat 0) ratio && W.at_most ratio (W.of_nat 1))

  abbrev below : Option W.Float → W.Float → Bool
  below none ratio = false
  below (some threshold) ratio = W.less ratio threshold

  unfoldable pub evaluate_qa_eligibility :
      String
      → String
      → Coverage W
      → Option W.Float
      → List String
      → List String
      → Bool
      → EligibilityDecision
  unfolding guard_peak_feature_promotion
  evaluate_qa_eligibility source_table target_table coverage threshold policy_block_reasons
        issue_kinds lineage_present =
      let reasons =
        policy_block_reasons
        ++ map (str_append "issue:") issue_kinds
        ++ block_if (not lineage_present) "lineage_missing" (
            block_if (out_of_bounds coverage.coverage_ratio) "coverage_out_of_bounds" (
              block_if (below threshold coverage.coverage_ratio) "coverage_below_threshold"
                (guard_peak_feature_promotion source_table target_table).block_reasons)) in
      record { allowed = none_blocks reasons; block_reasons = reasons }

pub record PromotionRequest : Type 0 where
  pub source_table : String
  pub target_table : String
  pub approval_id : Option String
  pub promotion_id : Option String
  pub qa_eligibility_passed : Bool
  pub promotion_check_id : Option String
  pub source_layer : Option String
  pub source_mode : SourceMode

pub record PromotionReadyResult : Type 0 where
  pub ready : Bool
  pub target_table : String
  pub source_table : String
  pub approval_id : Option String
  pub promotion_id : Option String
  pub block_reasons : List String

abbrev pub is_none : Option String → Bool
is_none none = true
is_none (some s) = false

module _ (fold : String → String) where
  -- require_live_observed_source in a try block whose except clause appends the reason
  abbrev pub reference_source : Option String → SourceMode → Bool
  reference_source none mode = false
  reference_source (some layer) mode = elim (require_live_observed_source fold layer (some mode)) [
    | ok _ ↦ false
    | raises e ↦ true
  ]

  unfoldable pub prepare_promotion : PromotionRequest → PromotionReadyResult
  unfolding guard_peak_feature_promotion
  prepare_promotion r =
      let reasons = block_if (blank r.approval_id) "approval_required" (
        block_if (blank r.promotion_id) "promotion_id_required" (
          block_if (not r.qa_eligibility_passed) "qa_eligibility_required" (
            block_if (is_none r.promotion_check_id) "promotion_check_required" (
              block_if (not (among r.target_table canonical_tables)) "canonical_target_required" (
                block_if (reference_source r.source_layer r.source_mode) "reference_source_blocked"
                  (guard_peak_feature_promotion r.source_table r.target_table).block_reasons))))) in
      record {
        ready = none_blocks reasons;
        target_table = r.target_table;
        source_table = r.source_table;
        approval_id = r.approval_id;
        promotion_id = r.promotion_id;
        block_reasons = reasons;
      }
