-- ===== src/Live/Promotable.antt =====
-- What the gates let through: promotions into the canonical tables, and deletions of archives.
use skn25_final_4team.Prelude.{
  ◌≡◌, refl, ◌↔◌, String, Bool, true, false, not, ◌&&◌, Option, none, some, List, str_eq, arith,
  Bool-cases, inl, inr,
}
use skn25_final_4team.Live.{
  SourceMode, blank, among, canonical_tables, mart_peak_tables, is_live_observed_source,
  require_live_observed_source,
}
use skn25_final_4team.Live.Gates.{
  block_if, none_blocks, guard_peak_feature_promotion, plan_gzip_cleanup,
  source_authority_pc1_archive, PromotionRequest, prepare_promotion, reference_source, is_none,
}

-- A list of reasons is empty if no test of it holds.
none_blocks-block_if :
    (test : Bool) (reason : String) (rest : List String) {passed : Bool}
    → none_blocks rest ≡ passed
    → none_blocks (block_if test reason rest) ≡ (not test && passed)
none_blocks-block_if true reason rest h = refl
none_blocks-block_if false reason rest h = h

guard_peak_feature_promotion-none :
    (source_table target_table : String)
    → none_blocks (guard_peak_feature_promotion source_table target_table).block_reasons
      ≡ not (among source_table mart_peak_tables)
unfolding guard_peak_feature_promotion
guard_peak_feature_promotion-none source_table target_table =
    elim (Bool-cases (among source_table mart_peak_tables)) [
      | inl e ↦ rw e refl
      | inr e ↦ elim (Bool-cases (among target_table canonical_tables)) [
        | inl t ↦ rw (e, t) refl
        | inr t ↦ rw (e, t) refl
      ]
    ]

-- A path that a cleanup plan would delete is one of its candidates, and the plan is approved, is no
-- dry run and has the authority of the PC1 archive.
pub plan_gzip_cleanup-approved :
    (candidates : List String) (dry_run : Bool) (approval_id : Option String)
    (authority path : String)
    → among path
        (plan_gzip_cleanup candidates dry_run approval_id authority).executable_delete_targets
      ≡ true
    → (among path candidates ≡ true)
      × (dry_run ≡ false)
      × (blank approval_id ≡ false)
      × (str_eq authority source_authority_pc1_archive ≡ true)
unfolding plan_gzip_cleanup
plan_gzip_cleanup-approved candidates dry_run approval_id authority path h =
    elim (Bool-cases (str_eq authority source_authority_pc1_archive)) [
      | inr a ↦ let wrong = rw a at h in cc
      | inl a ↦ elim (Bool-cases dry_run) [
        | inl d ↦ let wrong = rw (a, d) at h in cc
        | inr d ↦ elim (Bool-cases (blank approval_id)) [
          | inl b ↦ let wrong = rw (a, d, b) at h in cc
          | inr b ↦ (rw (a, b, d) at h, d, b, a)
        ]
      ]
    ]

module _ (fold : String → String) where
  -- A layer that is named is live observed, in the mode that is named with it.
  abbrev pub IsLiveObserved : Option String → SourceMode → Type 0
  IsLiveObserved source_layer mode =
      (layer : String)
      → source_layer ≡ some layer
      → is_live_observed_source fold layer (some mode) ≡ true

  reference_source-IsLiveObserved :
      (source_layer : Option String) (mode : SourceMode)
      → (reference_source fold source_layer mode ≡ false) ↔ IsLiveObserved source_layer mode
  unfolding require_live_observed_source
  reference_source-IsLiveObserved none mode = (λ h layer e. cc, λ h. refl)
  reference_source-IsLiveObserved (some named) mode =
      elim (Bool-cases (is_live_observed_source fold named (some mode))) [
        | inl live ↦ (λ h layer e. ground arith, λ h. rw (live, reference_source) refl)
        | inr not_live ↦ (
          λ h layer e. let wrong = rw (not_live, reference_source) at h in cc,
          λ h. let wrong = h named refl in cc,
        )
      ]

  -- The gates of a promotion, each said of the request.
  pub record IsPromotable (r : PromotionRequest) : Type 0 where
    pub approved : blank r.approval_id ≡ false
    pub identified : blank r.promotion_id ≡ false
    pub eligible : r.qa_eligibility_passed ≡ true
    pub checked : is_none r.promotion_check_id ≡ false
    pub canonical : among r.target_table canonical_tables ≡ true
    pub observed : IsLiveObserved r.source_layer r.source_mode
    pub no_peak : among r.source_table mart_peak_tables ≡ false

  abbrev passes : PromotionRequest → Bool
  passes r =
      not (blank r.approval_id)
      && (not (blank r.promotion_id)
          && (not (not r.qa_eligibility_passed)
              && (not (is_none r.promotion_check_id)
                  && (not (not (among r.target_table canonical_tables))
                      && (not (reference_source fold r.source_layer r.source_mode)
                          && (not (among r.source_table mart_peak_tables)))))))

  ready-passes : (r : PromotionRequest) → (prepare_promotion fold r).ready ≡ passes r
  unfolding prepare_promotion
  ready-passes r = none_blocks-block_if (blank r.approval_id) "approval_required" _ (
      none_blocks-block_if (blank r.promotion_id) "promotion_id_required" _ (
        none_blocks-block_if (not r.qa_eligibility_passed) "qa_eligibility_required" _ (
          none_blocks-block_if (is_none r.promotion_check_id) "promotion_check_required" _ (
            none_blocks-block_if (not (among r.target_table canonical_tables))
              "canonical_target_required" _
              (none_blocks-block_if (reference_source fold r.source_layer r.source_mode)
                "reference_source_blocked" _
                (guard_peak_feature_promotion-none r.source_table r.target_table))))))

  passes-IsPromotable : (r : PromotionRequest) → (passes r ≡ true) ↔ IsPromotable r
  passes-IsPromotable r = (
    λ h. record {
      approved = ground arith;
      identified = ground arith;
      eligible = ground arith;
      checked = ground arith;
      canonical = ground arith;
      observed = (reference_source-IsLiveObserved r.source_layer r.source_mode).0 (ground arith);
      no_peak = ground arith;
    },
    λ g.
        rw
          (
            g.approved,
            g.identified,
            g.eligible,
            g.checked,
            g.canonical,
            (reference_source-IsLiveObserved r.source_layer r.source_mode).1 g.observed,
            g.no_peak,
          )
          refl,
  )

  -- A promotion is ready exactly if it is approved and identified, passed the quality gate with a
  -- check, targets a canonical table, comes from no reference layer and from no peak table.
  pub prepare_promotion-IsPromotable :
      (r : PromotionRequest) → ((prepare_promotion fold r).ready ≡ true) ↔ IsPromotable r
  prepare_promotion-IsPromotable r = rw ready-passes (passes-IsPromotable r)
