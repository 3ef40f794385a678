-- ===== src/Promotion/Atomic.antt =====
-- A promotion or a rollback replaces the deployment whole or leaves the old one.
use skn25_final_4team.Prelude.{
  ◌≡◌, ◌⊎◌, inl, inr, Bool, true, false, not, Option, none, some, arith, Exc, ok, is_ok,
  if◌then◌else◌, raises, Option-cases,
}
use skn25_final_4team.Promotion.{
  promoted, rolled_back, left_by, Dir, Files, Faults, exists_, passes, Outcome, promotes, Report,
  smoke_error, fails_with, promote_candidate,
}
use skn25_final_4team.Promotion.Rollback.{rollback_deployment}

-- The deployment is what it was, and nothing of it is left in the retired place.
abbrev pub Unchanged : Files → Files → Type 0
Unchanged s t = (t.deployed ≡ s.deployed) × (t.retired ≡ none)

-- The call raised before its smoke test.
abbrev pub is_failure : Outcome → Bool
is_failure (fails_with e) = true
is_failure _ = false

-- One of the three places holds the deployment.
abbrev pub Kept : Dir → Files → Type 0
Kept d t = (t.deployed ≡ some d) ⊎ (t.retired ≡ some d) ⊎ (t.backup ≡ some d)

-- The files of a finished promotion of candidate `c`: its artifacts are deployed, promotion.json says
-- promoted, or what a rewrite that the report calls failed has left of it, the previous deployment is
-- the backup, and the report says what was not cleaned up.
abbrev pub Promoted : Faults → Dir → Files → Report → Files → Type 0
Promoted x c s r t =
    (t.deployed
      ≡ some (record {
        models = c.models;
        promotion_json =
            if r.promotion_metadata_warning
            then left_by x.final_metadata
            else if r.candidate_cleanup_metadata_warning
            then left_by x.last_metadata
            else some promoted;
        rollback_json = none;
      }))
    × (t.backup ≡ s.deployed)
    × (t.staging ≡ none)
    × (exists_ t.retired ≡ r.retired_cleanup_warning)
    × (exists_ t.candidate ≡ not r.candidate_deleted)

module _ (x : Faults) (s : Files) where
  -- When a promotion that starts with no retired directory raises other than by its smoke test, or
  -- its smoke test fails and the rollback reports success, the deployment is what it was and no
  -- retired directory is left, provided that the move of the retired directory back succeeds.
  pub promote-Unchanged :
      (o : Outcome)
      → (promote_candidate x s).0 ≡ o
      → ((e : Exc) × (o ≡ fails_with e)) ⊎ (o ≡ smoke_error true)
      → s.retired ≡ none
      → x.restore ≡ none
      → Unchanged s (promote_candidate x s).1
  unfolding promote_candidate
  promote-Unchanged o h (inl (e, p)) r b = ground arith
  promote-Unchanged o h (inr p) r b = ground arith

  -- When a promotion returns its report, its smoke test passed, the artifacts of its candidate are
  -- deployed and the previous deployment is the backup; the report says whether the retired directory
  -- and the candidate were removed; and promotion.json says promoted, unless the report has a warning
  -- of a rewrite that failed: then the file is what that rewrite left.
  pub promote-Promoted :
      (c : Dir) (r : Report)
      → s.candidate ≡ some c
      → (promote_candidate x s).0 ≡ promotes r
      → (passes x.smoke ≡ true) × Promoted x c s r (promote_candidate x s).1
  unfolding promote_candidate
  promote-Promoted c r p h = ground arith

  -- Whatever fails in a promotion that starts with no retired directory, and however the clean-up
  -- fails, the previous deployment is still there whole: deployed, retired or in the backup.
  pub promote-Kept :
      (d : Dir) → s.deployed ≡ some d → s.retired ≡ none → Kept d (promote_candidate x s).1
  unfolding promote_candidate
  promote-Kept d p r = ground arith

  blocked :
      (d : Dir) (archive : Option Dir)
      → s.retired ≡ some d
      → (is_failure (promote_candidate x s).0 ≡ true)
        × ((promote_candidate x s).1.deployed ≡ s.deployed)
        × (is_ok (rollback_deployment x archive s).0 ≡ false)
        × ((rollback_deployment x archive s).1.deployed ≡ s.deployed)
  unfolding promote_candidate rollback_deployment
  blocked d archive p = ground arith

  warned :
      (r : Report)
      → (promote_candidate x s).0 ≡ promotes r
      → r.retired_cleanup_warning ≡ true
      → exists_ (promote_candidate x s).1.retired ≡ true
  unfolding promote_candidate
  warned r h w = ground arith

  -- A rollback that raises, from a state with no retired directory, leaves the deployment as it was
  -- and no retired directory, if the move of the retired directory back succeeds.
  pub rollback-Unchanged :
      (archive : Option Dir) (e : Exc)
      → (rollback_deployment x archive s).0 ≡ raises e
      → s.retired ≡ none
      → x.restore ≡ none
      → Unchanged s (rollback_deployment x archive s).1
  unfolding rollback_deployment
  rollback-Unchanged archive e h r b = ground arith

  -- A rollback to an archive that returns has deployed the archive with its own promotion.json, and
  -- with a rollback.json that says rolled back, and kept the deployment that it replaced as the
  -- backup.
  pub rollback-returns :
      (a : Dir)
      → (rollback_deployment x (some a) s).0 ≡ ok tt
      → ((rollback_deployment x (some a) s).1.deployed
          ≡ some (record a { rollback_json = some rolled_back }))
        × ((rollback_deployment x (some a) s).1.backup ≡ s.deployed)
  unfolding rollback_deployment
  rollback-returns a h = ground arith

-- The files when a later call starts: with a candidate and a backup path of its own.
abbrev pub later : Option Dir → Option Dir → Files → Files
later candidate backup s = record s { candidate = candidate; backup = backup }

-- When a promotion reports that it could not remove the retired directory, the next promotion and the
-- next rollback raise, whatever their candidate, archive and backup path and whatever the file system
-- does, and neither touches the deployment.
pub retired_blocks :
    (x y : Faults) (s : Files) (r : Report) (candidate archive backup : Option Dir)
    → (promote_candidate x s).0 ≡ promotes r
    → r.retired_cleanup_warning ≡ true
    → let t = later candidate backup (promote_candidate x s).1 in
      (is_failure (promote_candidate y t).0 ≡ true)
      × ((promote_candidate y t).1.deployed ≡ (promote_candidate x s).1.deployed)
      × (is_ok (rollback_deployment y archive t).0 ≡ false)
      × ((rollback_deployment y archive t).1.deployed ≡ (promote_candidate x s).1.deployed)
retired_blocks x y s r candidate archive backup h w =
    elim (Option-cases (promote_candidate x s).1.retired) [
      | inl e ↦ (let held = warned x s r h w in let there = rw e at held in cc)
      | inr (d, e) ↦ blocked y (later candidate backup (promote_candidate x s).1) d archive e
    ]
