-- ===== src/Promotion.antt =====
-- src/cms/modeling/pmax/promotion.py: the swap of the deployed model artifacts.
-- The directories that the code moves are the fields of `Files`, each absent or with its contents:
-- the runtime artifacts, known by a number, and what promotion.json and rollback.json say. What the file system, the
-- validation module and the smoke test do is in `Faults`: for each step, what it raises. The lock
-- that the code holds makes the steps one sequence.
pub mod Rollback
pub mod Atomic
mod Tests
use skn25_final_4team.Prelude.{
  ℕ, String, Bool, true, false, not, ◌&&◌, Option, none, some, if◌then◌else◌, str_eq, Exc, exc_text,
  value_error, runtime_error, file_exists_error, file_not_found_error, Result, ok, raises,
}

-- What a metadata file says; a write that fails can leave it half written.
pub data Metadata : Type 0 where
  promotion_pending_smoke promoted rolled_back half_written : Metadata

pub record Dir : Type 0 where
  pub models : ℕ
  pub promotion_json : Option Metadata
  pub rollback_json : Option Metadata

pub record Files : Type 0 where
  pub candidate : Option Dir
  pub deployed : Option Dir
  pub staging : Option Dir
  pub retired : Option Dir
  pub backup : Option Dir

-- A step succeeds (none) or raises; where it can stop half way, with what it leaves behind.
abbrev pub Fault : Type 0
Fault = Option Exc

abbrev pub CopyFault : Type 0
CopyFault = Option (Exc × Option Dir)

abbrev pub WriteFault : Type 0
WriteFault = Option (Exc × Option Metadata)

pub record Faults : Type 0 where
  -- validation.assert_validation_current, or validate_runtime_artifacts of the archive
  pub validation : Fault
  -- copy_runtime_artifacts into the staging directory, and the check of the copy
  pub copy : CopyFault
  pub staging_check : Fault
  -- copytree into the backup, and the check of the copy
  pub backup_copy : CopyFault
  pub backup_check : Fault
  -- deployed_root.rename(retired_root); writing the metadata; staging_root.rename(deployed_root)
  pub retire : Fault
  pub metadata : WriteFault
  pub activate : Fault
  -- retired_root.rename(deployed_root) in the handler
  pub restore : Fault
  -- rmtree(..., ignore_errors=True) removes the directory
  pub sweeps : Bool
  -- what the smoke runner raises, or its "result"
  pub smoke : Result String
  -- rmtree(deployed_root) after a failed smoke test, with what is left
  pub remove_deployed : CopyFault
  -- rmtree(retired_root), the rewrite of promotion.json, rmtree(candidate_root), and the last rewrite
  -- of promotion.json; what they raise is an OSError
  pub retired_cleanup : Fault
  pub final_metadata : WriteFault
  pub candidate_cleanup : Fault
  pub last_metadata : WriteFault

abbrev pub exists_ : Option Dir → Bool
exists_ none = false
exists_ (some d) = true

-- shutil.rmtree(root, ignore_errors=True)
abbrev pub sweep : Faults → Option Dir → Option Dir
sweep x d = if x.sweeps then none else d

-- validate, refuse leftovers, stage the candidate and check the copy
unfoldable pub prepare : Faults → Files → Result Dir × Files
prepare x s = elim x.validation [
  | some e ↦ (raises e, s)
  | none ↦
      if exists_ s.backup
      then (raises (file_exists_error "Backup path already exists"), s)
      else if exists_ s.retired
      then (raises (file_exists_error "Unresolved previous deployment swap found"), s)
      else elim s.candidate [
        | none ↦ (raises (file_not_found_error "candidate"), record s { staging = none })
        | some candidate ↦ elim x.copy [
          | some (e, left) ↦ (raises e, record s { staging = left })
          | none ↦
              let staged : Dir = record {
                models = candidate.models;
                promotion_json = none;
                rollback_json = none;
              } in
              elim x.staging_check [
                | some e ↦ (raises e, record s { staging = some staged })
                | none ↦ (ok staged, record s { staging = some staged })
              ]
        ]
      ]
]

-- _backup_runtime
unfoldable pub backup_runtime : Faults → Dir → Files → Fault × Files
backup_runtime x source s =
    if exists_ s.backup
    then (some (file_exists_error "Backup path already exists"), s)
    else elim x.backup_copy [
      | some (e, left) ↦ (some e, record s { backup = left })
      | none ↦ elim x.backup_check [
        | some e ↦ (some e, record s { backup = sweep x (some source) })
        | none ↦ (none, record s { backup = some source })
      ]
    ]

-- How far the swap got when it raised, if it did.
pub record Swap : Type 0 where
  pub raised : Fault
  pub backed_up : Bool
  pub moved_deployed : Bool

-- The end of the try block: write the metadata and activate the staging directory; `write` is the
-- staging directory with a content of the file that is written.
unfoldable pub activate_staging :
    Faults → (Option Metadata → Dir) → Metadata → Bool → Bool → Files → Swap × Files
activate_staging x write content backed_up moved s = elim x.metadata [
  | some (e, left) ↦ (
    record { raised = some e; backed_up = backed_up; moved_deployed = moved },
    record s { staging = some (write left) },
  )
  | none ↦
      let written = write (some content) in
      elim x.activate [
        | some e ↦ (
          record { raised = some e; backed_up = backed_up; moved_deployed = moved },
          record s { staging = some written },
        )
        | none ↦ (
          record { raised = none; backed_up = backed_up; moved_deployed = moved },
          record s { staging = none; deployed = some written },
        )
      ]
]

-- (root / "promotion.json").write_text
abbrev pub with_promotion_json : Dir → Option Metadata → Dir
with_promotion_json d content = record d { promotion_json = content }

-- The try block.
unfoldable pub try_swap : Faults → (Option Metadata → Dir) → Metadata → Files → Swap × Files
unfolding backup_runtime activate_staging
try_swap x write content s = elim s.deployed [
  | none ↦ activate_staging x write content false false s
  | some current ↦
      let (raised, s') = backup_runtime x current s in
      elim raised [
        | some e ↦ (record { raised = some e; backed_up = false; moved_deployed = false }, s')
        | none ↦ elim x.retire [
          | some e ↦ (record { raised = some e; backed_up = true; moved_deployed = false }, s')
          | none ↦
              activate_staging x write content true true
                (record s' { deployed = none; retired = some current })
        ]
      ]
]

-- The except block: sweep the staging directory, move the retired one back, drop the backup. The
-- exception of a failed move replaces the first one, and the backup stays.
unfoldable pub undo_swap : Faults → Exc → Swap → Files → Exc × Files
undo_swap x e swap s =
    let swept = record s { staging = sweep x s.staging } in
    let drop =
      λ (t : Files). record t { backup = if swap.backed_up then sweep x t.backup else t.backup } in
    if swap.moved_deployed && exists_ s.retired && not (exists_ s.deployed)
    then elim x.restore [
      | some e' ↦ (e', swept)
      | none ↦ (e, drop (record swept { deployed = s.retired; retired = none }))
    ]
    else (e, drop swept)

-- shutil.rmtree(deployed_root); whether it succeeded.
abbrev remove_deployed_root : CopyFault → Files → Bool × Files
remove_deployed_root none s = (true, record s { deployed = none })
remove_deployed_root (some (e, left)) s = (false, record s { deployed = left })

-- The rollback after a failed smoke test; whether it restored the previous deployment.
unfoldable pub rollback_smoke : Faults → Swap → Files → Bool × Files
rollback_smoke x swap s =
    let (removed, s') = remove_deployed_root x.remove_deployed s in
    if not removed
    then (false, s')
    else if swap.moved_deployed
    then elim x.restore [
      | some e ↦ (false, s')
      | none ↦ (true, record s' { deployed = s'.retired; retired = none })
    ]
    else (true, s')

-- What `promote_candidate` returns or raises.
pub record Report : Type 0 where
  pub retired_cleanup_warning : Bool
  pub promotion_metadata_warning : Bool
  pub candidate_cleanup_metadata_warning : Bool
  pub candidate_deleted : Bool

pub data Outcome : Type 0 where
  promotes : Report → Outcome
  -- PromotionSmokeError, with automatic_rollback.restored_previous_deployment
  smoke_error : Bool → Outcome
  fails_with : Exc → Outcome

abbrev faulty : Fault → Bool
faulty none = false
faulty (some e) = true

-- (deployed_root / "promotion.json").write_text, with the content that it leaves.
abbrev write_deployed : Option Metadata → Files → Files
write_deployed content s = record s {
  deployed = elim s.deployed [ some d ↦ some (with_promotion_json d content) | none ↦ none ];
}

-- What a write of `promoted` leaves, and whether it failed.
abbrev pub left_by : WriteFault → Option Metadata
left_by none = some promoted
left_by (some (e, left)) = left

abbrev pub write_failed : WriteFault → Bool
write_failed none = false
write_failed (some (e, left)) = true

-- After a passed smoke test: drop the retired deployment, write the metadata, drop the candidate,
-- write the metadata again.
unfoldable pub finish : Faults → Files → Outcome × Files
finish x s =
    let kept = exists_ s.retired && faulty x.retired_cleanup in
    let s₁ = record s { retired = if kept then s.retired else none } in
    let s₂ = write_deployed (left_by x.final_metadata) s₁ in
    if write_failed x.final_metadata
    then (
      promotes (record {
        retired_cleanup_warning = kept;
        promotion_metadata_warning = true;
        candidate_cleanup_metadata_warning = false;
        candidate_deleted = false;
      }),
      s₂,
    )
    else let s₃ = record s₂ {
      candidate = if faulty x.candidate_cleanup then s₂.candidate else none;
    } in
      (
        promotes (record {
          retired_cleanup_warning = kept;
          promotion_metadata_warning = false;
          candidate_cleanup_metadata_warning = write_failed x.last_metadata;
          candidate_deleted = not (exists_ s₃.candidate);
        }),
        write_deployed (left_by x.last_metadata) s₃,
      )

-- smoke_result.get("result") == "pass"
abbrev pub passes : Result String → Bool
passes (ok result) = str_eq result "pass"
passes (raises e) = false

unfoldable pub after_swap : Faults → Swap × Files → Outcome × Files
unfolding undo_swap rollback_smoke finish
after_swap x (swap, s) = elim swap.raised [
  | some e ↦ let (e', s') = undo_swap x e swap s in (fails_with e', s')
  | none ↦
      if passes x.smoke
      then finish x s
      else let (restored, s') = rollback_smoke x swap s in (smoke_error restored, s')
]

abbrev swap_prepared : Faults → Result Dir × Files → Outcome × Files
swap_prepared x (raises e, s) = (fails_with e, s)
swap_prepared x (ok staged, s) =
    after_swap x (try_swap x (with_promotion_json staged) promotion_pending_smoke s)

unfoldable pub promote_candidate : Faults → Files → Outcome × Files
unfolding prepare try_swap after_swap
promote_candidate x s = swap_prepared x (prepare x s)
