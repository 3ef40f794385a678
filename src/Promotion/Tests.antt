-- ===== src/Promotion/Tests.antt =====
-- Promotions and rollbacks that succeed, that fail half way and that fail their smoke test.
use skn25_final_4team.Prelude.{
  ◌≡◌, refl, inl, String, true, false, Option, none, some, Exc, os_error, Result, ok, raises, is_ok,
}
use skn25_final_4team.Promotion.{
  promoted, rolled_back, half_written, Dir, Files, Faults, promotes, Report, fails_with, passes,
  promote_candidate,
}
use skn25_final_4team.Promotion.Rollback.{rollback_deployment}
use skn25_final_4team.Promotion.Atomic.{
  Unchanged, is_failure, later, Kept, Promoted, promote-Unchanged, promote-Promoted, promote-Kept,
  retired_blocks, rollback-Unchanged, rollback-returns,
}

abbrev old : Dir
old = record { models = 1; promotion_json = some promoted; rollback_json = none }

abbrev new : Dir
new = record { models = 2; promotion_json = none; rollback_json = none }

abbrev files : Option Dir → Files
files retired = record {
  candidate = some new;
  deployed = some old;
  staging = none;
  retired = retired;
  backup = none;
}

-- Every step works but for the activation's fault and the smoke result.
abbrev faults : Option Exc → Result String → Faults
faults activate smoke = record {
  validation = none;
  copy = none;
  staging_check = none;
  backup_copy = none;
  backup_check = none;
  retire = none;
  metadata = none;
  activate = activate;
  restore = none;
  sweeps = true;
  smoke = smoke;
  remove_deployed = none;
  retired_cleanup = none;
  final_metadata = none;
  candidate_cleanup = none;
  last_metadata = none;
}

abbrev bad_disk : Faults
bad_disk = faults (some (os_error "disk")) (ok "pass")

disk_fails : (promote_candidate bad_disk (files none)).0 ≡ fails_with (os_error "disk")
unfolding promote_candidate
disk_fails = refl

promote-Unchanged_example : Unchanged (files none) (promote_candidate bad_disk (files none)).1
promote-Unchanged_example =
    promote-Unchanged bad_disk (files none) (fails_with (os_error "disk")) disk_fails
      (inl (os_error "disk", refl)) refl refl

abbrev clean : Report
clean = record {
  retired_cleanup_warning = false;
  promotion_metadata_warning = false;
  candidate_cleanup_metadata_warning = false;
  candidate_deleted = true;
}

promotion_returns : (promote_candidate (faults none (ok "pass")) (files none)).0 ≡ promotes clean
unfolding promote_candidate
promotion_returns = refl

promote-Promoted_example :
    (passes (faults none (ok "pass")).smoke ≡ true)
    × Promoted
        (faults none (ok "pass"))
        new
        (files none)
        clean
        (promote_candidate (faults none (ok "pass")) (files none)).1
promote-Promoted_example =
    promote-Promoted (faults none (ok "pass")) (files none) new clean refl promotion_returns

promote-Kept_example : Kept old (promote_candidate (faults none (ok "fail")) (files none)).1
promote-Kept_example = promote-Kept (faults none (ok "fail")) (files none) old refl refl

abbrev stuck : Faults
stuck = record (faults none (ok "pass")) { retired_cleanup = some (os_error "busy") }

abbrev left_over : Report
left_over = record clean { retired_cleanup_warning = true }

promotion_warns : (promote_candidate stuck (files none)).0 ≡ promotes left_over
unfolding promote_candidate
promotion_warns = refl

abbrev after_warning : Files
after_warning = later (some new) none (promote_candidate stuck (files none)).1

retired_blocks_example :
    (is_failure (promote_candidate stuck after_warning).0 ≡ true)
    × ((promote_candidate stuck after_warning).1.deployed
        ≡ (promote_candidate stuck (files none)).1.deployed)
    × (is_ok (rollback_deployment stuck (some old) after_warning).0 ≡ false)
    × ((rollback_deployment stuck (some old) after_warning).1.deployed
        ≡ (promote_candidate stuck (files none)).1.deployed)
retired_blocks_example =
    retired_blocks stuck stuck (files none) left_over (some new) (some old) none promotion_warns
      refl

-- The last rewrite of promotion.json fails half way.
abbrev torn : Faults
torn = record (faults none (ok "pass")) {
  last_metadata = some (os_error "full", some half_written);
}

torn_metadata :
    (promote_candidate torn (files none)).1.deployed
    ≡ some (record { models = 2; promotion_json = some half_written; rollback_json = none })
unfolding promote_candidate
torn_metadata = refl

rollback_fails : (rollback_deployment bad_disk (some new) (files none)).0 ≡ raises (os_error "disk")
unfolding rollback_deployment
rollback_fails = refl

rollback-Unchanged_example :
    Unchanged (files none) (rollback_deployment bad_disk (some new) (files none)).1
rollback-Unchanged_example =
    rollback-Unchanged bad_disk (files none) (some new) (os_error "disk") rollback_fails refl refl

rollback_works : (rollback_deployment (faults none (ok "pass")) (some new) (files none)).0 ≡ ok tt
unfolding rollback_deployment
rollback_works = refl

rollback-returns_example :
    ((rollback_deployment (faults none (ok "pass")) (some new) (files none)).1.deployed
      ≡ some (record new { rollback_json = some rolled_back }))
    × ((rollback_deployment (faults none (ok "pass")) (some new) (files none)).1.backup ≡ some old)
rollback-returns_example =
    rollback-returns (faults none (ok "pass")) (files none) new rollback_works
