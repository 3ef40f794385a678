-- ===== src/Promotion/Rollback.antt =====
-- src/cms/modeling/pmax/promotion.py: rollback_deployment, which swaps an archive in.
use skn25_final_4team.Prelude.{
  ◌&&◌, Option, none, some, if◌then◌else◌, file_exists_error, file_not_found_error, Result, ok,
  raises,
}
use skn25_final_4team.Promotion.{
  rolled_back, Metadata, Dir, Files, Faults, Swap, exists_, sweep, try_swap, undo_swap,
}

-- rollback_deployment: validate and stage the archive. Here `staging` is the rollback's own staging
-- directory, `backup` the one for the deployment that is replaced.
unfoldable pub prepare_rollback : Faults → Option Dir → Files → Result Dir × Files
prepare_rollback x none s = (raises (file_not_found_error "Rollback archive not found"), s)
prepare_rollback x (some archive) s = elim x.validation [
  | some e ↦ (raises e, s)
  | none ↦
      let s₁ = record s { staging = none } in
      if exists_ s.retired
      then (raises (file_exists_error "Unresolved previous deployment swap found"), s₁)
      else elim x.copy [
        | some (e, left) ↦ (raises e, record s₁ { staging = left })
        | none ↦ elim x.staging_check [
          | some e ↦ (raises e, record s₁ { staging = some archive })
          | none ↦
              if exists_ s.backup
              then (
                raises (file_exists_error "Rollback backup path already exists"),
                record s₁ { staging = sweep x (some archive) },
              )
              else (ok archive, record s₁ { staging = some archive })
        ]
      ]
]

-- (staging_root / "rollback.json").write_text
abbrev pub with_rollback_json : Dir → Option Metadata → Dir
with_rollback_json d content = record d { rollback_json = content }

-- The finally block.
unfoldable pub sweep_retired : Faults → Files → Files
sweep_retired x s =
    if exists_ s.deployed && exists_ s.retired then record s { retired = sweep x s.retired } else s

abbrev after_rollback_swap : Faults → Swap × Files → Result (Unit {0}) × Files
after_rollback_swap x (swap, s) = elim swap.raised [
  | some e ↦ let (e', s') = undo_swap x e swap s in (raises e', sweep_retired x s')
  | none ↦ (ok tt, sweep_retired x s)
]

abbrev rollback_prepared : Faults → Result Dir × Files → Result (Unit {0}) × Files
rollback_prepared x (raises e, s) = (raises e, s)
rollback_prepared x (ok staged, s) =
    after_rollback_swap x (try_swap x (with_rollback_json staged) rolled_back s)

unfoldable pub rollback_deployment : Faults → Option Dir → Files → Result (Unit {0}) × Files
unfolding prepare_rollback try_swap undo_swap sweep_retired
rollback_deployment x archive s = rollback_prepared x (prepare_rollback x archive s)
