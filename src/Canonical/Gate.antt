-- ===== src/Canonical/Gate.antt =====
-- When a command writes: execute_canonical_promotion_command for a command that was made.
use skn25_final_4team.Prelude.{
  ℕ, String, Bool, true, false, ◌≡◌, inl, inr, Option, Bool-cases, Result, ok, str_eq, arith,
}
use skn25_final_4team.Live.Coverage.{WorkerFloats}
use skn25_final_4team.Live.Trigger.{is_empty}
use skn25_final_4team.Canonical.Command.{
  CanonicalPromotionCommand, CanonicalPromotionResult, is_one, write_gate_errors,
  execute_canonical_promotion_command,
}

module _ (W : WorkerFloats) (strip : String → String) where
  gate-open :
      (command : CanonicalPromotionCommand W) (allow_write : Bool) (env : String → Option String)
      → is_empty (write_gate_errors W strip command allow_write env) ≡ true
      → (allow_write ≡ true)
        × (is_one W strip (env command.write_gate_env) ≡ true)
        × (str_eq command.approval_id "" ≡ false)
        × (str_eq command.promotion_id "" ≡ false)
  unfolding write_gate_errors
  gate-open command allow_write env h = ground arith

  -- A result that says that a write was attempted comes only from an open gate: the caller allowed
  -- the write, the environment's flag is "1", and neither identifier is empty.
  execute_canonical_promotion_command-attempted :
      (run : CanonicalPromotionCommand W → Result (ℕ × ℕ × ℕ × ℕ))
      (command : CanonicalPromotionCommand W) (allow_write : Bool) (env : String → Option String)
      (r : CanonicalPromotionResult)
      → execute_canonical_promotion_command W strip run command allow_write env ≡ ok r
      → r.attempted ≡ true
      → (allow_write ≡ true)
        × (is_one W strip (env command.write_gate_env) ≡ true)
        × (str_eq command.approval_id "" ≡ false)
        × (str_eq command.promotion_id "" ≡ false)
  unfolding execute_canonical_promotion_command
  execute_canonical_promotion_command-attempted run command allow_write env r h attempted =
      elim (Bool-cases (is_empty (write_gate_errors W strip command allow_write env))) [
        | inl e ↦ gate-open command allow_write env e
        | inr e ↦ ground arith
      ]
