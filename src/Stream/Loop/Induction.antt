-- ===== src/Stream/Loop/Induction.antt =====
-- What every poll keeps, a run of the consumer loop keeps.
use skn25_final_4team.Prelude.{Option, String, List, [], ◌∷◌, Result, Bool-cases, inl, inr}
use skn25_final_4team.Stream.Event.{PyLib}
use skn25_final_4team.Stream.Decision.{InsertPayload, DlqPayload}
use skn25_final_4team.Stream.Adapters.{PostgresWriteResult, Ack}
use skn25_final_4team.Stream.Loop.{
  Poll, Ending, LoopState, Next, continue, stop, Limits, at_limit, poll_step, run_polls,
}

-- The state that a step leaves, whether it goes on or stops.
abbrev pub state_of : {F W Q : Type 0} → Next F W Q → LoopState F W Q
state_of (continue s) = s
state_of (stop ending s) = s

module _ {ℓ} {F W Q : Type 0} (py : PyLib F)
    (insert : W → InsertPayload F → Result PostgresWriteResult × W)
    (produce : Q → String → String → DlqPayload F → Result Ack × Q) (limits : Limits)
    (identity : Option String) (P : LoopState F W Q → Type ℓ)
    (keep : (p : Poll F) (s : LoopState F W Q)
      → P s
      → P (state_of (poll_step py insert produce limits identity p s))) where
  pub run_induction :
      (ps : List (Poll F)) (s : LoopState F W Q)
      → P s
      → P (run_polls py insert produce limits identity ps s).1
  unfolding run_polls
  run_induction [] s h = h
  run_induction (p ∷ ps) s h = elim (Bool-cases (at_limit limits.max_messages s.stats.processed)) [
    | inl e ↦ rw e h
    | inr e ↦
        rw e
          (resume (poll_step py insert produce limits identity p s) (keep p s h) (run_induction ps))
  ]
    where
      resume :
          (n : Next F W Q)
          → P (state_of n)
          → ((s' : LoopState F W Q)
              → P s'
              → P (run_polls py insert produce limits identity ps s').1)
          → P
              (elim n as (λ x. Ending × LoopState F W Q) [
                | continue s' ↦ run_polls py insert produce limits identity ps s'
                | stop ending s' ↦ (ending, s')
              ]).1
      resume (continue s') k go = go s' k
      resume (stop ending s') k go = k
