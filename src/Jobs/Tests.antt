-- ===== src/Jobs/Tests.antt =====
-- Two jobs, one that is answered and one whose review fails.
use skn25_final_4team.Prelude.{
  zero, suc, ◌+◌, ◌≤◌, ◌≡◌, refl, Bool, true, false, none, List, [], ◌∷◌, value_error, ok, raises,
  some, All,
}
use skn25_final_4team.Jobs.{
  Surroundings, Table, Status, queued, needs_job, approval_required, succeeded, submit_job,
  run_once, approve,
}
use skn25_final_4team.Jobs.Budget.{budget, processed, processed-le-budget}
use skn25_final_4team.Jobs.States.{IsSoundTable, IsFlagged}
use skn25_final_4team.Jobs.Memory.{ReviewJobStore, qa_check, no_stage}
use skn25_final_4team.Jobs.Board.{processes, spec, approve_phase}
use skn25_final_4team.Jobs.Refinement.{Agree, step, view, step-refines}
use skn25_final_4team.Jobs.Durable.{shown_job, table_view, approve-refines}
use skn25_final_4team.Jobs.Flags.{Reach-Flagged}
use skn25_final_4team.Jobs.Reach.{submits, runs, approves, Reach, start, next, Reach-IsSoundTable}

-- The payload 0 makes the review raise; an approval request needs a human.
abbrev outside : Surroundings
outside = record {
  review = λ j. elim j.payload [ zero ↦ raises (value_error "no evidence") | suc n ↦ ok true ];
  read_back = λ j. none;
  mark = λ j. none;
}

abbrev two_jobs : Table
two_jobs = submit_job "b" needs_job 0 0 (submit_job "a" approval_required 1 0 [])

processed-le-budget_example :
    (processed outside "w" (0 ∷ 0 ∷ 30 ∷ 90 ∷ 200 ∷ []) two_jobs).0
      + budget (processed outside "w" (0 ∷ 0 ∷ 30 ∷ 90 ∷ 200 ∷ []) two_jobs).1
    ≤ budget two_jobs
processed-le-budget_example = processed-le-budget outside "w" (0 ∷ 0 ∷ 30 ∷ 90 ∷ 200 ∷ []) two_jobs

abbrev after_one : Table
after_one = submit_job "a" approval_required 1 0 []

abbrev after_two : Table
after_two = (run_once outside "w" 5 after_one).1

abbrev after_three : Table
after_three = (approve "a" none 9 after_two).1

reached : Reach outside [] after_three
reached =
    next after_two after_three
      (next after_one after_two
        (next [] after_one start (submits "a" approval_required 1 0 [] refl))
        (runs "w" 5 after_one))
      (approves "a" none 9 after_two)

statuses : Table → List Status
statuses [] = []
statuses (j ∷ js) = j.status ∷ statuses js

approved_status : statuses after_three ≡ succeeded ∷ []
unfolding statuses submit_job run_once approve
approved_status = refl

Reach-IsSoundTable_example : IsSoundTable after_three
Reach-IsSoundTable_example =
    Reach-IsSoundTable outside [] after_three reached (record { rows = tt; keys = tt })

Reach-Flagged_example : All IsFlagged after_three
Reach-Flagged_example =
    Reach-Flagged outside (λ j. refl) [] after_three reached (record { rows = tt; keys = tt }) tt

-- The in-memory store with one job that awaits its review.
abbrev memory : ReviewJobStore
memory = record {
  records =
      (
        "rev-0001",
        record {
          job_type = qa_check;
          status = queued;
          stage = no_stage;
          has_result_ref = false;
          route = approval_required;
          awaiting_approval = false;
          approved_by = none;
        },
      )
      ∷ [];
  seq = 1;
}

step-refines_example :
    Agree
      (λ n. "rev-0002")
      (λ id. ok true)
      (step (λ n. "rev-0002") (λ id. ok true) (processes "rev-0001") memory)
      (spec (λ n. "rev-0002") (λ id. ok true) (processes "rev-0001") (view memory))
step-refines_example = step-refines (λ n. "rev-0002") (λ id. ok true) (processes "rev-0001") memory

flagged : All IsFlagged after_two
unfolding submit_job run_once
flagged = (refl, tt)

approve-refines_example :
    (shown_job (approve "a" none 9 after_two).0
      ≡ (approve_phase "a" ((table_view after_two).phases "a") (table_view after_two)).0)
    × (table_view (approve "a" none 9 after_two).1
        ≡ (approve_phase "a" ((table_view after_two).phases "a") (table_view after_two)).1)
approve-refines_example = approve-refines "a" none 9 after_two flagged

-- A review that needs a human is committed, and reading the row back fails: the job is queued again
-- and still has the approval flag, so it can be approved before it is run again.
abbrev lost_connection : Surroundings
lost_connection = record outside { read_back = λ j. some (value_error "connection lost") }

abbrev half_done : Table
half_done = (run_once lost_connection "w" 5 after_one).1

flags : Table → List (Status × Bool)
flags [] = []
flags (j ∷ js) = (j.status, j.awaiting_approval) ∷ flags js

queued_with_flag : flags half_done ≡ (queued, true) ∷ []
unfolding flags submit_job run_once
queued_with_flag = refl

approved_unreviewed : flags (approve "a" none 9 half_done).1 ≡ (succeeded, false) ∷ []
unfolding flags submit_job run_once approve
approved_unreviewed = refl
