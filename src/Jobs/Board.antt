-- ===== src/Jobs/Board.antt =====
-- The abstract view of a store of review jobs: a board with the phase of each job.
use skn25_final_4team.Prelude.{
  ℕ, ◌+◌, String, Bool, true, false, Option, none, some, str_eq, if◌then◌else◌, key_error,
  value_error, Result, ok, raises,
}
use skn25_final_4team.Jobs.Memory.{ChatRoute, quick_answer, job_route}

-- What a client can tell of a job.
pub data Phase : Type 0 where
  waiting in_review needs_approval finished : Phase

-- An abstract state: the phase under an id, and the number of the last ticket.
pub record Board : Type 0 where
  pub phases : String → Option Phase
  pub tickets : ℕ

pub data Seen : Type 0 where
  inline_answer : Seen
  seen : Phase → Seen

pub data Op : Type 0 where
  submits : ChatRoute → Result Bool → Op
  processes : String → Op
  approves : String → Option String → Op
  asks : String → Op

abbrev pub set : String → Phase → Board → Board
set id p b = record b { phases = λ k. if str_eq id k then some p else b.phases k }

abbrev pub after_review : Result Bool → Phase → Phase
after_review (ok true) p = needs_approval
after_review (ok false) p = finished
after_review (raises e) needs_approval = needs_approval
after_review (raises e) p = in_review

abbrev pub reviewed_as : Result Bool → Phase → Result Seen
reviewed_as (ok needs_human) p = ok (seen (after_review (ok needs_human) p))
reviewed_as (raises e) p = raises e

-- The three operations on a job, by the phase under its id.
unfoldable pub process_phase : String → Result Bool → Option Phase → Board → Result Seen × Board
process_phase id outcome none b = (raises (key_error id), b)
process_phase id outcome (some p) b = (reviewed_as outcome p, set id (after_review outcome p) b)

unfoldable pub approve_phase : String → Option Phase → Board → Result Seen × Board
approve_phase id none b = (raises (key_error id), b)
approve_phase id (some needs_approval) b = (ok (seen finished), set id finished b)
approve_phase id (some p) b = (raises (value_error "job is not awaiting approval"), b)

unfoldable pub ask_phase : String → Option Phase → Result Seen
ask_phase id none = raises (key_error id)
ask_phase id (some p) = ok (seen p)

module _ (id_of : ℕ → String) (review : String → Result Bool) where
  -- What each operation promises, said of the board alone.
  unfoldable pub spec : Op → Board → Result Seen × Board
  unfolding process_phase approve_phase ask_phase
  spec (submits quick_answer (ok needs_human)) b = (ok inline_answer, b)
  spec (submits quick_answer (raises e)) b = (raises e, b)
  spec (submits (job_route route override) outcome) b = (
    ok (seen waiting),
    set (id_of (b.tickets + 1)) waiting (record b { tickets = b.tickets + 1 }),
  )
  spec (processes id) b = process_phase id (review id) (b.phases id) b
  spec (approves id by) b = approve_phase id (b.phases id) b
  spec (asks id) b = (ask_phase id (b.phases id), b)
