-- ===== src/Jobs.antt =====
-- src/cms/workflow/langgraph/postgres_jobs.py and worker.py: the durable review jobs.
-- The table ops.langgraph_jobs is a list of rows in the order of insertion; each SQL statement is
-- one function of the table, and the clock that now() reads is an argument. The JSON payloads
-- of a request are one number and result_payload is left out. run_review (langgraph/skeleton.py) and
-- what fails round it are in `Surroundings`.
pub mod Budget
pub mod States
pub mod Steps
pub mod Claims
pub mod Reach
pub mod Flags
pub mod Memory
pub mod Board
pub mod Refinement
pub mod Durable
mod Tests
use skn25_final_4team.Prelude.{
  ℕ, zero, suc, ◌+◌, ◌*◌, String, Bool, true, false, not, ◌&&◌, ◌||◌, Option, none, some, List, [],
  ◌∷◌, ◌++◌, map, max, ltb, leb, ◌==◌, str_eq, if◌then◌else◌, Exc, exc_text, value_error, key_error,
  runtime_error, Result, ok, raises,
}

pub data Route : Type 0 where
  evidence_answer needs_job approval_required report_shell : Route

pub data Status : Type 0 where
  queued running awaiting succeeded failed dead_letter cancelled : Status

pub record Job : Type 0 where
  pub job_id : String
  pub route : Route
  pub status : Status
  pub priority : ℕ
  pub payload : ℕ
  pub error_message : Option String
  pub worker_id : Option String
  pub attempts : ℕ
  pub max_attempts : ℕ
  pub awaiting_approval : Bool
  pub approved_by : Option String
  pub side_effects_executed : Bool
  pub dry_run : Bool
  pub claimed_at : Option ℕ
  pub started_at : Option ℕ
  pub finished_at : Option ℕ
  pub created_at : ℕ
  pub updated_at : ℕ
  pub next_run_at : ℕ

abbrev pub Table : Type 0
Table = List Job

abbrev pub is_queued : Status → Bool
is_queued queued = true
is_queued _ = false

-- UPDATE ... SET f WHERE test
unfoldable pub update_where : (Job → Bool) → (Job → Job) → Table → Table
update_where test f [] = []
update_where test f (j ∷ js) = (if test j then f j else j) ∷ update_where test f js

-- SELECT * ... WHERE job_id = id
unfoldable pub fetch_job : String → Table → Option Job
fetch_job id [] = none
fetch_job id (j ∷ js) = if str_eq j.job_id id then some j else fetch_job id js

-- INSERT INTO ops.langgraph_jobs, with the defaults of the table
unfoldable pub new_job : String → Route → ℕ → ℕ → Job
new_job id route payload now = record {
  job_id = id;
  route = route;
  status = queued;
  priority = 100;
  payload = payload;
  error_message = none;
  worker_id = none;
  attempts = 0;
  max_attempts = 3;
  awaiting_approval = false;
  approved_by = none;
  side_effects_executed = false;
  dry_run = true;
  claimed_at = none;
  started_at = none;
  finished_at = none;
  created_at = now;
  updated_at = now;
  next_run_at = now;
}

-- The part of `submit` for a route that is not answered inline.
unfoldable pub submit_job : String → Route → ℕ → ℕ → Table → Table
unfolding new_job
submit_job id route payload now table = table ++ new_job id route payload now ∷ []

-- status='queued' AND attempts < max_attempts
abbrev pub claimable : Job → Bool
claimable j = is_queued j.status && ltb j.attempts j.max_attempts

-- ... AND next_run_at <= now()
abbrev pub due : ℕ → Job → Bool
due now j = claimable j && leb j.next_run_at now

-- (priority, created_at) comes before
abbrev pub before : Job → Job → Bool
before a b = ltb a.priority b.priority || a.priority == b.priority && ltb a.created_at b.created_at

abbrev better : Job → Option Job → Job
better j none = j
better j (some k) = if before k j then k else j

-- ORDER BY priority ASC, created_at ASC LIMIT 1; of equals the row that was inserted first
unfoldable pub next_job : ℕ → Table → Option Job
next_job now [] = none
next_job now (j ∷ js) =
    let rest = next_job now js in if due now j then some (better j rest) else rest

abbrev or_now : Option ℕ → ℕ → Option ℕ
or_now none now = some now
or_now (some t) now = some t

-- SET status='running', worker_id, attempts=attempts+1, claimed_at, started_at, updated_at
unfoldable pub claimed : String → ℕ → Job → Job
claimed worker now j = record j {
  status = running;
  worker_id = some worker;
  attempts = j.attempts + 1;
  claimed_at = some now;
  started_at = or_now j.started_at now;
  updated_at = now;
}

abbrev pub has_id : String → Job → Bool
has_id id j = str_eq j.job_id id

-- The statement of claim_job with a job_id
unfoldable pub claim_by_id : String → String → ℕ → Table → Option Job × Table
unfolding fetch_job update_where claimed
claim_by_id id worker now table = elim (fetch_job id table) [
  | none ↦ (none, table)
  | some j ↦
      if claimable j
      then (some (claimed worker now j), update_where (has_id id) (claimed worker now) table)
      else (none, table)
]

-- The statement of claim_job without a job_id
unfoldable pub claim_next_job : String → ℕ → Table → Option Job × Table
unfolding next_job update_where claimed
claim_next_job worker now table = elim (next_job now table) [
  | none ↦ (none, table)
  | some j ↦
      (some (claimed worker now j), update_where (has_id j.job_id) (claimed worker now) table)
]

-- `if job_id:`, so an empty text is no job_id
unfoldable pub claim_job : String → String → ℕ → Table → Option Job × Table
unfolding claim_by_id claim_next_job
claim_job id worker now table =
    let next = claim_next_job worker now table in
    if str_eq id "" then next else claim_by_id id worker now table

abbrev pub owned_by : String → String → Job → Bool
owned_by id worker j =
    str_eq j.job_id id && elim j.worker_id [ some w ↦ str_eq w worker | none ↦ false ]

-- The UPDATE of a finished review, but for result_payload.
unfoldable pub reviewed : Bool → ℕ → Job → Job
reviewed needs_human now j = record j {
  status = if needs_human then awaiting else succeeded;
  awaiting_approval = needs_human;
  finished_at = if needs_human then j.finished_at else some now;
  updated_at = now;
}

-- int(row.get("max_attempts") or 3)
abbrev pub or_three : ℕ → ℕ
or_three zero = 3
or_three (suc n) = suc n

-- The UPDATE of mark_failed for the row that was claimed.
unfoldable pub failed_row : Job → Exc → ℕ → Job → Job
failed_row row e now j =
    let dead = leb (or_three row.max_attempts) row.attempts in
    record j {
      status = if dead then dead_letter else queued;
      error_message = some (exc_text e);
      next_run_at = if dead then j.next_run_at else now + max 1 row.attempts * 30;
      finished_at = if dead then some now else j.finished_at;
      updated_at = now;
    }

unfoldable pub mark_failed : Job → Exc → String → ℕ → Table → Table
unfolding update_where failed_row
mark_failed row e worker now table =
    update_where (owned_by row.job_id worker) (failed_row row e now) table

-- self.snapshot(job_id): the row, or KeyError
unfoldable pub snapshot : String → Table → Result Job
unfolding fetch_job
snapshot id table = elim (fetch_job id table) [ some j ↦ ok j | none ↦ raises (key_error id) ]

-- What the code calls in process_claimed, by the claimed row: run_review with all that comes before
-- the commit of its UPDATE, whether it needs a human or what it raises; what reading the row back
-- raises after that commit; and what mark_failed raises before its own.
pub record Surroundings : Type 0 where
  pub review : Job → Result Bool
  pub read_back : Job → Option Exc
  pub mark : Job → Option Exc

abbrev pub read_row : Option Exc → String → Table → Result Job
unfolding snapshot
read_row (some e) id table = raises e
read_row none id table = snapshot id table

module _ (outside : Surroundings) where
  -- The except block: mark the job and raise; what the mark raises replaces the exception.
  abbrev pub marked : Job → Exc → String → ℕ → Table → Option Exc → Result Job × Table
  unfolding mark_failed
  marked row e worker now table (some other) = (raises other, table)
  marked row e worker now table none = (raises e, mark_failed row e worker now table)

  abbrev pub settle : Job → String → ℕ → Table → Result Job → Result Job × Table
  settle row worker now table (ok j) = (ok j, table)
  settle row worker now table (raises e) = marked row e worker now table (outside.mark row)

  abbrev pub finish : Job → String → ℕ → Table → Result Bool → Result Job × Table
  finish row worker now table (raises e) = marked row e worker now table (outside.mark row)
  finish row worker now table (ok needs_human) =
      let table' = update_where (owned_by row.job_id worker) (reviewed needs_human now) table in
      settle row worker now table' (read_row (outside.read_back row) row.job_id table')

  -- The review, its UPDATE and the snapshot; an exception of any of them marks the job.
  unfoldable pub process_claimed : Job → String → ℕ → Table → Result Job × Table
  unfolding update_where reviewed snapshot mark_failed
  process_claimed row worker now table = finish row worker now table (outside.review row)

  -- worker.run_once: none if no job is due.
  unfoldable pub run_once : String → ℕ → Table → Option (Result Job) × Table
  unfolding claim_next_job process_claimed
  run_once worker now table =
      let (row, table') = claim_next_job worker now table in
      elim row [
        | none ↦ (none, table')
        | some j ↦
            let (result, table'') = process_claimed j worker now table' in (some result, table'')
      ]

  abbrev settled : Status → Bool
  settled queued = false
  settled running = false
  settled _ = true

  -- What `process` does with a job that could not be claimed.
  abbrev unclaimed : String → Option Job → Result Job
  unclaimed id none = raises (key_error id)
  unclaimed id (some j) =
      if settled j.status then ok j else raises (runtime_error "could not claim job")

  unfoldable pub process : String → String → ℕ → Table → Result Job × Table
  unfolding claim_job process_claimed
  process id worker now table =
      let (row, table') = claim_job id worker now table in
      elim row [
        | none ↦ (unclaimed id (fetch_job id table'), table')
        | some j ↦ process_claimed j worker now table'
      ]

-- approved_by or "unknown"
abbrev pub approver : Option String → String
approver none = "unknown"
approver (some s) = if str_eq s "" then "unknown" else s

unfoldable pub approved : Option String → ℕ → Job → Job
approved by now j = record j {
  status = succeeded;
  awaiting_approval = false;
  approved_by = some (approver by);
  finished_at = some now;
  updated_at = now;
}

unfoldable pub approve : String → Option String → ℕ → Table → Result Job × Table
unfolding fetch_job update_where approved snapshot
approve id by now table = elim (fetch_job id table) [
  | none ↦ (raises (key_error id), table)
  | some j ↦
      if j.awaiting_approval
      then (let table' = update_where (has_id id) (approved by now) table in
          (snapshot id table', table'))
      else (raises (value_error "job is not awaiting approval"), table)
]
