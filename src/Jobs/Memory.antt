-- ===== src/Jobs/Memory.antt =====
-- src/cms/workflow/review_jobs.py: the in-memory review job store.
-- The dict of records is an association list; the ids are `id_of` of the sequence number
-- (f"{prefix}-{seq:04d}"), the outcome of run_review for the request under an id is the parameter
-- `review` (whether it needs a human, or what it raises), and the decision of classify_route is an
-- argument of submit. The response and the texts of a snapshot are left out.
use skn25_final_4team.Prelude.{
  ℕ, ◌+◌, String, Bool, true, false, Option, none, some, List, [], ◌∷◌, str_eq, if◌then◌else◌,
  key_error, value_error, Result, ok, raises,
}
use skn25_final_4team.Jobs.{Route, Status, queued, running, succeeded, approver}

pub data JobType : Type 0 where
  qa_check build_report_packet render_report refresh_cache replay_window : JobType

abbrev job_type_by_route : Route → JobType
job_type_by_route Route.evidence_answer = qa_check
job_type_by_route Route.needs_job = build_report_packet
job_type_by_route Route.report_shell = render_report
job_type_by_route Route.approval_required = qa_check

-- context["job_type"] is an argument: a job type, or nothing that names one.
abbrev pub job_type_for : Route → Option JobType → JobType
job_type_for route none = job_type_by_route route
job_type_for route (some override) = override

-- The stage of job.progress.
pub data Stage : Type 0 where
  no_stage awaiting_stage completed_stage approved_stage : Stage

pub record ReviewRecord : Type 0 where
  pub job_type : JobType
  pub status : Status
  pub stage : Stage
  pub has_result_ref : Bool
  pub route : Route
  pub awaiting_approval : Bool
  pub approved_by : Option String

pub record ReviewJobStore : Type 0 where
  pub records : List (String × ReviewRecord)
  pub seq : ℕ

-- self._records.get(id)
unfoldable pub lookup : String → List (String × ReviewRecord) → Option ReviewRecord
lookup id [] = none
lookup id ((k, r) ∷ rest) = if str_eq k id then some r else lookup id rest

-- self._records[id] = r
unfoldable pub put :
    String → ReviewRecord → List (String × ReviewRecord) → List (String × ReviewRecord)
put id r [] = (id, r) ∷ []
put id r ((k, old) ∷ rest) =
    let later = put id r rest in if str_eq k id then (k, r) ∷ rest else (k, old) ∷ later

abbrev stored : String → ReviewRecord → ReviewJobStore → ReviewJobStore
unfolding put
stored id r store = record store { records = put id r store.records }

-- What an operation returns: an inline answer, or the snapshot of a record.
pub data Answer : Type 0 where
  inline : Answer
  ticket : ReviewRecord → Answer

-- The route of a request: one that is answered inline, or a job's.
pub data ChatRoute : Type 0 where
  quick_answer : ChatRoute
  job_route : Route → Option JobType → ChatRoute

module _ (id_of : ℕ → String) (review : String → Result Bool) where
  -- The record that submit registers.
  unfoldable pub new_record : Route → Option JobType → ReviewRecord
  new_record route override = record {
    job_type = job_type_for route override;
    status = queued;
    stage = no_stage;
    has_result_ref = false;
    route = route;
    awaiting_approval = false;
    approved_by = none;
  }

  -- `outcome` is what run_review does with an inline request.
  unfoldable pub submit : ChatRoute → Result Bool → ReviewJobStore → Result Answer × ReviewJobStore
  unfolding put new_record
  submit quick_answer (raises e) store = (raises e, store)
  submit quick_answer (ok needs_human) store = (ok inline, store)
  submit (job_route route override) outcome store =
      let id = id_of (store.seq + 1) in
      let r = new_record route override in
      (ok (ticket r), record { records = put id r store.records; seq = store.seq + 1 })

  abbrev pub started : ReviewRecord → ReviewRecord
  started r = record r { status = running }

  -- The record after a review that returned.
  unfoldable pub settled_record : Bool → ReviewRecord → ReviewRecord
  settled_record true r = record r {
    awaiting_approval = true;
    status = running;
    stage = awaiting_stage;
  }
  settled_record false r = record r {
    awaiting_approval = false;
    status = succeeded;
    stage = completed_stage;
    has_result_ref = true;
  }

  -- The record is changed to running before run_review, which may raise.
  unfoldable pub reviewed_store :
      String → ReviewRecord → Result Bool → ReviewJobStore → Result Answer × ReviewJobStore
  unfolding put settled_record
  reviewed_store id r (raises e) store = (raises e, stored id (started r) store)
  reviewed_store id r (ok needs_human) store =
      let r' = settled_record needs_human (started r) in (ok (ticket r'), stored id r' store)

  -- process, after the record was looked up
  unfoldable pub process_found :
      String → Option ReviewRecord → ReviewJobStore → Result Answer × ReviewJobStore
  unfolding reviewed_store
  process_found id none store = (raises (key_error id), store)
  process_found id (some r) store = reviewed_store id r (review id) store

  unfoldable pub process : String → ReviewJobStore → Result Answer × ReviewJobStore
  unfolding lookup process_found
  process id store = process_found id (lookup id store.records) store

  unfoldable pub approved_record : Option String → ReviewRecord → ReviewRecord
  approved_record by r = record r {
    approved_by = some (approver by);
    awaiting_approval = false;
    status = succeeded;
    stage = approved_stage;
    has_result_ref = true;
  }

  -- approve, after the record was looked up
  unfoldable pub approve_found :
      String → Option String → Option ReviewRecord → ReviewJobStore → Result Answer × ReviewJobStore
  unfolding put approved_record
  approve_found id by none store = (raises (key_error id), store)
  approve_found id by (some r) store =
      if r.awaiting_approval
      then (let r' = approved_record by r in (ok (ticket r'), stored id r' store))
      else (raises (value_error "job is not awaiting approval"), store)

  unfoldable pub approve : String → Option String → ReviewJobStore → Result Answer × ReviewJobStore
  unfolding lookup approve_found
  approve id by store = approve_found id by (lookup id store.records) store

  unfoldable pub snapshot_found : String → Option ReviewRecord → Result Answer
  snapshot_found id none = raises (key_error id)
  snapshot_found id (some r) = ok (ticket r)

  unfoldable pub snapshot_of : String → ReviewJobStore → Result Answer × ReviewJobStore
  unfolding lookup snapshot_found
  snapshot_of id store = (snapshot_found id (lookup id store.records), store)
