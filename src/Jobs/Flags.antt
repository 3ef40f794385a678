-- ===== src/Jobs/Flags.antt =====
-- Where reading a row back never fails, the approval flags agree with the states.
use skn25_final_4team.Prelude.{
  ℕ, String, ◌≡◌, refl, ap, ◌∙◌, Bool, true, false, ◌&&◌, Option, none, some, [], ◌∷◌, arith, ltb,
  leb, All, Exc, Result, ok, raises, Bool-cases, Option-cases, inl, inr,
}
use skn25_final_4team.Jobs.{
  Job, Table, Surroundings, Status, queued, running, awaiting, succeeded, failed, dead_letter,
  cancelled, is_queued, has_id, owned_by, claimable, update_where, fetch_job, next_job, claimed,
  reviewed, or_three, failed_row, mark_failed, snapshot, marked, settle, finish, process_claimed,
  run_once, process, approved, approve, new_job, submit_job,
}
use skn25_final_4team.Jobs.Budget.{run_once-eq, run_once-idle}
use skn25_final_4team.Jobs.States.{
  IsSoundTable, IsFlagged, is_awaiting, Only, All-update_where, next_job-due, next_job-Only,
}
use skn25_final_4team.Jobs.Steps.{owned-id, claimed-Only, All-both}
use skn25_final_4team.Jobs.Claims.{claim_job-Claims, next_job-All}
use skn25_final_4team.Jobs.Reach.{
  Step, submits, runs, processes, approves, Reach, start, next, Reach-IsSoundTable, All-append,
}

reviewed-IsFlagged : (b : Bool) (now : ℕ) (j : Job) → IsFlagged (reviewed b now j)
unfolding reviewed
reviewed-IsFlagged true now j = refl
reviewed-IsFlagged false now j = refl

failed_row-IsFlagged :
    (row j : Job) (e : Exc) (now : ℕ)
    → j.awaiting_approval ≡ false
    → IsFlagged (failed_row row e now j)
unfolding failed_row
failed_row-IsFlagged row j e now clear =
    elim (Bool-cases (leb (or_three row.max_attempts) row.attempts)) [
      | inl d ↦ rw d clear
      | inr d ↦ rw d clear
    ]

-- A row that can be claimed has no flag.
claimable-clear : (j : Job) → claimable j ≡ true → IsFlagged j → j.awaiting_approval ≡ false
claimable-clear j free h = by_status j.status free h
  where
    by_status :
        (s : Status)
        → (is_queued s && ltb j.attempts j.max_attempts) ≡ true
        → j.awaiting_approval ≡ is_awaiting s
        → j.awaiting_approval ≡ false
    by_status queued c f = f
    by_status running c f = cc
    by_status awaiting c f = cc
    by_status succeeded c f = cc
    by_status failed c f = cc
    by_status dead_letter c f = cc
    by_status cancelled c f = cc

abbrev pub Flagged : Table → Type 0
Flagged t = All IsFlagged t

-- An update that makes rows with an agreeing flag.
update-Flagged :
    (test : Job → Bool) (f : Job → Job)
    → ((j : Job) → test j ≡ true → IsFlagged (f j))
    → (t : Table) → Flagged t
    → Flagged (update_where test f t)
update-Flagged test f new t h =
    All-update_where IsFlagged IsFlagged test f (λ j _ e. new j e) (λ j s _. s) t h

mark_failed-Flagged :
    (row : Job) (e : Exc) (worker : String) (now : ℕ) (t : Table)
    → row.awaiting_approval ≡ false
    → Only row t
    → Flagged t
    → Flagged (mark_failed row e worker now t)
unfolding mark_failed
mark_failed-Flagged row e worker now t clear only h =
    All-update_where (λ j. IsFlagged j × (has_id row.job_id j ≡ true → j ≡ row)) IsFlagged
      (owned_by row.job_id worker) (failed_row row e now)
      (λ j (f, o) own.
        let same = o (owned-id row.job_id worker j own) in
        failed_row-IsFlagged row j e now (ap (λ k. k.awaiting_approval) same ∙ clear))
      (λ j (f, o) _. f) t (All-both IsFlagged (λ j. has_id row.job_id j ≡ true → j ≡ row) t h only)

mark_failed-absent :
    (row : Job) (e : Exc) (worker : String) (now : ℕ) (t : Table)
    → fetch_job row.job_id t ≡ none
    → mark_failed row e worker now t ≡ t
unfolding mark_failed fetch_job update_where
mark_failed-absent row e worker now [] h = refl
mark_failed-absent row e worker now (j ∷ js) h =
    ground (arith, mark_failed-absent row e worker now js, owned-id row.job_id worker j)

snapshot-absent :
    (id : String) (t : Table) (e : Exc) → snapshot id t ≡ raises e → fetch_job id t ≡ none
unfolding snapshot
snapshot-absent id t e h = ground arith

module _ (outside : Surroundings) (quiet : (j : Job) → outside.read_back j ≡ none) where
  process_claimed-Flagged :
      (row : Job) (worker : String) (now : ℕ) (t : Table)
      → row.awaiting_approval ≡ false
      → Only row t
      → Flagged t
      → Flagged (process_claimed outside row worker now t).1
  unfolding process_claimed
  process_claimed-Flagged row worker now t clear only h = by_result (outside.review row)
    where
      by_mark : (e : Exc) (m : Option Exc) → Flagged (marked outside row e worker now t m).1
      by_mark e (some other) = h
      by_mark e none = mark_failed-Flagged row e worker now t clear only h

      unmarked :
          (e : Exc) (u : Table) (m : Option Exc)
          → fetch_job row.job_id u ≡ none
          → Flagged u
          → Flagged (marked outside row e worker now u m).1
      unmarked e u (some other) absent k = k
      unmarked e u none absent k = rw (mark_failed-absent row e worker now u absent) k

      by_snapshot :
          (u : Table) (m : Result Job)
          → ((e : Exc) → m ≡ raises e → fetch_job row.job_id u ≡ none)
          → Flagged u
          → Flagged (settle outside row worker now u m).1
      by_snapshot u (ok j) absent k = k
      by_snapshot u (raises e) absent k = unmarked e u (outside.mark row) (absent e refl) k

      by_result : (m : Result Bool) → Flagged (finish outside row worker now t m).1
      by_result (raises e) = by_mark e (outside.mark row)
      by_result (ok b) =
          let u = update_where (owned_by row.job_id worker) (reviewed b now) t in
          rw (quiet row) (
            by_snapshot u (snapshot row.job_id u) (snapshot-absent row.job_id u) (
              update-Flagged (owned_by row.job_id worker) (reviewed b now)
                (λ j _. reviewed-IsFlagged b now j) t h))

  claimed-Flagged :
      (row : Job) (worker : String) (now : ℕ) (t : Table)
      → claimable row ≡ true
      → IsFlagged row
      → Only row t
      → Flagged t
      → Flagged
          (process_claimed outside
            (claimed worker now row)
            worker
            now
            (update_where (has_id row.job_id) (claimed worker now) t)).1
  unfolding claimed
  claimed-Flagged row worker now t free flag only h =
      let clear = claimable-clear row free flag in
      process_claimed-Flagged (claimed worker now row) worker now
        (update_where (has_id row.job_id) (claimed worker now) t) clear
        (claimed-Only row worker now t only)
        (All-update_where (λ j. IsFlagged j × (has_id row.job_id j ≡ true → j ≡ row)) IsFlagged
          (has_id row.job_id) (claimed worker now)
          (λ j (f, o) e. ap (λ k. k.awaiting_approval) (o e) ∙ clear) (λ j (f, o) _. f) t
          (All-both IsFlagged (λ j. has_id row.job_id j ≡ true → j ≡ row) t h only))

  run_once-Flagged :
      (worker : String) (now : ℕ) (t : Table)
      → IsSoundTable t
      → Flagged t
      → Flagged (run_once outside worker now t).1
  run_once-Flagged worker now t sound h = elim (Option-cases (next_job now t)) [
    | inl e ↦ rw (ap (λ p. p.1) (run_once-idle outside worker now t e)) h
    | inr (row, e) ↦ rw (ap (λ p. p.1) (run_once-eq outside worker now t row e)) (
        claimed-Flagged row worker now t (let d = next_job-due now row t e in ground arith)
          (next_job-All IsFlagged now row t e h) (next_job-Only now row t sound.keys e) h)
  ]

  process-Flagged :
      (id worker : String) (now : ℕ) (t : Table)
      → IsSoundTable t
      → Flagged t
      → Flagged (process outside id worker now t).1
  unfolding process
  process-Flagged id worker now t sound h = elim (claim_job-Claims id worker now t sound) [
    | inl c ↦ rw (ap (λ p. p.0) c, ap (λ p. p.1) c, process) h
    | inr (row, free, flag, only, c) ↦
        rw (ap (λ p. p.0) c, ap (λ p. p.1) c, process)
          (claimed-Flagged row worker now t free (flag h) only h)
  ]

  approve-Flagged :
      (id : String) (by : Option String) (now : ℕ) (t : Table)
      → Flagged t
      → Flagged (approve id by now t).1
  unfolding approve approved
  approve-Flagged id by now t h = elim (Option-cases (fetch_job id t)) [
    | inl e ↦ rw (e, approve) h
    | inr (row, e) ↦ elim (Bool-cases row.awaiting_approval) [
      | inr done ↦ rw (e, done, approve) h
      | inl waits ↦
          rw (e, waits, approve) (update-Flagged (has_id id) (approved by now) (λ j _. refl) t h)
    ]
  ]

  Step-Flagged : (t u : Table) → Step outside t u → IsSoundTable t → Flagged t → Flagged u
  unfolding submit_job new_job
  Step-Flagged _ _ (submits id route payload now t fresh) sound h =
      All-append IsFlagged t (new_job id route payload now ∷ []) h (refl, tt)
  Step-Flagged _ _ (runs worker now t) sound h = run_once-Flagged worker now t sound h
  Step-Flagged _ _ (processes id worker now t) sound h = process-Flagged id worker now t sound h
  Step-Flagged _ _ (approves id by now t) sound h = approve-Flagged id by now t h

  -- If reading a row back never raises, then from a sound table in which each approval flag agrees
  -- with the row's state, every sequence of submits with fresh ids, worker polls, direct runs and
  -- approvals leads to such a table, whatever the reviews give and whatever marking a failure raises.
  pub Reach-Flagged : (t u : Table) → Reach outside t u → IsSoundTable t → Flagged t → Flagged u
  Reach-Flagged t _ start sound h = h
  Reach-Flagged t _ (next v u reach step) sound h =
      Step-Flagged v u step (Reach-IsSoundTable outside t v reach sound)
        (Reach-Flagged t v reach sound h)
