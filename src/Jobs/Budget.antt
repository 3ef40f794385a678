-- ===== src/Jobs/Budget.antt =====
-- The attempts that a table has left bound the jobs that its workers can claim.
use text.Mathlib.TextPositions.{eq_refl}
use skn25_final_4team.Prelude.{
  ℕ, suc, ◌+◌, ◌-◌, ◌≤◌, String, ◌≡◌, refl, ap, ◌⊎◌, Bool, Option, none, some, List, [], ◌∷◌, arith,
  Exc, Result, ok, raises, Option-cases, inl, inr,
}
use skn25_final_4team.Jobs.{
  Job, Table, Surroundings, read_row, marked, has_id, owned_by, update_where, next_job, claimed,
  claim_next_job, reviewed, failed_row, settle, finish, process_claimed, run_once,
}

-- The attempts that the rows have left.
pub budget : Table → ℕ
budget [] = 0
budget (j ∷ js) = (j.max_attempts - j.attempts) + budget js

-- The calls of run_once, one for each time, that found a job.
pub processed : Surroundings → String → List ℕ → Table → ℕ × Table
processed outside worker [] table = (0, table)
processed outside worker (now ∷ nows) table =
    let (result, table') = run_once outside worker now table in
    let (n, last) = processed outside worker nows table' in
    (elim result [ none ↦ n | some r ↦ suc n ], last)

-- An update of rows that takes away no attempts left.
budget-update_where-le :
    (test : Job → Bool) (f : Job → Job)
    → ((j : Job) → (f j).max_attempts - (f j).attempts ≤ j.max_attempts - j.attempts)
    → (t : Table) → budget (update_where test f t) ≤ budget t
unfolding budget update_where
budget-update_where-le test f less [] = omega arith
budget-update_where-le test f less (j ∷ js) =
    ground (arith, less j, budget-update_where-le test f less js)

claimed-le :
    (worker : String) (now : ℕ) (j : Job)
    → (claimed worker now j).max_attempts - (claimed worker now j).attempts
      ≤ j.max_attempts - j.attempts
unfolding claimed
claimed-le worker now j = omega arith

budget-claimed :
    (worker : String) (now : ℕ) (j : Job) (t : Table)
    → next_job now t ≡ some j
    → budget (update_where (has_id j.job_id) (claimed worker now) t) + 1 ≤ budget t
unfolding budget update_where next_job claimed
budget-claimed worker now j [] h = cc
budget-claimed worker now j (k ∷ ks) h = ground (
  arith,
  budget-claimed worker now j ks,
  budget-update_where-le (has_id j.job_id) (claimed worker now) (claimed-le worker now) ks,
  eq_refl k.job_id,
)

-- The rest of a call of process_claimed takes no attempts away.
budget-process_claimed :
    (outside : Surroundings) (row : Job) (worker : String) (now : ℕ) (t : Table)
    → budget (process_claimed outside row worker now t).1 ≤ budget t
unfolding process_claimed
budget-process_claimed outside row worker now t = by_result (outside.review row)
  where
    by_mark :
        (e : Exc) (u : Table) (m : Option Exc)
        → budget (marked outside row e worker now u m).1 ≤ budget u
    by_mark e u (some other) = omega arith
    by_mark e u none =
        budget-update_where-le (owned_by row.job_id worker) (failed_row row e now)
          (λ j. omega arith) u

    by_snapshot :
        (u : Table) (m : Result Job) → budget (settle outside row worker now u m).1 ≤ budget u
    by_snapshot u (ok j) = omega arith
    by_snapshot u (raises e) = by_mark e u (outside.mark row)

    by_result : (m : Result Bool) → budget (finish outside row worker now t m).1 ≤ budget t
    by_result (raises e) = by_mark e t (outside.mark row)
    by_result (ok b) =
        let u = update_where (owned_by row.job_id worker) (reviewed b now) t in
        omega (
          arith,
          by_snapshot u (read_row (outside.read_back row) row.job_id u),
          budget-update_where-le (owned_by row.job_id worker) (reviewed b now) (λ j. omega arith) t,
        )

pub claim_next-eq :
    (worker : String) (now : ℕ) (t : Table) (j : Job)
    → next_job now t ≡ some j
    → claim_next_job worker now t
      ≡ (some (claimed worker now j), update_where (has_id j.job_id) (claimed worker now) t)
unfolding claim_next_job
claim_next-eq worker now t j e = rw (e, claim_next_job) refl

pub run_once-eq :
    (outside : Surroundings) (worker : String) (now : ℕ) (t : Table) (j : Job)
    → next_job now t ≡ some j
    → let p =
        process_claimed outside
          (claimed worker now j)
          worker
          now
          (update_where (has_id j.job_id) (claimed worker now) t) in
      run_once outside worker now t ≡ (some p.0, p.1)
unfolding run_once
run_once-eq outside worker now t j e =
    rw
      (
        ap (λ p. p.0) (claim_next-eq worker now t j e),
        ap (λ p. p.1) (claim_next-eq worker now t j e),
        run_once,
      )
      refl

pub run_once-idle :
    (outside : Surroundings) (worker : String) (now : ℕ) (t : Table)
    → next_job now t ≡ none
    → run_once outside worker now t ≡ (none, t)
unfolding run_once claim_next_job
run_once-idle outside worker now t e = ground arith

budget-run_once :
    (outside : Surroundings) (worker : String) (now : ℕ) (t : Table)
    → ((run_once outside worker now t).0 ≡ none) × ((run_once outside worker now t).1 ≡ t)
      ⊎ (budget (run_once outside worker now t).1 + 1 ≤ budget t)
unfolding run_once claim_next_job
budget-run_once outside worker now t = elim (Option-cases (next_job now t)) [
  | inl e ↦ inl (ground arith, ground arith)
  | inr (j, e) ↦
      let u = update_where (has_id j.job_id) (claimed worker now) t in
      inr (
        rw (run_once-eq outside worker now t j e) (
          omega (
            arith,
            budget-process_claimed outside (claimed worker now j) worker now u,
            budget-claimed worker now j t e,
          )))
]

-- Whatever the reviews give, whatever fails round them and whenever the worker polls, it claims at most as many jobs as the
-- rows of the table have attempts left, counted together, and what is left then bounds the claims
-- that remain: no job is tried for ever.
pub processed-le-budget :
    (outside : Surroundings) (worker : String) (nows : List ℕ) (t : Table)
    → (processed outside worker nows t).0 + budget (processed outside worker nows t).1 ≤ budget t
unfolding processed
processed-le-budget outside worker [] t = omega arith
processed-le-budget outside worker (now ∷ nows) t = ground (
  arith,
  budget-run_once outside worker now t,
  processed-le-budget outside worker nows (run_once outside worker now t).1,
)
