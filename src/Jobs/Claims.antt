-- ===== src/Jobs/Claims.antt =====
-- What a claim takes, and that a poll and a direct run of a job keep a table sound.
use skn25_final_4team.Prelude.{
  ℕ, String, ◌≡◌, refl, ap, ◌⊎◌, true, Option, none, some, [], ◌∷◌, arith, str_eq, All, Bool-cases,
  Option-cases, inl, inr,
}
use skn25_final_4team.Jobs.{
  Job, Table, Surroundings, has_id, claimable, update_where, fetch_job, next_job, claimed,
  claim_by_id, claim_next_job, claim_job, process_claimed, run_once, process,
}
use skn25_final_4team.Jobs.Budget.{claim_next-eq, run_once-eq, run_once-idle}
use skn25_final_4team.Jobs.States.{
  IsFlagged, IsSoundTable, Only, next_job-due, next_job-Only, fetch_job-Only, fetch_job-id,
  next_job-head,
}
use skn25_final_4team.Jobs.Steps.{claimed-Only, claim-IsSoundTable, process_claimed-IsSoundTable}

pub next_job-All :
    (P : Job → Type 0) (now : ℕ) (row : Job) (t : Table)
    → next_job now t ≡ some row
    → All P t
    → P row
unfolding next_job
next_job-All P now row [] e h = cc
next_job-All P now row (j ∷ js) e (here, later) = elim (next_job-head now row j js e) [
  | inl same ↦ rw same at here
  | inr below ↦ next_job-All P now row js below later
]

fetch_job-All :
    (P : Job → Type 0) (id : String) (row : Job) (t : Table)
    → fetch_job id t ≡ some row
    → All P t
    → P row
unfolding fetch_job
fetch_job-All P id row [] e h = cc
fetch_job-All P id row (j ∷ js) e (here, later) = elim (Bool-cases (str_eq j.job_id id)) [
  | inl hit ↦ (let same : j ≡ row = ground arith in rw same at here)
  | inr miss ↦ fetch_job-All P id row js (ground arith) later
]

-- The claim of a free row and its review.
claimed-run :
    (outside : Surroundings) (row : Job) (worker : String) (now : ℕ) (t : Table)
    → claimable row ≡ true
    → Only row t
    → IsSoundTable t
    → IsSoundTable
        (process_claimed outside
          (claimed worker now row)
          worker
          now
          (update_where (has_id row.job_id) (claimed worker now) t)).1
unfolding claimed
claimed-run outside row worker now t free only h =
    process_claimed-IsSoundTable outside (claimed worker now row) worker now
      (update_where (has_id row.job_id) (claimed worker now) t) (omega arith)
      (claim-IsSoundTable row worker now t free only h) (claimed-Only row worker now t only)

pub run_once-IsSoundTable :
    (outside : Surroundings) (worker : String) (now : ℕ) (t : Table)
    → IsSoundTable t
    → IsSoundTable (run_once outside worker now t).1
run_once-IsSoundTable outside worker now t h = elim (Option-cases (next_job now t)) [
  | inl e ↦ rw (ap (λ p. p.1) (run_once-idle outside worker now t e)) h
  | inr (row, e) ↦ rw (ap (λ p. p.1) (run_once-eq outside worker now t row e)) (
      claimed-run outside row worker now t (let d = next_job-due now row t e in ground arith)
        (next_job-Only now row t h.keys e) h)
]

-- A claim changes nothing, or takes a free row of the table that alone has its id.
abbrev pub Claims : Option Job × Table → String → ℕ → Table → Type 0
Claims result worker now t =
    (result ≡ (none, t))
    ⊎ ((row : Job) × (claimable row ≡ true)
        × (All IsFlagged t → IsFlagged row)
        × Only row t
        × (result ≡ (
          some (claimed worker now row),
          update_where (has_id row.job_id) (claimed worker now) t,
        )))

claim_by_id-Claims :
    (id worker : String) (now : ℕ) (t : Table)
    → IsSoundTable t
    → Claims (claim_by_id id worker now t) worker now t
unfolding claim_by_id
claim_by_id-Claims id worker now t h = elim (Option-cases (fetch_job id t)) [
  | inl e ↦ inl (rw (e, claim_by_id) refl)
  | inr (row, e) ↦ elim (Bool-cases (claimable row)) [
    | inl free ↦ inr (
      row,
      free,
      fetch_job-All IsFlagged id row t e,
      fetch_job-Only id row t h.keys e,
      rw (e, free, fetch_job-id id row t e, claim_by_id) refl,
    )
    | inr busy ↦ inl (rw (e, busy, claim_by_id) refl)
  ]
]

claim_next_job-Claims :
    (worker : String) (now : ℕ) (t : Table)
    → IsSoundTable t
    → Claims (claim_next_job worker now t) worker now t
unfolding claim_next_job
claim_next_job-Claims worker now t h = elim (Option-cases (next_job now t)) [
  | inl e ↦ inl (rw (e, claim_next_job) refl)
  | inr (row, e) ↦
      let d = next_job-due now row t e in
      inr (
        row,
        ground arith,
        next_job-All IsFlagged now row t e,
        next_job-Only now row t h.keys e,
        claim_next-eq worker now t row e,
      )
]

pub claim_job-Claims :
    (id worker : String) (now : ℕ) (t : Table)
    → IsSoundTable t
    → Claims (claim_job id worker now t) worker now t
unfolding claim_job
claim_job-Claims id worker now t h = elim (Bool-cases (str_eq id "")) [
  | inl e ↦ rw (e, claim_job) (claim_next_job-Claims worker now t h)
  | inr e ↦ rw (e, claim_job) (claim_by_id-Claims id worker now t h)
]

pub process-IsSoundTable :
    (outside : Surroundings) (id worker : String) (now : ℕ) (t : Table)
    → IsSoundTable t
    → IsSoundTable (process outside id worker now t).1
unfolding process
process-IsSoundTable outside id worker now t h = elim (claim_job-Claims id worker now t h) [
  | inl c ↦ rw (ap (λ p. p.0) c, ap (λ p. p.1) c, process) h
  | inr (row, free, s, only, c) ↦
      rw (ap (λ p. p.0) c, ap (λ p. p.1) c, process)
        (claimed-run outside row worker now t free only h)
]
