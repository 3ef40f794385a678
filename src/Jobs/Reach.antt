-- ===== src/Jobs/Reach.antt =====
-- Every sequence of calls of the store leads from a sound table to a sound one.
use skn25_final_4team.Prelude.{
  ℕ, String, ◌≡◌, refl, ◌⊎◌, true, false, Option, none, some, [], ◌∷◌, ◌++◌, arith, str_eq_iff, any,
  any-append, All, Bool-cases, inl, inr, All-mono,
}
use skn25_final_4team.Jobs.{
  Job, Table, Surroundings, Route, has_id, fetch_job, new_job, submit_job, run_once, process,
  approved, approve,
}
use skn25_final_4team.Jobs.States.{IsSound, Unique, IsSoundTable}
use skn25_final_4team.Jobs.Steps.{update-IsSoundTable, approved-IsSound}
use skn25_final_4team.Jobs.Claims.{run_once-IsSoundTable, process-IsSoundTable}

-- One call of the store, by its effect on the table.
pub data Step (outside : Surroundings) : Table → Table → Type 0 where
  submits :
      (id : String) (route : Route) (payload now : ℕ) (t : Table)
      → any (has_id id) t ≡ false
      → Step outside t (submit_job id route payload now t)
  runs : (worker : String) (now : ℕ) (t : Table) → Step outside t (run_once outside worker now t).1
  processes :
      (id worker : String) (now : ℕ) (t : Table)
      → Step outside t (process outside id worker now t).1
  approves :
      (id : String) (by : Option String) (now : ℕ) (t : Table)
      → Step outside t (approve id by now t).1

pub data Reach (outside : Surroundings) (t : Table) : Table → Type 0 where
  start : Reach outside t t
  next : (u v : Table) → Reach outside t u → Step outside u v → Reach outside t v

approve-IsSoundTable :
    (id : String) (by : Option String) (now : ℕ) (t : Table)
    → IsSoundTable t
    → IsSoundTable (approve id by now t).1
unfolding approve approved
approve-IsSoundTable id by now t h = by_row (fetch_job id t) refl
  where
    by_row : (o : Option Job) → fetch_job id t ≡ o → IsSoundTable (approve id by now t).1
    by_row none e = rw (e, approve) h
    by_row (some row) e = by_flag (Bool-cases row.awaiting_approval)
      where
        by_flag :
            (row.awaiting_approval ≡ true) ⊎ (row.awaiting_approval ≡ false)
            → IsSoundTable (approve id by now t).1
        by_flag (inr done) = rw (e, done, approve) h
        by_flag (inl waits) =
            rw (e, waits, approve)
              (update-IsSoundTable (λ j. Unit) (has_id id) (approved by now) (λ j. refl)
                (λ j (s, _) _. approved-IsSound by now j s) t
                (All-mono IsSound (λ j. IsSound j × Unit) (λ j s. (s, tt)) t h.rows) h.keys)

pub All-append : (P : Job → Type 0) (t u : Table) → All P t → All P u → All P (t ++ u)
All-append P [] u h k = k
All-append P (j ∷ js) u (here, later) k = (here, All-append P js u later k)

Unique-append :
    (t : Table) (j : Job) → any (has_id j.job_id) t ≡ false → Unique t → Unique (t ++ j ∷ [])
Unique-append [] j fresh u = (refl, tt)
Unique-append (k ∷ ks) j fresh (new, u) = (
  ground (
    arith,
    any-append (has_id k.job_id) ks (j ∷ []),
    str_eq_iff j.job_id k.job_id,
    str_eq_iff k.job_id j.job_id,
  ),
  Unique-append ks j (ground arith) u,
)

submit_job-IsSoundTable :
    (id : String) (route : Route) (payload now : ℕ) (t : Table)
    → any (has_id id) t ≡ false
    → IsSoundTable t
    → IsSoundTable (submit_job id route payload now t)
unfolding submit_job new_job
submit_job-IsSoundTable id route payload now t fresh h = record {
  rows = All-append IsSound t (new_job id route payload now ∷ []) h.rows (new_row, tt);
  keys = Unique-append t (new_job id route payload now) fresh h.keys;
}
  where
    new_row : IsSound (new_job id route payload now)
    new_row = record {
      tries = omega arith;
      claims = λ e. omega arith;
      worker = λ e. cc;
      waits = λ e. cc;
      done = λ e. cc;
      safe = refl;
    }

pub Step-IsSoundTable :
    (outside : Surroundings) (t u : Table) → Step outside t u → IsSoundTable t → IsSoundTable u
Step-IsSoundTable outside _ _ (submits id route payload now t fresh) h =
    submit_job-IsSoundTable id route payload now t fresh h
Step-IsSoundTable outside _ _ (runs worker now t) h = run_once-IsSoundTable outside worker now t h
Step-IsSoundTable outside _ _ (processes id worker now t) h =
    process-IsSoundTable outside id worker now t h
Step-IsSoundTable outside _ _ (approves id by now t) h = approve-IsSoundTable id by now t h

-- Starting from a table that is sound (each row within its tries, a queued row with tries left, a
-- running row with a worker, the approval flag set in the state awaiting and not set in the state
-- succeeded, no side effect executed, and no two rows with one id), every sequence of submits with
-- fresh ids, worker polls, direct runs and approvals leads to a sound table, whatever the reviews
-- give and whatever reading a row back or marking a failure raises.
pub Reach-IsSoundTable :
    (outside : Surroundings) (t u : Table) → Reach outside t u → IsSoundTable t → IsSoundTable u
Reach-IsSoundTable outside t _ start h = h
Reach-IsSoundTable outside t _ (next v u reach step) h =
    Step-IsSoundTable outside v u step (Reach-IsSoundTable outside t v reach h)
