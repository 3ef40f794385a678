-- ===== src/Jobs/States.antt =====
-- The states of a job: an invariant of every row, and that every operation of the store keeps it.
use text.Mathlib.TextPositions.{eq_refl}
use skn25_final_4team.Prelude.{
  ℕ, ◌≤◌, ◌<◌, String, ◌≡◌, refl, ◌∙◌, ◌⊎◌, Bool, true, false, Option, none, some, [], ◌∷◌, arith,
  str_eq, str_eq_iff, any, All, Bool-cases, Option-cases, inl, inr,
}
use skn25_final_4team.Jobs.{
  Job, Table, Status, running, awaiting, succeeded, is_queued, has_id, due, before, update_where,
  fetch_job, next_job,
}

abbrev pub is_awaiting : Status → Bool
is_awaiting awaiting = true
is_awaiting _ = false

abbrev pub is_running : Status → Bool
is_running running = true
is_running _ = false

abbrev pub is_succeeded : Status → Bool
is_succeeded succeeded = true
is_succeeded _ = false

-- The approval flag and the status agree.
abbrev pub IsFlagged : Job → Type 0
IsFlagged j = j.awaiting_approval ≡ is_awaiting j.status

abbrev pub has_worker : Option String → Bool
has_worker none = false
has_worker (some w) = true

pub record IsSound (j : Job) : Type 0 where
  -- a row is tried at most max_attempts times, and a queued one can still be claimed
  pub tries : j.attempts ≤ j.max_attempts
  pub claims : is_queued j.status ≡ true → j.attempts < j.max_attempts
  -- a running row has a worker
  pub worker : is_running j.status ≡ true → has_worker j.worker_id ≡ true
  -- a row that awaits an approval has the flag, and one that succeeded has not
  pub waits : is_awaiting j.status ≡ true → j.awaiting_approval ≡ true
  pub done : is_succeeded j.status ≡ true → j.awaiting_approval ≡ false
  pub safe : j.side_effects_executed ≡ false

-- job_id is the primary key.
abbrev pub Unique : Table → Type 0
Unique [] = Unit
Unique (j ∷ js) = (any (has_id j.job_id) js ≡ false) × Unique js

pub record IsSoundTable (t : Table) : Type 0 where
  pub rows : All IsSound t
  pub keys : Unique t

-- An update that keeps ids keeps the key, and rows that it keeps sound stay sound.
pub any-update_where :
    (id : String) (test : Job → Bool) (f : Job → Job)
    → ((j : Job) → (f j).job_id ≡ j.job_id)
    → (t : Table) → any (has_id id) (update_where test f t) ≡ any (has_id id) t
unfolding update_where
any-update_where id test f same [] = refl
any-update_where id test f same (j ∷ js) =
    ground (arith, same j, any-update_where id test f same js)

pub Unique-update_where :
    (test : Job → Bool) (f : Job → Job)
    → ((j : Job) → (f j).job_id ≡ j.job_id)
    → (t : Table) → Unique t
    → Unique (update_where test f t)
unfolding update_where
Unique-update_where test f same [] u = tt
Unique-update_where test f same (j ∷ js) (fresh, u) = elim (Bool-cases (test j)) [
  | inl e ↦
      rw (e, same j)
        (any-update_where j.job_id test f same js ∙ fresh, Unique-update_where test f same js u)
  | inr e ↦
      rw e (any-update_where j.job_id test f same js ∙ fresh, Unique-update_where test f same js u)
]

pub All-update_where :
    (P Q : Job → Type 0) (test : Job → Bool) (f : Job → Job)
    → ((j : Job) → P j → test j ≡ true → Q (f j))
    → ((j : Job) → P j → test j ≡ false → Q j)
    → (t : Table) → All P t
    → All Q (update_where test f t)
unfolding update_where
All-update_where P Q test f new old [] h = tt
All-update_where P Q test f new old (j ∷ js) (here, later) = elim (Bool-cases (test j)) [
  | inl e ↦ rw e (new j here e, All-update_where P Q test f new old js later)
  | inr e ↦ rw e (old j here e, All-update_where P Q test f new old js later)
]

-- One row alone has the id of the row that was picked.
abbrev pub Only : Job → Table → Type 0
Only row t = All (λ j. has_id row.job_id j ≡ true → j ≡ row) t

absent-Only : (row : Job) (t : Table) → any (has_id row.job_id) t ≡ false → Only row t
absent-Only row [] h = tt
absent-Only row (j ∷ js) h = (λ e. ground arith, absent-Only row js (ground arith))

next_job-any :
    (now : ℕ) (row : Job) (t : Table) → next_job now t ≡ some row → any (has_id row.job_id) t ≡ true
unfolding next_job
next_job-any now row [] h = cc
next_job-any now row (j ∷ js) h = ground (arith, next_job-any now row js, eq_refl j.job_id)

pub next_job-due :
    (now : ℕ) (row : Job) (t : Table) → next_job now t ≡ some row → due now row ≡ true
unfolding next_job
next_job-due now row [] h = cc
next_job-due now row (j ∷ js) h = ground (arith, next_job-due now row js)

pub next_job-head :
    (now : ℕ) (row j : Job) (js : Table)
    → next_job now (j ∷ js) ≡ some row
    → (j ≡ row) ⊎ (next_job now js ≡ some row)
unfolding next_job
next_job-head now row j js h = elim (Option-cases (next_job now js)) [
  | inl e ↦ inl (ground arith)
  | inr (k, e) ↦ elim (Bool-cases (due now j)) [
    | inr late ↦ inr (ground arith)
    | inl on ↦ elim (Bool-cases (before k j)) [
      | inl first ↦ inr (ground arith)
      | inr second ↦ inl (ground arith)
    ]
  ]
]

-- A row whose key is taken below does not have the key of a row below.
other_key :
    (row j : Job) (js : Table)
    → any (has_id j.job_id) js ≡ false
    → any (has_id row.job_id) js ≡ true
    → has_id row.job_id j ≡ true
    → j ≡ row
other_key row j js fresh there h =
    let same = (str_eq_iff j.job_id row.job_id).0 h in cc (fresh, rw (← same) at there)

Only-cons :
    (row j : Job) (js : Table)
    → any (has_id j.job_id) js ≡ false
    → (j ≡ row) ⊎ ((any (has_id row.job_id) js ≡ true) × Only row js)
    → Only row (j ∷ js)
Only-cons row j js fresh (inl e) = (λ _. e, absent-Only row js (rw e at fresh))
Only-cons row j js fresh (inr (there, only)) = (other_key row j js fresh there, only)

pub next_job-Only :
    (now : ℕ) (row : Job) (t : Table) → Unique t → next_job now t ≡ some row → Only row t
unfolding next_job
next_job-Only now row [] u h = tt
next_job-Only now row (j ∷ js) (fresh, u) h =
    Only-cons row j js fresh (place (next_job-head now row j js h) (next_job-Only now row js u))
  where
    place :
        (j ≡ row) ⊎ (next_job now js ≡ some row)
        → (next_job now js ≡ some row → Only row js)
        → (j ≡ row) ⊎ ((any (has_id row.job_id) js ≡ true) × Only row js)
    place (inl e) only = inl e
    place (inr e) only = inr (next_job-any now row js e, only e)

fetch_job-any :
    (id : String) (row : Job) (t : Table)
    → fetch_job id t ≡ some row
    → any (has_id row.job_id) t ≡ true
unfolding fetch_job
fetch_job-any id row [] h = cc
fetch_job-any id row (j ∷ js) h = ground (arith, fetch_job-any id row js, eq_refl j.job_id)

pub fetch_job-Only :
    (id : String) (row : Job) (t : Table) → Unique t → fetch_job id t ≡ some row → Only row t
unfolding fetch_job
fetch_job-Only id row [] u h = tt
fetch_job-Only id row (j ∷ js) (fresh, u) h = elim (Bool-cases (str_eq j.job_id id)) [
  | inl e ↦ Only-cons row j js fresh (inl (ground arith))
  | inr e ↦
      let below : fetch_job id js ≡ some row = ground arith in
      Only-cons row j js fresh
        (inr (fetch_job-any id row js below, fetch_job-Only id row js u below))
]

pub fetch_job-id :
    (id : String) (row : Job) (t : Table) → fetch_job id t ≡ some row → row.job_id ≡ id
unfolding fetch_job
fetch_job-id id row [] h = cc
fetch_job-id id row (j ∷ js) h = ground (arith, fetch_job-id id row js, str_eq_iff j.job_id id)
