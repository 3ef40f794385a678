-- ===== src/Jobs/Steps.antt =====
-- The operations of the store keep every row sound, whatever the reviews answer or raise.
use skn25_final_4team.Prelude.{
  ℕ, zero, suc, ◌≤◌, ◌<◌, String, ◌≡◌, refl, ap, ◌⊎◌, Bool, true, false, Option, none, [], ◌∷◌,
  arith, leb, some, All, All-mono, Exc, Result, ok, raises, Bool-cases, inl, inr,
}
use skn25_final_4team.Jobs.{
  Job, Table, Surroundings, read_row, marked, has_id, owned_by, claimable, update_where, claimed,
  reviewed, failed_row, mark_failed, settle, finish, process_claimed, approved, or_three,
}
use skn25_final_4team.Jobs.States.{
  IsSound, Unique, IsSoundTable, Unique-update_where, All-update_where, Only,
}

claimed-IsSound :
    (worker : String) (now : ℕ) (j : Job)
    → claimable j ≡ true
    → IsSound j
    → IsSound (claimed worker now j)
unfolding claimed
claimed-IsSound worker now j c h = record {
  tries = ground (arith, h.claims);
  claims = λ e. cc;
  worker = λ e. refl;
  waits = λ e. cc;
  done = λ e. cc;
  safe = h.safe;
}

reviewed-IsSound : (b : Bool) (now : ℕ) (j : Job) → IsSound j → IsSound (reviewed b now j)
unfolding reviewed
reviewed-IsSound true now j h = record {
  tries = h.tries;
  claims = λ e. cc;
  worker = λ e. cc;
  waits = λ e. refl;
  done = λ e. cc;
  safe = h.safe;
}
reviewed-IsSound false now j h = record {
  tries = h.tries;
  claims = λ e. cc;
  worker = λ e. cc;
  waits = λ e. cc;
  done = λ e. refl;
  safe = h.safe;
}

-- A row with the tries of the row that was claimed.
abbrev Tried : Job → Job → Type 0
Tried row j = (j.attempts ≡ row.attempts) × (j.max_attempts ≡ row.max_attempts)

failed_row-IsSound :
    (row : Job) (e : Exc) (now : ℕ) (j : Job)
    → 1 ≤ row.attempts
    → Tried row j
    → IsSound j
    → IsSound (failed_row row e now j)
unfolding failed_row
failed_row-IsSound row e now j tried (same, also) h =
    by_dead (Bool-cases (leb (or_three row.max_attempts) row.attempts))
  where
    by_dead :
        (leb (or_three row.max_attempts) row.attempts ≡ true)
          ⊎ (leb (or_three row.max_attempts) row.attempts ≡ false)
        → IsSound (failed_row row e now j)
    by_dead (inl d) = record {
      tries = h.tries;
      claims = rw d (λ q. cc);
      worker = rw d (λ q. cc);
      waits = rw d (λ q. cc);
      done = rw d (λ q. cc);
      safe = h.safe;
    }
    by_dead (inr d) = record {
      tries = h.tries;
      claims = λ q. rw (same, also) (three row.max_attempts (omega (arith, same, also, h.tries)) d);
      worker = rw d (λ q. cc);
      waits = rw d (λ q. cc);
      done = rw d (λ q. cc);
      safe = h.safe;
    }
      where
        three :
            (m : ℕ) → row.attempts ≤ m → leb (or_three m) row.attempts ≡ false → row.attempts < m
        three zero le l = omega arith
        three (suc m) le l = ground arith

pub approved-IsSound :
    (by : Option String) (now : ℕ) (j : Job) → IsSound j → IsSound (approved by now j)
unfolding approved
approved-IsSound by now j h = record {
  tries = h.tries;
  claims = λ e. cc;
  worker = λ e. cc;
  waits = λ e. cc;
  done = λ e. refl;
  safe = h.safe;
}

-- An update of the rows that pass a test, which keeps ids and makes of a sound row a sound one.
pub update-IsSoundTable :
    (P : Job → Type 0) (test : Job → Bool) (f : Job → Job)
    → ((j : Job) → (f j).job_id ≡ j.job_id)
    → ((j : Job) → IsSound j × P j → test j ≡ true → IsSound (f j))
    → (t : Table) → All (λ j. IsSound j × P j) t
    → Unique t
    → IsSoundTable (update_where test f t)
update-IsSoundTable P test f same keeps t h u = record {
  rows = All-update_where (λ j. IsSound j × P j) IsSound test f keeps (λ j (s, _) _. s) t h;
  keys = Unique-update_where test f same t u;
}

pub All-both : (P Q : Job → Type 0) (t : Table) → All P t → All Q t → All (λ j. P j × Q j) t
All-both P Q [] p q = tt
All-both P Q (j ∷ js) (p, ps) (q, qs) = ((p, q), All-both P Q js ps qs)

pub owned-id : (id worker : String) (j : Job) → owned_by id worker j ≡ true → has_id id j ≡ true
owned-id id worker j h = ground arith

-- The rows with the id of the claimed row have its tries.
abbrev Tries : Job → Table → Type 0
Tries row t = All (λ j. has_id row.job_id j ≡ true → Tried row j) t

mark_failed-IsSoundTable :
    (row : Job) (e : Exc) (worker : String) (now : ℕ) (t : Table)
    → 1 ≤ row.attempts
    → IsSoundTable t
    → Tries row t
    → IsSoundTable (mark_failed row e worker now t)
unfolding mark_failed
mark_failed-IsSoundTable row e worker now t tried h same =
    update-IsSoundTable (λ j. has_id row.job_id j ≡ true → Tried row j) (owned_by row.job_id worker)
      (failed_row row e now) (λ j. refl)
      (λ j (s, o) own.
        failed_row-IsSound row e now j tried (o (owned-id row.job_id worker j own)) s)
      t (All-both IsSound (λ j. has_id row.job_id j ≡ true → Tried row j) t h.rows same) h.keys

reviewed-IsSoundTable :
    (row : Job) (b : Bool) (worker : String) (now : ℕ) (t : Table)
    → IsSoundTable t
    → IsSoundTable (update_where (owned_by row.job_id worker) (reviewed b now) t)
unfolding reviewed
reviewed-IsSoundTable row b worker now t h =
    update-IsSoundTable (λ j. Unit) (owned_by row.job_id worker) (reviewed b now) (λ j. refl)
      (λ j (s, _) _. reviewed-IsSound b now j s) t
      (All-mono IsSound (λ j. IsSound j × Unit) (λ j s. (s, tt)) t h.rows) h.keys

reviewed-Tries :
    (row : Job) (b : Bool) (worker : String) (now : ℕ) (t : Table)
    → Tries row t
    → Tries row (update_where (owned_by row.job_id worker) (reviewed b now) t)
unfolding reviewed
reviewed-Tries row b worker now t h =
    All-update_where (λ j. has_id row.job_id j ≡ true → Tried row j)
      (λ j. has_id row.job_id j ≡ true → Tried row j) (owned_by row.job_id worker) (reviewed b now)
      (λ j o _. o) (λ j o _. o) t h

-- The claimed row alone has its id after the claim.
pub claimed-Only :
    (row : Job) (worker : String) (now : ℕ) (t : Table)
    → Only row t
    → Only (claimed worker now row) (update_where (has_id row.job_id) (claimed worker now) t)
unfolding claimed
claimed-Only row worker now t only =
    All-update_where (λ j. has_id row.job_id j ≡ true → j ≡ row)
      (λ j. has_id row.job_id j ≡ true → j ≡ claimed worker now row) (has_id row.job_id)
      (claimed worker now) (λ j o e _. ap (claimed worker now) (o e)) (λ j o e h. cc) t only

pub claim-IsSoundTable :
    (row : Job) (worker : String) (now : ℕ) (t : Table)
    → claimable row ≡ true
    → Only row t
    → IsSoundTable t
    → IsSoundTable (update_where (has_id row.job_id) (claimed worker now) t)
unfolding claimed
claim-IsSoundTable row worker now t free only h =
    update-IsSoundTable (λ j. has_id row.job_id j ≡ true → j ≡ row) (has_id row.job_id)
      (claimed worker now) (λ j. refl)
      (λ j (s, o) e. claimed-IsSound worker now j (rw (o e) free) s) t
      (All-both IsSound (λ j. has_id row.job_id j ≡ true → j ≡ row) t h.rows only) h.keys

pub process_claimed-IsSoundTable :
    (outside : Surroundings) (row : Job) (worker : String) (now : ℕ) (t : Table)
    → 1 ≤ row.attempts
    → IsSoundTable t
    → Only row t
    → IsSoundTable (process_claimed outside row worker now t).1
unfolding process_claimed
process_claimed-IsSoundTable outside row worker now t tried h only = by_result (outside.review row)
  where
    same : Tries row t
    same =
        All-mono (λ j. has_id row.job_id j ≡ true → j ≡ row)
          (λ j. has_id row.job_id j ≡ true → Tried row j)
          (λ j o e. (ap (λ k. k.attempts) (o e), ap (λ k. k.max_attempts) (o e))) t only

    by_mark :
        (e : Exc) (u : Table) (m : Option Exc)
        → IsSoundTable u
        → Tries row u
        → IsSoundTable (marked outside row e worker now u m).1
    by_mark e u (some other) s k = s
    by_mark e u none s k = mark_failed-IsSoundTable row e worker now u tried s k

    by_snapshot :
        (u : Table) (m : Result Job)
        → IsSoundTable u
        → Tries row u
        → IsSoundTable (settle outside row worker now u m).1
    by_snapshot u (ok j) s k = s
    by_snapshot u (raises e) s k = by_mark e u (outside.mark row) s k

    by_result : (m : Result Bool) → IsSoundTable (finish outside row worker now t m).1
    by_result (raises e) = by_mark e t (outside.mark row) h same
    by_result (ok b) =
        let u = update_where (owned_by row.job_id worker) (reviewed b now) t in
        by_snapshot u (read_row (outside.read_back row) row.job_id u)
          (reviewed-IsSoundTable row b worker now t h) (reviewed-Tries row b worker now t same)
