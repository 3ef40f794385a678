-- ===== src/Jobs/Durable.antt =====
-- The durable table implements the board's approval.
use mathlib.Core.Path.{fun_ext}
use text.Mathlib.TextPositions.{eq_refl}
use skn25_final_4team.Prelude.{
  ℕ, String, ◌≡◌, refl, sym, ◌∙◌, ap, true, false, Option, none, some, [], ◌∷◌, str_eq, str_eq_iff,
  Bool-cases, Option-cases, if◌then◌else◌, key_error, value_error, Result, ok, raises, All, inl,
  inr, arith,
}
use skn25_final_4team.Jobs.{
  Job, Table, Status, queued, running, awaiting, succeeded, failed, dead_letter, cancelled, has_id,
  update_where, fetch_job, approved, approve, snapshot,
}
use skn25_final_4team.Jobs.States.{IsFlagged, is_awaiting}
use skn25_final_4team.Jobs.Board.{
  Phase, waiting, in_review, needs_approval, finished, Board, Seen, seen, set, approve_phase,
}

abbrev pub phase_of_status : Status → Phase
phase_of_status queued = waiting
phase_of_status running = in_review
phase_of_status awaiting = needs_approval
phase_of_status _ = finished

abbrev phase_in : Option Job → Option Phase
phase_in none = none
phase_in (some j) = some (phase_of_status j.status)

-- The board that a table stands for; it issues no tickets of its own.
unfoldable pub table_view : Table → Board
unfolding fetch_job
table_view t = record { phases = λ k. phase_in (fetch_job k t); tickets = 0 }

abbrev pub shown_job : Result Job → Result Seen
shown_job (ok j) = ok (seen (phase_of_status j.status))
shown_job (raises e) = raises e

abbrev updated : (Job → Job) → Option Job → Option Job
updated f none = none
updated f (some j) = some (f j)

fetch_job-update_where :
    (k id : String) (f : Job → Job)
    → ((j : Job) → (f j).job_id ≡ j.job_id)
    → (t : Table)
    → fetch_job k (update_where (has_id id) f t)
      ≡ (if str_eq id k then updated f (fetch_job k t) else fetch_job k t)
unfolding fetch_job update_where
fetch_job-update_where k id f same [] = ground arith
fetch_job-update_where k id f same (j ∷ js) = ground (
  arith,
  same j,
  fetch_job-update_where k id f same js,
  str_eq_iff j.job_id k,
  str_eq_iff j.job_id id,
  str_eq_iff id k,
)

fetch_job-All :
    (P : Job → Type 0) (id : String) (j : Job) (t : Table) → fetch_job id t ≡ some j → All P t → P j
unfolding fetch_job
fetch_job-All P id j [] e h = cc
fetch_job-All P id j (k ∷ ks) e (here, later) = elim (Bool-cases (str_eq k.job_id id)) [
  | inl f ↦ let same : k ≡ j = ground arith in rw (← same) here
  | inr f ↦ fetch_job-All P id j ks (rw f at e) later
]

-- The phase under an id, after the row is approved.
table_view-approved :
    (id : String) (by : Option String) (now : ℕ) (j : Job) (t : Table)
    → fetch_job id t ≡ some j
    → table_view (update_where (has_id id) (approved by now) t) ≡ set id finished (table_view t)
unfolding table_view approved
table_view-approved id by now j t e =
    ap (λ f. record { phases = f; tickets = 0 }) (fun_ext λ k. at_key k)
  where
    at_key :
        (k : String)
        → phase_in (fetch_job k (update_where (has_id id) (approved by now) t))
          ≡ (if str_eq id k then some finished else phase_in (fetch_job k t))
    at_key k = elim (Bool-cases (str_eq id k)) [
      | inl f ↦
          let here : fetch_job k t ≡ some j = rw (← (str_eq_iff id k).0 f) e in
          rw (fetch_job-update_where k id (approved by now) (λ i. refl) t, f, here) refl
      | inr f ↦ rw (fetch_job-update_where k id (approved by now) (λ i. refl) t, f) refl
    ]

-- The flag of a row says whether the row's phase awaits an approval.
refused_phase :
    (id : String) (status : Status) (b : Board)
    → is_awaiting status ≡ false
    → approve_phase id (some (phase_of_status status)) b
      ≡ (raises (value_error "job is not awaiting approval"), b)
unfolding approve_phase
refused_phase id queued b h = refl
refused_phase id running b h = refl
refused_phase id awaiting b h = cc
refused_phase id succeeded b h = refl
refused_phase id failed b h = refl
refused_phase id dead_letter b h = refl
refused_phase id cancelled b h = refl

unknown_phase : (id : String) (b : Board) → approve_phase id none b ≡ (raises (key_error id), b)
unfolding approve_phase
unknown_phase id b = refl

taken_phase :
    (id : String) (status : Status) (b : Board)
    → is_awaiting status ≡ true
    → approve_phase id (some (phase_of_status status)) b ≡ (ok (seen finished), set id finished b)
unfolding approve_phase
taken_phase id queued b h = cc
taken_phase id running b h = cc
taken_phase id awaiting b h = refl
taken_phase id succeeded b h = cc
taken_phase id failed b h = cc
taken_phase id dead_letter b h = cc
taken_phase id cancelled b h = cc

-- What the durable store's approval answers and does.
approve-unknown :
    (id : String) (by : Option String) (now : ℕ) (t : Table)
    → fetch_job id t ≡ none
    → approve id by now t ≡ (raises (key_error id), t)
unfolding approve
approve-unknown id by now t e = rw (e, approve) refl

approve-refused :
    (id : String) (by : Option String) (now : ℕ) (j : Job) (t : Table)
    → fetch_job id t ≡ some j
    → j.awaiting_approval ≡ false
    → approve id by now t ≡ (raises (value_error "job is not awaiting approval"), t)
unfolding approve
approve-refused id by now j t e f = rw (e, approve, f) refl

approved_row :
    (id : String) (by : Option String) (now : ℕ) (j : Job) (t : Table)
    → fetch_job id t ≡ some j
    → fetch_job id (update_where (has_id id) (approved by now) t) ≡ some (approved by now j)
unfolding approved
approved_row id by now j t e =
    rw (fetch_job-update_where id id (approved by now) (λ i. refl) t, eq_refl id, e) refl

approve-taken :
    (id : String) (by : Option String) (now : ℕ) (j : Job) (t : Table)
    → fetch_job id t ≡ some j
    → j.awaiting_approval ≡ true
    → approve id by now t ≡ (ok (approved by now j), update_where (has_id id) (approved by now) t)
unfolding approve snapshot
approve-taken id by now j t e f = rw (e, approve, f, snapshot, approved_row id by now j t e) refl

-- The abstract approval, by the row that the table has under the id.
board_of :
    (id : String) (t : Table) (found : Option Job)
    → fetch_job id t ≡ found
    → (answer : Result Seen × Board) → approve_phase id (phase_in found) (table_view t) ≡ answer
    → approve_phase id ((table_view t).phases id) (table_view t) ≡ answer
unfolding table_view
board_of id t found e answer h = ap (λ o. approve_phase id (phase_in o) (table_view t)) e ∙ h

-- In a table where each approval flag agrees with the row's state, an approval does to the board that
-- the table stands for what the abstract approval does, and answers what it answers.
pub approve-refines :
    (id : String) (by : Option String) (now : ℕ) (t : Table)
    → All IsFlagged t
    → (shown_job (approve id by now t).0
        ≡ (approve_phase id ((table_view t).phases id) (table_view t)).0)
      × (table_view (approve id by now t).1
          ≡ (approve_phase id ((table_view t).phases id) (table_view t)).1)
unfolding approved
approve-refines id by now t flags = elim (Option-cases (fetch_job id t)) [
  | inl e ↦
      let nothing : approve_phase id none (table_view t) ≡ (raises (key_error id), table_view t) =
        unknown_phase id (table_view t) in
      let absent = board_of id t none e (raises (key_error id), table_view t) nothing in
      rw (approve-unknown id by now t e, absent) (refl, refl)
  | inr (j, e) ↦
      let flag = fetch_job-All IsFlagged id j t e flags in
      elim (Bool-cases j.awaiting_approval) [
        | inl f ↦
            let taken =
              board_of id t (some j) e _ (taken_phase id j.status (table_view t) (sym flag ∙ f)) in
            rw (approve-taken id by now j t e f, taken) (refl, table_view-approved id by now j t e)
        | inr f ↦
            let refused =
              board_of id t (some j) e _
                (refused_phase id j.status (table_view t) (sym flag ∙ f)) in
            rw (approve-refused id by now j t e f, refused) (refl, refl)
      ]
]
