-- ===== src/Jobs/Refinement.antt =====
-- The in-memory store implements the board.
use mathlib.Core.Path.{fun_ext}
use skn25_final_4team.Prelude.{
  ℕ, ◌+◌, String, ◌≡◌, refl, sym, ◌∙◌, ap, Bool, true, false, Option, none, some, List, [], ◌∷◌,
  str_eq, str_eq_iff, Bool-cases, if◌then◌else◌, Exc, value_error, Result, ok, raises, inl, inr,
  arith,
}
use skn25_final_4team.Jobs.{
  Status, queued, running, awaiting, succeeded, failed, dead_letter, cancelled,
}
use skn25_final_4team.Jobs.Board.{
  Phase, waiting, in_review, needs_approval, finished, Board, Seen, inline_answer, seen, Op,
  submits, processes, approves, asks, set, after_review, process_phase, approve_phase, ask_phase,
  spec,
}
use skn25_final_4team.Jobs.Memory.{
  started, ReviewRecord, ReviewJobStore, Answer, inline, ticket, quick_answer, job_route, lookup,
  put, submit, settled_record, process, approved_record, approve, snapshot_of, reviewed_store,
  process_found, approve_found, snapshot_found,
}

module _ (id_of : ℕ → String) (review : String → Result Bool) where
  unfoldable pub step : Op → ReviewJobStore → Result Answer × ReviewJobStore
  unfolding submit process approve snapshot_of
  step (submits route outcome) store = submit id_of review route outcome store
  step (processes id) store = process id_of review id store
  step (approves id by) store = approve id_of review id by store
  step (asks id) store = snapshot_of id_of review id store

abbrev phase_by_status : Status → Phase
phase_by_status queued = waiting
phase_by_status running = in_review
phase_by_status _ = finished

abbrev pub phase_of : ReviewRecord → Phase
phase_of r = if r.awaiting_approval then needs_approval else phase_by_status r.status

abbrev phase_in : Option ReviewRecord → Option Phase
phase_in none = none
phase_in (some r) = some (phase_of r)

-- The board that a store stands for, and what an answer shows.
abbrev pub view : ReviewJobStore → Board
unfolding lookup
view store = record { phases = λ k. phase_in (lookup k store.records); tickets = store.seq }

abbrev pub shown : Result Answer → Result Seen
shown (ok inline) = ok inline_answer
shown (ok (ticket r)) = ok (seen (phase_of r))
shown (raises e) = raises e

lookup-put :
    (k id : String) (r : ReviewRecord) (records : List (String × ReviewRecord))
    → lookup k (put id r records) ≡ (if str_eq id k then some r else lookup k records)
unfolding lookup put
lookup-put k id r [] = refl
lookup-put k id r ((key, old) ∷ rest) = elim (Bool-cases (str_eq key id)) [
  | inl e ↦
      let same = (str_eq_iff key id).0 e in
      elim (Bool-cases (str_eq key k)) [
        | inl f ↦ rw (e, ← same, f) refl
        | inr f ↦ rw (e, ← same, f) refl
      ]
  | inr e ↦ elim (Bool-cases (str_eq key k)) [
    | inl f ↦
        let other : str_eq id k ≡ false =
          rw (← (str_eq_iff key k).0 f) (ground (arith, e, str_eq_iff key id, str_eq_iff id key)) in
        rw (e, f, other) refl
    | inr f ↦ rw (e, f) (lookup-put k id r rest)
  ]
]

-- The board after a record is stored under an id.
view-put :
    (id : String) (r : ReviewRecord) (records : List (String × ReviewRecord)) (seq : ℕ)
    → view (record { records = put id r records; seq = seq })
      ≡ set id (phase_of r) (view (record { records = records; seq = seq }))
unfolding view lookup
view-put id r records seq = ap (λ f. record { phases = f; tickets = seq }) (fun_ext λ k. at_key k)
  where
    at_key :
        (k : String)
        → phase_in (lookup k (put id r records))
          ≡ (if str_eq id k then some (phase_of r) else phase_in (lookup k records))
    at_key k = elim (Bool-cases (str_eq id k)) [
      | inl e ↦ rw (lookup-put k id r records, e) refl
      | inr e ↦ rw (lookup-put k id r records, e) refl
    ]

-- A review that raises leaves the job in review, and one that awaits approval as it is.
interrupted :
    (e : Exc) (flag : Bool) (status : Status)
    → (if flag then needs_approval else in_review)
      ≡ after_review (raises e) (if flag then needs_approval else phase_by_status status)
interrupted e true status = refl
interrupted e false queued = refl
interrupted e false running = refl
interrupted e false awaiting = refl
interrupted e false succeeded = refl
interrupted e false failed = refl
interrupted e false dead_letter = refl
interrupted e false cancelled = refl

not_approved :
    (id : String) (status : Status) (b : Board)
    → approve_phase id (some (phase_by_status status)) b
      ≡ (raises (value_error "job is not awaiting approval"), b)
unfolding approve_phase
not_approved id queued b = refl
not_approved id running b = refl
not_approved id awaiting b = refl
not_approved id succeeded b = refl
not_approved id failed b = refl
not_approved id dead_letter b = refl
not_approved id cancelled b = refl

module _ (id_of : ℕ → String) (review : String → Result Bool) where
  -- Results and states agree.
  abbrev pub Agree : Result Answer × ReviewJobStore → Result Seen × Board → Type 0
  unfolding view
  Agree (answer, store) (sight, board) = (shown answer ≡ sight) × (view store ≡ board)

  reviewed-Agree :
      (id : String) (r : ReviewRecord) (outcome : Result Bool) (store : ReviewJobStore)
      → Agree
          (reviewed_store id_of review id r outcome store)
          (process_phase id outcome (some (phase_of r)) (view store))
  unfolding reviewed_store process_phase settled_record Agree
  reviewed-Agree id r (ok true) store = (refl, view-put id _ store.records store.seq)
  reviewed-Agree id r (ok false) store = (refl, view-put id _ store.records store.seq)
  reviewed-Agree id r (raises e) store = (
    refl,
    view-put id (started id_of review r) store.records store.seq
        ∙ ap (λ p. set id p (view store)) (interrupted e r.awaiting_approval r.status),
  )

  process-Agree :
      (id : String) (found : Option ReviewRecord) (store : ReviewJobStore)
      → Agree
          (process_found id_of review id found store)
          (process_phase id (review id) (phase_in found) (view store))
  unfolding process_found process_phase Agree
  process-Agree id none store = (refl, refl)
  process-Agree id (some r) store = reviewed-Agree id r (review id) store

  approve-Agree :
      (id : String) (by : Option String) (found : Option ReviewRecord) (store : ReviewJobStore)
      → Agree
          (approve_found id_of review id by found store)
          (approve_phase id (phase_in found) (view store))
  unfolding approve_found approve_phase Agree
  approve-Agree id by none store = (refl, refl)
  approve-Agree id by (some r) store = elim (Bool-cases r.awaiting_approval) [
    | inl e ↦ rw e (refl, view-put id (approved_record id_of review by r) store.records store.seq)
    | inr e ↦
        let refused = not_approved id r.status (view store) in
        rw e (ap (λ p. p.0) (sym refused), ap (λ p. p.1) (sym refused))
  ]

  ask-Agree :
      (id : String) (found : Option ReviewRecord)
      → shown (snapshot_found id_of review id found) ≡ ask_phase id (phase_in found)
  unfolding snapshot_found ask_phase
  ask-Agree id none = refl
  ask-Agree id (some r) = refl

  -- Every operation of the in-memory store does to the board that the store stands for what the
  -- abstract operation does, and answers what it answers.
  pub step-refines :
      (op : Op) (store : ReviewJobStore)
      → Agree (step id_of review op store) (spec id_of review op (view store))
  unfolding step spec view submit process approve snapshot_of Agree
  step-refines (submits quick_answer (ok needs_human)) store = (refl, refl)
  step-refines (submits quick_answer (raises e)) store = (refl, refl)
  step-refines (submits (job_route route override) outcome) store =
      (refl, view-put (id_of (store.seq + 1)) _ store.records (store.seq + 1))
  step-refines (processes id) store = process-Agree id (lookup id store.records) store
  step-refines (approves id by) store = approve-Agree id by (lookup id store.records) store
  step-refines (asks id) store = (ask-Agree id (lookup id store.records), refl)
