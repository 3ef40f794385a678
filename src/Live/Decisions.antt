-- ===== src/Live/Decisions.antt =====
-- What the trigger may do: its operations, when a policy lets an event through, and its jobs.
use skn25_final_4team.Prelude.{
  ℕ, ◌+◌, ◌*◌, ◌≤◌, ◌<◌, ◌≡◌, refl, ◌∙◌, String, Bool, true, false, not, ◌&&◌, ◌||◌, Option, List,
  [], ◌∷◌, str_eq, length, All, if◌then◌else◌, ok, >>=-eq-ok, ok-carry, Bool-cases, Option-cases,
  lt→ltb, map, inl, inr, arith,
}
use skn25_final_4team.Equalize.{bucket_start, replace}
use skn25_final_4team.Equalize.Grains.{
  floor_to, bucket_start-minute, bucket_start-quarter, bucket_start-hour,
}
use skn25_final_4team.Live.{
  LiveMeasurementEvent, LiveMeasurementPolicy, PolicyKind, mean_observed, state_hold_last, JobKind,
  Resolution, res_1min, res_15min, res_1h, allowed_queue_job_specs, blank, live_measurement_policy,
  qa_live_measurement_issue, live_measurement_1min, live_bucket_queue, floor_to_resolution,
}
use skn25_final_4team.Live.Trigger.{
  PolicyLookup, plain, no_lookup, looked_up, TriggerDecisionResult, BucketQueueKey,
  TriggerOperation, policy_lookup, issue_log, policy_block, measurement_1min_upsert,
  bucket_queue_enqueue, is_empty, trigger_policy_block_reasons, trigger_operation,
  validate_queue_key, queue_jobs_for, derive_trigger_queue_jobs, decide_for_policy,
  resolve_policy_lookup, decide_trigger_actions, assert_trigger_contract, issue, block_reasons_text,
}

-- The minutes of a bucket, and its span in microseconds.
abbrev pub minutes : Resolution → ℕ
minutes res_1min = 1
minutes res_15min = 15
minutes res_1h = 60

abbrev pub span : Resolution → ℕ
span resolution = minutes resolution * 60_000_000

-- The bucket that the contract gives a time at a resolution is the bucket of that many minutes that
-- the equalization processor gives it.
pub floor_to_resolution-bucket_start :
    (ts : ℕ) (resolution : Resolution)
    → floor_to_resolution ts resolution ≡ bucket_start ts (minutes resolution)
unfolding floor_to_resolution bucket_start replace
floor_to_resolution-bucket_start ts res_1min = omega arith
floor_to_resolution-bucket_start ts res_15min = omega arith
floor_to_resolution-bucket_start ts res_1h = omega arith

floor_to_resolution-floor_to :
    (ts : ℕ) (resolution : Resolution)
    → floor_to_resolution ts resolution ≡ floor_to ts (span resolution)
floor_to_resolution-floor_to ts res_1min =
    floor_to_resolution-bucket_start ts res_1min ∙ bucket_start-minute ts
floor_to_resolution-floor_to ts res_15min =
    floor_to_resolution-bucket_start ts res_15min ∙ bucket_start-quarter ts
floor_to_resolution-floor_to ts res_1h =
    floor_to_resolution-bucket_start ts res_1h ∙ bucket_start-hour ts

-- A bucket holds a time.
abbrev pub Holds : ℕ → BucketQueueKey → Type 0
Holds ts key = (key.bucket_ts ≤ ts) × (ts < key.bucket_ts + span key.resolution)

floor_to_resolution-holds :
    (ts : ℕ) (resolution : Resolution)
    → (floor_to_resolution ts resolution ≤ ts)
      × (ts < floor_to_resolution ts resolution + span resolution)
floor_to_resolution-holds ts res_1min = rw floor_to_resolution-floor_to (omega arith, omega arith)
floor_to_resolution-holds ts res_15min = rw floor_to_resolution-floor_to (omega arith, omega arith)
floor_to_resolution-holds ts res_1h = rw floor_to_resolution-floor_to (omega arith, omega arith)

validate_queue_key-eq : (k key : BucketQueueKey) → validate_queue_key k ≡ ok key → key ≡ k
unfolding validate_queue_key
validate_queue_key-eq k key h = ground arith

abbrev key_for :
    {F : Type 0}
    → LiveMeasurementEvent F
    → LiveMeasurementPolicy
    → JobKind
    → Resolution
    → BucketQueueKey
key_for e p kind resolution = record {
  meter_urn = e.meter_urn;
  measurement = e.measurement;
  resolution = resolution;
  bucket_ts = floor_to_resolution e.source_ts resolution;
  job_kind = kind;
  policy_version = p.policy_version;
}

abbrev looked : TriggerOperation
looked = record { kind = policy_lookup; target = live_measurement_policy }

abbrev is_blocked : LiveMeasurementPolicy → Bool
is_blocked p = not p.enabled || not (is_empty (trigger_policy_block_reasons p))

abbrev trusted : PolicyKind → Option String → Bool
trusted mean_observed evidence = true
trusted state_hold_last evidence = not (blank evidence)
trusted _ evidence = false

-- What lets an event through, said of the policy alone.
abbrev pub admits : LiveMeasurementPolicy → Bool
admits p =
    p.enabled
    && not p.heterogeneous_native_cadence
    && trusted p.policy_kind p.state_hold_last_evidence

admits-eq : (p : LiveMeasurementPolicy) → admits p ≡ not (is_blocked p)
unfolding trigger_policy_block_reasons
admits-eq p = ground arith

module _ {F : Type 0} where
  queue_jobs_for-Holds :
      (e : LiveMeasurementEvent F) (p : LiveMeasurementPolicy) (specs : List (JobKind × Resolution))
      (keys : List BucketQueueKey)
      → queue_jobs_for e p specs ≡ ok keys
      → All (Holds e.source_ts) keys × (length keys ≡ length specs)
  unfolding queue_jobs_for
  queue_jobs_for-Holds e p [] keys h = let same : [] ≡ keys = cc in rw (← same) (tt, refl)
  queue_jobs_for-Holds e p ((kind, resolution) ∷ specs) keys h =
      let (key, valid, after) = >>=-eq-ok (validate_queue_key (key_for e p kind resolution)) _ h in
      let (rest, derived, last) = >>=-eq-ok (queue_jobs_for e p specs) _ after in
      let same : key ∷ rest ≡ keys = cc in
      let (held, count) = queue_jobs_for-Holds e p specs rest derived in
      rw (← same, validate_queue_key-eq (key_for e p kind resolution) key valid)
        ((floor_to_resolution-holds e.source_ts resolution, held), omega (arith, count))

  -- A result of the trigger stays within its contract.
  abbrev pub IsWithin : LiveMeasurementEvent F → TriggerDecisionResult → Type 0
  IsWithin e r =
      (assert_trigger_contract r ≡ ok tt)
      × (r.upsert_1min ≡ is_empty r.issues)
      × (length r.queue_jobs ≡ (if r.upsert_1min then 3 else 0))
      × All (Holds e.source_ts) r.queue_jobs

  decide_for_policy-IsWithin :
      (e : LiveMeasurementEvent F) (p : LiveMeasurementPolicy) (r : TriggerDecisionResult)
      → decide_for_policy e p (looked ∷ []) ≡ ok r
      → IsWithin e r
  unfolding decide_for_policy assert_trigger_contract trigger_operation derive_trigger_queue_jobs
  decide_for_policy-IsWithin e p r h = elim (Bool-cases (is_blocked p)) [
    | inl blocked ↦ ok-carry (IsWithin e) (rw blocked at h) (refl, refl, refl, tt)
    | inr through ↦
        let (keys, derived, last) =
          >>=-eq-ok (queue_jobs_for e p allowed_queue_job_specs) _ (rw through at h) in
        let (held, count) = queue_jobs_for-Holds e p allowed_queue_job_specs keys derived in
        ok-carry (IsWithin e) last (refl, refl, count, held)
  ]

  -- Whatever policy lookup the trigger is given, a decision that it returns passes
  -- assert_trigger_contract; it upserts the minute exactly if it logs no issue, and then, and only
  -- then, enqueues three jobs, each for a bucket that holds the event's time.
  pub decide_trigger_actions-IsWithin :
      (e : LiveMeasurementEvent F) (lookup : PolicyLookup) (r : TriggerDecisionResult)
      → decide_trigger_actions e lookup ≡ ok r
      → IsWithin e r
  unfolding decide_trigger_actions assert_trigger_contract trigger_operation resolve_policy_lookup
  decide_trigger_actions-IsWithin e no_lookup r h = ok-carry (IsWithin e) h (refl, refl, refl, tt)
  decide_trigger_actions-IsWithin e (plain p) r h = decide_for_policy-IsWithin e p r h
  decide_trigger_actions-IsWithin e (looked_up l) r h =
      let (resolved, found, after) = >>=-eq-ok (resolve_policy_lookup e (looked_up l)) _ h in
      elim (Option-cases resolved.1) [
        | inr (i, e1) ↦ ok-carry (IsWithin e) (rw e1 at after) (refl, refl, refl, tt)
        | inl e1 ↦ elim (Option-cases resolved.0) [
          | inr (p, e0) ↦ decide_for_policy-IsWithin e p r (rw (e1, e0) at after)
          | inl e0 ↦ let wrong = rw (e1, e0) at after in cc
        ]
      ]

  abbrev blocked_result : LiveMeasurementEvent F → LiveMeasurementPolicy → TriggerDecisionResult
  blocked_result e p = record {
    operations = looked ∷ record { kind = issue_log; target = qa_live_measurement_issue } ∷ [];
    queue_jobs = [];
    issues = issue policy_block e (block_reasons_text p) ∷ [];
    upsert_1min = false;
  }

  abbrev through_result : LiveMeasurementEvent F → LiveMeasurementPolicy → TriggerDecisionResult
  through_result e p = record {
    operations =
        looked
        ∷ record { kind = measurement_1min_upsert; target = live_measurement_1min }
        ∷ record { kind = bucket_queue_enqueue; target = live_bucket_queue }
        ∷ [];
    queue_jobs = map (λ s. key_for e p s.0 s.1) allowed_queue_job_specs;
    issues = [];
    upsert_1min = true;
  }

  -- For an event with names and a policy whose version is positive, the trigger decides, and the
  -- policy lets the event through exactly if it is enabled, has one native cadence and is a mean of
  -- observations or a held state with evidence.
  pub decide_trigger_actions-admits :
      (e : LiveMeasurementEvent F) (p : LiveMeasurementPolicy)
      → str_eq e.meter_urn "" ≡ false
      → str_eq e.measurement "" ≡ false
      → 0 < p.policy_version
      → (r : TriggerDecisionResult) × (decide_trigger_actions e (plain p) ≡ ok r)
        × (r.upsert_1min ≡ admits p)
  unfolding decide_trigger_actions decide_for_policy trigger_operation resolve_policy_lookup
      derive_trigger_queue_jobs queue_jobs_for validate_queue_key
  decide_trigger_actions-admits e p named measured versioned = elim (Bool-cases (is_blocked p)) [
    | inl blocked ↦ (blocked_result e p, rw blocked refl, rw (admits-eq p, blocked) refl)
    | inr through ↦ (
      through_result e p,
      rw (through, named, measured, lt→ltb 0 p.policy_version versioned) refl,
      rw (admits-eq p, through) refl,
    )
  ]
