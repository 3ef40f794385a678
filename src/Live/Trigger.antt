-- ===== src/Live/Trigger.antt =====
-- src/cms/contracts/live_pipeline.py: what the trigger decides for an inserted live event.
-- A field of the policy that an issue's text would print is printed by nobody here: the reasons of
-- an issue are kept as the list that the source joins with commas.
use skn25_final_4team.Prelude.{
  ℕ, String, Bool, true, false, not, ◌||◌, Option, none, some, List, [], ◌∷◌, ◌++◌, ltb, str_eq,
  any, keep, if◌then◌else◌, value_error, Result, ok, raises, require, ◌>>=◌, ◌>>◌,
}
use skn25_final_4team.Live.{
  LiveMeasurementEvent, LiveMeasurementPolicy, state_hold_last, cumulative, unknown, circular,
  JobKind, Resolution, same_spec, allowed_queue_job_specs, blank, among, canonical_tables,
  mart_peak_tables, live_measurement_policy, live_measurement_1min, live_measurement_15min,
  live_measurement_1h, live_bucket_queue, qa_live_measurement_issue, floor_to_resolution,
}

abbrev pub allowed_trigger_targets : List String
allowed_trigger_targets =
    live_measurement_policy ∷ live_measurement_1min ∷ live_bucket_queue ∷ qa_live_measurement_issue
    ∷ []

abbrev pub forbidden_trigger_targets : List String
forbidden_trigger_targets =
    canonical_tables ++ mart_peak_tables ++ live_measurement_15min ∷ live_measurement_1h ∷ []

pub data PolicyLookupStatus : Type 0 where
  found missing ambiguous : PolicyLookupStatus

pub record PolicyLookupResult : Type 0 where
  pub status : PolicyLookupStatus
  pub policy : Option LiveMeasurementPolicy
  pub matched_policy_versions : List ℕ
  pub reason : Option String

abbrev has_policy : Option LiveMeasurementPolicy → Bool
has_policy none = false
has_policy (some p) = true

-- __post_init__
unfoldable pub lookup_result : PolicyLookupResult → Result PolicyLookupResult
lookup_result r = elim r.status [
  | found ↦ do
    require (has_policy r.policy) (value_error "found policy lookup requires a policy")
    ok r
  | missing ↦ do
    require (not (has_policy r.policy))
        (value_error "missing policy lookup must not include a policy")
    ok r
  | ambiguous ↦ do
    require (not (has_policy r.policy))
        (value_error "ambiguous policy lookup must not include a policy")
    ok r
]

-- The argument policy_lookup: None, a policy or a result.
pub data PolicyLookup : Type 0 where
  no_lookup : PolicyLookup
  plain : LiveMeasurementPolicy → PolicyLookup
  looked_up : PolicyLookupResult → PolicyLookup

pub data IssueKind : Type 0 where
  policy_ambiguous policy_miss policy_block : IssueKind

pub record IssueRecord : Type 0 where
  pub issue_kind : IssueKind
  pub meter_urn : String
  pub measurement : String
  pub event_id : String
  pub reasons : List String

pub data TriggerOperationKind : Type 0 where
  policy_lookup measurement_1min_upsert bucket_queue_enqueue issue_log : TriggerOperationKind

pub record TriggerOperation : Type 0 where
  pub kind : TriggerOperationKind
  pub target : String

-- TriggerOperation(kind, target) with its __post_init__
unfoldable pub trigger_operation : TriggerOperationKind → String → Result TriggerOperation
trigger_operation kind target = do
  require (among target allowed_trigger_targets)
      (value_error "trigger operation target is forbidden")
  ok (record { kind = kind; target = target })

pub record BucketQueueKey : Type 0 where
  pub meter_urn : String
  pub measurement : String
  pub resolution : Resolution
  pub bucket_ts : ℕ
  pub job_kind : JobKind
  pub policy_version : ℕ

unfoldable pub validate_queue_key : BucketQueueKey → Result BucketQueueKey
validate_queue_key key = do
  require (not (str_eq key.meter_urn "")) (value_error "meter_urn is required")
  require (not (str_eq key.measurement "")) (value_error "measurement is required")
  require (ltb 0 key.policy_version) (value_error "policy_version must be positive")
  require (any (same_spec (key.job_kind, key.resolution)) allowed_queue_job_specs)
      (value_error "unsupported bucket queue job")
  ok key

pub record TriggerDecisionResult : Type 0 where
  pub operations : List TriggerOperation
  -- a job is its key: its status is always "pending"
  pub queue_jobs : List BucketQueueKey
  pub issues : List IssueRecord
  pub upsert_1min : Bool

unfoldable pub trigger_policy_block_reasons : LiveMeasurementPolicy → List String
trigger_policy_block_reasons p =
    (if p.heterogeneous_native_cadence then "heterogeneous_native_cadence" ∷ [] else [])
    ++ elim p.policy_kind [
      | state_hold_last ↦
          if blank p.state_hold_last_evidence then "state_hold_last_without_evidence" ∷ [] else []
      | cumulative ↦ "cumulative_policy_blocked" ∷ []
      | unknown ↦ "unknown_policy_blocked" ∷ []
      | circular ↦ "circular_policy_blocked" ∷ []
      | _ ↦ []
    ]

-- lookup.reason or default; the versions that the default for an ambiguous lookup prints are left out
abbrev reason_or : Option String → String → List String
reason_or none default = default ∷ []
reason_or (some s) default = if str_eq s "" then default ∷ [] else s ∷ []

abbrev pub is_empty {ℓ} : {A : Type ℓ} → List A → Bool
is_empty [] = true
is_empty (a ∷ rest) = false

abbrev ambiguous_text : String
ambiguous_text = "ambiguous effective live.measurement_policy versions"

abbrev missing_text : String
missing_text = "missing live.measurement_policy"

-- The reason of a policy_block issue.
unfoldable pub block_reasons_text : LiveMeasurementPolicy → List String
unfolding trigger_policy_block_reasons
block_reasons_text p = if p.enabled then trigger_policy_block_reasons p else "policy_disabled" ∷ []

module _ {F : Type 0} where
  unfoldable pub issue : IssueKind → LiveMeasurementEvent F → List String → IssueRecord
  issue kind event reasons = record {
    issue_kind = kind;
    meter_urn = event.meter_urn;
    measurement = event.measurement;
    event_id = event.event_id;
    reasons = reasons;
  }

  unfoldable pub policy_lookup_issue :
      LiveMeasurementEvent F → Option PolicyLookupResult → IssueRecord
  unfolding issue
  policy_lookup_issue event none = issue policy_miss event (missing_text ∷ [])
  policy_lookup_issue event (some r) = elim r.status [
    | ambiguous ↦ issue policy_ambiguous event (reason_or r.reason ambiguous_text)
    | _ ↦ issue policy_miss event (reason_or r.reason missing_text)
  ]

  unfoldable pub resolve_policy_lookup :
      LiveMeasurementEvent F
      → PolicyLookup
      → Result (Option LiveMeasurementPolicy × Option IssueRecord)
  unfolding policy_lookup_issue
  resolve_policy_lookup event no_lookup = ok (none, some (policy_lookup_issue event none))
  resolve_policy_lookup event (plain p) = ok (some p, none)
  resolve_policy_lookup event (looked_up r) = elim r.status [
    | found ↦ elim r.policy [
      | none ↦ raises (value_error "found policy lookup requires a policy")
      | some p ↦ ok (some p, none)
    ]
    | _ ↦ ok (none, some (policy_lookup_issue event (some r)))
  ]

  -- The jobs of a list of specs, in order; the first key that is invalid raises.
  unfoldable pub queue_jobs_for :
      LiveMeasurementEvent F
      → LiveMeasurementPolicy
      → List (JobKind × Resolution)
      → Result (List BucketQueueKey)
  unfolding validate_queue_key floor_to_resolution
  queue_jobs_for event policy [] = ok []
  queue_jobs_for event policy ((job_kind, resolution) ∷ specs) = do
    key ← validate_queue_key (record {
      meter_urn = event.meter_urn;
      measurement = event.measurement;
      resolution = resolution;
      bucket_ts = floor_to_resolution event.source_ts resolution;
      job_kind = job_kind;
      policy_version = policy.policy_version;
    })
    keys ← queue_jobs_for event policy specs
    ok (key ∷ keys)

  unfoldable pub derive_trigger_queue_jobs :
      LiveMeasurementEvent F → LiveMeasurementPolicy → Result (List BucketQueueKey)
  unfolding queue_jobs_for
  derive_trigger_queue_jobs event policy = queue_jobs_for event policy allowed_queue_job_specs

  unfoldable pub decide_for_policy :
      LiveMeasurementEvent F
      → LiveMeasurementPolicy
      → List TriggerOperation
      → Result TriggerDecisionResult
  unfolding trigger_operation issue derive_trigger_queue_jobs trigger_policy_block_reasons
      block_reasons_text
  decide_for_policy event p operations =
      if not p.enabled || not (is_empty (trigger_policy_block_reasons p))
      then (do
        log ← trigger_operation issue_log qa_live_measurement_issue
        ok (record {
          operations = operations ++ log ∷ [];
          queue_jobs = [];
          issues = issue policy_block event (block_reasons_text p) ∷ [];
          upsert_1min = false;
        }))
      else do
        jobs ← derive_trigger_queue_jobs event p
        upsert ← trigger_operation measurement_1min_upsert live_measurement_1min
        enqueue ← trigger_operation bucket_queue_enqueue live_bucket_queue
        ok (record {
          operations = operations ++ upsert ∷ enqueue ∷ [];
          queue_jobs = jobs;
          issues = [];
          upsert_1min = true;
        })

  unfoldable pub decide_trigger_actions :
      LiveMeasurementEvent F → PolicyLookup → Result TriggerDecisionResult
  unfolding trigger_operation resolve_policy_lookup decide_for_policy
  decide_trigger_actions event lookup = do
    first ← trigger_operation policy_lookup live_measurement_policy
    resolved ← resolve_policy_lookup event lookup
    elim resolved.1 [
      | some found_issue ↦ do
        log ← trigger_operation issue_log qa_live_measurement_issue
        ok (record {
          operations = first ∷ log ∷ [];
          queue_jobs = [];
          issues = found_issue ∷ [];
          upsert_1min = false;
        })
      | none ↦ elim resolved.0 [
        | some p ↦ decide_for_policy event p (first ∷ [])
        | none ↦ raises (value_error "policy lookup resolved without policy or issue")
      ]
    ]

unfoldable pub assert_trigger_contract : TriggerDecisionResult → Result (Unit {0})
assert_trigger_contract result =
    require
      (is_empty
        (keep (λ operation. among operation.target forbidden_trigger_targets) result.operations))
      (value_error "trigger produced forbidden targets")
