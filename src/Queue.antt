-- ===== src/Queue.antt =====
-- src/cms/data/live_bucket_queue_runner.py: the worker of live.bucket_queue.
-- The SQL statement of a command is a function of the tables that it reads; the rows that FOR UPDATE
-- SKIP LOCKED passes over are the parameter `busy` of queue ids. Queue/Command has the checks that a
-- command is built with, Queue/Stats the sums of a bucket, Queue/Outputs the tables that a pass
-- writes; the statistics of the values (mean, deviation, percentiles, refs) and the JSON are left out.
pub mod Command
pub mod Stats
pub mod Outputs
pub mod Drain
pub mod Claims
pub mod Sums
pub mod Requests
mod Tests
use skn25_final_4team.Prelude.{
  ℕ, zero, suc, ◌+◌, ◌*◌, ◌<◌, ◌≤◌, String, Bool, true, false, not, ◌&&◌, ◌||◌, Option, none, some,
  List, [], ◌∷◌, map, ltb, leb, ◌==◌, any, keep, length, if◌then◌else◌,
}
use skn25_final_4team.Equalize.{sorted, hour_micros, minute_micros}
use skn25_final_4team.Live.{JobKind, Resolution, res_1min, res_15min, res_1h, same_spec}

pub data QueueStatus : Type 0 where
  pending running done failed blocked : QueueStatus

abbrev pub is_pending : QueueStatus → Bool
is_pending pending = true
is_pending _ = false

-- A row of live.bucket_queue.
pub record QueueRow : Type 0 where
  pub queue_id : ℕ
  pub meter_urn : String
  pub measurement : String
  pub resolution : Resolution
  pub bucket_ts : ℕ
  pub job_kind : JobKind
  pub policy_version : ℕ
  pub status : QueueStatus
  pub locked_by : Option String
  pub last_error : Option String

-- The parameters of a command that the claim reads.
pub record Claim : Type 0 where
  pub job_specs : List (JobKind × Resolution)
  pub max_bucket_ts : Option ℕ
  pub batch_size : ℕ

abbrev pub bucket_end : Resolution → ℕ → ℕ
bucket_end res_15min ts = ts + 15 * minute_micros
bucket_end res_1h ts = ts + hour_micros
bucket_end res_1min ts = ts

abbrev ended_by : Resolution → ℕ → ℕ → Bool
ended_by res_1min ts max_ts = false
ended_by res_15min ts max_ts = leb (bucket_end res_15min ts) max_ts
ended_by res_1h ts max_ts = leb (bucket_end res_1h ts) max_ts

-- max_bucket_ts IS NULL, or the bucket has ended by it
abbrev closed : Option ℕ → QueueRow → Bool
closed none q = true
closed (some max_ts) q = ended_by q.resolution q.bucket_ts max_ts

-- ORDER BY q.bucket_ts, q.queue_id
abbrev row_before : QueueRow → QueueRow → Bool
row_before a b =
    ltb a.bucket_ts b.bucket_ts || a.bucket_ts == b.bucket_ts && ltb a.queue_id b.queue_id

-- LIMIT n
unfoldable pub take {ℓ} : {A : Type ℓ} → ℕ → List A → List A
take zero xs = []
take (suc n) [] = []
take (suc n) (x ∷ xs) = x ∷ take n xs

module _ (busy : ℕ → Bool) where
  -- The WHERE clause of the claimable rows, with the rows that are locked passed over.
  abbrev pub claimable : Claim → QueueRow → Bool
  claimable c q =
      is_pending q.status
      && (any (same_spec (q.job_kind, q.resolution)) c.job_specs
          && (closed c.max_bucket_ts q && not (busy q.queue_id)))

  unfoldable pub claimable_ids : Claim → List QueueRow → List ℕ
  unfolding take sorted
  claimable_ids c queue =
      map (λ q. q.queue_id) (take c.batch_size (sorted row_before (keep (claimable c) queue)))

  -- JOIN claimable ON q.queue_id = c.queue_id
  unfoldable pub locked : Claim → List QueueRow → List QueueRow
  unfolding claimable_ids
  locked c queue = keep (λ q. any (λ id. q.queue_id == id) (claimable_ids c queue)) queue

abbrev pub finished : QueueRow → QueueRow
finished q = record q { status = done; locked_by = none; last_error = none }

-- UPDATE live.bucket_queue FROM locked WHERE q.queue_id = l.queue_id
unfoldable pub complete : List ℕ → List QueueRow → List QueueRow
complete ids [] = []
complete ids (q ∷ rest) =
    (if any (λ id. q.queue_id == id) ids then finished q else q) ∷ complete ids rest

-- The queue after one pass of the statement; a row is complete if its id was claimed.
unfoldable pub pass : (ℕ → Bool) → Claim → List QueueRow → List QueueRow
unfolding complete claimable_ids
pass busy c queue = complete (claimable_ids busy c queue) queue
