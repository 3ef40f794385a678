-- ===== src/Stream/Loop.antt =====
-- src/cms/data/runtime_consumer_loop.py and src/cms/data/rebalance_idempotency_gate.py.
-- The consumer is the list of what its polls give, so a run over a list is what the loop has done
-- after that many polls. Closing the writer and the consumer at the end changes nothing here.
pub mod Induction
pub mod Accounting
pub mod Ledger
use skn25_final_4team.Prelude.{
  ℕ, zero, suc, ◌+◌, String, Bool, true, false, ◌&&◌, Option, none, some, List, [], ◌∷◌, ltb, leb,
  ◌==◌, if◌then◌else◌, Exc, value_error, Result, ok, raises, require, ◌>>=◌, ◌>>◌,
}
use skn25_final_4team.Stream.Event.{PyLib}
use skn25_final_4team.Stream.Decision.{
  KafkaMessage, InsertPayload, DlqPayload, ConsumerAction, insert_event, idempotent_noop,
  send_to_dlq, retry, ConsumerDecision, Context,
}
use skn25_final_4team.Stream.Adapters.{PostgresWriteResult, Ack}
use skn25_final_4team.Stream.Runner.{StreamConsumerProcessResult, process_kafka_message}

pub record ConsumerLoopStats : Type 0 where
  pub polled : ℕ
  pub processed : ℕ
  pub committed : ℕ
  pub inserted : ℕ
  pub duplicate : ℕ
  pub dlq : ℕ
  pub retried : ℕ

abbrev pub no_stats : ConsumerLoopStats
no_stats = record {
  polled = 0;
  processed = 0;
  committed = 0;
  inserted = 0;
  duplicate = 0;
  dlq = 0;
  retried = 0;
}

-- One poll: nothing; a message, the time at which it is processed, and what committing its offset
-- would raise; or an exception of the poll.
pub data Poll (F : Type 0) : Type 0 where
  idle : Poll F
  arrives : KafkaMessage F → String → Option Exc → Poll F
  fails : Exc → Poll F

-- How a run stands after its polls: returned, raised, or still in the loop.
pub data Ending : Type 0 where
  finished polling : Ending
  crashed : Exc → Ending

pub record LoopState (F W Q : Type 0) : Type 0 where
  pub stats : ConsumerLoopStats
  pub idle_polls : ℕ
  pub writer : W
  pub producer : Q
  -- the messages whose offsets were committed, newest first
  pub offsets : List (KafkaMessage F)

pub data Next (F W Q : Type 0) : Type 0 where
  continue : LoopState F W Q → Next F W Q
  stop : Ending → LoopState F W Q → Next F W Q

-- max_messages and max_idle_polls
pub record Limits : Type 0 where
  pub max_messages : Option ℕ
  pub max_idle_polls : Option ℕ

abbrev one_if : Bool → ℕ
one_if true = 1
one_if false = 0

-- stats.bump(processed=1, ..., committed=1 if committed)
unfoldable pub count : ConsumerAction → Bool → ConsumerLoopStats → ConsumerLoopStats
count insert_event committed s = record s {
  processed = s.processed + 1;
  inserted = s.inserted + 1;
  committed = s.committed + one_if committed;
}
count idempotent_noop committed s = record s {
  processed = s.processed + 1;
  duplicate = s.duplicate + 1;
  committed = s.committed + one_if committed;
}
count send_to_dlq committed s = record s {
  processed = s.processed + 1;
  dlq = s.dlq + 1;
  committed = s.committed + one_if committed;
}
count retry committed s = record s {
  processed = s.processed + 1;
  retried = s.retried + 1;
  committed = s.committed + one_if committed;
}

abbrev pub at_limit : Option ℕ → ℕ → Bool
at_limit none n = false
at_limit (some limit) n = leb limit n

module _ {F W Q : Type 0} (py : PyLib F)
    (insert : W → InsertPayload F → Result PostgresWriteResult × W)
    (produce : Q → String → String → DlqPayload F → Result Ack × Q) (limits : Limits)
    (kafka_topic_identity : Option String) where
  -- After the decision: commit the offset if the decision says so, then count.
  unfoldable pub settle :
      KafkaMessage F
      → Option Exc
      → Result (StreamConsumerProcessResult F)
      → LoopState F W Q
      → Next F W Q
  unfolding count
  settle message commit (raises e) s = stop (crashed e) s
  settle message commit (ok result) s =
      let d = result.decision in
      if d.commit_offset
      then elim commit [
        | some e ↦ stop (crashed e) s
        | none ↦
            continue
              (record s { stats = count d.action true s.stats; offsets = message ∷ s.offsets })
      ]
      else continue (record s { stats = count d.action false s.stats })

  unfoldable pub poll_step : Poll F → LoopState F W Q → Next F W Q
  unfolding settle
  poll_step idle s =
      let n = s.idle_polls + 1 in
      if at_limit limits.max_idle_polls n
      then stop finished (record s { idle_polls = n })
      else continue (record s { idle_polls = n })
  poll_step (fails e) s = stop (crashed e) s
  poll_step (arrives message now commit) s =
      let (result, (w, q)) =
        process_kafka_message py insert produce message
          (record { now = now; consumed_at = none; kafka_topic_identity = kafka_topic_identity })
          (s.writer, s.producer) in
      settle message commit result (record s {
        idle_polls = 0;
        stats = record s.stats { polled = s.stats.polled + 1 };
        writer = w;
        producer = q;
      })

  unfoldable pub run_polls : List (Poll F) → LoopState F W Q → Ending × LoopState F W Q
  run_polls [] s = (if at_limit limits.max_messages s.stats.processed then finished else polling, s)
  run_polls (p ∷ ps) s =
      if at_limit limits.max_messages s.stats.processed
      then (finished, s)
      else elim (poll_step p s) [ continue s' ↦ run_polls ps s' | stop ending s' ↦ (ending, s') ]

  unfoldable pub run_consumer_loop : List (Poll F) → W → Q → Ending × LoopState F W Q
  unfolding run_polls
  run_consumer_loop polls w q =
      run_polls polls
        (record { stats = no_stats; idle_polls = 0; writer = w; producer = q; offsets = [] })

unfoldable pub validate_rebalance_gate_stats : ConsumerLoopStats → Result (Unit {0})
validate_rebalance_gate_stats stats = do
  require (stats.processed == stats.inserted + stats.duplicate + stats.dlq)
      (value_error "processed must equal inserted + duplicate + dlq")
  require (stats.committed == stats.processed) (value_error "committed must equal processed")
  require (stats.retried == 0)
      (value_error "rebalance idempotency gate expects retry-free processed messages")

unfoldable pub build_rebalance_gate_metrics : ConsumerLoopStats → Result (List (String × ℕ))
unfolding validate_rebalance_gate_stats
build_rebalance_gate_metrics stats = do
  validate_rebalance_gate_stats stats
  ok (
      ("consumer_processed", stats.processed)
      ∷ ("consumer_inserted", stats.inserted)
      ∷ ("consumer_duplicate", stats.duplicate)
      ∷ ("consumer_dlq", stats.dlq)
      ∷ ("consumer_committed", stats.committed)
      ∷ ("consumer_reprocessed", stats.duplicate)
      ∷ [])

abbrev is_insert : ConsumerAction → Bool
is_insert insert_event = true
is_insert _ = false

unfoldable pub should_enqueue_aggregate_bucket : {F : Type 0} → ConsumerDecision F → Bool
should_enqueue_aggregate_bucket decision = is_insert decision.action && decision.commit_offset
