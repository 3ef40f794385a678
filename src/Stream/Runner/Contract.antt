-- ===== src/Stream/Runner/Contract.antt =====
-- What a commit decision of the runner rests on, whatever the adapters do.
use skn25_final_4team.Prelude.{
  String, ◌≡◌, Bool, false, ◌||◌, Option, none, some, arith, Result, ok, raises, Option-cases,
  Bool-cases, inl, inr,
}
use skn25_final_4team.Stream.Event.{PyLib}
use skn25_final_4team.Stream.Decision.{
  KafkaMessage, InsertPayload, DlqPayload, KafkaEnvelope, ConsumerDecision, Context, no_outcome,
  retry, measurement_dlq_topic, parse_kafka_envelope, decide_consumer_action,
}
use skn25_final_4team.Stream.Adapters.{PostgresWriteResult, Ack}
use skn25_final_4team.Stream.Runner.{
  StreamConsumerProcessResult, acknowledged, is_send_to_dlq, dead_letter, write, act,
  process_envelope, process_kafka_message,
}

-- The writer returned, and said that its transaction succeeded.
abbrev pub wrote : Option PostgresWriteResult → Bool
wrote none = false
wrote (some result) = result.succeeded

-- The dead-letter producer returned, and acknowledged.
abbrev pub acked : Option Ack → Bool
acked none = false
acked (some ack) = acknowledged ack

module _ {F W Q : Type 0} (py : PyLib F)
    (insert : W → InsertPayload F → Result PostgresWriteResult × W)
    (produce : Q → String → String → DlqPayload F → Result Ack × Q) where
  -- Whatever the adapters do, when the runner returns, its decision is to commit exactly if the
  -- writer returned a successful result or the dead-letter producer acknowledged.
  pub process-commits :
      (message : KafkaMessage F) (ctx : Context) (w : W) (q : Q) (r : StreamConsumerProcessResult F)
      → (process_kafka_message py insert produce message ctx (w, q)).0 ≡ ok r
      → r.decision.commit_offset ≡ (wrote r.write_result || acked r.dlq_ack)
  unfolding process_kafka_message decide_consumer_action
  process-commits message ctx w q r h = ground arith

  -- Whatever the adapters do, a decision to retry that the runner returns does not commit.
  pub process-retry :
      (message : KafkaMessage F) (ctx : Context) (w : W) (q : Q) (r : StreamConsumerProcessResult F)
      → (process_kafka_message py insert produce message ctx (w, q)).0 ≡ ok r
      → r.decision.action ≡ retry
      → r.decision.commit_offset ≡ false
  unfolding process_kafka_message decide_consumer_action
  process-retry message ctx w q r h e = ground arith

-- The adapters that a run leaves are the old ones, or those after one insert, or those after one
-- publish.
module _ {ℓ} {F W Q : Type 0} (py : PyLib F)
    (insert : W → InsertPayload F → Result PostgresWriteResult × W)
    (produce : Q → String → String → DlqPayload F → Result Ack × Q) (w : W) (q : Q)
    (P : W × Q → Type ℓ) (same : P (w, q)) (inserts : (p : InsertPayload F) → P ((insert w p).1, q))
    (publishes : (topic key : String) (p : DlqPayload F) → P (w, (produce q topic key p).1))
    (ctx : Context) where
  dead_letter_cases :
      (envelope : KafkaEnvelope F) (first : ConsumerDecision F)
      → P (dead_letter py insert produce envelope ctx first (w, q)).1
  dead_letter_cases envelope first = elim (Option-cases first.dlq_payload) [
    | inl e ↦ rw e same
    | inr (p, e) ↦ rw e (publishes measurement_dlq_topic _ p)
  ]

  write_cases :
      (envelope : KafkaEnvelope F) (first : ConsumerDecision F) (payload : Option (InsertPayload F))
      → P (write py insert produce envelope ctx first payload (w, q)).1
  write_cases envelope first none = same
  write_cases envelope first (some p) = inserts p

  act_cases :
      (envelope : KafkaEnvelope F) (first : Result (ConsumerDecision F))
      → P (act py insert produce envelope ctx first (w, q)).1
  act_cases envelope (raises e) = same
  act_cases envelope (ok first) = elim (Bool-cases (is_send_to_dlq first.action)) [
    | inl e ↦ rw e (dead_letter_cases envelope first)
    | inr e ↦ rw e (write_cases envelope first first.postgres_payload)
  ]

  envelope_cases :
      (envelope : Result (KafkaEnvelope F))
      → P (process_envelope py insert produce envelope ctx (w, q)).1
  envelope_cases (raises e) = same
  envelope_cases (ok envelope) =
      act_cases envelope (decide_consumer_action py envelope no_outcome ctx)

  pub process_cases :
      (message : KafkaMessage F) → P (process_kafka_message py insert produce message ctx (w, q)).1
  unfolding process_kafka_message
  process_cases message = envelope_cases (parse_kafka_envelope py message)
