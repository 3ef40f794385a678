-- ===== src/Stream/Runner.antt =====
-- src/cms/data/stream_consumer_runner.py: one message through the injected adapters.
-- `W` and `Q` are the states of the writer and of the dead-letter producer; a call returns its
-- result or the exception, and the state that it leaves.
pub mod Contract
pub mod Redelivery
pub mod Poison
use skn25_final_4team.Prelude.{
  String, Bool, true, false, Option, none, some, [], exc_text, if◌then◌else◌, Exc, Result, ok,
  raises, ◌>>=◌,
}
use skn25_final_4team.Stream.Event.{PyLib}
use skn25_final_4team.Stream.Decision.{
  KafkaMessage, KafkaEnvelope, InsertPayload, DlqPayload, ConsumerDecision, Outcome, no_outcome,
  Context, ConsumerAction, or_default, send_to_dlq, retry, db_transaction, measurement_dlq_topic,
  parse_kafka_envelope, decide_consumer_action,
}
use skn25_final_4team.Stream.Adapters.{PostgresWriteResult, Ack}

pub record StreamConsumerProcessResult (F : Type 0) : Type 0 where
  pub decision : ConsumerDecision F
  pub write_result : Option PostgresWriteResult
  pub dlq_ack : Option Ack

abbrev pub only : {F : Type 0} → ConsumerDecision F → StreamConsumerProcessResult F
only d = record { decision = d; write_result = none; dlq_ack = none }

abbrev pub is_send_to_dlq : ConsumerAction → Bool
is_send_to_dlq send_to_dlq = true
is_send_to_dlq _ = false

-- bool(dlq_ack.get("acknowledged", False))
abbrev pub acknowledged : Ack → Bool
acknowledged ack = elim ack.acknowledged [ some b ↦ b | none ↦ false ]

-- The acknowledgement and whether it counts as a success; an exception counts as none.
abbrev publish_result : Result Ack → Option Ack × Bool
publish_result (ok ack) = (some ack, acknowledged ack)
publish_result (raises e) = (none, false)

module _ {F W Q : Type 0} (py : PyLib F)
    (insert : W → InsertPayload F → Result PostgresWriteResult × W)
    (produce : Q → String → String → DlqPayload F → Result Ack × Q) where
  abbrev publish : Q → String → Option (DlqPayload F) → (Option Ack × Bool) × Q
  publish q key none = ((none, false), q)
  publish q key (some p) =
      let (ack, q') = produce q measurement_dlq_topic key p in (publish_result ack, q')

  -- After the write: its exception becomes a retry, its result the final decision.
  abbrev after_write :
      KafkaEnvelope F
      → Context
      → ConsumerDecision F
      → Result PostgresWriteResult
      → Result (StreamConsumerProcessResult F)
  after_write envelope ctx first (raises e) = ok (
      only (record {
        action = retry;
        commit_offset = false;
        failure_stage = db_transaction;
        event = first.event;
        postgres_payload = first.postgres_payload;
        dlq_payload = none;
        validation_errors = [];
        idempotency_key = first.idempotency_key;
        reason = some (exc_text e);
      }))
  after_write envelope ctx first (ok result) = do
    final ←
        decide_consumer_action py envelope
          (record no_outcome {
            db_transaction_succeeded = result.succeeded;
            duplicate_event = result.duplicate_event;
          })
          ctx
    ok (record { decision = final; write_result = some result; dlq_ack = none })

  abbrev pub write :
      KafkaEnvelope F
      → Context
      → ConsumerDecision F
      → Option (InsertPayload F)
      → W × Q
      → Result (StreamConsumerProcessResult F) × (W × Q)
  write envelope ctx first none s = (ok (only first), s)
  write envelope ctx first (some payload) (w, q) =
      let (result, w') = insert w payload in (after_write envelope ctx first result, (w', q))

  abbrev pub dead_letter :
      KafkaEnvelope F
      → Context
      → ConsumerDecision F
      → W × Q
      → Result (StreamConsumerProcessResult F) × (W × Q)
  dead_letter envelope ctx first (w, q) =
      let ((ack, succeeded), q') = publish q (or_default envelope.key "") first.dlq_payload in
      (
        (do
          final ←
              decide_consumer_action py envelope
                (record no_outcome { dlq_publish_succeeded = succeeded }) ctx
          ok (record { decision = final; write_result = none; dlq_ack = ack })),
        (w, q'),
      )

  abbrev pub act :
      KafkaEnvelope F
      → Context
      → Result (ConsumerDecision F)
      → W × Q
      → Result (StreamConsumerProcessResult F) × (W × Q)
  act envelope ctx (raises e) s = (raises e, s)
  act envelope ctx (ok first) s =
      if is_send_to_dlq first.action
      then dead_letter envelope ctx first s
      else write envelope ctx first first.postgres_payload s

  abbrev pub process_envelope :
      Result (KafkaEnvelope F) → Context → W × Q → Result (StreamConsumerProcessResult F) × (W × Q)
  process_envelope (raises e) ctx s = (raises e, s)
  process_envelope (ok envelope) ctx s =
      act envelope ctx (decide_consumer_action py envelope no_outcome ctx) s

  unfoldable pub process_kafka_message :
      KafkaMessage F → Context → W × Q → Result (StreamConsumerProcessResult F) × (W × Q)
  process_kafka_message message ctx s = process_envelope (parse_kafka_envelope py message) ctx s
