-- ===== src/Stream/Decision.antt =====
-- src/cms/data/stream_consumer.py: the decision for one Kafka message.
-- The time that `datetime.now` reads is an argument. Dictionaries with fixed keys are records.
use skn25_final_4team.Prelude.{
  ℕ, String, Bool, true, false, not, Option, none, some, List, [], ◌∷◌, ◌++◌, map, str_eq,
  str_append, if◌then◌else◌, value_error, Result, ok, raises, ◌>>=◌,
}
use skn25_final_4team.Stream.Event.{
  Value, Payload, PyLib, MeasurementRawEvent, str_or, optional_str,
  measurement_raw_event_from_mapping, idempotency_key, kafka_message_key, validate_raw_event,
  should_send_to_dlq,
}

pub data ConsumerAction : Type 0 where
  insert_event idempotent_noop send_to_dlq retry : ConsumerAction

pub data FailureStage : Type 0 where
  no_failure validation dlq_publish db_transaction unexpected : FailureStage

-- What a message holds under "value".
pub data MessageValue (F : Type 0) : Type 0 where
  object : Payload F → MessageValue F
  not_object : Value F → MessageValue F

-- A Kafka-like message; a missing partition or offset is none.
pub record KafkaMessage (F : Type 0) : Type 0 where
  pub topic : Value F
  pub partition : Option (Value F)
  pub offset : Option (Value F)
  pub key : Value F
  pub value : MessageValue F
  pub timestamp : Value F
  pub headers : List (Value F × Value F)

pub record KafkaEnvelope (F : Type 0) : Type 0 where
  pub topic : String
  pub partition : ℕ
  pub offset : ℕ
  pub key : Option String
  pub value : Payload F
  pub timestamp : Option String
  pub headers : List (String × String)
  pub parse_errors : List String

pub record InsertPayload (F : Type 0) : Type 0 where
  pub target_table : String
  pub event_id : String
  pub source_event_id : Option String
  pub meter_urn : String
  pub measurement : String
  pub event_ts : String
  pub value_text : Option String
  pub value_numeric : Option F
  pub unit : Option String
  pub source_layer : String
  pub source_ref : String
  pub ingested_at : String
  pub received_at : String
  pub raw_payload_hash : String
  pub policy_lookup_status : String
  pub kafka_topic : String
  pub kafka_partition : ℕ
  pub kafka_offset : ℕ
  pub kafka_key : String
  pub consumer_group : String
  pub consumed_at : String
  pub schema_version : String
  pub business_idempotency_key : String

pub record DlqPayload (F : Type 0) : Type 0 where
  pub topic : String
  pub source_topic : String
  pub source_partition : ℕ
  pub source_offset : ℕ
  pub source_key : Option String
  pub validation_errors : List String
  pub raw_value : Payload F
  pub event : Option (MeasurementRawEvent F)

pub record ConsumerDecision (F : Type 0) : Type 0 where
  pub action : ConsumerAction
  pub commit_offset : Bool
  pub failure_stage : FailureStage
  pub event : Option (MeasurementRawEvent F)
  pub postgres_payload : Option (InsertPayload F)
  pub dlq_payload : Option (DlqPayload F)
  pub validation_errors : List String
  pub idempotency_key : List String
  pub reason : Option String

-- The keyword arguments of `decide_consumer_action` that report what happened.
pub record Outcome : Type 0 where
  pub db_transaction_succeeded : Bool
  pub dlq_publish_succeeded : Bool
  pub duplicate_event : Bool
  pub unexpected_error : Option String

abbrev pub no_outcome : Outcome
no_outcome = record {
  db_transaction_succeeded = false;
  dlq_publish_succeeded = false;
  duplicate_event = false;
  unexpected_error = none;
}

-- The time, and the two optional arguments that only reach the payload.
pub record Context : Type 0 where
  pub now : String
  pub consumed_at : Option String
  pub kafka_topic_identity : Option String

abbrev pub measurement_dlq_topic : String
measurement_dlq_topic = "measurement_dead_letter_v1"

abbrev pub measurement_event_write_target_table : String
measurement_event_write_target_table = "live.measurement_event"

-- text or default
abbrev pub or_default : Option String → String → String
or_default none default = default
or_default (some s) default = if str_eq s "" then default else s

-- "|".join(parts)
unfoldable pub join_bar : List String → String
join_bar [] = ""
join_bar (p ∷ []) = p
join_bar (p ∷ q ∷ ps) = str_append p (str_append "|" (join_bar (q ∷ ps)))

unfoldable pub decide_offset_commit : Bool → Bool → Bool → Bool
decide_offset_commit db_transaction_succeeded dlq_publish_succeeded validation_failed =
    if validation_failed then dlq_publish_succeeded else db_transaction_succeeded

module _ {F : Type 0} (py : PyLib F) where
  -- int(message.get(name, 0))
  unfoldable pub int_or_zero : Option (Value F) → Result ℕ
  int_or_zero none = ok 0
  int_or_zero (some v) = elim (py.int v) [
    | some n ↦ ok n
    | none ↦ raises (value_error "invalid literal for int()")
  ]

  abbrev value_of : MessageValue F → Payload F
  value_of (object p) = p
  value_of (not_object v) = ("_invalid_kafka_value", v) ∷ []

  abbrev errors_of : MessageValue F → List String
  errors_of (object p) = []
  errors_of (not_object v) = "kafka_value_not_object" ∷ []

  unfoldable pub parse_kafka_envelope : KafkaMessage F → Result (KafkaEnvelope F)
  unfolding int_or_zero str_or optional_str
  parse_kafka_envelope message = do
    partition ← int_or_zero message.partition
    offset ← int_or_zero message.offset
    ok (record {
      topic = str_or py message.topic "measurement_raw_v1";
      partition = partition;
      offset = offset;
      key = optional_str py message.key;
      value = value_of message.value;
      timestamp = optional_str py message.timestamp;
      headers = map (λ h. (py.str h.0, py.str h.1)) message.headers;
      parse_errors = errors_of message.value;
    })

  unfoldable pub build_postgres_insert_payload :
      MeasurementRawEvent F → KafkaEnvelope F → Context → InsertPayload F
  build_postgres_insert_payload event envelope ctx =
      let consumed = or_default ctx.consumed_at ctx.now in
      let business_key = join_bar (idempotency_key py event) in
      let db_kafka_topic = or_default ctx.kafka_topic_identity envelope.topic in
      record {
        target_table = measurement_event_write_target_table;
        event_id = business_key;
        source_event_id = event.source_event_id;
        meter_urn = event.meter_urn;
        measurement = event.measurement;
        event_ts = event.event_ts;
        value_text = event.value_text;
        value_numeric = event.value_numeric;
        unit = event.unit;
        source_layer = "kafka.measurement_raw_v1";
        source_ref = str_append db_kafka_topic (
            str_append ":" (
              str_append (py.show_int envelope.partition)
                (str_append ":" (py.show_int envelope.offset))));
        ingested_at = consumed;
        received_at = event.received_at;
        raw_payload_hash = event.raw_payload_hash;
        policy_lookup_status = "pending";
        kafka_topic = db_kafka_topic;
        kafka_partition = envelope.partition;
        kafka_offset = envelope.offset;
        kafka_key = or_default envelope.key (kafka_message_key py event);
        consumer_group = "postgres-live-ingest";
        consumed_at = consumed;
        schema_version = event.schema_version;
        business_idempotency_key = business_key;
      }

  unfoldable pub build_dlq_payload :
      Option (MeasurementRawEvent F) → KafkaEnvelope F → List String → DlqPayload F
  build_dlq_payload event envelope validation_errors = record {
    topic = measurement_dlq_topic;
    source_topic = envelope.topic;
    source_partition = envelope.partition;
    source_offset = envelope.offset;
    source_key = envelope.key;
    validation_errors = validation_errors;
    raw_value = envelope.value;
    event = event;
  }

  -- The decision once the event is read and the errors are known.
  unfoldable pub decide_for_event :
      KafkaEnvelope F → Outcome → Context → MeasurementRawEvent F → List String → ConsumerDecision F
  unfolding decide_offset_commit should_send_to_dlq build_dlq_payload build_postgres_insert_payload
  decide_for_event envelope o ctx event errors =
      if should_send_to_dlq errors
      then record {
        action = send_to_dlq;
        commit_offset = decide_offset_commit false o.dlq_publish_succeeded true;
        failure_stage = if o.dlq_publish_succeeded then validation else dlq_publish;
        event = some event;
        postgres_payload = none;
        dlq_payload = some (build_dlq_payload (some event) envelope errors);
        validation_errors = errors;
        idempotency_key = idempotency_key py event;
        reason = none;
      }
      else if o.duplicate_event
      then record {
        action = idempotent_noop;
        commit_offset = o.db_transaction_succeeded;
        failure_stage = if o.db_transaction_succeeded then no_failure else db_transaction;
        event = some event;
        postgres_payload = some (build_postgres_insert_payload event envelope ctx);
        dlq_payload = none;
        validation_errors = [];
        idempotency_key = idempotency_key py event;
        reason = some "duplicate business idempotency key";
      }
      else record {
        action = if o.db_transaction_succeeded then insert_event else retry;
        commit_offset = o.db_transaction_succeeded;
        failure_stage = if o.db_transaction_succeeded then no_failure else db_transaction;
        event = some event;
        postgres_payload = some (build_postgres_insert_payload event envelope ctx);
        dlq_payload = none;
        validation_errors = [];
        idempotency_key = idempotency_key py event;
        reason = none;
      }

  abbrev given : Option String → Bool
  given none = false
  given (some s) = not (str_eq s "")

  unfoldable pub decide_consumer_action :
      KafkaEnvelope F → Outcome → Context → Result (ConsumerDecision F)
  unfolding decide_for_event
  decide_consumer_action envelope o ctx =
      if given o.unexpected_error
      then ok (record {
        action = retry;
        commit_offset = false;
        failure_stage = unexpected;
        event = none;
        postgres_payload = none;
        dlq_payload = none;
        validation_errors = [];
        idempotency_key = [];
        reason = o.unexpected_error;
      })
      else do
        event ← measurement_raw_event_from_mapping py envelope.value
        ok (
            decide_for_event envelope o ctx event
              (envelope.parse_errors ++ validate_raw_event py event))
