-- ===== src/Stream/Tests.antt =====
-- Runs of the stream consumer on one message, over the in-memory adapters.
use skn25_final_4team.Prelude.{
  not, ltb, leb, ◌^◌, if◌then◌else◌, arith, ℕ, str_append, ◌≡◌, refl, ◌↔◌, String, str_eq, Bool,
  true, false, ◌||◌, Option, none, some, List, [], ◌∷◌, ◌++◌, ◌==◌, length, Result, ok, is_ok,
  get_ok, get_ok-eq,
}
use skn25_final_4team.Stream.Event.{
  Value, null, number, text, converts, refuses, overflows, Conversion, Payload, PyLib,
  MeasurementRawEvent, get, truthy, measurement_raw_event_from_mapping, validate_raw_event,
  should_send_to_dlq, idempotency_key,
}
use skn25_final_4team.Stream.Wire.{raw_event_to_kafka_value, from_mapping-to_kafka_value}
use skn25_final_4team.Stream.Decision.{
  MessageValue, object, not_object, KafkaMessage, KafkaEnvelope, Context, parse_kafka_envelope,
  decide_consumer_action, retry, idempotent_noop, join_bar,
}
use skn25_final_4team.Stream.Adapters.{
  InMemoryPostgresEventWriter, InMemoryKafkaProducer, insert_measurement_event, produce,
}
use skn25_final_4team.Stream.Runner.{StreamConsumerProcessResult, process_kafka_message}
use skn25_final_4team.Stream.Runner.Contract.{wrote, acked, process-commits}
use skn25_final_4team.Stream.Runner.Redelivery.{Adapters, process, recorded, redelivery}
use skn25_final_4team.Stream.Runner.Poison.{poison_raises, ledger_keys_collide}
use skn25_final_4team.Stream.Loop.{
  Poll, idle, arrives, Limits, LoopState, poll_step, run_consumer_loop,
  validate_rebalance_gate_stats,
}
use skn25_final_4team.Stream.Loop.Accounting.{Accounts, run_consumer_loop-Accounts, gate-after_loop}
use skn25_final_4team.Stream.Loop.Ledger.{IsSound, run_consumer_loop-IsSound}

abbrev str_of : Value ℕ → String
str_of (text s) = s
str_of _ = "?"

abbrev number_of : Value ℕ → Option ℕ
number_of (number n) = some n
number_of _ = none

-- A small stand-in for the Python library: JSON numbers are naturals.
abbrev py : PyLib ℕ
py = record {
  is_zero = λ n. n == 0;
  str = str_of;
  int = number_of;
  float = λ v. elim (number_of v) [ some n ↦ converts n | none ↦ refuses ];
  show_int = λ n. "0";
  digest = λ p. "0123456789abcdef";
  encoded_size = λ p. 100;
  is_blank = λ s. str_eq s "";
  parses_iso = λ s. true;
  lower_parts = λ s. [];
  contains = λ a b. false;
}

abbrev reading : Payload ℕ
reading =
    ("source_system", text "ems")
    ∷ ("source_event_id", text "e1")
    ∷ ("meter_urn", text "m")
    ∷ ("measurement", text "P")
    ∷ ("event_ts", text "2026-01-01T00:00:00Z")
    ∷ ("received_at", text "2026-01-01T00:00:01Z")
    ∷ ("value_numeric", number 5)
    ∷ []

abbrev with_value : MessageValue ℕ → KafkaMessage ℕ
with_value v = record {
  topic = text "measurement_raw_v1";
  partition = none;
  offset = some (number 7);
  key = null;
  value = v;
  timestamp = null;
  headers = [];
}

abbrev message : KafkaMessage ℕ
message = with_value (object reading)

abbrev ctx : Context
ctx = record { now = "now"; consumed_at = none; kafka_topic_identity = none }

abbrev writer : Bool → InMemoryPostgresEventWriter ℕ
writer fail = record { fail = fail; rows = [] }

abbrev producer : InMemoryKafkaProducer ℕ
producer = record { available = true; partition = 0; published_records = [] }

abbrev run : Bool → Result (StreamConsumerProcessResult ℕ)
run fail =
    (process_kafka_message py insert_measurement_event produce message ctx
      (writer fail, producer)).0

run-ok : (fail : Bool) → is_ok (run fail) ≡ true
unfolding process_kafka_message parse_kafka_envelope decide_consumer_action insert_measurement_event
    produce measurement_raw_event_from_mapping get validate_raw_event join_bar idempotency_key
run-ok true = refl
run-ok false = refl

process-commits_example : (get_ok (run false) (run-ok false)).decision.commit_offset ≡ (
    wrote (get_ok (run false) (run-ok false)).write_result
    || acked (get_ok (run false) (run-ok false)).dlq_ack)
process-commits_example =
    process-commits py insert_measurement_event produce message ctx (writer false) producer
      (get_ok (run false) (run-ok false)) (get_ok-eq (run false) (run-ok false))

run-retries : (get_ok (run true) (run-ok true)).decision.action ≡ retry
unfolding process_kafka_message parse_kafka_envelope decide_consumer_action insert_measurement_event
    produce measurement_raw_event_from_mapping get validate_raw_event join_bar idempotency_key
run-retries = refl

-- The adapters after the message has been processed once.
abbrev stored : Adapters py
stored = (process py message ctx (writer false, producer)).1

envelope-ok : is_ok (parse_kafka_envelope py message) ≡ true
unfolding parse_kafka_envelope
envelope-ok = refl

abbrev envelope : KafkaEnvelope ℕ
envelope = get_ok (parse_kafka_envelope py message) envelope-ok

event-ok : is_ok (measurement_raw_event_from_mapping py envelope.value) ≡ true
unfolding process_kafka_message parse_kafka_envelope decide_consumer_action insert_measurement_event
    produce measurement_raw_event_from_mapping get validate_raw_event join_bar idempotency_key
event-ok = refl

abbrev event : MeasurementRawEvent ℕ
event = get_ok (measurement_raw_event_from_mapping py envelope.value) event-ok

event-valid : should_send_to_dlq (envelope.parse_errors ++ validate_raw_event py event) ≡ false
unfolding process_kafka_message parse_kafka_envelope decide_consumer_action insert_measurement_event
    produce measurement_raw_event_from_mapping get validate_raw_event join_bar idempotency_key
    should_send_to_dlq
event-valid = refl

stored-recorded : recorded py message stored ≡ true
unfolding process_kafka_message parse_kafka_envelope decide_consumer_action insert_measurement_event
    produce measurement_raw_event_from_mapping get validate_raw_event join_bar idempotency_key
stored-recorded = refl

stored-works : stored.0.fail ≡ false
unfolding process_kafka_message parse_kafka_envelope decide_consumer_action insert_measurement_event
    produce measurement_raw_event_from_mapping get validate_raw_event join_bar idempotency_key
stored-works = refl

redelivery_example :
    (r : StreamConsumerProcessResult ℕ) × (process py message ctx stored ≡ (ok r, stored))
    × (r.decision.action ≡ idempotent_noop)
    × (r.decision.commit_offset ≡ true)
redelivery_example =
    redelivery py message ctx stored envelope event
      (get_ok-eq (parse_kafka_envelope py message) envelope-ok)
      (get_ok-eq (measurement_raw_event_from_mapping py envelope.value) event-ok) event-valid
      stored-recorded stored-works

abbrev limits : Limits
limits = record { max_messages = some 10; max_idle_polls = some 2 }

-- A message, an empty poll, the message again, an invalid message, and a poll that raises nothing.
abbrev polls : List (Poll ℕ)
polls =
    arrives message "t0" none
    ∷ idle
    ∷ arrives message "t1" none
    ∷ arrives (with_value (not_object null)) "t2" none
    ∷ idle
    ∷ idle
    ∷ []

abbrev last_state : LoopState ℕ (InMemoryPostgresEventWriter ℕ) (InMemoryKafkaProducer ℕ)
last_state =
    (run_consumer_loop py insert_measurement_event produce limits none polls (writer false)
      producer).1

run_consumer_loop-Accounts_example : Accounts last_state
run_consumer_loop-Accounts_example =
    run_consumer_loop-Accounts py insert_measurement_event produce limits none polls (writer false)
      producer

gate-after_loop_example :
    (validate_rebalance_gate_stats last_state.stats ≡ ok tt)
    ↔ ((last_state.stats.retried ≡ 0) × (length last_state.offsets ≡ last_state.stats.processed))
gate-after_loop_example =
    gate-after_loop py insert_measurement_event produce limits none polls (writer false) producer
      last_state refl

run_consumer_loop-IsSound_example : IsSound py limits none last_state
run_consumer_loop-IsSound_example =
    run_consumer_loop-IsSound py limits none polls (writer false) producer tt

loop_counts :
    (last_state.stats.inserted ≡ 1) × (last_state.stats.duplicate ≡ 1) × (last_state.stats.dlq ≡ 1)
unfolding process_kafka_message parse_kafka_envelope decide_consumer_action insert_measurement_event
    produce measurement_raw_event_from_mapping get validate_raw_event join_bar idempotency_key
    run_consumer_loop poll_step
loop_counts = (refl, refl, refl)

-- The reading with a payload size that is no number.
abbrev poison : Payload ℕ
poison = ("raw_payload_size_bytes", text "abc") ∷ reading

poison-sized : truthy py (get py poison "raw_payload_size_bytes") ≡ true
unfolding truthy get
poison-sized = refl

poison-refused : py.int (get py poison "raw_payload_size_bytes") ≡ none
unfolding get
poison-refused = refl

poison_raises_example :
    (is_ok
        (process_kafka_message py insert_measurement_event produce
          (with_value (object poison))
          ctx
          (writer false, producer)).0
      ≡ false)
    × ((process_kafka_message py insert_measurement_event produce
          (with_value (object poison))
          ctx
          (writer false, producer)).1
        ≡ (writer false, producer))
poison_raises_example =
    poison_raises py insert_measurement_event produce (with_value (object poison)) ctx
      (writer false) producer poison refl poison-sized poison-refused

ledger_keys_collide_example :
    join_bar (
      idempotency_key py (record event {
        source_system = str_append "a" (str_append "|" "b");
        source_event_id = some "c";
      }))
    ≡ join_bar (
        idempotency_key py (record event {
          source_system = "a";
          source_event_id = some (str_append "b" (str_append "|" "c"));
        }))
ledger_keys_collide_example = ledger_keys_collide py event "a" "b" "c" refl refl

-- Numbers of JSON: an int, or a float of a whole value.
data JsonNumber : Type 0 where
  integer : ℕ → JsonNumber
  double : ℕ → JsonNumber

abbrev magnitude : JsonNumber → ℕ
magnitude (integer n) = n
magnitude (double n) = n

-- float(): an int that no double holds exactly is not converted here.
abbrev to_float : Value JsonNumber → Conversion JsonNumber
to_float (number (double n)) = converts (double n)
to_float (number (integer n)) =
    if leb n 9_007_199_254_740_992 then converts (double n) else overflows
to_float _ = refuses

abbrev to_int : Value JsonNumber → Option ℕ
to_int (number x) = some (magnitude x)
to_int _ = none

abbrev to_str : Value JsonNumber → String
to_str (text s) = s
to_str _ = "?"

abbrev json : PyLib JsonNumber
json = record {
  is_zero = λ x. magnitude x == 0;
  str = to_str;
  int = to_int;
  float = to_float;
  show_int = λ n. "0";
  digest = λ p. "0123456789abcdef";
  encoded_size = λ p. 100;
  is_blank = λ s. str_eq s "";
  parses_iso = λ s. true;
  lower_parts = λ s. [];
  contains = λ a b. false;
}

abbrev wired : MeasurementRawEvent JsonNumber
wired = record {
  schema_version = "measurement_raw_v1";
  source_system = "ems";
  source_event_id = some "e1";
  meter_urn = "m";
  measurement = "P";
  event_ts = "2026-01-01T00:00:00Z";
  value_text = none;
  value_numeric = some (double 5);
  unit = some "kW";
  received_at = "";
  raw_payload_hash = "0123456789abcdef";
  raw_payload_size_bytes = 120;
  payload_errors = "value_numeric_invalid" ∷ [];
  source_authority = "pc1_archive";
  source_path = none;
}

positive_int : (n : ℕ) → (n == 0) ≡ not (ltb 0 n)
positive_int n = ground arith

same_number : (x : JsonNumber) → wired.value_numeric ≡ some x → json.float (number x) ≡ converts x
same_number (integer n) h = cc
same_number (double n) h = refl

-- The event of the message, sent on and read back.
from_mapping-to_kafka_value_example :
    measurement_raw_event_from_mapping json (raw_event_to_kafka_value integer wired)
    ≡ ok (record wired { payload_errors = [] })
from_mapping-to_kafka_value_example =
    from_mapping-to_kafka_value json integer (λ s. refl) (λ n. refl) positive_int wired refl refl
      refl (omega arith) same_number

-- A huge integer as the value of a reading: the OverflowError leaves the reader.
overflow_raises :
    is_ok (
      measurement_raw_event_from_mapping json (("value_numeric", number (integer (2 ^ 1024))) ∷ []))
    ≡ false
unfolding measurement_raw_event_from_mapping get
overflow_raises = refl
