-- ===== src/Stream/Runner/Redelivery.antt =====
-- The runner over the in-memory adapters: what a commit leaves behind, and what a second delivery
-- of a message does.
use text.Mathlib.TextLemmas.{append-eq-nil_iff}
use text.Mathlib.TextPositions.{eq_refl}
use skn25_final_4team.Prelude.{
  String, ◌≡◌, Bool, true, false, not, ◌&&◌, ◌||◌, none, some, List, ◌∷◌, ◌++◌, arith, ◌==◌, str_eq,
  str_eq_iff, any, any-append, length, if◌then◌else◌, Result, ok, raises, Bool-cases, Result-cases,
  inl, inr, is_ok,
}
use skn25_final_4team.Stream.Event.{
  PyLib, MeasurementRawEvent, should_send_to_dlq, measurement_raw_event_from_mapping,
  validate_raw_event, idempotency_key, present,
}
use skn25_final_4team.Stream.Decision.{
  KafkaMessage, KafkaEnvelope, InsertPayload, DlqPayload, Context, idempotent_noop, join_bar,
  no_outcome, decide_for_event, or_default, measurement_dlq_topic, build_dlq_payload,
  build_postgres_insert_payload, parse_kafka_envelope, decide_consumer_action,
}
use skn25_final_4team.Stream.Adapters.{
  InMemoryPostgresEventWriter, InMemoryKafkaProducer, PublishedRecord, PostgresWriteResult, in_rows,
  insert_measurement_event, produce,
}
use skn25_final_4team.Stream.Runner.Contract.{process_cases}
use skn25_final_4team.Stream.Runner.{
  StreamConsumerProcessResult, process_envelope, process_kafka_message,
}

-- The writer returned a result that reports success.
abbrev success : Result PostgresWriteResult → Bool
success (ok result) = result.succeeded
success (raises e) = false

abbrev from_offset : {F : Type 0} → KafkaEnvelope F → PublishedRecord F → Bool
from_offset envelope p =
    p.value.source_partition == envelope.partition && p.value.source_offset == envelope.offset

module _ {F : Type 0} (py : PyLib F) where
  abbrev pub Adapters : Type 0
  Adapters = InMemoryPostgresEventWriter F × InMemoryKafkaProducer F

  abbrev pub process :
      KafkaMessage F → Context → Adapters → Result (StreamConsumerProcessResult F) × Adapters
  process = process_kafka_message py insert_measurement_event produce

  -- The ledger key of an event.
  abbrev pub ledger_key : MeasurementRawEvent F → String
  ledger_key event = join_bar (idempotency_key py event)

  abbrev stored : KafkaEnvelope F → Result (MeasurementRawEvent F) → Adapters → Bool
  stored envelope (raises e) s = false
  stored envelope (ok event) s =
      if should_send_to_dlq (envelope.parse_errors ++ validate_raw_event py event)
      then any (from_offset envelope) s.1.published_records
      else in_rows (ledger_key event) s.0.rows

  abbrev stored_envelope : Result (KafkaEnvelope F) → Adapters → Bool
  stored_envelope (raises e) s = false
  stored_envelope (ok envelope) s =
      stored envelope (measurement_raw_event_from_mapping py envelope.value) s

  -- A valid message has a ledger row under its key; an invalid one has a dead-letter record with
  -- its partition and offset.
  abbrev pub recorded : KafkaMessage F → Adapters → Bool
  recorded message s = stored_envelope (parse_kafka_envelope py message) s

  -- A dead-letter record of the message at hand is found by its offset, and the older ones stay.
  any-produce :
      (test : PublishedRecord F → Bool) (q : InMemoryKafkaProducer F) (topic key : String)
      (p : DlqPayload F)
      → any test (produce q topic key p).1.published_records ≡ (
          any test q.published_records
          || (q.available
              && test (record {
                topic = topic;
                partition = q.partition;
                offset = length q.published_records;
                key = key;
                value = p;
              })))
  unfolding produce
  any-produce test q topic key p = elim (Bool-cases q.available) [
    | inl e ↦ rw (e, any-append) (ground arith)
    | inr e ↦ rw e (ground arith)
  ]

  -- A publish that returns leaves a record with the offset of the payload.
  produce-found :
      (envelope : KafkaEnvelope F) (q : InMemoryKafkaProducer F) (topic key : String)
      (p : DlqPayload F)
      → p.source_partition ≡ envelope.partition
      → p.source_offset ≡ envelope.offset
      → is_ok (produce q topic key p).0 ≡ true
      → any (from_offset envelope) (produce q topic key p).1.published_records ≡ true
  produce-found envelope q topic key p m n h = rw any-produce (unfold produce in ground arith)

  -- An insert that is reported to have succeeded leaves a row under the payload's key.
  in_rows-insert :
      (w : InMemoryPostgresEventWriter F) (p : InsertPayload F)
      → success (insert_measurement_event w p).0 ≡ true
      → in_rows p.event_id (insert_measurement_event w p).1.rows ≡ true
  unfolding insert_measurement_event
  in_rows-insert w p c = ground (arith, eq_refl p.event_id)

  commit-stored :
      (envelope : KafkaEnvelope F) (event : MeasurementRawEvent F) (ctx : Context) (s : Adapters)
      (r : StreamConsumerProcessResult F)
      → measurement_raw_event_from_mapping py envelope.value ≡ ok event
      → (process_envelope py insert_measurement_event produce (ok envelope) ctx s).0 ≡ ok r
      → r.decision.commit_offset ≡ true
      → stored envelope
          (ok event)
          (process_envelope py insert_measurement_event produce (ok envelope) ctx s).1
        ≡ true
  unfolding decide_consumer_action
  commit-stored envelope event ctx s r read h c =
      elim (Bool-cases
        (should_send_to_dlq (envelope.parse_errors ++ validate_raw_event py event))) [
          | inl bad ↦
              rw (read, bad)
                (ground (
                  arith,
                  produce-found envelope s.1 measurement_dlq_topic (or_default envelope.key "") (
                      build_dlq_payload py (some event) envelope
                        (envelope.parse_errors ++ validate_raw_event py event)),
                ))
          | inr good ↦
              rw (read, good)
                (ground
                  (arith, in_rows-insert s.0 (build_postgres_insert_payload py event envelope ctx)))
        ]

  -- A message whose offset the runner decides to commit is recorded in the state that the runner
  -- leaves: in the ledger under its key if it is valid, among the dead letters otherwise.
  pub commit-recorded :
      (message : KafkaMessage F) (ctx : Context) (s : Adapters) (r : StreamConsumerProcessResult F)
      → (process message ctx s).0 ≡ ok r
      → r.decision.commit_offset ≡ true
      → recorded message (process message ctx s).1 ≡ true
  unfolding process_kafka_message
  commit-recorded message ctx s r h c = elim (Result-cases (parse_kafka_envelope py message)) [
    | inr (e, bad) ↦ cc (rw bad at h)
    | inl (envelope, parsed) ↦
        elim (Result-cases (measurement_raw_event_from_mapping py envelope.value)) [
          | inr (e, bad) ↦ unfold decide_consumer_action in ground arith
          | inl (event, read) ↦
              rw (parsed, read) (commit-stored envelope event ctx s r read (rw parsed at h) c)
        ]
  ]

  in_rows-insert_old :
      (id : String) (w : InMemoryPostgresEventWriter F) (p : InsertPayload F)
      → in_rows id w.rows ≡ true
      → in_rows id (insert_measurement_event w p).1.rows ≡ true
  unfolding insert_measurement_event
  in_rows-insert_old id w p h = ground arith

  stored_event_mono :
      (envelope : KafkaEnvelope F) (m : Result (MeasurementRawEvent F)) (s t : Adapters)
      → ((id : String) → in_rows id s.0.rows ≡ true → in_rows id t.0.rows ≡ true)
      → ((test : PublishedRecord F → Bool)
          → any test s.1.published_records ≡ true
          → any test t.1.published_records ≡ true)
      → stored envelope m s ≡ true
      → stored envelope m t ≡ true
  stored_event_mono envelope (raises e) s t f g h = h
  stored_event_mono envelope (ok event) s t f g h =
      let old = f (ledger_key event) in let dead = g (from_offset envelope) in ground arith

  -- A writer and a producer that keep all that the old ones hold.
  stored_mono :
      (m : Result (KafkaEnvelope F)) (s t : Adapters)
      → ((id : String) → in_rows id s.0.rows ≡ true → in_rows id t.0.rows ≡ true)
      → ((test : PublishedRecord F → Bool)
          → any test s.1.published_records ≡ true
          → any test t.1.published_records ≡ true)
      → stored_envelope m s ≡ true
      → stored_envelope m t ≡ true
  stored_mono (raises e) s t f g h = h
  stored_mono (ok envelope) s t f g h =
      stored_event_mono envelope (measurement_raw_event_from_mapping py envelope.value) s t f g h

  -- What is recorded stays recorded, whatever message is processed next.
  pub recorded-process :
      (old message : KafkaMessage F) (ctx : Context) (s : Adapters)
      → recorded old s ≡ true
      → recorded old (process message ctx s).1 ≡ true
  recorded-process old message ctx s h =
      process_cases py insert_measurement_event produce s.0 s.1 (λ t. recorded old t ≡ true) h
        (λ p.
          stored_mono (parse_kafka_envelope py old) s _ (λ id. in_rows-insert_old id s.0 p)
            (λ test x. x) h)
        (λ topic key p.
          stored_mono (parse_kafka_envelope py old) s _ (λ id x. x)
            (λ test x. rw (any-produce test s.1 topic key p) (ground arith)) h)
        ctx message

  -- No ledger key is empty: it has a separator in it.
  join_bar-ne-empty : (p q : String) (ps : List String) → str_eq (join_bar (p ∷ q ∷ ps)) "" ≡ false
  unfolding join_bar
  join_bar-ne-empty p q ps = elim (Bool-cases (str_eq (join_bar (p ∷ q ∷ ps)) "")) [
    | inr e ↦ e
    | inl e ↦
        let tail = (append-eq-nil_iff.0 ((str_eq_iff (join_bar (p ∷ q ∷ ps)) "").0 e)).1 in
        cc ((str_eq_iff "|" "").1 (append-eq-nil_iff.0 tail).0)
  ]

  ledger_key-ne-empty : (event : MeasurementRawEvent F) → str_eq (ledger_key event) "" ≡ false
  unfolding idempotency_key
  ledger_key-ne-empty event =
      elim (Bool-cases (not (str_eq event.source_system "") && present event.source_event_id)) [
        | inl e ↦ rw e (join_bar-ne-empty _ _ _)
        | inr e ↦ rw e (join_bar-ne-empty _ _ _)
      ]

  -- A valid message that is recorded already is, when it is delivered again to a writer that works,
  -- a duplicate: the runner returns the decision to do nothing and to commit, and neither the
  -- ledger nor the dead letters change.
  pub redelivery :
      (message : KafkaMessage F) (ctx : Context) (s : Adapters) (envelope : KafkaEnvelope F)
      (event : MeasurementRawEvent F)
      → parse_kafka_envelope py message ≡ ok envelope
      → measurement_raw_event_from_mapping py envelope.value ≡ ok event
      → should_send_to_dlq (envelope.parse_errors ++ validate_raw_event py event) ≡ false
      → recorded message s ≡ true
      → s.0.fail ≡ false
      → (r : StreamConsumerProcessResult F) × (process message ctx s ≡ (ok r, s))
        × (r.decision.action ≡ idempotent_noop)
        × (r.decision.commit_offset ≡ true)
  unfolding process_kafka_message decide_consumer_action insert_measurement_event
  redelivery message ctx s envelope event parsed read good h works =
      let at = ledger_key-ne-empty event in
      (
        record {
          decision =
              decide_for_event py envelope
                (record no_outcome { db_transaction_succeeded = true; duplicate_event = true }) ctx
                event (envelope.parse_errors ++ validate_raw_event py event);
          write_result = some (record {
            succeeded = true;
            duplicate_event = true;
            rows_affected = 0;
            error = none;
          });
          dlq_ack = none;
        },
        ground arith,
        ground arith,
        ground arith,
      )
