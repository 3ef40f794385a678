-- ===== src/Stream/Adapters.antt =====
-- src/cms/data/postgres_event_writer.py and src/cms/data/kafka_adapter.py: the results of the two
-- adapters, and the in-memory adapters as state passing.
use skn25_final_4team.Prelude.{
  ℕ, String, Bool, true, false, not, Option, none, some, List, [], ◌∷◌, ◌++◌, str_eq, any, length,
  if◌then◌else◌, value_error, runtime_error, Result, ok, raises,
}
use skn25_final_4team.Stream.Decision.{
  InsertPayload, DlqPayload, measurement_event_write_target_table,
}

pub record PostgresWriteResult : Type 0 where
  pub succeeded : Bool
  pub duplicate_event : Bool
  pub rows_affected : ℕ
  pub error : Option String

-- What a producer returns; a missing "acknowledged" is none.
pub record Ack : Type 0 where
  pub acknowledged : Option Bool
  pub topic : String
  pub partition : ℕ
  pub offset : ℕ

pub record PostgresInsertCommand (F : Type 0) : Type 0 where
  pub target_table : String
  pub params : InsertPayload F

module _ {F : Type 0} where
  -- The SQL text is fixed: INSERT of the payload's columns, ON CONFLICT (event_id) DO NOTHING.
  unfoldable pub make_measurement_event_insert_command :
      InsertPayload F → Result (PostgresInsertCommand F)
  make_measurement_event_insert_command payload =
      if str_eq payload.target_table measurement_event_write_target_table
      then ok (record { target_table = measurement_event_write_target_table; params = payload })
      else raises (value_error "target_table must be live.measurement_event")

-- Rows by event_id, newest first.
pub record InMemoryPostgresEventWriter (F : Type 0) : Type 0 where
  pub fail : Bool
  pub rows : List (String × InsertPayload F)

-- event_id in self.rows
abbrev pub in_rows {ℓ} : {A : Type ℓ} → String → List (String × A) → Bool
in_rows id rows = any (λ r. str_eq id r.0) rows

abbrev refusal : String → PostgresWriteResult
refusal message = record {
  succeeded = false;
  duplicate_event = false;
  rows_affected = 0;
  error = some message;
}

module _ {F : Type 0} where
  unfoldable pub insert_measurement_event :
      InMemoryPostgresEventWriter F
      → InsertPayload F
      → Result PostgresWriteResult × InMemoryPostgresEventWriter F
  unfolding make_measurement_event_insert_command
  insert_measurement_event w payload =
      if w.fail
      then (ok (refusal "postgres transaction failed"), w)
      else elim (make_measurement_event_insert_command payload) [
        | raises e ↦ (raises e, w)
        | ok command ↦
            if str_eq command.params.event_id ""
            then (ok (refusal "event_id required"), w)
            else if in_rows command.params.event_id w.rows
            then (
              ok (record {
                succeeded = true;
                duplicate_event = true;
                rows_affected = 0;
                error = none;
              }),
              w,
            )
            else (
              ok (record {
                succeeded = true;
                duplicate_event = false;
                rows_affected = 1;
                error = none;
              }),
              record w { rows = (command.params.event_id, payload) ∷ w.rows },
            )
      ]

pub record PublishedRecord (F : Type 0) : Type 0 where
  pub topic : String
  pub partition : ℕ
  pub offset : ℕ
  pub key : String
  pub value : DlqPayload F

pub record InMemoryKafkaProducer (F : Type 0) : Type 0 where
  pub available : Bool
  pub partition : ℕ
  pub published_records : List (PublishedRecord F)

module _ {F : Type 0} where
  unfoldable pub produce :
      InMemoryKafkaProducer F
      → String
      → String
      → DlqPayload F
      → Result Ack × InMemoryKafkaProducer F
  produce p topic key value =
      if not p.available
      then (raises (runtime_error "producer unavailable"), p)
      else let offset = length p.published_records in
        let published : PublishedRecord F = record {
          topic = topic;
          partition = p.partition;
          offset = offset;
          key = key;
          value = value;
        } in
        (
          ok (record {
            acknowledged = some true;
            topic = topic;
            partition = p.partition;
            offset = offset;
          }),
          record p { published_records = p.published_records ++ published ∷ [] },
        )
