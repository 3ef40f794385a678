-- ===== src/Stream/Runner/Poison.antt =====
-- Two cases that the contract of the consumer does not speak of: a size that is no integer, and two
-- readings whose identities are joined to one text.
use text.Mathlib.TextLemmas.{append_assoc, append-eq-nil_iff}
use skn25_final_4team.Prelude.{
  String, str_append, str_eq, str_eq_iff, ◌≡◌, ap, ◌∙◌, true, false, none, some, arith, Result,
  is_ok, Bool-cases, inl, inr,
}
use skn25_final_4team.Stream.Event.{
  PyLib, Payload, MeasurementRawEvent, get, truthy, measurement_raw_event_from_mapping,
  idempotency_key,
}
use skn25_final_4team.Stream.Decision.{
  object, KafkaMessage, InsertPayload, DlqPayload, Context, join_bar, parse_kafka_envelope,
  decide_consumer_action,
}
use skn25_final_4team.Stream.Adapters.{PostgresWriteResult, Ack}
use skn25_final_4team.Stream.Runner.{process_kafka_message}

module _ {F W Q : Type 0} (py : PyLib F)
    (insert : W → InsertPayload F → Result PostgresWriteResult × W)
    (produce : Q → String → String → DlqPayload F → Result Ack × Q) where
  -- A message whose object declares a payload size that int() refuses makes the runner raise: there
  -- is no decision, neither adapter is called, and so the message is not dead-lettered.
  pub poison_raises :
      (message : KafkaMessage F) (ctx : Context) (w : W) (q : Q) (payload : Payload F)
      → message.value ≡ object payload
      → truthy py (get py payload "raw_payload_size_bytes") ≡ true
      → py.int (get py payload "raw_payload_size_bytes") ≡ none
      → (is_ok (process_kafka_message py insert produce message ctx (w, q)).0 ≡ false)
        × ((process_kafka_message py insert produce message ctx (w, q)).1 ≡ (w, q))
  unfolding process_kafka_message decide_consumer_action measurement_raw_event_from_mapping
      parse_kafka_envelope
  poison_raises message ctx w q payload v t i = (ground arith, ground arith)

append-nonempty_left : (a x : String) → str_eq a "" ≡ false → str_eq (str_append a x) "" ≡ false
append-nonempty_left a x h = elim (Bool-cases (str_eq (str_append a x) "")) [
  | inr e ↦ e
  | inl e ↦
      (let (left, _) = append-eq-nil_iff.0 ((str_eq_iff (str_append a x) "").0 e) in
        cc (h, (str_eq_iff a "").1 left))
]

append-nonempty_right : (a x : String) → str_eq x "" ≡ false → str_eq (str_append a x) "" ≡ false
append-nonempty_right a x h = elim (Bool-cases (str_eq (str_append a x) "")) [
  | inr e ↦ e
  | inl e ↦
      (let (_, right) = append-eq-nil_iff.0 ((str_eq_iff (str_append a x) "").0 e) in
        cc (h, (str_eq_iff x "").1 right))
]

-- Two readings of two source systems, with different source event ids, whose bar-joined identities,
-- which are their keys in the ledger, are equal: the bar may stand in the system or in the id.
pub ledger_keys_collide :
    {F : Type 0} (py : PyLib F) (e : MeasurementRawEvent F) (a b c : String)
    → str_eq a "" ≡ false
    → str_eq c "" ≡ false
    → join_bar (
        idempotency_key py
          (record e { source_system = str_append a (str_append "|" b); source_event_id = some c }))
      ≡ join_bar (
          idempotency_key py (record e {
            source_system = a;
            source_event_id = some (str_append b (str_append "|" c));
          }))
unfolding join_bar idempotency_key
ledger_keys_collide py e a b c left right =
    let system = append-nonempty_left a (str_append "|" b) left in
    let id = append-nonempty_right b (str_append "|" c) (append-nonempty_right "|" c right) in
    rw (left, right, system, id)
      (ap (str_append "source_event") (
        ap (str_append "|") (
          append_assoc a (str_append "|" b) (str_append "|" c)
          ∙ ap (str_append a) (append_assoc "|" b (str_append "|" c)))))
