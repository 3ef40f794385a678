-- ===== src/Stream/Wire.antt =====
-- src/cms/contracts/ingestion.py: the event as the value of a Kafka record, and back.
use skn25_final_4team.Prelude.{
  ℕ, ◌<◌, String, ◌≡◌, refl, false, not, Option, none, some, [], ◌∷◌, ltb, lt→ltb, length, str_eq,
  str_eq_iff, Bool-cases, ok, inl, inr, ap, sym,
}
use skn25_final_4team.Stream.Event.{
  Value, null, number, text, composite, Payload, PyLib, MeasurementRawEvent, get, truthy, str_or,
  optional_str, converts, declared_size, read_numeric, measurement_raw_event_from_mapping,
}

abbrev optional_text : {F : Type 0} → Option String → Value F
optional_text none = null
optional_text (some s) = text s

abbrev optional_number : {F : Type 0} → Option F → Value F
optional_number none = null
optional_number (some x) = number x

-- asdict(event); `of_int` is a JSON number that is an int.
unfoldable pub raw_event_to_kafka_value : {F : Type 0} → (ℕ → F) → MeasurementRawEvent F → Payload F
raw_event_to_kafka_value of_int e =
    ("schema_version", text e.schema_version)
    ∷ ("source_system", text e.source_system)
    ∷ ("source_event_id", optional_text e.source_event_id)
    ∷ ("meter_urn", text e.meter_urn)
    ∷ ("measurement", text e.measurement)
    ∷ ("event_ts", text e.event_ts)
    ∷ ("value_text", optional_text e.value_text)
    ∷ ("value_numeric", optional_number e.value_numeric)
    ∷ ("unit", optional_text e.unit)
    ∷ ("received_at", text e.received_at)
    ∷ ("raw_payload_hash", text e.raw_payload_hash)
    ∷ ("raw_payload_size_bytes", number (of_int e.raw_payload_size_bytes))
    ∷ ("payload_errors", composite (length e.payload_errors))
    ∷ ("source_authority", text e.source_authority)
    ∷ ("source_path", optional_text e.source_path)
    ∷ []

-- What str() and int() do with the values of such a mapping.
module _ {F : Type 0} (py : PyLib F) (of_int : ℕ → F)
    (str-text : (s : String) → py.str (text s) ≡ s)
    (int-of_int : (n : ℕ) → py.int (number (of_int n)) ≡ some n)
    (is_zero-of_int : (n : ℕ) → py.is_zero (of_int n) ≡ not (ltb 0 n)) where
  str_or-same : (s : String) → str_or py (text s) "" ≡ s
  unfolding str_or truthy
  str_or-same s = elim (Bool-cases (str_eq s "")) [
    | inl e ↦ rw (e) (sym ((str_eq_iff s "").0 e))
    | inr e ↦ rw (e) (str-text s)
  ]

  str_or-text : (s d : String) → str_eq s "" ≡ false → str_or py (text s) d ≡ s
  unfolding str_or truthy
  str_or-text s d e = rw e (str-text s)

  optional_str-text : (o : Option String) → optional_str py (optional_text o) ≡ o
  unfolding optional_str
  optional_str-text none = refl
  optional_str-text (some s) = ap some (str-text s)

  read_numeric-number :
      (o : Option F)
      → ((x : F) → o ≡ some x → py.float (number x) ≡ converts x)
      → read_numeric py (optional_number o) ≡ ok (o, [])
  unfolding read_numeric
  read_numeric-number none same = refl
  read_numeric-number (some x) same = rw (same x refl) refl

  declared_size-number :
      (p : Payload F) (n : ℕ) → 0 < n → declared_size py p (number (of_int n)) ≡ ok n
  unfolding declared_size truthy
  declared_size-number p n positive = rw (is_zero-of_int n, lt→ltb 0 n positive, int-of_int n) refl

  -- If str() of a text and int() of an integer give them back, and float() gives back the number that
  -- the event has, then an event with a schema version, a hash, a size and an authority that is sent
  -- as the value of a Kafka record is read back as it was, but for the errors of its own reading.
  pub from_mapping-to_kafka_value :
      (e : MeasurementRawEvent F)
      → str_eq e.schema_version "" ≡ false
      → str_eq e.raw_payload_hash "" ≡ false
      → str_eq e.source_authority "" ≡ false
      → 0 < e.raw_payload_size_bytes
      → ((x : F) → e.value_numeric ≡ some x → py.float (number x) ≡ converts x)
      → measurement_raw_event_from_mapping py (raw_event_to_kafka_value of_int e)
        ≡ ok (record e { payload_errors = [] })
  unfolding measurement_raw_event_from_mapping raw_event_to_kafka_value get
  from_mapping-to_kafka_value e version hash authority positive same =
      rw
        (
          declared_size-number (raw_event_to_kafka_value of_int e) e.raw_payload_size_bytes
              positive,
          read_numeric-number e.value_numeric same,
          str_or-text e.schema_version "measurement_raw_v1" version,
          str_or-text e.raw_payload_hash (py.digest (raw_event_to_kafka_value of_int e)) hash,
          str_or-text e.source_authority "pc1_archive" authority,
          str_or-same e.source_system,
          str_or-same e.meter_urn,
          str_or-same e.measurement,
          str_or-same e.event_ts,
          str_or-same e.received_at,
          optional_str-text e.source_event_id,
          optional_str-text e.value_text,
          optional_str-text e.unit,
          optional_str-text e.source_path,
        )
        refl
