-- ===== src/Stream/Event.antt =====
-- src/cms/contracts/ingestion.py: the raw measurement event, its validation and its identity.
-- Parts of Python's standard library that the code calls are the fields of `PyLib`. Numbers of JSON
-- are of an abstract type `F`, since the code only passes them on.
use skn25_final_4team.Prelude.{
  ℕ, String, Bool, true, false, not, ◌&&◌, ◌||◌, Option, none, some, List, [], ◌∷◌, ◌++◌, ltb,
  str_eq, str_append, str_len, any, if◌then◌else◌, value_error, overflow_error, Result, ok, raises,
  ◌>>=◌,
}

-- A JSON value; a list or an object is known by its number of items.
pub data Value (F : Type 0) : Type 0 where
  null : Value F
  boolean : Bool → Value F
  number : F → Value F
  text : String → Value F
  composite : ℕ → Value F

-- A JSON object: the first pair with a key is its entry.
abbrev pub Payload : Type 0 → Type 0
Payload F = List (String × Value F)

-- What float() does with a value: a float, a ValueError or a TypeError, or an OverflowError.
pub data Conversion (F : Type 0) : Type 0 where
  converts : F → Conversion F
  refuses overflows : Conversion F

pub record PyLib (F : Type 0) : Type 0 where
  pub is_zero : F → Bool
  -- str(value)
  pub str : Value F → String
  -- int(value), with none for an exception, and float(value)
  pub int : Value F → Option ℕ
  pub float : Value F → Conversion F
  -- an integer in an f-string
  pub show_int : ℕ → String
  -- sha256 of the sorted JSON, and its number of bytes
  pub digest : Payload F → String
  pub encoded_size : Payload F → ℕ
  -- not text.strip()
  pub is_blank : String → Bool
  -- datetime.fromisoformat(text.replace("Z", "+00:00")) does not raise
  pub parses_iso : String → Bool
  -- the lower-cased parts of Path(text).expanduser()
  pub lower_parts : String → List String
  -- marker in part
  pub contains : String → String → Bool

pub record MeasurementRawEvent (F : Type 0) : Type 0 where
  pub schema_version : String
  pub source_system : String
  pub source_event_id : Option String
  pub meter_urn : String
  pub measurement : String
  pub event_ts : String
  pub value_text : Option String
  pub value_numeric : Option F
  pub unit : Option String
  pub received_at : String
  pub raw_payload_hash : String
  pub raw_payload_size_bytes : ℕ
  pub payload_errors : List String
  pub source_authority : String
  pub source_path : Option String

abbrev pub max_raw_event_bytes : ℕ
max_raw_event_bytes = 64_000

abbrev pub source_authority_pc1_archive : String
source_authority_pc1_archive = "pc1_archive"

abbrev pub live_injector_forbidden_source_root_markers : List String
live_injector_forbidden_source_root_markers =
    "pc2" ∷ "pc3" ∷ "reference" ∷ "corrected_resampled" ∷ "canonical" ∷ "mart" ∷ "backfill" ∷ []

-- `[text]` if the test holds.
abbrev when : Bool → String → List String
when true error = error ∷ []
when false error = []

abbrev pub present : Option String → Bool
present none = false
present (some s) = not (str_eq s "")

abbrev text_of : Option String → String
text_of none = ""
text_of (some s) = s

abbrev refused {ℓ} : {A : Type ℓ} → Result A → Bool
refused (ok a) = false
refused (raises e) = true

module _ {F : Type 0} (py : PyLib F) where
  -- payload.get(key), with None for a missing key
  unfoldable pub get : Payload F → String → Value F
  get [] key = null
  get ((k, v) ∷ rest) key = if str_eq k key then v else get rest key

  -- bool(value)
  unfoldable pub truthy : Value F → Bool
  truthy null = false
  truthy (boolean b) = b
  truthy (number x) = not (py.is_zero x)
  truthy (text s) = not (str_eq s "")
  truthy (composite n) = ltb 0 n

  -- str(value or default)
  unfoldable pub str_or : Value F → String → String
  unfolding truthy
  str_or v default = if truthy v then py.str v else default

  -- str(value) if value is not None else None
  unfoldable pub optional_str : Value F → Option String
  optional_str null = none
  optional_str v = some (py.str v)

  -- int(payload.get("raw_payload_size_bytes") or raw_payload_size_bytes(payload))
  unfoldable pub declared_size : Payload F → Value F → Result ℕ
  unfolding truthy
  declared_size payload v =
      if truthy v
      then elim (py.int v) [
        | some n ↦ ok n
        | none ↦ raises (value_error "invalid literal for int()")
      ]
      else ok (py.encoded_size payload)

  -- The numeric value and the errors of reading it; an OverflowError is not caught.
  unfoldable pub read_numeric : Value F → Result (Option F × List String)
  read_numeric null = ok (none, [])
  read_numeric v = elim (py.float v) [
    | converts x ↦ ok (some x, [])
    | refuses ↦ ok (none, "value_numeric_invalid" ∷ [])
    | overflows ↦ raises (overflow_error "int too large to convert to float")
  ]

  unfoldable pub measurement_raw_event_from_mapping : Payload F → Result (MeasurementRawEvent F)
  unfolding str_or optional_str declared_size read_numeric
  measurement_raw_event_from_mapping payload = do
    let field = get payload
    size ← declared_size payload (field "raw_payload_size_bytes")
    numeric ← read_numeric (field "value_numeric")
    ok (record {
      schema_version = str_or (field "schema_version") "measurement_raw_v1";
      source_system = str_or (field "source_system") "";
      source_event_id = optional_str (field "source_event_id");
      meter_urn = str_or (field "meter_urn") "";
      measurement = str_or (field "measurement") "";
      event_ts = str_or (field "event_ts") "";
      value_text = optional_str (field "value_text");
      value_numeric = numeric.0;
      unit = optional_str (field "unit");
      received_at = str_or (field "received_at") "";
      raw_payload_hash = str_or (field "raw_payload_hash") (py.digest payload);
      raw_payload_size_bytes = size;
      payload_errors = numeric.1;
      source_authority = str_or (field "source_authority") source_authority_pc1_archive;
      source_path = optional_str (field "source_path");
    })

  unfoldable pub kafka_message_key : MeasurementRawEvent F → String
  kafka_message_key event = str_append event.meter_urn (str_append "|" event.measurement)

  unfoldable pub idempotency_key : MeasurementRawEvent F → List String
  idempotency_key event =
      if not (str_eq event.source_system "") && present event.source_event_id
      then "source_event" ∷ event.source_system ∷ text_of event.source_event_id ∷ []
      else "payload_hash" ∷ event.raw_payload_hash ∷ event.meter_urn ∷ event.measurement
        ∷ event.event_ts ∷ []

  -- for field_name in (...): if not _is_nonempty_text(value): errors.append(f"{field_name}_required")
  unfoldable pub required_errors : List (String × String) → List String
  required_errors [] = []
  required_errors ((name, value) ∷ rest) =
      when (py.is_blank value) (str_append name "_required") ++ required_errors rest

  unfoldable pub iso_errors : List (String × String) → List String
  iso_errors [] = []
  iso_errors ((name, value) ∷ rest) =
      when (not (py.is_blank value) && not (py.parses_iso value))
        (str_append name "_invalid_iso_datetime")
      ++ iso_errors rest

  -- src/cms/contracts/live_pipeline.py; a marker that equals a part is in it
  unfoldable pub validate_live_injector_source_authority : String → String → Result (Unit {0})
  validate_live_injector_source_authority source_root source_authority =
      if not (str_eq source_authority source_authority_pc1_archive)
      then raises (value_error "live injector source authority must be pc1_archive")
      else if any
          (λ part.
            any (λ marker. str_eq marker part || py.contains marker part)
              live_injector_forbidden_source_root_markers)
          (py.lower_parts source_root)
      then raises (value_error "live injector source root is outside the PC1 archive authority")
      else ok tt

  abbrev path_errors : Option String → String → List String
  path_errors none authority = []
  path_errors (some path) authority =
      when
        (not (str_eq path "") && refused (validate_live_injector_source_authority path authority))
        "source_path_outside_pc1_archive_authority"

  abbrev no_value : Option String → Option F → Bool
  no_value none none = true
  no_value _ _ = false

  unfoldable pub validate_raw_event : MeasurementRawEvent F → List String
  unfolding required_errors iso_errors validate_live_injector_source_authority
  validate_raw_event event =
      event.payload_errors
      ++ (when (not (str_eq event.schema_version "measurement_raw_v1")) "invalid_schema_version"
          ++ (required_errors (
                ("source_system", event.source_system)
                ∷ ("meter_urn", event.meter_urn)
                ∷ ("measurement", event.measurement)
                ∷ ("event_ts", event.event_ts)
                ∷ ("received_at", event.received_at)
                ∷ ("raw_payload_hash", event.raw_payload_hash)
                ∷ [])
              ++ (iso_errors
                    (("event_ts", event.event_ts) ∷ ("received_at", event.received_at) ∷ [])
                  ++ (when (no_value event.value_text event.value_numeric) "value_required"
                      ++ (when (not (str_eq event.source_authority source_authority_pc1_archive))
                            "source_authority_pc1_archive_required"
                          ++ (path_errors event.source_path event.source_authority
                              ++ (when (ltb max_raw_event_bytes event.raw_payload_size_bytes)
                                    "raw_payload_oversized"
                                  ++ when
                                      (not (str_eq event.raw_payload_hash "")
                                        && ltb (str_len event.raw_payload_hash) 16)
                                      "raw_payload_hash_too_short")))))))

-- bool(validation_errors)
unfoldable pub should_send_to_dlq : List String → Bool
should_send_to_dlq [] = false
should_send_to_dlq (e ∷ es) = true
