-- ===== src/Wire.antt =====
-- _wire.py: the wire format of a changelog record, and what a replayed record is taken for.
-- `uuid.UUID` and `json.loads` enter as tests, in the record `Parsers`.
pub mod Roundtrip
use ksqlite.Prelude.{Bool, Option, none, some, List, [], ◌∷◌, if◌then◌else◌}
use ksqlite.Errors.{Result, ok, err, value_error, ◌>>=◌}
use ksqlite.Text.{Text, codes, text_eq}
use ksqlite.Text.Utf8.{Bytes, encode, decode, decode_replace}

-- The parsers of Python's library, as the code uses them: for the exception they raise or not.
pub record Parsers : Type 0 where
  -- `uuid.UUID(text)` returns
  pub is_uuid : Text → Bool
  -- `json.loads(text, parse_constant=_reject_nonstandard_constant)` returns
  pub is_json : Text → Bool

abbrev pub format_version : Text
format_version = codes "1"

pub record KsqliteRecord : Type 0 where
  pub message_id : Text
  pub entity_key : Text
  pub payload : Text

-- Why a record is foreign.
pub data Reason : Type 0 where
  missing_message_id malformed_message_id : Reason
  null_key undecodable_key null_value undecodable_value : Reason

pub data Classified : Type 0 where
  ksqlite_record : KsqliteRecord → Classified
  foreign : Reason → Classified
  unknown_version : Text → Option Text → Classified

-- A header's value may be null on the wire.
abbrev pub Headers : Type 0
Headers = List (Text × Option Bytes)

-- `dict(headers).get(name)`: of two headers with one name the later counts.
unfoldable pub last_header : Text → Headers → Option (Option Bytes)
last_header name [] = none
last_header name ((n, v) ∷ hs) = elim (last_header name hs) [
  | some found ↦ some found
  | none ↦ if text_eq n name then some v else none
]

unfoldable pub header : Text → Headers → Option Bytes
unfolding last_header
header name hs = elim (last_header name hs) [ none ↦ none | some v ↦ v ]

-- The message id of the header's bytes: UTF-8 text that `uuid.UUID` takes.
unfoldable pub read_message_id : Parsers → Bytes → Option Text
read_message_id ps bytes = elim (decode bytes) [
  | none ↦ none
  | some text ↦ if ps.is_uuid text then some text else none
]

-- The last part of `classify`: the key and the value of a record of this version.
unfoldable pub classify_body : Text → Option Bytes → Option Bytes → Classified
classify_body message_id none value = foreign null_key
classify_body message_id (some key) value = elim (decode key) [
  | none ↦ foreign undecodable_key
  | some entity_key ↦ elim value [
    | none ↦ foreign null_value
    | some bytes ↦ elim (decode bytes) [
      | none ↦ foreign undecodable_value
      | some payload ↦
          ksqlite_record
            (record { message_id = message_id; entity_key = entity_key; payload = payload })
    ]
  ]
]

-- The middle part: the version, `none` where the header is missing.
unfoldable pub classify_version : Text → Option Bytes → Option Bytes → Option Bytes → Classified
unfolding classify_body
classify_version message_id none key value = unknown_version message_id none
classify_version message_id (some bytes) key value =
    let version = decode_replace bytes in
    if text_eq version format_version
    then classify_body message_id key value
    else unknown_version message_id (some version)

unfoldable pub classify : Parsers → Option Bytes → Option Bytes → Headers → Classified
unfolding header read_message_id classify_version
classify ps key value headers = elim (header (codes "message_id") headers) [
  | none ↦ foreign missing_message_id
  | some bytes ↦ elim (read_message_id ps bytes) [
    | none ↦ foreign malformed_message_id
    | some message_id ↦
        classify_version message_id (header (codes "format_version") headers) key value
  ]
]

pub record EncodedRecord : Type 0 where
  pub key : Bytes
  pub value : Bytes
  pub headers : Headers

-- A payload: a `str`, or another object, of which only the outcome of
-- `json.dumps(payload, allow_nan=False)` is seen, `none` for a TypeError or a ValueError.
pub data Payload : Type 0 where
  str : Text → Payload
  object : Option Text → Payload

unfoldable pub serialize_payload : Parsers → Payload → Result Text
serialize_payload ps (str text) = if ps.is_json text then ok text else err value_error
serialize_payload ps (object none) = err value_error
serialize_payload ps (object (some text)) = ok text

-- `text.encode("utf-8")`; its UnicodeEncodeError is a ValueError.
abbrev pub encode_utf8 : Text → Result Bytes
encode_utf8 text = elim (encode text) [ none ↦ err value_error | some bytes ↦ ok bytes ]

unfoldable pub encode_record : Parsers → Text → Payload → Text → Result EncodedRecord
unfolding serialize_payload
encode_record ps entity_key payload message_id = do
  text ← serialize_payload ps payload
  key ← encode_utf8 entity_key
  value ← encode_utf8 text
  version ← encode_utf8 format_version
  id ← encode_utf8 message_id
  ok (record {
    key = key;
    value = value;
    headers = (codes "format_version", some version) ∷ (codes "message_id", some id) ∷ [];
  })
