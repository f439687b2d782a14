-- ===== src/Wire/Roundtrip.antt =====
-- What `encode_record` writes, `classify` reads back.
use ksqlite.Prelude.{arith, ◌≡◌, refl, sym, ◌∙◌, true, Option, some, [], ◌∷◌}
use ksqlite.Errors.{Result, ok, err, ◌>>=◌, ok_injective}
use ksqlite.Text.{Text, codes, text_eq}
use ksqlite.Text.Utf8.{Bytes, encode, decode, encode_char, decode_replace}
use ksqlite.Text.Utf8.Roundtrip.{decode-encode, IsText}
use ksqlite.Wire.{
  Parsers, Headers, header, last_header, classify_version, ksqlite_record, EncodedRecord, Payload,
  serialize_payload, encode_utf8, encode_record, classify, classify_body, read_message_id,
  format_version,
}

-- The headers that `encode_record` writes.
abbrev written : Bytes → Headers
written id = (codes "format_version", some (codes "1")) ∷ (codes "message_id", some id) ∷ []

-- The parts of an encoded record.
abbrev Encoded : Parsers → Text → Payload → Text → EncodedRecord → Type 0
Encoded ps entity_key payload message_id r =
    (text : Text) × (id : Bytes) × (serialize_payload ps payload ≡ ok text)
    × (encode entity_key ≡ some r.key)
    × (encode text ≡ some r.value)
    × (encode message_id ≡ some id)
    × (r.headers ≡ written id)

encode_ok : (s : Text) (bs : Bytes) → encode_utf8 s ≡ ok bs → encode s ≡ some bs
encode_ok s bs h = ground arith

version_bytes : encode_utf8 format_version ≡ ok (codes "1")
unfolding encode encode_char
version_bytes = refl

header-id : (id : Bytes) → header (codes "message_id") (written id) ≡ some id
unfolding header last_header text_eq
header-id id = refl

header-version : (id : Bytes) → header (codes "format_version") (written id) ≡ some (codes "1")
unfolding header last_header text_eq
header-version id = refl

-- The rest of `encode_record` once the payload is serialized.
rest-Encoded :
    (ps : Parsers) (key text message_id : Text) (payload : Payload) (r : EncodedRecord)
    (a b c : Result Bytes)
    → serialize_payload ps payload ≡ ok text
    → encode_utf8 key ≡ a
    → encode_utf8 text ≡ b
    → encode_utf8 message_id ≡ c
    → (do
      k ← a
      v ← b
      version ← encode_utf8 format_version
      id ← c
      ok (record {
        key = k;
        value = v;
        headers = (codes "format_version", some version) ∷ (codes "message_id", some id) ∷ [];
      }))
      ≡ ok r
    → Encoded ps key payload message_id r
rest-Encoded ps key text message_id payload r (ok k) (ok v) (ok id) es ea eb ec h =
    let same = ok_injective (rw version_bytes at h) in
    rw (sym same)
      (text, id, es, encode_ok key k ea, encode_ok text v eb, encode_ok message_id id ec, refl)
rest-Encoded ps key text message_id payload r _ _ _ es ea eb ec h = ground arith

parts :
    (ps : Parsers) (entity_key : Text) (payload : Payload) (message_id : Text) (r : EncodedRecord)
    (x : Result Text)
    → serialize_payload ps payload ≡ x
    → encode_record ps entity_key payload message_id ≡ ok r
    → Encoded ps entity_key payload message_id r
unfolding encode_record
parts ps key payload message_id r (ok text) e h =
    rest-Encoded ps key text message_id payload r (encode_utf8 key) (encode_utf8 text)
      (encode_utf8 message_id) e refl refl refl (rw e at h)
parts ps key payload message_id r (err x) e h = ground arith

body :
    (key text message_id : Text) (k v : Bytes)
    → decode k ≡ some key
    → decode v ≡ some text
    → classify_body message_id (some k) (some v)
      ≡ ksqlite_record (record { message_id = message_id; entity_key = key; payload = text })
unfolding classify_body
body key text message_id k v ek ev = ground arith

classify_version-written :
    (message_id : Text) (id : Bytes) (k v : Option Bytes)
    → classify_version message_id (header (codes "format_version") (written id)) k v
      ≡ classify_body message_id k v
unfolding classify_version decode_replace text_eq header
classify_version-written message_id id k v = refl

read_message_id-ok :
    (ps : Parsers) (text : Text) (id : Bytes)
    → ps.is_uuid text ≡ true
    → decode id ≡ some text
    → read_message_id ps id ≡ some text
unfolding read_message_id
read_message_id-ok ps text id uuid e = ground arith

classify-written :
    (ps : Parsers) (message_id : Text) (k v id : Bytes)
    → ps.is_uuid message_id ≡ true
    → decode id ≡ some message_id
    → classify ps (some k) (some v) (written id) ≡ classify_body message_id (some k) (some v)
unfolding classify
classify-written ps message_id k v id uuid eid = ground (
  arith,
  header-id id,
  read_message_id-ok ps message_id id uuid eid,
  classify_version-written message_id id (some k) (some v),
)

-- A record that `encode_record` returns is classified as a record of this library, with the message
-- id, the key and the serialized payload that it was made from, if these are texts and the id is a
-- UUID.
pub classify-encode_record :
    (ps : Parsers) (entity_key text message_id : Text) (payload : Payload) (r : EncodedRecord)
    → IsText entity_key
    → IsText text
    → IsText message_id
    → ps.is_uuid message_id ≡ true
    → serialize_payload ps payload ≡ ok text
    → encode_record ps entity_key payload message_id ≡ ok r
    → classify ps (some r.key) (some r.value) r.headers
      ≡ ksqlite_record (record { message_id = message_id; entity_key = entity_key; payload = text })
classify-encode_record ps key text message_id payload r hk ht hid uuid es h =
    let (text', id, es', ek, ev, eid, eh) = parts ps key payload message_id r _ refl h in
    let same : text' ≡ text = ok_injective (sym es' ∙ es) in
    rw eh (
      classify-written ps message_id r.key r.value id uuid (decode-encode message_id id hid eid)
      ∙ body key text message_id r.key r.value (decode-encode key r.key hk ek)
          (decode-encode text r.value ht (rw same at ev)))

-- The value of an encoded record decodes to the serialized payload.
pub decode-encode_record :
    (ps : Parsers) (entity_key text message_id : Text) (payload : Payload) (r : EncodedRecord)
    → IsText text
    → serialize_payload ps payload ≡ ok text
    → encode_record ps entity_key payload message_id ≡ ok r
    → decode r.value ≡ some text
decode-encode_record ps key text message_id payload r ht es h =
    let (text', id, es', ek, ev, eid, eh) = parts ps key payload message_id r _ refl h in
    let same : text' ≡ text = ok_injective (sym es' ∙ es) in
    decode-encode text r.value ht (rw same at ev)
