-- ===== src/Text/Utf8/Roundtrip.antt =====
-- Decoding what was encoded gives the text back.
use ksqlite.Prelude.{
  ℕ, zero, suc, ◌+◌, ◌≤◌, ◌<◌, ◌≡◌, ◌∙◌, ap, false, some, List, [], ◌∷◌, ◌++◌, arith, length,
  length-append, List-cases, Bool-cases, Option-cases, inl, inr,
}
use ksqlite.Text.Utf8.{
  Bytes, is_surrogate, encode_char, encode, char, decode_step, decode_with, decode,
}

-- The bytes of one character decode to it.
pub decode_step-encode_char :
    (c : ℕ) (b : ℕ) (tail rest : Bytes)
    → c < 0x110000
    → is_surrogate c ≡ false
    → encode_char c ≡ b ∷ tail
    → decode_step b (tail ++ rest) ≡ char c rest
unfolding encode_char decode_step
decode_step-encode_char c b tail rest h s e = ground arith

-- Every character of the text is at most U+10FFFF, as in Python.
abbrev pub IsText : List ℕ → Type 0
IsText [] = Unit
IsText (c ∷ s) = (c < 0x110000) × IsText s

-- `encode_char` gives at least one byte.
encode_char-cons : (c : ℕ) → (b : ℕ) × (t : Bytes) × (encode_char c ≡ b ∷ t)
unfolding encode_char
encode_char-cons c = elim (List-cases (encode_char c)) [ inl e ↦ ground arith | inr found ↦ found ]

-- What a successful `encode` is made of.
encode-cons :
    (c : ℕ) (s : List ℕ) (bs : Bytes)
    → encode (c ∷ s) ≡ some bs
    → (is_surrogate c ≡ false)
      × (rest : Bytes) × (encode s ≡ some rest)
      × (bs ≡ encode_char c ++ rest)
unfolding encode
encode-cons c s bs h = elim (Bool-cases (is_surrogate c)) [
  | inl e ↦ ground arith
  | inr e ↦ elim (Option-cases (encode s)) [
    | inl none_rest ↦ ground arith
    | inr (rest, r) ↦ (e, rest, r, ground arith)
  ]
]

-- One decoded character in front of what is decoded already.
decode_with-cons :
    (c : ℕ) (s : List ℕ) (fuel b : ℕ) (more rest : Bytes)
    → decode_step b more ≡ char c rest
    → decode_with fuel rest ≡ some s
    → decode_with (suc fuel) (b ∷ more) ≡ some (c ∷ s)
unfolding decode_with
decode_with-cons c s fuel b more rest one h = ground arith

decode_with-encode :
    (s : List ℕ) (fuel : ℕ) (bs : Bytes)
    → IsText s
    → length bs ≤ fuel
    → encode s ≡ some bs
    → decode_with fuel bs ≡ some s
decode_with-encode [] fuel bs t f e = unfold encode decode_with in ground arith
decode_with-encode (c ∷ s) zero bs t f e =
    let (ok_char, rest, encoded, split) = encode-cons c s bs e in
    let (b, tail, first) = encode_char-cons c in ground (arith, split, first)
decode_with-encode (c ∷ s) (suc fuel) bs t f e =
    let (ok_char, rest, encoded, split) = encode-cons c s bs e in
    let (b, tail, first) = encode_char-cons c in
    let shape : bs ≡ b ∷ (tail ++ rest) = cc (split, first) in
    let fits : length bs ≡ suc (length tail + length rest) =
      ap length shape ∙ omega (arith, length-append tail rest) in
    rw shape (
      decode_with-cons c s fuel b (tail ++ rest) rest
        (decode_step-encode_char c b tail rest t.0 ok_char first)
        (decode_with-encode s fuel rest t.1 (omega (arith, fits)) encoded))

-- A text of code points that encodes as UTF-8 is what its bytes decode to.
pub decode-encode : (s : List ℕ) (bs : Bytes) → IsText s → encode s ≡ some bs → decode bs ≡ some s
unfolding decode
decode-encode s bs t e = decode_with-encode s (length bs) bs t (omega arith) e
