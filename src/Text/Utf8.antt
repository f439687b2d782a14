-- ===== src/Text/Utf8.antt =====
-- `str.encode("utf-8")` and `bytes.decode("utf-8")`, strict and with errors="replace". The decoder
-- takes one character at a time and skips a maximal ill-formed prefix, as Python's does.
pub mod Roundtrip
use ksqlite.Prelude.{
  ℕ, zero, suc, ◌+◌, ◌-◌, ◌*◌, ◌/◌, ◌%◌, Bool, ◌&&◌, Option, none, some, List, [], ◌∷◌, ◌++◌, ltb,
  leb, length, if◌then◌else◌,
}

abbrev pub Bytes : Type 0
Bytes = List ℕ

-- Code points that UTF-8 cannot carry.
abbrev pub is_surrogate : ℕ → Bool
is_surrogate c = leb 0xD800 c && leb c 0xDFFF

unfoldable pub encode_char : ℕ → Bytes
encode_char c =
    if ltb c 0x80
    then c ∷ []
    else if ltb c 0x800
    then (0xC0 + c / 64) ∷ (0x80 + c % 64) ∷ []
    else if ltb c 0x10000
    then (0xE0 + c / 4096) ∷ (0x80 + c / 64 % 64) ∷ (0x80 + c % 64) ∷ []
    else (0xF0 + c / 262144) ∷ (0x80 + c / 4096 % 64) ∷ (0x80 + c / 64 % 64) ∷ (0x80 + c % 64) ∷ []

-- `none` is a UnicodeEncodeError.
unfoldable pub encode : List ℕ → Option Bytes
encode [] = some []
encode (c ∷ s) =
    let rest = encode s in
    if is_surrogate c
    then none
    else elim rest [ none ↦ none | some bs ↦ some (encode_char c ++ bs) ]

-- One step of the decoder: a character, or an error, with the bytes that follow.
pub data Step : Type 0 where
  char : ℕ → Bytes → Step
  bad : Bytes → Step

abbrev is_tail : ℕ → Bool
is_tail b = leb 0x80 b && ltb b 0xC0

-- The last tail byte: `acc` holds the bits read so far.
abbrev tail1 : ℕ → Bytes → Step
tail1 acc [] = bad []
tail1 acc (b ∷ bs) = if is_tail b then char (acc * 64 + (b - 0x80)) bs else bad (b ∷ bs)

abbrev tail2 : ℕ → Bytes → Step
tail2 acc [] = bad []
tail2 acc (b ∷ bs) = if is_tail b then tail1 (acc * 64 + (b - 0x80)) bs else bad (b ∷ bs)

-- The second byte of a three-byte sequence: no overlong form, no surrogate.
abbrev second3 : ℕ → Bytes → Step
second3 lead [] = bad []
second3 lead (b ∷ bs) =
    if is_tail b
      && leb (if ltb lead 0xE1 then 0xA0 else 0x80) b
      && leb b (if leb lead 0xED && leb 0xED lead then 0x9F else 0xBF)
    then tail1 ((lead - 0xE0) * 64 + (b - 0x80)) bs
    else bad (b ∷ bs)

-- The second byte of a four-byte sequence: no overlong form, nothing above 0x10FFFF.
abbrev second4 : ℕ → Bytes → Step
second4 lead [] = bad []
second4 lead (b ∷ bs) =
    if is_tail b
      && leb (if ltb lead 0xF1 then 0x90 else 0x80) b
      && leb b (if leb 0xF4 lead then 0x8F else 0xBF)
    then tail2 ((lead - 0xF0) * 64 + (b - 0x80)) bs
    else bad (b ∷ bs)

unfoldable pub decode_step : ℕ → Bytes → Step
decode_step b bs =
    if ltb b 0x80
    then char b bs
    else if ltb b 0xC2
    then bad bs
    else if ltb b 0xE0
    then tail1 (b - 0xC0) bs
    else if ltb b 0xF0
    then second3 b bs
    else if ltb b 0xF5
    then second4 b bs
    else bad bs

-- `bytes.decode("utf-8")`: `none` is a UnicodeDecodeError. Every step takes a byte, so the number
-- of bytes is fuel enough.
unfoldable pub decode_with : ℕ → Bytes → Option (List ℕ)
unfolding decode_step
decode_with fuel [] = some []
decode_with zero (b ∷ bs) = none
decode_with (suc fuel) (b ∷ bs) = elim (decode_step b bs) [
  | bad rest ↦ none
  | char c rest ↦ elim (decode_with fuel rest) [ none ↦ none | some s ↦ some (c ∷ s) ]
]

unfoldable pub decode : Bytes → Option (List ℕ)
unfolding decode_with
decode bs = decode_with (length bs) bs

-- `bytes.decode("utf-8", errors="replace")`: U+FFFD for each maximal ill-formed prefix.
unfoldable pub decode_replace_with : ℕ → Bytes → List ℕ
unfolding decode_step
decode_replace_with fuel [] = []
decode_replace_with zero (b ∷ bs) = []
decode_replace_with (suc fuel) (b ∷ bs) = elim (decode_step b bs) [
  | bad rest ↦ 0xFFFD ∷ decode_replace_with fuel rest
  | char c rest ↦ c ∷ decode_replace_with fuel rest
]

unfoldable pub decode_replace : Bytes → List ℕ
unfolding decode_replace_with
decode_replace bs = decode_replace_with (length bs) bs
