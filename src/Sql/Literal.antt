-- ===== src/Sql/Literal.antt =====
-- String literals of SQLite, and that an escaped value is one of them.
use ksqlite.Prelude.{
  ℕ, ◌≡◌, refl, ap, false, Option, none, some, [], ◌∷◌, ◌++◌, ◌∙◌, ==_iff, ◌==◌, if◌then◌else◌,
  Bool-cases, inl, inr, append_assoc,
}
use ksqlite.Text.{Text}
use ksqlite.Sql.{double_quotes, escape_string_literal}

abbrev prepend : ℕ → Option (Text × Text) → Option (Text × Text)
prepend c none = none
prepend c (some (value, rest)) = some (c ∷ value, rest)

-- The inside of a literal and what follows its closing quote: SQLite reads two quotes as one.
unfoldable pub read_inside : Text → Option (Text × Text)
read_inside [] = none
read_inside (c ∷ []) = if c == 39 then some ([], []) else none
read_inside (c ∷ d ∷ s) =
    let inside = read_inside s in
    let after_first = read_inside (d ∷ s) in
    if c == 39
    then if d == 39 then prepend 39 inside else some ([], d ∷ s)
    else prepend c after_first

-- A literal at the start of a text.
unfoldable pub read_literal : Text → Option (Text × Text)
unfolding read_inside
read_literal [] = none
read_literal (c ∷ s) = if c == 39 then read_inside s else none

-- What follows a literal is no quote.
abbrev pub IsNoQuote : Text → Type 0
IsNoQuote [] = Unit
IsNoQuote (c ∷ s) = (c == 39) ≡ false

-- A character that is no quote stands for itself, and two quotes for one.
read_inside-plain :
    (c : ℕ) (s value rest : Text)
    → (c == 39) ≡ false
    → read_inside s ≡ some (value, rest)
    → read_inside (c ∷ s) ≡ some (c ∷ value, rest)
unfolding read_inside
read_inside-plain c [] value rest n h = cc h
read_inside-plain c (d ∷ s) value rest n h = rw n (rw h refl)

read_inside-doubled :
    (s value rest : Text)
    → read_inside s ≡ some (value, rest)
    → read_inside (39 ∷ 39 ∷ s) ≡ some (39 ∷ value, rest)
unfolding read_inside
read_inside-doubled s value rest h = rw h refl

read_inside-double_quotes :
    (value rest : Text)
    → IsNoQuote rest
    → read_inside (double_quotes value ++ 39 ∷ rest) ≡ some (value, rest)
unfolding double_quotes read_inside
read_inside-double_quotes [] [] h = refl
read_inside-double_quotes [] (c ∷ rest) h = rw h refl
read_inside-double_quotes (c ∷ value) rest h = elim (Bool-cases (c == 39)) [
  | inl quote ↦ rw quote (
      rw ((==_iff c 39).0 quote) (
        read_inside-doubled (double_quotes value ++ 39 ∷ rest) value rest
          (read_inside-double_quotes value rest h)))
  | inr plain ↦ rw plain (
      read_inside-plain c (double_quotes value ++ 39 ∷ rest) value rest plain
        (read_inside-double_quotes value rest h))
]

-- Whatever the value is, SQLite reads its escaped literal back as that value, and ends it where it
-- ends: no text inside can close it.
pub read_literal-escape :
    (value rest : Text)
    → IsNoQuote rest
    → read_literal (escape_string_literal value ++ rest) ≡ some (value, rest)
unfolding read_literal escape_string_literal
read_literal-escape value rest h =
    ap read_inside (append_assoc (double_quotes value) (39 ∷ []) rest)
    ∙ read_inside-double_quotes value rest h
