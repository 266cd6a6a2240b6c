-- ===== src/Expression/Lexer.antt =====
-- core/expression/lexer.go. The position in the input is the list of the runes that are left; a text is
-- a list of runes here. The tables of the package unicode are parameters. An error has no position.
pub mod Print
pub mod Reading
pub mod RoundTrip
pub mod Fuel
use scrutineer.Expression.Syntax.{
  Token, token, ident, l_paren, r_paren, comma, string, number, bool,
}
use scrutineer.Prelude.{
  ℕ, zero, suc, ◌+◌, ◌-◌, ◌*◌, ◌/◌, ◌%◌, ◌^◌, ◌≤◌, ◌<◌, ◌≡◌, refl, sym, ap, ◌∙◌, ◌≢◌, ◌↔◌, ◌⊎◌, inl,
  inr, Bool, true, false, ◌&&◌, ◌||◌, not, Option, none, some, List, [], ◌∷◌, ◌++◌, map,
  append_assoc, append-nil, arith, GoMap, lookup, insert, keys, lookup-insert, lookup-insert_self,
  Bytes, Str, codes, str_eq, str_le, str_eq_iff, str_eq_refl, range, sum, ltb, leb, ◌==◌,
  if◌then◌else◌, Bool-cases, Option-cases, length, get_elem?, get_or, set, take, drop, All,
  length-append, length-set, take-length_append, drop-length_append, length-map, ltb→lt, lt→ltb,
  ltb-false, le→ltb-false, leb→le, ==_iff,
}

pub data LexError : Type 0 where
  unexpected_character : ℕ → LexError
  unterminated_string : LexError
  invalid_number : LexError

pub data Lexed (A : Type 0) : Type 0 where
  ok : A → Lexed A
  err : LexError → Lexed A
  out_of_fuel : Lexed A

-- IsLetter, IsDigit and IsSpace of the package unicode.
pub record Unicode : Type 0 where
  pub is_letter : ℕ → Bool
  pub is_number : ℕ → Bool
  pub is_space : ℕ → Bool

-- isDigit
abbrev pub is_digit : ℕ → Bool
is_digit r = leb b'0' r && leb r b'9'

abbrev pub is_quote : ℕ → Bool
is_quote r = (r == b'"') || (r == b'\'')

abbrev pub is_escape : ℕ → ℕ → ℕ → Bool
is_escape quote ch next = (ch == b'\\') && ((next == quote) || (next == b'\\'))

abbrev pub push : ℕ → Option (Str × Str) → Option (Str × Str)
push c none = none
push c (some (value, rest)) = some (c ∷ value, rest)

-- The loop of readString, behind the opening quote; `none` is an unterminated string.
unfoldable pub read_string : ℕ → Str → Option (Str × Str)
read_string quote [] = none
read_string quote (ch ∷ []) = if ch == quote then some ([], []) else none
read_string quote (ch ∷ next ∷ s) = elim (is_escape quote ch next) [
  | true ↦ push next (read_string quote s)
  | false ↦ elim (ch == quote) [
    | true ↦ some ([], next ∷ s)
    | false ↦ push ch (read_string quote (next ∷ s))
  ]
]

-- The runes from the position on that pass a test, and those behind.
unfoldable pub span : (ℕ → Bool) → Str → Str × Str
span p [] = ([], [])
span p (c ∷ s) = elim (p c) [
  | true ↦ let (taken, rest) = span p s in (c ∷ taken, rest)
  | false ↦ ([], c ∷ s)
]

-- The part of readNumber behind a dot; `value` is what was read before.
abbrev pub fraction_read : Str → Str × Str → Option (Str × Str)
fraction_read value ([], rest) = none
fraction_read value (d ∷ ds, rest) = some (value ++ d ∷ ds, rest)

unfoldable pub read_fraction : Str → Str → Option (Str × Str)
read_fraction value s = fraction_read value (span is_digit s)

-- The part of readNumber behind the digits.
unfoldable pub after_digits : Str → Str → Option (Str × Str)
after_digits value [] = some (value, [])
after_digits value (c ∷ s) =
    if c == b'.' then read_fraction (value ++ c ∷ []) s else some (value, c ∷ s)

-- The part of readNumber behind the sign.
abbrev pub digits_read : Str → Str × Str → Option (Str × Str)
digits_read sign ([], rest) = none
digits_read sign (d ∷ ds, rest) = after_digits (sign ++ d ∷ ds) rest

unfoldable pub read_digits : Str → Str → Option (Str × Str)
read_digits sign s = digits_read sign (span is_digit s)

-- readNumber
unfoldable pub read_number : Str → Option (Str × Str)
read_number [] = none
read_number (c ∷ s) = if c == b'-' then read_digits (c ∷ []) s else read_digits [] (c ∷ s)

unfoldable pub cons_token : Token → Lexed (List Token) → Lexed (List Token)
cons_token t (ok ts) = ok (t ∷ ts)
cons_token t (err e) = err e
cons_token t out_of_fuel = out_of_fuel

-- The token of an identifier.
unfoldable pub word : Str → Token
word value =
    if str_eq value (codes "true") || str_eq value (codes "false")
    then token bool value
    else token ident value

module _ (u : Unicode) where
  abbrev pub is_ident_start : ℕ → Bool
  is_ident_start r = u.is_letter r || (r == b'_')

  abbrev pub is_ident_part : ℕ → Bool
  is_ident_part r = u.is_letter r || (u.is_number r || ((r == b'_') || (r == b'.')))

  -- Tokenize; each round of its loop takes a unit of fuel, and so does each space.
  unfoldable pub tokenize_from : ℕ → Str → Lexed (List Token)
  tokenize_from zero s = out_of_fuel
  tokenize_from (suc f) [] = ok []
  tokenize_from (suc f) (ch ∷ s) = elim (u.is_space ch) [
    | true ↦ tokenize_from f s
    | false ↦ elim (ch == b'(') [
      | true ↦ cons_token (token l_paren (codes "(")) (tokenize_from f s)
      | false ↦ elim (ch == b')') [
        | true ↦ cons_token (token r_paren (codes ")")) (tokenize_from f s)
        | false ↦ elim (ch == b',') [
          | true ↦ cons_token (token comma (codes ",")) (tokenize_from f s)
          | false ↦ elim (is_quote ch) [
            | true ↦ elim (read_string ch s) [
              | none ↦ err unterminated_string
              | some (value, rest) ↦ cons_token (token string value) (tokenize_from f rest)
            ]
            | false ↦ elim ((ch == b'-') || is_digit ch) [
              | true ↦ elim (read_number (ch ∷ s)) [
                | none ↦ err invalid_number
                | some (value, rest) ↦ cons_token (token number value) (tokenize_from f rest)
              ]
              | false ↦ elim (is_ident_start ch) [
                | true ↦
                    let (value, rest) = span is_ident_part (ch ∷ s) in
                    cons_token (word value) (tokenize_from f rest)
                | false ↦ err (unexpected_character ch)
              ]
            ]
          ]
        ]
      ]
    ]
  ]

  unfoldable pub tokenize : Str → Lexed (List Token)
  tokenize s = tokenize_from (suc (length s)) s
