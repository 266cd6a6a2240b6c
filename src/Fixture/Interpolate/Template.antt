-- ===== src/Fixture/Interpolate/Template.antt =====
-- Templates: text in which each dollar has a backslash in front, variables in "${" and "}", and
-- expressions in "${fn:" and "}".
use scrutineer.Fixture.Interpolate.{
  Result, ok, write, Store, write_variable, write_expression, expression_of,
}
use scrutineer.Fixture.Interpolate.Body.{Body, body_text, ValidBody}
use scrutineer.Prelude.{ℕ, ◌≡◌, false, none, List, [], ◌∷◌, ◌++◌, Str, ◌==◌, if◌then◌else◌, All}

pub data Piece : Type 0 where
  literal : Str → Piece
  variable : Str → Piece
  expression : Body → Piece

unfoldable pub escape : Str → Str
escape [] = []
escape (c ∷ s) = if c == b'$' then b'\\' ∷ c ∷ escape s else c ∷ escape s

unfoldable pub render : List Piece → Str
render [] = []
render (literal s ∷ ps) = escape s ++ render ps
render (variable ref ∷ ps) = b'$' ∷ b'{' ∷ (ref ++ b'}' ∷ render ps)
render (expression b ∷ ps) = b'$' ∷ b'{' ∷ b'f' ∷ b'n' ∷ b':' ∷ (body_text b ++ b'}' ∷ render ps)

-- The text that a template stands for, or the error of its first variable or expression that
-- has no value.
unfoldable pub denote : Store → List Piece → Result Str
denote store [] = ok []
denote store (literal s ∷ ps) = write s (denote store ps)
denote store (variable ref ∷ ps) = write_variable store ref (denote store ps)
denote store (expression b ∷ ps) = write_expression store (body_text b) (denote store ps)

abbrev pub NotBrace : ℕ → Type 0
NotBrace c = (c == b'}') ≡ false

-- A text does not end in a backslash, which would be taken with the dollar of a variable behind it.
abbrev pub EndsPlain : Str → Type 0
EndsPlain [] = Unit
EndsPlain (c ∷ []) = (c == b'\\') ≡ false
EndsPlain (c ∷ d ∷ s) = EndsPlain (d ∷ s)

-- A variable has no closing brace and does not begin with "fn:".
abbrev pub Valid : Piece → Type 0
Valid (literal s) = EndsPlain s
Valid (variable ref) = All NotBrace ref × (expression_of ref ≡ none)
Valid (expression b) = ValidBody b
