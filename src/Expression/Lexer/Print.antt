-- ===== src/Expression/Lexer/Print.antt =====
-- Tokens by their parts, printed with a space behind each.
use scrutineer.Expression.Syntax.{Token, token, l_paren, r_paren, comma, string, number}
use scrutineer.Expression.Lexer.{Unicode, is_digit, word, is_ident_start, is_ident_part}
use scrutineer.Prelude.{
  ℕ, ◌<◌, ◌≡◌, Bool, true, false, ◌&&◌, ◌||◌, List, [], ◌∷◌, ◌++◌, Str, codes, leb, ◌==◌,
  if◌then◌else◌, All,
}

-- What the tables say of ASCII; no letter is a space.
pub record Tables (u : Unicode) : Type 0 where
  pub ascii_letter :
      (r : ℕ) → r < 128 → u.is_letter r ≡ ((leb b'A' r && leb r b'Z') || (leb b'a' r && leb r b'z'))
  pub ascii_number : (r : ℕ) → r < 128 → u.is_number r ≡ is_digit r
  pub ascii_space : (r : ℕ) → r < 128 → u.is_space r ≡ ((r == b' ') || (leb 9 r && leb r 13))
  pub letter_or_space : (r : ℕ) → u.is_letter r ≡ true → u.is_space r ≡ false

-- A token by its parts; a decimal has its sign, its digits and those behind the dot, each with the
-- first one apart.
pub data Lexeme : Type 0 where
  open_paren close_paren separator : Lexeme
  quoted : Str → Lexeme
  whole : Bool → ℕ → Str → Lexeme
  decimal : Bool → ℕ → Str → ℕ → Str → Lexeme
  name : ℕ → Str → Lexeme

abbrev pub sign : Bool → Str
sign true = codes "-"
sign false = []

unfoldable pub token_of : Lexeme → Token
token_of open_paren = token l_paren (codes "(")
token_of close_paren = token r_paren (codes ")")
token_of separator = token comma (codes ",")
token_of (quoted v) = token string v
token_of (whole neg d ds) = token number (sign neg ++ d ∷ ds)
token_of (decimal neg d ds e es) = token number (((sign neg ++ d ∷ ds) ++ b'.' ∷ []) ++ e ∷ es)
token_of (name c s) = word (c ∷ s)

unfoldable pub escape : Str → Str
escape [] = []
escape (c ∷ v) = if (c == b'"') || (c == b'\\') then b'\\' ∷ c ∷ escape v else c ∷ escape v

-- The text of a token in front of `rest`.
unfoldable pub print_token : Lexeme → Str → Str
print_token open_paren rest = b'(' ∷ rest
print_token close_paren rest = b')' ∷ rest
print_token separator rest = b',' ∷ rest
print_token (quoted v) rest = b'"' ∷ (escape v ++ b'"' ∷ rest)
print_token (whole neg d ds) rest = sign neg ++ (d ∷ (ds ++ rest))
print_token (decimal neg d ds e es) rest = sign neg ++ (d ∷ (ds ++ (b'.' ∷ e ∷ (es ++ rest))))
print_token (name c s) rest = c ∷ (s ++ rest)

unfoldable pub print : List Lexeme → Str
print [] = []
print (x ∷ xs) = print_token x (b' ' ∷ print xs)

abbrev pub Digit : ℕ → Type 0
Digit r = is_digit r ≡ true

abbrev pub WellFormed : Unicode → Lexeme → Type 0
WellFormed u (whole neg d ds) = Digit d × All Digit ds
WellFormed u (decimal neg d ds e es) = Digit d × All Digit ds × Digit e × All Digit es
WellFormed u (name c s) = (is_ident_start u c ≡ true) × All (λ r. is_ident_part u r ≡ true) s
WellFormed u x = Unit
