-- ===== src/Expression/Parser.antt =====
-- core/expression/parser.go. The position in the tokens is the list of those that are left. The depth
-- counts down from the limit, so it is the fuel of the recursion; the loop over the arguments of one
-- call has the number of tokens left as fuel, which is enough because each round takes one.
-- strconv.ParseFloat, strconv.ParseInt and the conversion to float64 are parameters.
pub mod Grammar
pub mod Complete
pub mod Sound
pub mod Fuel
use scrutineer.Prelude.{
  ℕ, zero, suc, ◌+◌, ◌-◌, ◌*◌, ◌/◌, ◌%◌, ◌^◌, ◌≤◌, ◌<◌, ◌≡◌, refl, sym, ap, ◌∙◌, ◌≢◌, ◌↔◌, ◌⊎◌, inl,
  inr, Bool, true, false, ◌&&◌, ◌||◌, not, Option, none, some, List, [], ◌∷◌, ◌++◌, map,
  append_assoc, append-nil, arith, GoMap, lookup, insert, keys, lookup-insert, lookup-insert_self,
  Bytes, Str, codes, str_eq, str_le, str_eq_iff, str_eq_refl, range, sum, ltb, leb, ◌==◌,
  if◌then◌else◌, Bool-cases, Option-cases, length, get_elem?, get_or, set, take, drop, All,
  length-append, length-set, take-length_append, drop-length_append, length-map, ltb→lt, lt→ltb,
  ltb-false, le→ltb-false, leb→le, ==_iff,
}
use scrutineer.Expression.Syntax.{
  TokenType, ident, l_paren, r_paren, comma, string, number, bool, Token, token, Expr, func_call,
  string_lit, number_lit, bool_lit, var_ref, Args, no_args, arg,
}

abbrev pub max_parse_depth : ℕ
max_parse_depth = 256

pub data ParseError : Type 0 where
  empty_expression : ParseError
  trailing : Str → ParseError
  too_deep : ParseError
  unexpected_end : ParseError
  unexpected : Str → ParseError
  invalid_number : Str → ParseError
  unclosed_call : Str → ParseError
  bad_separator : Str → Str → ParseError
  out_of_fuel : ParseError

pub data Result (A : Type 0) : Type 0 where
  ok : A → Result A
  err : ParseError → Result A

-- if err != nil { return nil, err }
unfoldable pub bind : {A B : Type 0} → Result A → (A → Result B) → Result B
bind (ok a) k = k a
bind (err e) k = err e

-- What the parser uses of strconv: ParseFloat, ParseInt at 64 bits, and float64(v).
pub record Strconv (F : Type 0) : Type 0 where
  pub parse_float : Str → Option F
  pub parse_int : Str → Option ℕ
  pub to_float : ℕ → F

-- strings.Contains(s, "."), where the code of '.' is 46.
unfoldable pub has_dot : Str → Bool
has_dot [] = false
has_dot (c ∷ s) = (c == 46) || has_dot s

-- The parser of one expression, and that of the arguments behind a comma.
abbrev pub ParseExpr : Type 0 → Type 0
ParseExpr F = List Token → Result (Expr F × List Token)

abbrev pub ParseArgs : Type 0 → Type 0
ParseArgs F = List Token → Result (Args F × List Token)

module _ {F : Type 0} where
  -- parseNumber
  unfoldable pub parse_number : Strconv F → Str → Result (Expr F)
  parse_number lib s =
      if has_dot s
      then elim (lib.parse_float s) [
        | none ↦ err (invalid_number s)
        | some v ↦ ok (number_lit v false)
      ]
      else elim (lib.parse_int s) [
        | none ↦ err (invalid_number s)
        | some v ↦ ok (number_lit (lib.to_float v) true)
      ]

  -- One round of the loop in parseFuncCall, behind the argument `a`.
  unfoldable pub after_arg : ParseArgs F → Str → Expr F → List Token → Result (Args F × List Token)
  after_arg more name a [] = err (unclosed_call name)
  after_arg more name a (token r_paren v ∷ rest) = ok (arg a no_args, rest)
  after_arg more name a (token comma v ∷ rest) =
      bind (more rest) (λ (args, rest'). ok (arg a args, rest'))
  after_arg more name a (token kind v ∷ rest) = err (bad_separator name v)

  -- The arguments of parseFuncCall from the first one on, and the closing parenthesis.
  unfoldable pub parse_args : ParseExpr F → Str → ℕ → ParseArgs F
  parse_args f name zero tokens = err out_of_fuel
  parse_args f name (suc fuel) tokens =
      bind (f tokens) (λ (a, rest). after_arg (parse_args f name fuel) name a rest)

  -- parseFuncCall behind the opening parenthesis.
  unfoldable pub parse_func_call : ParseExpr F → Str → ParseExpr F
  parse_func_call f name (token r_paren v ∷ rest) = ok (func_call name no_args, rest)
  parse_func_call f name tokens =
      bind (parse_args f name (suc (length tokens)) tokens)
        (λ (args, rest). ok (func_call name args, rest))

  -- parseIdentOrCall behind the identifier.
  unfoldable pub parse_ident_or_call : ParseExpr F → Str → ParseExpr F
  parse_ident_or_call f name (token l_paren v ∷ rest) = parse_func_call f name rest
  parse_ident_or_call f name rest = ok (var_ref name, rest)

  -- parseExpr, with the depth that is left.
  unfoldable pub parse_expr : Strconv F → ℕ → List Token → Result (Expr F × List Token)
  parse_expr lib zero tokens = err too_deep
  parse_expr lib (suc depth) [] = err unexpected_end
  parse_expr lib (suc depth) (token string v ∷ rest) = ok (string_lit v, rest)
  parse_expr lib (suc depth) (token number v ∷ rest) = bind (parse_number lib v) (λ e. ok (e, rest))
  parse_expr lib (suc depth) (token bool v ∷ rest) = ok (bool_lit (str_eq v (codes "true")), rest)
  parse_expr lib (suc depth) (token ident v ∷ rest) =
      parse_ident_or_call (parse_expr lib depth) v rest
  parse_expr lib (suc depth) (token kind v ∷ rest) = err (unexpected v)

  -- The end of Parse: nothing may be left.
  unfoldable pub at_end : Expr F → List Token → Result (Expr F)
  at_end e [] = ok e
  at_end e (token kind v ∷ rest) = err (trailing v)

  -- Parse
  unfoldable pub parse : Strconv F → List Token → Result (Expr F)
  parse lib [] = err empty_expression
  parse lib (t ∷ tokens) =
      bind (parse_expr lib max_parse_depth (t ∷ tokens)) (λ (e, rest). at_end e rest)
