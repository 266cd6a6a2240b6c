-- ===== src/Expression/Tests.antt =====
-- An expression with nested calls, its parse, and the theorems there.
use scrutineer.Prelude.{
  ℕ, ◌+◌, ◌≡◌, refl, ◌≢◌, ◌↔◌, inr, true, ◌&&◌, ◌||◌, none, some, List, [], ◌∷◌, map, arith, GoMap,
  codes, str_eq, sum, leb, ◌==◌, if◌then◌else◌, length,
}
use scrutineer.Expression.Evaluator.{Values, Func, eval, max_eval_depth}
use scrutineer.Expression.Evaluator.Depth.{denote, eval_parsed}
use scrutineer.Expression.Syntax.{
  ident, l_paren, r_paren, comma, number, bool, Token, token, Expr, func_call, number_lit, var_ref,
  no_args, arg,
}
use scrutineer.Expression.Parser.{
  out_of_fuel, Strconv, ok, err, unclosed_call, bind, after_arg, parse_args, parse_func_call,
  parse_ident_or_call, parse_expr, parse_number, has_dot, at_end, parse, max_parse_depth,
}
use scrutineer.Expression.Lexer
use scrutineer.Expression.Lexer.{Unicode, is_digit, tokenize}
use scrutineer.Expression.Lexer.Print.{
  Tables, Lexeme, open_paren, close_paren, separator, quoted, decimal, name, token_of, print,
}
use scrutineer.Expression.Lexer.RoundTrip.{tokenize-print}
use scrutineer.Expression.Parser.Grammar.{Spells}
use scrutineer.Expression.Parser.Sound.{parse_iff}
use scrutineer.Expression.Parser.Fuel.{parse_has_fuel}

-- The one number here is 7, and a float64 is given by the integer that it stands for.
abbrev lib : Strconv ℕ
lib = record {
  parse_float = λ s. none;
  parse_int = λ s. if str_eq s (codes "7") then some 7 else none;
  to_float = λ v. v;
}

-- add(7, user.age)
abbrev tokens : List Token
tokens =
    token ident (codes "add")
    ∷ token l_paren []
    ∷ token number (codes "7")
    ∷ token comma []
    ∷ token ident (codes "user.age")
    ∷ token r_paren []
    ∷ []

abbrev tree : Expr ℕ
tree = func_call (codes "add") (arg (number_lit 7 true) (arg (var_ref (codes "user.age")) no_args))

parsed : parse lib tokens ≡ ok tree
unfolding parse parse_expr parse_ident_or_call parse_func_call parse_args after_arg bind at_end
    parse_number has_dot str_eq
parsed = refl

unclosed :
    parse lib (token ident (codes "f") ∷ token l_paren [] ∷ token bool [] ∷ [])
    ≡ err (unclosed_call (codes "f"))
unfolding parse parse_expr parse_ident_or_call parse_func_call parse_args after_arg bind at_end
    parse_number has_dot str_eq
unclosed = refl

parse_iff_example : (parse lib tokens ≡ ok tree) ↔ Spells lib max_parse_depth tokens tree
parse_iff_example = parse_iff tokens tree

-- Values are numbers; a reference is 35 and a text is its length.
abbrev values : Values ℕ ℕ ℕ
values = record {
  of_string = λ s. length s;
  of_float = λ v. v;
  of_int = λ v. v;
  of_bool = λ b. if b then 1 else 0;
  resolve = λ path w. (some 35, w);
}

abbrev funcs : GoMap (Func ℕ ℕ)
funcs = (codes "add", λ args w. (inr (sum args), w + 1)) ∷ []

eval_parsed_example : eval values funcs max_eval_depth tree 0 ≡ denote values funcs tree 0
eval_parsed_example = eval_parsed values funcs lib tokens tree parsed 0

parse_has_fuel_example : parse lib tokens ≢ err out_of_fuel
parse_has_fuel_example = parse_has_fuel lib tokens

-- The tables of ASCII.
abbrev ascii : Unicode
ascii = record {
  is_letter = λ r. (leb b'A' r && leb r b'Z') || (leb b'a' r && leb r b'z');
  is_number = λ r. is_digit r;
  is_space = λ r. (r == b' ') || (leb 9 r && leb r 13);
}

ascii-Tables : Tables ascii
ascii-Tables = record {
  ascii_letter = λ r h. refl;
  ascii_number = λ r h. refl;
  ascii_space = λ r h. refl;
  letter_or_space = λ r h. ground (arith, h);
}

-- add ( -7.5 , 'a"b' )
abbrev lexemes : List Lexeme
lexemes =
    name b'a' (codes "dd")
    ∷ open_paren
    ∷ decimal true b'7' [] b'5' []
    ∷ separator
    ∷ quoted (codes "a\"b")
    ∷ close_paren
    ∷ []

tokenize-print_example : tokenize ascii (print lexemes) ≡ Lexer.ok (map token_of lexemes)
tokenize-print_example =
    tokenize-print ascii ascii-Tables lexemes
      ((refl, (refl, (refl, tt))), (tt, ((refl, tt, refl, tt), (tt, (tt, (tt, tt))))))
