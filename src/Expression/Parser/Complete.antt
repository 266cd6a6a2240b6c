-- ===== src/Expression/Parser/Complete.antt =====
-- The parser takes every spelling of an expression.
use scrutineer.Prelude.{
  ℕ, zero, suc, ◌<◌, ◌≡◌, refl, List, [], ◌∷◌, ◌++◌, append_assoc, append-nil, arith, Str, length,
  length-append,
}
use scrutineer.Expression.Syntax.{
  ident, l_paren, r_paren, comma, string, number, bool, Token, token, Expr, func_call, var_ref,
  Args,
}
use scrutineer.Expression.Parser.{
  Strconv, Result, ok, bind, after_arg, parse_args, parse_func_call, parse_ident_or_call,
  parse_expr, parse, max_parse_depth, at_end,
}
use scrutineer.Expression.Parser.Grammar.{
  Spells, a_string, a_number, a_bool, a_var, a_call_of_none, a_call, SpellsArgs, last_arg,
  more_args,
}

-- The tokens do not go on with an opening parenthesis, which would turn a variable into a call.
abbrev pub NoCall : List Token → Type 0
NoCall [] = Unit
NoCall (token l_paren v ∷ rest) = ⊥
NoCall (token kind v ∷ rest) = Unit

none_below : {n : ℕ} → n < 0 → ⊥
none_below h = omega arith

-- The tokens that an expression can start with.
abbrev Starts : List Token → Type 0
Starts (token ident v ∷ rest) = Unit
Starts (token string v ∷ rest) = Unit
Starts (token number v ∷ rest) = Unit
Starts (token bool v ∷ rest) = Unit
Starts tokens = ⊥

module _ {F : Type 0} where
  -- Arguments do not start with a closing parenthesis, so the empty list of a call is not theirs.
  func_call_args :
      (f : List Token → Result (Expr F × List Token)) (name : Str) (tokens : List Token)
      (args : Args F)
      → (rest : List Token) → Starts tokens
      → parse_args f name (suc (length tokens)) tokens ≡ ok (args, rest)
      → parse_func_call f name tokens ≡ ok (func_call name args, rest)
  unfolding parse_func_call bind
  func_call_args f name [] args rest h e = elim h [ ]
  func_call_args f name (token ident v ∷ ts) args rest h e = rw (e, bind) refl
  func_call_args f name (token string v ∷ ts) args rest h e = rw (e, bind) refl
  func_call_args f name (token number v ∷ ts) args rest h e = rw (e, bind) refl
  func_call_args f name (token bool v ∷ ts) args rest h e = rw (e, bind) refl
  func_call_args f name (token l_paren v ∷ ts) args rest h e = elim h [ ]
  func_call_args f name (token r_paren v ∷ ts) args rest h e = elim h [ ]
  func_call_args f name (token comma v ∷ ts) args rest h e = elim h [ ]

  ident_alone :
      (f : List Token → Result (Expr F × List Token)) (v : Str) (rest : List Token)
      → NoCall rest
      → parse_ident_or_call f v rest ≡ ok (var_ref v, rest)
  unfolding parse_ident_or_call
  ident_alone f v [] n = refl
  ident_alone f v (token ident w ∷ rest) n = refl
  ident_alone f v (token l_paren w ∷ rest) n = elim n [ ]
  ident_alone f v (token r_paren w ∷ rest) n = refl
  ident_alone f v (token comma w ∷ rest) n = refl
  ident_alone f v (token string w ∷ rest) n = refl
  ident_alone f v (token number w ∷ rest) n = refl
  ident_alone f v (token bool w ∷ rest) n = refl

module _ {F : Type 0} {lib : Strconv F} where
  spelling-Starts :
      {d : ℕ} {ts : List Token} {e : Expr F}
      → Spells lib d ts e
      → (rest : List Token) → Starts (ts ++ rest)
  spelling-Starts (a_string v) rest = tt
  spelling-Starts (a_number v e h) rest = tt
  spelling-Starts (a_bool v) rest = tt
  spelling-Starts (a_var v) rest = tt
  spelling-Starts (a_call_of_none v l r) rest = tt
  spelling-Starts (a_call v l args) rest = tt

  args-Starts :
      {d : ℕ} {ts : List Token} {args : Args F}
      → SpellsArgs lib d ts args
      → (rest : List Token) → Starts (ts ++ rest)
  args-Starts (last_arg r s) rest = rw append_assoc (spelling-Starts s (token r_paren r ∷ rest))
  args-Starts (more_args {us = us} c s args) rest =
      rw append_assoc (spelling-Starts s (token comma c ∷ us ++ rest))

  mutual
    unfolding parse_expr parse_ident_or_call parse_args parse_func_call bind after_arg

    parse_expr-Spells :
        {d : ℕ} {ts : List Token} {e : Expr F}
        → Spells lib d ts e
        → (rest : List Token) → NoCall rest
        → parse_expr lib d (ts ++ rest) ≡ ok (e, rest)
    parse_expr-Spells (a_string v) rest n = refl
    parse_expr-Spells (a_number v e h) rest n = rw (h, bind) refl
    parse_expr-Spells (a_bool v) rest n = refl
    parse_expr-Spells (a_var {d = d} v) rest n = ident_alone (parse_expr lib d) v rest n
    parse_expr-Spells (a_call_of_none v l r) rest n = refl
    parse_expr-Spells (a_call {d = d} v l {ts = ts} args) rest n =
        func_call_args (parse_expr lib d) v (ts ++ rest) _ rest (args-Starts args rest) (
          parse_args-Spells args rest v (suc (length (ts ++ rest)))
            (omega (arith, length-append ts rest)))

    parse_args-Spells :
        {d : ℕ} {ts : List Token} {args : Args F}
        → SpellsArgs lib d ts args
        → (rest : List Token) → (name : Str) (fuel : ℕ) → length ts < fuel
        → parse_args (parse_expr lib d) name fuel (ts ++ rest) ≡ ok (args, rest)
    parse_args-Spells s rest name zero few = elim (none_below few) [ ]
    parse_args-Spells (last_arg {ts = ts} r s) rest name (suc fuel) few =
        rw (append_assoc, parse_expr-Spells s (token r_paren r ∷ rest) tt, bind) refl
    parse_args-Spells (more_args {d = d} {ts = ts} {us = us} c s args) rest name (suc fuel) few =
        let less : length us < fuel = omega (arith, length-append ts (token comma c ∷ us)) in
        rw (append_assoc, parse_expr-Spells s (token comma c ∷ us ++ rest) tt, bind)
          (rw (parse_args-Spells args rest name fuel less, bind) refl)

  -- What spells an expression, nested at most 256 deep, is parsed as that expression.
  pub parse-Spells :
      (ts : List Token) (e : Expr F) → Spells lib max_parse_depth ts e → parse lib ts ≡ ok e
  unfolding parse bind at_end
  parse-Spells [] e s = elim (spelling-Starts s []) [ ]
  parse-Spells (t ∷ ts) e s =
      let e' : parse_expr lib max_parse_depth (t ∷ ts) ≡ ok (e, []) =
        rw append-nil at (parse_expr-Spells s [] tt) in
      rw (e', bind) refl
