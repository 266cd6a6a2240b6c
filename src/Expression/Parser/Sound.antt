-- ===== src/Expression/Parser/Sound.antt =====
-- What the parser takes is a spelling of the expression that it gives, and it never runs out of fuel.
use scrutineer.Prelude.{
  ℕ, zero, suc, ◌≡◌, refl, ap, ◌∙◌, ◌↔◌, List, [], ◌∷◌, ◌++◌, append_assoc, append-nil, Str, codes,
  str_eq, length,
}
use mathlib.Core.Path.{subst}
use scrutineer.Expression.Syntax.{
  ident, l_paren, r_paren, comma, string, number, bool, Token, token, Expr, func_call, string_lit,
  bool_lit, var_ref, Args, no_args, arg,
}
use scrutineer.Expression.Parser.{
  Strconv, Result, ok, err, parse_number, parse_args, parse_func_call, parse_ident_or_call,
  parse_expr, parse, max_parse_depth, bind, after_arg, ParseExpr, ParseArgs, at_end,
}
use scrutineer.Expression.Parser.Grammar.{
  Spells, a_string, a_number, a_bool, a_var, a_call_of_none, a_call, SpellsArgs, last_arg,
  more_args,
}
use scrutineer.Expression.Parser.Complete.{parse-Spells}

bind-ok :
    {A B : Type 0} (r : Result A) (k : A → Result B) (b : B)
    → bind r k ≡ ok b
    → (a : A) × (r ≡ ok a) × (k a ≡ ok b)
unfolding bind
bind-ok (ok a) k b e = (a, refl, e)
bind-ok (err x) k b e = cc

module _ {F : Type 0} (lib : Strconv F) where
  -- Where a result comes from: the tokens that were taken spell it, and those behind them are left.
  abbrev pub Took : ℕ → List Token → Expr F → List Token → Type 0
  Took d tokens e rest = (ts : List Token) × (tokens ≡ ts ++ rest) × Spells lib d ts e

  abbrev TookArgs : ℕ → List Token → Args F → List Token → Type 0
  TookArgs d tokens args rest = (ts : List Token) × (tokens ≡ ts ++ rest) × SpellsArgs lib d ts args

  -- A parser that takes only spellings.
  abbrev pub Takes : ℕ → ParseExpr F → Type 0
  Takes d f =
      (tokens : List Token) (e : Expr F) (rest : List Token)
      → f tokens ≡ ok (e, rest)
      → Took d tokens e rest

  -- A parser of arguments that takes only spellings.
  abbrev TakesArgs : ℕ → ParseArgs F → Type 0
  TakesArgs d more =
      (tokens : List Token) (args : Args F) (rest : List Token)
      → more tokens ≡ ok (args, rest)
      → TookArgs d tokens args rest

at_end_empty :
    {F : Type 0} (e e' : Expr F) (rest : List Token)
    → at_end e rest ≡ ok e'
    → (rest ≡ []) × (e ≡ e')
unfolding at_end
at_end_empty e e' [] h = (refl, cc)
at_end_empty e e' (token kind v ∷ rest) h = cc

module _ {F : Type 0} {lib : Strconv F} where
  -- The round behind an argument that the tokens `ts` spell.
  round-TookArgs :
      (d : ℕ) (more : ParseArgs F)
      → TakesArgs lib d more
      → (name : Str) (ts : List Token) (a : Expr F) → Spells lib d ts a
      → (left : List Token) (args : Args F) (rest : List Token)
      → after_arg more name a left ≡ ok (args, rest)
      → TookArgs lib d (ts ++ left) args rest
  unfolding after_arg
  round-TookArgs d more takes name ts a s [] args rest e = cc
  round-TookArgs d more takes name ts a s (token r_paren v ∷ left) args rest e =
      let same_args : arg a no_args ≡ args = cc in
      let same_rest : left ≡ rest = cc in
      (
        ts ++ token r_paren v ∷ [],
        rw (append_assoc, same_rest) refl,
        rw (← same_args) (last_arg v s),
      )
  round-TookArgs d more takes name ts a s (token comma v ∷ left) args rest e =
      let ((args', left'), one, done) = bind-ok (more left) _ (args, rest) e in
      let (us, same, ss) = takes left args' left' one in
      let same_args : arg a args' ≡ args = cc in
      let same_rest : left' ≡ rest = cc in
      (
        ts ++ token comma v ∷ us,
        rw (append_assoc, same, same_rest) refl,
        rw (← same_args) (more_args v s ss),
      )
  round-TookArgs d more takes name ts a s (token ident v ∷ left) args rest e = cc
  round-TookArgs d more takes name ts a s (token string v ∷ left) args rest e = cc
  round-TookArgs d more takes name ts a s (token number v ∷ left) args rest e = cc
  round-TookArgs d more takes name ts a s (token bool v ∷ left) args rest e = cc
  round-TookArgs d more takes name ts a s (token l_paren v ∷ left) args rest e = cc

  args-TakesArgs :
      (d : ℕ) (f : ParseExpr F)
      → Takes lib d f
      → (name : Str) (fuel : ℕ) → TakesArgs lib d (parse_args f name fuel)
  unfolding parse_args
  args-TakesArgs d f takes name zero tokens args rest e = cc
  args-TakesArgs d f takes name (suc fuel) tokens args rest e =
      let ((a, left), one, more) = bind-ok (f tokens) _ (args, rest) e in
      let (ts, same, s) = takes tokens a left one in
      rw same (
        round-TookArgs d (parse_args f name fuel) (args-TakesArgs d f takes name fuel) name ts a s
          left args rest more)

  args_case :
      (d : ℕ) (f : ParseExpr F)
      → Takes lib d f
      → (name l : Str) (tokens : List Token) (e : Expr F) (rest : List Token)
      → bind {B = Expr F × List Token}
          (parse_args f name (suc (length tokens)) tokens)
          (λ (args, rest). ok (func_call name args, rest))
        ≡ ok (e, rest)
      → Took lib (suc d) (token ident name ∷ token l_paren l ∷ tokens) e rest
  args_case d f takes name l tokens e rest h =
      let ((args, left), one, done) =
        bind-ok (parse_args f name (suc (length tokens)) tokens) _ (e, rest) h in
      let (ts, same, s) =
        args-TakesArgs d f takes name (suc (length tokens)) tokens args left one in
      let same_e : func_call name args ≡ e = cc in
      let same_rest : left ≡ rest = cc in
      (
        token ident name ∷ token l_paren l ∷ ts,
        rw (same, same_rest) refl,
        rw (← same_e) (a_call name l s),
      )

  var_case :
      (d : ℕ) (name : Str) (tokens : List Token) (e : Expr F) (rest : List Token)
      → ◌≡◌ {A = Result (Expr F × List Token)} (ok (var_ref name, tokens)) (ok (e, rest))
      → Took lib (suc d) (token ident name ∷ tokens) e rest
  var_case d name tokens e rest h =
      let same_e : var_ref name ≡ e = cc in
      let same_rest : tokens ≡ rest = cc in
      (token ident name ∷ [], rw same_rest refl, rw (← same_e) (a_var name))

  -- What follows a name and an opening parenthesis.
  call-Took :
      (d : ℕ) (f : ParseExpr F)
      → Takes lib d f
      → (name l : Str) (tokens : List Token) (e : Expr F) (rest : List Token)
      → parse_func_call f name tokens ≡ ok (e, rest)
      → Took lib (suc d) (token ident name ∷ token l_paren l ∷ tokens) e rest
  unfolding parse_func_call
  call-Took d f takes name l [] e rest h = args_case d f takes name l [] e rest h
  call-Took d f takes name l (token r_paren v ∷ tokens) e rest h =
      let same_e : func_call name no_args ≡ e = cc in
      let same_rest : tokens ≡ rest = cc in
      (
        token ident name ∷ token l_paren l ∷ token r_paren v ∷ [],
        rw same_rest refl,
        rw (← same_e) (a_call_of_none name l v),
      )
  call-Took d f takes name l (token ident v ∷ tokens) e rest h =
      args_case d f takes name l _ e rest h
  call-Took d f takes name l (token l_paren v ∷ tokens) e rest h =
      args_case d f takes name l _ e rest h
  call-Took d f takes name l (token comma v ∷ tokens) e rest h =
      args_case d f takes name l _ e rest h
  call-Took d f takes name l (token string v ∷ tokens) e rest h =
      args_case d f takes name l _ e rest h
  call-Took d f takes name l (token number v ∷ tokens) e rest h =
      args_case d f takes name l _ e rest h
  call-Took d f takes name l (token bool v ∷ tokens) e rest h =
      args_case d f takes name l _ e rest h

  ident-Took :
      (d : ℕ) (f : ParseExpr F)
      → Takes lib d f
      → (name : Str) (tokens : List Token) (e : Expr F) (rest : List Token)
      → parse_ident_or_call f name tokens ≡ ok (e, rest)
      → Took lib (suc d) (token ident name ∷ tokens) e rest
  unfolding parse_ident_or_call
  ident-Took d f takes name [] e rest h = var_case d name [] e rest h
  ident-Took d f takes name (token l_paren v ∷ tokens) e rest h =
      call-Took d f takes name v tokens e rest h
  ident-Took d f takes name (token ident v ∷ tokens) e rest h = var_case d name _ e rest h
  ident-Took d f takes name (token r_paren v ∷ tokens) e rest h = var_case d name _ e rest h
  ident-Took d f takes name (token comma v ∷ tokens) e rest h = var_case d name _ e rest h
  ident-Took d f takes name (token string v ∷ tokens) e rest h = var_case d name _ e rest h
  ident-Took d f takes name (token number v ∷ tokens) e rest h = var_case d name _ e rest h
  ident-Took d f takes name (token bool v ∷ tokens) e rest h = var_case d name _ e rest h

  pub expr-Takes : (d : ℕ) → Takes lib d (parse_expr lib d)
  unfolding parse_expr
  expr-Takes zero tokens e rest h = cc
  expr-Takes (suc d) [] e rest h = cc
  expr-Takes (suc d) (token string v ∷ tokens) e rest h =
      let same_e : string_lit v ≡ e = cc in
      let same_rest : tokens ≡ rest = cc in
      (token string v ∷ [], rw same_rest refl, rw (← same_e) (a_string v))
  expr-Takes (suc d) (token bool v ∷ tokens) e rest h =
      let same_e : bool_lit (str_eq v (codes "true")) ≡ e = cc in
      let same_rest : tokens ≡ rest = cc in
      (token bool v ∷ [], rw same_rest refl, rw (← same_e) (a_bool v))
  expr-Takes (suc d) (token number v ∷ tokens) e rest h =
      let (e', one, done) = bind-ok (parse_number lib v) _ (e, rest) h in
      let same_e : e' ≡ e = cc in
      let same_rest : tokens ≡ rest = cc in
      (token number v ∷ [], rw same_rest refl, a_number v e (one ∙ ap ok same_e))
  expr-Takes (suc d) (token ident v ∷ tokens) e rest h =
      ident-Took d (parse_expr lib d) (expr-Takes d) v tokens e rest h
  expr-Takes (suc d) (token l_paren v ∷ tokens) e rest h = cc
  expr-Takes (suc d) (token r_paren v ∷ tokens) e rest h = cc
  expr-Takes (suc d) (token comma v ∷ tokens) e rest h = cc

  parse-ok_Spells :
      (tokens : List Token) (e : Expr F)
      → parse lib tokens ≡ ok e
      → Spells lib max_parse_depth tokens e
  unfolding parse
  parse-ok_Spells [] e h = cc
  parse-ok_Spells (t ∷ tokens) e h =
      let ((e', rest), one, done) = bind-ok (parse_expr lib max_parse_depth (t ∷ tokens)) _ e h in
      let (none_left, same_e) = at_end_empty e' e rest done in
      let (ts, same, s) = expr-Takes max_parse_depth (t ∷ tokens) e' rest one in
      let all : t ∷ tokens ≡ ts =
        same ∙ ap (λ (r : List Token). ts ++ r) none_left ∙ append-nil ts in
      rw all (subst (Spells lib max_parse_depth ts) same_e s)

  -- Parse gives an expression for some tokens exactly if they spell it by the grammar, nested at most
  -- 256 deep; in particular, the tokens determine the expression.
  pub parse_iff :
      (tokens : List Token) (e : Expr F)
      → (parse lib tokens ≡ ok e) ↔ Spells lib max_parse_depth tokens e
  parse_iff tokens e = (parse-ok_Spells tokens e, parse-Spells tokens e)
