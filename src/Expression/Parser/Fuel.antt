-- ===== src/Expression/Parser/Fuel.antt =====
-- The loop over the arguments of a call always has fuel enough.
use scrutineer.Prelude.{
  ℕ, zero, suc, ◌+◌, ◌<◌, ◌≡◌, refl, ap, ◌∙◌, ◌≢◌, ◌⊎◌, inl, inr, List, [], ◌∷◌, arith, Str,
  Bool-cases, Option-cases, length, length-append,
}
use scrutineer.Expression.Syntax.{
  ident, l_paren, r_paren, comma, string, number, bool, Token, token, Expr,
}
use scrutineer.Expression.Parser.{
  Strconv, Result, ok, err, ParseError, out_of_fuel, bind, has_dot, parse_number, after_arg,
  parse_args, parse_func_call, parse_ident_or_call, parse_expr, parse, at_end, ParseExpr, ParseArgs,
  max_parse_depth,
}
use scrutineer.Expression.Parser.Grammar.{
  Spells, a_string, a_number, a_bool, a_var, a_call_of_none, a_call,
}
use scrutineer.Expression.Parser.Sound.{Takes, expr-Takes}

bind-err :
    {A B : Type 0} (r : Result A) (k : A → Result B) (x : ParseError)
    → bind r k ≡ err x
    → (r ≡ err x) ⊎ ((a : A) × (r ≡ ok a) × (k a ≡ err x))
unfolding bind
bind-err (ok a) k x e = inr (a, refl, e)
bind-err (err y) k x e = inl cc

none_below : {n : ℕ} → n < 0 → ⊥
none_below h = omega arith

module _ {F : Type 0} where
  -- A round behind an argument has fuel if the next one has.
  round_fuel :
      (more : ParseArgs F) (name : Str) (a : Expr F) (left : List Token)
      → ((rest : List Token) → length rest < length left → more rest ≢ err out_of_fuel)
      → after_arg more name a left ≢ err out_of_fuel
  unfolding after_arg
  round_fuel more name a [] h = λ e. cc
  round_fuel more name a (token r_paren v ∷ rest) h = λ e. cc
  round_fuel more name a (token comma v ∷ rest) h = λ e.
      elim (bind-err (more rest) _ out_of_fuel e) [
        | inl x ↦ h rest (omega arith) x
        | inr (y, one, x) ↦ cc
      ]
  round_fuel more name a (token ident v ∷ rest) h = λ e. cc
  round_fuel more name a (token string v ∷ rest) h = λ e. cc
  round_fuel more name a (token number v ∷ rest) h = λ e. cc
  round_fuel more name a (token bool v ∷ rest) h = λ e. cc
  round_fuel more name a (token l_paren v ∷ rest) h = λ e. cc

  end_fuel : (e : Expr F) (rest : List Token) → at_end e rest ≢ err out_of_fuel
  unfolding at_end
  end_fuel e [] = λ h. cc
  end_fuel e (token kind v ∷ rest) = λ h. cc

module _ {F : Type 0} {lib : Strconv F} where
  spelling_size : {d : ℕ} {ts : List Token} {e : Expr F} → Spells lib d ts e → 0 < length ts
  spelling_size (a_string v) = omega arith
  spelling_size (a_number v e h) = omega arith
  spelling_size (a_bool v) = omega arith
  spelling_size (a_var v) = omega arith
  spelling_size (a_call_of_none v l r) = omega arith
  spelling_size (a_call v l s) = omega arith

  args_fuel :
      (d : ℕ) (f : ParseExpr F)
      → Takes lib d f
      → ((tokens : List Token) → f tokens ≢ err out_of_fuel)
      → (name : Str) (fuel : ℕ) (tokens : List Token) → length tokens < fuel
      → parse_args f name fuel tokens ≢ err out_of_fuel
  unfolding parse_args
  args_fuel d f takes fine name zero tokens few = elim (none_below few) [ ]
  args_fuel d f takes fine name (suc fuel) tokens few = λ e.
      elim (bind-err (f tokens) _ out_of_fuel e) [
        | inl x ↦ fine tokens x
        | inr ((a, left), one, x) ↦
            let (ts, same, s) = takes tokens a left one in
            let size : length tokens ≡ length ts + length left =
              ap length same ∙ length-append ts left in
            let shorter : length left < length tokens = omega (arith, size, spelling_size s) in
            round_fuel (parse_args f name fuel) name a left
              (λ rest less.
                args_fuel d f takes fine name fuel rest (omega (arith, less, shorter, few)))
              x
      ]

  call_fuel :
      (d : ℕ) (f : ParseExpr F)
      → Takes lib d f
      → ((tokens : List Token) → f tokens ≢ err out_of_fuel)
      → (name : Str) (tokens : List Token)
      → bind {B = Expr F × List Token}
          (parse_args f name (suc (length tokens)) tokens)
          (λ (args, rest). ok (Expr.func_call name args, rest))
        ≢ err out_of_fuel
  call_fuel d f takes fine name tokens = λ e.
      elim (bind-err (parse_args f name (suc (length tokens)) tokens) _ out_of_fuel e) [
        | inl x ↦ args_fuel d f takes fine name (suc (length tokens)) tokens (omega arith) x
        | inr (y, one, x) ↦ cc
      ]

  func_call_fuel :
      (d : ℕ) (f : ParseExpr F)
      → Takes lib d f
      → ((tokens : List Token) → f tokens ≢ err out_of_fuel)
      → (name : Str) (tokens : List Token) → parse_func_call f name tokens ≢ err out_of_fuel
  unfolding parse_func_call
  func_call_fuel d f takes fine name [] = call_fuel d f takes fine name []
  func_call_fuel d f takes fine name (token r_paren v ∷ ts) = λ e. cc
  func_call_fuel d f takes fine name (token ident v ∷ ts) = call_fuel d f takes fine name _
  func_call_fuel d f takes fine name (token l_paren v ∷ ts) = call_fuel d f takes fine name _
  func_call_fuel d f takes fine name (token comma v ∷ ts) = call_fuel d f takes fine name _
  func_call_fuel d f takes fine name (token string v ∷ ts) = call_fuel d f takes fine name _
  func_call_fuel d f takes fine name (token number v ∷ ts) = call_fuel d f takes fine name _
  func_call_fuel d f takes fine name (token bool v ∷ ts) = call_fuel d f takes fine name _

  ident_fuel :
      (d : ℕ) (f : ParseExpr F)
      → Takes lib d f
      → ((tokens : List Token) → f tokens ≢ err out_of_fuel)
      → (name : Str) (tokens : List Token) → parse_ident_or_call f name tokens ≢ err out_of_fuel
  unfolding parse_ident_or_call
  ident_fuel d f takes fine name [] = λ e. cc
  ident_fuel d f takes fine name (token l_paren v ∷ ts) = func_call_fuel d f takes fine name ts
  ident_fuel d f takes fine name (token r_paren v ∷ ts) = λ e. cc
  ident_fuel d f takes fine name (token ident v ∷ ts) = λ e. cc
  ident_fuel d f takes fine name (token comma v ∷ ts) = λ e. cc
  ident_fuel d f takes fine name (token string v ∷ ts) = λ e. cc
  ident_fuel d f takes fine name (token number v ∷ ts) = λ e. cc
  ident_fuel d f takes fine name (token bool v ∷ ts) = λ e. cc

module _ {F : Type 0} (lib : Strconv F) where
  number_fuel : (v : Str) → parse_number lib v ≢ err out_of_fuel
  unfolding parse_number
  number_fuel v = λ e. elim (Bool-cases (has_dot v)) [
    | inl y ↦ elim (Option-cases (lib.parse_float v)) [
      | inl n ↦ cc (e, y, n)
      | inr (x, n) ↦ cc (e, y, n)
    ]
    | inr y ↦ elim (Option-cases (lib.parse_int v)) [
      | inl n ↦ cc (e, y, n)
      | inr (x, n) ↦ cc (e, y, n)
    ]
  ]

  expr_fuel : (d : ℕ) (tokens : List Token) → parse_expr lib d tokens ≢ err out_of_fuel
  unfolding parse_expr
  expr_fuel zero tokens = λ e. cc
  expr_fuel (suc d) [] = λ e. cc
  expr_fuel (suc d) (token string v ∷ ts) = λ e. cc
  expr_fuel (suc d) (token bool v ∷ ts) = λ e. cc
  expr_fuel (suc d) (token number v ∷ ts) = λ e.
      elim (bind-err (parse_number lib v) _ out_of_fuel e) [
        | inl x ↦ number_fuel v x
        | inr (y, one, x) ↦ cc
      ]
  expr_fuel (suc d) (token ident v ∷ ts) =
      ident_fuel d (parse_expr lib d) (expr-Takes d) (expr_fuel d) v ts
  expr_fuel (suc d) (token l_paren v ∷ ts) = λ e. cc
  expr_fuel (suc d) (token r_paren v ∷ ts) = λ e. cc
  expr_fuel (suc d) (token comma v ∷ ts) = λ e. cc

  -- Parse never runs out of fuel, whatever the tokens are, so its errors are those of the code.
  pub parse_has_fuel : (tokens : List Token) → parse lib tokens ≢ err out_of_fuel
  unfolding parse
  parse_has_fuel [] = λ e. cc
  parse_has_fuel (t ∷ tokens) = λ e.
      elim (bind-err (parse_expr lib max_parse_depth (t ∷ tokens)) _ out_of_fuel e) [
        | inl x ↦ expr_fuel max_parse_depth (t ∷ tokens) x
        | inr ((e', rest), one, x) ↦ end_fuel e' rest x
      ]
