-- ===== src/Expression/Parser/Grammar.antt =====
-- The grammar of the expressions, without a parser: which tokens spell which expression.
use scrutineer.Prelude.{ℕ, suc, ◌≡◌, List, [], ◌∷◌, ◌++◌, Str, codes, str_eq}
use scrutineer.Expression.Syntax.{
  ident, l_paren, r_paren, comma, string, number, bool, Token, token, Expr, func_call, string_lit,
  bool_lit, var_ref, Args, no_args, arg,
}
use scrutineer.Expression.Parser.{Strconv, ok, parse_number}

-- `Spells lib d ts e`: the tokens `ts` spell `e`, nested at most `d` deep. The text of a parenthesis
-- or of a comma does not count.
mutual
  pub data Spells {F : Type 0} (lib : Strconv F) : ℕ → List Token → Expr F → Type 0 where
    a_string : {d : ℕ} (v : Str) → Spells lib (suc d) (token string v ∷ []) (string_lit v)
    a_number :
        {d : ℕ} (v : Str) (e : Expr F)
        → parse_number lib v ≡ ok e
        → Spells lib (suc d) (token number v ∷ []) e
    a_bool :
        {d : ℕ} (v : Str)
        → Spells lib (suc d) (token bool v ∷ []) (bool_lit (str_eq v (codes "true")))
    a_var : {d : ℕ} (v : Str) → Spells lib (suc d) (token ident v ∷ []) (var_ref v)
    a_call_of_none :
        {d : ℕ} (v l r : Str)
        → Spells lib
            (suc d)
            (token ident v ∷ token l_paren l ∷ token r_paren r ∷ [])
            (func_call v no_args)
    a_call :
        {d : ℕ} (v l : Str) {ts : List Token} {args : Args F}
        → SpellsArgs lib d ts args
        → Spells lib (suc d) (token ident v ∷ token l_paren l ∷ ts) (func_call v args)

  -- One or more arguments with commas between them, and the closing parenthesis.
  pub data SpellsArgs {F : Type 0} (lib : Strconv F) : ℕ → List Token → Args F → Type 0 where
    last_arg :
        {d : ℕ} {ts : List Token} {e : Expr F} (r : Str)
        → Spells lib d ts e
        → SpellsArgs lib d (ts ++ token r_paren r ∷ []) (arg e no_args)
    more_args :
        {d : ℕ} {ts us : List Token} {e : Expr F} {args : Args F} (c : Str)
        → Spells lib d ts e
        → SpellsArgs lib d us args
        → SpellsArgs lib d (ts ++ token comma c ∷ us) (arg e args)
