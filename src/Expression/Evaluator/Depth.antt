-- ===== src/Expression/Evaluator/Depth.antt =====
-- The depth limit of the evaluator never speaks on what the parser accepts.
use scrutineer.Prelude.{
  ℕ, suc, ◌≡◌, refl, ap, inl, inr, Bool, true, false, Option, none, some, List, [], GoMap, lookup,
  Str, if◌then◌else◌, Bool-cases, Option-cases,
}
use mathlib.Core.Path.{subst}
use scrutineer.Expression.Syntax.{
  Token, Expr, func_call, string_lit, number_lit, bool_lit, var_ref, Args, no_args, arg,
}
use scrutineer.Expression.Parser.{Strconv, ok, parse, parse_number, has_dot}
use scrutineer.Expression.Parser.Grammar.{
  Spells, a_string, a_number, a_bool, a_var, a_call_of_none, a_call, SpellsArgs, last_arg,
  more_args,
}
use scrutineer.Expression.Parser.Sound.{parse_iff}
use scrutineer.Expression.Evaluator.{
  max_eval_depth, Outcome, value, error, Func, Values, eval_number, eval_var, call, cons_value,
  call_named, next_args, eval, eval_args,
}

number_shape :
    {F : Type 0} (lib : Strconv F) (v : Str) (e : Expr F)
    → parse_number lib v ≡ ok e
    → (x : F) × (b : Bool) × (number_lit x b ≡ e)
unfolding parse_number
number_shape lib v e h = elim (Bool-cases (has_dot v)) [
  | inl y ↦ elim (Option-cases (lib.parse_float v)) [
    | inl n ↦ cc (h, y, n)
    | inr (x, n) ↦ (x, false, cc (h, y, n))
  ]
  | inr y ↦ elim (Option-cases (lib.parse_int v)) [
    | inl n ↦ cc (h, y, n)
    | inr (x, n) ↦ (lib.to_float x, true, cc (h, y, n))
  ]
]

module _ {F W V : Type 0} (values : Values F W V) (funcs : GoMap (Func W V)) where
  -- The meaning of an expression, without a limit.
  unfoldable mutual
    pub denote : Expr F → W → Outcome V × W
    denote (string_lit s) w = (value (values.of_string s), w)
    denote (number_lit v is_int) w =
        (value (if is_int then values.of_int v else values.of_float v), w)
    denote (bool_lit b) w = (value (values.of_bool b), w)
    denote (var_ref path) w = eval_var values funcs path w
    denote (func_call name args) w =
        call_named values funcs name (lookup name funcs) (denote_args args) w

    pub denote_args : Args F → W → Outcome (List V) × W
    denote_args no_args w = (value [], w)
    denote_args (arg e es) w = next_args values funcs (denote e w) (denote_args es)

  call_named_same :
      (name : Str) (f : Option (Func W V)) (g h : W → Outcome (List V) × W) (w : W)
      → g w ≡ h w
      → call_named values funcs name f g w ≡ call_named values funcs name f h w
  unfolding call_named
  call_named_same name none g h w same = refl
  call_named_same name (some f) g h w same = ap (call values funcs f) same

  next_args_same :
      (first : Outcome V × W) (g h : W → Outcome (List V) × W)
      → ((w : W) → g w ≡ h w)
      → next_args values funcs first g ≡ next_args values funcs first h
  unfolding next_args
  next_args_same (error x, w) g h same = refl
  next_args_same (value v, w) g h same = ap (cons_value values funcs v) (same w)

  mutual
    unfolding eval denote eval_number

    eval-Spells :
        {lib : Strconv F} {d : ℕ} {ts : List Token} {e : Expr F}
        → Spells lib d ts e
        → (w : W) → eval values funcs d e w ≡ denote e w
    eval-Spells (a_string v) w = refl
    eval-Spells (a_number {d = d} v e h) w =
        let (x, b, same) = number_shape _ v e h in
        subst (λ e'. eval values funcs (suc d) e' w ≡ denote e' w) same refl
    eval-Spells (a_bool v) w = refl
    eval-Spells (a_var v) w = refl
    eval-Spells (a_call_of_none {d = d} v l r) w = refl
    eval-Spells (a_call {d = d} v l {args = args} s) w =
        call_named_same v (lookup v funcs) (eval_args values funcs d args) (denote_args args) w
          (eval_args-SpellsArgs s w)

    eval_args-SpellsArgs :
        {lib : Strconv F} {d : ℕ} {ts : List Token} {args : Args F}
        → SpellsArgs lib d ts args
        → (w : W) → eval_args values funcs d args w ≡ denote_args args w
    eval_args-SpellsArgs (last_arg r s) w = rw (eval-Spells s w) refl
    eval_args-SpellsArgs (more_args {d = d} {e = e} {args = args} c s ss) w = rw (eval-Spells s w) (
        next_args_same (denote e w) (eval_args values funcs d args) (denote_args args)
          (eval_args-SpellsArgs ss))

  -- Evaluating what Parse has accepted never meets the depth limit of the evaluator: the outcome and
  -- the state are those of the evaluation without a limit.
  pub eval_parsed :
      (lib : Strconv F) (tokens : List Token) (e : Expr F)
      → parse lib tokens ≡ ok e
      → (w : W) → eval values funcs max_eval_depth e w ≡ denote e w
  eval_parsed lib tokens e h w = eval-Spells ((parse_iff tokens e).0 h) w
