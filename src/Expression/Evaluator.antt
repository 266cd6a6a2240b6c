-- ===== src/Expression/Evaluator.antt =====
-- core/expression/evaluator.go, and Register and Get of registry.go. A function and the resolver may
-- change a state `W` (random numbers, the clock); a value of type any is `V`.
pub mod Depth
use scrutineer.Prelude.{
  ℕ, zero, suc, ◌+◌, ◌-◌, ◌*◌, ◌/◌, ◌%◌, ◌^◌, ◌≤◌, ◌<◌, ◌≡◌, refl, sym, ap, ◌∙◌, ◌≢◌, ◌↔◌, ◌⊎◌, inl,
  inr, Bool, true, false, ◌&&◌, ◌||◌, not, Option, none, some, List, [], ◌∷◌, ◌++◌, map,
  append_assoc, append-nil, arith, GoMap, lookup, insert, keys, lookup-insert, lookup-insert_self,
  Bytes, Str, codes, str_eq, str_le, str_eq_iff, str_eq_refl, range, sum, ltb, leb, ◌==◌,
  if◌then◌else◌, Bool-cases, Option-cases, length, get_elem?, get_or, set, take, drop, All,
  length-append, length-set, take-length_append, drop-length_append, length-map, ltb→lt, lt→ltb,
  ltb-false, le→ltb-false, leb→le, ==_iff,
}
use scrutineer.Expression.Syntax.{
  Expr, func_call, string_lit, number_lit, bool_lit, var_ref, Args, no_args, arg,
}

abbrev pub max_eval_depth : ℕ
max_eval_depth = 256

pub data EvalError : Type 0 where
  too_deep : EvalError
  unresolved : Str → EvalError
  unknown_function : Str → EvalError
  function_error : Str → EvalError

pub data Outcome (A : Type 0) : Type 0 where
  value : A → Outcome A
  error : EvalError → Outcome A

-- Func: the text of its error, or its value.
abbrev pub Func : Type 0 → Type 0 → Type 0
Func W V = List V → W → (Str ⊎ V) × W

-- The values that literals stand for, with the conversion int(v), and the resolver.
pub record Values (F W V : Type 0) : Type 0 where
  pub of_string : Str → V
  pub of_float : F → V
  pub of_int : F → V
  pub of_bool : Bool → V
  pub resolve : Str → W → Option V × W

-- Registry.Register: `none` is the error for a name that is taken.
unfoldable pub register {ℓ} : {A : Type ℓ} → Str → A → GoMap A → Option (GoMap A)
register name f funcs = elim (lookup name funcs) [
  | some g ↦ none
  | none ↦ some (insert name f funcs)
]

-- strings.Contains(s, ".")
unfoldable pub dotted : Str → Bool
dotted [] = false
dotted (c ∷ s) = (c == 46) || dotted s

module _ {F W V : Type 0} (values : Values F W V) (funcs : GoMap (Func W V)) where
  unfoldable pub eval_number : F → Bool → V
  eval_number v is_int = if is_int then values.of_int v else values.of_float v

  -- A reference that does not resolve is a text of its own if it has no dot.
  unfoldable pub eval_var : Str → W → Outcome V × W
  eval_var path w =
      let (found, w') = values.resolve path w in
      elim found [
        | some v ↦ (value v, w')
        | none ↦
            ((if dotted path then error (unresolved path) else value (values.of_string path)), w')
      ]

  abbrev pub returned : (Str ⊎ V) × W → Outcome V × W
  returned (inl e, w) = (error (function_error e), w)
  returned (inr v, w) = (value v, w)

  -- The call itself, with the arguments in order.
  unfoldable pub call : Func W V → Outcome (List V) × W → Outcome V × W
  call f (error e, w) = (error e, w)
  call f (value args, w) = returned (f args w)

  unfoldable pub cons_value : V → Outcome (List V) × W → Outcome (List V) × W
  cons_value v (error e, w) = (error e, w)
  cons_value v (value vs, w) = (value (v ∷ vs), w)

  -- The function is looked up before its arguments are evaluated.
  unfoldable pub call_named :
      Str → Option (Func W V) → (W → Outcome (List V) × W) → W → Outcome V × W
  call_named name none args w = (error (unknown_function name), w)
  call_named name (some f) args w = call f (args w)

  -- The arguments behind one that has been evaluated.
  unfoldable pub next_args : Outcome V × W → (W → Outcome (List V) × W) → Outcome (List V) × W
  next_args (error x, w) more = (error x, w)
  next_args (value v, w) more = cons_value v (more w)

  -- Eval with the depth that is left, and the loop over the arguments.
  unfoldable mutual
    pub eval : ℕ → Expr F → W → Outcome V × W
    eval zero e w = (error too_deep, w)
    eval (suc depth) (string_lit s) w = (value (values.of_string s), w)
    eval (suc depth) (number_lit v is_int) w = (value (eval_number v is_int), w)
    eval (suc depth) (bool_lit b) w = (value (values.of_bool b), w)
    eval (suc depth) (var_ref path) w = eval_var path w
    eval (suc depth) (func_call name args) w =
        call_named name (lookup name funcs) (eval_args depth args) w

    pub eval_args : ℕ → Args F → W → Outcome (List V) × W
    eval_args depth no_args w = (value [], w)
    eval_args depth (arg e es) w = next_args (eval depth e w) (eval_args depth es)
