-- ===== src/Fixture/Interpolate.antt =====
-- Interpolate and findExpressionEnd of core/fixture/fixture.go, over the bytes of a text. The position
-- is the list of the bytes that are left, and what strings.Builder holds is put together behind the
-- recursion. Resolve and evalExpression, with the printing of their values by fmt, are parameters.
pub mod Body
pub mod Scan
pub mod Template
pub mod RoundTrip
pub mod Fuel
use scrutineer.Prelude.{
  ℕ, zero, suc, ◌+◌, ◌-◌, ◌*◌, ◌/◌, ◌%◌, ◌^◌, ◌≤◌, ◌<◌, ◌≡◌, refl, sym, ap, ◌∙◌, ◌≢◌, ◌↔◌, ◌⊎◌, inl,
  inr, Bool, true, false, ◌&&◌, ◌||◌, not, Option, none, some, List, [], ◌∷◌, ◌++◌, map,
  append_assoc, append-nil, arith, GoMap, lookup, insert, keys, lookup-insert, lookup-insert_self,
  Bytes, Str, codes, str_eq, str_le, str_eq_iff, str_eq_refl, range, sum, ltb, leb, ◌==◌,
  if◌then◌else◌, Bool-cases, Option-cases, length, get_elem?, get_or, set, take, drop, All,
  length-append, length-set, take-length_append, drop-length_append, length-map, ltb→lt, lt→ltb,
  ltb-false, le→ltb-false, leb→le, ==_iff,
}

pub data InterpolateError : Type 0 where
  unresolved : Str → InterpolateError
  expression_error : Str → InterpolateError

pub data Result (A : Type 0) : Type 0 where
  ok : A → Result A
  err : InterpolateError → Result A
  out_of_fuel : Result A

-- Whether a variable resolves and to which text, and the same for the expression behind "fn:".
pub record Store : Type 0 where
  pub resolve : Str → Option Str
  pub eval_expression : Str → Option Str

abbrev pub write : Str → Result Str → Result Str
write s (ok rest) = ok (s ++ rest)
write s (err e) = err e
write s out_of_fuel = out_of_fuel

-- The bytes before the first closing brace and those behind it: strings.Index(input[i:], "}").
unfoldable pub to_brace : Str → Option (Str × Str)
to_brace [] = none
to_brace (c ∷ s) = elim (c == b'}') [
  | true ↦ some ([], s)
  | false ↦ elim (to_brace s) [ none ↦ none | some (ref, rest) ↦ some (c ∷ ref, rest) ]
]

-- Where findExpressionEnd is: outside of quotes, or inside single or double ones.
pub data Quotes : Type 0 where
  outside in_single in_double : Quotes

abbrev pub keep : ℕ → Option (Str × Str) → Option (Str × Str)
keep c none = none
keep c (some (body, rest)) = some (c ∷ body, rest)

-- The depth of parentheses as two counts, the closed ones and the open ones, since it may be negative.
unfoldable pub find_end : Quotes → ℕ → ℕ → Str → Option (Str × Str)
find_end q closed opened [] = none
find_end outside closed opened (c ∷ s) = elim (c == b'\'') [
  | true ↦ keep c (find_end in_single closed opened s)
  | false ↦ elim (c == b'"') [
    | true ↦ keep c (find_end in_double closed opened s)
    | false ↦ elim (c == b'(') [
      | true ↦ keep c (find_end outside closed (opened + 1) s)
      | false ↦ elim (c == b')') [
        | true ↦ keep c (find_end outside (closed + 1) opened s)
        | false ↦ elim ((c == b'}') && (closed == opened)) [
          | true ↦ some ([], s)
          | false ↦ keep c (find_end outside closed opened s)
        ]
      ]
    ]
  ]
]
find_end in_single closed opened (c ∷ []) = none
find_end in_single closed opened (c ∷ d ∷ s) = elim (c == b'\\') [
  | true ↦ keep c (keep d (find_end in_single closed opened s))
  | false ↦ elim (c == b'\'') [
    | true ↦ keep c (find_end outside closed opened (d ∷ s))
    | false ↦ keep c (find_end in_single closed opened (d ∷ s))
  ]
]
find_end in_double closed opened (c ∷ []) = none
find_end in_double closed opened (c ∷ d ∷ s) = elim (c == b'\\') [
  | true ↦ keep c (keep d (find_end in_double closed opened s))
  | false ↦ elim (c == b'"') [
    | true ↦ keep c (find_end outside closed opened (d ∷ s))
    | false ↦ keep c (find_end in_double closed opened (d ∷ s))
  ]
]

-- The part of a reference behind "fn:", if it is one.
unfoldable pub expression_of : Str → Option Str
expression_of (c ∷ d ∷ e ∷ s) = if (c == b'f') && ((d == b'n') && (e == b':')) then some s else none
expression_of s = none

module _ (store : Store) where
  -- What is written for a variable or an expression, in front of the rest.
  abbrev pub write_variable : Str → Result Str → Result Str
  write_variable ref rest = elim (store.resolve ref) [
    | none ↦ err (unresolved ref)
    | some v ↦ write v rest
  ]

  abbrev pub write_expression : Str → Result Str → Result Str
  write_expression body rest = elim (store.eval_expression body) [
    | none ↦ err (expression_error body)
    | some v ↦ write v rest
  ]

  -- Interpolate; each round of its loop takes a unit of fuel.
  unfoldable mutual
    pub interpolate_from : ℕ → Str → Result Str
    interpolate_from zero s = out_of_fuel
    interpolate_from (suc f) [] = ok []
    interpolate_from (suc f) (c ∷ []) = ok (c ∷ [])
    interpolate_from (suc f) (c ∷ d ∷ s) = elim ((c == b'\\') && (d == b'$')) [
      | true ↦ write (d ∷ []) (interpolate_from f s)
      | false ↦ elim ((c == b'$') && (d == b'{')) [
        | true ↦ reference f (expression_of s) s
        | false ↦ write (c ∷ []) (interpolate_from f (d ∷ s))
      ]
    ]

    -- Behind "${", where `s` is left; without an end the dollar is text.
    pub reference : ℕ → Option Str → Str → Result Str
    reference zero body s = out_of_fuel
    reference (suc f) none s = elim (to_brace s) [
      | none ↦ write (b'$' ∷ []) (interpolate_from f (b'{' ∷ s))
      | some (ref, rest) ↦ write_variable ref (interpolate_from f rest)
    ]
    reference (suc f) (some body) s = elim (find_end outside 0 0 body) [
      | none ↦ write (b'$' ∷ []) (interpolate_from f (b'{' ∷ s))
      | some (expression, rest) ↦ write_expression expression (interpolate_from f rest)
    ]

  unfoldable pub interpolate : Str → Result Str
  interpolate s = interpolate_from (2 * length s + 1) s
