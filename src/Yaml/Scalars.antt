-- ===== src/Yaml/Scalars.antt =====
-- The end of core/yaml/parser.go: from nodes to values. An int is its 64-bit pattern. parseFloat is
-- arithmetic on float64, and a parameter.
pub mod Numbers
use scrutineer.Prelude.{
  ℕ, zero, suc, ◌+◌, ◌-◌, ◌*◌, ◌/◌, ◌%◌, ◌^◌, ◌≤◌, ◌<◌, ◌≡◌, refl, sym, ap, ◌∙◌, ◌≢◌, ◌↔◌, ◌⊎◌, inl,
  inr, Bool, true, false, ◌&&◌, ◌||◌, not, Option, none, some, List, [], ◌∷◌, ◌++◌, map,
  append_assoc, append-nil, arith, GoMap, lookup, insert, keys, lookup-insert, lookup-insert_self,
  Bytes, Str, codes, str_eq, str_le, str_eq_iff, str_eq_refl, range, sum, ltb, leb, ◌==◌,
  if◌then◌else◌, Bool-cases, Option-cases, length, get_elem?, get_or, set, take, drop, All,
  length-append, length-set, take-length_append, drop-length_append, length-map, ltb→lt, lt→ltb,
  ltb-false, le→ltb-false, leb→le, ==_iff,
}
use scrutineer.Yaml.Tokens.{
  Node, scalar_node, mapping_node, sequence_node, Pairs, no_pairs, pair, Children, no_children,
  child,
}

mutual
  pub data Value (F : Type 0) : Type 0 where
    null : Value F
    bool : Bool → Value F
    int : ℕ → Value F
    float : F → Value F
    text : Str → Value F
    dict : Entries F → Value F
    list : Values F → Value F

  pub data Entries (F : Type 0) : Type 0 where
    no_entries : Entries F
    entry : Str → Value F → Entries F → Entries F

  pub data Values (F : Type 0) : Type 0 where
    no_values : Values F
    value : Value F → Values F → Values F

abbrev pub is_digit : ℕ → Bool
is_digit c = leb b'0' c && leb c b'9'

abbrev pub is_sign : ℕ → Bool
is_sign c = (c == b'-') || (c == b'+')

unfoldable pub all_digits : Str → Bool
all_digits [] = true
all_digits (c ∷ s) = is_digit c && all_digits s

-- A text without its sign; a sign alone is no number.
unfoldable pub is_integer : Str → Bool
is_integer [] = false
is_integer (c ∷ []) = is_digit c
is_integer (c ∷ d ∷ s) = (is_sign c || is_digit c) && all_digits (d ∷ s)

-- n = n*10 + int(s[i]-'0')
unfoldable pub add_digits : ℕ → Str → ℕ
add_digits n [] = n
add_digits n (c ∷ s) = add_digits ((n * 10 + (c - b'0')) % 2 ^ 64) s

-- -n
abbrev pub negate : ℕ → ℕ
negate n = (2 ^ 64 - n) % 2 ^ 64

-- parseInt, on a text that isInteger accepts
unfoldable pub parse_int : Str → ℕ
parse_int [] = 0
parse_int (c ∷ s) =
    if c == b'-'
    then negate (add_digits 0 s)
    else if c == b'+'
    then add_digits 0 s
    else add_digits 0 (c ∷ s)

-- Where the loop of isFloat is: whether it has met a dot and an exponent, and whether the last byte was
-- the exponent, behind which a sign is skipped.
pub record FloatState : Type 0 where
  pub has_dot : Bool
  pub has_e : Bool
  pub after_e : Bool

unfoldable pub float_step : FloatState → ℕ → Option FloatState
float_step st c =
    if st.after_e && is_sign c
    then some (record st { after_e = false })
    else if c == b'.'
    then (if st.has_dot || st.has_e
        then none
        else some (record { has_dot = true; has_e = st.has_e; after_e = false }))
    else if (c == b'e') || (c == b'E')
    then (if st.has_e
        then none
        else some (record { has_dot = st.has_dot; has_e = true; after_e = true }))
    else if is_digit c
    then some (record st { after_e = false })
    else none

unfoldable pub float_loop : FloatState → Str → Bool
float_loop st [] = st.has_dot || st.has_e
float_loop st (c ∷ s) = elim (float_step st c) [ none ↦ false | some st' ↦ float_loop st' s ]

abbrev pub float_start : FloatState
float_start = record { has_dot = false; has_e = false; after_e = false }

unfoldable pub is_float : Str → Bool
is_float [] = false
is_float (c ∷ []) = if is_sign c then false else float_loop float_start (c ∷ [])
is_float (c ∷ d ∷ s) =
    if is_sign c then float_loop float_start (d ∷ s) else float_loop float_start (c ∷ d ∷ s)

-- strings.ToLower, as far as a comparison with an ASCII word sees it
unfoldable pub to_lower : Str → Str
to_lower [] = []
to_lower (c ∷ s) = (if leb b'A' c && leb c b'Z' then c + 32 else c) ∷ to_lower s

module _ {F : Type 0} (parse_float : Str → F) where
  -- interpretScalar; `word` is the text in lower case.
  unfoldable pub interpret_word : Str → Str → Value F
  interpret_word word s =
      if str_eq word (codes "null") || str_eq word (codes "~")
      then null
      else if str_eq word (codes "true") || str_eq word (codes "yes")
      then bool true
      else if str_eq word (codes "false") || str_eq word (codes "no")
      then bool false
      else if is_integer s
      then int (parse_int s)
      else if is_float s
      then float (parse_float s)
      else text s

  unfoldable pub interpret_scalar : Str → Value F
  interpret_scalar [] = null
  interpret_scalar (c ∷ s) = interpret_word (to_lower (c ∷ s)) (c ∷ s)

  -- m[key] = v
  unfoldable pub put : Str → Value F → Entries F → Entries F
  put key v no_entries = entry key v no_entries
  put key v (entry k w es) = if str_eq k key then entry k v es else entry k w (put key v es)

  unfoldable mutual
    pub node_to_interface : Node → Value F
    node_to_interface (scalar_node s) = interpret_scalar s
    node_to_interface (mapping_node ps) = dict (pairs_to_entries ps no_entries)
    node_to_interface (sequence_node cs) = list (children_to_values cs)

    pub pairs_to_entries : Pairs → Entries F → Entries F
    pairs_to_entries no_pairs m = m
    pairs_to_entries (pair key v ps) m = pairs_to_entries ps (put key (node_to_interface v) m)

    pub children_to_values : Children → Values F
    children_to_values no_children = no_values
    children_to_values (child c cs) = value (node_to_interface c) (children_to_values cs)
