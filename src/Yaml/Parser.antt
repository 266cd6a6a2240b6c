-- ===== src/Yaml/Parser.antt =====
-- core/yaml/parser.go, from the tokens to the nodes. The position in the tokens is the list of those
-- that are left; behind its end every token is TokenEOF. Each call takes a unit of fuel; Parser/Fuel
-- shows that `parse` gives enough. `above` is minIndent + 1, since minIndent starts at -1.
pub mod Document
pub mod Reading
pub mod RoundTrip
pub mod Swallow
pub mod Fuel
use scrutineer.Prelude.{
  ℕ, zero, suc, ◌+◌, ◌-◌, ◌*◌, ◌/◌, ◌%◌, ◌^◌, ◌≤◌, ◌<◌, ◌≡◌, refl, sym, ap, ◌∙◌, ◌≢◌, ◌↔◌, ◌⊎◌, inl,
  inr, Bool, true, false, ◌&&◌, ◌||◌, not, Option, none, some, List, [], ◌∷◌, ◌++◌, map,
  append_assoc, append-nil, arith, GoMap, lookup, insert, keys, lookup-insert, lookup-insert_self,
  Bytes, Str, codes, str_eq, str_le, str_eq_iff, str_eq_refl, range, sum, ltb, leb, ◌==◌,
  if◌then◌else◌, Bool-cases, Option-cases, length, get_elem?, get_or, set, take, drop, All,
  length-append, length-set, take-length_append, drop-length_append, length-map, ltb→lt, lt→ltb,
  ltb-false, le→ltb-false, leb→le, ==_iff,
}
use scrutineer.Yaml.Tokens.{
  TokenType, mapping_key, mapping_value, sequence_entry, scalar, flow_sequence_start,
  flow_sequence_end, flow_mapping_start, flow_mapping_end, flow_comma, literal_block, folded_block,
  eof, Token, token, Node, scalar_node, mapping_node, sequence_node, Pairs, no_pairs, pair,
  Children, no_children, child,
}

pub data ParseError : Type 0 where
  unexpected : TokenType → ParseError
  unexpected_in_sequence : TokenType → ParseError
  unexpected_in_flow_mapping : TokenType → ParseError
  unexpected_in_flow_value : TokenType → ParseError
  unterminated_sequence : ParseError
  unterminated_mapping : ParseError

pub data Result (A : Type 0) : Type 0 where
  ok : A → Result A
  err : ParseError → Result A
  out_of_fuel : Result A

abbrev pub bind : {A B : Type 0} → Result A → (A → Result B) → Result B
bind (ok a) k = k a
bind (err e) k = err e
bind out_of_fuel k = out_of_fuel

abbrev pub empty_node : Node
empty_node = scalar_node []

-- Whether a key at `indent` belongs to the mapping at `map_indent` that has `n` pairs so far, and the
-- indentation of the mapping from then on.
unfoldable pub key_indent : ℕ → ℕ → ℕ → ℕ → Option ℕ
key_indent above map_indent n indent =
    if ltb indent map_indent
    then none
    else if ltb map_indent indent
    then (if (n == 1) && ltb map_indent above then some indent else none)
    else some map_indent

abbrev pub cons_pair : Str → Node → Pairs × List Token → Result (Pairs × List Token)
cons_pair key val (ps, rest) = ok (pair key val ps, rest)

abbrev pub cons_child : Node → Children × List Token → Result (Children × List Token)
cons_child c (cs, rest) = ok (child c cs, rest)

abbrev pub to_mapping : Pairs × List Token → Result (Node × List Token)
to_mapping (ps, rest) = ok (mapping_node ps, rest)

abbrev pub to_sequence : Children × List Token → Result (Node × List Token)
to_sequence (cs, rest) = ok (sequence_node cs, rest)

unfoldable mutual
  -- parseBlockMapping; its first token is a key.
  pub block_mapping : ℕ → ℕ → List Token → Result (Node × List Token)
  block_mapping zero above ts = out_of_fuel
  block_mapping (suc f) above [] = ok (mapping_node no_pairs, [])
  block_mapping (suc f) above (token kind v indent ∷ ts) =
      bind (mapping_loop f above indent 0 (token kind v indent ∷ ts)) to_mapping

  pub mapping_loop : ℕ → ℕ → ℕ → ℕ → List Token → Result (Pairs × List Token)
  mapping_loop zero above map_indent n ts = out_of_fuel
  mapping_loop (suc f) above map_indent n [] = ok (no_pairs, [])
  mapping_loop (suc f) above map_indent n (token mapping_key key indent ∷ ts) =
      key_step f above n key indent ts (key_indent above map_indent n indent)
  mapping_loop (suc f) above map_indent n (token kind v indent ∷ ts) =
      ok (no_pairs, token kind v indent ∷ ts)

  -- The key is taken or left.
  pub key_step : ℕ → ℕ → ℕ → Str → ℕ → List Token → Option ℕ → Result (Pairs × List Token)
  key_step zero above n key indent ts taken = out_of_fuel
  key_step (suc f) above n key indent ts none = ok (no_pairs, token mapping_key key indent ∷ ts)
  key_step (suc f) above n key indent ts (some m) =
      bind (value_of_key f m ts)
        λ (val, rest). bind (mapping_loop f above m (suc n) rest) (cons_pair key val)

  -- parseMappingValue
  pub value_of_key : ℕ → ℕ → List Token → Result (Node × List Token)
  value_of_key zero indent ts = out_of_fuel
  value_of_key (suc f) indent [] = ok (empty_node, [])
  value_of_key (suc f) indent (token scalar v i ∷ ts) = ok (scalar_node v, ts)
  value_of_key (suc f) indent (token literal_block v i ∷ ts) = ok (scalar_node v, ts)
  value_of_key (suc f) indent (token folded_block v i ∷ ts) = ok (scalar_node v, ts)
  value_of_key (suc f) indent (token flow_sequence_start v i ∷ ts) =
      bind (flow_sequence f ts) to_sequence
  value_of_key (suc f) indent (token flow_mapping_start v i ∷ ts) =
      bind (flow_mapping f ts) to_mapping
  value_of_key (suc f) indent (token mapping_key v i ∷ ts) =
      let nested = block_mapping f (suc indent) (token mapping_key v i ∷ ts) in
      if ltb indent i then nested else ok (empty_node, token mapping_key v i ∷ ts)
  value_of_key (suc f) indent (token sequence_entry v i ∷ ts) =
      let nested = bind (sequence_loop f i (token sequence_entry v i ∷ ts)) to_sequence in
      if ltb indent i then nested else ok (empty_node, token sequence_entry v i ∷ ts)
  value_of_key (suc f) indent (token kind v i ∷ ts) = ok (empty_node, token kind v i ∷ ts)

  -- The loop of parseBlockSequence.
  pub sequence_loop : ℕ → ℕ → List Token → Result (Children × List Token)
  sequence_loop zero indent ts = out_of_fuel
  sequence_loop (suc f) indent [] = ok (no_children, [])
  sequence_loop (suc f) indent (token sequence_entry v i ∷ ts) =
      let more =
        bind (sequence_item f indent ts)
          λ (c, rest). bind (sequence_loop f indent rest) (cons_child c) in
      if i == indent then more else ok (no_children, token sequence_entry v i ∷ ts)
  sequence_loop (suc f) indent (token kind v i ∷ ts) = ok (no_children, token kind v i ∷ ts)

  -- The switch on the token behind a "- ".
  pub sequence_item : ℕ → ℕ → List Token → Result (Node × List Token)
  sequence_item zero indent ts = out_of_fuel
  sequence_item (suc f) indent [] = ok (empty_node, [])
  sequence_item (suc f) indent (token mapping_key v i ∷ ts) =
      block_mapping f (suc indent) (token mapping_key v i ∷ ts)
  sequence_item (suc f) indent (token sequence_entry v i ∷ ts) =
      bind (sequence_loop f i (token sequence_entry v i ∷ ts)) to_sequence
  sequence_item (suc f) indent (token flow_sequence_start v i ∷ ts) =
      bind (flow_sequence f ts) to_sequence
  sequence_item (suc f) indent (token flow_mapping_start v i ∷ ts) =
      bind (flow_mapping f ts) to_mapping
  sequence_item (suc f) indent (token scalar v i ∷ ts) = ok (scalar_node v, ts)
  sequence_item (suc f) indent (token literal_block v i ∷ ts) = ok (scalar_node v, ts)
  sequence_item (suc f) indent (token folded_block v i ∷ ts) = ok (scalar_node v, ts)
  sequence_item (suc f) indent (token eof v i ∷ ts) = ok (empty_node, token eof v i ∷ ts)
  sequence_item (suc f) indent (token kind v i ∷ ts) = err (unexpected_in_sequence kind)

  -- The loop of parseFlowSequence, behind the bracket.
  pub flow_sequence : ℕ → List Token → Result (Children × List Token)
  flow_sequence zero ts = out_of_fuel
  flow_sequence (suc f) [] = err unterminated_sequence
  flow_sequence (suc f) (token flow_sequence_end v i ∷ ts) = ok (no_children, ts)
  flow_sequence (suc f) (token eof v i ∷ ts) = err unterminated_sequence
  flow_sequence (suc f) (token flow_comma v i ∷ ts) = flow_sequence f ts
  flow_sequence (suc f) (token kind v i ∷ ts) =
      bind (flow_value f (token kind v i ∷ ts))
        λ (c, rest). bind (flow_sequence f rest) (cons_child c)

  -- The loop of parseFlowMapping, behind the brace.
  pub flow_mapping : ℕ → List Token → Result (Pairs × List Token)
  flow_mapping zero ts = out_of_fuel
  flow_mapping (suc f) [] = err unterminated_mapping
  flow_mapping (suc f) (token flow_mapping_end v i ∷ ts) = ok (no_pairs, ts)
  flow_mapping (suc f) (token eof v i ∷ ts) = err unterminated_mapping
  flow_mapping (suc f) (token flow_comma v i ∷ ts) = flow_mapping f ts
  flow_mapping (suc f) (token mapping_key key i ∷ ts) =
      bind (flow_pair_value f ts) λ (val, rest). bind (flow_mapping f rest) (cons_pair key val)
  flow_mapping (suc f) (token scalar key i ∷ ts) =
      bind (flow_mapping f ts) (cons_pair key empty_node)
  flow_mapping (suc f) (token kind v i ∷ ts) = err (unexpected_in_flow_mapping kind)

  -- The value of a key in a flow mapping, which may be left out.
  pub flow_pair_value : ℕ → List Token → Result (Node × List Token)
  flow_pair_value zero ts = out_of_fuel
  flow_pair_value (suc f) (token flow_mapping_end v i ∷ ts) =
      ok (empty_node, token flow_mapping_end v i ∷ ts)
  flow_pair_value (suc f) (token flow_comma v i ∷ ts) = ok (empty_node, token flow_comma v i ∷ ts)
  flow_pair_value (suc f) ts = flow_value f ts

  -- parseFlowValue
  pub flow_value : ℕ → List Token → Result (Node × List Token)
  flow_value zero ts = out_of_fuel
  flow_value (suc f) [] = err (unexpected_in_flow_value eof)
  flow_value (suc f) (token flow_sequence_start v i ∷ ts) = bind (flow_sequence f ts) to_sequence
  flow_value (suc f) (token flow_mapping_start v i ∷ ts) = bind (flow_mapping f ts) to_mapping
  flow_value (suc f) (token mapping_key v i ∷ ts) = ok (scalar_node v, ts)
  flow_value (suc f) (token scalar v i ∷ ts) = ok (scalar_node v, ts)
  flow_value (suc f) (token kind v i ∷ ts) = err (unexpected_in_flow_value kind)

-- parseNode, as parseDocument calls it: with minIndent -1.
unfoldable pub parse_node : ℕ → List Token → Result (Node × List Token)
parse_node f [] = ok (empty_node, [])
parse_node f (token eof v i ∷ ts) = ok (empty_node, token eof v i ∷ ts)
parse_node f (token flow_sequence_start v i ∷ ts) = bind (flow_sequence f ts) to_sequence
parse_node f (token flow_mapping_start v i ∷ ts) = bind (flow_mapping f ts) to_mapping
parse_node f (token mapping_key v i ∷ ts) = block_mapping f 0 (token mapping_key v i ∷ ts)
parse_node f (token sequence_entry v i ∷ ts) =
    bind (sequence_loop f i (token sequence_entry v i ∷ ts)) to_sequence
parse_node f (token scalar v i ∷ ts) = ok (scalar_node v, ts)
parse_node f (token literal_block v i ∷ ts) = ok (scalar_node v, ts)
parse_node f (token folded_block v i ∷ ts) = ok (scalar_node v, ts)
parse_node f (token kind v i ∷ ts) = err (unexpected kind)

abbrev pub drop_rest : Node × List Token → Result Node
drop_rest (node, rest) = ok node

-- parseDocument, which ignores the tokens behind its node.
unfoldable pub parse_document : List Token → Result Node
parse_document ts = bind (parse_node (4 * length ts + 2) ts) drop_rest
