-- ===== src/Yaml/Tests.antt =====
-- Tests of core/yaml, and the witnesses.
use scrutineer.Prelude.{◌-◌, ◌^◌, ◌≡◌, refl, ◌≢◌, true, List, [], ◌∷◌, codes, str_eq}
use scrutineer.Yaml.Tokens.{
  mapping_key, sequence_entry, scalar, flow_sequence_start, flow_sequence_end, flow_mapping_start,
  flow_mapping_end, flow_comma, eof, Token, token, scalar_node, mapping_node, sequence_node,
  no_pairs, pair, no_children, child,
}
use scrutineer.Yaml.Parser.{
  ok, err, out_of_fuel, unterminated_sequence, parse_document, parse_node, flow_mapping, key_indent,
  flow_sequence, block_mapping,
}
use scrutineer.Yaml.Parser.Document.{
  Document, leaf, block_map, block_seq, no_fields, field, leaf_item, map_item, no_items, item,
  node_of,
}
use scrutineer.Yaml.Parser.RoundTrip.{tokens_of, parse_document-tokens_of}
use scrutineer.Yaml.Parser.Fuel.{parse_document_has_fuel}
use scrutineer.Yaml.Parser.Swallow.{one_key_item}
use scrutineer.Yaml.Scalars.{
  int, text, bool, null, float, parse_int, interpret_scalar, float_step, interpret_word, float_loop,
  to_lower, add_digits, all_digits, is_integer, is_float,
}

-- name: s
-- steps:
--   - call: a
--     args:
--       x: 1
--   - b
abbrev suite : Document
suite = block_map (codes "name") (leaf (codes "s")) (
    field (codes "steps")
      (block_seq
        (map_item (codes "call") (leaf (codes "a")) (codes "args")
          (block_map (codes "x") (leaf (codes "1")) no_fields) no_fields)
        (item (leaf_item (codes "b")) no_items))
      no_fields)

parse_document-tokens_of_example : parse_document (tokens_of suite) ≡ ok (node_of suite)
parse_document-tokens_of_example = parse_document-tokens_of suite

-- [a, [
abbrev open_brackets : List Token
open_brackets =
    token flow_sequence_start [] 0
    ∷ token scalar (codes "a") 0
    ∷ token flow_comma [] 0
    ∷ token flow_sequence_start [] 0
    ∷ token eof [] 0
    ∷ []

parse_document_has_fuel_example : parse_document open_brackets ≢ out_of_fuel
parse_document_has_fuel_example = parse_document_has_fuel open_brackets

open_brackets_refused : parse_document open_brackets ≡ err unterminated_sequence
unfolding parse_document parse_node flow_sequence
open_brackets_refused = refl

one_key_item_test :
    parse_document (one_key_item 0 2 (codes "a") (codes "b") (codes "1") (codes "c") (codes "2"))
    ≡ ok (
        mapping_node (
          pair
            (codes "a")
            (sequence_node (
              child
                (mapping_node (
                  pair
                    (codes "b")
                    (scalar_node (codes "1"))
                    (pair (codes "c") (scalar_node (codes "2")) no_pairs)))
                no_children))
            no_pairs))
unfolding parse_document parse_node block_mapping key_indent
one_key_item_test = refl

-- {a: [b], c}
flow_test :
    parse_document (
      token flow_mapping_start [] 0
      ∷ token mapping_key (codes "a") 0
      ∷ token flow_sequence_start [] 0
      ∷ token scalar (codes "b") 0
      ∷ token flow_sequence_end [] 0
      ∷ token flow_comma [] 0
      ∷ token scalar (codes "c") 0
      ∷ token flow_mapping_end [] 0
      ∷ token eof [] 0
      ∷ [])
    ≡ ok (
        mapping_node (
          pair
            (codes "a")
            (sequence_node (child (scalar_node (codes "b")) no_children))
            (pair (codes "c") (scalar_node []) no_pairs)))
unfolding parse_document parse_node flow_mapping
flow_test = refl

-- A sequence at the indentation of its key ends the mapping, and is left out.
same_indent_test :
    parse_document (
      token mapping_key (codes "a") 0
      ∷ token sequence_entry [] 0
      ∷ token scalar (codes "b") 0
      ∷ token eof [] 0
      ∷ [])
    ≡ ok (mapping_node (pair (codes "a") (scalar_node []) no_pairs))
unfolding parse_document parse_node block_mapping key_indent
same_indent_test = refl

-- 2^64 + 5
wrapped_test : parse_int (codes "18446744073709551621") ≡ 5
unfolding parse_int add_digits
wrapped_test = refl

scalar_tests :
    (interpret_scalar {F = Unit} (λ s. tt) (codes "True") ≡ bool true)
    × (interpret_scalar {F = Unit} (λ s. tt) (codes "~") ≡ null)
    × (interpret_scalar {F = Unit} (λ s. tt) (codes "-7") ≡ int (2 ^ 64 - 7))
    × (interpret_scalar {F = Unit} (λ s. tt) (codes "1e-3") ≡ float tt)
    × (interpret_scalar {F = Unit} (λ s. tt) (codes "1.2.3") ≡ text (codes "1.2.3"))
unfolding interpret_scalar interpret_word str_eq to_lower is_integer all_digits parse_int add_digits
    is_float float_loop float_step
scalar_tests = (refl, refl, refl, refl, refl)

-- A dot alone is a float, as is an "e".
dot_tests :
    (interpret_scalar {F = Unit} (λ s. tt) (codes ".") ≡ float tt)
    × (interpret_scalar {F = Unit} (λ s. tt) (codes "e") ≡ float tt)
unfolding interpret_scalar interpret_word str_eq to_lower is_integer is_float float_loop float_step
dot_tests = (refl, refl)
