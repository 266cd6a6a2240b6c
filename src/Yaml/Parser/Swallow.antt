-- ===== src/Yaml/Parser/Swallow.antt =====
-- What becomes of the keys behind an item that is a mapping with one key.
use scrutineer.Prelude.{ℕ, ◌<◌, ◌≡◌, List, [], ◌∷◌, arith, Str, lt→ltb}
use scrutineer.Yaml.Tokens.{
  mapping_key, sequence_entry, scalar, eof, Token, token, scalar_node, mapping_node, sequence_node,
  no_pairs, pair, no_children, child,
}
use scrutineer.Yaml.Parser.{ok, key_indent, block_mapping, parse_node, parse_document}

-- K:
--   - k: v
-- k': v'
abbrev pub one_key_item : ℕ → ℕ → Str → Str → Str → Str → Str → List Token
one_key_item m n outer k v k' v' =
    token mapping_key outer m
    ∷ token sequence_entry [] n
    ∷ token mapping_key k 0
    ∷ token scalar v 0
    ∷ token mapping_key k' m
    ∷ token scalar v' 0
    ∷ token eof [] 0
    ∷ []

-- A mapping at any indentation whose first value is a sequence, indented deeper, with one item that is
-- a mapping with one key, loses its second key to that item: the node is {outer: [{k: v, k': v'}]}.
pub one_key_item_swallows :
    (m n : ℕ) (outer k v k' v' : Str)
    → m < n
    → parse_document (one_key_item m n outer k v k' v')
      ≡ ok (
          mapping_node (
            pair outer
              (sequence_node (
                child
                  (mapping_node (pair k (scalar_node v) (pair k' (scalar_node v') no_pairs)))
                  no_children))
              no_pairs))
unfolding parse_document parse_node block_mapping key_indent
one_key_item_swallows m n outer k v k' v' lt = ground (arith, lt→ltb m n lt)
