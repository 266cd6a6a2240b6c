-- ===== src/Yaml/Parser/Document.antt =====
-- Block documents, the tokens that the scanner makes of them, and the nodes that they stand for. Each
-- level is indented by two more. A key or a scalar behind "- " or ": " has indentation 0, because the
-- scanner measures it at the start of a line only. An item of a sequence is a scalar or a mapping with
-- two keys or more here; Parser/Swallow has what becomes of one key, and a sequence that is an item
-- loses its own further items, because the "- " behind another has indentation 0.
use scrutineer.Prelude.{ℕ, ◌+◌, Str, List, [], ◌∷◌, ◌++◌}
use scrutineer.Yaml.Tokens.{
  mapping_key, sequence_entry, scalar, Token, token, Node, scalar_node, mapping_node, sequence_node,
  Pairs, no_pairs, pair, Children, no_children, child,
}

mutual
  pub data Document : Type 0 where
    leaf : Str → Document
    block_map : Str → Document → Fields → Document
    block_seq : Item → Items → Document

  pub data Fields : Type 0 where
    no_fields : Fields
    field : Str → Document → Fields → Fields

  pub data Item : Type 0 where
    leaf_item : Str → Item
    map_item : Str → Document → Str → Document → Fields → Item

  pub data Items : Type 0 where
    no_items : Items
    item : Item → Items → Items

unfoldable mutual
  pub render : ℕ → Document → List Token
  render n (leaf s) = token scalar s 0 ∷ []
  render n (block_map k d fs) = token mapping_key k n ∷ (render (n + 2) d ++ render_fields n fs)
  render n (block_seq i is) = token sequence_entry [] n ∷ (render_item n i ++ render_items n is)

  pub render_fields : ℕ → Fields → List Token
  render_fields n no_fields = []
  render_fields n (field k d fs) = token mapping_key k n ∷ (render (n + 2) d ++ render_fields n fs)

  pub render_item : ℕ → Item → List Token
  render_item n (leaf_item s) = token scalar s 0 ∷ []
  render_item n (map_item k d k' d' fs) =
      token mapping_key k 0
      ∷ (render (n + 4) d
          ++ (token mapping_key k' (n + 2) ∷ (render (n + 4) d' ++ render_fields (n + 2) fs)))

  pub render_items : ℕ → Items → List Token
  render_items n no_items = []
  render_items n (item i is) = token sequence_entry [] n ∷ (render_item n i ++ render_items n is)

unfoldable mutual
  pub node_of : Document → Node
  node_of (leaf s) = scalar_node s
  node_of (block_map k d fs) = mapping_node (pair k (node_of d) (pairs_of fs))
  node_of (block_seq i is) = sequence_node (child (item_node i) (children_of is))

  pub pairs_of : Fields → Pairs
  pairs_of no_fields = no_pairs
  pairs_of (field k d fs) = pair k (node_of d) (pairs_of fs)

  pub item_node : Item → Node
  item_node (leaf_item s) = scalar_node s
  item_node (map_item k d k' d' fs) =
      mapping_node (pair k (node_of d) (pair k' (node_of d') (pairs_of fs)))

  pub children_of : Items → Children
  children_of no_items = no_children
  children_of (item i is) = child (item_node i) (children_of is)
