-- ===== src/Yaml/Parser/RoundTrip.antt =====
-- Block documents parse back.
use scrutineer.Prelude.{
  ℕ, suc, ◌+◌, ◌*◌, ◌<◌, ◌≡◌, refl, List, [], ◌∷◌, ◌++◌, append_assoc, arith, Str, length,
  length-append, lt→ltb,
}
use scrutineer.Yaml.Tokens.{
  mapping_key, sequence_entry, scalar, eof, Token, token, scalar_node, no_pairs, pair, no_children,
  child,
}
use scrutineer.Yaml.Parser.{
  ok, key_indent, block_mapping, mapping_loop, value_of_key, sequence_loop, sequence_item,
  parse_node, parse_document,
}
use scrutineer.Yaml.Parser.Document.{
  Document, leaf, block_map, block_seq, Fields, no_fields, field, Item, leaf_item, map_item, Items,
  no_items, item, render, render_fields, render_item, render_items, node_of, pairs_of, item_node,
  children_of,
}
use scrutineer.Yaml.Parser.Reading.{
  Below-weaken, Below-fields, Below-items, loop_end, sequence_end, key_round, same_indent,
  second_key, spend, spend_two, render_size, ReadsDocument, ReadsFields, ReadsItem, ReadsItems,
}

-- A key with its value in front of more fields.
field-ReadsFields :
    (k : Str) (d : Document) (fs : Fields)
    → ReadsDocument d
    → ReadsFields fs
    → ReadsFields (field k d fs)
unfolding render node_of
field-ReadsFields k d fs rd rfs n above c f rest b h =
    let tokens = length-append (render (n + 2) d) (render_fields n fs) in
    spend_two (4 * length (render_fields n (field k d fs)) + 1)
      (λ f.
        mapping_loop f above n c (render_fields n (field k d fs) ++ rest)
        ≡ ok (pairs_of (field k d fs), rest))
      (omega arith)
      (λ f' h'.
        key_round f' above n c n k n _ _ (render_fields n fs ++ rest) _ rest (same_indent above n c)
          (rw append_assoc (
            rd (n + 2) n f' _ (omega arith) (Below-fields n (n + 2) fs rest (omega arith) b)
              (omega (arith, tokens, h'))))
          (rfs n above (suc c) f' rest b (omega (arith, tokens, h', render_size (n + 2) d))))
      f h

item-ReadsItems : (i : Item) (is : Items) → ReadsItem i → ReadsItems is → ReadsItems (item i is)
unfolding render node_of sequence_loop
item-ReadsItems i is ri ris n f rest b h =
    let tokens = length-append (render_item n i) (render_items n is) in
    let next = Below-items n (suc n) is rest (omega arith) b in
    spend (4 * length (render_items n (item i is)))
      (λ f.
        sequence_loop f n (render_items n (item i is) ++ rest) ≡ ok (children_of (item i is), rest))
      (λ f' h'.
        let one : sequence_item f' n (render_item n i ++ (render_items n is ++ rest))
            ≡ ok (item_node i, render_items n is ++ rest) =
          ri n f' _ next (omega (arith, tokens, h')) in
        let more = ris n f' rest b (omega (arith, tokens, h')) in
        ground (arith, append_assoc (render_item n i) (render_items n is) rest, one, more))
      f h

map_item-ReadsItem :
    (k : Str) (d : Document) (k' : Str) (d' : Document) (fs : Fields)
    → ReadsDocument d
    → ReadsDocument d'
    → ReadsFields fs
    → ReadsItem (map_item k d k' d' fs)
unfolding render node_of sequence_item block_mapping key_indent
map_item-ReadsItem k d k' d' fs rd rd' rfs n f rest b h =
    let low = Below-weaken (suc n) (n + 2) rest (omega arith) b in
    let inner = length-append (render (n + 4) d') (render_fields (n + 2) fs) in
    let tail = token mapping_key k' (n + 2) ∷ (render (n + 4) d' ++ render_fields (n + 2) fs) in
    let outer = length-append (render (n + 4) d) tail in
    let size = render_size (n + 4) d in
    spend_two (4 * length (render_item n (map_item k d k' d' fs)) + 2)
      (λ f.
        sequence_item f n (render_item n (map_item k d k' d' fs) ++ rest)
        ≡ ok (item_node (map_item k d k' d' fs), rest))
      (omega arith)
      (λ f₁ h₁.
        let loop : mapping_loop f₁ (suc n) 0 0
              (token mapping_key k 0 ∷ ((render (n + 4) d ++ tail) ++ rest))
            ≡ ok (pair k (node_of d) (pair k' (node_of d') (pairs_of fs)), rest) =
          spend_two (4 * length (render_item n (map_item k d k' d' fs)))
            (λ f.
              mapping_loop f (suc n) 0 0
                (token mapping_key k 0 ∷ ((render (n + 4) d ++ tail) ++ rest))
              ≡ ok (pair k (node_of d) (pair k' (node_of d') (pairs_of fs)), rest))
            (omega arith)
            (λ f₂ h₂.
              key_round f₂ (suc n) 0 0 0 k 0 _ _ (tail ++ rest) _ rest refl
                (rw append_assoc
                  (rd (n + 4) 0 f₂ _ (omega arith) (omega arith) (omega (arith, outer, inner, h₂))))
                (spend_two (4 * length tail + 1)
                  (λ f.
                    mapping_loop f (suc n) 0 1 (tail ++ rest)
                    ≡ ok (pair k' (node_of d') (pairs_of fs), rest))
                  (omega arith)
                  (λ f₃ h₃.
                    key_round f₃ (suc n) 0 1 (n + 2) k' (n + 2) _ _
                      (render_fields (n + 2) fs ++ rest) _ rest (second_key n)
                      (rw append_assoc (
                        rd' (n + 4) (n + 2) f₃ _ (omega arith)
                          (Below-fields (n + 2) (n + 4) fs rest (omega arith) low)
                          (omega (arith, inner, h₃))))
                      (rfs (n + 2) (suc n) 2 f₃ rest low
                        (omega (arith, inner, render_size (n + 4) d', h₃))))
                  f₂ (omega (arith, outer, inner, size, h₂))))
            f₁ (omega (arith, h₁)) in
        rw (loop, block_mapping))
      f h

map-ReadsDocument :
    (k : Str) (d : Document) (fs : Fields)
    → ReadsFields (field k d fs)
    → ReadsDocument (block_map k d fs)
unfolding render node_of value_of_key block_mapping
map-ReadsDocument k d fs rfs n m f rest lt b h =
    spend_two (4 * length (render n (block_map k d fs)) + 3)
      (λ f.
        value_of_key f m (render n (block_map k d fs) ++ rest)
        ≡ ok (node_of (block_map k d fs), rest))
      (omega arith)
      (λ f' h'.
        let loop : mapping_loop f' (suc m) n 0
              (token mapping_key k n ∷ ((render (n + 2) d ++ render_fields n fs) ++ rest))
            ≡ ok (pair k (node_of d) (pairs_of fs), rest) =
          rfs n (suc m) 0 f' rest b (omega (arith, h')) in
        rw (lt→ltb m n lt) (rw (loop, block_mapping)))
      f h

seq-ReadsDocument :
    (i : Item) (is : Items) → ReadsItems (item i is) → ReadsDocument (block_seq i is)
unfolding render node_of value_of_key
seq-ReadsDocument i is ris n m f rest lt b h =
    spend (4 * length (render n (block_seq i is)) + 3)
      (λ f.
        value_of_key f m (render n (block_seq i is) ++ rest) ≡ ok (node_of (block_seq i is), rest))
      (λ f' h'.
        let loop : sequence_loop f' n
              (token sequence_entry [] n ∷ ((render_item n i ++ render_items n is) ++ rest))
            ≡ ok (child (item_node i) (children_of is), rest) =
          ris n f' rest b (omega (arith, h')) in
        rw (lt→ltb m n lt, loop))
      f h

no_fields-ReadsFields : ReadsFields no_fields
unfolding render node_of
no_fields-ReadsFields n above c f rest b h =
    spend_two 1 (λ f. mapping_loop f above n c rest ≡ ok (no_pairs, rest)) (omega arith)
      (λ f' h'. loop_end f' above n c rest b) f (omega (arith, h))

no_items-ReadsItems : ReadsItems no_items
unfolding render node_of
no_items-ReadsItems n f rest b h =
    spend 0 (λ f. sequence_loop f n rest ≡ ok (no_children, rest))
      (λ f' h'. sequence_end f' n rest b) f (omega (arith, h))

leaf_item-ReadsItem : (s : Str) → ReadsItem (leaf_item s)
unfolding render node_of sequence_item
leaf_item-ReadsItem s n f rest b h =
    spend 6 (λ f. sequence_item f n (token scalar s 0 ∷ rest) ≡ ok (scalar_node s, rest))
      (λ f' h'. refl) f h

leaf-ReadsDocument : (s : Str) → ReadsDocument (leaf s)
unfolding render node_of value_of_key
leaf-ReadsDocument s n m f rest lt b h =
    spend 7 (λ f. value_of_key f m (token scalar s 0 ∷ rest) ≡ ok (scalar_node s, rest))
      (λ f' h'. refl) f h

document-Reads : (d : Document) → ReadsDocument d
document-Reads d = elim d as ReadsDocument ReadsFields ReadsItem ReadsItems [
  | leaf s ↦ leaf-ReadsDocument s
  | block_map k (d → ih) (fs → ihs) ↦ map-ReadsDocument k d fs (field-ReadsFields k d fs ih ihs)
  | block_seq (i → ih) (is → ihs) ↦ seq-ReadsDocument i is (item-ReadsItems i is ih ihs)
  | no_fields ↦ no_fields-ReadsFields
  | field k (d → ih) (fs → ihs) ↦ field-ReadsFields k d fs ih ihs
  | leaf_item s ↦ leaf_item-ReadsItem s
  | map_item k (d → ih) k' (d' → ih') (fs → ihs) ↦ map_item-ReadsItem k d k' d' fs ih ih' ihs
  | no_items ↦ no_items-ReadsItems
  | item (i → ih) (is → ihs) ↦ item-ReadsItems i is ih ihs
]

fields-Reads : (fs : Fields) → ReadsFields fs
fields-Reads no_fields = no_fields-ReadsFields
fields-Reads (field k d fs) = field-ReadsFields k d fs (document-Reads d) (fields-Reads fs)

item-Reads : (i : Item) → ReadsItem i
item-Reads (leaf_item s) = leaf_item-ReadsItem s
item-Reads (map_item k d k' d' fs) =
    map_item-ReadsItem k d k' d' fs (document-Reads d) (document-Reads d') (fields-Reads fs)

items-Reads : (is : Items) → ReadsItems is
items-Reads no_items = no_items-ReadsItems
items-Reads (item i is) = item-ReadsItems i is (item-Reads i) (items-Reads is)

-- The tokens of a document, which the scanner ends with TokenEOF.
abbrev pub tokens_of : Document → List Token
tokens_of d = render 0 d ++ token eof [] 0 ∷ []

node_read :
    (d : Document) (f : ℕ)
    → 4 * length (render 0 d) + 3 < f
    → parse_node f (tokens_of d) ≡ ok (node_of d, token eof [] 0 ∷ [])
unfolding parse_node render node_of block_mapping
node_read (leaf s) f h = refl
node_read (block_map k d fs) f h =
    spend (4 * length (render 0 (block_map k d fs)) + 3)
      (λ f.
        parse_node f (tokens_of (block_map k d fs))
        ≡ ok (node_of (block_map k d fs), token eof [] 0 ∷ []))
      (λ f' h'.
        let loop =
          fields-Reads (field k d fs) 0 0 0 f' (token eof [] 0 ∷ []) tt (omega (arith, h')) in
        rw (loop, block_mapping) refl)
      f h
node_read (block_seq i is) f h =
    let loop = items-Reads (item i is) 0 f (token eof [] 0 ∷ []) tt (omega (arith, h)) in
    rw loop refl

-- Parsing the tokens of a block document gives the node that it stands for: scalars, mappings and
-- sequences, each level indented by two more, nested to any depth through the values of mappings. An
-- item of a sequence is a scalar or a mapping with two keys or more; a sequence that is itself an item
-- of a sequence, and a mapping of one key that is, are excluded.
pub parse_document-tokens_of : (d : Document) → parse_document (tokens_of d) ≡ ok (node_of d)
unfolding parse_document
parse_document-tokens_of d =
    let size = length-append (render 0 d) (token eof [] 0 ∷ []) in
    rw (node_read d (4 * length (tokens_of d) + 2) (omega (arith, size))) refl
