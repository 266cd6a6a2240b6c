-- ===== src/Yaml/Parser/Reading.antt =====
-- The steps in which block documents are read: what ends a block, one round of each loop, the fuel.
use scrutineer.Prelude.{
  ℕ, zero, suc, ◌+◌, ◌*◌, ◌≤◌, ◌<◌, ◌≡◌, refl, none, some, List, [], ◌∷◌, ◌++◌, arith, Str, length,
  lt→ltb,
}
use scrutineer.Yaml.Tokens.{
  mapping_key, sequence_entry, Token, token, Node, Pairs, no_pairs, pair, no_children,
}
use scrutineer.Yaml.Parser.{
  ok, key_indent, mapping_loop, value_of_key, sequence_loop, sequence_item,
}
use scrutineer.Yaml.Parser.Document.{
  Document, leaf, block_map, block_seq, Fields, no_fields, field, Item, Items, no_items, item,
  render, render_fields, render_item, render_items, node_of, pairs_of, item_node, children_of,
}

-- What follows belongs to no block indented by `n`.
abbrev pub Below : ℕ → List Token → Type 0
Below n [] = Unit
Below n (token mapping_key v i ∷ ts) = i < n
Below n (token sequence_entry v i ∷ ts) = i < n
Below n (token _ v i ∷ ts) = Unit

pub Below-weaken : (n m : ℕ) (ts : List Token) → n ≤ m → Below n ts → Below m ts
Below-weaken n m [] le b = tt
Below-weaken n m (token mapping_key v i ∷ ts) le b = omega (arith, b, le)
Below-weaken n m (token sequence_entry v i ∷ ts) le b = omega (arith, b, le)
Below-weaken n m (token _ v i ∷ ts) le b = tt

pub Below-fields :
    (n m : ℕ) (fs : Fields) (ts : List Token)
    → n < m
    → Below n ts
    → Below m (render_fields n fs ++ ts)
unfolding render
Below-fields n m no_fields ts lt b = Below-weaken n m ts (omega arith) b
Below-fields n m (field k d fs) ts lt b = lt

pub Below-items :
    (n m : ℕ) (is : Items) (ts : List Token)
    → n < m
    → Below n ts
    → Below m (render_items n is ++ ts)
unfolding render
Below-items n m no_items ts lt b = Below-weaken n m ts (omega arith) b
Below-items n m (item i is) ts lt b = lt

pub low_key : (above n c i : ℕ) → i < n → key_indent above n c i ≡ none
unfolding key_indent
low_key above n c i h = rw (lt→ltb i n h) refl

-- The loops end there.
pub loop_end :
    (f above n c : ℕ) (ts : List Token)
    → Below n ts
    → mapping_loop (suc (suc f)) above n c ts ≡ ok (no_pairs, ts)
unfolding mapping_loop
loop_end f above n c [] b = refl
loop_end f above n c (token mapping_key v i ∷ ts) b = rw (low_key above n c i b, mapping_loop) refl
loop_end f above n c (token _ v i ∷ ts) b = refl

pub sequence_end :
    (f n : ℕ) (ts : List Token) → Below n ts → sequence_loop (suc f) n ts ≡ ok (no_children, ts)
unfolding sequence_loop
sequence_end f n [] b = refl
sequence_end f n (token sequence_entry v i ∷ ts) b = ground arith
sequence_end f n (token _ v i ∷ ts) b = refl

-- One round of the loop over keys.
pub key_round :
    (f above m c m' : ℕ) (k : Str) (i : ℕ) (ts : List Token) (val : Node) (rest : List Token)
    (ps : Pairs) (rest' : List Token)
    → key_indent above m c i ≡ some m'
    → value_of_key f m' ts ≡ ok (val, rest)
    → mapping_loop f above m' (suc c) rest ≡ ok (ps, rest')
    → mapping_loop (suc (suc f)) above m c (token mapping_key k i ∷ ts) ≡ ok (pair k val ps, rest')
unfolding mapping_loop
key_round f above m c m' k i ts val rest ps rest' taken one more =
    rw (taken, mapping_loop) (rw (one, mapping_loop) (rw more refl))

pub same_indent : (above n c : ℕ) → key_indent above n c n ≡ some n
unfolding key_indent
same_indent above n c = ground arith

-- The second key of an item gives the mapping its indentation.
pub second_key : (n : ℕ) → key_indent (suc n) 0 1 (n + 2) ≡ some (n + 2)
unfolding key_indent
second_key n = ground arith

-- Fuel above any bound is a successor, and above a positive one it is so twice.
pub spend {ℓ} : (n : ℕ) (P : ℕ → Type ℓ) → ((f : ℕ) → n < suc f → P (suc f)) → (f : ℕ) → n < f → P f
spend n P k zero h = absurd (omega arith)
spend n P k (suc f) h = k f h

pub spend_two {ℓ} :
    (n : ℕ) (P : ℕ → Type ℓ)
    → 0 < n
    → ((f : ℕ) → n < suc (suc f) → P (suc (suc f)))
    → (f : ℕ) → n < f
    → P f
spend_two n P pos k zero h = absurd (omega arith)
spend_two n P pos k (suc zero) h = absurd (omega (arith, pos))
spend_two n P pos k (suc (suc f)) h = k f h

pub render_size : (n : ℕ) (d : Document) → 0 < length (render n d)
unfolding render
render_size n (leaf s) = omega arith
render_size n (block_map k d fs) = omega arith
render_size n (block_seq i is) = omega arith

-- With fuel above a bound, each function reads what was rendered and leaves the rest.
abbrev pub ReadsDocument : Document → Type 0
ReadsDocument d =
    (n m f : ℕ) (rest : List Token)
    → m < n
    → Below n rest
    → 4 * length (render n d) + 3 < f
    → value_of_key f m (render n d ++ rest) ≡ ok (node_of d, rest)

abbrev pub ReadsFields : Fields → Type 0
ReadsFields fs =
    (n above c f : ℕ) (rest : List Token)
    → Below n rest
    → 4 * length (render_fields n fs) + 1 < f
    → mapping_loop f above n c (render_fields n fs ++ rest) ≡ ok (pairs_of fs, rest)

abbrev pub ReadsItem : Item → Type 0
ReadsItem i =
    (n f : ℕ) (rest : List Token)
    → Below (suc n) rest
    → 4 * length (render_item n i) + 2 < f
    → sequence_item f n (render_item n i ++ rest) ≡ ok (item_node i, rest)

abbrev pub ReadsItems : Items → Type 0
ReadsItems is =
    (n f : ℕ) (rest : List Token)
    → Below n rest
    → 4 * length (render_items n is) < f
    → sequence_loop f n (render_items n is ++ rest) ≡ ok (children_of is, rest)
