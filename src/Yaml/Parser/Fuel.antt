-- ===== src/Yaml/Parser/Fuel.antt =====
-- The fuel that parseDocument is given in the model is enough for all tokens.
use scrutineer.Prelude.{
  ℕ, zero, suc, ◌+◌, ◌*◌, ◌≤◌, ◌<◌, ◌≢◌, Bool, true, false, Option, none, some, List, [], ◌∷◌,
  arith, Str, ltb, ◌==◌, if◌then◌else◌, length,
}
use scrutineer.Yaml.Tokens.{
  TokenType, mapping_key, sequence_entry, scalar, flow_sequence_start, flow_sequence_end,
  flow_mapping_start, flow_mapping_end, flow_comma, literal_block, folded_block, eof, Token, token,
  Node,
}
use scrutineer.Yaml.Parser.{
  ParseError, Result, ok, err, out_of_fuel, bind, key_indent, block_mapping, mapping_loop, key_step,
  value_of_key, sequence_loop, sequence_item, flow_sequence, flow_mapping, flow_pair_value,
  flow_value, parse_node, parse_document, drop_rest,
}

-- The run kept within its fuel, and leaves at most `n` tokens.
data Within {A : Type 0} (n : ℕ) : Result (A × List Token) → Type 0 where
  left : {a : A} {rest : List Token} → length rest ≤ n → Within n (ok (a, rest))
  rejected : {e : ParseError} → Within n (err e)

module _ {A B : Type 0} {n m : ℕ} where
  Within-bind :
      {r : Result (A × List Token)} {k : A × List Token → Result (B × List Token)}
      → Within n r
      → ((p : A × List Token) → length p.1 ≤ n → Within m (k p))
      → Within m (bind r k)
  Within-bind (left {a} {rest} h) k = k (a, rest) h
  Within-bind rejected k = rejected

module _ {A : Type 0} where
  Within-if :
      {n : ℕ} (b : Bool) {x y : Result (A × List Token)}
      → Within n x
      → Within n y
      → Within n (if b then x else y)
  Within-if true hx hy = hx
  Within-if false hx hy = hy

  Within-weaken : {n m : ℕ} {r : Result (A × List Token)} → Within n r → n ≤ m → Within m r
  Within-weaken (left h) le = left (omega (arith, h, le))
  Within-weaken rejected le = rejected

-- At the end there is no value.
flow_value-empty : (f : ℕ) → 0 < f → Within 0 (flow_value f [])
unfolding flow_value
flow_value-empty zero h = absurd (omega arith)
flow_value-empty (suc f) h = rejected

mutual
  unfolding block_mapping mapping_loop key_step value_of_key sequence_loop sequence_item
      flow_sequence flow_mapping flow_pair_value flow_value

  mapping-Within :
      (f above : ℕ) (ts : List Token)
      → 4 * length ts + 2 ≤ f
      → Within (length ts) (block_mapping f above ts)
  mapping-Within zero above ts h = absurd (omega arith)
  mapping-Within (suc f) above [] h = left (omega arith)
  mapping-Within (suc f) above (token k v i ∷ ts) h =
      Within-bind (loop-Within f above i 0 (token k v i ∷ ts) (omega arith)) λ (ps, rest) p. left p

  loop-Within :
      (f above m n : ℕ) (ts : List Token)
      → 4 * length ts + 1 ≤ f
      → Within (length ts) (mapping_loop f above m n ts)
  loop-Within zero above m n ts h = absurd (omega arith)
  loop-Within (suc f) above m n [] h = left (omega arith)
  loop-Within (suc f) above m n (token mapping_key key i ∷ ts) h =
      key-Within f above n key i ts (key_indent above m n i) (omega arith)
  loop-Within (suc f) above m n (token _ v i ∷ ts) h = left (omega arith)

  key-Within :
      (f above n : ℕ) (key : Str) (i : ℕ) (ts : List Token) (taken : Option ℕ)
      → 4 * length ts + 4 ≤ f
      → Within (suc (length ts)) (key_step f above n key i ts taken)
  key-Within zero above n key i ts taken h = absurd (omega arith)
  key-Within (suc f) above n key i ts none h = left (omega arith)
  key-Within (suc f) above n key i ts (some m) h =
      Within-bind (value-Within f m ts (omega arith)) λ (val, rest) p.
        Within-bind (loop-Within f above m (suc n) rest (omega (arith, p)))
          λ (ps, rest') q. left (omega (arith, p, q))

  value-Within :
      (f i : ℕ) (ts : List Token) → 4 * length ts + 3 ≤ f → Within (length ts) (value_of_key f i ts)
  value-Within zero i ts h = absurd (omega arith)
  value-Within (suc f) i [] h = left (omega arith)
  value-Within (suc f) i (token flow_sequence_start v j ∷ ts) h =
      Within-bind (flow_sequence-Within f ts (omega arith)) λ (cs, rest) p. left (omega (arith, p))
  value-Within (suc f) i (token flow_mapping_start v j ∷ ts) h =
      Within-bind (flow_mapping-Within f ts (omega arith)) λ (ps, rest) p. left (omega (arith, p))
  value-Within (suc f) i (token mapping_key v j ∷ ts) h =
      Within-if (ltb i j) (mapping-Within f (suc i) (token mapping_key v j ∷ ts) (omega arith))
        (left (omega arith))
  value-Within (suc f) i (token sequence_entry v j ∷ ts) h =
      Within-if (ltb i j)
        (Within-bind (sequence-Within f j (token sequence_entry v j ∷ ts) (omega arith))
          λ (cs, rest) p. left p)
        (left (omega arith))
  value-Within (suc f) i (token _ v j ∷ ts) h = left (omega arith)

  sequence-Within :
      (f i : ℕ) (ts : List Token)
      → 4 * length ts + 1 ≤ f
      → Within (length ts) (sequence_loop f i ts)
  sequence-Within zero i ts h = absurd (omega arith)
  sequence-Within (suc f) i [] h = left (omega arith)
  sequence-Within (suc f) i (token sequence_entry v j ∷ ts) h =
      Within-if (j == i)
        (Within-bind (item-Within f i ts (omega arith)) λ (c, rest) p.
          Within-bind (sequence-Within f i rest (omega (arith, p)))
            λ (cs, rest') q. left (omega (arith, p, q)))
        (left (omega arith))
  sequence-Within (suc f) i (token _ v j ∷ ts) h = left (omega arith)

  item-Within :
      (f i : ℕ) (ts : List Token)
      → 4 * length ts + 3 ≤ f
      → Within (length ts) (sequence_item f i ts)
  item-Within zero i ts h = absurd (omega arith)
  item-Within (suc f) i [] h = left (omega arith)
  item-Within (suc f) i (token mapping_key v j ∷ ts) h =
      mapping-Within f (suc i) (token mapping_key v j ∷ ts) (omega arith)
  item-Within (suc f) i (token sequence_entry v j ∷ ts) h =
      Within-bind (sequence-Within f j (token sequence_entry v j ∷ ts) (omega arith))
        λ (cs, rest) p. left p
  item-Within (suc f) i (token flow_sequence_start v j ∷ ts) h =
      Within-bind (flow_sequence-Within f ts (omega arith)) λ (cs, rest) p. left (omega (arith, p))
  item-Within (suc f) i (token flow_mapping_start v j ∷ ts) h =
      Within-bind (flow_mapping-Within f ts (omega arith)) λ (ps, rest) p. left (omega (arith, p))
  item-Within (suc f) i (token scalar v j ∷ ts) h = left (omega arith)
  item-Within (suc f) i (token literal_block v j ∷ ts) h = left (omega arith)
  item-Within (suc f) i (token folded_block v j ∷ ts) h = left (omega arith)
  item-Within (suc f) i (token eof v j ∷ ts) h = left (omega arith)
  item-Within (suc f) i (token _ v j ∷ ts) h = rejected

  flow_sequence-Within :
      (f : ℕ) (ts : List Token) → 4 * length ts + 2 ≤ f → Within (length ts) (flow_sequence f ts)
  flow_sequence-Within zero ts h = absurd (omega arith)
  flow_sequence-Within (suc f) [] h = rejected
  flow_sequence-Within (suc f) (token flow_sequence_end v i ∷ ts) h = left (omega arith)
  flow_sequence-Within (suc f) (token eof v i ∷ ts) h = rejected
  flow_sequence-Within (suc f) (token flow_comma v i ∷ ts) h =
      Within-weaken (flow_sequence-Within f ts (omega arith)) (omega arith)
  flow_sequence-Within (suc f) (token k v i ∷ ts) h =
      Within-bind (flow_value-Within f k v i ts (omega arith)) λ (c, rest) p.
        Within-bind (flow_sequence-Within f rest (omega (arith, p)))
          λ (cs, rest') q. left (omega (arith, p, q))

  flow_mapping-Within :
      (f : ℕ) (ts : List Token) → 4 * length ts + 2 ≤ f → Within (length ts) (flow_mapping f ts)
  flow_mapping-Within zero ts h = absurd (omega arith)
  flow_mapping-Within (suc f) [] h = rejected
  flow_mapping-Within (suc f) (token flow_mapping_end v i ∷ ts) h = left (omega arith)
  flow_mapping-Within (suc f) (token eof v i ∷ ts) h = rejected
  flow_mapping-Within (suc f) (token flow_comma v i ∷ ts) h =
      Within-weaken (flow_mapping-Within f ts (omega arith)) (omega arith)
  flow_mapping-Within (suc f) (token mapping_key v i ∷ ts) h =
      Within-bind (flow_pair_value-Within f ts (omega arith)) λ (c, rest) p.
        Within-bind (flow_mapping-Within f rest (omega (arith, p)))
          λ (cs, rest') q. left (omega (arith, p, q))
  flow_mapping-Within (suc f) (token scalar v i ∷ ts) h =
      Within-bind (flow_mapping-Within f ts (omega arith)) λ (cs, rest') q. left (omega (arith, q))
  flow_mapping-Within (suc f) (token _ v i ∷ ts) h = rejected

  flow_pair_value-Within :
      (f : ℕ) (ts : List Token) → 4 * length ts + 2 ≤ f → Within (length ts) (flow_pair_value f ts)
  flow_pair_value-Within zero ts h = absurd (omega arith)
  flow_pair_value-Within (suc f) [] h = flow_value-empty f (omega arith)
  flow_pair_value-Within (suc f) (token flow_mapping_end v i ∷ ts) h = left (omega arith)
  flow_pair_value-Within (suc f) (token flow_comma v i ∷ ts) h = left (omega arith)
  flow_pair_value-Within (suc f) (token k v i ∷ ts) h =
      Within-weaken (flow_value-Within f k v i ts (omega arith)) (omega arith)

  -- A value of a flow collection takes a token.
  flow_value-Within :
      (f : ℕ) (k : TokenType) (v : Str) (i : ℕ) (ts : List Token)
      → 4 * length ts + 5 ≤ f
      → Within (length ts) (flow_value f (token k v i ∷ ts))
  flow_value-Within zero k v i ts h = absurd (omega arith)
  flow_value-Within (suc f) flow_sequence_start v i ts h =
      Within-bind (flow_sequence-Within f ts (omega arith)) λ (cs, rest) p. left p
  flow_value-Within (suc f) flow_mapping_start v i ts h =
      Within-bind (flow_mapping-Within f ts (omega arith)) λ (ps, rest) p. left p
  flow_value-Within (suc f) mapping_key v i ts h = left (omega arith)
  flow_value-Within (suc f) scalar v i ts h = left (omega arith)
  flow_value-Within (suc f) _ v i ts h = rejected

node-Within :
    (f : ℕ) (ts : List Token) → 4 * length ts + 2 ≤ f → Within (length ts) (parse_node f ts)
unfolding parse_node
node-Within f [] h = left (omega arith)
node-Within f (token eof v i ∷ ts) h = left (omega arith)
node-Within f (token flow_sequence_start v i ∷ ts) h =
    Within-bind (flow_sequence-Within f ts (omega arith)) λ (cs, rest) p. left (omega (arith, p))
node-Within f (token flow_mapping_start v i ∷ ts) h =
    Within-bind (flow_mapping-Within f ts (omega arith)) λ (cs, rest) p. left (omega (arith, p))
node-Within f (token mapping_key v i ∷ ts) h = mapping-Within f 0 (token mapping_key v i ∷ ts) h
node-Within f (token sequence_entry v i ∷ ts) h =
    Within-bind (sequence-Within f i (token sequence_entry v i ∷ ts) (omega arith))
      λ (cs, rest) p. left p
node-Within f (token scalar v i ∷ ts) h = left (omega arith)
node-Within f (token literal_block v i ∷ ts) h = left (omega arith)
node-Within f (token folded_block v i ∷ ts) h = left (omega arith)
node-Within f (token _ v i ∷ ts) h = rejected

kept : {n : ℕ} {r : Result (Node × List Token)} → Within n r → bind r drop_rest ≢ out_of_fuel
kept (left p) = λ e. cc
kept rejected = λ e. cc

-- Parsing ends on every list of tokens: it gives a node or an error of the code, never a lack of fuel.
pub parse_document_has_fuel : (ts : List Token) → parse_document ts ≢ out_of_fuel
unfolding parse_document
parse_document_has_fuel ts = kept (node-Within (4 * length ts + 2) ts (omega arith))
