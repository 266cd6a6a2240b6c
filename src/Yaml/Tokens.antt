-- ===== src/Yaml/Tokens.antt =====
-- The tokens of core/yaml/scanner.go and the nodes of core/yaml/parser.go, without the line and the
-- column, which only messages show. A list of nodes and a list of pairs are data types of their own,
-- since they hold nodes.
use scrutineer.Prelude.{ℕ, Str}

pub data TokenType : Type 0 where
  mapping_key mapping_value sequence_entry scalar : TokenType
  flow_sequence_start flow_sequence_end flow_mapping_start flow_mapping_end flow_comma : TokenType
  literal_block folded_block : TokenType
  eof : TokenType

-- The type, the value and the indentation.
pub data Token : Type 0 where
  token : TokenType → Str → ℕ → Token

mutual
  pub data Node : Type 0 where
    scalar_node : Str → Node
    mapping_node : Pairs → Node
    sequence_node : Children → Node

  pub data Pairs : Type 0 where
    no_pairs : Pairs
    pair : Str → Node → Pairs → Pairs

  pub data Children : Type 0 where
    no_children : Children
    child : Node → Children → Children
