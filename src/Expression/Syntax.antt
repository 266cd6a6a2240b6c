-- ===== src/Expression/Syntax.antt =====
-- core/expression/token.go and core/expression/ast.go. A float64 is a parameter `F`; a list of
-- arguments is a data type of its own, since it holds expressions.
use scrutineer.Prelude.{Bool, Str}

pub data TokenType : Type 0 where
  ident : TokenType
  l_paren : TokenType
  r_paren : TokenType
  comma : TokenType
  string : TokenType
  number : TokenType
  bool : TokenType

-- The type of the token and its text.
pub data Token : Type 0 where
  token : TokenType → Str → Token

mutual
  pub data Expr (F : Type 0) : Type 0 where
    func_call : Str → Args F → Expr F
    string_lit : Str → Expr F
    number_lit : F → Bool → Expr F
    bool_lit : Bool → Expr F
    var_ref : Str → Expr F

  pub data Args (F : Type 0) : Type 0 where
    no_args : Args F
    arg : Expr F → Args F → Args F
