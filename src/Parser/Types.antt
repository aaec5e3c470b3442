-- ===== src/Parser/Types.antt =====
-- src/app/parser.cxx: parse_type.
use eokas_lang.Prelude.{Bytes, if◌then◌else◌}
use eokas_lang.Token.{TokenType}
use eokas_lang.Ast.{TypeNode, TypeNodes, type_node, no_types}
use eokas_lang.Parser.Nodes.{push_type, types_empty}
use eokas_lang.Parser.Source.{TokenSource}
use eokas_lang.Parser.Monad.{
  M, ◌>>=◌, ◌>>◌, pure, return_null, next_token, error, type_arguments_empty,
}
use eokas_lang.Parser.Checks.{accept, require, require_id}
use eokas_lang.Parser.Loops.{Callees, until_token}

module _ ⦃src : TokenSource⦄ (self : Callees) where
  -- A round of the loop over the arguments.
  unfoldable pub type_argument : TypeNodes → M TypeNodes
  type_argument args = do
    if types_empty args then pure tt else require TokenType.comma
    arg ← self.parse_type
    pure (push_type args arg)

  -- The arguments, behind `<`.
  unfoldable pub type_arguments : Bytes → M TypeNode
  type_arguments name = do
    args ← until_token self.rounds TokenType.gt type_argument no_types
    if types_empty args
        then (do error type_arguments_empty; return_null)
        else pure (type_node name args)

  -- parser_t::parse_type
  unfoldable pub parse_type : M TypeNode
  parse_type = do
    name ← require_id
    next_token
    opened ← accept TokenType.lt
    if opened then type_arguments name else pure (type_node name no_types)
