-- ===== src/Expression.antt =====
-- A call of a template command and its arguments: src/expression/ast.rs.
pub mod Binder
pub mod CliArgs
mod Tests
use earl.Prelude.{List, ◌++◌, ◌∷◌}
use earl.Text.{Text}
use earl.Json.{Value}

pub record CallExpression : Type 0 where
  pub provider : Text
  pub command : Text
  pub positional_args : List Value
  pub named_args : List (Text × Value)

unfoldable pub command_key : CallExpression → Text
command_key call = call.provider ++ b'.' ∷ call.command
