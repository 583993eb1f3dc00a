-- ===== src/Tests/Checking.antt =====
-- Tests of the modules on typechecker/typechecker.go.
use sydney.Base.{String, List, [], ◌∷◌, ◌≡◌, refl, false, some, panic, lookup}
use sydney.Types.{Ty, substitute_type_params}
use sydney.Parser.Tree.{Node, Block, Statement, Statements}
use sydney.TypeChecker.{unify_type}
use sydney.TypeChecker.Inference.{of_parameter, of_array, of_map, unify-substitute}
use sydney.TypeChecker.Paths.{
  all_paths_return, at_last, through_alternative, GivesValue, all_paths_return-GivesValue,
}

-- map<K, array<K>>
abbrev table : Ty
table = Ty.map_type (Ty.type_param_ref "K") (Ty.array (Ty.type_param_ref "K") false) false

abbrev types : List (String × Ty)
types = ("K", Ty.basic "int") ∷ []

unify-substitute_example :
    substitute_type_params table (unify_type table (substitute_type_params table types) [])
    ≡ substitute_type_params table types
unfolding lookup
unify-substitute_example = unify-substitute table types (
    of_map (Ty.type_param_ref "K") (Ty.array (Ty.type_param_ref "K") false) false
      (of_parameter "K" (Ty.basic "int") refl)
      (of_array (Ty.type_param_ref "K") false (of_parameter "K" (Ty.basic "int") refl)))

-- if (c) { return 1; } else { 2; }
abbrev else_part : Statements
else_part =
    Statements.then_stmt (Statement.expression_stmt (Node.integer_literal 2)) Statements.done

abbrev choice : Statement
choice = Statement.expression_stmt (
    Node.if_expr (Node.identifier (99 ∷ []))
      (Block.block
        (Statements.then_stmt (Statement.return_stmt (Node.integer_literal 1)) Statements.done))
      (Block.block else_part))

abbrev body : Block
body =
    Block.block
      (Statements.then_stmt Statement.break_stmt (Statements.then_stmt choice Statements.done))

all_paths_return-GivesValue_example :
    GivesValue (some (Statement.expression_stmt (Node.integer_literal 2)))
unfolding all_paths_return
all_paths_return-GivesValue_example =
    all_paths_return-GivesValue body (some (Statement.expression_stmt (Node.integer_literal 2)))
      refl
      (through_alternative
        (Statements.then_stmt Statement.break_stmt (Statements.then_stmt choice Statements.done))
        (Node.identifier (99 ∷ []))
        (Block.block
          (Statements.then_stmt (Statement.return_stmt (Node.integer_literal 1)) Statements.done))
        (Block.block else_part) (some (Statement.expression_stmt (Node.integer_literal 2))) refl
        (at_last else_part (Statement.expression_stmt (Node.integer_literal 2)) refl refl))

-- A match on an option at the end is a nil pointer's field.
option_match_panics :
    all_paths_return (
      Block.block (
        Statements.then_stmt
          (Statement.expression_stmt
            (Node.match_option (Node.identifier (99 ∷ [])) (120 ∷ []) body body))
          Statements.done))
    ≡ panic
unfolding all_paths_return
option_match_panics = refl
