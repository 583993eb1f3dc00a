-- ===== src/Ast.antt =====
-- ast/ast.go: the nodes that the compiler takes, after the type checker. A node keeps what the
-- compiler reads of it: tokens and positions are left out, and so is the type of a node whose type
-- is not read. A node whose cast is set stands under `cast`.
use sydney.Base.{ℕ, String, List, Bool, Option}
use sydney.Types.{Ty}

mutual
  pub data Expr : Type 0 where
    integer_literal float_literal byte_literal : ℕ → Expr
    string_literal : String → Expr
    boolean_literal : Bool → Expr
    null_literal : Expr
    -- Value, ResolvedType
    identifier : String → Option Ty → Expr
    prefix : String → Expr → Expr
    infix_expr : String → Expr → Expr → Expr
    -- Condition, Consequence, Alternative, ResolvedType
    if_expr : Expr → Stmts → Else → Option Ty → Expr
    index_expr : Expr → Expr → Option Ty → Expr
    -- Function, Arguments, MangledName, ResolvedType
    call : Expr → Exprs → String → Option Ty → Expr
    array_literal : Exprs → Expr
    -- The pairs in the order of their keys' texts.
    hash_literal : Pairs → Expr
    -- Name, Parameters, Body
    function_literal : String → List (String × Option Ty) → Stmts → Expr
    -- ResolvedType, its Fields, and Fields with Values
    struct_literal : Ty → List String → List String → Exprs → Expr
    -- Left, the Fields of ContainerType, Value, ResolvedType
    selector : Expr → List String → String → Option Ty → Expr
    -- Module, Member, ResolvedType
    scope_access : String → String → Option Ty → Expr
    -- Subject, the two arms with their bindings, ResolvedType
    match_result : Expr → String → Stmts → String → Stmts → Option Ty → Expr
    match_option : Expr → String → Stmts → Stmts → Option Ty → Expr
    -- Subject, Arms, Default, ResolvedType
    match_type : Expr → Arms → Else → Option Ty → Expr
    -- Left, Start, End
    slice : Expr → OptExpr → OptExpr → Expr
    channel_constructor : OptExpr → Expr
    receive : Expr → Expr
    -- The expression, and the Name and Module of CastTo
    cast : Expr → String → String → Expr

  pub data Exprs : Type 0 where
    nil : Exprs
    cons : Expr → Exprs → Exprs

  pub data Pairs : Type 0 where
    no_pairs : Pairs
    pair : Expr → Expr → Pairs → Pairs

  pub data OptExpr : Type 0 where
    absent : OptExpr
    present : Expr → OptExpr

  -- An alternative, a default arm, or none.
  pub data Else : Type 0 where
    no_else : Else
    else_block : Stmts → Else

  -- Type, Binding and Body of each arm of a type match
  pub data Arms : Type 0 where
    no_arms : Arms
    arm : Ty → String → Stmts → Arms → Arms

  pub data Stmt : Type 0 where
    expression_stmt : Expr → Stmt
    block_stmt : Stmts → Stmt
    -- Name, Constant, Type, Value
    var_declaration : String → Bool → Option Ty → OptExpr → Stmt
    var_assignment : String → Expr → Stmt
    -- Left, Index, Value
    index_assignment : Expr → Expr → Expr → Stmt
    -- Left, the Fields of ContainerType, field, Value
    selector_assignment : Expr → List String → String → Expr → Stmt
    return_stmt : OptExpr → Stmt
    -- Init, Condition, Post, Body
    for_stmt : OptStmt → Expr → OptStmt → Stmts → Stmt
    -- Key, Value with its type, Iterable with its type, Body
    for_in_stmt : Option (String × Option Ty) → String → Option Ty → Expr → Option Ty → Stmts → Stmt
    -- Name, MangledName, Params, Type, Body, IsExtern
    function_declaration : String → String → List String → Ty → Stmts → Bool → Stmt
    break_stmt continue_stmt : Stmt
    -- Function and Arguments of the call
    spawn_stmt : Expr → Exprs → Stmt
    send_stmt : Expr → Expr → Stmt
    pub_statement : Stmt → Stmt
    interface_definition struct_definition : String → Ty → Stmt

  pub data OptStmt : Type 0 where
    no_stmt : OptStmt
    some_stmt : Stmt → OptStmt

  pub data Stmts : Type 0 where
    done : Stmts
    then_stmt : Stmt → Stmts → Stmts
