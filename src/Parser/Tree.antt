-- ===== src/Parser/Tree.antt =====
-- ast/ast.go: the nodes as the parser makes them. A name or a text is the list of its bytes; `no_expr`
-- is Go's nil. Of the tokens that nodes keep, the operators' texts and the names are kept.
use sydney.Base.{ℕ, List, [], ◌∷◌, Bool, Option}
use sydney.Types.{Ty}

mutual
  pub data Node : Type 0 where
    no_expr : Node
    integer_literal float_literal byte_literal : ℕ → Node
    string_literal : List ℕ → Node
    boolean_literal : Bool → Node
    null_literal : Node
    identifier : List ℕ → Node
    prefix_expr : List ℕ → Node → Node
    -- Operator, Left, Right
    infix_expr : List ℕ → Node → Node → Node
    -- Condition, Consequence, Alternative
    if_expr : Node → Block → Block → Node
    -- Name, Parameters, Type, Body
    function_literal : List ℕ → List (List ℕ) → Ty → Block → Node
    array_literal : Nodes → Node
    -- The pairs in the order of the source.
    hash_literal : Pairs → Node
    -- Parameters, Body
    macro_literal : List (List ℕ) → Block → Node
    -- Name, Fields, Values, Module, TypeArgs
    struct_literal : List ℕ → List (List ℕ) → Nodes → List ℕ → List Ty → Node
    -- Function, Arguments, TypeArgs
    call_expr : Node → Nodes → List Ty → Node
    index_expr : Node → Node → Node
    -- Left, Value
    selector_expr : Node → Node → Node
    -- Module, Member
    scope_access_expr : List ℕ → List ℕ → Node
    -- Subject, the bindings and the bodies of OkArm and ErrArm, or of SomeArm and NoneArm
    match_result : Node → List ℕ → Block → List ℕ → Block → Node
    match_option : Node → List ℕ → Block → Block → Node
    -- Subject, Arms, Default
    match_type_expr : Node → TypeArms → Block → Node
    -- Left, Start, End
    slice_expr : Node → Node → Node → Node
    receive_expr : Node → Node
    -- Type, Capacity
    channel_constructor : Ty → Node → Node

  pub data Nodes : Type 0 where
    nil : Nodes
    cons : Node → Nodes → Nodes

  pub data Pairs : Type 0 where
    no_pairs : Pairs
    pair : Node → Node → Pairs → Pairs

  pub data TypeArms : Type 0 where
    no_arms : TypeArms
    -- Type, Binding, Body
    arm : Ty → List ℕ → Block → TypeArms → TypeArms

  pub data Block : Type 0 where
    no_block : Block
    block : Statements → Block

  pub data Statement : Type 0 where
    -- nil, and a nil pointer of a type of statement, which is not nil
    no_stmt nil_pointer : Statement
    expression_stmt : Node → Statement
    -- Name, Constant, Type, Value
    var_declaration : List ℕ → Bool → Option Ty → Node → Statement
    var_assignment : List ℕ → Node → Statement
    -- Left's Left and Index, Value
    index_assignment : Node → Node → Node → Statement
    -- Left's Left and Value, Value
    selector_assignment : Node → Node → Node → Statement
    return_stmt : Node → Statement
    -- Init, Condition, Post, Body
    for_stmt : Statement → Node → Statement → Block → Statement
    -- Key, Value, Iterable, Body
    for_in_stmt : Option (List ℕ) → List ℕ → Node → Block → Statement
    -- Name, TypeParams, Params, Type, Body, IsExtern
    function_declaration : List ℕ → List Ty → List (List ℕ) → Ty → Block → Bool → Statement
    -- Name, Type, Annotations with name and arguments
    struct_definition : List ℕ → Ty → Option (List ℕ × List (List ℕ)) → Statement
    interface_definition : List ℕ → Ty → Statement
    import_statement module_declaration : List ℕ → Statement
    pub_statement : Statement → Statement
    break_stmt continue_stmt : Statement
    spawn_stmt : Node → Statement
    -- Chan, Value
    send_stmt : Node → Node → Statement

  pub data Statements : Type 0 where
    done : Statements
    then_stmt : Statement → Statements → Statements

-- Go slices of nodes, from lists.
unfoldable pub nodes : List Node → Nodes
nodes [] = nil
nodes (e ∷ es) = cons e (nodes es)

unfoldable pub pairs : List (Node × Node) → Pairs
pairs [] = no_pairs
pairs ((k, v) ∷ ps) = pair k v (pairs ps)

unfoldable pub statements : List Statement → Statements
statements [] = done
statements (s ∷ ss) = then_stmt s (statements ss)

unfoldable pub type_arms : List (Ty × List ℕ × Block) → TypeArms
type_arms [] = no_arms
type_arms ((t, binding, body) ∷ arms) = arm t binding body (type_arms arms)
