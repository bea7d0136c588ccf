-- ===== src/Syntax.antt =====
-- The syntax tree of src/ast/ast.h and src/ast/type_syntax.h. A pointer that may be NULL is a node
-- that may be `null`; a name is its bytes. A node that the resolver records by its address carries
-- that address as a number.
pub mod Token
use holy_d.Prelude.{ℕ, Bool, Option, List}
use holy_d.Prelude.Int.{ℤ}
use Token.{TokenType}

abbrev pub Name : Type 0
Name = List ℕ

-- The address of a node.
abbrev pub NodeId : Type 0
NodeId = ℕ

-- A double is the 64-bit pattern that stands for it.
abbrev pub Double : Type 0
Double = ℕ

pub data TypeQualifier : Type 0 where
  qualifier_const qualifier_immutable qualifier_shared qualifier_inout : TypeQualifier

mutual
  pub data Node : Type 0 where
    null : Node
    number : ℤ → Bool → Node
    float : Double → Node
    text : List ℕ → Node
    var_decl : NodeId → TypeSyntax → Name → Node → Node
    var_ref : NodeId → Name → Node
    assign : NodeId → Name → Node → Node
    index_assign : Node → Node → Node → Node
    binary_op : TokenType → Node → Node → Node
    unary_op : TokenType → Node → Node
    cast_to : TypeSyntax → Node → Node
    ternary_op : Node → Node → Node → Node
    call : Name → Nodes → Node
    array_literal : Nodes → Node
    index_expr : Node → Node → Node
    array_len_expr : Node → Node
    member_access : Node → Name → Node
    member_assign : Node → Node → Node
    member_call : Node → Name → Nodes → Node
    block : Nodes → Node
    if_stmt : Node → Node → Node → Node
    while_stmt : Node → Node → Node
    for_stmt : Node → Node → Node → Node → Node
    foreach_stmt : NodeId → TypeSyntax → Name → TypeSyntax → Option Name → Node → Node → Node
    goto_stmt : NodeId → Name → Node
    label_stmt : NodeId → Name → Node
    break_stmt continue_stmt : Node
    func_decl : NodeId → TypeSyntax → Name → Parameters → Node → Node
    this_expr : Node
    constructor_decl : Parameters → Node → Node
    class_decl : Name → TypeSyntax → Nodes → Node
    return_stmt : Node → Node

  pub data Nodes : Type 0 where
    nil : Nodes
    cons : Node → Nodes → Nodes

  pub data TypeSyntax : Type 0 where
    no_type : TypeSyntax
    named_type : Name → TypeSyntax
    pointer_type : TypeSyntax → TypeSyntax
    static_array_type : TypeSyntax → Node → TypeSyntax
    dynamic_array_type : TypeSyntax → TypeSyntax
    assoc_array_type : TypeSyntax → TypeSyntax → TypeSyntax
    function_type : TypeSyntax → Parameters → TypeSyntax
    delegate_type : TypeSyntax → Parameters → TypeSyntax
    qualified_type : TypeQualifier → TypeSyntax → TypeSyntax
    typeof_type : Node → TypeSyntax

  -- Type, optional name, default value, storage bits, variadic flag.
  pub data Parameters : Type 0 where
    no_more : Parameters
    parameter : TypeSyntax → Option Name → Node → ℕ → Bool → Parameters → Parameters

-- How many nodes a list of them holds (`statement_count` and the like).
abbrev pub node_count : Nodes → ℕ
node_count nil = 0
node_count (cons _ rest) = ℕ.suc (node_count rest)

abbrev pub parameter_count : Parameters → ℕ
parameter_count no_more = 0
parameter_count (parameter _ _ _ _ _ rest) = ℕ.suc (parameter_count rest)
