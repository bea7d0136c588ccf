-- ===== src/Resolve/Walk.antt =====
-- visit_type and visit_children of src/resolve.c with the guard that every visitor of theirs begins
-- with: nothing is done on a missing node or behind an error, and a visitor then does its own part
-- of the node, `enter`, and visits the children.
use holy_d.Prelude.{if◌then◌else◌}
use holy_d.Syntax.{
  Node, null, binary_op, unary_op, cast_to, ternary_op, call, array_literal, index_expr,
  array_len_expr, member_access, member_assign, member_call, var_decl, assign, index_assign, block,
  if_stmt, while_stmt, for_stmt, foreach_stmt, return_stmt, Nodes, nil, cons, TypeSyntax,
  pointer_type, static_array_type, dynamic_array_type, assoc_array_type, function_type,
  delegate_type, qualified_type, typeof_type, Parameters, no_more, parameter,
}
use holy_d.Resolve.Table.{Resolution}

module _ (enter : Node → Resolution → Resolution) where
  -- A visit of a node whose children are visited by `children`.
  unfoldable pub guarded : Node → (Resolution → Resolution) → Resolution → Resolution
  guarded node children r = if r.had_error then r else children (enter node r)

  unfoldable mutual
    pub visit : Node → Resolution → Resolution
    visit null r = r
    visit (binary_op n left right) r =
        guarded (binary_op n left right) (λ r. visit right (visit left r)) r
    visit (unary_op n operand) r = guarded (unary_op n operand) (λ r. visit operand r) r
    visit (cast_to type e) r = guarded (cast_to type e) (λ r. visit e (visit_type type r)) r
    visit (ternary_op c yes_expr no_expr) r =
        guarded (ternary_op c yes_expr no_expr) (λ r. visit no_expr (visit yes_expr (visit c r))) r
    visit (call n arguments) r = guarded (call n arguments) (λ r. visit_all arguments r) r
    visit (array_literal elements) r =
        guarded (array_literal elements) (λ r. visit_all elements r) r
    visit (index_expr target index) r =
        guarded (index_expr target index) (λ r. visit index (visit target r)) r
    visit (array_len_expr target) r = guarded (array_len_expr target) (λ r. visit target r) r
    visit (member_access target n) r = guarded (member_access target n) (λ r. visit target r) r
    visit (member_assign target value) r =
        guarded (member_assign target value) (λ r. visit value (visit target r)) r
    visit (member_call target n arguments) r =
        guarded (member_call target n arguments) (λ r. visit_all arguments (visit target r)) r
    visit (var_decl n type m initializer) r =
        guarded (var_decl n type m initializer) (λ r. visit initializer (visit_type type r)) r
    visit (assign n m value) r = guarded (assign n m value) (λ r. visit value r) r
    visit (index_assign target index value) r =
        guarded (index_assign target index value) (λ r. visit value (visit index (visit target r)))
          r
    visit (block statements) r = guarded (block statements) (λ r. visit_all statements r) r
    visit (if_stmt c then_branch else_branch) r =
        guarded (if_stmt c then_branch else_branch)
          (λ r. visit else_branch (visit then_branch (visit c r))) r
    visit (while_stmt c body) r = guarded (while_stmt c body) (λ r. visit body (visit c r)) r
    visit (for_stmt initializer c increment body) r =
        guarded (for_stmt initializer c increment body)
          (λ r. visit body (visit increment (visit c (visit initializer r)))) r
    visit (foreach_stmt n variable_type m index_type k array body) r =
        guarded (foreach_stmt n variable_type m index_type k array body)
          (λ r. visit body (visit array (visit_type index_type (visit_type variable_type r)))) r
    visit (return_stmt e) r = guarded (return_stmt e) (λ r. visit e r) r
    visit node r = guarded node (λ r. r) r

    pub visit_all : Nodes → Resolution → Resolution
    visit_all nil r = r
    visit_all (cons node rest) r = visit_all rest (visit node r)

    pub visit_type : TypeSyntax → Resolution → Resolution
    visit_type (pointer_type pointee) r = visit_type pointee r
    visit_type (static_array_type element size) r = visit size (visit_type element r)
    visit_type (dynamic_array_type element) r = visit_type element r
    visit_type (assoc_array_type value key) r = visit_type key (visit_type value r)
    visit_type (function_type return_type parameters) r =
        visit_parameters parameters (visit_type return_type r)
    visit_type (delegate_type return_type parameters) r =
        visit_parameters parameters (visit_type return_type r)
    visit_type (qualified_type _ base) r = visit_type base r
    visit_type (typeof_type e) r = visit e r
    visit_type _ r = r

    pub visit_parameters : Parameters → Resolution → Resolution
    visit_parameters no_more r = r
    visit_parameters (parameter type _ default_value _ _ rest) r =
        visit_parameters rest (visit default_value (visit_type type r))
