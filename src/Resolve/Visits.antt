-- ===== src/Resolve/Visits.antt =====
-- What every visitor of src/resolve.c keeps that keeps it at each single node.
use holy_d.Prelude.{if_either}
use holy_d.Syntax.{
  Node, null, binary_op, unary_op, cast_to, ternary_op, call, array_literal, index_expr,
  array_len_expr, member_access, member_assign, member_call, var_decl, assign, index_assign, block,
  if_stmt, while_stmt, for_stmt, foreach_stmt, return_stmt, Nodes, nil, cons, TypeSyntax,
  pointer_type, static_array_type, dynamic_array_type, assoc_array_type, function_type,
  delegate_type, qualified_type, typeof_type, Parameters, no_more, parameter,
}
use holy_d.Resolve.Table.{Resolution}
use holy_d.Resolve.Walk.{guarded, visit, visit_all, visit_type, visit_parameters}

module _ (P : Resolution → Type 0) (enter : Node → Resolution → Resolution)
    (keeps : (node : Node) (r : Resolution) → P r → P (enter node r)) where
  guarded-keeps :
      (node : Node) (children : Resolution → Resolution) (r : Resolution)
      → ((q : Resolution) → P q → P (children q))
      → P r
      → P (guarded enter node children r)
  unfolding guarded
  guarded-keeps node children r on p =
      if_either P r.had_error p (on (enter node r) (keeps node r p))

  mutual
    unfolding visit

    pub visit-keeps : (node : Node) (r : Resolution) → P r → P (visit enter node r)
    visit-keeps null r p = p
    visit-keeps (binary_op n left right) r p =
        guarded-keeps (binary_op n left right) _ r
          (λ r p. visit-keeps right _ (visit-keeps left _ p)) p
    visit-keeps (unary_op n operand) r p =
        guarded-keeps (unary_op n operand) _ r (λ r p. visit-keeps operand _ p) p
    visit-keeps (cast_to type e) r p =
        guarded-keeps (cast_to type e) _ r (λ r p. visit-keeps e _ (visit_type-keeps type _ p)) p
    visit-keeps (ternary_op c yes_expr no_expr) r p =
        guarded-keeps (ternary_op c yes_expr no_expr) _ r
          (λ r p. visit-keeps no_expr _ (visit-keeps yes_expr _ (visit-keeps c _ p))) p
    visit-keeps (call n arguments) r p =
        guarded-keeps (call n arguments) _ r (λ r p. visit_all-keeps arguments _ p) p
    visit-keeps (array_literal elements) r p =
        guarded-keeps (array_literal elements) _ r (λ r p. visit_all-keeps elements _ p) p
    visit-keeps (index_expr target index) r p =
        guarded-keeps (index_expr target index) _ r
          (λ r p. visit-keeps index _ (visit-keeps target _ p)) p
    visit-keeps (array_len_expr target) r p =
        guarded-keeps (array_len_expr target) _ r (λ r p. visit-keeps target _ p) p
    visit-keeps (member_access target n) r p =
        guarded-keeps (member_access target n) _ r (λ r p. visit-keeps target _ p) p
    visit-keeps (member_assign target value) r p =
        guarded-keeps (member_assign target value) _ r
          (λ r p. visit-keeps value _ (visit-keeps target _ p)) p
    visit-keeps (member_call target n arguments) r p =
        guarded-keeps (member_call target n arguments) _ r
          (λ r p. visit_all-keeps arguments _ (visit-keeps target _ p)) p
    visit-keeps (var_decl n type m initializer) r p =
        guarded-keeps (var_decl n type m initializer) _ r
          (λ r p. visit-keeps initializer _ (visit_type-keeps type _ p)) p
    visit-keeps (assign n m value) r p =
        guarded-keeps (assign n m value) _ r (λ r p. visit-keeps value _ p) p
    visit-keeps (index_assign target index value) r p =
        guarded-keeps (index_assign target index value) _ r
          (λ r p. visit-keeps value _ (visit-keeps index _ (visit-keeps target _ p))) p
    visit-keeps (block statements) r p =
        guarded-keeps (block statements) _ r (λ r p. visit_all-keeps statements _ p) p
    visit-keeps (if_stmt c then_branch else_branch) r p =
        guarded-keeps (if_stmt c then_branch else_branch) _ r
          (λ r p. visit-keeps else_branch _ (visit-keeps then_branch _ (visit-keeps c _ p))) p
    visit-keeps (while_stmt c body) r p =
        guarded-keeps (while_stmt c body) _ r (λ r p. visit-keeps body _ (visit-keeps c _ p)) p
    visit-keeps (for_stmt initializer c increment body) r p =
        guarded-keeps (for_stmt initializer c increment body) _ r
          (λ r p.
            visit-keeps body _
              (visit-keeps increment _ (visit-keeps c _ (visit-keeps initializer _ p))))
          p
    visit-keeps (foreach_stmt n variable_type m index_type k array body) r p =
        guarded-keeps (foreach_stmt n variable_type m index_type k array body) _ r
          (λ r p. visit-keeps body _ (
            visit-keeps array _
              (visit_type-keeps index_type _ (visit_type-keeps variable_type _ p))))
          p
    visit-keeps (return_stmt e) r p = guarded-keeps (return_stmt e) _ r (λ r p. visit-keeps e _ p) p
    visit-keeps node r p = guarded-keeps node _ r (λ r p. p) p

    pub visit_all-keeps : (nodes : Nodes) (r : Resolution) → P r → P (visit_all enter nodes r)
    visit_all-keeps nil r p = p
    visit_all-keeps (cons node rest) r p = visit_all-keeps rest _ (visit-keeps node _ p)

    pub visit_type-keeps : (type : TypeSyntax) (r : Resolution) → P r → P (visit_type enter type r)
    visit_type-keeps (pointer_type pointee) r p = visit_type-keeps pointee r p
    visit_type-keeps (static_array_type element size) r p =
        visit-keeps size _ (visit_type-keeps element _ p)
    visit_type-keeps (dynamic_array_type element) r p = visit_type-keeps element _ p
    visit_type-keeps (assoc_array_type value key) r p =
        visit_type-keeps key _ (visit_type-keeps value _ p)
    visit_type-keeps (function_type return_type parameters) r p =
        visit_parameters-keeps parameters _ (visit_type-keeps return_type _ p)
    visit_type-keeps (delegate_type return_type parameters) r p =
        visit_parameters-keeps parameters _ (visit_type-keeps return_type _ p)
    visit_type-keeps (qualified_type _ base) r p = visit_type-keeps base _ p
    visit_type-keeps (typeof_type e) r p = visit-keeps e _ p
    visit_type-keeps _ r p = p

    pub visit_parameters-keeps :
        (parameters : Parameters) (r : Resolution) → P r → P (visit_parameters enter parameters r)
    visit_parameters-keeps no_more r p = p
    visit_parameters-keeps (parameter type _ default_value _ _ rest) r p =
        visit_parameters-keeps rest _ (visit-keeps default_value _ (visit_type-keeps type _ p))
