-- ===== src/Resolve/Program.antt =====
-- HDResolveProgram of src/resolve.c. The functions of the table and the declarations among the
-- program's statements are in the same order, so a loop over the table's functions is a loop over
-- those declarations with a counter.
use holy_d.Prelude.{ℕ, suc, Bool, true, false, some, none, []}
use holy_d.Syntax.{Node, null, block, func_decl, Nodes, nil, cons, TypeSyntax, Parameters}
use holy_d.Resolve.Table.{Resolution}
use holy_d.Resolve.Scopes.{add_function}
use holy_d.Resolve.Walk.{visit_parameters, visit_type}
use holy_d.Resolve.Collect.{
  collect_explicit, collect_implicit, add_parameters, link_fallbacks, resolve_node, enter_name,
}
use holy_d.Resolve.Labels.{walk_labels, walk_loops, resolution_error}

abbrev pub resolution_init : Resolution
resolution_init = record {
  symbols = [];
  bindings = [];
  functions = [];
  labels = [];
  gotos = [];
  global_slot_count = 0;
  had_error = false;
}

-- The declarations of functions among the statements.
unfoldable pub add_functions : Nodes → Resolution → Resolution
add_functions nil r = r
add_functions (cons (func_decl id _ _ _ _) rest) r = add_functions rest (add_function id r)
add_functions (cons _ rest) r = add_functions rest r

-- A loop over the statements that declare no function.
unfoldable pub each_statement : (Node → Resolution → Resolution) → Nodes → Resolution → Resolution
each_statement visit nil r = r
each_statement visit (cons null rest) r = each_statement visit rest r
each_statement visit (cons (func_decl _ _ _ _ _) rest) r = each_statement visit rest r
each_statement visit (cons node rest) r = each_statement visit rest (visit node r)

-- A function's index, return type, parameters and body.
abbrev pub Visitor : Type 0
Visitor = ℕ → TypeSyntax → Parameters → Node → Resolution → Resolution

-- A loop over the functions, the first of which has the given index.
unfoldable pub each_function : Visitor → ℕ → Nodes → Resolution → Resolution
each_function visit i nil r = r
each_function visit i (cons (func_decl _ type _ parameters body) rest) r =
    each_function visit (suc i) rest (visit i type parameters body r)
each_function visit i (cons _ rest) r = each_function visit i rest r

unfoldable pub collect_function : Visitor
collect_function i type parameters body r =
    collect_implicit (some i) body (collect_explicit (some i) body (add_parameters i parameters r))

unfoldable pub resolve_function : Visitor
resolve_function i type parameters body r =
    let r = visit_type (enter_name (some i)) type r in
    let r = visit_parameters (enter_name (some i)) parameters r in resolve_node (some i) body r

unfoldable pub label_pass : Bool → Nodes → Resolution → Resolution
label_pass collect statements r =
    let r = each_statement (walk_labels none collect []) statements r in
    each_function (λ i _ _ body. walk_labels (some i) collect [] body) 0 statements r

unfoldable pub collect_names : Nodes → Resolution → Resolution
collect_names statements r =
    let r = add_functions statements r in
    let r = each_statement (collect_explicit none) statements r in
    let r = each_statement (collect_implicit none) statements r in
    each_function collect_function 0 statements r

unfoldable pub resolve_names : Nodes → Resolution → Resolution
resolve_names statements r =
    let r = each_statement (resolve_node none) statements r in
    each_function resolve_function 0 statements r

unfoldable pub check_loops : Nodes → Resolution → Resolution
check_loops statements r =
    let r = each_statement (walk_loops 0) statements r in
    each_function (λ _ _ _ body. walk_loops 0 body) 0 statements r

unfoldable pub resolve_program : Node → Resolution
resolve_program (block statements) =
    let r = link_fallbacks (collect_names statements resolution_init) in
    let r = label_pass false statements (label_pass true statements (resolve_names statements r)) in
    check_loops statements r
resolve_program _ = resolution_error resolution_init
