-- ===== src/Compiler/Statement.antt =====
-- compile_statement, compile_block and compile_foreach of src/compiler.c. `has` tells which names are
-- functions that the program has already.
use holy_d.Prelude.{ℕ, ◌+◌, Bool, Option, some, none, List, [], ◌∷◌, ◌++◌, if◌then◌else◌}
use holy_d.Prelude.Int.{pos}
use holy_d.Prelude.Text.{bytes}
use holy_d.Syntax.{
  Name, NodeId, Node, Nodes, nil, cons, null, text, var_decl, var_ref, assign, index_assign, block,
  if_stmt, while_stmt, for_stmt, foreach_stmt, goto_stmt, label_stmt, break_stmt, continue_stmt,
  func_decl, return_stmt,
}
use holy_d.Runtime.Print.{print_int}
use holy_d.Vm.Bytecode.{
  Instruction, make_ins, int_ins, text_ins, count_ins, call_ins, jump_ins, variable_load,
  variable_define, variable_store, local_define, local_store, global_define, global_store,
  array_set, array_get, array_length, compare_lt, math_add, flow_jump, flow_jump_if_false,
  function_return, stack_pop,
}
use holy_d.Resolve.Table.{
  Resolution, BindingRole, declaration_role, write_role, foreach_value_role, foreach_index_role,
  resolution_label_index, resolution_goto_label,
}
use holy_d.Compiler.State.{
  State, LoopScope, here, emit, patch_jump, compile_error, symbol_for, variable_ins, push_loop,
  pop_loop, patch_loop_continues, patch_loop_breaks, declare_label, find_label_ip, add_pending_goto,
}
use holy_d.Compiler.Expression.{Emitter, emit_int, compile_expression}

abbrev pub define_ins : Resolution → NodeId → BindingRole → Name → Instruction
define_ins r node role name =
    variable_ins r (symbol_for r node role) local_define global_define variable_define name

abbrev pub store_ins : Resolution → NodeId → Name → Instruction
store_ins r node name =
    variable_ins r (symbol_for r node write_role) local_store global_store variable_store name

-- AST_RETURN
unfoldable pub compile_return : Resolution → Node → State → State
unfolding compile_expression
compile_return r e s = emit (make_ins function_return) (compile_expression r e s)

-- AST_IF; a missing else branch emits nothing.
unfoldable pub compile_if : Emitter → Emitter → Emitter → Emitter
compile_if condition then_branch else_branch s =
    let s = condition s in
    let else_jump = here s in
    let s = then_branch (emit (jump_ins flow_jump_if_false) s) in
    let end_jump = here s in
    let s = patch_jump else_jump (emit (jump_ins flow_jump) s) in
    patch_jump end_jump (else_branch s)

-- AST_WHILE and AST_FOR behind the initializer: `continue` lands on the increment.
unfoldable pub compile_loop : Emitter → Emitter → Emitter → Emitter
compile_loop condition body increment s =
    let loop_start = here s in
    let s = condition s in
    let exit_jump = here s in
    let s = body (push_loop (emit (jump_ins flow_jump_if_false) s)) in
    let s = increment (patch_loop_continues s) in
    let s = patch_jump exit_jump (emit (count_ins flow_jump loop_start) s) in
    pop_loop (patch_loop_breaks s)

-- make_temp_name, without the counter's step. 32 characters hold any such name.
abbrev pub temp_name : ℕ → List ℕ → Name
temp_name n suffix = bytes "$foreach_" ++ (print_int (pos n) ++ (bytes "_" ++ suffix))

abbrev pub emit_all : List Instruction → Emitter
emit_all [] s = s
emit_all (ins ∷ rest) s = emit_all rest (emit ins s)

abbrev pub foreach_test : Name → Name → List Instruction
foreach_test array_name index_name =
    text_ins variable_load index_name
    ∷ text_ins variable_load array_name
    ∷ make_ins array_length
    ∷ make_ins compare_lt
    ∷ []

abbrev pub foreach_element : Name → Name → Instruction → List Instruction
foreach_element array_name index_name define =
    text_ins variable_load array_name
    ∷ text_ins variable_load index_name
    ∷ make_ins array_get
    ∷ define
    ∷ []

abbrev pub foreach_index : Name → Option Instruction → List Instruction
foreach_index index_name none = []
foreach_index index_name (some define) = text_ins variable_load index_name ∷ define ∷ []

abbrev pub foreach_bump : Name → Emitter
foreach_bump index_name s =
    emit_all (make_ins math_add ∷ text_ins variable_store index_name ∷ [])
      (emit_int 1 (emit (text_ins variable_load index_name) s))

abbrev pub foreach_start : Name → Name → List Instruction
foreach_start array_name index_name =
    text_ins variable_define array_name ∷ int_ins (pos 0) ∷ text_ins variable_define index_name ∷ []

-- compile_foreach behind the array's expression: the loop over hidden variables for the array and the
-- index, with the instructions that define the visible ones.
unfoldable pub foreach_loop : Name → Name → Instruction → Option Instruction → Emitter → Emitter
foreach_loop array_name index_name value_define index_define body s =
    let s = emit_all (foreach_start array_name index_name) s in
    let loop_start = here s in
    let s = emit_all (foreach_test array_name index_name) s in
    let exit_jump = here s in
    let s =
      emit_all (foreach_element array_name index_name value_define)
        (emit (jump_ins flow_jump_if_false) s) in
    let s = body (push_loop (emit_all (foreach_index index_name index_define) s)) in
    let s = foreach_bump index_name (patch_loop_continues s) in
    let s = patch_jump exit_jump (emit (count_ins flow_jump loop_start) s) in
    pop_loop (patch_loop_breaks s)

unfoldable pub compile_foreach : Instruction → Option Instruction → Emitter → Emitter → Emitter
unfolding print_int foreach_loop
compile_foreach value_define index_define array_expression body s =
    foreach_loop (temp_name s.temp_counter (bytes "array"))
      (temp_name (s.temp_counter + 1) (bytes "index")) value_define index_define body
      (array_expression (record s { temp_counter = s.temp_counter + 2 }))

abbrev pub record_break : ℕ → LoopScope → LoopScope
record_break at loop = record loop { break_jumps = loop.break_jumps ++ at ∷ [] }

abbrev pub record_continue : ℕ → LoopScope → LoopScope
record_continue at loop = record loop { continue_jumps = loop.continue_jumps ++ at ∷ [] }

-- AST_BREAK and AST_CONTINUE: a jump that the innermost loop will patch.
abbrev pub compile_leave : (ℕ → LoopScope → LoopScope) → Emitter
compile_leave record_jump s = elim s.loops [
  | [] ↦ compile_error s
  | loop ∷ rest ↦ record (emit (jump_ins flow_jump) s) { loops = record_jump (here s) loop ∷ rest }
]

-- A label that is not in the resolution has index -1, which no goto looks for.
abbrev pub compile_label : Option ℕ → Emitter
compile_label none s = s
compile_label (some label) s = declare_label label s

abbrev pub compile_goto : Option ℕ → Emitter
compile_goto none s = compile_error s
compile_goto (some label) s = elim (find_label_ip s.labels label) [
  | some ip ↦ emit (count_ins flow_jump ip) s
  | none ↦ add_pending_goto label (here s) (emit (jump_ins flow_jump) s)
]

abbrev pub for_condition : Resolution → Node → Emitter
for_condition r null s = emit_int 1 s
for_condition r condition s = compile_expression r condition s

abbrev pub index_define_of : Resolution → NodeId → Option Name → Option Instruction
index_define_of r node none = none
index_define_of r node (some name) = some (define_ins r node foreach_index_role name)

unfoldable mutual
  pub compile_statement : Resolution → (Name → Bool) → Node → Emitter
  compile_statement r has null s = s
  compile_statement r has (var_decl node type name initializer) s =
      emit (define_ins r node declaration_role name) (compile_expression r initializer s)
  compile_statement r has (assign node name value) s =
      emit (store_ins r node name) (compile_expression r value s)
  compile_statement r has (index_assign target index value) s =
      emit (make_ins array_set)
        (compile_expression r value (compile_expression r index (compile_expression r target s)))
  compile_statement r has (block statements) s = compile_block r has statements s
  compile_statement r has (if_stmt condition then_branch else_branch) s =
      compile_if (compile_expression r condition) (compile_statement r has then_branch)
        (compile_statement r has else_branch) s
  compile_statement r has (while_stmt condition body) s =
      compile_loop (compile_expression r condition) (compile_statement r has body) (λ s. s) s
  compile_statement r has (for_stmt initializer condition increment body) s =
      compile_loop (for_condition r condition) (compile_statement r has body)
        (compile_statement r has increment) (compile_statement r has initializer s)
  compile_statement r has (foreach_stmt node type name index_type index_name array body) s =
      compile_foreach (define_ins r node foreach_value_role name)
        (index_define_of r node index_name) (compile_expression r array)
        (compile_statement r has body) s
  compile_statement r has (func_decl _ _ _ _ _) s = s
  compile_statement r has (return_stmt e) s = compile_return r e s
  compile_statement r has (text value) s =
      emit (make_ins stack_pop)
        (emit (call_ins (bytes "Print") 1) (compile_expression r (text value) s))
  compile_statement r has (var_ref node name) s =
      emit (make_ins stack_pop)
        (if has name then emit (call_ins name 0) s else compile_expression r (var_ref node name) s)
  compile_statement r has (label_stmt node _) s = compile_label (resolution_label_index r node) s
  compile_statement r has break_stmt s = compile_leave record_break s
  compile_statement r has continue_stmt s = compile_leave record_continue s
  compile_statement r has (goto_stmt node _) s = compile_goto (resolution_goto_label r node) s
  compile_statement r has e s = emit (make_ins stack_pop) (compile_expression r e s)

  pub compile_block : Resolution → (Name → Bool) → Nodes → Emitter
  compile_block r has nil s = s
  compile_block r has (cons statement rest) s =
      compile_block r has rest (compile_statement r has statement s)
