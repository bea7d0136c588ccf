-- ===== src/Tests/Resolving.antt =====
-- The resolver's properties at concrete inputs.
use holy_d.Prelude.{◌↔◌, same_bytes, ℕ, ◌≡◌, ◌<◌, refl, true, false, some, List, get_elem?}
use holy_d.Prelude.Int.{pos}
use holy_d.Prelude.Text.{bytes}
use holy_d.Syntax.{
  if_stmt, while_stmt, class_decl, break_stmt, label_stmt, goto_stmt, Node, Nodes, nil, cons,
  var_decl, var_ref, assign, number, func_decl, no_type, no_more, parameter, null, block,
}
use holy_d.Resolve.Table.{Symbol, resolution_symbol, local_storage, declared_at, write_role}
use holy_d.Resolve.Scopes.{
  same_storage, find_symbol, join_flags, renewed, change_symbol, next_slot, count_slot, new_symbol,
  add_symbol, ensure_external, add_binding, add_function, scope_storage, scope_symbol, resolve_name,
}
use holy_d.Resolve.Walk.{guarded, visit}
use holy_d.Resolve.Collect.{
  declare, enter_explicit, collect_explicit, enter_implicit, collect_implicit, global_behind,
  has_fallback, fallback_for, link_symbol, link_from, link_fallbacks, enter_name, resolve_node,
  slot_of, declare_parameters, add_parameters,
}
use holy_d.Resolve.Labels.{
  resolution_error, same_scope, names_label, label_from, find_label, foreach_encloses, innermost,
  add_label, may_jump, add_goto, bind_goto, unless_error, walk_labels, walk_loops,
}
use holy_d.Resolve.Program.{
  resolution_init, add_functions, each_statement, each_function, collect_function, resolve_function,
  label_pass, collect_names, resolve_names, check_loops, resolve_program,
}
use holy_d.Resolve.Ends.{link_fallbacks-rank}
use holy_d.Resolve.Linked.{rank}
use holy_d.Resolve.Leaves.{
  Leave, leave_break, leave_block, leave_while, leave_function, leave_first, is_nested, has_loop,
  has_loop_among, is_buried, walk_loops-has_loop, resolve_program-has_loop, LeaveAmong,
}
use holy_d.Resolve.Targets.{resolve_program-gotos}
use holy_d.Resolve.Binds.{IsBound}
use holy_d.Resolve.Queries.{resolution_slot_symbol, resolve_program-resolution_slot_symbol}
use holy_d.Resolve.Apart.{
  resolve_program-slots, resolve_program-HasSlot, resolve_program-resolution_symbol, HasSlot,
}

-- A global `x`, and a function with a parameter `a` that assigns `a` to a new local `b`.
abbrev statements : Nodes
statements = cons (var_decl 1 no_type (bytes "x") (number (pos 5) false)) (
    cons
      (func_decl 2 no_type (bytes "f") (parameter no_type (some (bytes "a")) null 0 false no_more)
        (block (cons (assign 3 (bytes "b") (var_ref 4 (bytes "a"))) nil)))
      nil)

abbrev symbols : List Symbol
symbols = (resolve_program (block statements)).symbols

abbrev local_b : Symbol
local_b = record {
  id = 2;
  slot = some 1;
  storage = local_storage 0;
  flags = record {
    is_parameter = false;
    is_foreach_value = false;
    is_foreach_index = false;
    is_implicit = true;
  };
  name = bytes "b";
  declaration = some (declared_at 3);
  fallback = some 4;
}

table_is :
    (get_elem? (resolve_program (block statements)).symbols 2 ≡ some local_b)
    × (get_elem? (resolve_program (block statements)).bindings 1
        ≡ some (record { node = 3; role = write_role; symbol_id = 2 }))
unfolding same_bytes same_storage find_symbol join_flags renewed change_symbol next_slot count_slot
    new_symbol add_symbol ensure_external add_binding add_function scope_storage scope_symbol
    resolve_name guarded visit declare enter_explicit collect_explicit enter_implicit
    collect_implicit global_behind has_fallback fallback_for link_symbol link_from link_fallbacks
    enter_name resolve_node slot_of declare_parameters add_parameters resolution_error same_scope
    names_label label_from find_label foreach_encloses innermost add_label may_jump add_goto
    bind_goto unless_error walk_labels walk_loops add_functions each_statement each_function
    collect_function resolve_function label_pass collect_names resolve_names check_loops
    resolve_program
table_is = (refl, refl)

resolve_program-slots_example : ◌≡◌ {A = ℕ} 2 2
resolve_program-slots_example =
    resolve_program-slots statements 2 2 1 local_b local_b table_is.0 table_is.0 refl refl refl

resolve_program-HasSlot_example :
    (local_b.id ≡ 2) × HasSlot (resolve_program (block statements)) local_b.storage local_b.slot
resolve_program-HasSlot_example = resolve_program-HasSlot statements 2 local_b table_is.0

resolve_program-resolution_symbol_example :
    (s : Symbol) × (resolution_symbol (resolve_program (block statements)) 2 ≡ some s) × (s.id ≡ 2)
resolve_program-resolution_symbol_example =
    resolve_program-resolution_symbol statements 1
      (record { node = 3; role = write_role; symbol_id = 2 }) table_is.1

-- The local `b` when the names have been linked: its fallback is the runtime name of that name.
linked_is :
    get_elem? (link_fallbacks (collect_names statements resolution_init)).symbols 2 ≡ some local_b
unfolding same_bytes same_storage find_symbol join_flags renewed change_symbol next_slot count_slot
    new_symbol add_symbol ensure_external add_binding add_function scope_storage scope_symbol
    resolve_name guarded visit declare enter_explicit collect_explicit enter_implicit
    collect_implicit global_behind has_fallback fallback_for link_symbol link_from link_fallbacks
    enter_name resolve_node slot_of declare_parameters add_parameters resolution_error same_scope
    names_label label_from find_label foreach_encloses innermost add_label may_jump add_goto
    bind_goto unless_error walk_labels walk_loops add_functions each_statement each_function
    collect_function resolve_function label_pass collect_names resolve_names check_loops
    resolve_program
linked_is = refl

needs_fallback : has_fallback local_b ≡ true
unfolding has_fallback
needs_fallback = refl

link_fallbacks-rank_example :
    (id : ℕ) × (t : Symbol) × (local_b.fallback ≡ some id)
    × (resolution_symbol (link_fallbacks (collect_names statements resolution_init)) id ≡ some t)
    × (t.name ≡ local_b.name)
    × rank t.storage < rank local_b.storage
link_fallbacks-rank_example = link_fallbacks-rank statements 2 local_b linked_is needs_fallback

-- `if (1) { break; }` outside a loop.
abbrev stray_if : Node
stray_if = if_stmt (number (pos 1) false) (block (cons break_stmt nil)) null

walk_loops-has_loop_example :
    ((walk_loops 0 stray_if resolution_init).had_error ≡ true)
    ↔ ((l : Leave stray_if) × (is_nested l ≡ false) × (has_loop l ≡ false))
walk_loops-has_loop_example = walk_loops-has_loop stray_if resolution_init refl

-- A function with a loop that it leaves.
abbrev leaving : Nodes
leaving =
    cons
      (func_decl 1 no_type (bytes "f") no_more
        (block (cons (while_stmt (number (pos 1) false) (block (cons break_stmt nil))) nil)))
      nil

abbrev the_break : LeaveAmong leaving
the_break = leave_first (
    leave_function
      (leave_block (leave_first (leave_while (leave_block (leave_first leave_break))))))

accepted : (resolve_program (block leaving)).had_error ≡ false
unfolding same_bytes same_storage find_symbol join_flags renewed change_symbol next_slot count_slot
    new_symbol add_symbol ensure_external add_binding add_function scope_storage scope_symbol
    resolve_name guarded visit declare enter_explicit collect_explicit enter_implicit
    collect_implicit global_behind has_fallback fallback_for link_symbol link_from link_fallbacks
    enter_name resolve_node slot_of declare_parameters add_parameters resolution_error same_scope
    names_label label_from find_label foreach_encloses innermost add_label may_jump add_goto
    bind_goto unless_error walk_labels walk_loops add_functions each_statement each_function
    collect_function resolve_function label_pass collect_names resolve_names check_loops
    resolve_program
accepted = refl

resolve_program-has_loop_example : has_loop_among the_break ≡ true
unfolding is_buried is_nested
resolve_program-has_loop_example = resolve_program-has_loop leaving accepted the_break refl

-- A class with a method that leaves a loop that is not there.
abbrev buried_break : Nodes
buried_break =
    cons
      (class_decl (bytes "C") no_type
        (cons (func_decl 1 no_type (bytes "m") no_more (block (cons break_stmt nil))) nil))
      nil

buried_break_accepted : (resolve_program (block buried_break)).had_error ≡ false
unfolding same_bytes same_storage find_symbol join_flags renewed change_symbol next_slot count_slot
    new_symbol add_symbol ensure_external add_binding add_function scope_storage scope_symbol
    resolve_name guarded visit declare enter_explicit collect_explicit enter_implicit
    collect_implicit global_behind has_fallback fallback_for link_symbol link_from link_fallbacks
    enter_name resolve_node slot_of declare_parameters add_parameters resolution_error same_scope
    names_label label_from find_label foreach_encloses innermost add_label may_jump add_goto
    bind_goto unless_error walk_labels walk_loops add_functions each_statement each_function
    collect_function resolve_function label_pass collect_names resolve_names check_loops
    resolve_program
buried_break_accepted = refl

-- `top: goto top;`
abbrev jump : Nodes
jump = cons (label_stmt 5 (bytes "top")) (cons (goto_stmt 6 (bytes "top")) nil)

jump_bound :
    get_elem? (resolve_program (block jump)).gotos 0 ≡ some (record { node = 6; label_index = 0 })
unfolding same_bytes same_storage find_symbol join_flags renewed change_symbol next_slot count_slot
    new_symbol add_symbol ensure_external add_binding add_function scope_storage scope_symbol
    resolve_name guarded visit declare enter_explicit collect_explicit enter_implicit
    collect_implicit global_behind has_fallback fallback_for link_symbol link_from link_fallbacks
    enter_name resolve_node slot_of declare_parameters add_parameters resolution_error same_scope
    names_label label_from find_label foreach_encloses innermost add_label may_jump add_goto
    bind_goto unless_error walk_labels walk_loops add_functions each_statement each_function
    collect_function resolve_function label_pass collect_names resolve_names check_loops
    resolve_program
jump_bound = refl

resolve_program-gotos_example :
    IsBound jump (resolve_program (block jump)).labels (record { node = 6; label_index = 0 })
resolve_program-gotos_example =
    resolve_program-gotos jump 0 (record { node = 6; label_index = 0 }) jump_bound

resolve_program-resolution_slot_symbol_example :
    resolution_slot_symbol (resolve_program (block statements)) (some 0) 1 ≡ some local_b
unfolding scope_storage
resolve_program-resolution_slot_symbol_example =
    resolve_program-resolution_slot_symbol statements (some 0) 2 1 local_b table_is.0 refl refl
