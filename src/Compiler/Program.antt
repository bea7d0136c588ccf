-- ===== src/Compiler/Program.antt =====
-- HDCompileProgram and HDRunProgram of src/compiler.c.
use holy_d.Prelude.{
  ℕ, ◌*◌, Bool, true, false, not, ◌&&◌, ◌||◌, Option, some, none, List, [], ◌∷◌, ◌++◌, ◌==◌,
  if◌then◌else◌, replicate, same_bytes,
}
use holy_d.Prelude.Int.{ℤ}
use holy_d.Prelude.Text.{bytes}
use holy_d.Outcome.{fail}
use holy_d.Syntax.{
  Name, NodeId, Node, Nodes, Parameters, nil, cons, block, func_decl, parameter_count,
}
use holy_d.Runtime.Value.{Host, Value, Store, Run, lift, out_of_memory}
use holy_d.Runtime.Array.{value_size, counted}
use holy_d.Environment.{Scope}
use holy_d.Vm.Bytecode.{
  Opcode, Chunk, Function, Program, make_ins, call_ins, function_return, function_call, stack_pop,
}
use holy_d.Vm.Machine.{World, Machine}
use holy_d.Vm.Step.{Native, run_chunk, find_function}
use holy_d.Resolve.Table.{Resolution, resolution_function_index}
use holy_d.Prelude.{get_elem?}
use holy_d.Compiler.State.{State, emit, resolve_label_scope}
use holy_d.Compiler.Expression.{Emitter, emit_int}
use holy_d.Compiler.Statement.{compile_statement}

-- program_has_function
abbrev pub has_function : List Function → Name → Bool
has_function functions name = elim (find_function functions name) [ none ↦ false | some _ ↦ true ]

-- chunk_calls
unfoldable pub chunk_calls : Chunk → Name → Bool
chunk_calls [] name = false
chunk_calls (ins ∷ rest) name = is_call ins.op && same_bytes ins.text name || chunk_calls rest name
  where
    is_call : Opcode → Bool
    is_call function_call = true
    is_call _ = false

-- add_function: the slots come from the resolver's record of the function, if it has one.
unfoldable pub add_function : Resolution → NodeId → Name → Parameters → Function
unfolding resolution_function_index
add_function r node name parameters = elim (resolution_function_index r node) [
  | none ↦ bare none 0
  | some i ↦ elim (get_elem? r.functions i) [
    | none ↦ bare none 0
    | some f ↦ bare (some f.parameter_slots) f.frame_slot_count
  ]
]
  where
    bare : Option (List ℤ) → ℕ → Function
    bare slots count = record {
      name = name;
      param_count = parameter_count parameters;
      param_slots = slots;
      frame_slot_count = count;
      chunk = [];
    }

-- `return 0;`, which ends every chunk.
abbrev pub final_return : Emitter
final_return s = emit (make_ins function_return) (emit_int 0 s)

abbrev fresh_chunk : State → State
fresh_chunk s = record s { chunk = []; labels = []; pending_gotos = [] }

-- The body of a function in a chunk of its own.
unfoldable pub compile_body : Resolution → List Function → Node → State → State
unfolding compile_statement resolve_label_scope
compile_body r functions body s =
    resolve_label_scope
      (final_return (compile_statement r (has_function functions) body (fresh_chunk s)))

-- The first loop: each function is in the program while its own body is compiled, later ones are not.
unfoldable pub compile_functions :
    Resolution → Nodes → List Function → State → List Function × State
unfolding add_function compile_body
compile_functions r nil functions s = (functions, s)
compile_functions r (cons (func_decl node _ name parameters body) rest) functions s =
    let fn = add_function r node name parameters in
    let s = compile_body r (functions ++ fn ∷ []) body s in
    compile_functions r rest (functions ++ record fn { chunk = s.chunk } ∷ []) s
compile_functions r (cons _ rest) functions s = compile_functions r rest functions s

-- The second loop: everything that is no function.
unfoldable pub compile_top_level : Resolution → List Function → Nodes → State → State
unfolding compile_statement
compile_top_level r functions nil s = s
compile_top_level r functions (cons (func_decl _ _ _ _ _) rest) s =
    compile_top_level r functions rest s
compile_top_level r functions (cons statement rest) s =
    compile_top_level r functions rest (compile_statement r (has_function functions) statement s)

-- The name of the entry point.
abbrev pub entry_name : List Function → Option Name
entry_name functions =
    if has_function functions (bytes "main")
    then some (bytes "main")
    else if has_function functions (bytes "Main")
    then some (bytes "Main")
    else none

abbrev call_now : Name → Emitter
call_now name s = emit (make_ins stack_pop) (emit (call_ins name 0) s)

-- The call of an entry point without parameters that the top level does not call itself.
unfoldable pub call_entry : List Function → Emitter
unfolding chunk_calls
call_entry functions s = elim (entry_name functions) [
  | none ↦ s
  | some name ↦ elim (find_function functions name) [
    | none ↦ s
    | some fn ↦ if fn.param_count == 0 && not (chunk_calls s.chunk name) then call_now name s else s
  ]
]

abbrev initial_state : State
initial_state = record {
  chunk = [];
  labels = [];
  pending_gotos = [];
  loops = [];
  temp_counter = 0;
  had_error = false;
}

-- HDCompileProgram; none where it returns 0.
unfoldable pub compile_program : Resolution → Node → Option Program
unfolding compile_functions compile_top_level call_entry resolve_label_scope
compile_program r (block statements) =
    let (functions, s) = compile_functions r statements [] initial_state in
    let s = compile_top_level r functions statements (fresh_chunk s) in
    let s = resolve_label_scope (final_return (call_entry functions s)) in
    if s.had_error
    then none
    else some
        (record { main = s.chunk; functions = functions; global_slot_count = r.global_slot_count })
compile_program r _ = none

module _ ⦃host : Host⦄ (natives : Name → Option Native) where
  abbrev at_least_one : ℕ → ℕ
  at_least_one n = if n == 0 then 1 else n

  abbrev empty_store : Store
  empty_store = record { cells = []; mallocs = 0; output = [] }

  abbrev start : Scope → ℕ → Machine
  start constants count = record {
    stack = [];
    ip = 0;
    scope = none;
    frame = none;
    world = record {
      globals = constants ∷ [];
      global_frame = replicate count none;
      store = counted (counted empty_store);
    };
  }

  -- HDRunProgram. `constants` is what ffi_define_globals of src/ffi.c defines; the two blocks of the
  -- global frame are the first that the program asks for.
  unfoldable pub run_program : ℕ → ℕ → Scope → Program → Run (Value × World)
  unfolding run_chunk
  run_program rounds depth constants program =
      let count = program.global_slot_count in
      if host.malloc 0 (value_size * at_least_one count) && host.malloc 1 (at_least_one count)
      then run_chunk natives program.functions rounds depth program.main (start constants count)
      else lift empty_store (fail out_of_memory)
