-- ===== src/Tests.antt =====
-- The properties at concrete inputs.
mod Lexing
mod Resolving
use holy_d.Prelude.{
  ◌+◌, ℕ, ◌≡◌, refl, true, false, Option, some, none, List, [], ◌∷◌, ◌≤◌, length, same_bytes, arith,
}
use holy_d.Prelude.Int.{negsuc, pos, ◌-ℤ◌}
use holy_d.Prelude.Text.{bytes}
use holy_d.Outcome.{ok, fail}
use holy_d.Syntax.{
  while_stmt, break_stmt, Node, nil, cons, number, var_ref, binary_op, ternary_op, array_literal,
  index_expr, func_decl, block, return_stmt, unary_op, no_more, no_type,
}
use holy_d.Syntax.Token.{plus_tok, star_tok, andand_tok, minus_tok}
use holy_d.Runtime.Value.{Host, Value, int, array, Store, stack_underflow}
use holy_d.Vm.Bytecode.{make_ins, int_ins, count_ins, math_add, flow_jump, flow_jump_if_false}
use holy_d.Vm.Machine.{
  active_value, own_frame, environment, read_name, store_name, World, Machine, stack_limit,
}
use holy_d.Vm.Step.{call_function, Native, step, run_chunk}
use holy_d.Vm.Bounds.{step-stack_limit}
use holy_d.Vm.Frames.{read_name-store_name, is_active, store_name-is_active}
use holy_d.Compiler.Balance.{compile_statement-loops}
use holy_d.Resolve.Table.{Resolution}
use holy_d.Compiler.State.{State}
use holy_d.Environment.{Scope, env_get, env_set, env_define}
use holy_d.Environment.Laws.{env_get-set, env_get-define, env_set_scoping}
use holy_d.Runtime.ArrayLaws.{concat-elements, index-index_set, array_new-elements}
use holy_d.Runtime.Print.{print_string_escaped}
use holy_d.Runtime.Escapes.{escape, escape_all, print_string_escaped-escape_all}
use holy_d.Pe.Buffer.{Buffer, bytes_from}
use holy_d.Pe.Image.{pe_file_size}
use holy_d.Pe.Entry.{emit_pe, find_exit_status}
use holy_d.Pe.Loader.{load}
use holy_d.Pe.Correct.{exit_run, emit_pe-load}
use holy_d.Compiler.Code.{code, fails}
use holy_d.Compiler.Emission.{compile_expression-code}
use holy_d.Runtime.Array.{
  is_array, binary, array_new, index, index_set, elements, length_of, concat,
}
use holy_d.Resolve.Table.{resolution_binding}
use holy_d.Compiler.Expression.{compile_expression, compile_ternary, compile_and, opcode_for}
use holy_d.Compiler.Eval.{eval, variable_value, operator_of}
use holy_d.Compiler.Correct.{need}
use holy_d.Compiler.Statement.{compile_return, compile_statement}
use holy_d.Compiler.Returned.{run_chunk-compile_return}

-- A host whose floating-point unit always gives 0, with memory enough.
abbrev plain_host : Host
plain_host = record {
  fadd = λ a b. 0;
  fsub = λ a b. 0;
  fmul = λ a b. 0;
  fdiv = λ a b. 0;
  fneg = λ a. 0;
  feq = λ a b. true;
  flt = λ a b. false;
  fle = λ a b. true;
  of_int = λ n. 0;
  to_int = λ d. some (pos 0);
  malloc = λ n size. true;
}

abbrev no_natives : List ℕ → Option Native
no_natives name = none

abbrev no_resolution : Resolution
no_resolution = record {
  symbols = [];
  bindings = [];
  functions = [];
  labels = [];
  gotos = [];
  global_slot_count = 0;
  had_error = false;
}

abbrev one_instruction : State
one_instruction = record {
  chunk = make_ins math_add ∷ [];
  labels = [];
  pending_gotos = [];
  loops = [];
  temp_counter = 0;
  had_error = false;
}

abbrev store_with : List (List Value) → ℕ → Store
store_with cells mallocs = record { cells = cells; mallocs = mallocs; output = [] }

abbrev world_with : Store → World
world_with s = record {
  globals = ((bytes "x", int (pos 4)) ∷ []) ∷ [];
  global_frame = [];
  store = s;
}

abbrev at_one : Machine
at_one = record {
  stack = [];
  ip = 1;
  scope = some [];
  frame = some [];
  world = world_with (store_with [] 0);
}

abbrev lit : ℕ → Node
lit n = number (pos n) false

-- `1 && 0 ? 7 : [1, 2 + 3 * x][1]`
abbrev choice : Node
choice = ternary_op (binary_op andand_tok (lit 1) (lit 0)) (lit 7) (
    index_expr
      (array_literal (
        cons (lit 1) (
          cons (binary_op plus_tok (lit 2) (binary_op star_tok (lit 3) (var_ref 5 (bytes "x"))))
            nil)))
      (lit 1))

run_chunk-compile_return_example :
    run_chunk ⦃host = plain_host⦄ no_natives [] 40 3
      (compile_return no_resolution choice one_instruction).chunk
      at_one
    ≡ ok (int (pos 14), world_with (store_with ((int (pos 1) ∷ int (pos 14) ∷ []) ∷ []) 1))
unfolding compile_return eval need compile_ternary opcode_for compile_and variable_value
    resolution_binding env_get same_bytes operator_of binary array_new index
run_chunk-compile_return_example =
    run_chunk-compile_return ⦃host = plain_host⦄ no_natives [] 40 2 no_resolution choice
      one_instruction at_one refl refl refl (omega arith) (omega arith)

-- `2 && 3` behind the one instruction: both jumps to the end are patched to 6 and 7.
compile_expression-code_example :
    compile_expression no_resolution (binary_op andand_tok (lit 2) (lit 3)) one_instruction
    ≡ record one_instruction {
      chunk =
          make_ins math_add
          ∷ int_ins (pos 2)
          ∷ count_ins flow_jump_if_false 7
          ∷ int_ins (pos 3)
          ∷ count_ins flow_jump_if_false 7
          ∷ int_ins (pos 1)
          ∷ count_ins flow_jump 8
          ∷ int_ins (pos 0)
          ∷ [];
    }
unfolding code fails
compile_expression-code_example =
    compile_expression-code no_resolution (binary_op andand_tok (lit 2) (lit 3)) one_instruction

-- `I64 main() { return -1; }`
abbrev returns_minus_one : Node
returns_minus_one = block (
    cons
      (func_decl 1 no_type (bytes "main") no_more
        (block (cons (return_stmt (unary_op minus_tok (lit 1))) nil)))
      nil)

emit_pe-load_example :
    (b : Buffer) × (emit_pe true true returns_minus_one ≡ ok (bytes_from 0 pe_file_size b))
    × (b.size ≡ pe_file_size)
    × (load b ≡ some (exit_run 4294967295))
unfolding find_exit_status same_bytes ◌-ℤ◌
emit_pe-load_example = emit_pe-load returns_minus_one 4294967295 refl

abbrev two_on_top : List Value → Machine
two_on_top stack = record at_one { stack = stack }

step-stack_limit_example : length (two_on_top (int (pos 5) ∷ [])).stack ≤ stack_limit
unfolding step
step-stack_limit_example =
    step-stack_limit ⦃host = plain_host⦄ no_natives []
      (λ c m. fail (record { error = stack_underflow; printed = [] })) 0 math_add
      (make_ins math_add) (two_on_top (int (pos 2) ∷ int (pos 3) ∷ []))
      (two_on_top (int (pos 5) ∷ [])) refl (omega arith)

-- Two arrays share the elements of cell 0; one shows three of them.
index-index_set_example :
    index
      (store_with ((int (pos 7) ∷ int (pos 9) ∷ int (pos 3) ∷ []) ∷ []) 0)
      (array 0 3)
      (int (pos 1))
    ≡ ok (int (pos 9))
unfolding index_set index
index-index_set_example =
    index-index_set 0 2 1 0 3 1 (int (pos 9)) (int (pos 2))
      (store_with ((int (pos 7) ∷ int (pos 2) ∷ int (pos 3) ∷ []) ∷ []) 0)
      (store_with ((int (pos 7) ∷ int (pos 9) ∷ int (pos 3) ∷ []) ∷ []) 0) refl refl

abbrev stored : Store
stored = store_with ((int (pos 7) ∷ int (pos 2) ∷ []) ∷ []) 1

abbrev stored_two : Store
stored_two = store_with ((int (pos 7) ∷ int (pos 2) ∷ []) ∷ (int (pos 1) ∷ []) ∷ []) 2

array_new-elements_example :
    (elements stored_two (array 1 1) ≡ ok (int (pos 1) ∷ []))
    × (length_of (array 1 1) ≡ ok (int (pos 1)))
    × (elements stored_two (array 0 2) ≡ ok (int (pos 7) ∷ int (pos 2) ∷ []))
unfolding array_new elements
array_new-elements_example =
    array_new-elements ⦃host = plain_host⦄ (int (pos 1) ∷ []) (int (pos 7) ∷ int (pos 2) ∷ []) 0 2
      stored stored_two (array 1 1) refl refl

abbrev outer : Scope
outer = (bytes "x", int (pos 4)) ∷ []

env_get-set_example :
    env_get (env_set ([] ∷ outer ∷ []) (bytes "x") (int (pos 5))) (bytes "x") ≡ some (int (pos 5))
unfolding same_bytes
env_get-set_example = env_get-set [] (outer ∷ []) (bytes "x") (bytes "x") (int (pos 5))

env_get-define_example :
    env_get (env_define ([] ∷ outer ∷ []) (bytes "y") (int (pos 5))) (bytes "x")
    ≡ some (int (pos 4))
unfolding same_bytes env_get
env_get-define_example = env_get-define [] (outer ∷ []) (bytes "y") (bytes "x") (int (pos 5))

env_set_scoping_example :
    env_set ([] ∷ outer ∷ []) (bytes "x") (int (pos 5))
    ≡ [] ∷ env_set (outer ∷ []) (bytes "x") (int (pos 5))
unfolding same_bytes env_get
env_set_scoping_example = env_set_scoping [] (outer ∷ []) (bytes "x") (int (pos 5)) refl

print_string_escaped-escape_all_example :
    print_string_escaped (98 ∷ 92 ∷ 110 ∷ 92 ∷ 92 ∷ []) ≡ 98 ∷ 10 ∷ 92 ∷ []
unfolding escape_all escape
print_string_escaped-escape_all_example = print_string_escaped-escape_all (98 ∷ 10 ∷ 92 ∷ [])

-- `[7, 2] ~ 1`
abbrev joined : Store
joined =
    store_with
      ((int (pos 7) ∷ int (pos 2) ∷ []) ∷ (int (pos 7) ∷ int (pos 2) ∷ int (pos 1) ∷ []) ∷ []) 2

concat-elements_example :
    (is_array (array 1 3) ≡ true)
    × (elements joined (array 1 3) ≡ ok (int (pos 7) ∷ int (pos 2) ∷ int (pos 1) ∷ []))
    × (elements joined (array 0 2) ≡ ok (int (pos 7) ∷ int (pos 2) ∷ []))
unfolding concat elements
concat-elements_example =
    concat-elements ⦃host = plain_host⦄ (array 0 2) (int (pos 1)) (array 1 3)
      (int (pos 7) ∷ int (pos 2) ∷ []) (int (pos 1) ∷ []) (int (pos 7) ∷ int (pos 2) ∷ []) 0 2
      stored joined refl refl refl refl refl

abbrev framed : List (Option Value) → Machine
framed slots = record at_one { frame = some slots }

read_name-store_name_example :
    read_name true (bytes "x") (pos 1) (negsuc 0) (framed (none ∷ some (int (pos 9)) ∷ []))
    ≡ ok (int (pos 9))
unfolding store_name
read_name-store_name_example =
    read_name-store_name true (bytes "x") (pos 1) (negsuc 0) (int (pos 9))
      (framed (none ∷ some (int (pos 3)) ∷ [])) (framed (none ∷ some (int (pos 9)) ∷ [])) refl

store_name-is_active_example :
    (is_active (active_value (own_frame true (framed (none ∷ some (int (pos 9)) ∷ []))) (pos 1))
      ≡ is_active (active_value (own_frame true (framed (none ∷ some (int (pos 3)) ∷ []))) (pos 1)))
    × (is_active (env_get (environment (framed (none ∷ some (int (pos 9)) ∷ []))) (bytes "y"))
        ≡ is_active (env_get (environment (framed (none ∷ some (int (pos 3)) ∷ []))) (bytes "y")))
unfolding store_name read_name
store_name-is_active_example =
    store_name-is_active true (bytes "x") (pos 1) (negsuc 0) (int (pos 9)) (int (pos 3))
      (framed (none ∷ some (int (pos 3)) ∷ [])) (framed (none ∷ some (int (pos 9)) ∷ [])) refl refl
      true 1 (bytes "y")

-- `while (1) { break; }`
abbrev endless : Node
endless = while_stmt (lit 1) (block (cons break_stmt nil))

compile_statement-loops_example :
    (length (compile_statement no_resolution (λ name. false) endless one_instruction).loops ≡ 0)
    × (1 ≤ length (compile_statement no_resolution (λ name. false) endless one_instruction).chunk)
compile_statement-loops_example =
    compile_statement-loops no_resolution (λ name. false) endless one_instruction
