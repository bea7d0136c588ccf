-- ===== src/Compiler/Expression.antt =====
-- compile_expression of src/compiler.c, with compile_logical and compile_binary_op. A helper takes
-- the compilation of an operand as a function on the compiler's state.
use holy_d.Prelude.{ℕ, Option, some, none, List}
use holy_d.Prelude.Int.{pos}
use holy_d.Syntax.{
  Node, Nodes, nil, cons, null, number, float, text, var_ref, binary_op, unary_op, cast_to,
  ternary_op, call, array_literal, index_expr, array_len_expr, node_count,
}
use holy_d.Syntax.Token.{
  TokenType, plus_tok, minus_tok, star_tok, slash_tok, eqeq_tok, neq_tok, lt_tok, gt_tok, lteq_tok,
  gteq_tok, tilde_tok, percent_tok, pow_tok, ampersand_tok, or_tok, xor_tok, shl_tok, shr_tok,
  ushr_tok, andand_tok, oror_tok, bang_tok,
}
use holy_d.Runtime.Value.{CastKind, cast_kind_of}
use holy_d.Vm.Bytecode.{
  Opcode, stack_push_string, variable_load, local_load, global_load, math_add, math_sub, math_mul,
  math_div, math_mod, math_pow, compare_eq, compare_ne, compare_lt, compare_gt, compare_le,
  compare_ge, logic_not, cast_op, bit_and_op, bit_or_op, bit_xor_op, bit_shl, bit_shr, bit_ushr,
  array_concat, array_create, array_length, array_get, flow_jump, flow_jump_if_false, Instruction,
  make_ins, int_ins, float_ins, text_ins, count_ins, call_ins, jump_ins, cast_code,
}
use holy_d.Resolve.Table.{Resolution, read_role}
use holy_d.Compiler.State.{State, here, emit, patch_jump, compile_error, symbol_for, variable_ins}

abbrev pub Emitter : Type 0
Emitter = State → State

abbrev pub emit_int : ℕ → Emitter
emit_int n = emit (int_ins (pos n))

-- compile_logical for `&&`
unfoldable pub compile_and : Emitter → Emitter → Emitter
compile_and left right s =
    let s = left s in
    let left_false = here s in
    let s = right (emit (jump_ins flow_jump_if_false) s) in
    let right_false = here s in
    let s = emit_int 1 (emit (jump_ins flow_jump_if_false) s) in
    let done = here s in
    let s = patch_jump right_false (patch_jump left_false (emit (jump_ins flow_jump) s)) in
    patch_jump done (emit_int 0 s)

-- compile_logical for `||`
unfoldable pub compile_or : Emitter → Emitter → Emitter
compile_or left right s =
    let s = left s in
    let try_right = here s in
    let s = emit_int 1 (emit (jump_ins flow_jump_if_false) s) in
    let done_true = here s in
    let s = right (patch_jump try_right (emit (jump_ins flow_jump) s)) in
    let both_false = here s in
    let s = emit_int 1 (emit (jump_ins flow_jump_if_false) s) in
    let done_right = here s in
    let s = emit_int 0 (patch_jump both_false (emit (jump_ins flow_jump) s)) in
    patch_jump done_right (patch_jump done_true s)

-- The switch of compile_binary_op; none is an unsupported operator.
unfoldable pub opcode_for : TokenType → Option Opcode
opcode_for plus_tok = some math_add
opcode_for minus_tok = some math_sub
opcode_for star_tok = some math_mul
opcode_for slash_tok = some math_div
opcode_for eqeq_tok = some compare_eq
opcode_for neq_tok = some compare_ne
opcode_for lt_tok = some compare_lt
opcode_for gt_tok = some compare_gt
opcode_for lteq_tok = some compare_le
opcode_for gteq_tok = some compare_ge
opcode_for tilde_tok = some array_concat
opcode_for percent_tok = some math_mod
opcode_for pow_tok = some math_pow
opcode_for ampersand_tok = some bit_and_op
opcode_for or_tok = some bit_or_op
opcode_for xor_tok = some bit_xor_op
opcode_for shl_tok = some bit_shl
opcode_for shr_tok = some bit_shr
opcode_for ushr_tok = some bit_ushr
opcode_for _ = none

pub data Logical : Type 0 where
  logical_and logical_or not_logical : Logical

abbrev pub logical_kind : TokenType → Logical
logical_kind andand_tok = logical_and
logical_kind oror_tok = logical_or
logical_kind _ = not_logical

abbrev pub compile_operator : Option Opcode → Emitter
compile_operator none s = compile_error s
compile_operator (some op) s = emit (make_ins op) s

-- compile_binary_op
abbrev pub compile_binary : Logical → Option Opcode → Emitter → Emitter → Emitter
compile_binary logical_and op left right s = compile_and left right s
compile_binary logical_or op left right s = compile_or left right s
compile_binary not_logical op left right s = compile_operator op (right (left s))

pub data Unary : Type 0 where
  negation logical_not other_unary : Unary

abbrev pub unary_kind : TokenType → Unary
unary_kind minus_tok = negation
unary_kind bang_tok = logical_not
unary_kind _ = other_unary

abbrev pub compile_unary : Unary → Emitter → Emitter
compile_unary negation operand s = emit (make_ins math_sub) (operand (emit_int 0 s))
compile_unary logical_not operand s = emit (make_ins logic_not) (operand s)
compile_unary other_unary operand s = emit_int 0 (compile_error s)

abbrev pub compile_cast : Option CastKind → Emitter → Emitter
compile_cast none operand s = emit_int 0 (compile_error s)
compile_cast (some kind) operand s = emit (count_ins cast_op (cast_code kind)) (operand s)

unfoldable pub compile_ternary : Emitter → Emitter → Emitter → Emitter
compile_ternary condition yes_case no_case s =
    let s = condition s in
    let false_jump = here s in
    let s = yes_case (emit (jump_ins flow_jump_if_false) s) in
    let end_jump = here s in
    let s = patch_jump false_jump (emit (jump_ins flow_jump) s) in patch_jump end_jump (no_case s)

abbrev pub read_ins : Resolution → ℕ → List ℕ → Instruction
read_ins r node name =
    variable_ins r (symbol_for r node read_role) local_load global_load variable_load name

unfoldable mutual
  pub compile_expression : Resolution → Node → Emitter
  compile_expression r null s = emit_int 0 s
  compile_expression r (number value _) s = emit (int_ins value) s
  compile_expression r (float value) s = emit (float_ins value) s
  compile_expression r (text value) s = emit (text_ins stack_push_string value) s
  compile_expression r (var_ref node name) s = emit (read_ins r node name) s
  compile_expression r (binary_op op left right) s =
      compile_binary (logical_kind op) (opcode_for op) (compile_expression r left)
        (compile_expression r right) s
  compile_expression r (unary_op op operand) s =
      compile_unary (unary_kind op) (compile_expression r operand) s
  compile_expression r (cast_to type operand) s =
      compile_cast (cast_kind_of type) (compile_expression r operand) s
  compile_expression r (ternary_op condition yes_case no_case) s =
      compile_ternary (compile_expression r condition) (compile_expression r yes_case)
        (compile_expression r no_case) s
  compile_expression r (index_expr target index) s =
      emit (make_ins array_get) (compile_expression r index (compile_expression r target s))
  compile_expression r (array_len_expr target) s =
      emit (make_ins array_length) (compile_expression r target s)
  compile_expression r (array_literal items) s =
      emit (count_ins array_create (node_count items)) (compile_items r items s)
  compile_expression r (call name arguments) s =
      emit (call_ins name (node_count arguments)) (compile_items r arguments s)
  compile_expression r _ s = emit_int 0 (compile_error s)

  -- The loop over an argument list or the elements of a literal.
  pub compile_items : Resolution → Nodes → Emitter
  compile_items r nil s = s
  compile_items r (cons e rest) s = compile_items r rest (compile_expression r e s)
