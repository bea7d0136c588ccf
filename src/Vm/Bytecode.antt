-- ===== src/Vm/Bytecode.antt =====
-- BytecodeOp, Instruction, BytecodeChunk, HDFunction and HDProgram of src/compiler.h, with the
-- constructors of single instructions in src/compiler.c. A chunk is the list of its instructions;
-- the memory that holds it is taken to grow when it has to.
use holy_d.Prelude.{ℕ, Option, List, []}
use holy_d.Prelude.Int.{ℤ, pos, negsuc}
use holy_d.Syntax.{Name, Double}
use holy_d.Runtime.Value.{
  BinOp, hd_add, hd_sub, hd_mul, hd_div, hd_mod, hd_pow, hd_eq, hd_ne, hd_lt, hd_gt, hd_le, hd_ge,
  hd_band, hd_bor, hd_bxor, hd_shl, hd_shr, hd_ushr, hd_concat, CastKind, cast_int, cast_float,
  cast_bool,
}

pub data Opcode : Type 0 where
  stack_push_int stack_push_float stack_push_string : Opcode
  variable_load variable_define variable_store : Opcode
  local_load local_define local_store global_load global_define global_store : Opcode
  math_add math_sub math_mul math_div math_mod math_pow : Opcode
  compare_eq compare_ne compare_lt compare_gt compare_le compare_ge : Opcode
  logic_not cast_op bit_and_op bit_or_op bit_xor_op bit_shl bit_shr bit_ushr : Opcode
  array_concat array_create array_length array_get array_set : Opcode
  flow_jump flow_jump_if_false function_call function_return stack_pop : Opcode

pub record Instruction : Type 0 where
  pub op : Opcode
  pub i64 : ℤ
  pub f64 : Double
  pub text : List ℕ
  pub operand : ℤ
  pub fallback : ℤ

abbrev pub Chunk : Type 0
Chunk = List Instruction

-- Where each parameter lands is known only for a function that the resolver gave a frame.
pub record Function : Type 0 where
  pub name : Name
  pub param_count : ℕ
  pub param_slots : Option (List ℤ)
  pub frame_slot_count : ℕ
  pub chunk : Chunk

pub record Program : Type 0 where
  pub main : Chunk
  pub functions : List Function
  pub global_slot_count : ℕ

abbrev pub make_ins : Opcode → Instruction
make_ins op = record {
  op = op;
  i64 = pos 0;
  f64 = 0;
  text = [];
  operand = pos 0;
  fallback = negsuc 0;
}

abbrev pub int_ins : ℤ → Instruction
int_ins value = record (make_ins stack_push_int) { i64 = value }

abbrev pub float_ins : Double → Instruction
float_ins value = record (make_ins stack_push_float) { f64 = value }

abbrev pub text_ins : Opcode → List ℕ → Instruction
text_ins op text = record (make_ins op) { text = text }

abbrev pub count_ins : Opcode → ℕ → Instruction
count_ins op count = record (make_ins op) { operand = pos count }

abbrev pub call_ins : Name → ℕ → Instruction
call_ins name argc = record (make_ins function_call) { text = name; operand = pos argc }

-- A jump whose target is not known yet.
abbrev pub jump_ins : Opcode → Instruction
jump_ins op = record (make_ins op) { operand = negsuc 0 }

-- binop_for: the runtime's operator behind an opcode.
unfoldable pub binop_for : Opcode → BinOp
binop_for math_sub = hd_sub
binop_for math_mul = hd_mul
binop_for math_div = hd_div
binop_for compare_eq = hd_eq
binop_for compare_ne = hd_ne
binop_for compare_lt = hd_lt
binop_for compare_gt = hd_gt
binop_for compare_le = hd_le
binop_for compare_ge = hd_ge
binop_for math_mod = hd_mod
binop_for math_pow = hd_pow
binop_for bit_and_op = hd_band
binop_for bit_or_op = hd_bor
binop_for bit_xor_op = hd_bxor
binop_for bit_shl = hd_shl
binop_for bit_shr = hd_shr
binop_for bit_ushr = hd_ushr
binop_for array_concat = hd_concat
binop_for _ = hd_add

-- HDCastKind as the int that an operand holds, in the order of its declaration.
abbrev pub cast_code : CastKind → ℕ
cast_code cast_int = 0
cast_code cast_float = 1
cast_code cast_bool = 2
