-- ===== src/Compiler/Code.antt =====
-- The code of an expression as a function of the address it is put at, without a state and without
-- patching: the description that compile_expression of src/compiler.c is held to.
use holy_d.Prelude.{ℕ, ◌+◌, Bool, true, false, ◌||◌, Option, some, none, [], ◌∷◌, ◌++◌, length}
use holy_d.Prelude.Int.{pos}
use holy_d.Syntax.{
  Node, Nodes, nil, cons, null, number, float, text, var_ref, binary_op, unary_op, cast_to,
  ternary_op, call, array_literal, index_expr, array_len_expr, node_count,
}
use holy_d.Runtime.Value.{CastKind, cast_kind_of}
use holy_d.Vm.Bytecode.{
  Opcode, stack_push_string, math_sub, logic_not, cast_op, array_create, array_length, array_get,
  flow_jump, flow_jump_if_false, Instruction, Chunk, make_ins, int_ins, float_ins, text_ins,
  count_ins, call_ins, cast_code,
}
use holy_d.Resolve.Table.{Resolution}
use holy_d.Compiler.Expression.{
  opcode_for, Logical, logical_and, logical_or, not_logical, logical_kind, Unary, negation,
  logical_not, other_unary, unary_kind, read_ins,
}

-- Code by the address that it starts at.
abbrev pub Code : Type 0
Code = ℕ → Chunk

infixr 66 ◌▹◌
-- One piece behind another.
abbrev pub ◌▹◌ : Code → Code → Code
◌▹◌ c d at = c at ++ d (at + length (c at))

abbrev pub only : Instruction → Code
only ins at = ins ∷ []

abbrev pub push_int : ℕ → Code
push_int n = only (int_ins (pos n))

abbrev pub jump : Opcode → ℕ → Instruction
jump op target = count_ins op target

-- Addresses in the code of `a && b`: behind `a`, and behind `b`.
abbrev pub and_code : Code → Code → Code
and_code a b at =
    let p = at + length (a at) in
    let q = p + 1 + length (b (p + 1)) in
    a at
    ++ jump flow_jump_if_false (q + 3)
      ∷ (b (p + 1)
          ++ jump flow_jump_if_false (q + 3)
            ∷ int_ins (pos 1)
            ∷ jump flow_jump (q + 4)
            ∷ int_ins (pos 0)
            ∷ [])

-- In the code of `a || b`: behind `a`, and behind `b`.
abbrev pub or_code : Code → Code → Code
or_code a b at =
    let p = at + length (a at) in
    let q = p + 3 + length (b (p + 3)) in
    a at
    ++ jump flow_jump_if_false (p + 3)
      ∷ int_ins (pos 1)
      ∷ jump flow_jump (q + 4)
      ∷ (b (p + 3)
          ++ jump flow_jump_if_false (q + 3)
            ∷ int_ins (pos 1)
            ∷ jump flow_jump (q + 4)
            ∷ int_ins (pos 0)
            ∷ [])

abbrev pub ternary_code : Code → Code → Code → Code
ternary_code a b c at =
    let p = at + length (a at) in
    let q = p + 1 + length (b (p + 1)) in
    a at
    ++ jump flow_jump_if_false (q + 1)
      ∷ (b (p + 1) ++ jump flow_jump (q + 1 + length (c (q + 1))) ∷ c (q + 1))

abbrev pub operator_code : Option Opcode → Code
operator_code none at = []
operator_code (some op) at = make_ins op ∷ []

abbrev pub binary_code : Logical → Option Opcode → Code → Code → Code
binary_code logical_and op a b = and_code a b
binary_code logical_or op a b = or_code a b
binary_code not_logical op a b = (a ▹ b) ▹ operator_code op

abbrev pub unary_code : Unary → Code → Code
unary_code negation a = (push_int 0 ▹ a) ▹ only (make_ins math_sub)
unary_code logical_not a = a ▹ only (make_ins logic_not)
unary_code other_unary a = push_int 0

abbrev pub cast_code_of : Option CastKind → Code → Code
cast_code_of none a = push_int 0
cast_code_of (some kind) a = a ▹ only (count_ins cast_op (cast_code kind))

unfoldable mutual
  pub code : Resolution → Node → Code
  code r null = push_int 0
  code r (number value _) = only (int_ins value)
  code r (float value) = only (float_ins value)
  code r (text value) = only (text_ins stack_push_string value)
  code r (var_ref node name) = only (read_ins r node name)
  code r (binary_op op left right) =
      binary_code (logical_kind op) (opcode_for op) (code r left) (code r right)
  code r (unary_op op operand) = unary_code (unary_kind op) (code r operand)
  code r (cast_to type operand) = cast_code_of (cast_kind_of type) (code r operand)
  code r (ternary_op condition yes_case no_case) =
      ternary_code (code r condition) (code r yes_case) (code r no_case)
  code r (index_expr target index) = (code r target ▹ code r index) ▹ only (make_ins array_get)
  code r (array_len_expr target) = code r target ▹ only (make_ins array_length)
  code r (array_literal items) =
      items_code r items ▹ only (count_ins array_create (node_count items))
  code r (call name arguments) =
      items_code r arguments ▹ only (call_ins name (node_count arguments))
  code r _ = push_int 0

  pub items_code : Resolution → Nodes → Code
  items_code r nil = λ at. []
  items_code r (cons e rest) = code r e ▹ items_code r rest

abbrev pub operator_fails : Option Opcode → Bool
operator_fails none = true
operator_fails (some _) = false

abbrev pub binary_fails : Logical → Option Opcode → Bool → Bool → Bool
binary_fails not_logical op a b = (a || b) || operator_fails op
binary_fails _ op a b = a || b

abbrev pub unary_fails : Unary → Bool → Bool
unary_fails other_unary a = true
unary_fails _ a = a

abbrev pub cast_fails : Option CastKind → Bool → Bool
cast_fails none a = true
cast_fails (some _) a = a

-- Whether a compile error is reported for the expression.
unfoldable mutual
  pub fails : Node → Bool
  fails null = false
  fails (number _ _) = false
  fails (float _) = false
  fails (text _) = false
  fails (var_ref _ _) = false
  fails (binary_op op left right) =
      binary_fails (logical_kind op) (opcode_for op) (fails left) (fails right)
  fails (unary_op op operand) = unary_fails (unary_kind op) (fails operand)
  fails (cast_to type operand) = cast_fails (cast_kind_of type) (fails operand)
  fails (ternary_op condition yes_case no_case) =
      (fails condition || fails yes_case) || fails no_case
  fails (index_expr target index) = fails target || fails index
  fails (array_len_expr target) = fails target
  fails (array_literal items) = items_fail items
  fails (call name arguments) = items_fail arguments
  fails _ = true

  pub items_fail : Nodes → Bool
  items_fail nil = false
  items_fail (cons e rest) = fails e || items_fail rest
