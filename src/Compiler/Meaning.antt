-- ===== src/Compiler/Meaning.antt =====
-- What single instructions of the virtual machine of src/compiler.c do to the values on top of the
-- stack, in the terms of Compiler/Eval.antt.
use holy_d.Prelude.{
  ℕ, ◌≡◌, refl, sym, Bool, true, false, Option, some, List, [], ◌∷◌, length, arith,
}
use holy_d.Outcome.{ok, ◌>>=◌}
use holy_d.Syntax.{Name}
use holy_d.Syntax.Token.{TokenType}
use holy_d.Runtime.Value.{Host, Value, Run, lift, hd_sub, CastKind, not_value}
use holy_d.Runtime.Array.{index, length_of, array_new, binary, cast}
use holy_d.Vm.Bytecode.{
  Chunk, Function, Opcode, Instruction, make_ins, count_ins, call_ins, cast_code, logic_not,
  math_add, math_sub, math_mul, math_div, math_mod, math_pow, compare_eq, compare_ne, compare_lt,
  compare_gt, compare_le, compare_ge, bit_and_op, bit_or_op, bit_xor_op, bit_shl, bit_shr, bit_ushr,
  array_concat, cast_op, array_get, array_length, array_create, binop_for,
}
use holy_d.Vm.Machine.{World, Machine, push_value, pop_value}
use holy_d.Vm.Step.{Native, step, going, call_program}
use holy_d.Compiler.Expression.{opcode_for}
use holy_d.Compiler.Eval.{operator_of, apply_operator, lifted, pure_lifted, invoke}
use holy_d.Compiler.Names.{operator_of-opcode_for}
use holy_d.Compiler.Runs.{landed, pop_args-push_all}
use holy_d.Compiler.Combine.{Turns}

module _ ⦃host : Host⦄ (natives : Name → Option Native) (functions : List Function)
    (run : Chunk → Machine → Run (Value × World)) (depth : ℕ) where
  abbrev T : Instruction → List Value → (World → Run (Value × World)) → Type 0
  T ins vs q = Turns natives functions run depth [] ins vs q

  pub not-Turns : (v : Value) → T (make_ins logic_not) (v ∷ []) (λ w. ok (not_value v, w))
  unfolding step pop_value push_value
  not-Turns v m at stack w free = refl

  pub cast-Turns :
      (k : CastKind) (v : Value)
      → T (count_ins cast_op (cast_code k)) (v ∷ []) (λ w. pure_lifted w (lift w.store (cast k v)))
  unfolding step pop_value push_value
  cast-Turns k v m at stack w free = ground arith

  pub length-Turns :
      (v : Value)
      → T (make_ins array_length) (v ∷ []) (λ w. pure_lifted w (lift w.store (length_of v)))
  unfolding step pop_value push_value
  length-Turns v m at stack w free = ground arith

  pub index-Turns :
      (t i : Value)
      → T (make_ins array_get) (t ∷ i ∷ []) (λ w. pure_lifted w (lift w.store (index w.store t i)))
  unfolding step pop_value push_value
  index-Turns t i m at stack w free = ground arith

  pub sub-Turns :
      (l v : Value) → T (make_ins math_sub) (l ∷ v ∷ []) (λ w. lifted w (binary hd_sub l v w.store))
  unfolding step pop_value push_value
  sub-Turns l v m at stack w free = ground arith

  pub create-Turns :
      (n : ℕ) (vs : List Value)
      → length vs ≡ n
      → T (count_ins array_create n) vs (λ w. lifted w (array_new vs w.store))
  unfolding step push_value
  create-Turns n vs e m at stack w free = ground (arith, pop_args-push_all n vs stack (sym e))

  abbrev is_operator : Opcode → Bool
  is_operator op = elim op [
    | math_add ↦ true
    | math_sub ↦ true
    | math_mul ↦ true
    | math_div ↦ true
    | math_mod ↦ true
    | math_pow ↦ true
    | compare_eq ↦ true
    | compare_ne ↦ true
    | compare_lt ↦ true
    | compare_gt ↦ true
    | compare_le ↦ true
    | compare_ge ↦ true
    | bit_and_op ↦ true
    | bit_or_op ↦ true
    | bit_xor_op ↦ true
    | bit_shl ↦ true
    | bit_shr ↦ true
    | bit_ushr ↦ true
    | array_concat ↦ true
    | _ ↦ false
  ]

  opcode_for-is_operator :
      (t : TokenType) (op : Opcode) → opcode_for t ≡ some op → is_operator op ≡ true
  unfolding opcode_for
  opcode_for-is_operator t op e = ground arith

  step-operator :
      (op : Opcode)
      → is_operator op ≡ true
      → (l r : Value) (m : Machine) (at : ℕ) (stack : List Value) (w : World)
      → step natives functions run depth op (make_ins op) (landed m at (r ∷ l ∷ stack) w) ≡ (
          lifted w (binary (binop_for op) l r w.store) >>= λ x.
          push_value x.0 (landed m at stack x.1) >>= λ m'. ok (going m'))
  unfolding step pop_value
  step-operator op is l r m at stack w = ground arith

  pub operator-Turns :
      (t : TokenType) (op : Opcode)
      → opcode_for t ≡ some op
      → (l r : Value) → T (make_ins op) (l ∷ r ∷ []) (apply_operator (operator_of t) l r)
  operator-Turns t op e l r m at stack w free =
      rw (operator_of-opcode_for t)
        (rw e (step-operator op (opcode_for-is_operator t op e) l r m at stack w))

  pub call-Turns :
      (name : Name) (n : ℕ) (vs : List Value)
      → length vs ≡ n
      → T (call_ins name n) vs (invoke natives functions run depth name vs)
  unfolding step push_value invoke call_program
  call-Turns name n vs e m at stack w free = ground (arith, pop_args-push_all n vs stack (sym e))
