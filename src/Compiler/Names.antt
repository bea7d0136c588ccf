-- ===== src/Compiler/Names.antt =====
-- The operators and the variables of Compiler/Eval.antt are those that the compiler of src/compiler.c
-- and its virtual machine come to.
use mathlib.Core.Option.{map}
use holy_d.Prelude.{ℕ, ◌≡◌, Option, some, none, List}
use holy_d.Outcome.{ok, ◌>>=◌}
use holy_d.Syntax.{Name}
use native.Mathlib.Omega.{arith}
use holy_d.Syntax.Token
use holy_d.Runtime.Value.{Host, Value, Run}
use holy_d.Resolve.Table.{Resolution, Symbol}
use holy_d.Compiler.State.{variable_ins}
use holy_d.Compiler.Expression.{opcode_for}
use holy_d.Compiler.Eval.{operator_of, variable_value, eval_variable}
use holy_d.Vm.Bytecode.{
  Instruction, Chunk, Function, binop_for, local_load, global_load, variable_load,
}
use holy_d.Vm.Step.{Native, step, going}
use holy_d.Vm.Machine.{Machine, World, read_name, push_value}

pub operator_of-opcode_for : (t : Token.TokenType) → operator_of t ≡ map binop_for (opcode_for t)
unfolding operator_of opcode_for binop_for
operator_of-opcode_for t = ground arith

module _ ⦃host : Host⦄ (natives : Name → Option Native) (functions : List Function)
    (run : Chunk → Machine → Run (Value × World)) (depth : ℕ) where
  -- The instruction that reads a variable, by where the resolver put it.
  abbrev load : Resolution → Option Symbol → Name → Instruction
  load r symbol name = variable_ins r symbol local_load global_load variable_load name

  pub step-load :
      (r : Resolution) (symbol : Option Symbol) (name : Name) (m : Machine)
      → step natives functions run depth (load r symbol name).op (load r symbol name) m ≡ (
          eval_variable r symbol name m.scope m.frame m.world >>= λ x.
          push_value x.0 (record m { world = x.1 }) >>= λ m'. ok (going m'))
  unfolding step read_name variable_value variable_ins
  step-load r none name m = ground arith
  step-load r (some symbol) name m = ground arith
