-- ===== src/Vm/Bounds.antt =====
-- The operand stack under the instructions of run_chunk in src/compiler.c.
use holy_d.Prelude.{ℕ, ◌≤◌, ◌≡◌, Option, List, length, arith}
use holy_d.Outcome.{ok}
use holy_d.Syntax.{Name}
use holy_d.Runtime.Value.{Host, Value, Run}
use holy_d.Vm.Bytecode.{Chunk, Function, Opcode, Instruction}
use holy_d.Vm.Machine.{
  World, Machine, stack_limit, push_value, pop_value, pop_args, read_name, define_name, store_name,
}
use holy_d.Vm.Step.{Native, going, step}

module _ ⦃host : Host⦄ (natives : Name → Option Native) (functions : List Function)
    (run : Chunk → Machine → Run (Value × World)) (depth : ℕ) where
  -- An instruction that starts with no more values on the stack than its array has elements, and
  -- that succeeds and lets the activation go on, leaves no more there. A call without arguments on a
  -- full stack does not succeed here: the code writes its result past the array, which the model
  -- calls undefined, and nothing is said of it.
  pub step-stack_limit :
      (op : Opcode) (ins : Instruction) (m m' : Machine)
      → step natives functions run depth op ins m ≡ ok (going m')
      → length m.stack ≤ stack_limit
      → length m'.stack ≤ stack_limit
  unfolding step push_value pop_value pop_args read_name define_name store_name
  step-stack_limit op ins m m' h le = ground arith
