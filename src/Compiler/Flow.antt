-- ===== src/Compiler/Flow.antt =====
-- The rounds of run_chunk of src/compiler.c on the instructions that the code of a conditional
-- expression is held together by.

use holy_d.Prelude.{
  ℕ, ◌+◌, ◌≤◌, ◌<◌, ◌≡◌, refl, ap, ◌∙◌, Bool, true, false, Option, some, List, ◌∷◌, length,
  get_elem?, arith,
}
use holy_d.Prelude.Int.{pos}
use holy_d.Outcome.{ok, ◌>>=◌}
use holy_d.Syntax.{Name}
use holy_d.Runtime.Value.{Host, Value, int, Run, truthy, of_bool}
use holy_d.Vm.Bytecode.{Chunk, Function, Instruction, int_ins, flow_jump, flow_jump_if_false}
use holy_d.Vm.Machine.{World, Machine, stack_limit, pop_value}
use holy_d.Vm.Step.{Native, going, step}
use holy_d.Vm.Steps.{Steps-mono, Steps-trans, Steps-one}
use holy_d.Compiler.Code.{jump}
use holy_d.Compiler.Runs.{landed, Rounds, round_at, push_value-free}

module _ ⦃host : Host⦄ (natives : Name → Option Native) (functions : List Function)
    (run : Chunk → Machine → Run (Value × World)) (depth : ℕ) (chunk : Chunk) where
  abbrev R : ℕ → Machine → Run Machine → Type 0
  R n m o = Rounds natives functions run depth chunk n m o

  abbrev Fetch : ℕ → Instruction → Type 0
  Fetch at ins = get_elem? chunk at ≡ some ins

  pub R-trans :
      {a b : ℕ} (n : ℕ) {m m' : Machine} {o : Run Machine}
      → R a m (ok m')
      → R b m' o
      → a + b ≤ n
      → R n m o
  R-trans n first second le =
      Steps-mono natives functions run depth chunk n le
        (Steps-trans natives functions run depth chunk first refl second)

  module _ (m : Machine) (w : World) (stack : List Value) (at : ℕ) where
    pub R-int :
        (k end : ℕ)
        → Fetch at (int_ins (pos k))
        → end ≡ at + 1
        → length stack < stack_limit
        → R 1 (landed m at stack w) (ok (landed m end (int (pos k) ∷ stack) w))
    unfolding step
    R-int k end f e free = rw e (
        Steps-one natives functions run depth chunk (ok _) (
          round_at natives functions run depth chunk (landed m at stack w) _ f
          ∙ ap (λ p. p >>= λ m'. ok (going m'))
              (push_value-free (int (pos k)) (landed m (at + 1) stack w) free)))

    pub R-jump :
        (target end : ℕ)
        → Fetch at (jump flow_jump target)
        → end ≡ target
        → R 1 (landed m at stack w) (ok (landed m end stack w))
    unfolding step
    R-jump target end f e = rw e (
        Steps-one natives functions run depth chunk (ok _)
          (round_at natives functions run depth chunk (landed m at stack w) _ f))

    pub R-stays :
        (target : ℕ) (v : Value)
        → Fetch at (jump flow_jump_if_false target)
        → truthy v ≡ true
        → R 1 (landed m at (v ∷ stack) w) (ok (landed m (at + 1) stack w))
    unfolding step pop_value
    R-stays target v f t =
        Steps-one natives functions run depth chunk (ok _)
          (round_at natives functions run depth chunk (landed m at (v ∷ stack) w) _ f ∙ rw t refl)

    pub R-leaves :
        (target end : ℕ) (v : Value)
        → Fetch at (jump flow_jump_if_false target)
        → truthy v ≡ false
        → end ≡ target
        → R 1 (landed m at (v ∷ stack) w) (ok (landed m end stack w))
    unfolding step pop_value
    R-leaves target end v f t e = rw e (
        Steps-one natives functions run depth chunk (ok _)
          (round_at natives functions run depth chunk (landed m at (v ∷ stack) w) _ f ∙ rw t refl))

  -- `[jump_if_false else; push 1; jump end; else: push 0]`, from address `at` on.
  pub record BoolTail (at : ℕ) : Type 0 where
    pub test : Fetch at (jump flow_jump_if_false (at + 3))
    pub yes : Fetch (at + 1) (int_ins (pos 1))
    pub skip : Fetch (at + 2) (jump flow_jump (at + 4))
    pub no : Fetch (at + 3) (int_ins (pos 0))

  module _ (m : Machine) (w : World) (stack : List Value) (at : ℕ) where
    -- It makes 1 or 0 of the value on the stack.
    pub R-bool :
        (end : ℕ) (v : Value) (b : Bool)
        → BoolTail at
        → truthy v ≡ b
        → end ≡ at + 4
        → length stack < stack_limit
        → R 3 (landed m at (v ∷ stack) w) (ok (landed m end (of_bool b ∷ stack) w))
    R-bool end v true tail t e free =
        R-trans 3 (R-stays m w stack at (at + 3) v tail.test t)
          (R-trans 2 (R-int m w stack (at + 1) 1 (at + 2) tail.yes (omega arith) free)
            (R-jump m w (int (pos 1) ∷ stack) (at + 2) (at + 4) end tail.skip e) (omega arith))
          (omega arith)
    R-bool end v false tail t e free =
        R-trans 3 (R-leaves m w stack at (at + 3) (at + 3) v tail.test t refl)
          (R-int m w stack (at + 3) 0 end tail.no (omega arith) free) (omega arith)
