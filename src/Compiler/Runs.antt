-- ===== src/Compiler/Runs.antt =====
-- What it means that a piece of a chunk evaluates an expression on the virtual machine of
-- src/compiler.c, and the rounds of single instructions.
use holy_d.Prelude.{
  ℕ, suc, ◌+◌, ◌≤◌, ◌<◌, ◌≡◌, refl, sym, ap, ◌∙◌, Option, some, List, [], ◌∷◌, ◌++◌, length,
  get_elem?, lt→ltb, append-nil, arith,
}
use holy_d.Outcome.{ok, fail, undefined, exhausted, ◌>>=◌, bind_assoc, bind_congr}
use holy_d.Syntax.{Name}
use holy_d.Runtime.Value.{Host, Value, Run}
use holy_d.Vm.Bytecode.{Chunk, Function, Instruction}
use holy_d.Vm.Machine.{World, Machine, stack_limit, push_value, pop_args}
use holy_d.Vm.Step.{Native, going, step, round}
use holy_d.Vm.Steps.{At, Steps, Steps-mono, Steps-trans, Steps-one, one_round}
use holy_d.Compiler.Code.{Code}
use holy_d.Compiler.Eval.{Eval}

-- The values of a list pushed one after the other.
abbrev pub push_all : List Value → List Value → List Value
push_all [] stack = stack
push_all (v ∷ vs) stack = push_all vs (v ∷ stack)

pub length-push_all :
    (vs stack : List Value) → length (push_all vs stack) ≡ length vs + length stack
length-push_all [] stack = omega arith
length-push_all (v ∷ vs) stack = length-push_all vs (v ∷ stack) ∙ omega arith

pop_args-more :
    (n : ℕ) (vs acc stack : List Value) (k : ℕ)
    → n ≡ length vs + k
    → pop_args n acc (push_all vs stack) ≡ pop_args k (vs ++ acc) stack
unfolding pop_args
pop_args-more n [] acc stack k e = ap (λ j. pop_args j acc stack) (omega arith)
pop_args-more n (v ∷ vs) acc stack k e = pop_args-more n vs acc (v ∷ stack) (suc k) (omega arith)

-- What was pushed is popped, in its order.
pub pop_args-push_all :
    (n : ℕ) (vs stack : List Value)
    → n ≡ length vs
    → pop_args n [] (push_all vs stack) ≡ some (vs, stack)
unfolding pop_args
pop_args-push_all n vs stack e =
    pop_args-more n vs [] stack 0 (omega arith) ∙ ap (λ u. some (u, stack)) (append-nil vs)

pub push_value-free :
    ⦃host : Host⦄ (v : Value) (m : Machine)
    → length m.stack < stack_limit
    → push_value v m ≡ ok (record m { stack = v ∷ m.stack })
unfolding push_value
push_value-free v m h = rw (lt→ltb (length m.stack) stack_limit h) refl

-- Where an evaluation leaves the machine.
abbrev pub landed : Machine → ℕ → List Value → World → Machine
landed m end stack w = record m { stack = stack; ip = end; world = w }

module _ ⦃host : Host⦄ (natives : Name → Option Native) (functions : List Function) where
  module _ (run : Chunk → Machine → Run (Value × World)) (depth : ℕ) (chunk : Chunk) where
    abbrev pub Rounds : ℕ → Machine → Run Machine → Type 0
    Rounds n m o = Steps natives functions run depth chunk n m o

    -- Wherever code `c` stands in the chunk and `need` elements of the stack are free, its rounds come
    -- to `f` with the value on the stack.
    pub record Evaluates (c : Code) (need : ℕ) (f : Eval Value) : Type 0 where
      pub at_machine :
          (m : Machine) (end n : ℕ)
          → At chunk m.ip (c m.ip)
          → end ≡ m.ip + length (c m.ip)
          → length (c m.ip) ≤ n
          → length m.stack + need < stack_limit
          → Rounds n m (f m.scope m.frame m.world >>= λ x. ok (landed m end (x.0 ∷ m.stack) x.1))

    pub record EvaluatesAll (c : Code) (need : ℕ) (f : Eval (List Value)) : Type 0 where
      pub at_machine :
          (m : Machine) (end n : ℕ)
          → At chunk m.ip (c m.ip)
          → end ≡ m.ip + length (c m.ip)
          → length (c m.ip) ≤ n
          → length m.stack + need < stack_limit
          → Rounds n m
              (f m.scope m.frame m.world >>= λ x. ok (landed m end (push_all x.0 m.stack) x.1))

    pub Rounds-then :
        {X : Type 0} {a b : ℕ} (n : ℕ) {m : Machine} (q : Run X) (g : X → Machine) {Y : Type 0}
        (h : X → Run Y) (k : Y → Run Machine)
        → Rounds a m (q >>= λ x. ok (g x))
        → ((x : X) → q ≡ ok x → Rounds b (g x) (h x >>= k))
        → a + b ≤ n
        → Rounds n m (q >>= h >>= k)
    Rounds-then n (ok x) g h k first second le =
        Steps-mono natives functions run depth chunk n le
          (Steps-trans natives functions run depth chunk first refl (second x refl))
    Rounds-then n (fail e) g h k first second le =
        Steps-mono natives functions run depth chunk n (omega arith) first
    Rounds-then n undefined g h k first second le =
        Steps-mono natives functions run depth chunk n (omega arith) first
    Rounds-then n exhausted g h k first second le =
        Steps-mono natives functions run depth chunk n (omega arith) first

    -- One instruction.
    pub round_at :
        (m : Machine) (ins : Instruction)
        → get_elem? chunk m.ip ≡ some ins
        → one_round natives functions run depth chunk m
          ≡ step natives functions run depth ins.op ins (record m { ip = m.ip + 1 })
    unfolding round
    round_at m ins e = rw (e, one_round, round) refl

    -- An instruction that comes to `q`, and pushes a value that it makes of that.
    pub Rounds-push :
        (m : Machine) (ins : Instruction) (stack : List Value) (q : Run (Value × World))
        → get_elem? chunk m.ip ≡ some ins
        → step natives functions run depth ins.op ins (record m { ip = m.ip + 1 })
          ≡ (q >>= λ x. push_value x.0 (landed m (m.ip + 1) stack x.1) >>= λ m'. ok (going m'))
        → length stack < stack_limit
        → Rounds 1 m (q >>= λ x. ok (landed m (m.ip + 1) (x.0 ∷ stack) x.1))
    Rounds-push m ins stack q e comes free =
        Steps-one natives functions run depth chunk
          (q >>= λ x. ok (landed m (m.ip + 1) (x.0 ∷ stack) x.1))
          (round_at m ins e
            ∙ comes
            ∙ bind_congr q (λ x.
              ap (λ p. p >>= λ m'. ok (going m'))
                (push_value-free x.0 (landed m (m.ip + 1) stack x.1) free))
            ∙ sym (
                bind_assoc q (λ x. ok (landed m (m.ip + 1) (x.0 ∷ stack) x.1))
                  (λ m'. ok (going m'))))
