-- ===== src/Compiler/Combine.antt =====
-- Pieces of code that evaluate expressions, put together to a piece that evaluates the whole: the
-- straight ones of compile_expression in src/compiler.c.
use holy_d.Prelude.{
  ℕ, ◌+◌, ◌≤◌, ◌<◌, ◌≡◌, refl, Option, some, List, [], ◌∷◌, length, length-append, get_elem?, arith,
}
use holy_d.Outcome.{ok, ◌>>=◌, bind_assoc}
use holy_d.Syntax.{Name}
use holy_d.Runtime.Value.{Host, Value, Run}
use holy_d.Environment.{Scope}
use holy_d.Vm.Bytecode.{Chunk, Function, Instruction}
use holy_d.Vm.Machine.{World, Machine, Frame, stack_limit, push_value}
use holy_d.Vm.Step.{Native, going, step}
use holy_d.Vm.Steps.{At-append_left, At-append_right, At-move, done, Steps-mono}
use holy_d.Compiler.Code.{Code, ◌▹◌, only}
use holy_d.Compiler.Eval.{Eval, eval_then, eval_both, eval_all}
use holy_d.Compiler.Runs.{
  landed, push_all, Rounds, Evaluates, EvaluatesAll, Rounds-then, Rounds-push,
}

module _ ⦃host : Host⦄ (natives : Name → Option Native) (functions : List Function)
    (run : Chunk → Machine → Run (Value × World)) (depth : ℕ) (chunk : Chunk) where
  abbrev E : Code → ℕ → Eval Value → Type 0
  E c need f = Evaluates natives functions run depth chunk c need f

  abbrev EAll : Code → ℕ → Eval (List Value) → Type 0
  EAll c need f = EvaluatesAll natives functions run depth chunk c need f

  -- The instruction turns the values `vs` on top of the stack into the one that `q` comes to.
  abbrev pub Turns : Instruction → List Value → (World → Run (Value × World)) → Type 0
  Turns ins vs q =
      (m : Machine) (at : ℕ) (stack : List Value) (w : World)
      → length stack < stack_limit
      → step natives functions run depth ins.op ins (landed m at (push_all vs stack) w)
        ≡ (q w >>= λ x. push_value x.0 (landed m at stack x.1) >>= λ m'. ok (going m'))

  R-done :
      (m : Machine) (end n : ℕ)
      → end ≡ m.ip
      → Rounds natives functions run depth chunk n m (ok (landed m end m.stack m.world))
  R-done m end n e = rw e (done n m)

  -- The last instruction of a piece.
  R-last :
      (ins : Instruction) (vs : List Value) (q : World → Run (Value × World))
      → Turns ins vs q
      → (m : Machine) (w : World) (stack : List Value) (at end : ℕ) → get_elem? chunk at ≡ some ins
      → end ≡ at + 1
      → length stack < stack_limit
      → Rounds natives functions run depth chunk 1
          (landed m at (push_all vs stack) w)
          (q w >>= λ x. ok (landed m end (x.0 ∷ stack) x.1))
  R-last ins vs q turns m w stack at end f e free = rw e (
      Rounds-push natives functions run depth chunk (landed m at (push_all vs stack) w) ins stack
        (q w) f (turns m (at + 1) stack w free) free)

  pub Evaluates-only :
      (ins : Instruction) (f : Eval Value)
      → ((m : Machine)
          → length m.stack < stack_limit
          → step natives functions run depth ins.op ins m ≡ (
              f m.scope m.frame m.world >>= λ x.
              push_value x.0 (landed m m.ip m.stack x.1) >>= λ m'. ok (going m')))
      → E (only ins) 0 f
  Evaluates-only ins f turns = record {
    at_machine = λ m end n here e le room. Steps-mono natives functions run depth chunk n le (
        rw e (
          Rounds-push natives functions run depth chunk m ins m.stack (f m.scope m.frame m.world)
            here.0 (turns (record m { ip = m.ip + 1 }) (omega arith)) (omega arith)));
  }

  pub Evaluates-then :
      {c : Code} {need : ℕ} {f : Eval Value} (ins : Instruction)
      (g : Value → World → Run (Value × World))
      → E c need f
      → ((v : Value) → Turns ins (v ∷ []) (g v))
      → E (c ▹ only ins) need (eval_then f g)
  Evaluates-then {c} {need} {f} ins g hc turns = record {
    at_machine = λ m end n here e le room.
        let p = m.ip + length (c m.ip) in
        Rounds-then natives functions run depth chunk n (f m.scope m.frame m.world)
          (λ x. landed m p (x.0 ∷ m.stack) x.1) (λ x. g x.0 x.1)
          (λ x. ok (landed m end (x.0 ∷ m.stack) x.1))
          (hc.at_machine m p (length (c m.ip)) (At-append_left chunk m.ip (c m.ip) (ins ∷ []) here)
            refl (omega arith) room)
          (λ x _.
            R-last ins (x.0 ∷ []) (g x.0) (turns x.0) m x.1 m.stack p end
              (At-append_right chunk m.ip (c m.ip) (ins ∷ []) here).0
              (omega (arith, length-append {0})) (omega arith))
          (omega (arith, length-append {0}));
  }

  module _ {c d : Code} {i j need : ℕ} {f g : Eval Value} (hc : E c i f) (hd : E d j g)
      (le_left : i ≤ need) (le_right : j + 1 ≤ need) where
    -- Two operands, and an instruction on them.
    pub Evaluates-both :
        (ins : Instruction) (h : Value → Value → World → Run (Value × World))
        → ((l r : Value) → Turns ins (l ∷ r ∷ []) (h l r))
        → E ((c ▹ d) ▹ only ins) need (eval_both f g h)
    Evaluates-both ins h turns = record {
      at_machine = λ m end n here e le room.
          let both = At-append_left chunk m.ip ((c ▹ d) m.ip) (ins ∷ []) here in
          let p = m.ip + length (c m.ip) in
          let q = p + length (d p) in
          let size : length ((c ▹ d) m.ip) ≡ length (c m.ip) + length (d p) =
            length-append (c m.ip) (d p) in
          let whole : length (((c ▹ d) ▹ only ins) m.ip) ≡ length ((c ▹ d) m.ip) + 1 =
            length-append ((c ▹ d) m.ip) (ins ∷ []) in
          let last = At-append_right chunk m.ip ((c ▹ d) m.ip) (ins ∷ []) here in
          Rounds-then natives functions run depth chunk n (f m.scope m.frame m.world)
            (λ x. landed m p (x.0 ∷ m.stack) x.1)
            (λ x. g m.scope m.frame x.1 >>= λ y. h x.0 y.0 y.1)
            (λ x. ok (landed m end (x.0 ∷ m.stack) x.1))
            (hc.at_machine m p (length (c m.ip)) (At-append_left chunk m.ip (c m.ip) (d p) both)
              refl (omega arith) (omega arith))
            (λ x _.
              Rounds-then natives functions run depth chunk (length (d p) + 1)
                (g m.scope m.frame x.1) (λ y. landed m q (y.0 ∷ x.0 ∷ m.stack) y.1)
                (λ y. h x.0 y.0 y.1) (λ x. ok (landed m end (x.0 ∷ m.stack) x.1))
                (hd.at_machine (landed m p (x.0 ∷ m.stack) x.1) q (length (d p))
                  (At-append_right chunk m.ip (c m.ip) (d p) both) refl (omega arith) (omega arith))
                (λ y _.
                  R-last ins (x.0 ∷ y.0 ∷ []) (h x.0 y.0) (turns x.0 y.0) m y.1 m.stack q end
                    (At-move chunk (ins ∷ []) _ q (omega arith) last).0 (omega arith) (omega arith))
                (omega arith))
            (omega arith);
    }

  pub Evaluates-nil : EAll (λ at. []) 0 (λ scope frame w. ok ([], w))
  Evaluates-nil = record { at_machine = λ m end n here e le room. R-done m end n (omega arith) }

  module _ {c d : Code} {i j need : ℕ} {f : Eval Value} {g : Eval (List Value)} (hc : E c i f)
      (hd : EAll d j g) (le_left : i ≤ need) (le_right : j + 1 ≤ need) where
    pub Evaluates-cons :
        EAll
          (c ▹ d)
          need
          (λ scope frame w. f scope frame w >>= λ x. g scope frame x.1 >>= λ y. ok (x.0 ∷ y.0, y.1))
    Evaluates-cons = record {
      at_machine = λ m end n here e le room.
          let p = m.ip + length (c m.ip) in
          let size : length ((c ▹ d) m.ip) ≡ length (c m.ip) + length (d p) =
            length-append (c m.ip) (d p) in
          Rounds-then natives functions run depth chunk {b = length (d p)} n
            (f m.scope m.frame m.world) (λ x. landed m p (x.0 ∷ m.stack) x.1)
            (λ x. g m.scope m.frame x.1 >>= λ y. ok (x.0 ∷ y.0, y.1))
            (λ x. ok (landed m end (push_all x.0 m.stack) x.1))
            (hc.at_machine m p (length (c m.ip)) (At-append_left chunk m.ip (c m.ip) (d p) here)
              refl (omega arith) (omega arith))
            (λ x _.
              rw
                (bind_assoc {B = List Value × World} (g m.scope m.frame x.1)
                  (λ y. ok (x.0 ∷ y.0, y.1)) (λ x. ok (landed m end (push_all x.0 m.stack) x.1)))
                (hd.at_machine (landed m p (x.0 ∷ m.stack) x.1) end (length (d p))
                  (At-append_right chunk m.ip (c m.ip) (d p) here) (omega arith) (omega arith)
                  (omega arith)))
            (omega arith);
    }

  -- A number of values on the stack, and an instruction on all of them.
  pub Evaluates-all :
      {c : Code} {need k : ℕ} {f : Eval (List Value)} (ins : Instruction)
      (g : List Value → World → Run (Value × World))
      → EAll c need f
      → ((scope : Option Scope) (frame : Option Frame) (w : World) (x : List Value × World)
          → f scope frame w ≡ ok x
          → length x.0 ≡ k)
      → ((vs : List Value) → length vs ≡ k → Turns ins vs (g vs))
      → E (c ▹ only ins) need (eval_all f g)
  Evaluates-all {c} {need} {k} {f} ins g hc sized turns = record {
    at_machine = λ m end n here e le room.
        let p = m.ip + length (c m.ip) in
        Rounds-then natives functions run depth chunk n (f m.scope m.frame m.world)
          (λ x. landed m p (push_all x.0 m.stack) x.1) (λ x. g x.0 x.1)
          (λ x. ok (landed m end (x.0 ∷ m.stack) x.1))
          (hc.at_machine m p (length (c m.ip)) (At-append_left chunk m.ip (c m.ip) (ins ∷ []) here)
            refl (omega arith) room)
          (λ x is.
            R-last ins x.0 (g x.0) (turns x.0 (sized m.scope m.frame m.world x is)) m x.1 m.stack p
              end (At-append_right chunk m.ip (c m.ip) (ins ∷ []) here).0
              (omega (arith, length-append {0})) (omega arith))
          (omega (arith, length-append {0}));
  }
