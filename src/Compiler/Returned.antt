-- ===== src/Compiler/Returned.antt =====
-- `return e;` from its source tree to its value: compile_expression and run_chunk of
-- src/compiler.c together.
use holy_d.Prelude.{
  ℕ, zero, suc, ◌+◌, ◌≤◌, ◌<◌, ◌≡◌, refl, sym, ap, ◌∙◌, Bool, true, false, ◌||◌, Option, some, List,
  [], ◌∷◌, ◌++◌, length, length-append, get_elem?, arith, append_assoc,
}
use holy_d.Outcome.{ok, fail, undefined, exhausted, ◌>>=◌, bind_assoc}
use holy_d.Syntax.{Name, Node}
use holy_d.Runtime.Value.{Host, Value, Run}
use holy_d.Vm.Bytecode.{Chunk, Function, make_ins, function_return}
use holy_d.Vm.Machine.{World, Machine, stack_limit}
use holy_d.Vm.Step.{Native, round, run_rounds, run_chunk}
use holy_d.Vm.Steps.{At, At-chunk, At-here, At-append_left, At-append_right, run_rounds-Steps}
use holy_d.Resolve.Table.{Resolution}
use holy_d.Compiler.State.{State}
use holy_d.Compiler.Statement.{compile_return}
use holy_d.Compiler.Code.{code, fails}
use holy_d.Compiler.Emission.{compile_expression-code}
use holy_d.Compiler.Eval.{eval}
use holy_d.Compiler.Runs.{landed}
use holy_d.Compiler.Correct.{need, expression-Evaluates}

no_error : (a b : Bool) → (a || b) ≡ false → b ≡ false
no_error true b h = cc
no_error false b h = h

bind-ok : {A : Type 0} (q : Run A) (k : A → Run A) → ((a : A) → k a ≡ ok a) → (q >>= k) ≡ q
bind-ok (ok a) k h = h a
bind-ok (fail e) k h = refl
bind-ok undefined k h = refl
bind-ok exhausted k h = refl

module _ ⦃host : Host⦄ (natives : Name → Option Native) (functions : List Function) where
  -- At a return instruction the activation ends with the value on top.
  run_rounds-return :
      (run : Chunk → Machine → Run (Value × World)) (depth left : ℕ) (chunk : Chunk) (m : Machine)
      (at : ℕ) (x : Value × World) (stack : List Value)
      → 0 < left
      → get_elem? chunk at ≡ some (make_ins function_return)
      → run_rounds natives functions left
          (round natives functions run depth chunk)
          (landed m at (x.0 ∷ stack) x.1)
        ≡ ok x
  unfolding round
  run_rounds-return run depth zero chunk m at x stack positive e = absurd (omega arith)
  run_rounds-return run depth (suc left) chunk m at x stack positive e =
      rw (e, run_rounds, round) refl

  run_rounds-code :
      (run : Chunk → Machine → Run (Value × World)) (depth rounds : ℕ) (r : Resolution) (e : Node)
      (chunk : Chunk) (m : Machine)
      → fails e ≡ false
      → At chunk m.ip (code r e m.ip ++ make_ins function_return ∷ [])
      → length m.stack + need e < stack_limit
      → length (code r e m.ip) < rounds
      → run_rounds natives functions rounds (round natives functions run depth chunk) m
        ≡ eval natives functions run depth r e m.scope m.frame m.world
  run_rounds-code run depth rounds r e chunk m compiles here room bound =
      let c = code r e m.ip in
      let end = m.ip + length c in
      let result = eval natives functions run depth r e m.scope m.frame m.world in
      let value = λ (x : Value × World). landed m end (x.0 ∷ m.stack) x.1 in
      let steps =
        (expression-Evaluates natives functions run depth chunk r e compiles).at_machine m end
          (length c) (At-append_left chunk m.ip c (make_ins function_return ∷ []) here) refl
          (omega arith) room in
      let looped = run_rounds-Steps natives functions run depth chunk rounds steps bound in
      looped.2
      ∙ bind_assoc result (λ x. ok (value x)) _
      ∙ bind-ok result _ (λ x.
        run_rounds-return run depth looped.0 chunk m end x m.stack looped.1
          (At-append_right chunk m.ip c (make_ins function_return ∷ []) here).0)

  -- If the compiler takes `return e;` without an error, the machine stands with an empty stack where
  -- its code begins, the evaluation of `e` fits into the operand stack, and the rounds are at least
  -- the instructions of the chunk, then run_chunk on the chunk gives what the evaluation of the tree
  -- gives: the same value, store, output and globals, or the same error.
  pub run_chunk-compile_return :
      (rounds depth : ℕ) (r : Resolution) (e : Node) (s : State) (m : Machine)
      → (compile_return r e s).had_error ≡ false
      → m.ip ≡ length s.chunk
      → m.stack ≡ []
      → need e < stack_limit
      → length (compile_return r e s).chunk ≤ rounds
      → run_chunk natives functions rounds (suc depth) (compile_return r e s).chunk m
        ≡ eval natives functions
            (run_chunk natives functions rounds depth)
            depth
            r
            e
            m.scope
            m.frame
            m.world
  unfolding compile_return run_chunk
  run_chunk-compile_return rounds depth r e s m compiled start empty room bound =
      let compiled_code = compile_expression-code r e s in
      let c = code r e (length s.chunk) in
      let chunk = (compile_return r e s).chunk in
      let whole : s.chunk ++ (c ++ make_ins function_return ∷ []) ≡ chunk =
        sym (append_assoc s.chunk c (make_ins function_return ∷ []))
        ∙ ap (λ t. t.chunk ++ make_ins function_return ∷ []) (sym compiled_code) in
      let size : length chunk ≡ length s.chunk + (length c + 1) =
        ap length (sym whole)
        ∙ length-append s.chunk (c ++ make_ins function_return ∷ [])
        ∙ ap (λ k. length s.chunk + k) (length-append c (make_ins function_return ∷ [])) in
      let here : At chunk m.ip (code r e m.ip ++ make_ins function_return ∷ []) = rw start (
        At-chunk _ chunk (c ++ make_ins function_return ∷ []) (length s.chunk) whole
          (At-here s.chunk (c ++ make_ins function_return ∷ []))) in
      let few : length (code r e m.ip) < rounds = rw start (omega arith) in
      let none_fails =
        no_error s.had_error (fails e) (sym (ap (λ t. t.had_error) compiled_code) ∙ compiled) in
      run_rounds-code (run_chunk natives functions rounds depth) depth rounds r e chunk m none_fails
        here (rw empty (omega arith)) few
