-- ===== src/Compiler/Branch.antt =====
-- The code of `&&`, `||` and `?:` evaluates them: the jumping pieces of compile_expression in
-- src/compiler.c.
use holy_d.Prelude.{
  ℕ, ◌+◌, ◌≤◌, ◌<◌, ◌≡◌, refl, Bool, true, false, if◌then◌else◌, Option, some, List, [], ◌∷◌, ◌++◌,
  length, length-append, get_elem?, arith,
}
use holy_d.Prelude.Int.{pos}
use holy_d.Outcome.{ok, fail, undefined, exhausted, ◌>>=◌}
use holy_d.Syntax.{Name}
use holy_d.Runtime.Value.{Host, Value, int, Run, truthy, of_bool}
use holy_d.Vm.Bytecode.{Chunk, Function, Instruction, int_ins, flow_jump, flow_jump_if_false}
use holy_d.Vm.Machine.{World, Machine, stack_limit}
use holy_d.Vm.Step.{Native}
use holy_d.Vm.Steps.{At, At-append_left, At-append_right, At-move, Steps-mono}
use holy_d.Compiler.Code.{Code, jump, and_code, or_code, ternary_code}
use holy_d.Compiler.Eval.{Eval, eval_truth, eval_and, eval_or, eval_ternary}
use holy_d.Compiler.Runs.{landed, Rounds, Evaluates, Rounds-then}
use holy_d.Compiler.Flow.{BoolTail, R-trans, R-int, R-jump, R-stays, R-leaves, R-bool}

module _ ⦃host : Host⦄ (natives : Name → Option Native) (functions : List Function)
    (run : Chunk → Machine → Run (Value × World)) (depth : ℕ) (chunk : Chunk) where
  abbrev E : Code → ℕ → Eval Value → Type 0
  E c need f = Evaluates natives functions run depth chunk c need f

  abbrev R : ℕ → Machine → Run Machine → Type 0
  R n m o = Rounds natives functions run depth chunk n m o

  abbrev Tail : ℕ → Type 0
  Tail at = BoolTail natives functions run depth chunk at

  abbrev tail_code : ℕ → Chunk
  tail_code at =
      jump flow_jump_if_false (at + 3)
      ∷ int_ins (pos 1)
      ∷ jump flow_jump (at + 4)
      ∷ int_ins (pos 0)
      ∷ []

  Fetch-move :
      (ins : Instruction) (a b : ℕ)
      → b ≡ a
      → get_elem? chunk a ≡ some ins
      → get_elem? chunk b ≡ some ins
  Fetch-move ins a b e h = rw e h

  At-Tail : (at : ℕ) → At chunk at (tail_code at) → Tail at
  At-Tail at h = record {
    test = h.0;
    yes = h.1.0;
    skip = Fetch-move _ (at + 1 + 1) (at + 2) (omega arith) h.1.1.0;
    no = Fetch-move _ (at + 1 + 1 + 1) (at + 3) (omega arith) h.1.1.1.0;
  }

  -- The rounds to where an operand lands, and those behind it.
  R-after :
      {X : Type 0} {a b : ℕ} (n : ℕ) {m : Machine} (q : Run X) (g : X → Machine)
      (k : X → Run Machine)
      → R a m (q >>= λ x. ok (g x))
      → ((x : X) → R b (g x) (k x))
      → a + b ≤ n
      → R n m (q >>= k)
  R-after n (ok x) g k first second le =
      R-trans natives functions run depth chunk n first (second x) le
  R-after n (fail e) g k first second le =
      Steps-mono natives functions run depth chunk n (omega arith) first
  R-after n undefined g k first second le =
      Steps-mono natives functions run depth chunk n (omega arith) first
  R-after n exhausted g k first second le =
      Steps-mono natives functions run depth chunk n (omega arith) first

  module _ {b : Code} {need : ℕ} {g : Eval Value} (hb : E b need g) (m : Machine) (w : World)
      (p : ℕ) (room : length m.stack + need < stack_limit) where
    -- The second operand, and its value made 1 or 0.
    R-truth :
        (end : ℕ)
        → At chunk p (b p)
        → Tail (p + length (b p))
        → end ≡ p + length (b p) + 4
        → R
            (length (b p) + 3)
            (landed m p m.stack w)
            (eval_truth g m.scope m.frame w >>= λ x. ok (landed m end (x.0 ∷ m.stack) x.1))
    R-truth end here tail e =
        let q = p + length (b p) in
        Rounds-then natives functions run depth chunk {b = 3} _ (g m.scope m.frame w)
          (λ y. landed m q (y.0 ∷ m.stack) y.1) (λ y. ok (of_bool (truthy y.0), y.1))
          (λ x. ok (landed m end (x.0 ∷ m.stack) x.1))
          (hb.at_machine (landed m p m.stack w) q (length (b p)) here refl (omega arith) room)
          (λ y _.
            R-bool natives functions run depth chunk m y.1 m.stack q end y.0 (truthy y.0) tail refl
              e (omega arith))
          (omega arith)

  -- A test: the rounds of the branch that is taken.
  R-branch :
      {X : Type 0} {c d : ℕ} (n : ℕ) (m : Machine) (w : World) (p target : ℕ) (v : Value) (t : Bool)
      (taken other : Run X) (k : X → Run Machine)
      → truthy v ≡ t
      → get_elem? chunk p ≡ some (jump flow_jump_if_false target)
      → R c (landed m (p + 1) m.stack w) (taken >>= k)
      → R d (landed m target m.stack w) (other >>= k)
      → c + 1 ≤ n
      → d + 1 ≤ n
      → R n (landed m p (v ∷ m.stack) w) ((if t then taken else other) >>= k)
  R-branch n m w p target v true taken other k is fetch first second le_first le_second =
      R-trans natives functions run depth chunk n
        (R-stays natives functions run depth chunk m w m.stack p target v fetch is) first
        (omega arith)
  R-branch n m w p target v false taken other k is fetch first second le_first le_second =
      R-trans natives functions run depth chunk n
        (R-leaves natives functions run depth chunk m w m.stack p target target v fetch is refl)
        second (omega arith)

  module _ {a b : Code} {i j need : ℕ} {f g : Eval Value} (ha : E a i f) (hb : E b j g)
      (le_left : i ≤ need) (le_right : j ≤ need) where
    pub Evaluates-and : E (and_code a b) need (eval_and f g)
    Evaluates-and = record {
      at_machine = λ m end n here e le room.
          let p = m.ip + length (a m.ip) in
          let lb = length (b (p + 1)) in
          let q = p + 1 + lb in
          let after : Chunk = jump flow_jump_if_false (q + 3) ∷ (b (p + 1) ++ tail_code q) in
          let rest = At-append_right chunk m.ip (a m.ip) after here in
          let tail = At-Tail q (At-append_right chunk (p + 1) (b (p + 1)) (tail_code q) rest.1) in
          let size : length (and_code a b m.ip) ≡ length (a m.ip) + lb + 5 =
            omega (arith, length-append {0}) in
          let k = λ (x : Value × World). ok (landed m end (x.0 ∷ m.stack) x.1) in
          Rounds-then natives functions run depth chunk {b = lb + 4} n (f m.scope m.frame m.world)
            (λ x. landed m p (x.0 ∷ m.stack) x.1)
            (λ x. if truthy x.0 then eval_truth g m.scope m.frame x.1 else ok (int (pos 0), x.1)) k
            (ha.at_machine m p (length (a m.ip)) (At-append_left chunk m.ip (a m.ip) after here)
              refl (omega arith) (omega arith))
            (λ x _.
              R-branch (lb + 4) m x.1 p (q + 3) x.0 (truthy x.0) (eval_truth g m.scope m.frame x.1)
                (ok (int (pos 0), x.1)) k refl rest.0
                (R-truth hb m x.1 (p + 1) (omega arith) end
                  (At-append_left chunk (p + 1) (b (p + 1)) (tail_code q) rest.1) tail
                  (omega arith))
                (R-int natives functions run depth chunk m x.1 m.stack (q + 3) 0 end tail.no
                  (omega arith) (omega arith))
                (omega arith) (omega arith))
            (omega arith);
    }

    pub Evaluates-or : E (or_code a b) need (eval_or f g)
    Evaluates-or = record {
      at_machine = λ m end n here e le room.
          let p = m.ip + length (a m.ip) in
          let lb = length (b (p + 3)) in
          let q = p + 3 + lb in
          let after : Chunk =
            jump flow_jump_if_false (p + 3)
            ∷ int_ins (pos 1)
            ∷ jump flow_jump (q + 4)
            ∷ (b (p + 3) ++ tail_code q) in
          let rest = At-append_right chunk m.ip (a m.ip) after here in
          let second =
            At-move chunk (b (p + 3) ++ tail_code q) (p + 1 + 1 + 1) (p + 3) (omega arith)
              rest.1.1.1 in
          let tail = At-Tail q (At-append_right chunk (p + 3) (b (p + 3)) (tail_code q) second) in
          let size : length (or_code a b m.ip) ≡ length (a m.ip) + lb + 7 =
            omega (arith, length-append {0}) in
          let k = λ (x : Value × World). ok (landed m end (x.0 ∷ m.stack) x.1) in
          Rounds-then natives functions run depth chunk {b = lb + 4} n (f m.scope m.frame m.world)
            (λ x. landed m p (x.0 ∷ m.stack) x.1)
            (λ x. if truthy x.0 then ok (int (pos 1), x.1) else eval_truth g m.scope m.frame x.1) k
            (ha.at_machine m p (length (a m.ip)) (At-append_left chunk m.ip (a m.ip) after here)
              refl (omega arith) (omega arith))
            (λ x _.
              R-branch (lb + 4) m x.1 p (p + 3) x.0 (truthy x.0) (ok (int (pos 1), x.1))
                (eval_truth g m.scope m.frame x.1) k refl rest.0
                (R-trans natives functions run depth chunk 2
                  (R-int natives functions run depth chunk m x.1 m.stack (p + 1) 1 (p + 1 + 1)
                    rest.1.0 refl (omega arith))
                  (R-jump natives functions run depth chunk m x.1 (int (pos 1) ∷ m.stack)
                    (p + 1 + 1) (q + 4) end rest.1.1.0 (omega arith))
                  (omega arith))
                (R-truth hb m x.1 (p + 3) (omega arith) end
                  (At-append_left chunk (p + 3) (b (p + 3)) (tail_code q) second) tail
                  (omega arith))
                (omega arith) (omega arith))
            (omega arith);
    }

  module _ {a b c : Code} {i j l need : ℕ} {f g h : Eval Value} (ha : E a i f) (hb : E b j g)
      (hc : E c l h) (le_first : i ≤ need) (le_second : j ≤ need) (le_third : l ≤ need) where
    pub Evaluates-ternary : E (ternary_code a b c) need (eval_ternary f g h)
    Evaluates-ternary = record {
      at_machine = λ m end n here e le room.
          let p = m.ip + length (a m.ip) in
          let lb = length (b (p + 1)) in
          let q = p + 1 + lb in
          let lc = length (c (q + 1)) in
          let over : Chunk = jump flow_jump (q + 1 + lc) ∷ c (q + 1) in
          let after : Chunk = jump flow_jump_if_false (q + 1) ∷ (b (p + 1) ++ over) in
          let rest = At-append_right chunk m.ip (a m.ip) after here in
          let last = At-append_right chunk (p + 1) (b (p + 1)) over rest.1 in
          let size : length (ternary_code a b c m.ip) ≡ length (a m.ip) + lb + lc + 2 =
            omega (arith, length-append {0}) in
          let k = λ (x : Value × World). ok (landed m end (x.0 ∷ m.stack) x.1) in
          Rounds-then natives functions run depth chunk {b = lb + lc + 2} n
            (f m.scope m.frame m.world) (λ x. landed m p (x.0 ∷ m.stack) x.1)
            (λ x. if truthy x.0 then g m.scope m.frame x.1 else h m.scope m.frame x.1) k
            (ha.at_machine m p (length (a m.ip)) (At-append_left chunk m.ip (a m.ip) after here)
              refl (omega arith) (omega arith))
            (λ x _.
              R-branch (lb + lc + 2) m x.1 p (q + 1) x.0 (truthy x.0) (g m.scope m.frame x.1)
                (h m.scope m.frame x.1) k refl rest.0
                (R-after {b = 1} (lb + 1) (g m.scope m.frame x.1)
                  (λ y. landed m q (y.0 ∷ m.stack) y.1) k
                  (hb.at_machine (landed m (p + 1) m.stack x.1) q lb
                    (At-append_left chunk (p + 1) (b (p + 1)) over rest.1) refl (omega arith)
                    (omega arith))
                  (λ y.
                    R-jump natives functions run depth chunk m y.1 (y.0 ∷ m.stack) q (q + 1 + lc)
                      end last.0 (omega arith))
                  (omega arith))
                (hc.at_machine (landed m (q + 1) m.stack x.1) end lc last.1 (omega arith)
                  (omega arith) (omega arith))
                (omega arith) (omega arith))
            (omega arith);
    }
