-- ===== src/Compiler/Correct.antt =====
-- The code of an expression, run by the virtual machine of src/compiler.c, evaluates the expression.
use Prim.Native.Nat.{max}
use holy_d.Prelude.{
  ℕ, suc, ◌+◌, ◌≡◌, refl, sym, ap, ◌∙◌, Bool, true, false, ◌||◌, Option, some, none, List, [], ◌∷◌,
  length, arith,
}
use holy_d.Prelude.Int.{ℤ, pos}
use holy_d.Outcome.{ok, ◌>>=◌, bind-eq-ok}
use holy_d.Syntax.{
  Name, Node, Nodes, nil, cons, null, number, float, text, var_ref, binary_op, unary_op, cast_to,
  ternary_op, call, array_literal, index_expr, array_len_expr, node_count,
}
use holy_d.Syntax.Token.{TokenType}
use holy_d.Runtime.Value.{Host, Value, int, Run, lift, hd_sub, CastKind, cast_kind_of, not_value}
use holy_d.Runtime.Array.{index, length_of, array_new, binary, cast}
use holy_d.Environment.{Scope}
use holy_d.Vm.Bytecode.{
  Chunk, Function, Opcode, Instruction, make_ins, count_ins, call_ins, math_sub, int_ins, cast_code,
  array_get, array_length, array_create, logic_not, cast_op,
}
use holy_d.Vm.Machine.{World, Machine, Frame, push_value}
use holy_d.Vm.Step.{Native, step, going}
use holy_d.Resolve.Table.{Resolution, read_role}
use holy_d.Compiler.State.{symbol_for}
use holy_d.Compiler.Expression.{
  read_ins, opcode_for, Logical, logical_and, logical_or, not_logical, logical_kind, Unary,
  negation, logical_not, other_unary, unary_kind,
}
use holy_d.Compiler.Code.{
  Code, only, code, items_code, binary_code, unary_code, cast_code_of, binary_fails, unary_fails,
  cast_fails, fails, items_fail,
}
use holy_d.Compiler.Eval.{
  Eval, eval, eval_items, eval_binary, eval_unary, eval_cast, operator_of, apply_operator, invoke,
  lifted, pure_lifted,
}
use holy_d.Compiler.Names.{step-load}
use holy_d.Compiler.Runs.{Evaluates, EvaluatesAll}
use holy_d.Compiler.Combine.{
  Evaluates-only, Evaluates-then, Evaluates-both, Evaluates-nil, Evaluates-cons, Evaluates-all,
}
use holy_d.Compiler.Branch.{Evaluates-and, Evaluates-or, Evaluates-ternary}
use holy_d.Compiler.Meaning.{
  not-Turns, cast-Turns, length-Turns, index-Turns, sub-Turns, create-Turns, operator-Turns,
  call-Turns,
}

abbrev unary_need : Unary → ℕ → ℕ
unary_need negation n = n + 1
unary_need _ n = n

-- The elements of the stack that the evaluation takes beyond the one for its value.
unfoldable mutual
  pub need : Node → ℕ
  need (binary_op op left right) = max (need left) (need right + 1)
  need (unary_op op operand) = unary_need (unary_kind op) (need operand)
  need (cast_to type operand) = need operand
  need (ternary_op condition yes_case no_case) =
      max (need condition) (max (need yes_case) (need no_case))
  need (index_expr target at) = max (need target) (need at + 1)
  need (array_len_expr target) = need target
  need (array_literal items) = items_need items
  need (call name arguments) = items_need arguments
  need _ = 0

  pub items_need : Nodes → ℕ
  items_need nil = 0
  items_need (cons e rest) = max (need e) (items_need rest + 1)

or_parts : (a b : Bool) → (a || b) ≡ false → (a ≡ false) × (b ≡ false)
or_parts true b e = cc
or_parts false b e = (refl, e)

module _ ⦃host : Host⦄ (natives : Name → Option Native) (functions : List Function)
    (run : Chunk → Machine → Run (Value × World)) (depth : ℕ) where
  length-eval_items :
      (r : Resolution) (es : Nodes) (scope : Option Scope) (frame : Option Frame) (w : World)
      (x : List Value × World)
      → eval_items natives functions run depth r es scope frame w ≡ ok x
      → length x.0 ≡ node_count es
  unfolding eval_items
  length-eval_items r nil scope frame w x e =
      let same : ◌≡◌ {A = List Value × World} ([], w) x = cc in ap (λ y. length y.0) (sym same)
  length-eval_items r (cons e rest) scope frame w x is =
      let first = bind-eq-ok (eval natives functions run depth r e scope frame w) _ is in
      let second =
        bind-eq-ok (eval_items natives functions run depth r rest scope frame first.0.1) _
          first.2 in
      let same : ◌≡◌ {A = List Value × World} (first.0.0 ∷ second.0.0, second.0.1) x = cc in
      let sized = length-eval_items r rest scope frame first.0.1 second.0 second.1 in
      ap (λ y. length y.0) (sym same) ∙ ap suc sized

  module _ (chunk : Chunk) where
    abbrev E : Code → ℕ → Eval Value → Type 0
    E c n f = Evaluates natives functions run depth chunk c n f

    literal-Evaluates :
        (ins : Instruction) (v : Value)
        → ((m : Machine)
            → step natives functions run depth ins.op ins m
              ≡ (push_value v m >>= λ m'. ok (going m')))
        → E (only ins) 0 (λ scope frame w. ok (v, w))
    literal-Evaluates ins v pushes =
        Evaluates-only natives functions run depth chunk ins (λ scope frame w. ok (v, w))
          (λ m _. pushes m)

    int-Evaluates : (n : ℤ) → E (only (int_ins n)) 0 (λ scope frame w. ok (int n, w))
    unfolding step
    int-Evaluates n = literal-Evaluates (int_ins n) (int n) (λ m. refl)

    binary-Evaluates :
        {c d : Code} {i j : ℕ} {f g : Eval Value} {x y : Bool} (k : Logical) (t : TokenType)
        (o : Option Opcode)
        → opcode_for t ≡ o
        → binary_fails k o x y ≡ false
        → (x ≡ false → E c i f)
        → (y ≡ false → E d j g)
        → E (binary_code k o c d) (max i (j + 1)) (eval_binary k (operator_of t) f g)
    binary-Evaluates {x} {y} logical_and t o e none_fails hc hd =
        let p = or_parts x y none_fails in
        Evaluates-and natives functions run depth chunk (hc p.0) (hd p.1) (omega arith)
          (omega arith)
    binary-Evaluates {x} {y} logical_or t o e none_fails hc hd =
        let p = or_parts x y none_fails in
        Evaluates-or natives functions run depth chunk (hc p.0) (hd p.1) (omega arith) (omega arith)
    binary-Evaluates {x} {y} not_logical t none e none_fails hc hd = ground arith
    binary-Evaluates {x} {y} not_logical t (some op) e none_fails hc hd =
        let p = or_parts x y (or_parts (x || y) false none_fails).0 in
        Evaluates-both natives functions run depth chunk (hc p.0) (hd p.1) (omega arith)
          (omega arith) (make_ins op) (apply_operator (operator_of t))
          (operator-Turns natives functions run depth t op e)

    unary-Evaluates :
        {c : Code} {i : ℕ} {f : Eval Value} {x : Bool} (k : Unary)
        → unary_fails k x ≡ false
        → (x ≡ false → E c i f)
        → E (unary_code k c) (unary_need k i) (eval_unary k f)
    unary-Evaluates negation none_fails hc =
        Evaluates-both natives functions run depth chunk (int-Evaluates (pos 0)) (hc none_fails)
          (omega arith) (omega arith) (make_ins math_sub)
          (λ l r w. lifted w (binary hd_sub l r w.store)) (sub-Turns natives functions run depth)
    unary-Evaluates logical_not none_fails hc =
        Evaluates-then natives functions run depth chunk (make_ins logic_not)
          (λ v w. ok (not_value v, w)) (hc none_fails) (not-Turns natives functions run depth)
    unary-Evaluates other_unary none_fails hc = cc

    cast-Evaluates :
        {c : Code} {i : ℕ} {f : Eval Value} {x : Bool} (k : Option CastKind)
        → cast_fails k x ≡ false
        → (x ≡ false → E c i f)
        → E (cast_code_of k c) i (eval_cast k f)
    cast-Evaluates none none_fails hc = cc
    cast-Evaluates (some k) none_fails hc =
        Evaluates-then natives functions run depth chunk (count_ins cast_op (cast_code k))
          (λ v w. pure_lifted w (lift w.store (cast k v))) (hc none_fails)
          (cast-Turns natives functions run depth k)

    mutual
      unfolding code fails eval need step

      pub expression-Evaluates :
          (r : Resolution) (e : Node)
          → fails e ≡ false
          → E (code r e) (need e) (eval natives functions run depth r e)
      expression-Evaluates r null h = int-Evaluates (pos 0)
      expression-Evaluates r (number value _) h = int-Evaluates value
      expression-Evaluates r (float value) h = literal-Evaluates _ _ (λ m. refl)
      expression-Evaluates r (text value) h = literal-Evaluates _ _ (λ m. refl)
      expression-Evaluates r (var_ref node name) h =
          Evaluates-only natives functions run depth chunk (read_ins r node name) _
            (λ m _. step-load natives functions run depth r (symbol_for r node read_role) name m)
      expression-Evaluates r (binary_op op left right) h =
          binary-Evaluates (logical_kind op) op (opcode_for op) refl h (expression-Evaluates r left)
            (expression-Evaluates r right)
      expression-Evaluates r (unary_op op operand) h =
          unary-Evaluates (unary_kind op) h (expression-Evaluates r operand)
      expression-Evaluates r (cast_to type operand) h =
          cast-Evaluates (cast_kind_of type) h (expression-Evaluates r operand)
      expression-Evaluates r (ternary_op condition yes_case no_case) h =
          let outer = or_parts (fails condition || fails yes_case) (fails no_case) h in
          let inner = or_parts (fails condition) (fails yes_case) outer.0 in
          Evaluates-ternary natives functions run depth chunk
            (expression-Evaluates r condition inner.0) (expression-Evaluates r yes_case inner.1)
            (expression-Evaluates r no_case outer.1) (omega arith) (omega arith) (omega arith)
      expression-Evaluates r (index_expr target at) h =
          let p = or_parts (fails target) (fails at) h in
          Evaluates-both natives functions run depth chunk (expression-Evaluates r target p.0)
            (expression-Evaluates r at p.1) (omega arith) (omega arith) (make_ins array_get)
            (λ t i w. pure_lifted w (lift w.store (index w.store t i)))
            (index-Turns natives functions run depth)
      expression-Evaluates r (array_len_expr target) h =
          Evaluates-then natives functions run depth chunk (make_ins array_length)
            (λ t w. pure_lifted w (lift w.store (length_of t))) (expression-Evaluates r target h)
            (length-Turns natives functions run depth)
      expression-Evaluates r (array_literal items) h =
          Evaluates-all natives functions run depth chunk
            (count_ins array_create (node_count items)) (λ vs w. lifted w (array_new vs w.store))
            (items-Evaluates r items h) (length-eval_items r items)
            (create-Turns natives functions run depth (node_count items))
      expression-Evaluates r (call name arguments) h =
          Evaluates-all natives functions run depth chunk (call_ins name (node_count arguments))
            (invoke natives functions run depth name) (items-Evaluates r arguments h)
            (length-eval_items r arguments)
            (call-Turns natives functions run depth name (node_count arguments))
      expression-Evaluates r _ h = cc

      pub items-Evaluates :
          (r : Resolution) (es : Nodes)
          → items_fail es ≡ false
          → EvaluatesAll natives functions run depth chunk
              (items_code r es)
              (items_need es)
              (eval_items natives functions run depth r es)
      items-Evaluates r nil h = Evaluates-nil natives functions run depth chunk
      items-Evaluates r (cons e rest) h =
          let p = or_parts (fails e) (items_fail rest) h in
          Evaluates-cons natives functions run depth chunk (expression-Evaluates r e p.0)
            (items-Evaluates r rest p.1) (omega arith) (omega arith)
