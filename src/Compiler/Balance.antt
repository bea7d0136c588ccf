-- ===== src/Compiler/Balance.antt =====
-- Every statement that src/compiler.c compiles leaves the loops that are open as it finds them.
use holy_d.Prelude.{
  ℕ, Option-cases, if◌then◌else◌, ◌+◌, ◌≤◌, ◌≡◌, refl, Bool, true, false, inl, inr, Option, some,
  none, List, [], ◌∷◌, length, length-append, arith,
}
use holy_d.Prelude.Int.{pos}
use holy_d.Syntax.{
  Name, Node, Nodes, nil, cons, null, text, var_decl, var_ref, assign, index_assign, block, if_stmt,
  while_stmt, for_stmt, foreach_stmt, goto_stmt, label_stmt, break_stmt, continue_stmt, func_decl,
  return_stmt,
}
use holy_d.Vm.Bytecode.{
  Instruction, make_ins, text_ins, count_ins, int_ins, jump_ins, variable_load, variable_store,
  math_add, flow_jump, flow_jump_if_false,
}
use holy_d.Resolve.Table.{Resolution}
use holy_d.Compiler.State.{
  State, LoopScope, here, emit, patch_jump, push_loop, patch_loop_continues, patch_loop_breaks,
  find_label_ip,
}
use holy_d.Compiler.Expression.{Emitter}
use holy_d.Compiler.Statement.{
  compile_statement, compile_block, compile_foreach, compile_return, compile_leave, compile_label,
  compile_goto, for_condition, emit_all, foreach_loop, foreach_start, foreach_test, foreach_element,
  foreach_index, foreach_bump, record_break, record_continue,
}
use holy_d.Compiler.Loops.{
  Keeps, Keeps-same, Keeps-emit, Keeps-seq, Keeps-patch, Keeps-expression, Keeps-continues,
  Keeps-breaks, Keeps-if, Keeps-loop, pop_loop-depth, depth,
}

Keeps-all : (c : List Instruction) → Keeps (emit_all c)
Keeps-all [] = Keeps-same
Keeps-all (ins ∷ c) = Keeps-seq (Keeps-emit ins) (Keeps-all c)

Keeps-bump : (name : Name) → Keeps (foreach_bump name)
Keeps-bump name = Keeps-seq (Keeps-emit (text_ins variable_load name)) (
    Keeps-seq (Keeps-emit (int_ins (pos 1)))
      (Keeps-all (make_ins math_add ∷ text_ins variable_store name ∷ [])))

Keeps-leave : (f : ℕ → LoopScope → LoopScope) → Keeps (compile_leave f)
Keeps-leave f = record {
  loops_at = λ s. ground arith;
  grows_at = λ s. ground (arith, length-append s.chunk (jump_ins flow_jump ∷ []));
}

Keeps-label : (l : Option ℕ) → Keeps (compile_label l)
Keeps-label none = Keeps-same
Keeps-label (some l) = record { loops_at = λ s. refl; grows_at = λ s. omega arith }

Keeps-goto : (l : Option ℕ) → Keeps (compile_goto l)
Keeps-goto none = record { loops_at = λ s. refl; grows_at = λ s. omega arith }
Keeps-goto (some l) = record {
  loops_at = λ s. ground arith;
  grows_at = λ s. elim (Option-cases (find_label_ip s.labels l)) [
    | inl e ↦ ground (arith, length-append s.chunk (jump_ins flow_jump ∷ []))
    | inr (ip, e) ↦ ground (arith, length-append s.chunk (count_ins flow_jump ip ∷ []))
  ];
}

module _ {b : Emitter} (hb : Keeps b) (array_name index_name : Name) (value_define : Instruction)
    (index_define : Option Instruction) where
  Keeps-foreach_loop : Keeps (foreach_loop array_name index_name value_define index_define b)
  unfolding foreach_loop
  Keeps-foreach_loop = record {
    loops_at = λ s.
        let s1 = emit_all (foreach_start array_name index_name) s in
        let s2 = emit_all (foreach_test array_name index_name) s1 in
        let s3 =
          emit_all (foreach_element array_name index_name value_define)
            (emit (jump_ins flow_jump_if_false) s2) in
        let s4 = push_loop (emit_all (foreach_index index_name index_define) s3) in
        let s5 = b s4 in
        let s6 = patch_loop_continues s5 in
        let s7 =
          patch_jump (here s2)
            (emit (count_ins flow_jump (here s1)) (foreach_bump index_name s6)) in
        pop_loop-depth (patch_loop_breaks s7) (depth s) (
          omega (
            arith,
            Keeps-breaks.loops_at s7,
            Keeps-continues.loops_at s5,
            hb.loops_at s4,
            (Keeps-all (foreach_index index_name index_define)).loops_at s3,
          ));
    grows_at = λ s.
        let s1 = emit_all (foreach_start array_name index_name) s in
        let s2 = emit_all (foreach_test array_name index_name) s1 in
        let s3 = emit (jump_ins flow_jump_if_false) s2 in
        let s4 = emit_all (foreach_element array_name index_name value_define) s3 in
        let s5 = emit_all (foreach_index index_name index_define) s4 in
        let s6 = b (push_loop s5) in
        let s7 = foreach_bump index_name (patch_loop_continues s6) in
        let s8 = emit (count_ins flow_jump (here s1)) s7 in
        let s9 = patch_jump (here s2) s8 in
        omega (
          arith,
          (Keeps-all (foreach_start array_name index_name)).grows_at s,
          (Keeps-all (foreach_test array_name index_name)).grows_at s1,
          (Keeps-emit (jump_ins flow_jump_if_false)).grows_at s2,
          (Keeps-all (foreach_element array_name index_name value_define)).grows_at s3,
          (Keeps-all (foreach_index index_name index_define)).grows_at s4,
          hb.grows_at (push_loop s5),
          Keeps-continues.grows_at s6,
          (Keeps-bump index_name).grows_at (patch_loop_continues s6),
          (Keeps-emit (count_ins flow_jump (here s1))).grows_at s7,
          (Keeps-patch (here s2)).grows_at s8,
          Keeps-breaks.grows_at s9,
        );
  }

  Keeps-foreach :
      {a : Emitter}
      → Keeps a
      → Keeps (λ s. foreach_loop array_name index_name value_define index_define b (a s))
  Keeps-foreach ha = Keeps-seq ha Keeps-foreach_loop

foreach-Keeps :
    {a b : Emitter}
    → Keeps a
    → Keeps b
    → (value_define : Instruction) (index_define : Option Instruction)
    → Keeps (compile_foreach value_define index_define a b)
unfolding compile_foreach
foreach-Keeps {a} ha hb value_define index_define = record {
  loops_at = λ s.
      (Keeps-foreach hb _ _ value_define index_define ha).loops_at
        (record s { temp_counter = s.temp_counter + 2 });
  grows_at = λ s.
      (Keeps-foreach hb _ _ value_define index_define ha).grows_at
        (record s { temp_counter = s.temp_counter + 2 });
}

Keeps-either : {f g : Emitter} (b : Bool) → Keeps f → Keeps g → Keeps (λ s. if b then f s else g s)
Keeps-either true hf hg = hf
Keeps-either false hf hg = hg

Keeps-condition : (r : Resolution) (e : Node) → Keeps (for_condition r e)
Keeps-condition r null = Keeps-emit _
Keeps-condition r e = Keeps-expression r _

return-Keeps : (r : Resolution) (e : Node) → Keeps (compile_return r e)
unfolding compile_return
return-Keeps r e = Keeps-seq (Keeps-expression r e) (Keeps-emit _)

mutual
  unfolding compile_statement

  pub statement-Keeps :
      (r : Resolution) (has : Name → Bool) (n : Node) → Keeps (compile_statement r has n)
  statement-Keeps r has null = Keeps-same
  statement-Keeps r has (var_decl node type name initializer) =
      Keeps-seq (Keeps-expression r initializer) (Keeps-emit _)
  statement-Keeps r has (assign node name value) =
      Keeps-seq (Keeps-expression r value) (Keeps-emit _)
  statement-Keeps r has (index_assign target index value) =
      Keeps-seq
        (Keeps-seq (Keeps-seq (Keeps-expression r target) (Keeps-expression r index))
          (Keeps-expression r value))
        (Keeps-emit _)
  statement-Keeps r has (block statements) = block-Keeps r has statements
  statement-Keeps r has (if_stmt condition then_branch else_branch) =
      Keeps-if (Keeps-expression r condition) (statement-Keeps r has then_branch)
        (statement-Keeps r has else_branch)
  statement-Keeps r has (while_stmt condition body) =
      Keeps-loop (Keeps-expression r condition) (statement-Keeps r has body) Keeps-same
  statement-Keeps r has (for_stmt initializer condition increment body) =
      Keeps-seq (statement-Keeps r has initializer) (
        Keeps-loop (Keeps-condition r condition) (statement-Keeps r has body)
          (statement-Keeps r has increment))
  statement-Keeps r has (foreach_stmt node type name index_type index_name array body) =
      foreach-Keeps (Keeps-expression r array) (statement-Keeps r has body) _ _
  statement-Keeps r has (func_decl _ _ _ _ _) = Keeps-same
  statement-Keeps r has (return_stmt e) = return-Keeps r e
  statement-Keeps r has (text value) =
      Keeps-seq (Keeps-seq (Keeps-expression r (text value)) (Keeps-emit _)) (Keeps-emit _)
  statement-Keeps r has (var_ref node name) =
      Keeps-seq (Keeps-either (has name) (Keeps-emit _) (Keeps-expression r (var_ref node name)))
        (Keeps-emit _)
  statement-Keeps r has (label_stmt node _) = Keeps-label _
  statement-Keeps r has break_stmt = Keeps-leave record_break
  statement-Keeps r has continue_stmt = Keeps-leave record_continue
  statement-Keeps r has (goto_stmt node _) = Keeps-goto _
  statement-Keeps r has e = Keeps-seq (Keeps-expression r _) (Keeps-emit _)

  block-Keeps : (r : Resolution) (has : Name → Bool) (ns : Nodes) → Keeps (compile_block r has ns)
  block-Keeps r has nil = Keeps-same
  block-Keeps r has (cons statement rest) =
      Keeps-seq (statement-Keeps r has statement) (block-Keeps r has rest)

-- Compiling a statement leaves as many loops open as there were, so that a `break` or a `continue`
-- behind it belongs to the loop around it, and takes no instruction away.
pub compile_statement-loops :
    (r : Resolution) (has : Name → Bool) (n : Node) (s : State)
    → (length (compile_statement r has n s).loops ≡ length s.loops)
      × (length s.chunk ≤ length (compile_statement r has n s).chunk)
compile_statement-loops r has n s =
    ((statement-Keeps r has n).loops_at s, (statement-Keeps r has n).grows_at s)
