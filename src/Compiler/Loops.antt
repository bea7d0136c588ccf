-- ===== src/Compiler/Loops.antt =====
-- The loop scopes of src/compiler.c are balanced, and compiling only adds instructions.
use holy_d.Prelude.{
  ℕ, suc, ◌≤◌, ◌≡◌, refl, ap, ◌∙◌, Option-cases, inl, inr, List, [], ◌∷◌, length, get_elem?,
  length-set, length-append, arith,
}
use holy_d.Prelude.Int.{ℤ}
use holy_d.Syntax.{Node}
use holy_d.Vm.Bytecode.{Chunk, Instruction, jump_ins, count_ins, flow_jump, flow_jump_if_false}
use holy_d.Resolve.Table.{Resolution}
use holy_d.Compiler.State.{
  State, LoopScope, emit, patch_jump, patch_jumps, set_operand, with_operand, here, push_loop,
  pop_loop, patch_loop_continues, patch_loop_breaks,
}
use holy_d.Compiler.Expression.{Emitter, compile_expression}
use holy_d.Compiler.Statement.{compile_if, compile_loop}
use holy_d.Compiler.Emission.{compile_expression-code}

abbrev pub depth : State → ℕ
depth s = length s.loops

abbrev pub size : State → ℕ
size s = length s.chunk

-- An emitter that leaves as many loops open as it finds, and at least as many instructions.
pub record Keeps (f : Emitter) : Type 0 where
  pub loops_at : (s : State) → depth (f s) ≡ depth s
  pub grows_at : (s : State) → size s ≤ size (f s)

length-set_operand : (c : Chunk) (at : ℕ) (target : ℤ) → length (set_operand c at target) ≡ length c
length-set_operand c at target = elim (Option-cases (get_elem? c at)) [
  | inl e ↦ ground arith
  | inr (ins, e) ↦ ground (arith, length-set c at (with_operand target ins))
]

patch_jumps-size : (js : List ℕ) (s : State) → size (patch_jumps js s) ≡ size s
patch_jumps-size [] s = refl
patch_jumps-size (at ∷ js) s =
    patch_jumps-size js (patch_jump at s) ∙ length-set_operand s.chunk at _

patch_jumps-loops : (js : List ℕ) (s : State) → (patch_jumps js s).loops ≡ s.loops
patch_jumps-loops [] s = refl
patch_jumps-loops (at ∷ js) s = patch_jumps-loops js (patch_jump at s)

pub Keeps-same : Keeps (λ s. s)
Keeps-same = record { loops_at = λ s. refl; grows_at = λ s. omega arith }

pub Keeps-emit : (ins : Instruction) → Keeps (emit ins)
Keeps-emit ins = record {
  loops_at = λ s. refl;
  grows_at = λ s. omega (arith, length-append s.chunk (ins ∷ []));
}

pub Keeps-seq : {f g : Emitter} → Keeps f → Keeps g → Keeps (λ s. g (f s))
Keeps-seq {f} hf hg = record {
  loops_at = λ s. hg.loops_at (f s) ∙ hf.loops_at s;
  grows_at = λ s. omega (arith, hg.grows_at (f s), hf.grows_at s);
}

pub Keeps-patch : (at : ℕ) → Keeps (patch_jump at)
Keeps-patch at = record {
  loops_at = λ s. refl;
  grows_at = λ s. omega (arith, length-set_operand s.chunk at _);
}

pub Keeps-expression : (r : Resolution) (e : Node) → Keeps (compile_expression r e)
Keeps-expression r e = record {
  loops_at = λ s. ap depth (compile_expression-code r e s);
  grows_at = λ s. rw (compile_expression-code r e s) (omega (arith, length-append {0}));
}

pub Keeps-continues : Keeps patch_loop_continues
Keeps-continues = record { loops_at = loops_of; grows_at = size_of }
  where
    loops_of : (s : State) → depth (patch_loop_continues s) ≡ depth s
    loops_of s = patched s.loops
      where
        patched :
            (ls : List LoopScope)
            → depth (elim ls [ [] ↦ s | loop ∷ _ ↦ patch_jumps loop.continue_jumps s ]) ≡ depth s
        patched [] = refl
        patched (loop ∷ _) = ap length (patch_jumps-loops loop.continue_jumps s)

    size_of : (s : State) → size s ≤ size (patch_loop_continues s)
    size_of s = patched s.loops
      where
        patched :
            (ls : List LoopScope)
            → size s ≤ size (elim ls [ [] ↦ s | loop ∷ _ ↦ patch_jumps loop.continue_jumps s ])
        patched [] = omega arith
        patched (loop ∷ _) = omega (arith, patch_jumps-size loop.continue_jumps s)

pub Keeps-breaks : Keeps patch_loop_breaks
Keeps-breaks = record { loops_at = loops_of; grows_at = size_of }
  where
    loops_of : (s : State) → depth (patch_loop_breaks s) ≡ depth s
    loops_of s = patched s.loops
      where
        patched :
            (ls : List LoopScope)
            → depth (elim ls [ [] ↦ s | loop ∷ _ ↦ patch_jumps loop.break_jumps s ]) ≡ depth s
        patched [] = refl
        patched (loop ∷ _) = ap length (patch_jumps-loops loop.break_jumps s)

    size_of : (s : State) → size s ≤ size (patch_loop_breaks s)
    size_of s = patched s.loops
      where
        patched :
            (ls : List LoopScope)
            → size s ≤ size (elim ls [ [] ↦ s | loop ∷ _ ↦ patch_jumps loop.break_jumps s ])
        patched [] = omega arith
        patched (loop ∷ _) = omega (arith, patch_jumps-size loop.break_jumps s)

pub pop_loop-depth : (s : State) (n : ℕ) → depth s ≡ suc n → depth (pop_loop s) ≡ n
pop_loop-depth s n h = ground arith

module _ {c t e : Emitter} (hc : Keeps c) (ht : Keeps t) (he : Keeps e) where
  pub Keeps-if : Keeps (compile_if c t e)
  unfolding compile_if
  Keeps-if = record {
    loops_at = λ s. he.loops_at _ ∙ (ht.loops_at _ ∙ hc.loops_at s);
    grows_at = λ s.
        let s1 = c s in
        let s2 = emit (jump_ins flow_jump_if_false) s1 in
        let s3 = t s2 in
        let s4 = emit (jump_ins flow_jump) s3 in
        let s5 = patch_jump (here s1) s4 in
        omega (
          arith,
          hc.grows_at s,
          (Keeps-emit (jump_ins flow_jump_if_false)).grows_at s1,
          ht.grows_at s2,
          (Keeps-emit (jump_ins flow_jump)).grows_at s3,
          (Keeps-patch (here s1)).grows_at s4,
          he.grows_at s5,
          (Keeps-patch (here s3)).grows_at (e s5),
        );
  }

  pub Keeps-loop : Keeps (compile_loop c t e)
  unfolding compile_loop
  Keeps-loop = record {
    loops_at = λ s.
        let s1 = c s in
        let s2 = push_loop (emit (jump_ins flow_jump_if_false) s1) in
        let s3 = t s2 in
        let s4 = patch_loop_continues s3 in
        let s5 = e s4 in
        let s6 = patch_jump (here s1) (emit (count_ins flow_jump (here s)) s5) in
        pop_loop-depth (patch_loop_breaks s6) (depth s) (
          omega (
            arith,
            Keeps-breaks.loops_at s6,
            he.loops_at s4,
            Keeps-continues.loops_at s3,
            ht.loops_at s2,
            hc.loops_at s,
          ));
    grows_at = λ s.
        let s1 = c s in
        let s2 = emit (jump_ins flow_jump_if_false) s1 in
        let s3 = t (push_loop s2) in
        let s4 = patch_loop_continues s3 in
        let s5 = e s4 in
        let s6 = emit (count_ins flow_jump (here s)) s5 in
        let s7 = patch_jump (here s1) s6 in
        omega (
          arith,
          hc.grows_at s,
          (Keeps-emit (jump_ins flow_jump_if_false)).grows_at s1,
          ht.grows_at (push_loop s2),
          Keeps-continues.grows_at s3,
          he.grows_at s4,
          (Keeps-emit (count_ins flow_jump (here s))).grows_at s5,
          (Keeps-patch (here s1)).grows_at s6,
          Keeps-breaks.grows_at s7,
        );
  }
