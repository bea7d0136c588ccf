-- ===== src/Compiler/Emission.antt =====
-- compile_expression of src/compiler.c appends the code that Compiler/Code.antt describes: patching
-- fills in the addresses that are known only later.
use mathlib.Core.Bool.{or_assoc, or-false}
use holy_d.Prelude.{
  ℕ, ◌+◌, ◌≡◌, refl, sym, ap, ap₂, ◌∙◌, Bool, true, false, ◌||◌, Option, some, none, [], ◌∷◌, ◌++◌,
  length, length-append, append_assoc, append-nil, arith,
}
use holy_d.Syntax.{
  Node, Nodes, nil, cons, null, number, float, text, var_ref, binary_op, unary_op, cast_to,
  ternary_op, call, array_literal, index_expr, array_len_expr,
}
use holy_d.Runtime.Value.{CastKind, cast_kind_of}
use holy_d.Vm.Bytecode.{Chunk, Opcode, Instruction, flow_jump, flow_jump_if_false}
use holy_d.Resolve.Table.{Resolution}
use holy_d.Compiler.State.{State, emit, compile_error}
use holy_d.Compiler.Expression.{
  Emitter, emit_int, compile_and, compile_or, compile_ternary, compile_operator, compile_binary,
  compile_unary, compile_cast, compile_expression, compile_items, opcode_for, logical_kind,
  logical_and, logical_or, not_logical, Logical, Unary, negation, logical_not, other_unary,
  unary_kind,
}
use holy_d.Compiler.Code.{
  Code, ◌▹◌, only, jump, and_code, or_code, ternary_code, operator_code, binary_code, unary_code,
  cast_code_of, code, items_code, operator_fails, binary_fails, unary_fails, cast_fails, fails,
  items_fail, push_int,
}
use holy_d.Compiler.Patch.{
  jf, jm, bit, logical_tail, and_patches, or_first_patch, or_patches, ternary_first_patch,
  ternary_last_patch,
}

abbrev pub emitted : State → Chunk → Bool → State
emitted s c b = record s { chunk = s.chunk ++ c; had_error = s.had_error || b }

-- An emitter appends code `c` at the chunk's end and reports an error exactly if `b`.
pub record Emits (f : Emitter) (c : Code) (b : Bool) : Type 0 where
  pub at_state : (s : State) → f s ≡ emitted s (c (length s.chunk)) b

-- A state with another chunk and another error flag.
abbrev mk : State → Chunk → Bool → State
mk s c e = record s { chunk = c; had_error = e }

pub Emits-seq :
    {f g : Emitter} {c d : Code} {a b : Bool}
    → Emits f c a
    → Emits g d b
    → Emits (λ s. g (f s)) (c ▹ d) (a || b)
Emits-seq hf hg = record {
  at_state = λ s. simp (hf.at_state s, hg.at_state, length-append, append_assoc, or_assoc);
}

pub Emits-emit : (ins : Instruction) → Emits (emit ins) (only ins) false
Emits-emit ins = record { at_state = λ s. rw or-false }

module _ {left right : Emitter} {a b : Code} {x y : Bool} (hl : Emits left a x)
    (hr : Emits right b y) where
  pub Emits-and : Emits (compile_and left right) (and_code a b) (x || y)
  unfolding compile_and
  Emits-and = record {
    at_state = λ s.
        let n = length s.chunk in
        let xs = s.chunk ++ a n in
        let t = length (xs ++ jf ∷ []) in
        let e : t ≡ n + length (a n) + 1 = omega (arith, length-append {0}) in
        rw (hl.at_state s) (
          rw hr.at_state (
            ap₂ (mk s)
              (and_patches xs (b t) (t + length (b t)) (omega (arith, length-append {0}))
                ∙ append_assoc s.chunk (a n) _
                ∙ ap
                    (λ u.
                      s.chunk
                      ++ (a n
                          ++ jump flow_jump_if_false (u + length (b u) + 3)
                            ∷ (b u ++ logical_tail (u + length (b u)))))
                    e)
              (or_assoc s.had_error x y)));
  }

  pub Emits-or : Emits (compile_or left right) (or_code a b) (x || y)
  unfolding compile_or
  Emits-or = record {
    at_state = λ s.
        let n = length s.chunk in
        let xs = s.chunk ++ a n in
        let first = jump flow_jump_if_false (length xs + 3) in
        let t = length (xs ++ first ∷ bit 1 ∷ jm ∷ []) in
        let e : length xs ≡ n + length (a n) = omega (arith, length-append {0}) in
        let f : t ≡ n + length (a n) + 3 = omega (arith, length-append {0}) in
        let whole : ℕ → ℕ → Chunk = λ (p u : ℕ).
          s.chunk
          ++ (a n
              ++ jump flow_jump_if_false (p + 3)
                ∷ bit 1
                ∷ jump flow_jump (u + length (b u) + 4)
                ∷ (b u ++ logical_tail (u + length (b u)))) in
        rw (hl.at_state s) (
          rw (or_first_patch xs []) (
            rw hr.at_state (
              ap₂ (mk s)
                (or_patches xs (b t) _ _ (t + length (b t)) (omega (arith, length-append {0}))
                    (omega (arith, length-append {0})) (omega (arith, length-append {0}))
                  ∙ append_assoc s.chunk (a n) _
                  ∙ ap₂ whole e f)
                (or_assoc s.had_error x y))));
  }

module _ {first second third : Emitter} {a b c : Code} {x y z : Bool} (hf : Emits first a x)
    (hs : Emits second b y) (ht : Emits third c z) where
  pub Emits-ternary :
      Emits (compile_ternary first second third) (ternary_code a b c) ((x || y) || z)
  unfolding compile_ternary
  Emits-ternary = record {
    at_state = λ s.
        let n = length s.chunk in
        let xs = s.chunk ++ a n in
        let t = length (xs ++ jf ∷ []) in
        let q = t + length (b t) in
        let first = jump flow_jump_if_false (q + 1) in
        let u = length (xs ++ first ∷ (b t ++ jm ∷ [])) in
        let e : t ≡ n + length (a n) + 1 = omega (arith, length-append {0}) in
        let f : u ≡ q + 1 = omega (arith, length-append {0}) in
        let h : q ≡ length xs + 1 + length (b t) = omega (arith, length-append {0}) in
        let whole : ℕ → ℕ → Chunk = λ (p v : ℕ).
          s.chunk
          ++ (a n
              ++ jump flow_jump_if_false (p + length (b p) + 1)
                ∷ (b p ++ jump flow_jump (p + length (b p) + 1 + length (c v)) ∷ c v)) in
        rw (hf.at_state s) (
          rw hs.at_state (
            rw (ternary_first_patch xs (b t) [] q h) (
              rw ht.at_state (
                ap₂ (mk s)
                  (ternary_last_patch xs (b t) (c u) q _ h (omega (arith, length-append {0}))
                    ∙ append_assoc s.chunk (a n) _
                    ∙ ap (whole t) f
                    ∙ ap (λ p. whole p (p + length (b p) + 1)) e)
                  (or_assoc (s.had_error || x) y z
                    ∙ or_assoc s.had_error x (y || z)
                    ∙ ap (λ o. s.had_error || o) (sym (or_assoc x y z)))))));
  }

-- An error is never taken back.
error_stays : (b : Bool) → true ≡ (b || true)
error_stays true = refl
error_stays false = refl

Emits-operator :
    (op : Option Opcode) → Emits (compile_operator op) (operator_code op) (operator_fails op)
Emits-operator none = record {
  at_state = λ s. ap₂ (mk s) (sym (append-nil s.chunk)) (error_stays s.had_error);
}
Emits-operator (some op) = Emits-emit _

Emits-failed : (n : ℕ) → Emits (λ s. emit_int n (compile_error s)) (push_int n) true
Emits-failed n = record {
  at_state = λ s. ap (λ e. emit_int n (mk s s.chunk e)) (error_stays s.had_error);
}

Emits-then :
    {f : Emitter} {c : Code} {x : Bool}
    → Emits f c x
    → (ins : Instruction) → Emits (λ s. emit ins (f s)) (c ▹ only ins) x
Emits-then {c} {x} hf ins = record {
  at_state = λ s.
      rw (hf.at_state s) (
        ap (λ t. mk s t (s.had_error || x)) (append_assoc s.chunk (c (length s.chunk)) (ins ∷ [])));
}

module _ {f : Emitter} {c : Code} {x : Bool} (hf : Emits f c x) where
  Emits-unary : (k : Unary) → Emits (compile_unary k f) (unary_code k c) (unary_fails k x)
  Emits-unary negation = Emits-then (Emits-seq (Emits-emit _) hf) _
  Emits-unary logical_not = Emits-then hf _
  Emits-unary other_unary = Emits-failed 0

  Emits-cast : (k : Option CastKind) → Emits (compile_cast k f) (cast_code_of k c) (cast_fails k x)
  Emits-cast none = Emits-failed 0
  Emits-cast (some k) = Emits-then hf _

Emits-binary :
    {f g : Emitter} {c d : Code} {x y : Bool} (k : Logical) (op : Option Opcode)
    → Emits f c x
    → Emits g d y
    → Emits (compile_binary k op f g) (binary_code k op c d) (binary_fails k op x y)
Emits-binary logical_and op hf hg = Emits-and hf hg
Emits-binary logical_or op hf hg = Emits-or hf hg
Emits-binary not_logical op hf hg = Emits-seq (Emits-seq hf hg) (Emits-operator op)

mutual
  unfolding compile_expression code fails

  expression-Emits :
      (r : Resolution) (e : Node) → Emits (compile_expression r e) (code r e) (fails e)
  expression-Emits r null = Emits-emit _
  expression-Emits r (number value _) = Emits-emit _
  expression-Emits r (float value) = Emits-emit _
  expression-Emits r (text value) = Emits-emit _
  expression-Emits r (var_ref node name) = Emits-emit _
  expression-Emits r (binary_op op left right) =
      Emits-binary (logical_kind op) (opcode_for op) (expression-Emits r left)
        (expression-Emits r right)
  expression-Emits r (unary_op op operand) =
      Emits-unary (expression-Emits r operand) (unary_kind op)
  expression-Emits r (cast_to type operand) =
      Emits-cast (expression-Emits r operand) (cast_kind_of type)
  expression-Emits r (ternary_op a b c) =
      Emits-ternary (expression-Emits r a) (expression-Emits r b) (expression-Emits r c)
  expression-Emits r (index_expr target index) =
      Emits-then (Emits-seq (expression-Emits r target) (expression-Emits r index)) _
  expression-Emits r (array_len_expr target) = Emits-then (expression-Emits r target) _
  expression-Emits r (array_literal items) = Emits-then (items-Emits r items) _
  expression-Emits r (call name arguments) = Emits-then (items-Emits r arguments) _
  expression-Emits r _ = Emits-failed 0

  items-Emits :
      (r : Resolution) (es : Nodes) → Emits (compile_items r es) (items_code r es) (items_fail es)
  items-Emits r nil = record {
    at_state = λ s. ap₂ (mk s) (sym (append-nil s.chunk)) (sym (or-false s.had_error));
  }
  items-Emits r (cons e rest) = Emits-seq (expression-Emits r e) (items-Emits r rest)

-- Compiling an expression appends to the chunk the code that is described for the address where the
-- chunk ends, with every jump patched; it reports an error exactly for the expressions that are
-- described to fail, and changes nothing else of the compiler's state.
pub compile_expression-code :
    (r : Resolution) (e : Node) (s : State)
    → compile_expression r e s ≡ emitted s (code r e (length s.chunk)) (fails e)
compile_expression-code r e s = (expression-Emits r e).at_state s
