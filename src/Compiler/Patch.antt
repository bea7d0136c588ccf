-- ===== src/Compiler/Patch.antt =====
-- patch_jump of src/compiler.c on the chunks that compile_logical and the conditional expression
-- build: each fills in the address that the chunk has reached, and moves nothing.
use holy_d.Prelude.{
  ℕ, ◌+◌, ◌≡◌, refl, ap, ◌∙◌, [], ◌∷◌, ◌++◌, length, length-append, append_assoc, set-append_at,
  get_elem?-append_at, arith,
}
use holy_d.Prelude.Int.{ℤ, pos}
use holy_d.Vm.Bytecode.{Chunk, Instruction, flow_jump, flow_jump_if_false, int_ins, jump_ins}
use holy_d.Compiler.State.{with_operand, set_operand}
use holy_d.Compiler.Code.{jump}

set_operand-append :
    (xs ys : Chunk) (ins : Instruction) (t : ℤ)
    → set_operand (xs ++ ins ∷ ys) (length xs) t ≡ xs ++ with_operand t ins ∷ ys
set_operand-append xs ys ins t =
    rw (get_elem?-append_at xs ins ys, set_operand) (set-append_at xs ins (with_operand t ins) ys)

-- patch_jump on the chunk alone.
abbrev pub patch : Chunk → ℕ → Chunk
patch c at = set_operand c at (pos (length c))

patch-at :
    (c : Chunk) (at : ℕ) (xs ys : Chunk) (ins : Instruction) (n : ℕ)
    → c ≡ xs ++ ins ∷ ys
    → at ≡ length xs
    → n ≡ length c
    → patch c at ≡ xs ++ with_operand (pos n) ins ∷ ys
patch-at c at xs ys ins n e g h = rw (g, ← h, e) (set_operand-append xs ys ins (pos n))

abbrev pub jf : Instruction
jf = jump_ins flow_jump_if_false

abbrev pub jm : Instruction
jm = jump_ins flow_jump

abbrev pub bit : ℕ → Instruction
bit n = int_ins (pos n)

-- The end of the code of both logical operators, `q` being the address behind the right operand.
abbrev pub logical_tail : ℕ → Chunk
logical_tail q = jump flow_jump_if_false (q + 3) ∷ bit 1 ∷ jump flow_jump (q + 4) ∷ bit 0 ∷ []

-- The three patches of `&&`: `xs` is the chunk up to the first jump, `b` the right operand's code.
module _ (xs b : Chunk) where
  abbrev pub and_unpatched : Chunk
  and_unpatched = ((((xs ++ jf ∷ []) ++ b) ++ jf ∷ []) ++ bit 1 ∷ []) ++ jm ∷ []

  abbrev pub and_right : ℕ
  and_right = length ((xs ++ jf ∷ []) ++ b)

  abbrev pub and_done : ℕ
  and_done = length ((((xs ++ jf ∷ []) ++ b) ++ jf ∷ []) ++ bit 1 ∷ [])

  pub and_patches :
      (q : ℕ)
      → q ≡ length xs + 1 + length b
      → patch (patch (patch and_unpatched (length xs)) and_right ++ bit 0 ∷ []) and_done
        ≡ xs ++ jump flow_jump_if_false (q + 3) ∷ (b ++ logical_tail q)
  and_patches q h =
      let first = jump flow_jump_if_false (q + 3) in
      ap (λ c. patch (patch c and_right ++ bit 0 ∷ []) and_done)
        (patch-at and_unpatched (length xs) xs (b ++ jf ∷ bit 1 ∷ jm ∷ []) jf (q + 3)
          (simp append_assoc) refl (omega (arith, length-append {0})))
      ∙ ap (λ c. patch (c ++ bit 0 ∷ []) and_done)
          (patch-at (xs ++ first ∷ (b ++ jf ∷ bit 1 ∷ jm ∷ [])) and_right (xs ++ first ∷ b)
            (bit 1 ∷ jm ∷ []) jf (q + 3) (simp append_assoc) (omega (arith, length-append {0}))
            (omega (arith, length-append {0})))
      ∙ patch-at (((xs ++ first ∷ b) ++ first ∷ bit 1 ∷ jm ∷ []) ++ bit 0 ∷ []) and_done
          (xs ++ first ∷ (b ++ first ∷ bit 1 ∷ [])) (bit 0 ∷ []) jm (q + 4) (simp append_assoc)
          (omega (arith, length-append {0})) (omega (arith, length-append {0}))
      ∙ simp append_assoc

-- The four patches of `||`: `xs` ends with the left operand's code, `b` is the right one's.
module _ (xs b : Chunk) where
  abbrev pub or_prefix : Chunk
  or_prefix = ((xs ++ jf ∷ []) ++ bit 1 ∷ []) ++ jm ∷ []

  abbrev pub or_done : ℕ
  or_done = length ((xs ++ jf ∷ []) ++ bit 1 ∷ [])

  pub or_first_patch :
      patch or_prefix (length xs) ≡ xs ++ jump flow_jump_if_false (length xs + 3) ∷ bit 1 ∷ jm ∷ []
  or_first_patch =
      patch-at or_prefix (length xs) xs (bit 1 ∷ jm ∷ []) jf (length xs + 3) (simp append_assoc)
        refl (omega (arith, length-append {0}))

  abbrev pub or_middle : Chunk
  or_middle =
      ((((xs ++ jump flow_jump_if_false (length xs + 3) ∷ bit 1 ∷ jm ∷ []) ++ b) ++ jf ∷ [])
        ++ bit 1 ∷ [])
      ++ jm ∷ []

  pub or_patches :
      (right done q : ℕ)
      → q ≡ length xs + 3 + length b
      → right ≡ q
      → done ≡ q + 2
      → patch (patch (patch or_middle right ++ bit 0 ∷ []) or_done) done
        ≡ xs
          ++ jump flow_jump_if_false (length xs + 3)
            ∷ bit 1
            ∷ jump flow_jump (q + 4)
            ∷ (b ++ logical_tail q)
  or_patches right done q h hr hd =
      let first = jump flow_jump_if_false (length xs + 3) in
      let last = jump flow_jump_if_false (q + 3) in
      let over = jump flow_jump (q + 4) in
      ap (λ c. patch (patch (c ++ bit 0 ∷ []) or_done) done)
        (patch-at or_middle right (xs ++ first ∷ bit 1 ∷ jm ∷ b) (bit 1 ∷ jm ∷ []) jf (q + 3)
          (simp append_assoc) (omega (arith, length-append {0})) (omega (arith, length-append {0})))
      ∙ ap (λ c. patch c done)
          (patch-at (((xs ++ first ∷ bit 1 ∷ jm ∷ b) ++ last ∷ bit 1 ∷ jm ∷ []) ++ bit 0 ∷ [])
            or_done (xs ++ first ∷ bit 1 ∷ []) (b ++ last ∷ bit 1 ∷ jm ∷ bit 0 ∷ []) jm (q + 4)
            (simp append_assoc) (omega (arith, length-append {0}))
            (omega (arith, length-append {0})))
      ∙ patch-at ((xs ++ first ∷ bit 1 ∷ []) ++ over ∷ (b ++ last ∷ bit 1 ∷ jm ∷ bit 0 ∷ [])) done
          (xs ++ first ∷ bit 1 ∷ over ∷ (b ++ last ∷ bit 1 ∷ [])) (bit 0 ∷ []) jm (q + 4)
          (simp append_assoc) (omega (arith, length-append {0})) (omega (arith, length-append {0}))
      ∙ simp append_assoc

-- The two patches of a conditional expression, whose cases have the codes `b` and `c`.
module _ (xs b c : Chunk) where
  abbrev pub ternary_prefix : Chunk
  ternary_prefix = ((xs ++ jf ∷ []) ++ b) ++ jm ∷ []

  pub ternary_first_patch :
      (q : ℕ)
      → q ≡ length xs + 1 + length b
      → patch ternary_prefix (length xs) ≡ xs ++ jump flow_jump_if_false (q + 1) ∷ (b ++ jm ∷ [])
  ternary_first_patch q h =
      patch-at ternary_prefix (length xs) xs (b ++ jm ∷ []) jf (q + 1) (simp append_assoc) refl
        (omega (arith, length-append {0}))

  pub ternary_last_patch :
      (q end : ℕ)
      → q ≡ length xs + 1 + length b
      → end ≡ q
      → patch ((xs ++ jump flow_jump_if_false (q + 1) ∷ (b ++ jm ∷ [])) ++ c) end
        ≡ xs ++ jump flow_jump_if_false (q + 1) ∷ (b ++ jump flow_jump (q + 1 + length c) ∷ c)
  ternary_last_patch q end h he =
      patch-at ((xs ++ jump flow_jump_if_false (q + 1) ∷ (b ++ jm ∷ [])) ++ c) end
        (xs ++ jump flow_jump_if_false (q + 1) ∷ b) c jm (q + 1 + length c) (simp append_assoc)
        (omega (arith, length-append {0})) (omega (arith, length-append {0}))
      ∙ simp append_assoc
