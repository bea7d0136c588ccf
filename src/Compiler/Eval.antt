-- ===== src/Compiler/Eval.antt =====
-- What an expression of the language means, evaluated directly on its tree: the description that the
-- code of compile_expression and run_chunk of src/compiler.c together are held to.
use holy_d.Prelude.{
  ℕ, Option, some, none, List, [], ◌∷◌, ◌==◌, if◌then◌else◌, length, get_elem?, replicate,
}
use holy_d.Prelude.Int.{pos}
use holy_d.Outcome.{ok, fail, undefined, ◌>>=◌}
use holy_d.Syntax.{
  Name, Node, Nodes, nil, cons, null, number, float, text, var_ref, binary_op, unary_op, cast_to,
  ternary_op, call, array_literal, index_expr, array_len_expr,
}
use holy_d.Syntax.Token.{
  TokenType, plus_tok, minus_tok, star_tok, slash_tok, eqeq_tok, neq_tok, lt_tok, gt_tok, lteq_tok,
  gteq_tok, tilde_tok, percent_tok, pow_tok, ampersand_tok, or_tok, xor_tok, shl_tok, shr_tok,
  ushr_tok,
}
use holy_d.Runtime.Value.{
  Host, Value, int, float, string, Store, Run, lift, BinOp, hd_add, hd_sub, hd_mul, hd_div, hd_mod,
  hd_pow, hd_eq, hd_ne, hd_lt, hd_gt, hd_le, hd_ge, hd_band, hd_bor, hd_bxor, hd_shl, hd_shr,
  hd_ushr, hd_concat, CastKind, cast_kind_of, truthy, of_bool, not_value, undefined_variable,
  unknown_function, bad_arity,
}
use holy_d.Runtime.Array.{index, length_of, array_new, binary, cast}
use holy_d.Runtime.Print.{print_n}
use holy_d.Environment.{Scope, env_get}
use holy_d.Resolve.Table.{
  Resolution, Symbol, resolution_symbol, global_storage, external_storage, local_storage, read_role,
}
use holy_d.Compiler.State.{symbol_for}
use holy_d.Compiler.Expression.{
  Logical, logical_and, logical_or, not_logical, logical_kind, Unary, negation, logical_not,
  other_unary, unary_kind,
}
use holy_d.Vm.Bytecode.{Chunk, Function}
use holy_d.Vm.Machine.{Frame, World, Machine}
use holy_d.Vm.Step.{Native, print_builtin, find_function, allocate_frame, bind_params, slots_of}

-- The operator of the runtime that a token stands for.
unfoldable pub operator_of : TokenType → Option BinOp
operator_of plus_tok = some hd_add
operator_of minus_tok = some hd_sub
operator_of star_tok = some hd_mul
operator_of slash_tok = some hd_div
operator_of eqeq_tok = some hd_eq
operator_of neq_tok = some hd_ne
operator_of lt_tok = some hd_lt
operator_of gt_tok = some hd_gt
operator_of lteq_tok = some hd_le
operator_of gteq_tok = some hd_ge
operator_of tilde_tok = some hd_concat
operator_of percent_tok = some hd_mod
operator_of pow_tok = some hd_pow
operator_of ampersand_tok = some hd_band
operator_of or_tok = some hd_bor
operator_of xor_tok = some hd_bxor
operator_of shl_tok = some hd_shl
operator_of shr_tok = some hd_shr
operator_of ushr_tok = some hd_ushr
operator_of _ = none

-- A computation in the scope and the frame of one activation.
abbrev pub Eval {ℓ} : Type ℓ → Type ℓ
Eval A = Option Scope → Option Frame → World → Run (A × World)

abbrev pub lifted : World → Run (Value × Store) → Run (Value × World)
lifted w r = do (v, s) ← r; ok (v, record w { store = s })

abbrev pub pure_lifted : World → Run Value → Run (Value × World)
pure_lifted w r = do v ← r; ok (v, w)

abbrev slot_value : Frame → Option ℕ → Option Value
slot_value f none = none
slot_value f (some n) = elim (get_elem? f n) [ none ↦ none | some v ↦ v ]

abbrev first_of : Option Value → Option Value → Option Value
first_of (some v) other = some v
first_of none other = other

-- The global variable that a local one hides.
abbrev hidden_value : Resolution → Symbol → World → Option Value
hidden_value r symbol w = elim symbol.fallback [
  | none ↦ none
  | some id ↦ elim (resolution_symbol r id) [
    | none ↦ none
    | some f ↦ elim f.storage [ global_storage ↦ slot_value w.global_frame f.slot | _ ↦ none ]
  ]
]

abbrev named_value : Name → Option Scope → World → Option Value
named_value name scope w = env_get (elim scope [ none ↦ w.globals | some s ↦ s ∷ w.globals ]) name

-- A local variable lives in the frame of the activation, a global one in the global frame; a slot
-- that nothing was stored in yet is passed over for the hidden variable and the environment.
unfoldable pub variable_value :
    Resolution → Option Symbol → Name → Option Scope → Option Frame → World → Option Value
variable_value r none name scope frame w = named_value name scope w
variable_value r (some symbol) name scope frame w = elim symbol.storage [
  | external_storage ↦ named_value name scope w
  | global_storage ↦
      first_of (slot_value w.global_frame symbol.slot)
        (first_of (hidden_value r symbol w) (named_value name scope w))
  | local_storage _ ↦
      first_of (slot_value (elim frame [ none ↦ w.global_frame | some f ↦ f ]) symbol.slot)
        (first_of (hidden_value r symbol w) (named_value name scope w))
]

abbrev pub eval_variable : Resolution → Option Symbol → Name → Eval Value
eval_variable r symbol name scope frame w = elim (variable_value r symbol name scope frame w) [
  | some v ↦ ok (v, w)
  | none ↦ lift w.store (fail (undefined_variable name))
]

module _ ⦃host : Host⦄ where
  abbrev pub eval_truth : Eval Value → Eval Value
  eval_truth a scope frame w = do (v, w) ← a scope frame w; ok (of_bool (truthy v), w)

  abbrev pub eval_and : Eval Value → Eval Value → Eval Value
  eval_and a b scope frame w = do
    (v, w) ← a scope frame w
    if truthy v then eval_truth b scope frame w else ok (int (pos 0), w)

  abbrev pub eval_or : Eval Value → Eval Value → Eval Value
  eval_or a b scope frame w = do
    (v, w) ← a scope frame w
    if truthy v then ok (int (pos 1), w) else eval_truth b scope frame w

  abbrev pub eval_ternary : Eval Value → Eval Value → Eval Value → Eval Value
  eval_ternary a b c scope frame w = do
    (v, w) ← a scope frame w
    if truthy v then b scope frame w else c scope frame w

  abbrev pub eval_then : Eval Value → (Value → World → Run (Value × World)) → Eval Value
  eval_then a f scope frame w = do (v, w) ← a scope frame w; f v w

  abbrev pub eval_both :
      Eval Value → Eval Value → (Value → Value → World → Run (Value × World)) → Eval Value
  eval_both a b f scope frame w = do (l, w) ← a scope frame w; (r, w) ← b scope frame w; f l r w

  abbrev pub apply_operator : Option BinOp → Value → Value → World → Run (Value × World)
  apply_operator none l r w = undefined
  apply_operator (some op) l r w = lifted w (binary op l r w.store)

  abbrev pub eval_binary : Logical → Option BinOp → Eval Value → Eval Value → Eval Value
  eval_binary logical_and op a b = eval_and a b
  eval_binary logical_or op a b = eval_or a b
  eval_binary not_logical op a b = eval_both a b (apply_operator op)

  abbrev pub eval_unary : Unary → Eval Value → Eval Value
  eval_unary negation a = eval_then a (λ v w. lifted w (binary hd_sub (int (pos 0)) v w.store))
  eval_unary logical_not a = eval_then a (λ v w. ok (not_value v, w))
  eval_unary other_unary a = λ scope frame w. undefined

  abbrev pub eval_cast : Option CastKind → Eval Value → Eval Value
  eval_cast none a = λ scope frame w. undefined
  eval_cast (some kind) a = eval_then a (λ v w. pure_lifted w (lift w.store (cast kind v)))

  abbrev pub eval_all : Eval (List Value) → (List Value → World → Run (Value × World)) → Eval Value
  eval_all items f scope frame w = do (vs, w) ← items scope frame w; f vs w

module _ ⦃host : Host⦄ (natives : Name → Option Native) (functions : List Function) where
  module _ (run : Chunk → Machine → Run (Value × World)) (depth : ℕ) where
    -- The call of a program's function: a frame of its own, a scope of its own, the world shared.
    abbrev pub invoke_function : Function → List Value → World → Run (Value × World)
    invoke_function fn args w = do
      s ← allocate_frame natives functions fn.frame_slot_count w.store
      run fn.chunk (record {
        stack = [];
        ip = 0;
        scope = some [];
        frame = some (bind_params (slots_of fn) args (replicate fn.frame_slot_count none));
        world = record w { store = s };
      })

    -- A name that prints comes first, then a native function, then one of the program.
    unfoldable pub invoke : Name → List Value → World → Run (Value × World)
    invoke name args w = elim (print_builtin name) [
      | some add_newline ↦ lifted w (print_n depth args add_newline w.store)
      | none ↦ elim (natives name) [
        | some native ↦ lifted w (native args w.store)
        | none ↦ elim (find_function functions name) [
          | none ↦ lift w.store (fail (unknown_function name))
          | some fn ↦
              if fn.param_count == length args
              then invoke_function fn args w
              else lift w.store (fail (bad_arity name))
        ]
      ]
    ]

    unfoldable mutual
      -- An expression that the compiler refuses has no meaning.
      pub eval : Resolution → Node → Eval Value
      eval r null scope frame w = ok (int (pos 0), w)
      eval r (number value _) scope frame w = ok (int value, w)
      eval r (float value) scope frame w = ok (float value, w)
      eval r (text value) scope frame w = ok (string value, w)
      eval r (var_ref node name) scope frame w =
          eval_variable r (symbol_for r node read_role) name scope frame w
      eval r (binary_op op left right) scope frame w =
          eval_binary (logical_kind op) (operator_of op) (eval r left) (eval r right) scope frame w
      eval r (unary_op op operand) scope frame w =
          eval_unary (unary_kind op) (eval r operand) scope frame w
      eval r (cast_to type operand) scope frame w =
          eval_cast (cast_kind_of type) (eval r operand) scope frame w
      eval r (ternary_op condition yes_case no_case) scope frame w =
          eval_ternary (eval r condition) (eval r yes_case) (eval r no_case) scope frame w
      eval r (index_expr target at) scope frame w =
          eval_both (eval r target) (eval r at)
            (λ t i w. pure_lifted w (lift w.store (index w.store t i))) scope frame w
      eval r (array_len_expr target) scope frame w =
          eval_then (eval r target) (λ t w. pure_lifted w (lift w.store (length_of t))) scope frame
            w
      eval r (array_literal items) scope frame w =
          eval_all (eval_items r items) (λ vs w. lifted w (array_new vs w.store)) scope frame w
      eval r (call name arguments) scope frame w =
          eval_all (eval_items r arguments) (invoke name) scope frame w
      eval r _ scope frame w = undefined

      -- From the left to the right.
      pub eval_items : Resolution → Nodes → Eval (List Value)
      eval_items r nil scope frame w = ok ([], w)
      eval_items r (cons e rest) scope frame w = do
        (v, w) ← eval r e scope frame w
        (vs, w) ← eval_items r rest scope frame w
        ok (v ∷ vs, w)
