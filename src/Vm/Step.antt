-- ===== src/Vm/Step.antt =====
-- run_chunk of src/compiler.c: call_function, the dispatch over the opcodes, and the loop.
use holy_d.Prelude.{
  ℕ, zero, suc, ◌+◌, ◌*◌, Bool, true, false, ◌||◌, ◌&&◌, Option, some, none, List, [], ◌∷◌, ltb,
  ◌==◌, if◌then◌else◌, length, get_elem?, set, replicate, same_bytes,
}
use holy_d.Prelude.Int.{ℤ, pos, negsuc}
use Prim.Native.String.{String}
use holy_d.Prelude.Text.{bytes}
use holy_d.Outcome.{ok, fail, undefined, exhausted, ◌>>=◌}
use holy_d.Syntax.{Name}
use holy_d.Runtime.Value.{
  Host, Value, int, float, string, Store, Run, lift, print_underflow, native_underflow,
  call_underflow, array_underflow, cast_target, unknown_function, bad_arity, out_of_memory,
  CastKind, cast_int, cast_float, cast_bool, truthy, not_value,
}
use holy_d.Runtime.Array.{value_size, counted, index, index_set, length_of, array_new, binary, cast}
use holy_d.Runtime.Print.{print_n}
use holy_d.Environment.{env_get, env_set, env_define}
use holy_d.Vm.Bytecode.{
  Opcode, stack_push_int, stack_push_float, stack_push_string, variable_load, variable_define,
  variable_store, local_load, local_define, local_store, global_load, global_define, global_store,
  logic_not, cast_op, array_create, array_length, array_get, array_set, flow_jump,
  flow_jump_if_false, function_call, function_return, stack_pop, Instruction, Chunk, Function,
  binop_for,
}
use holy_d.Vm.Machine.{
  World, Machine, Frame, stack_limit, push_value, pop_value, pop_args, environment,
  with_environment, read_name, define_name, store_name, held_slot,
}

-- A native function of src/ffi.c: its arguments and the store to its value and the new store.
abbrev pub Native : Type 0
Native = List Value → Store → Run (Value × Store)

-- What an instruction leads to: the next one, or the end of the activation with its value.
pub data Next : Type 0 where
  going : Machine → Next
  finished : Value → World → Next

-- is_print_builtin: whether a newline follows, for a name that prints.
unfoldable pub print_builtin : Name → Option Bool
print_builtin name =
    if is "Print" || is "print" || is "write"
    then some false
    else if is "PrintLn" || is "println" || is "writeln"
    then some true
    else none
  where
    is : String → Bool
    is s = same_bytes name (bytes s)

unfoldable pub find_function : List Function → Name → Option Function
find_function [] name = none
find_function (fn ∷ rest) name =
    if same_bytes fn.name name then some fn else find_function rest name

-- The loop that binds the parameters: each value goes to its slot, where the frame has it.
unfoldable pub bind_params : List ℤ → List Value → Frame → Frame
bind_params (slot ∷ slots) (v ∷ vs) f =
    bind_params slots vs (elim (held_slot f slot) [ none ↦ f | some n ↦ set f n (some v) ])
bind_params _ _ f = f

-- 0, 1, … for a function with no recorded slots.
abbrev pub slots_from : ℕ → ℕ → List ℤ
slots_from i zero = []
slots_from i (suc n) = pos i ∷ slots_from (suc i) n

abbrev pub slots_of : Function → List ℤ
slots_of fn = elim fn.param_slots [ none ↦ slots_from 0 fn.param_count | some slots ↦ slots ]

-- `stack[(*sp)++] = result` has no test: past the last element the write is undefined.
abbrev pub push_unchecked : Value → Machine → Run Machine
push_unchecked v m =
    if ltb (length m.stack) stack_limit then ok (record m { stack = v ∷ m.stack }) else undefined

-- An operand that counts values.
abbrev pub count_of : ℤ → Run ℕ
count_of (pos n) = ok n
count_of (negsuc n) = undefined

abbrev pub with_store : Store → Machine → Machine
with_store s m = record m { world = record m.world { store = s } }

-- The instruction pointer after a jump; a jump to a negative address reads before the chunk.
abbrev pub jump_to : ℤ → Machine → Run Machine
jump_to (pos n) m = ok (record m { ip = n })
jump_to (negsuc n) m = undefined

-- HD_FRAME_INLINE
abbrev frame_inline : ℕ
frame_inline = 32

abbrev cast_kind_at : ℤ → Option CastKind
cast_kind_at (pos n) =
    if n == 0
    then some cast_int
    else if n == 1
    then some cast_float
    else if n == 2
    then some cast_bool
    else none
cast_kind_at (negsuc n) = none

module _ ⦃host : Host⦄ (natives : Name → Option Native) (functions : List Function) where
  -- The store after the frame of a call is allocated: a large one takes two blocks from the heap.
  abbrev pub allocate_frame : ℕ → Store → Run Store
  allocate_frame count s =
      if ltb frame_inline count
      then (if host.malloc s.mallocs (value_size * count) && host.malloc (s.mallocs + 1) count
          then ok (counted (counted s))
          else lift s (fail out_of_memory))
      else ok s

  -- The call of a function of the program, once it is found, has its arguments and a frame.
  unfoldable pub call_program :
      (Chunk → Machine → Run (Value × World)) → Function → List Value → Machine → Run Machine
  unfolding bind_params
  call_program run fn args m = do
    s ← allocate_frame fn.frame_slot_count m.world.store
    (result, world) ← run fn.chunk (record {
      stack = [];
      ip = 0;
      scope = some [];
      frame = some (bind_params (slots_of fn) args (replicate fn.frame_slot_count none));
      world = record m.world { store = s };
    })
    push_unchecked result (record m { world = world })

  -- call_function; `run` runs the chunk of a function and `depth` bounds how deep printing recurses.
  unfoldable pub call_function :
      (Chunk → Machine → Run (Value × World)) → ℕ → Name → ℕ → Machine → Run Machine
  unfolding print_builtin find_function call_program pop_args print_n
  call_function run depth name argc m = elim (print_builtin name) [
    | some add_newline ↦ elim (pop_args argc [] m.stack) [
      | none ↦ lift m.world.store (fail print_underflow)
      | some (args, rest) ↦ (do
        (v, s) ← print_n depth args add_newline m.world.store
        push_unchecked v (with_store s (record m { stack = rest })))
    ]
    | none ↦ elim (natives name) [
      | some native ↦ elim (pop_args argc [] m.stack) [
        | none ↦ lift m.world.store (fail native_underflow)
        | some (args, rest) ↦ (do
          (v, s) ← native args m.world.store
          push_unchecked v (with_store s (record m { stack = rest })))
      ]
      | none ↦ elim (find_function functions name) [
        | none ↦ lift m.world.store (fail (unknown_function name))
        | some fn ↦
            if fn.param_count == argc
            then elim (pop_args argc [] m.stack) [
              | none ↦ lift m.world.store (fail call_underflow)
              | some (args, rest) ↦ call_program run fn args (record m { stack = rest })
            ]
            else lift m.world.store (fail (bad_arity name))
      ]
    ]
  ]

  abbrev next : Run Machine → Run Next
  next r = do m ← r; ok (going m)

  -- The two operands of a binary instruction, and the machine below them.
  abbrev pop_two : Machine → Run (Value × Value × Machine)
  pop_two m = do (right, m) ← pop_value m; (left, m) ← pop_value m; ok (left, right, m)

  abbrev pop_jump : ℤ → Value → Machine → Run Machine
  pop_jump target v m = if truthy v then ok m else jump_to target m

  abbrev do_binary : Opcode → Machine → Run Machine
  do_binary op m = do
    (left, right, m) ← pop_two m
    (v, s) ← binary (binop_for op) left right m.world.store
    push_value v (with_store s m)

  abbrev do_cast : ℤ → Machine → Run Machine
  do_cast kind m = do
    (v, m) ← pop_value m
    w ← elim (cast_kind_at kind) [
      | none ↦ lift m.world.store (fail cast_target)
      | some k ↦ lift m.world.store (cast k v)
    ]
    push_value w m

  abbrev do_create : ℤ → Machine → Run Machine
  do_create operand m = do
    n ← count_of operand
    elim (pop_args n [] m.stack) [
      | none ↦ lift m.world.store (fail array_underflow)
      | some (vs, rest) ↦ (do
        (v, s) ← array_new vs m.world.store
        push_value v (with_store s (record m { stack = rest })))
    ]

  abbrev do_load : Bool → Instruction → Machine → Run Machine
  do_load is_local ins m = do
    v ← read_name is_local ins.text ins.operand ins.fallback m
    push_value v m

  abbrev do_define : Bool → Instruction → Machine → Run Machine
  do_define is_local ins m = do (v, m) ← pop_value m; define_name is_local ins.text ins.operand v m

  abbrev do_store : Bool → Instruction → Machine → Run Machine
  do_store is_local ins m = do
    (v, m) ← pop_value m
    store_name is_local ins.text ins.operand ins.fallback v m

  -- `sp > 0 ? stack[--sp] : int 0`
  abbrev do_return : Machine → Run Next
  do_return m = elim m.stack [
    | [] ↦ ok (finished (int (pos 0)) m.world)
    | v ∷ _ ↦ ok (finished v m.world)
  ]

  -- The switch of run_chunk; the instruction pointer is past the instruction already.
  unfoldable pub step :
      (Chunk → Machine → Run (Value × World)) → ℕ → Opcode → Instruction → Machine → Run Next
  unfolding call_function push_value pop_value pop_args read_name define_name store_name binop_for
      binary cast index index_set length_of array_new env_get env_set env_define
  step run depth stack_push_int ins m = next (push_value (int ins.i64) m)
  step run depth stack_push_float ins m = next (push_value (float ins.f64) m)
  step run depth stack_push_string ins m = next (push_value (string ins.text) m)
  -- A name with no slot: only the environment can have it.
  step run depth variable_load ins m =
      next (do v ← read_name false ins.text (negsuc 0) (negsuc 0) m; push_value v m)
  step run depth variable_define ins m =
      next
        (do (v, m) ← pop_value m; ok (with_environment (env_define (environment m) ins.text v) m))
  step run depth variable_store ins m =
      next (do (v, m) ← pop_value m; ok (with_environment (env_set (environment m) ins.text v) m))
  step run depth local_load ins m = next (do_load true ins m)
  step run depth global_load ins m = next (do_load false ins m)
  step run depth local_define ins m = next (do_define true ins m)
  step run depth global_define ins m = next (do_define false ins m)
  step run depth local_store ins m = next (do_store true ins m)
  step run depth global_store ins m = next (do_store false ins m)
  step run depth array_create ins m = next (do_create ins.operand m)
  step run depth array_length ins m =
      next (do (v, m) ← pop_value m; n ← lift m.world.store (length_of v); push_value n m)
  step run depth array_get ins m = next (do
    (left, right, m) ← pop_two m
    v ← lift m.world.store (index m.world.store left right)
    push_value v m)
  step run depth array_set ins m = next (do
    (v, m) ← pop_value m
    (left, right, m) ← pop_two m
    s ← lift m.world.store (index_set left right v m.world.store)
    ok (with_store s m))
  step run depth logic_not ins m = next (do (v, m) ← pop_value m; push_value (not_value v) m)
  step run depth cast_op ins m = next (do_cast ins.operand m)
  step run depth flow_jump ins m = next (jump_to ins.operand m)
  step run depth flow_jump_if_false ins m = next (do (v, m) ← pop_value m; pop_jump ins.operand v m)
  step run depth function_call ins m =
      next (do argc ← count_of ins.operand; call_function run depth ins.text argc m)
  step run depth stack_pop ins m = next (do (v, m) ← pop_value m; ok m)
  step run depth function_return ins m = do_return m
  step run depth op ins m = next (do_binary op m)

  -- One round of the loop. Past the last instruction the value is int 0.
  unfoldable pub round : (Chunk → Machine → Run (Value × World)) → ℕ → Chunk → Machine → Run Next
  unfolding step
  round run depth chunk m = elim (get_elem? chunk m.ip) [
    | none ↦ ok (finished (int (pos 0)) m.world)
    | some ins ↦ step run depth ins.op ins (record m { ip = m.ip + 1 })
  ]

  -- The loop of run_chunk over its rounds.
  abbrev pub run_rounds : ℕ → (Machine → Run Next) → Machine → Run (Value × World)
  run_rounds zero body m = exhausted
  run_rounds (suc n) body m = elim (body m) [
    | ok (going m') ↦ run_rounds n body m'
    | ok (finished v w) ↦ ok (v, w)
    | fail e ↦ fail e
    | undefined ↦ undefined
    | exhausted ↦ exhausted
  ]

  -- run_chunk. `rounds` bounds the rounds of each activation; the second number bounds how deep
  -- calls and printing nest.
  unfoldable pub run_chunk : ℕ → ℕ → Chunk → Machine → Run (Value × World)
  unfolding round
  run_chunk rounds zero chunk m = exhausted
  run_chunk rounds (suc depth) chunk m =
      run_rounds rounds (round (run_chunk rounds depth) depth chunk) m
