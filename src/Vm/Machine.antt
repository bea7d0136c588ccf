-- ===== src/Vm/Machine.antt =====
-- One activation of run_chunk in src/compiler.c and what it shares with the others: the operand
-- stack, the frames, the environment and the store.
use holy_d.Prelude.{
  ℕ, zero, suc, Bool, Option, some, none, List, [], ◌∷◌, ltb, if◌then◌else◌, length, get_elem?, set,
}
use holy_d.Prelude.Int.{ℤ, pos, negsuc}
use holy_d.Outcome.{ok, fail}
use holy_d.Syntax.{Name}
use holy_d.Runtime.Value.{
  Value, Store, Run, lift, stack_underflow, stack_overflow, no_slot, undefined_variable,
}
use holy_d.Environment.{Scope, Environment, env_get, env_set}

-- HDFrame: the slots, each with its value once it is active.
abbrev pub Frame : Type 0
Frame = List (Option Value)

-- What outlives an activation: the global environment, the global frame and the store.
pub record World : Type 0 where
  pub globals : Environment
  pub global_frame : Frame
  pub store : Store

-- The stack with its top first. At the top level there is no scope and no frame of its own: the
-- environment and the frame are the global ones.
pub record Machine : Type 0 where
  pub stack : List Value
  pub ip : ℕ
  pub scope : Option Scope
  pub frame : Option Frame
  pub world : World

abbrev pub stack_limit : ℕ
stack_limit = 256

-- push_value
unfoldable pub push_value : Value → Machine → Run Machine
push_value v m =
    if ltb (length m.stack) stack_limit
    then ok (record m { stack = v ∷ m.stack })
    else lift m.world.store (fail stack_overflow)

-- pop_value
unfoldable pub pop_value : Machine → Run (Value × Machine)
pop_value m = elim m.stack [
  | [] ↦ lift m.world.store (fail stack_underflow)
  | v ∷ rest ↦ ok (v, record m { stack = rest })
]

-- The values from `sp - n` up, lowest first, and the stack below them; none if there are too few.
unfoldable pub pop_args : ℕ → List Value → List Value → Option (List Value × List Value)
pop_args zero acc stack = some (acc, stack)
pop_args (suc n) acc [] = none
pop_args (suc n) acc (v ∷ stack) = pop_args n (v ∷ acc) stack

abbrev pub environment : Machine → Environment
environment m = elim m.scope [ none ↦ m.world.globals | some s ↦ s ∷ m.world.globals ]

-- Put a changed environment back where it came from.
abbrev pub with_environment : Environment → Machine → Machine
with_environment env m = elim m.scope [
  | none ↦ record m { world = record m.world { globals = env } }
  | some _ ↦ elim env [
    | [] ↦ m
    | s ∷ globals ↦ record m { scope = some s; world = record m.world { globals = globals } }
  ]
]

-- The frame that a local instruction uses; a global one uses the global frame.
abbrev pub own_frame : Bool → Machine → Frame
own_frame is_local m =
    if is_local
    then elim m.frame [ none ↦ m.world.global_frame | some f ↦ f ]
    else m.world.global_frame

abbrev pub with_global_frame : Frame → Machine → Machine
with_global_frame f m = record m { world = record m.world { global_frame = f } }

abbrev pub with_own_frame : Bool → Frame → Machine → Machine
with_own_frame is_local f m =
    if is_local
    then elim m.frame [ none ↦ with_global_frame f m | some _ ↦ record m { frame = some f } ]
    else with_global_frame f m

-- frame_active, with the value of the slot.
abbrev pub active_value : Frame → ℤ → Option Value
active_value f (pos n) = elim (get_elem? f n) [ none ↦ none | some v ↦ v ]
active_value f (negsuc n) = none

-- frame_holds, with the index of the slot.
abbrev pub held_slot : Frame → ℤ → Option ℕ
held_slot f (pos n) = if ltb n (length f) then some n else none
held_slot f (negsuc n) = none

-- The value of a name: its own slot, then the global slot, then the environment.
unfoldable pub read_name : Bool → Name → ℤ → ℤ → Machine → Run Value
read_name is_local name operand fallback m = elim (active_value (own_frame is_local m) operand) [
  | some v ↦ ok v
  | none ↦ elim (active_value m.world.global_frame fallback) [
    | some v ↦ ok v
    | none ↦ elim (env_get (environment m) name) [
      | some v ↦ ok v
      | none ↦ lift m.world.store (fail (undefined_variable name))
    ]
  ]
]

unfoldable pub define_name : Bool → Name → ℤ → Value → Machine → Run Machine
define_name is_local name operand v m = elim (held_slot (own_frame is_local m) operand) [
  | none ↦ lift m.world.store (fail (no_slot name))
  | some n ↦ ok (with_own_frame is_local (set (own_frame is_local m) n (some v)) m)
]

-- The write to a slot that is active: its index is a number.
abbrev pub write_slot : Frame → ℤ → Value → Frame
write_slot f (pos n) v = set f n (some v)
write_slot f (negsuc n) v = f

unfoldable pub store_name : Bool → Name → ℤ → ℤ → Value → Machine → Run Machine
unfolding define_name
store_name is_local name operand fallback v m = elim (active_value (own_frame is_local m) operand) [
  | some _ ↦ ok (with_own_frame is_local (write_slot (own_frame is_local m) operand v) m)
  | none ↦ elim (active_value m.world.global_frame fallback) [
    | some _ ↦ ok (with_global_frame (write_slot m.world.global_frame fallback v) m)
    | none ↦ elim (env_get (environment m) name) [
      | some _ ↦ ok (with_environment (env_set (environment m) name v) m)
      | none ↦ define_name is_local name operand v m
    ]
  ]
]
