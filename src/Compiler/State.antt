-- ===== src/Compiler/State.antt =====
-- The state of the bytecode compiler in src/compiler.c, and the emission and patching of
-- instructions. The chunk being compiled is a field of the state.
use holy_d.Prelude.{
  ℕ, Bool, true, Option, some, none, List, [], ◌∷◌, ◌++◌, ◌==◌, if◌then◌else◌, length, get_elem?,
  set,
}
use holy_d.Prelude.Int.{ℤ, pos, negsuc}
use holy_d.Syntax.{Name, NodeId}
use holy_d.Vm.Bytecode.{Opcode, Instruction, Chunk, make_ins, text_ins}
use holy_d.Resolve.Table.{
  Resolution, Symbol, global_storage, external_storage, local_storage, BindingRole,
  resolution_symbol, resolution_binding,
}

-- LoopScope: the jumps that wait for the loop's exit and for its next round.
pub record LoopScope : Type 0 where
  pub break_jumps : List ℕ
  pub continue_jumps : List ℕ

-- Labels and pending gotos are pairs of a label's index and an instruction's. The innermost loop
-- comes first.
pub record State : Type 0 where
  pub chunk : Chunk
  pub labels : List (ℕ × ℕ)
  pub pending_gotos : List (ℕ × ℕ)
  pub loops : List LoopScope
  pub temp_counter : ℕ
  pub had_error : Bool

-- Where the next instruction lands: chunk->count.
abbrev pub here : State → ℕ
here s = length s.chunk

-- emit
abbrev pub emit : Instruction → State → State
emit ins s = record s { chunk = s.chunk ++ ins ∷ [] }

abbrev pub with_operand : ℤ → Instruction → Instruction
with_operand target ins = record ins { operand = target }

abbrev pub set_operand : Chunk → ℕ → ℤ → Chunk
set_operand chunk at target = elim (get_elem? chunk at) [
  | none ↦ chunk
  | some ins ↦ set chunk at (with_operand target ins)
]

-- patch_jump: the jump lands where the chunk has reached. One outside the chunk is left alone.
abbrev pub patch_jump : ℕ → State → State
patch_jump at s = record s { chunk = set_operand s.chunk at (pos (length s.chunk)) }

-- compile_error
abbrev pub compile_error : State → State
compile_error s = record s { had_error = true }

-- symbol_for
abbrev pub symbol_for : Resolution → NodeId → BindingRole → Option Symbol
symbol_for r node role = elim (resolution_binding r node role) [
  | none ↦ none
  | some b ↦ resolution_symbol r b.symbol_id
]

-- A slot as the int that an operand holds; -1 for none.
abbrev pub slot_code : Option ℕ → ℤ
slot_code none = negsuc 0
slot_code (some n) = pos n

abbrev global_slot : Symbol → ℤ
global_slot symbol = elim symbol.storage [ global_storage ↦ slot_code symbol.slot | _ ↦ negsuc 0 ]

-- fallback_slot
abbrev pub fallback_slot : Resolution → Symbol → ℤ
fallback_slot r symbol = elim symbol.fallback [
  | none ↦ negsuc 0
  | some id ↦ elim (resolution_symbol r id) [ none ↦ negsuc 0 | some f ↦ global_slot f ]
]

abbrev slot_ins : Resolution → Opcode → Name → Symbol → Instruction
slot_ins r op name symbol = record (make_ins op) {
  text = name;
  operand = slot_code symbol.slot;
  fallback = fallback_slot r symbol;
}

-- emit_variable: the instruction that it emits for a name.
unfoldable pub variable_ins :
    Resolution → Option Symbol → Opcode → Opcode → Opcode → Name → Instruction
variable_ins r none local_op global_op name_op name = text_ins name_op name
variable_ins r (some symbol) local_op global_op name_op name = elim symbol.storage [
  | external_storage ↦ text_ins name_op name
  | local_storage _ ↦ slot_ins r local_op name symbol
  | global_storage ↦ slot_ins r global_op name symbol
]

-- push_loop and pop_loop
abbrev pub push_loop : State → State
push_loop s = record s { loops = record { break_jumps = []; continue_jumps = [] } ∷ s.loops }

abbrev pub pop_loop : State → State
pop_loop s = record s { loops = elim s.loops [ [] ↦ [] | _ ∷ rest ↦ rest ] }

abbrev pub patch_jumps : List ℕ → State → State
patch_jumps [] s = s
patch_jumps (at ∷ rest) s = patch_jumps rest (patch_jump at s)

abbrev pub patch_loop_continues : State → State
patch_loop_continues s = elim s.loops [ [] ↦ s | loop ∷ _ ↦ patch_jumps loop.continue_jumps s ]

abbrev pub patch_loop_breaks : State → State
patch_loop_breaks s = elim s.loops [ [] ↦ s | loop ∷ _ ↦ patch_jumps loop.break_jumps s ]

-- declare_label, find_label_ip and add_pending_goto
abbrev pub declare_label : ℕ → State → State
declare_label label s = record s { labels = s.labels ++ (label, here s) ∷ [] }

abbrev pub find_label_ip : List (ℕ × ℕ) → ℕ → Option ℕ
find_label_ip [] label = none
find_label_ip ((l, ip) ∷ rest) label = if l == label then some ip else find_label_ip rest label

abbrev pub add_pending_goto : ℕ → ℕ → State → State
add_pending_goto label at s = record s { pending_gotos = s.pending_gotos ++ (label, at) ∷ [] }

patch_pending : List (ℕ × ℕ) → State → State
patch_pending [] s = s
patch_pending ((label, at) ∷ rest) s = patch_pending rest (elim (find_label_ip s.labels label) [
  | none ↦ compile_error s
  | some ip ↦ record s { chunk = set_operand s.chunk at (pos ip) }
])

-- resolve_and_free_label_scope
unfoldable pub resolve_label_scope : State → State
unfolding patch_pending
resolve_label_scope s = record (patch_pending s.pending_gotos s) { labels = []; pending_gotos = [] }
