-- ===== src/Resolve/Table.antt =====
-- The side table of src/resolve.h: symbols, bindings, functions, labels and gotos, and the lookups
-- of src/resolve.c that the later passes use. A negative index is none.
use holy_d.Prelude.{
  ℕ, ◌+◌, Bool, ◌&&◌, Option, some, none, List, [], ◌∷◌, ◌==◌, if◌then◌else◌, get_elem?,
}
use holy_d.Prelude.Int.{ℤ}
use holy_d.Syntax.{Name, NodeId}

-- HDSymbolStorage, with the function that a local belongs to.
pub data Storage : Type 0 where
  global_storage external_storage : Storage
  local_storage : ℕ → Storage

-- HDSymbolFlags, one field for each bit.
pub record Flags : Type 0 where
  pub is_parameter : Bool
  pub is_foreach_value : Bool
  pub is_foreach_index : Bool
  pub is_implicit : Bool

-- What declares a symbol: a node, or a parameter by its function's index and its position.
pub data Declaration : Type 0 where
  declared_at : NodeId → Declaration
  declared_parameter : ℕ → ℕ → Declaration

pub record Symbol : Type 0 where
  pub id : ℕ
  pub slot : Option ℕ
  pub storage : Storage
  pub flags : Flags
  pub name : Name
  pub declaration : Option Declaration
  pub fallback : Option ℕ

pub data BindingRole : Type 0 where
  declaration_role read_role write_role foreach_value_role foreach_index_role : BindingRole

pub record Binding : Type 0 where
  pub node : NodeId
  pub role : BindingRole
  pub symbol_id : ℕ

pub record ResolvedFunction : Type 0 where
  pub declaration : NodeId
  pub frame_slot_count : ℕ
  -- -1 for a parameter with no name.
  pub parameter_slots : List ℤ

pub record Label : Type 0 where
  pub node : NodeId
  pub enclosing_foreach : Option NodeId
  pub scope : Option ℕ
  pub name : Name

pub record GotoTarget : Type 0 where
  pub node : NodeId
  pub label_index : ℕ

pub record Resolution : Type 0 where
  pub symbols : List Symbol
  pub bindings : List Binding
  pub functions : List ResolvedFunction
  pub labels : List Label
  pub gotos : List GotoTarget
  pub global_slot_count : ℕ
  pub had_error : Bool

-- The number of a role in its declaration, as the C enumeration has it.
abbrev pub role_code : BindingRole → ℕ
role_code declaration_role = 0
role_code read_role = 1
role_code write_role = 2
role_code foreach_value_role = 3
role_code foreach_index_role = 4

-- HDResolutionSymbol
abbrev pub resolution_symbol : Resolution → ℕ → Option Symbol
resolution_symbol r id = get_elem? r.symbols id

abbrev same_binding : Binding → NodeId → BindingRole → Bool
same_binding b node role = b.node == node && role_code b.role == role_code role

find_binding : List Binding → NodeId → BindingRole → Option Binding
find_binding [] node role = none
find_binding (b ∷ rest) node role =
    if same_binding b node role then some b else find_binding rest node role

-- HDResolutionBinding as the scan that it falls back to; the index in front of the scan keeps the
-- first binding of a node in a role, too.
unfoldable pub resolution_binding : Resolution → NodeId → BindingRole → Option Binding
unfolding find_binding
resolution_binding r node role = find_binding r.bindings node role

index_of_function : ℕ → List ResolvedFunction → NodeId → Option ℕ
index_of_function i [] node = none
index_of_function i (f ∷ rest) node =
    if f.declaration == node then some i else index_of_function (i + 1) rest node

-- HDResolutionFunctionIndex
unfoldable pub resolution_function_index : Resolution → NodeId → Option ℕ
unfolding index_of_function
resolution_function_index r node = index_of_function 0 r.functions node

index_of_label : ℕ → List Label → NodeId → Option ℕ
index_of_label i [] node = none
index_of_label i (l ∷ rest) node =
    if l.node == node then some i else index_of_label (i + 1) rest node

-- HDResolutionLabelIndex
unfoldable pub resolution_label_index : Resolution → NodeId → Option ℕ
unfolding index_of_label
resolution_label_index r node = index_of_label 0 r.labels node

label_of_goto : List GotoTarget → NodeId → Option ℕ
label_of_goto [] node = none
label_of_goto (g ∷ rest) node =
    if g.node == node then some g.label_index else label_of_goto rest node

-- HDResolutionGotoLabel
unfoldable pub resolution_goto_label : Resolution → NodeId → Option ℕ
unfolding label_of_goto
resolution_goto_label r node = label_of_goto r.gotos node
