-- ===== src/Resolve/Scopes.antt =====
-- Symbols and bindings of src/resolve.c: the operations that write the side table. A function that
-- the program calls with its resolver takes the scope, the function's index or none at the top.
use holy_d.Prelude.{
  ℕ, suc, Bool, true, false, ◌&&◌, ◌||◌, Option, some, none, List, [], ◌∷◌, ◌++◌, ◌==◌,
  if◌then◌else◌, same_bytes, get_elem?, set, length,
}
use holy_d.Syntax.{Name, NodeId}
use holy_d.Resolve.Table.{
  Declaration, Storage, global_storage, external_storage, local_storage, Flags, Symbol, BindingRole,
  Resolution,
}

-- Whether two symbols stand in the same place: `storage` and `function_index` agree.
unfoldable pub same_storage : Storage → Storage → Bool
same_storage global_storage global_storage = true
same_storage external_storage external_storage = true
same_storage (local_storage f) (local_storage g) = f == g
same_storage _ _ = false

unfoldable pub find_symbol : List Symbol → Name → Storage → Option ℕ
find_symbol [] name storage = none
find_symbol (s ∷ rest) name storage =
    let others = find_symbol rest name storage in
    if same_storage s.storage storage && same_bytes s.name name then some s.id else others

unfoldable pub join_flags : Flags → Flags → Flags
join_flags a b = record {
  is_parameter = a.is_parameter || b.is_parameter;
  is_foreach_value = a.is_foreach_value || b.is_foreach_value;
  is_foreach_index = a.is_foreach_index || b.is_foreach_index;
  is_implicit = a.is_implicit || b.is_implicit;
}

unfoldable pub renewed : Flags → Option Declaration → Symbol → Symbol
renewed flags declaration s = record s {
  flags = join_flags s.flags flags;
  declaration = elim s.declaration [ none ↦ declaration | some d ↦ some d ];
}

unfoldable pub change_symbol : ℕ → (Symbol → Symbol) → Resolution → Resolution
change_symbol id f r = elim (get_elem? r.symbols id) [
  | none ↦ r
  | some s ↦ record r { symbols = set r.symbols id (f s) }
]

-- The next slot of a place, none for a runtime name.
unfoldable pub next_slot : Resolution → Storage → Option ℕ
next_slot r global_storage = some r.global_slot_count
next_slot r external_storage = none
next_slot r (local_storage f) = elim (get_elem? r.functions f) [
  | none ↦ none
  | some function ↦ some function.frame_slot_count
]

unfoldable pub count_slot : Storage → Resolution → Resolution
count_slot global_storage r = record r { global_slot_count = suc r.global_slot_count }
count_slot external_storage r = r
count_slot (local_storage f) r = elim (get_elem? r.functions f) [
  | none ↦ r
  | some function ↦ record r {
    functions =
        set r.functions f (record function { frame_slot_count = suc function.frame_slot_count });
  }
]

-- The part of `add_symbol` behind its search.
unfoldable pub new_symbol : Name → Storage → Flags → Option Declaration → Resolution → Resolution
new_symbol name storage flags declaration r = count_slot storage (record r {
  symbols =
      r.symbols
      ++ (record {
        id = length r.symbols;
        slot = next_slot r storage;
        storage = storage;
        flags = flags;
        name = name;
        declaration = declaration;
        fallback = none;
      }
          ∷ []);
})

-- The identifier and the table behind the call.
unfoldable pub add_symbol :
    Name → Storage → Flags → Option Declaration → Resolution → ℕ × Resolution
add_symbol name storage flags declaration r = elim (find_symbol r.symbols name storage) [
  | some id ↦ (id, change_symbol id (renewed flags declaration) r)
  | none ↦ (length r.symbols, new_symbol name storage flags declaration r)
]

abbrev pub no_flags : Flags
no_flags = record {
  is_parameter = false;
  is_foreach_value = false;
  is_foreach_index = false;
  is_implicit = false;
}

unfoldable pub ensure_external : Name → Resolution → ℕ × Resolution
ensure_external name r = add_symbol name external_storage no_flags none r

unfoldable pub add_binding : NodeId → BindingRole → Option ℕ → Resolution → Resolution
add_binding node role none r = r
add_binding node role (some id) r = record r {
  bindings = r.bindings ++ (record { node = node; role = role; symbol_id = id } ∷ []);
}

unfoldable pub add_function : NodeId → Resolution → Resolution
add_function node r = record r {
  functions =
      r.functions
      ++ (record { declaration = node; frame_slot_count = 0; parameter_slots = [] } ∷ []);
}

-- The place of a scope's own names.
unfoldable pub scope_storage : Option ℕ → Storage
scope_storage none = global_storage
scope_storage (some f) = local_storage f

unfoldable pub scope_symbol : Option ℕ → Name → Resolution → Option ℕ
scope_symbol none name r = find_symbol r.symbols name global_storage
scope_symbol (some f) name r = elim (find_symbol r.symbols name (local_storage f)) [
  | some id ↦ some id
  | none ↦ find_symbol r.symbols name global_storage
]

unfoldable pub resolve_name : Option ℕ → Name → Resolution → ℕ × Resolution
resolve_name scope name r = elim (scope_symbol scope name r) [
  | some id ↦ (id, r)
  | none ↦ ensure_external name r
]
