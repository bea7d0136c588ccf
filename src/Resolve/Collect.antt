-- ===== src/Resolve/Collect.antt =====
-- The passes of src/resolve.c over names: declarations, implicit declarations by assignment, the
-- links to the symbols that a name falls back to, uses of names, and parameters.
use holy_d.Prelude.{
  ℕ, zero, suc, ◌*◌, Bool, true, false, not, Option, some, none, List, [], ◌∷◌, if◌then◌else◌,
  get_elem?, set, length,
}
use holy_d.Prelude.Int.{ℤ, pos, negsuc}
use holy_d.Syntax.{
  Name, Node, var_decl, var_ref, assign, foreach_stmt, Parameters, no_more, parameter,
}
use holy_d.Resolve.Table.{
  Declaration, declared_at, declared_parameter, global_storage, external_storage, local_storage,
  Flags, Symbol, declaration_role, read_role, write_role, foreach_value_role, foreach_index_role,
  Resolution,
}
use holy_d.Resolve.Scopes.{
  find_symbol, add_symbol, no_flags, ensure_external, add_binding, scope_storage, scope_symbol,
  resolve_name, change_symbol,
}
use holy_d.Resolve.Walk.{visit}

unfoldable pub declare : Option ℕ → Name → Flags → Declaration → Resolution → Resolution
declare scope name flags d r = (add_symbol name (scope_storage scope) flags (some d) r).1

unfoldable pub enter_explicit : Option ℕ → Node → Resolution → Resolution
enter_explicit scope (var_decl id _ name _) r = declare scope name no_flags (declared_at id) r
enter_explicit scope (foreach_stmt id _ name _ index _ _) r =
    let value =
      declare scope name (record no_flags { is_foreach_value = true }) (declared_at id) r in
    elim index [
      | none ↦ value
      | some i ↦
          declare scope i (record no_flags { is_foreach_index = true }) (declared_at id) value
    ]
enter_explicit scope _ r = r

unfoldable pub collect_explicit : Option ℕ → Node → Resolution → Resolution
collect_explicit scope = visit (enter_explicit scope)

unfoldable pub enter_implicit : Option ℕ → Node → Resolution → Resolution
enter_implicit scope (assign id name _) r = elim (scope_symbol scope name r) [
  | some _ ↦ r
  | none ↦ declare scope name (record no_flags { is_implicit = true }) (declared_at id) r
]
enter_implicit scope _ r = r

unfoldable pub collect_implicit : Option ℕ → Node → Resolution → Resolution
collect_implicit scope = visit (enter_implicit scope)

-- A local's same-named global, if there is one.
unfoldable pub global_behind : Symbol → Resolution → Option ℕ
global_behind s r = elim s.storage [
  | local_storage _ ↦ find_symbol r.symbols s.name global_storage
  | _ ↦ none
]

unfoldable pub has_fallback : Symbol → Bool
has_fallback s = elim s.storage [ external_storage ↦ false | _ ↦ not s.flags.is_parameter ]

-- What a symbol's name falls back to, with the table in which it stands.
unfoldable pub fallback_for : Symbol → Resolution → ℕ × Resolution
fallback_for s r = elim (global_behind s r) [ some id ↦ (id, r) | none ↦ ensure_external s.name r ]

unfoldable pub link_symbol : ℕ → Symbol → Resolution → Resolution
link_symbol i s r =
    let (fallback, linked) = fallback_for s r in
    if has_fallback s
    then change_symbol i (λ s. record s { fallback = some fallback }) linked
    else r

-- The loop from symbol `i` on, over a table that may grow meanwhile.
unfoldable pub link_from : ℕ → ℕ → Resolution → Resolution
link_from zero i r = r
link_from (suc n) i r = elim (get_elem? r.symbols i) [
  | none ↦ r
  | some s ↦ link_from n (suc i) (link_symbol i s r)
]

-- Only a symbol that stood in the table before can add another one, so twice as many turns as there
-- were symbols reach the end.
unfoldable pub link_fallbacks : Resolution → Resolution
link_fallbacks r = link_from (2 * length r.symbols) 0 r

unfoldable pub enter_name : Option ℕ → Node → Resolution → Resolution
enter_name scope (var_decl id _ name _) r =
    add_binding id declaration_role (scope_symbol scope name r) r
enter_name scope (var_ref id name) r =
    let (symbol, r) = resolve_name scope name r in add_binding id read_role (some symbol) r
enter_name scope (assign id name _) r =
    let (symbol, r) = resolve_name scope name r in add_binding id write_role (some symbol) r
enter_name scope (foreach_stmt id _ name _ index _ _) r =
    let value = add_binding id foreach_value_role (scope_symbol scope name r) r in
    elim index [
      | none ↦ value
      | some i ↦ add_binding id foreach_index_role (scope_symbol scope i value) value
    ]
enter_name scope _ r = r

unfoldable pub resolve_node : Option ℕ → Node → Resolution → Resolution
resolve_node scope = visit (enter_name scope)

-- The slot of a symbol as `parameter_slots` holds it, -1 for none.
unfoldable pub slot_of : ℕ → Resolution → ℤ
slot_of id r = elim (get_elem? r.symbols id) [
  | none ↦ negsuc 0
  | some s ↦ elim s.slot [ none ↦ negsuc 0 | some k ↦ pos k ]
]

-- The parameters from position `at` on: their slots and the table behind them.
unfoldable pub declare_parameters : ℕ → ℕ → Parameters → Resolution → List ℤ × Resolution
declare_parameters f at no_more r = ([], r)
declare_parameters f at (parameter _ none _ _ _ rest) r =
    let (slots, r) = declare_parameters f (suc at) rest r in (negsuc 0 ∷ slots, r)
declare_parameters f at (parameter _ (some name) _ _ _ rest) r =
    let (id, r) =
      add_symbol name (local_storage f) (record no_flags { is_parameter = true })
        (some (declared_parameter f at)) r in
    let slot = slot_of id r in
    let (slots, r) = declare_parameters f (suc at) rest r in (slot ∷ slots, r)

unfoldable pub add_parameters : ℕ → Parameters → Resolution → Resolution
add_parameters f parameters r =
    let (slots, r) = declare_parameters f 0 parameters r in
    elim (get_elem? r.functions f) [
      | none ↦ r
      | some function ↦ record r {
        functions = set r.functions f (record function { parameter_slots = slots });
      }
    ]
