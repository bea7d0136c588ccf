-- ===== src/Resolve/Jumps.antt =====
-- The gotos of a program that src/resolve.c resolves.
use holy_d.Prelude.{
  ℕ, zero, suc, ◌≡◌, Option, some, none, inl, inr, [], get_elem?, Bool-cases, Option-cases,
}
use holy_d.Syntax.{
  Name, NodeId, Node, var_decl, var_ref, assign, foreach_stmt, Parameters, no_more, parameter,
}
use holy_d.Resolve.Table.{
  Declaration, Storage, global_storage, external_storage, local_storage, Flags, Symbol, BindingRole,
  Resolution,
}
use holy_d.Resolve.Scopes.{
  change_symbol, count_slot, new_symbol, add_symbol, ensure_external, add_binding, resolve_name,
  scope_symbol, find_symbol, no_flags, renewed,
}
use holy_d.Resolve.Collect.{
  declare, enter_explicit, enter_implicit, global_behind, has_fallback, fallback_for, link_symbol,
  link_from, enter_name, declare_parameters, add_parameters,
}

-- No goto is bound yet.
unfoldable pub NoGotos : Resolution → Type 0
NoGotos r = r.gotos ≡ []

change_symbol-NoGotos :
    (id : ℕ) (f : Symbol → Symbol) (r : Resolution) → NoGotos r → NoGotos (change_symbol id f r)
unfolding NoGotos change_symbol
change_symbol-NoGotos id f r h = elim (Option-cases (get_elem? r.symbols id)) [
  | inl e ↦ rw (e, change_symbol) h
  | inr (s, e) ↦ rw (e, change_symbol) h
]

new_symbol-NoGotos :
    (name : Name) (storage : Storage) (flags : Flags) (d : Option Declaration) (r : Resolution)
    → NoGotos r
    → NoGotos (new_symbol name storage flags d r)
unfolding NoGotos new_symbol count_slot
new_symbol-NoGotos name global_storage flags d r h = h
new_symbol-NoGotos name external_storage flags d r h = h
new_symbol-NoGotos name (local_storage f) flags d r h =
    elim (Option-cases (get_elem? r.functions f)) [
      | inl e ↦ rw (e, new_symbol, count_slot) h
      | inr (function, e) ↦ rw (e, new_symbol, count_slot) h
    ]

add_symbol-NoGotos :
    (name : Name) (storage : Storage) (flags : Flags) (d : Option Declaration) (r : Resolution)
    → NoGotos r
    → NoGotos (add_symbol name storage flags d r).1
unfolding add_symbol
add_symbol-NoGotos name storage flags d r h =
    elim (Option-cases (find_symbol r.symbols name storage)) [
      | inl e ↦ rw (e, add_symbol) (new_symbol-NoGotos name storage flags d r h)
      | inr (id, e) ↦ rw (e, add_symbol) (change_symbol-NoGotos id (renewed flags d) r h)
    ]

add_binding-NoGotos :
    (node : NodeId) (role : BindingRole) (id : Option ℕ) (r : Resolution)
    → NoGotos r
    → NoGotos (add_binding node role id r)
unfolding NoGotos add_binding
add_binding-NoGotos node role none r h = h
add_binding-NoGotos node role (some i) r h = h

resolve_name-NoGotos :
    (scope : Option ℕ) (name : Name) (r : Resolution)
    → NoGotos r
    → NoGotos (resolve_name scope name r).1
unfolding resolve_name ensure_external
resolve_name-NoGotos scope name r h = elim (Option-cases (scope_symbol scope name r)) [
  | inl e ↦
      rw (e, resolve_name, ensure_external)
        (add_symbol-NoGotos name external_storage no_flags none r h)
  | inr (i, e) ↦ rw (e, resolve_name) h
]

module _ (scope : Option ℕ) where
  pub enter_explicit-NoGotos :
      (node : Node) (r : Resolution) → NoGotos r → NoGotos (enter_explicit scope node r)
  unfolding enter_explicit declare
  enter_explicit-NoGotos (var_decl id _ name _) r h = add_symbol-NoGotos name _ _ _ r h
  enter_explicit-NoGotos (foreach_stmt id _ name _ none _ _) r h = add_symbol-NoGotos name _ _ _ r h
  enter_explicit-NoGotos (foreach_stmt id _ name _ (some i) _ _) r h =
      add_symbol-NoGotos i _ _ _ _ (add_symbol-NoGotos name _ _ _ r h)
  enter_explicit-NoGotos _ r h = h

  pub enter_implicit-NoGotos :
      (node : Node) (r : Resolution) → NoGotos r → NoGotos (enter_implicit scope node r)
  unfolding enter_implicit declare
  enter_implicit-NoGotos (assign id name _) r h = elim (Option-cases (scope_symbol scope name r)) [
    | inl e ↦ rw (e, enter_implicit, declare) (add_symbol-NoGotos name _ _ _ r h)
    | inr (i, e) ↦ rw (e, enter_implicit) h
  ]
  enter_implicit-NoGotos _ r h = h

  pub enter_name-NoGotos :
      (node : Node) (r : Resolution) → NoGotos r → NoGotos (enter_name scope node r)
  unfolding enter_name
  enter_name-NoGotos (var_decl id _ name _) r h = add_binding-NoGotos id _ _ r h
  enter_name-NoGotos (var_ref id name) r h =
      add_binding-NoGotos id _ _ _ (resolve_name-NoGotos scope name r h)
  enter_name-NoGotos (assign id name _) r h =
      add_binding-NoGotos id _ _ _ (resolve_name-NoGotos scope name r h)
  enter_name-NoGotos (foreach_stmt id _ name _ none _ _) r h = add_binding-NoGotos id _ _ r h
  enter_name-NoGotos (foreach_stmt id _ name _ (some j) _ _) r h =
      add_binding-NoGotos id _ _ _ (add_binding-NoGotos id _ _ r h)
  enter_name-NoGotos _ r h = h

link_symbol-NoGotos :
    (i : ℕ) (s : Symbol) (r : Resolution) → NoGotos r → NoGotos (link_symbol i s r)
unfolding link_symbol fallback_for ensure_external
link_symbol-NoGotos i s r h = elim (Bool-cases (has_fallback s)) [
  | inl e ↦ elim (Option-cases (global_behind s r)) [
    | inl g ↦
        rw (e, link_symbol)
          (rw (g, fallback_for)
            (change_symbol-NoGotos i _ _
              (add_symbol-NoGotos s.name external_storage no_flags none r h)))
    | inr (id, g) ↦ rw (e, link_symbol) (rw (g, fallback_for) (change_symbol-NoGotos i _ r h))
  ]
  | inr e ↦ rw (e, link_symbol) h
]

pub link_from-NoGotos : (k i : ℕ) (r : Resolution) → NoGotos r → NoGotos (link_from k i r)
unfolding link_from
link_from-NoGotos zero i r h = h
link_from-NoGotos (suc k) i r h = elim (Option-cases (get_elem? r.symbols i)) [
  | inl e ↦ rw (e, link_from) h
  | inr (s, e) ↦ rw (e, link_from) (link_from-NoGotos k (suc i) _ (link_symbol-NoGotos i s r h))
]

declare_parameters-NoGotos :
    (f at : ℕ) (parameters : Parameters) (r : Resolution)
    → NoGotos r
    → NoGotos (declare_parameters f at parameters r).1
unfolding declare_parameters
declare_parameters-NoGotos f at no_more r h = h
declare_parameters-NoGotos f at (parameter _ none _ _ _ rest) r h =
    declare_parameters-NoGotos f (suc at) rest r h
declare_parameters-NoGotos f at (parameter _ (some name) _ _ _ rest) r h =
    declare_parameters-NoGotos f (suc at) rest _ (add_symbol-NoGotos name _ _ _ r h)

pub add_parameters-NoGotos :
    (f : ℕ) (parameters : Parameters) (r : Resolution)
    → NoGotos r
    → NoGotos (add_parameters f parameters r)
unfolding add_parameters NoGotos
add_parameters-NoGotos f parameters r h =
    let q = (declare_parameters f 0 parameters r).1 in
    let kept : NoGotos q = declare_parameters-NoGotos f 0 parameters r h in
    elim (Option-cases (get_elem? q.functions f)) [
      | inl e ↦ rw (e, add_parameters) kept
      | inr (function, e) ↦ rw (e, add_parameters) kept
    ]
