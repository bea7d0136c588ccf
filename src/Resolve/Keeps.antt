-- ===== src/Resolve/Keeps.antt =====
-- The passes of src/resolve.c over names keep the side table well formed, and every binding names
-- a symbol of the table.
use mathlib.Core.Path.{subst}
use holy_d.Prelude.{
  ℕ, suc, ◌+◌, ◌≤◌, ◌<◌, ◌≡◌, refl, sym, ap, ◌∙◌, Option, some, none, inl, inr, List, [], ◌∷◌, ◌++◌,
  map, length, get_elem?, arith, Bool-cases, Option-cases, length-append, length-set, ◌&&◌,
  same_bytes,
}
use holy_d.Syntax.{Name, NodeId}
use holy_d.Resolve.Table.{
  Declaration, Storage, global_storage, external_storage, local_storage, Flags, Symbol, BindingRole,
  Binding, Resolution,
}
use holy_d.Resolve.Scopes.{
  count_slot, same_storage, find_symbol, renewed, change_symbol, new_symbol, add_symbol,
  ensure_external, no_flags, add_binding, scope_symbol, resolve_name,
}
use holy_d.Resolve.Slots.{Key, key_of, keys, Ordered, find_symbol-known}
use holy_d.Resolve.Invariant.{
  WellFormed, InPlace, change_symbol-WellFormed, new_symbol-WellFormed, keys-new_symbol, new_key,
  length-keys,
}

-- The search finds the identifier of a symbol of that name and place, which stands at that position.
find_from :
    (before : List Key) (ss : List Symbol) (name : Name) (storage : Storage) (id : ℕ)
    → Ordered before (map key_of ss)
    → find_symbol ss name storage ≡ some id
    → (j : ℕ) × (id ≡ length before + j) × (j < length ss)
unfolding find_symbol Ordered
find_from before [] name storage id o h = cc
find_from before (s ∷ ss) name storage id o h =
    elim (Bool-cases (same_storage s.storage storage && same_bytes s.name name)) [
      | inl e ↦ let is : s.id ≡ id = ground arith in (0, sym is ∙ o.0 ∙ omega arith, omega arith)
      | inr e ↦
          let further : find_symbol ss name storage ≡ some id = ground arith in
          let (j, at, lt) = find_from (before ++ key_of s ∷ []) ss name storage id o.3 further in
          (suc j, omega (arith, at, length-append before (key_of s ∷ [])), omega arith)
    ]

pub find_symbol-lt :
    {n : ℕ} (r : Resolution) (name : Name) (storage : Storage) (id : ℕ)
    → WellFormed n r
    → find_symbol r.symbols name storage ≡ some id
    → id < length r.symbols
find_symbol-lt r name storage id w h =
    let (j, at, lt) = find_from [] r.symbols name storage id w.ordered h in omega arith

-- Every binding names a symbol of the table.
unfoldable pub Bound : ℕ → List Binding → Type 0
Bound symbols [] = Unit {0}
Bound symbols (b ∷ bs) = b.symbol_id < symbols × Bound symbols bs

Bound-more : (m k : ℕ) (bs : List Binding) → m ≤ k → Bound m bs → Bound k bs
unfolding Bound
Bound-more m k [] le b = tt
Bound-more m k (x ∷ bs) le b = (omega (arith, b.0), Bound-more m k bs le b.1)

Bound-append :
    (m : ℕ) (bs : List Binding) (x : Binding)
    → Bound m bs
    → x.symbol_id < m
    → Bound m (bs ++ x ∷ [])
unfolding Bound
Bound-append m [] x b h = (h, tt)
Bound-append m (y ∷ bs) x b h = (b.0, Bound-append m bs x b.1 h)

-- The invariant of the passes over names.
pub record Sound (n : ℕ) (r : Resolution) : Type 0 where
  pub well_formed : WellFormed n r
  pub bound : Bound (length r.symbols) r.bindings

pub length-new_symbol :
    (name : Name) (storage : Storage) (flags : Flags) (d : Option Declaration) (r : Resolution)
    → length (new_symbol name storage flags d r).symbols ≡ suc (length r.symbols)
unfolding new_key
length-new_symbol name storage flags d r =
    sym (length-keys _)
    ∙ ap length (keys-new_symbol name storage flags d r)
    ∙ length-append (keys r) _
    ∙ omega (arith, length-keys r.symbols)

new_symbol-bindings :
    (name : Name) (storage : Storage) (flags : Flags) (d : Option Declaration) (r : Resolution)
    → (new_symbol name storage flags d r).bindings ≡ r.bindings
unfolding new_symbol count_slot
new_symbol-bindings name global_storage flags d r = refl
new_symbol-bindings name external_storage flags d r = refl
new_symbol-bindings name (local_storage f) flags d r =
    elim (Option-cases (get_elem? r.functions f)) [
      | inl e ↦ rw (e, new_symbol, count_slot) refl
      | inr (function, e) ↦ rw (e, new_symbol, count_slot) refl
    ]

change_symbol-bindings :
    (id : ℕ) (f : Symbol → Symbol) (r : Resolution) → (change_symbol id f r).bindings ≡ r.bindings
unfolding change_symbol
change_symbol-bindings id f r = elim (Option-cases (get_elem? r.symbols id)) [
  | inl e ↦ rw (e, change_symbol) refl
  | inr (s, e) ↦ rw (e, change_symbol) refl
]

pub change_symbol-length :
    (id : ℕ) (f : Symbol → Symbol) (r : Resolution)
    → length (change_symbol id f r).symbols ≡ length r.symbols
unfolding change_symbol
change_symbol-length id f r = elim (Option-cases (get_elem? r.symbols id)) [
  | inl e ↦ rw (e, change_symbol) refl
  | inr (s, e) ↦ rw (e, change_symbol) (length-set r.symbols id (f s))
]

module _ (n : ℕ) where
  -- A call of `add_symbol` keeps the table sound and gives the identifier of a symbol.
  pub add_symbol-Sound :
      (name : Name) (storage : Storage) (flags : Flags) (d : Option Declaration) (r : Resolution)
      → InPlace n storage
      → Sound n r
      → Sound n (add_symbol name storage flags d r).1
        × (add_symbol name storage flags d r).0
          < length (add_symbol name storage flags d r).1.symbols
  unfolding add_symbol renewed
  add_symbol-Sound name storage flags d r i s =
      elim (Option-cases (find_symbol r.symbols name storage)) [
        | inl e ↦
            let longer = length-new_symbol name storage flags d r in
            rw (e, add_symbol)
              (
                record {
                  well_formed =
                      new_symbol-WellFormed n name flags d r s.well_formed storage i
                        (find_symbol-known r.symbols name storage e);
                  bound =
                      subst (Bound _) (sym (new_symbol-bindings name storage flags d r))
                        (Bound-more _ _ r.bindings (omega arith) s.bound);
                },
                omega arith,
              )
        | inr (id, e) ↦
            rw (e, add_symbol)
              (
                record {
                  well_formed =
                      change_symbol-WellFormed n id (renewed flags d) r (λ t. refl) s.well_formed;
                  bound = subst (Bound _) (sym (change_symbol-bindings id (renewed flags d) r)) (
                      Bound-more _ _ r.bindings
                        (omega (arith, change_symbol-length id (renewed flags d) r)) s.bound);
                },
                omega (
                  arith,
                  find_symbol-lt r name storage id s.well_formed e,
                  change_symbol-length id (renewed flags d) r,
                ),
              )
      ]

  pub add_binding-Sound :
      (node : NodeId) (role : BindingRole) (id : Option ℕ) (r : Resolution)
      → ((i : ℕ) → id ≡ some i → i < length r.symbols)
      → Sound n r
      → Sound n (add_binding node role id r)
  unfolding add_binding
  add_binding-Sound node role none r h s = s
  add_binding-Sound node role (some i) r h s = record {
    well_formed = record {
      ordered = s.well_formed.ordered;
      globals = s.well_formed.globals;
      frames = s.well_formed.frames;
      function_count = s.well_formed.function_count;
      places = s.well_formed.places;
    };
    bound = Bound-append (length r.symbols) r.bindings _ s.bound (h i refl);
  }

  -- What a scope's own search finds is a symbol.
  pub scope_symbol-lt :
      (scope : Option ℕ) (name : Name) (r : Resolution)
      → Sound n r
      → (i : ℕ) → scope_symbol scope name r ≡ some i
      → i < length r.symbols
  unfolding scope_symbol
  scope_symbol-lt none name r s i h = find_symbol-lt r name global_storage i s.well_formed h
  scope_symbol-lt (some f) name r s i h =
      elim (Option-cases (find_symbol r.symbols name (local_storage f))) [
        | inl e ↦
            let global : find_symbol r.symbols name global_storage ≡ some i = ground arith in
            find_symbol-lt r name global_storage i s.well_formed global
        | inr (j, e) ↦
            let here : find_symbol r.symbols name (local_storage f) ≡ some i = ground arith in
            find_symbol-lt r name (local_storage f) i s.well_formed here
      ]

  pub ensure_external-Sound :
      (name : Name) (r : Resolution)
      → Sound n r
      → Sound n (ensure_external name r).1
        × (ensure_external name r).0 < length (ensure_external name r).1.symbols
  unfolding ensure_external InPlace
  ensure_external-Sound name r s = add_symbol-Sound name external_storage no_flags none r tt s

  pub resolve_name-Sound :
      (scope : Option ℕ) (name : Name) (r : Resolution)
      → Sound n r
      → Sound n (resolve_name scope name r).1
        × (resolve_name scope name r).0 < length (resolve_name scope name r).1.symbols
  unfolding resolve_name
  resolve_name-Sound scope name r s = elim (Option-cases (scope_symbol scope name r)) [
    | inl e ↦ rw (e, resolve_name) (ensure_external-Sound name r s)
    | inr (i, e) ↦ rw (e, resolve_name) (s, scope_symbol-lt scope name r s i e)
  ]

  pub change_symbol-Sound :
      (id : ℕ) (f : Symbol → Symbol) (r : Resolution)
      → ((s : Symbol) → key_of (f s) ≡ key_of s)
      → Sound n r
      → Sound n (change_symbol id f r)
  change_symbol-Sound id f r k s = record {
    well_formed = change_symbol-WellFormed n id f r k s.well_formed;
    bound =
        subst (Bound _) (sym (change_symbol-bindings id f r))
          (Bound-more _ _ r.bindings (omega (arith, change_symbol-length id f r)) s.bound);
  }
