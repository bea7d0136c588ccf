-- ===== src/Resolve/Passes.antt =====
-- Each pass of src/resolve.c over names keeps the side table sound.
use holy_d.Prelude.{
  ℕ, zero, suc, ◌*◌, ◌<◌, ◌≡◌, refl, sym, ap, ◌∙◌, Option, some, none, ◌⊎◌, inl, inr, List, [], ◌∷◌,
  length, get_elem?, set, arith, Bool-cases, Option-cases, length-set,
}
use holy_d.Syntax.{
  Name, Node, var_decl, var_ref, assign, foreach_stmt, Parameters, no_more, parameter,
}
use holy_d.Resolve.Table.{Declaration, local_storage, Flags, Symbol, ResolvedFunction, Resolution}
use holy_d.Resolve.Scopes.{scope_storage, scope_symbol}
use holy_d.Resolve.Collect.{
  declare, enter_explicit, collect_explicit, enter_implicit, collect_implicit, global_behind,
  has_fallback, fallback_for, link_symbol, link_from, link_fallbacks, enter_name, resolve_node,
  declare_parameters, add_parameters,
}
use holy_d.Resolve.Visits.{visit-keeps}
use holy_d.Resolve.Slots.{keys, count}
use holy_d.Resolve.Invariant.{InPlace}
use holy_d.Resolve.Keeps.{
  Sound, add_symbol-Sound, add_binding-Sound, scope_symbol-lt, ensure_external-Sound,
  resolve_name-Sound, change_symbol-Sound,
}

module _ (n : ℕ) (scope : Option ℕ) (place : InPlace n (scope_storage scope)) where
  declare-Sound :
      (name : Name) (flags : Flags) (d : Declaration) (r : Resolution)
      → Sound n r
      → Sound n (declare scope name flags d r)
  unfolding declare
  declare-Sound name flags d r s =
      (add_symbol-Sound n name (scope_storage scope) flags (some d) r place s).0

  enter_explicit-Sound :
      (node : Node) (r : Resolution) → Sound n r → Sound n (enter_explicit scope node r)
  unfolding enter_explicit
  enter_explicit-Sound (var_decl id _ name _) r s = declare-Sound name _ _ r s
  enter_explicit-Sound (foreach_stmt id _ name _ none _ _) r s = declare-Sound name _ _ r s
  enter_explicit-Sound (foreach_stmt id _ name _ (some i) _ _) r s =
      declare-Sound i _ _ _ (declare-Sound name _ _ r s)
  enter_explicit-Sound _ r s = s

  enter_implicit-Sound :
      (node : Node) (r : Resolution) → Sound n r → Sound n (enter_implicit scope node r)
  unfolding enter_implicit
  enter_implicit-Sound (assign id name _) r s = elim (Option-cases (scope_symbol scope name r)) [
    | inl e ↦ rw (e, enter_implicit) (declare-Sound name _ _ r s)
    | inr (i, e) ↦ rw (e, enter_implicit) s
  ]
  enter_implicit-Sound _ r s = s

  pub collect_explicit-Sound :
      (node : Node) (r : Resolution) → Sound n r → Sound n (collect_explicit scope node r)
  unfolding collect_explicit
  collect_explicit-Sound = visit-keeps (Sound n) (enter_explicit scope) enter_explicit-Sound

  pub collect_implicit-Sound :
      (node : Node) (r : Resolution) → Sound n r → Sound n (collect_implicit scope node r)
  unfolding collect_implicit
  collect_implicit-Sound = visit-keeps (Sound n) (enter_implicit scope) enter_implicit-Sound

-- Uses of names need no place of their own: what they add stands in no function.
module _ (n : ℕ) (scope : Option ℕ) where
  pub enter_name-Sound :
      (node : Node) (r : Resolution) → Sound n r → Sound n (enter_name scope node r)
  unfolding enter_name
  enter_name-Sound (var_decl id _ name _) r s =
      add_binding-Sound n id _ _ r (scope_symbol-lt n scope name r s) s
  enter_name-Sound (var_ref id name) r s =
      let (after, lt) = resolve_name-Sound n scope name r s in
      add_binding-Sound n id _ _ _ (λ i h. ground arith) after
  enter_name-Sound (assign id name _) r s =
      let (after, lt) = resolve_name-Sound n scope name r s in
      add_binding-Sound n id _ _ _ (λ i h. ground arith) after
  enter_name-Sound (foreach_stmt id _ name _ none _ _) r s =
      add_binding-Sound n id _ _ r (scope_symbol-lt n scope name r s) s
  enter_name-Sound (foreach_stmt id _ name _ (some j) _ _) r s =
      let value = add_binding-Sound n id _ _ r (scope_symbol-lt n scope name r s) s in
      add_binding-Sound n id _ _ _ (scope_symbol-lt n scope j _ value) value
  enter_name-Sound _ r s = s

  pub resolve_node-Sound :
      (node : Node) (r : Resolution) → Sound n r → Sound n (resolve_node scope node r)
  unfolding resolve_node
  resolve_node-Sound = visit-keeps (Sound n) (enter_name scope) enter_name-Sound

-- What stands in a list of functions behind a write.
set-cases :
    (fs : List ResolvedFunction) (f : ℕ) (new : ResolvedFunction) (g : ℕ) (after : ResolvedFunction)
    → get_elem? (set fs f new) g ≡ some after
    → (get_elem? fs g ≡ some after) ⊎ ((g ≡ f) × (after ≡ new))
set-cases [] f new g after h = inl h
set-cases (x ∷ fs) zero new zero after h = inr (refl, cc)
set-cases (x ∷ fs) zero new (suc g) after h = inl h
set-cases (x ∷ fs) (suc f) new zero after h = inl h
set-cases (x ∷ fs) (suc f) new (suc g) after h = elim (set-cases fs f new g after h) [
  | inl old ↦ inl old
  | inr (same, is) ↦ inr (ap suc same, is)
]

module _ (n : ℕ) where
  pub fallback_for-Sound : (s : Symbol) (r : Resolution) → Sound n r → Sound n (fallback_for s r).1
  unfolding fallback_for
  fallback_for-Sound s r w = elim (Option-cases (global_behind s r)) [
    | inl e ↦ rw (e, fallback_for) (ensure_external-Sound n s.name r w).0
    | inr (id, e) ↦ rw (e, fallback_for) w
  ]

  pub link_symbol-Sound :
      (i : ℕ) (s : Symbol) (r : Resolution) → Sound n r → Sound n (link_symbol i s r)
  unfolding link_symbol
  link_symbol-Sound i s r w = elim (Bool-cases (has_fallback s)) [
    | inl e ↦
        rw (e, link_symbol)
          (change_symbol-Sound n i _ (fallback_for s r).1 (λ t. refl) (fallback_for-Sound s r w))
    | inr e ↦ rw (e, link_symbol) w
  ]

  link_from-Sound : (k i : ℕ) (r : Resolution) → Sound n r → Sound n (link_from k i r)
  unfolding link_from
  link_from-Sound zero i r w = w
  link_from-Sound (suc k) i r w = elim (Option-cases (get_elem? r.symbols i)) [
    | inl e ↦ rw (e, link_from) w
    | inr (s, e) ↦
        rw (e, link_from)
          (link_from-Sound k (suc i) (link_symbol i s r) (link_symbol-Sound i s r w))
  ]

  pub link_fallbacks-Sound : (r : Resolution) → Sound n r → Sound n (link_fallbacks r)
  unfolding link_fallbacks
  link_fallbacks-Sound r w = link_from-Sound (2 * length r.symbols) 0 r w

  module _ (f : ℕ) (place : f < n) where
    declare_parameters-Sound :
        (at : ℕ) (parameters : Parameters) (r : Resolution)
        → Sound n r
        → Sound n (declare_parameters f at parameters r).1
    unfolding declare_parameters InPlace
    declare_parameters-Sound at no_more r w = w
    declare_parameters-Sound at (parameter _ none _ _ _ rest) r w =
        declare_parameters-Sound (suc at) rest r w
    declare_parameters-Sound at (parameter _ (some name) _ _ _ rest) r w =
        declare_parameters-Sound (suc at) rest _
          (add_symbol-Sound n name (local_storage f) _ _ r place w).0

    pub add_parameters-Sound :
        (parameters : Parameters) (r : Resolution)
        → Sound n r
        → Sound n (add_parameters f parameters r)
    unfolding add_parameters
    add_parameters-Sound parameters r w =
        let (slots, q) = declare_parameters f 0 parameters r in
        let v = declare_parameters-Sound 0 parameters r w in
        elim (Option-cases (get_elem? q.functions f)) [
          | inl e ↦ rw (e, add_parameters) v
          | inr (function, e) ↦
              rw (e, add_parameters)
                (record {
                  well_formed = record {
                    ordered = v.well_formed.ordered;
                    globals = v.well_formed.globals;
                    frames = λ g after h.
                        elim (set-cases q.functions f (record function { parameter_slots = slots })
                          g after h) [
                            | inl old ↦ v.well_formed.frames g after old
                            | inr (same, is) ↦
                                ap (λ t. t.frame_slot_count) is
                                ∙ v.well_formed.frames f function e
                                ∙ ap (λ i. count (local_storage i) (keys q)) (sym same)
                          ];
                    function_count = length-set q.functions f _ ∙ v.well_formed.function_count;
                    places = v.well_formed.places;
                  };
                  bound = v.bound;
                })
        ]
