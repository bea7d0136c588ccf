-- ===== src/Resolve/Symbols.antt =====
-- HDResolveProgram of src/resolve.c leaves a well-formed table of symbols, slots and bindings.
use holy_d.Prelude.{
  ℕ, suc, ◌+◌, ◌≤◌, ◌<◌, Option, some, inl, inr, List, get_elem?, arith, Bool-cases, Option-cases,
}
use holy_d.Syntax.{Name, NodeId, Node, Nodes, nil, cons, null, func_decl, TypeSyntax, Parameters}
use holy_d.Resolve.Table.{Label, GotoTarget, Resolution}
use holy_d.Resolve.Scopes.{scope_storage}
use holy_d.Resolve.Collect.{enter_name}
use holy_d.Resolve.Labels.{resolution_error, add_label, bind_goto, add_goto, find_label, may_jump}
use holy_d.Resolve.Program.{
  each_statement, each_function, Visitor, collect_function, resolve_function,
}
use holy_d.Resolve.Visits.{visit_type-keeps, visit_parameters-keeps}
use holy_d.Resolve.Invariant.{InPlace}
use holy_d.Resolve.Keeps.{Sound}
use holy_d.Resolve.Passes.{
  collect_explicit-Sound, collect_implicit-Sound, enter_name-Sound, resolve_node-Sound,
  add_parameters-Sound,
}

-- The functions that the statements declare.
unfoldable pub function_total : Nodes → ℕ
function_total nil = 0
function_total (cons (func_decl _ _ _ _ _) rest) = suc (function_total rest)
function_total (cons _ rest) = function_total rest

module _ (P : Resolution → Type 0) where
  pub each_statement-keeps :
      (walk : Node → Resolution → Resolution)
      → ((node : Node) (r : Resolution) → P r → P (walk node r))
      → (nodes : Nodes) (r : Resolution) → P r
      → P (each_statement walk nodes r)
  unfolding each_statement
  each_statement-keeps walk keeps nil r p = p
  each_statement-keeps walk keeps (cons null rest) r p = each_statement-keeps walk keeps rest r p
  each_statement-keeps walk keeps (cons (func_decl _ _ _ _ _) rest) r p =
      each_statement-keeps walk keeps rest r p
  each_statement-keeps walk keeps (cons node rest) r p =
      each_statement-keeps walk keeps rest (walk node r) (keeps node r p)

  -- A visitor that keeps a property for the indices below a bound.
  pub each_function-keeps :
      (walk : Visitor) (n : ℕ)
      → ((i : ℕ) (type : TypeSyntax) (parameters : Parameters) (body : Node) (r : Resolution)
          → i < n
          → P r
          → P (walk i type parameters body r))
      → (i : ℕ) (nodes : Nodes) (r : Resolution) → i + function_total nodes ≤ n
      → P r
      → P (each_function walk i nodes r)
  unfolding each_function function_total
  each_function-keeps walk n keeps i nil r le p = p
  each_function-keeps walk n keeps i (cons (func_decl _ type _ parameters body) rest) r le p =
      each_function-keeps walk n keeps (suc i) rest (walk i type parameters body r) (omega arith)
        (keeps i type parameters body r (omega arith) p)
  each_function-keeps walk n keeps i (cons _ rest) r le p =
      each_function-keeps walk n keeps i rest r le p

-- Labels, gotos and errors leave the symbols, the bindings and the frames alone.
Sound-labels :
    (n : ℕ) (r : Resolution) (labels : List Label)
    → Sound n r
    → Sound n (record r { labels = labels })
Sound-labels n r labels s = record {
  well_formed = record {
    ordered = s.well_formed.ordered;
    globals = s.well_formed.globals;
    frames = s.well_formed.frames;
    function_count = s.well_formed.function_count;
    places = s.well_formed.places;
  };
  bound = s.bound;
}

Sound-gotos :
    (n : ℕ) (r : Resolution) (gotos : List GotoTarget)
    → Sound n r
    → Sound n (record r { gotos = gotos })
Sound-gotos n r gotos s = record {
  well_formed = record {
    ordered = s.well_formed.ordered;
    globals = s.well_formed.globals;
    frames = s.well_formed.frames;
    function_count = s.well_formed.function_count;
    places = s.well_formed.places;
  };
  bound = s.bound;
}

pub Sound-error : (n : ℕ) (r : Resolution) → Sound n r → Sound n (resolution_error r)
unfolding resolution_error
Sound-error n r s = record {
  well_formed = record {
    ordered = s.well_formed.ordered;
    globals = s.well_formed.globals;
    frames = s.well_formed.frames;
    function_count = s.well_formed.function_count;
    places = s.well_formed.places;
  };
  bound = s.bound;
}

pub add_label-Sound :
    (n : ℕ) (scope : Option ℕ) (id : NodeId) (name : Name) (frame : List NodeId) (r : Resolution)
    → Sound n r
    → Sound n (add_label scope id name frame r)
unfolding add_label
add_label-Sound n scope id name frame r s = elim (Option-cases (find_label r scope name)) [
  | inl e ↦ rw (e, add_label) (Sound-labels n r _ s)
  | inr (i, e) ↦ rw (e, add_label) (Sound-error n r s)
]

pub bind_goto-Sound :
    (n : ℕ) (scope : Option ℕ) (id : NodeId) (name : Name) (frame : List NodeId) (r : Resolution)
    → Sound n r
    → Sound n (bind_goto scope id name frame r)
unfolding bind_goto add_goto
bind_goto-Sound n scope id name frame r s = elim (Option-cases (find_label r scope name)) [
  | inl e ↦ rw (e, bind_goto) (Sound-error n r s)
  | inr (i, e) ↦ elim (Option-cases (get_elem? r.labels i)) [
    | inl f ↦ rw (e, bind_goto) (rw f (Sound-gotos n r _ s))
    | inr (l, f) ↦ elim (Bool-cases (may_jump frame l)) [
      | inl g ↦ rw (e, bind_goto) (rw f (rw g (Sound-gotos n r _ s)))
      | inr g ↦ rw (e, bind_goto) (rw f (rw g (Sound-error n r s)))
    ]
  ]
]

module _ (n : ℕ) where
  pub collect_function-Sound :
      (i : ℕ) (type : TypeSyntax) (parameters : Parameters) (body : Node) (r : Resolution)
      → i < n
      → Sound n r
      → Sound n (collect_function i type parameters body r)
  unfolding collect_function InPlace scope_storage
  collect_function-Sound i type parameters body r place s =
      collect_implicit-Sound n (some i) place body _ (
        collect_explicit-Sound n (some i) place body _
          (add_parameters-Sound n i place parameters r s))

  pub resolve_function-Sound :
      (i : ℕ) (type : TypeSyntax) (parameters : Parameters) (body : Node) (r : Resolution)
      → i < n
      → Sound n r
      → Sound n (resolve_function i type parameters body r)
  unfolding resolve_function
  resolve_function-Sound i type parameters body r place s = resolve_node-Sound n (some i) body _ (
      visit_parameters-keeps (Sound n) (enter_name (some i)) (enter_name-Sound n (some i))
        parameters _
        (visit_type-keeps (Sound n) (enter_name (some i)) (enter_name-Sound n (some i)) type r s))
