-- ===== src/Resolve/Numbered.antt =====
-- HDResolveProgram of src/resolve.c as a whole: what its table of symbols promises the backends.
use mathlib.Core.Path.{subst}
use holy_d.Prelude.{
  map, ℕ, zero, suc, ◌+◌, ◌≡◌, refl, ap, ◌∙◌, Bool, true, false, some, none, List, [], ◌∷◌, ◌++◌,
  length, get_elem?, arith, length-append,
}
use holy_d.Syntax.{Nodes, nil, cons, func_decl, block}
use holy_d.Resolve.Table.{ResolvedFunction, Resolution}
use holy_d.Resolve.Scopes.{add_function, scope_storage}
use holy_d.Resolve.Labels.{walk_labels, walk_loops}
use holy_d.Resolve.Collect.{collect_explicit, collect_implicit, resolve_node}
use holy_d.Resolve.Program.{
  resolution_init, add_functions, collect_function, resolve_function, label_pass, collect_names,
  resolve_names, check_loops, resolve_program,
}
use holy_d.Resolve.Statements.{walk_labels-keeps, walk_loops-keeps}
use holy_d.Resolve.Slots.{Key, key_of, count, Ordered}
use holy_d.Resolve.Invariant.{InPlace}
use holy_d.Resolve.Keeps.{Sound, Bound}
use holy_d.Resolve.Passes.{
  collect_explicit-Sound, collect_implicit-Sound, resolve_node-Sound, link_fallbacks-Sound,
}
use holy_d.Resolve.Symbols.{
  function_total, each_statement-keeps, each_function-keeps, Sound-error, add_label-Sound,
  bind_goto-Sound, collect_function-Sound, resolve_function-Sound,
}

-- A table that has functions only.
record Fresh (r : Resolution) : Type 0 where
  symbols_none : r.symbols ≡ []
  bindings_none : r.bindings ≡ []
  globals_none : r.global_slot_count ≡ 0
  frames_none :
      (f : ℕ) (function : ResolvedFunction)
      → get_elem? r.functions f ≡ some function
      → function.frame_slot_count ≡ 0

snoc-frames :
    (fs : List ResolvedFunction) (new : ResolvedFunction) (f : ℕ) (function : ResolvedFunction)
    → new.frame_slot_count ≡ 0
    → ((g : ℕ) (old : ResolvedFunction) → get_elem? fs g ≡ some old → old.frame_slot_count ≡ 0)
    → get_elem? (fs ++ new ∷ []) f ≡ some function
    → function.frame_slot_count ≡ 0
snoc-frames [] new zero function z olds h = ap (λ t. t.frame_slot_count) (same new function h) ∙ z
  where
    same : (x y : ResolvedFunction) → some x ≡ some y → y ≡ x
    same x y h = cc
snoc-frames [] new (suc f) function z olds h = cc
snoc-frames (x ∷ fs) new zero function z olds h = olds 0 function h
snoc-frames (x ∷ fs) new (suc f) function z olds h =
    snoc-frames fs new f function z (λ g old e. olds (suc g) old e) h

add_functions-Fresh :
    (nodes : Nodes) (r : Resolution)
    → Fresh r
    → Fresh (add_functions nodes r)
      × (length (add_functions nodes r).functions ≡ length r.functions + function_total nodes)
unfolding add_functions function_total add_function
add_functions-Fresh nil r f = (f, omega arith)
add_functions-Fresh (cons (func_decl id _ _ _ _) rest) r f =
    let (fresh, size) = add_functions-Fresh rest (add_function id r) (record {
      symbols_none = f.symbols_none;
      bindings_none = f.bindings_none;
      globals_none = f.globals_none;
      frames_none = λ g function h. snoc-frames r.functions _ g function refl f.frames_none h;
    }) in
    (fresh, size ∙ omega (arith, length-append {0}))
add_functions-Fresh (cons _ rest) r f = add_functions-Fresh rest r f

no_key : (i : ℕ) (k : Key) → get_elem? [] i ≡ some k → ⊥
no_key i k h = cc

Fresh-Sound : (n : ℕ) (r : Resolution) → Fresh r → length r.functions ≡ n → Sound n r
unfolding Ordered count Bound
Fresh-Sound n r f e = record {
  well_formed = record {
    ordered = rw f.symbols_none tt;
    globals = rw f.symbols_none f.globals_none;
    frames = λ g function h. rw f.symbols_none (f.frames_none g function h);
    function_count = e;
    places = λ i k h.
        absurd (no_key i k (subst (λ ss. get_elem? (map key_of ss) i ≡ some k) f.symbols_none h));
  };
  bound = rw f.bindings_none tt;
}

init-Fresh : Fresh resolution_init
init-Fresh = record {
  symbols_none = refl;
  bindings_none = refl;
  globals_none = refl;
  frames_none = λ f function h. cc;
}

module _ (statements : Nodes) where
  abbrev pub n : ℕ
  n = function_total statements

  pub collect_names-Sound : Sound n (collect_names statements resolution_init)
  unfolding collect_names InPlace scope_storage
  collect_names-Sound =
      let (fresh, size) = add_functions-Fresh statements resolution_init init-Fresh in
      let start =
        Fresh-Sound n (add_functions statements resolution_init) fresh (size ∙ omega arith) in
      let explicit =
        each_statement-keeps (Sound n) (collect_explicit none) (collect_explicit-Sound n none tt)
          statements _ start in
      let implicit =
        each_statement-keeps (Sound n) (collect_implicit none) (collect_implicit-Sound n none tt)
          statements _ explicit in
      each_function-keeps (Sound n) collect_function n (collect_function-Sound n) 0 statements _
        (omega arith) implicit

  resolve_names-Sound : (r : Resolution) → Sound n r → Sound n (resolve_names statements r)
  unfolding resolve_names
  resolve_names-Sound r s =
      each_function-keeps (Sound n) resolve_function n (resolve_function-Sound n) 0 statements _
        (omega arith)
        (each_statement-keeps (Sound n) (resolve_node none) (resolve_node-Sound n none) statements r
          s)

  label_pass-Sound :
      (collect : Bool) (r : Resolution) → Sound n r → Sound n (label_pass collect statements r)
  unfolding label_pass
  label_pass-Sound collect r s =
      each_function-keeps (Sound n) _ n
        (λ i type parameters body r lt s.
          walk_labels-keeps (Sound n) (some i) (add_label-Sound n (some i))
            (bind_goto-Sound n (some i)) collect [] body r s)
        0 statements _ (omega arith)
        (each_statement-keeps (Sound n) (walk_labels none collect [])
          (walk_labels-keeps (Sound n) none (add_label-Sound n none) (bind_goto-Sound n none)
            collect [])
          statements r s)

  check_loops-Sound : (r : Resolution) → Sound n r → Sound n (check_loops statements r)
  unfolding check_loops
  check_loops-Sound r s =
      each_function-keeps (Sound n) _ n
        (λ i type parameters body r lt s. walk_loops-keeps (Sound n) (Sound-error n) 0 body r s) 0
        statements _ (omega arith)
        (each_statement-keeps (Sound n) (walk_loops 0)
          (walk_loops-keeps (Sound n) (Sound-error n) 0) statements r s)

  pub resolve_program-Sound : Sound n (resolve_program (block statements))
  unfolding resolve_program
  resolve_program-Sound = check_loops-Sound _ (
      label_pass-Sound false _ (
        label_pass-Sound true _
          (resolve_names-Sound _ (link_fallbacks-Sound n _ collect_names-Sound))))
