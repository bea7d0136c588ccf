-- ===== src/Resolve/Targets.antt =====
-- Every goto that src/resolve.c binds in a program names the label that it has to name.
use mathlib.Core.Path.{subst}
use holy_d.Prelude.{ℕ, ◌+◌, ◌≡◌, refl, Bool, true, false, some, none, get_elem?, arith}
use holy_d.Syntax.{Nodes, block, nil, cons, func_decl}
use holy_d.Resolve.Table.{GotoTarget, Resolution}
use holy_d.Resolve.Labels.{walk_loops}
use holy_d.Resolve.Binds.{IsBound, GotoOf, function_body}
use holy_d.Resolve.Gotos.{
  AllBound, AllBound-at, Targets, error-Targets, top-Targets, functions-Targets,
}
use holy_d.Resolve.Scopes.{add_function}
use holy_d.Resolve.Collect.{
  collect_explicit, collect_implicit, resolve_node, enter_explicit, enter_implicit, enter_name,
  link_fallbacks,
}
use holy_d.Resolve.Program.{
  resolution_init, add_functions, collect_function, resolve_function, label_pass, collect_names,
  resolve_names, check_loops, resolve_program,
}
use holy_d.Resolve.Visits.{visit-keeps, visit_type-keeps, visit_parameters-keeps}
use holy_d.Resolve.Statements.{walk_loops-keeps}
use holy_d.Resolve.Symbols.{each_statement-keeps, each_function-keeps, function_total}
use holy_d.Resolve.Jumps.{
  NoGotos, enter_explicit-NoGotos, enter_implicit-NoGotos, enter_name-NoGotos, link_from-NoGotos,
  add_parameters-NoGotos,
}

add_functions-NoGotos :
    (nodes : Nodes) (r : Resolution) → NoGotos r → NoGotos (add_functions nodes r)
unfolding add_functions NoGotos add_function
add_functions-NoGotos nil r h = h
add_functions-NoGotos (cons (func_decl id _ _ _ _) rest) r h = add_functions-NoGotos rest _ h
add_functions-NoGotos (cons _ rest) r h = add_functions-NoGotos rest r h

init-NoGotos : NoGotos resolution_init
unfolding NoGotos
init-NoGotos = refl

module _ (statements : Nodes) where
  abbrev n : ℕ
  n = function_total statements

  named :
      NoGotos (resolve_names statements (link_fallbacks (collect_names statements resolution_init)))
  unfolding resolve_names collect_names link_fallbacks collect_explicit collect_implicit
      resolve_node collect_function resolve_function
  named =
      let start = add_functions-NoGotos statements resolution_init init-NoGotos in
      let explicit =
        each_statement-keeps NoGotos (collect_explicit none)
          (visit-keeps NoGotos (enter_explicit none) (enter_explicit-NoGotos none)) statements _
          start in
      let implicit =
        each_statement-keeps NoGotos (collect_implicit none)
          (visit-keeps NoGotos (enter_implicit none) (enter_implicit-NoGotos none)) statements _
          explicit in
      let functions =
        each_function-keeps NoGotos collect_function n
          (λ i type parameters body r lt h.
            visit-keeps NoGotos (enter_implicit (some i)) (enter_implicit-NoGotos (some i)) body _ (
              visit-keeps NoGotos (enter_explicit (some i)) (enter_explicit-NoGotos (some i)) body _
                (add_parameters-NoGotos i parameters r h)))
          0 statements _ (omega arith) implicit in
      let linked = link_from-NoGotos _ 0 _ functions in
      let top =
        each_statement-keeps NoGotos (resolve_node none)
          (visit-keeps NoGotos (enter_name none) (enter_name-NoGotos none)) statements _ linked in
      each_function-keeps NoGotos resolve_function n
        (λ i type parameters body r lt h.
          visit-keeps NoGotos (enter_name (some i)) (enter_name-NoGotos (some i)) body _ (
            visit_parameters-keeps NoGotos (enter_name (some i)) (enter_name-NoGotos (some i))
              parameters _
              (visit_type-keeps NoGotos (enter_name (some i)) (enter_name-NoGotos (some i)) type r
                h)))
        0 statements _ (omega arith) top

  pass :
      (collect : Bool) (r : Resolution)
      → Targets statements r
      → Targets statements (label_pass collect statements r)
  unfolding label_pass GotoOf
  pass collect r t =
      functions-Targets statements collect 0 statements _
        (λ k body e. subst (λ p. function_body statements p ≡ some body) (zero_left k) e)
        (top-Targets statements collect statements r (λ id name inner g. g) t)
    where
      zero_left : (k : ℕ) → k ≡ 0 + k
      zero_left k = omega arith

  loops : (r : Resolution) → Targets statements r → Targets statements (check_loops statements r)
  unfolding check_loops
  loops r t =
      each_function-keeps (Targets statements) _ n
        (λ i type parameters body r lt t.
          walk_loops-keeps (Targets statements) (error-Targets statements) 0 body r t)
        0 statements _ (omega arith)
        (each_statement-keeps (Targets statements) (walk_loops 0)
          (walk_loops-keeps (Targets statements) (error-Targets statements) 0) statements r t)

  -- In the table of a program every goto that is bound is a goto of the program, of its statements or
  -- of a function's body, and its index is that of a label with the goto's name and of the same
  -- function; a label that is recorded inside a foreach body has that foreach around the goto, too.
  pub resolve_program-gotos :
      (i : ℕ) (g : GotoTarget)
      → get_elem? (resolve_program (block statements)).gotos i ≡ some g
      → IsBound statements (resolve_program (block statements)).labels g
  unfolding resolve_program Targets AllBound NoGotos
  resolve_program-gotos i g h =
      let start : Targets statements
          (resolve_names statements (link_fallbacks (collect_names statements resolution_init))) =
        rw named tt in
      let all = loops _ (pass false _ (pass true _ start)) in AllBound-at statements _ _ i g all h
