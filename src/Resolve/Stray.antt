-- ===== src/Resolve/Stray.antt =====
-- The check of src/resolve.c on break and continue against the places that it walks to.
use holy_d.Prelude.{
  ℕ, suc, ◌+◌, ◌≡◌, refl, Bool, true, false, ◌⊎◌, inl, inr, if◌then◌else◌, arith, ◌==◌, ◌↔◌,
}
use holy_d.Resolve.Program.{each_statement, each_function, check_loops, resolve_program}
use holy_d.Resolve.Symbols.{each_statement-keeps, each_function-keeps, function_total}
use holy_d.Syntax.{
  Name, NodeId, Node, null, block, if_stmt, while_stmt, for_stmt, foreach_stmt, break_stmt,
  continue_stmt, Nodes, nil, cons, func_decl, TypeSyntax, Parameters,
}
use holy_d.Resolve.Table.{Resolution}
use holy_d.Resolve.Labels.{resolution_error, unless_error, walk_loops, walk_all_loops}
use holy_d.Resolve.Statements.{walk_loops-keeps, walk_all_loops-keeps}

-- A break or continue that a walk through blocks and branches only reaches in a statement, or in one
-- of several.
mutual
  pub data Stray : Node → Type 0 where
    stray_break : Stray break_stmt
    stray_continue : Stray continue_stmt
    in_block : {statements : Nodes} → StrayIn statements → Stray (block statements)
    in_then : {c t e : Node} → Stray t → Stray (if_stmt c t e)
    in_else : {c t e : Node} → Stray e → Stray (if_stmt c t e)

  pub data StrayIn : Nodes → Type 0 where
    first_stray : {node : Node} {rest : Nodes} → Stray node → StrayIn (cons node rest)
    later_stray : {node : Node} {rest : Nodes} → StrayIn rest → StrayIn (cons node rest)

-- An error stays.
pub walk_loops-error :
    (depth : ℕ) (node : Node) (r : Resolution)
    → r.had_error ≡ true
    → (walk_loops depth node r).had_error ≡ true
unfolding resolution_error
walk_loops-error = walk_loops-keeps (λ r. r.had_error ≡ true) (λ r p. refl)

walk_all_loops-error :
    (depth : ℕ) (nodes : Nodes) (r : Resolution)
    → r.had_error ≡ true
    → (walk_all_loops depth nodes r).had_error ≡ true
unfolding resolution_error
walk_all_loops-error = walk_all_loops-keeps (λ r. r.had_error ≡ true) (λ r p. refl)

-- A walk that ends in an error when it starts without one ends in an error.
unless_error-error :
    (walk : Resolution → Resolution) (r : Resolution)
    → (walk r).had_error ≡ true
    → (unless_error walk r).had_error ≡ true
unfolding unless_error
unless_error-error walk r h = by-cases r.had_error refl
  where
    by-cases : (b : Bool) → r.had_error ≡ b → (if b then r else walk r).had_error ≡ true
    by-cases true e = e
    by-cases false e = h

mutual
  unfolding walk_loops resolution_error

  Stray-error : {node : Node} (r : Resolution) → Stray node → (walk_loops 0 node r).had_error ≡ true
  Stray-error r stray_break = unless_error-error _ r refl
  Stray-error r stray_continue = unless_error-error _ r refl
  Stray-error r (in_block s) = unless_error-error _ r (StrayIn-error r s)
  Stray-error r (in_then {t = t} {e = e} s) =
      unless_error-error _ r (walk_loops-error 0 e (walk_loops 0 t r) (Stray-error r s))
  Stray-error r (in_else s) = unless_error-error _ r (Stray-error _ s)

  StrayIn-error :
      {nodes : Nodes} (r : Resolution) → StrayIn nodes → (walk_all_loops 0 nodes r).had_error ≡ true
  StrayIn-error r (first_stray {node = node} {rest = rest} s) =
      walk_all_loops-error 0 rest (walk_loops 0 node r) (Stray-error r s)
  StrayIn-error r (later_stray s) = StrayIn-error _ s

-- Inside a loop nothing is an error.
Clean : Resolution → Type 0
Clean r = r.had_error ≡ false

unless_error-Clean :
    (walk : Resolution → Resolution) (r : Resolution)
    → (Clean r → Clean (walk r))
    → Clean r
    → Clean (unless_error walk r)
unfolding unless_error Clean
unless_error-Clean walk r h c = by-cases r.had_error refl
  where
    by-cases : (b : Bool) → r.had_error ≡ b → (if b then r else walk r).had_error ≡ false
    by-cases true e = cc
    by-cases false e = h c

deep-Clean :
    (d : ℕ) (r : Resolution) → Clean r → Clean (if suc d == 0 then resolution_error r else r)
deep-Clean d r c = let deep : (suc d == 0) ≡ false = ground arith in rw deep c

mutual
  unfolding walk_loops

  inside-Clean :
      (d : ℕ) (node : Node) (r : Resolution) → Clean r → Clean (walk_loops (suc d) node r)
  inside-Clean d break_stmt r c = unless_error-Clean _ r (deep-Clean d r) c
  inside-Clean d continue_stmt r c = unless_error-Clean _ r (deep-Clean d r) c
  inside-Clean d (block statements) r c = unless_error-Clean _ r (all_inside-Clean d statements r) c
  inside-Clean d (if_stmt _ t e) r c =
      unless_error-Clean _ r (λ c. inside-Clean d e (walk_loops (suc d) t r) (inside-Clean d t r c))
        c
  inside-Clean d (while_stmt _ body) r c = unless_error-Clean _ r (inside-Clean (suc d) body r) c
  inside-Clean d (for_stmt _ _ _ body) r c = unless_error-Clean _ r (inside-Clean (suc d) body r) c
  inside-Clean d (foreach_stmt _ _ _ _ _ _ body) r c =
      unless_error-Clean _ r (inside-Clean (suc d) body r) c
  inside-Clean d _ r c = c

  all_inside-Clean :
      (d : ℕ) (nodes : Nodes) (r : Resolution) → Clean r → Clean (walk_all_loops (suc d) nodes r)
  all_inside-Clean d nil r c = c
  all_inside-Clean d (cons node rest) r c =
      all_inside-Clean d rest (walk_loops (suc d) node r) (inside-Clean d node r c)

-- Outside loops a walk stays without an error or there is a stray break or continue.
mutual
  unfolding walk_loops

  outside : (node : Node) (r : Resolution) → Clean r → Clean (walk_loops 0 node r) ⊎ Stray node
  outside break_stmt r c = inr stray_break
  outside continue_stmt r c = inr stray_continue
  outside (block statements) r c = elim (all_outside statements r c) [
    | inl clean ↦ inl (unless_error-Clean _ r (λ c. clean) c)
    | inr s ↦ inr (in_block s)
  ]
  outside (if_stmt _ t e) r c = elim (outside t r c) [
    | inl clean ↦ elim (outside e (walk_loops 0 t r) clean) [
      | inl both ↦ inl (unless_error-Clean _ r (λ c. both) c)
      | inr s ↦ inr (in_else s)
    ]
    | inr s ↦ inr (in_then s)
  ]
  outside (while_stmt _ body) r c = inl (unless_error-Clean _ r (inside-Clean 0 body r) c)
  outside (for_stmt _ _ _ body) r c = inl (unless_error-Clean _ r (inside-Clean 0 body r) c)
  outside (foreach_stmt _ _ _ _ _ _ body) r c =
      inl (unless_error-Clean _ r (inside-Clean 0 body r) c)
  outside _ r c = inl c

  all_outside :
      (nodes : Nodes) (r : Resolution) → Clean r → Clean (walk_all_loops 0 nodes r) ⊎ StrayIn nodes
  all_outside nil r c = inl c
  all_outside (cons node rest) r c = elim (outside node r c) [
    | inl clean ↦ elim (all_outside rest (walk_loops 0 node r) clean) [
      | inl all ↦ inl all
      | inr s ↦ inr (later_stray s)
    ]
    | inr s ↦ inr (first_stray s)
  ]

-- From a table without an error the walk over loops ends in an error exactly for a statement in which
-- a walk through blocks and branches reaches a break or continue.
pub walk_loops-Stray :
    (node : Node) (r : Resolution)
    → r.had_error ≡ false
    → ((walk_loops 0 node r).had_error ≡ true) ↔ Stray node
unfolding Clean
walk_loops-Stray node r c =
    (λ h. elim (outside node r c) [ inl clean ↦ absurd (cc) | inr s ↦ s ], λ s. Stray-error r s)

-- The same for the statements of a program and the bodies of its functions.
pub data StrayProgram : Nodes → Type 0 where
  stray_statement : {node : Node} {rest : Nodes} → Stray node → StrayProgram (cons node rest)
  stray_body :
      {id : NodeId} {type : TypeSyntax} {name : Name} {parameters : Parameters} {body : Node}
      {rest : Nodes}
      → Stray body
      → StrayProgram (cons (func_decl id type name parameters body) rest)
  stray_later : {node : Node} {rest : Nodes} → StrayProgram rest → StrayProgram (cons node rest)

abbrev Failed : Resolution → Type 0
Failed r = r.had_error ≡ true

statements-Failed :
    (nodes : Nodes) (r : Resolution) → Failed r → Failed (each_statement (walk_loops 0) nodes r)
statements-Failed = each_statement-keeps Failed (walk_loops 0) (walk_loops-error 0)

abbrev loops_of : ℕ → TypeSyntax → Parameters → Node → Resolution → Resolution
loops_of _ _ _ body = walk_loops 0 body

bodies-Failed :
    (i : ℕ) (nodes : Nodes) (r : Resolution) → Failed r → Failed (each_function loops_of i nodes r)
bodies-Failed i nodes r =
    each_function-keeps Failed loops_of (i + function_total nodes)
      (λ i type parameters body r lt f. walk_loops-error 0 body r f) i nodes r (omega arith)

later_statement :
    (node : Node) (rest : Nodes) (r : Resolution)
    → ((q : Resolution) → Failed (each_statement (walk_loops 0) rest q))
    → Failed (each_statement (walk_loops 0) (cons node rest) r)
unfolding each_statement
later_statement null rest r h = h r
later_statement (func_decl _ _ _ _ _) rest r h = h r
later_statement node rest r h = h (walk_loops 0 node r)

later_body :
    (node : Node) (rest : Nodes) (i : ℕ) (r : Resolution)
    → ((j : ℕ) (q : Resolution) → Failed (each_function loops_of j rest q))
    → Failed (each_function loops_of i (cons node rest) r)
unfolding each_function
later_body (func_decl _ _ _ _ body) rest i r h = h (suc i) (walk_loops 0 body r)
later_body _ rest i r h = h i r

first_statement :
    {node : Node} (rest : Nodes) (r : Resolution)
    → Stray node
    → Failed (each_statement (walk_loops 0) (cons node rest) r)
unfolding each_statement
first_statement rest r stray_break = statements-Failed rest _ (Stray-error r stray_break)
first_statement rest r stray_continue = statements-Failed rest _ (Stray-error r stray_continue)
first_statement rest r (in_block s) = statements-Failed rest _ (Stray-error r (in_block s))
first_statement rest r (in_then s) = statements-Failed rest _ (Stray-error r (in_then s))
first_statement rest r (in_else s) = statements-Failed rest _ (Stray-error r (in_else s))

-- A stray in a statement or in a body makes one of the two loops fail.
stray-Failed :
    {nodes : Nodes}
    → StrayProgram nodes
    → ((i : ℕ) (q : Resolution) → Failed (each_function loops_of i nodes q))
      ⊎ ((q : Resolution) → Failed (each_statement (walk_loops 0) nodes q))
unfolding each_function
stray-Failed (stray_statement {rest = rest} s) = inr (λ q. first_statement rest q s)
stray-Failed (stray_body {body = body} {rest = rest} s) =
    inl (λ i q. bodies-Failed (suc i) rest (walk_loops 0 body q) (Stray-error q s))
stray-Failed (stray_later {node = node} {rest = rest} s) = elim (stray-Failed s) [
  | inl f ↦ inl (λ i q. later_body node rest i q f)
  | inr f ↦ inr (λ q. later_statement node rest q f)
]

-- A program that the resolver takes has none of these.
pub resolve_program-StrayProgram :
    (statements : Nodes)
    → (resolve_program (block statements)).had_error ≡ false
    → ¬ StrayProgram statements
unfolding resolve_program check_loops
resolve_program-StrayProgram statements h s = elim (stray-Failed s) [
  | inl f ↦ clash (f 0 _)
  | inr f ↦ clash (bodies-Failed 0 statements _ (f _))
]
  where
    clash : (resolve_program (block statements)).had_error ≡ true → ⊥
    clash e = cc
