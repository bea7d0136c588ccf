-- ===== src/Resolve/Leaves.antt =====
-- Every break and continue of a program, and those that the check of src/resolve.c lets pass.
use holy_d.Prelude.{◌≡◌, refl, Bool, true, false, ◌||◌, not, ◌↔◌, inl, inr, Bool-cases, arith}
use holy_d.Syntax.{
  Name, NodeId, Node, block, if_stmt, while_stmt, for_stmt, foreach_stmt, break_stmt, continue_stmt,
  func_decl, constructor_decl, class_decl, Nodes, cons, TypeSyntax, Parameters,
}
use holy_d.Prelude.{Option}
use holy_d.Resolve.Table.{Resolution}
use holy_d.Resolve.Labels.{walk_loops}
use holy_d.Resolve.Program.{resolve_program}
use holy_d.Resolve.Stray.{
  Stray, stray_break, stray_continue, in_block, in_then, in_else, StrayIn, first_stray, later_stray,
  StrayProgram, stray_statement, stray_body, stray_later, walk_loops-Stray,
  resolve_program-StrayProgram,
}

-- A break or continue anywhere in a statement or in one of several: in a block, a branch, the body of
-- a loop, of a function or of a constructor, or a member of a class. The head of a for holds
-- expressions only.
mutual
  pub data Leave : Node → Type 0 where
    leave_break : Leave break_stmt
    leave_continue : Leave continue_stmt
    leave_block : {statements : Nodes} → LeaveAmong statements → Leave (block statements)
    leave_then : {c t e : Node} → Leave t → Leave (if_stmt c t e)
    leave_else : {c t e : Node} → Leave e → Leave (if_stmt c t e)
    leave_while : {c body : Node} → Leave body → Leave (while_stmt c body)
    leave_for : {i c s body : Node} → Leave body → Leave (for_stmt i c s body)
    leave_foreach :
        {id : NodeId} {value_type index_type : TypeSyntax} {value : Name} {index : Option Name}
        {array body : Node}
        → Leave body
        → Leave (foreach_stmt id value_type value index_type index array body)
    leave_function :
        {id : NodeId} {type : TypeSyntax} {name : Name} {parameters : Parameters} {body : Node}
        → Leave body
        → Leave (func_decl id type name parameters body)
    leave_constructor :
        {parameters : Parameters} {body : Node}
        → Leave body
        → Leave (constructor_decl parameters body)
    leave_member :
        {name : Name} {base : TypeSyntax} {members : Nodes}
        → LeaveAmong members
        → Leave (class_decl name base members)

  pub data LeaveAmong : Nodes → Type 0 where
    leave_first : {node : Node} {rest : Nodes} → Leave node → LeaveAmong (cons node rest)
    leave_later : {node : Node} {rest : Nodes} → LeaveAmong rest → LeaveAmong (cons node rest)

-- Whether it stands in a class, or in a function that the statement declares.
unfoldable mutual
  pub is_nested : {node : Node} → Leave node → Bool
  is_nested leave_break = false
  is_nested leave_continue = false
  is_nested (leave_block l) = is_nested_among l
  is_nested (leave_then l) = is_nested l
  is_nested (leave_else l) = is_nested l
  is_nested (leave_while l) = is_nested l
  is_nested (leave_for l) = is_nested l
  is_nested (leave_foreach l) = is_nested l
  is_nested (leave_function l) = true
  is_nested (leave_constructor l) = true
  is_nested (leave_member l) = true

  pub is_nested_among : {nodes : Nodes} → LeaveAmong nodes → Bool
  is_nested_among (leave_first l) = is_nested l
  is_nested_among (leave_later l) = is_nested_among l

-- Whether it stands in a loop of its own function: a loop around the function does not count.
unfoldable mutual
  pub has_loop : {node : Node} → Leave node → Bool
  has_loop leave_break = false
  has_loop leave_continue = false
  has_loop (leave_block l) = has_loop_among l
  has_loop (leave_then l) = has_loop l
  has_loop (leave_else l) = has_loop l
  has_loop (leave_while l) = not (is_nested l) || has_loop l
  has_loop (leave_for l) = not (is_nested l) || has_loop l
  has_loop (leave_foreach l) = not (is_nested l) || has_loop l
  has_loop (leave_function l) = has_loop l
  has_loop (leave_constructor l) = has_loop l
  has_loop (leave_member l) = has_loop_among l

  pub has_loop_among : {nodes : Nodes} → LeaveAmong nodes → Bool
  has_loop_among (leave_first l) = has_loop l
  has_loop_among (leave_later l) = has_loop_among l

mutual
  unfolding is_nested has_loop

  Leave-Stray :
      {node : Node} (l : Leave node) → is_nested l ≡ false → has_loop l ≡ false → Stray node
  Leave-Stray leave_break n h = stray_break
  Leave-Stray leave_continue n h = stray_continue
  Leave-Stray (leave_block l) n h = in_block (LeaveAmong-StrayIn l n h)
  Leave-Stray (leave_then l) n h = in_then (Leave-Stray l n h)
  Leave-Stray (leave_else l) n h = in_else (Leave-Stray l n h)
  Leave-Stray (leave_while l) n h = absurd (ground arith)
  Leave-Stray (leave_for l) n h = absurd (ground arith)
  Leave-Stray (leave_foreach l) n h = absurd (ground arith)
  Leave-Stray (leave_function l) n h = cc
  Leave-Stray (leave_constructor l) n h = cc
  Leave-Stray (leave_member l) n h = cc

  LeaveAmong-StrayIn :
      {nodes : Nodes} (l : LeaveAmong nodes)
      → is_nested_among l ≡ false
      → has_loop_among l ≡ false
      → StrayIn nodes
  LeaveAmong-StrayIn (leave_first l) n h = first_stray (Leave-Stray l n h)
  LeaveAmong-StrayIn (leave_later l) n h = later_stray (LeaveAmong-StrayIn l n h)

mutual
  unfolding is_nested has_loop

  Stray-Leave :
      {node : Node} → Stray node → (l : Leave node) × (is_nested l ≡ false) × (has_loop l ≡ false)
  Stray-Leave stray_break = (leave_break, refl, refl)
  Stray-Leave stray_continue = (leave_continue, refl, refl)
  Stray-Leave (in_block s) = let (l, n, h) = StrayIn-LeaveAmong s in (leave_block l, n, h)
  Stray-Leave (in_then s) = let (l, n, h) = Stray-Leave s in (leave_then l, n, h)
  Stray-Leave (in_else s) = let (l, n, h) = Stray-Leave s in (leave_else l, n, h)

  StrayIn-LeaveAmong :
      {nodes : Nodes}
      → StrayIn nodes
      → (l : LeaveAmong nodes) × (is_nested_among l ≡ false) × (has_loop_among l ≡ false)
  StrayIn-LeaveAmong (first_stray s) = let (l, n, h) = Stray-Leave s in (leave_first l, n, h)
  StrayIn-LeaveAmong (later_stray s) = let (l, n, h) = StrayIn-LeaveAmong s in (leave_later l, n, h)

-- From a table without an error the walk over the loops of a statement ends in an error exactly when
-- a break or continue in it has no loop around it in its own function and stands neither in a class
-- nor in a function that the statement declares. Those that do are not seen.
pub walk_loops-has_loop :
    (node : Node) (r : Resolution)
    → r.had_error ≡ false
    → ((walk_loops 0 node r).had_error ≡ true)
      ↔ ((l : Leave node) × (is_nested l ≡ false) × (has_loop l ≡ false))
walk_loops-has_loop node r c =
    let (sound, complete) = walk_loops-Stray node r c in
    (λ h. Stray-Leave (sound h), λ (l, n, h). complete (Leave-Stray l n h))

-- Whether it stands in a class of the program or in a function inside of another statement: the
-- functions among the program's own statements do not count.
unfoldable pub is_buried : {nodes : Nodes} → LeaveAmong nodes → Bool
is_buried (leave_first (leave_function l)) = is_nested l
is_buried (leave_first l) = is_nested l
is_buried (leave_later l) = is_buried l

LeaveAmong-StrayProgram :
    {nodes : Nodes} (l : LeaveAmong nodes)
    → is_buried l ≡ false
    → has_loop_among l ≡ false
    → StrayProgram nodes
unfolding is_buried has_loop
LeaveAmong-StrayProgram (leave_first (leave_function l)) n h = stray_body (Leave-Stray l n h)
LeaveAmong-StrayProgram (leave_first leave_break) n h = stray_statement stray_break
LeaveAmong-StrayProgram (leave_first leave_continue) n h = stray_statement stray_continue
LeaveAmong-StrayProgram (leave_first (leave_block l)) n h =
    stray_statement (Leave-Stray (leave_block l) n h)
LeaveAmong-StrayProgram (leave_first (leave_then l)) n h =
    stray_statement (Leave-Stray (leave_then l) n h)
LeaveAmong-StrayProgram (leave_first (leave_else l)) n h =
    stray_statement (Leave-Stray (leave_else l) n h)
LeaveAmong-StrayProgram (leave_first (leave_while l)) n h =
    stray_statement (Leave-Stray (leave_while l) n h)
LeaveAmong-StrayProgram (leave_first (leave_for l)) n h =
    stray_statement (Leave-Stray (leave_for l) n h)
LeaveAmong-StrayProgram (leave_first (leave_foreach l)) n h =
    stray_statement (Leave-Stray (leave_foreach l) n h)
LeaveAmong-StrayProgram (leave_first (leave_constructor l)) n h =
    stray_statement (Leave-Stray (leave_constructor l) n h)
LeaveAmong-StrayProgram (leave_first (leave_member l)) n h =
    stray_statement (Leave-Stray (leave_member l) n h)
LeaveAmong-StrayProgram (leave_later l) n h = stray_later (LeaveAmong-StrayProgram l n h)

-- In a program that the resolver takes, every break or continue stands in a loop of its own function,
-- unless it stands in a class or in a function that is not one of the program's own statements:
-- the resolver does not look there.
pub resolve_program-has_loop :
    (statements : Nodes)
    → (resolve_program (block statements)).had_error ≡ false
    → (l : LeaveAmong statements) → is_buried l ≡ false
    → has_loop_among l ≡ true
resolve_program-has_loop statements accepted l n = elim (Bool-cases (has_loop_among l)) [
  | inl h ↦ h
  | inr h ↦
      absurd (resolve_program-StrayProgram statements accepted (LeaveAmong-StrayProgram l n h))
]
