-- ===== src/Resolve/Labels.antt =====
-- The passes of src/resolve.c over statements: labels, gotos, and loops around break and continue.
use holy_d.Prelude.{
  ℕ, suc, Bool, true, false, ◌&&◌, ◌||◌, Option, some, none, List, [], ◌∷◌, ◌++◌, ◌==◌,
  if◌then◌else◌, same_bytes, get_elem?,
}
use holy_d.Syntax.{
  Name, NodeId, Node, block, if_stmt, while_stmt, for_stmt, foreach_stmt, goto_stmt, label_stmt,
  break_stmt, continue_stmt, Nodes, nil, cons,
}
use holy_d.Resolve.Table.{Label, Resolution}

unfoldable pub resolution_error : Resolution → Resolution
resolution_error r = record r { had_error = true }

unfoldable pub same_scope : Option ℕ → Option ℕ → Bool
same_scope none none = true
same_scope (some f) (some g) = f == g
same_scope _ _ = false

unfoldable pub names_label : Option ℕ → Name → Label → Bool
names_label scope name l = same_scope l.scope scope && same_bytes l.name name

unfoldable pub label_from : ℕ → List Label → Option ℕ → Name → Option ℕ
label_from i [] scope name = none
label_from i (l ∷ rest) scope name =
    let others = label_from (suc i) rest scope name in
    if names_label scope name l then some i else others

unfoldable pub find_label : Resolution → Option ℕ → Name → Option ℕ
find_label r scope name = label_from 0 r.labels scope name

-- The foreach bodies that a statement stands in, innermost first.
unfoldable pub foreach_encloses : List NodeId → NodeId → Bool
foreach_encloses [] node = false
foreach_encloses (f ∷ frame) node = f == node || foreach_encloses frame node

unfoldable pub innermost : List NodeId → Option NodeId
innermost [] = none
innermost (f ∷ frame) = some f

unfoldable pub add_label : Option ℕ → NodeId → Name → List NodeId → Resolution → Resolution
add_label scope node name frame r = elim (find_label r scope name) [
  | some _ ↦ resolution_error r
  | none ↦ record r {
    labels =
        r.labels
        ++ (record { node = node; enclosing_foreach = innermost frame; scope = scope; name = name }
            ∷ []);
  }
]

-- Whether a goto in the given foreach bodies may jump to a label.
unfoldable pub may_jump : List NodeId → Label → Bool
may_jump frame l = elim l.enclosing_foreach [ none ↦ true | some f ↦ foreach_encloses frame f ]

unfoldable pub add_goto : NodeId → ℕ → Resolution → Resolution
add_goto node index r = record r {
  gotos = r.gotos ++ (record { node = node; label_index = index } ∷ []);
}

-- The code reads the label at the index that find_label gives without a test. A goto whose index were
-- out of range is recorded as it is, so that it shows in the table.
unfoldable pub bind_goto : Option ℕ → NodeId → Name → List NodeId → Resolution → Resolution
bind_goto scope node name frame r = elim (find_label r scope name) [
  | none ↦ resolution_error r
  | some index ↦ elim (get_elem? r.labels index) [
    | none ↦ add_goto node index r
    | some label ↦ if may_jump frame label then add_goto node index r else resolution_error r
  ]
]

-- The check on `had_error` that a walk begins with.
unfoldable pub unless_error : (Resolution → Resolution) → Resolution → Resolution
unless_error walk r = if r.had_error then r else walk r

module _ (scope : Option ℕ) where
  unfoldable mutual
    pub walk_labels : Bool → List NodeId → Node → Resolution → Resolution
    walk_labels collect frame (label_stmt id name) =
        unless_error (λ r. if collect then add_label scope id name frame r else r)
    walk_labels collect frame (goto_stmt id name) =
        unless_error (λ r. if collect then r else bind_goto scope id name frame r)
    walk_labels collect frame (block statements) =
        unless_error (walk_all_labels collect frame statements)
    walk_labels collect frame (if_stmt _ then_branch else_branch) =
        unless_error
          (λ r. walk_labels collect frame else_branch (walk_labels collect frame then_branch r))
    walk_labels collect frame (while_stmt _ body) = unless_error (walk_labels collect frame body)
    walk_labels collect frame (for_stmt initializer _ increment body) = unless_error (λ r.
        walk_labels collect frame increment
          (walk_labels collect frame body (walk_labels collect frame initializer r)))
    walk_labels collect frame (foreach_stmt id _ _ _ _ _ body) =
        unless_error (walk_labels collect (id ∷ frame) body)
    walk_labels collect frame _ = λ r. r

    pub walk_all_labels : Bool → List NodeId → Nodes → Resolution → Resolution
    walk_all_labels collect frame nil r = r
    walk_all_labels collect frame (cons node rest) r =
        walk_all_labels collect frame rest (walk_labels collect frame node r)

unfoldable mutual
  pub walk_loops : ℕ → Node → Resolution → Resolution
  walk_loops depth break_stmt = unless_error (λ r. if depth == 0 then resolution_error r else r)
  walk_loops depth continue_stmt = unless_error (λ r. if depth == 0 then resolution_error r else r)
  walk_loops depth (block statements) = unless_error (walk_all_loops depth statements)
  walk_loops depth (if_stmt _ then_branch else_branch) =
      unless_error (λ r. walk_loops depth else_branch (walk_loops depth then_branch r))
  walk_loops depth (while_stmt _ body) = unless_error (walk_loops (suc depth) body)
  walk_loops depth (for_stmt _ _ _ body) = unless_error (walk_loops (suc depth) body)
  walk_loops depth (foreach_stmt _ _ _ _ _ _ body) = unless_error (walk_loops (suc depth) body)
  walk_loops depth _ = λ r. r

  pub walk_all_loops : ℕ → Nodes → Resolution → Resolution
  walk_all_loops depth nil r = r
  walk_all_loops depth (cons node rest) r = walk_all_loops depth rest (walk_loops depth node r)
