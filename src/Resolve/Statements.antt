-- ===== src/Resolve/Statements.antt =====
-- What the passes of src/resolve.c over labels and loops keep that every single step keeps.
use holy_d.Prelude.{if_either, ℕ, suc, Bool, Option, List, ◌∷◌, ◌==◌}
use holy_d.Syntax.{
  Name, NodeId, Node, block, if_stmt, while_stmt, for_stmt, foreach_stmt, goto_stmt, label_stmt,
  break_stmt, continue_stmt, Nodes, nil, cons,
}
use holy_d.Resolve.Table.{Resolution}
use holy_d.Resolve.Labels.{
  resolution_error, unless_error, add_label, bind_goto, walk_labels, walk_all_labels, walk_loops,
  walk_all_loops,
}

module _ (P : Resolution → Type 0) where
  unless_error-keeps :
      (walk : Resolution → Resolution) (r : Resolution) → P r → P (walk r) → P (unless_error walk r)
  unfolding unless_error
  unless_error-keeps walk r p q = if_either P r.had_error p q

  module _ (scope : Option ℕ)
      (labels : (id : NodeId) (name : Name) (frame : List NodeId) (r : Resolution)
        → P r
        → P (add_label scope id name frame r))
      (gotos : (id : NodeId) (name : Name) (frame : List NodeId) (r : Resolution)
        → P r
        → P (bind_goto scope id name frame r)) where
    mutual
      unfolding walk_labels

      pub walk_labels-keeps :
          (collect : Bool) (frame : List NodeId) (node : Node) (r : Resolution)
          → P r
          → P (walk_labels scope collect frame node r)
      walk_labels-keeps collect frame (label_stmt id name) r p =
          unless_error-keeps _ r p (if_either P collect (labels id name frame r p) p)
      walk_labels-keeps collect frame (goto_stmt id name) r p =
          unless_error-keeps _ r p (if_either P collect p (gotos id name frame r p))
      walk_labels-keeps collect frame (block statements) r p =
          unless_error-keeps _ r p (walk_all_labels-keeps collect frame statements r p)
      walk_labels-keeps collect frame (if_stmt _ then_branch else_branch) r p =
          unless_error-keeps _ r p (
            walk_labels-keeps collect frame else_branch _
              (walk_labels-keeps collect frame then_branch r p))
      walk_labels-keeps collect frame (while_stmt _ body) r p =
          unless_error-keeps _ r p (walk_labels-keeps collect frame body r p)
      walk_labels-keeps collect frame (for_stmt initializer _ increment body) r p =
          unless_error-keeps _ r p (
            walk_labels-keeps collect frame increment _ (
              walk_labels-keeps collect frame body _
                (walk_labels-keeps collect frame initializer r p)))
      walk_labels-keeps collect frame (foreach_stmt id _ _ _ _ _ body) r p =
          unless_error-keeps _ r p (walk_labels-keeps collect (id ∷ frame) body r p)
      walk_labels-keeps collect frame _ r p = p

      pub walk_all_labels-keeps :
          (collect : Bool) (frame : List NodeId) (nodes : Nodes) (r : Resolution)
          → P r
          → P (walk_all_labels scope collect frame nodes r)
      walk_all_labels-keeps collect frame nil r p = p
      walk_all_labels-keeps collect frame (cons node rest) r p =
          walk_all_labels-keeps collect frame rest _ (walk_labels-keeps collect frame node r p)

  module _ (errors : (r : Resolution) → P r → P (resolution_error r)) where
    mutual
      unfolding walk_loops

      pub walk_loops-keeps :
          (depth : ℕ) (node : Node) (r : Resolution) → P r → P (walk_loops depth node r)
      walk_loops-keeps depth break_stmt r p =
          unless_error-keeps _ r p (if_either P (depth == 0) (errors r p) p)
      walk_loops-keeps depth continue_stmt r p =
          unless_error-keeps _ r p (if_either P (depth == 0) (errors r p) p)
      walk_loops-keeps depth (block statements) r p =
          unless_error-keeps _ r p (walk_all_loops-keeps depth statements r p)
      walk_loops-keeps depth (if_stmt _ then_branch else_branch) r p =
          unless_error-keeps _ r p
            (walk_loops-keeps depth else_branch _ (walk_loops-keeps depth then_branch r p))
      walk_loops-keeps depth (while_stmt _ body) r p =
          unless_error-keeps _ r p (walk_loops-keeps (suc depth) body r p)
      walk_loops-keeps depth (for_stmt _ _ _ body) r p =
          unless_error-keeps _ r p (walk_loops-keeps (suc depth) body r p)
      walk_loops-keeps depth (foreach_stmt _ _ _ _ _ _ body) r p =
          unless_error-keeps _ r p (walk_loops-keeps (suc depth) body r p)
      walk_loops-keeps depth _ r p = p

      pub walk_all_loops-keeps :
          (depth : ℕ) (nodes : Nodes) (r : Resolution) → P r → P (walk_all_loops depth nodes r)
      walk_all_loops-keeps depth nil r p = p
      walk_all_loops-keeps depth (cons node rest) r p =
          walk_all_loops-keeps depth rest _ (walk_loops-keeps depth node r p)
