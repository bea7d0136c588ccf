-- ===== src/Resolve/Gotos.antt =====
-- The passes of src/resolve.c over labels and gotos leave every goto of the table bound to its label.
use mathlib.Core.Path.{subst}
use holy_d.Prelude.{
  ℕ, zero, suc, ◌+◌, ◌≡◌, Bool, Option, some, none, inl, inr, List, [], ◌∷◌, ◌++◌, get_elem?, arith,
  refl, Bool-cases, Option-cases, if_either,
}
use holy_d.Syntax.{
  Name, NodeId, Node, null, Nodes, nil, cons, block, if_stmt, while_stmt, for_stmt, foreach_stmt,
  goto_stmt, label_stmt, func_decl,
}
use holy_d.Resolve.Table.{GotoTarget, Label, Resolution}
use holy_d.Resolve.Labels.{
  add_label, bind_goto, add_goto, find_label, may_jump, resolution_error, unless_error, walk_labels,
  walk_all_labels,
}
use holy_d.Resolve.Program.{each_statement, each_function}
use holy_d.Resolve.Binds.{
  GotoIn, goto_here, goto_block, goto_then, goto_else, goto_while, goto_initializer, goto_for,
  goto_increment, goto_foreach, GotoAmong, goto_first, goto_later, function_body, GotoOf, IsBound,
  IsBound-more, find_label-names,
}

-- The invariant of the passes over labels: every goto of the table is bound as it has to be.
unfoldable pub AllBound : Nodes → List Label → List GotoTarget → Type 0
AllBound statements labels [] = Unit {0}
AllBound statements labels (g ∷ gs) = IsBound statements labels g × AllBound statements labels gs

module _ (statements : Nodes) where
  AllBound-more :
      (ls more : List Label) (gs : List GotoTarget)
      → AllBound statements ls gs
      → AllBound statements (ls ++ more) gs
  unfolding AllBound
  AllBound-more ls more [] w = tt
  AllBound-more ls more (g ∷ gs) w =
      (IsBound-more statements ls more g w.0, AllBound-more ls more gs w.1)

  AllBound-append :
      (ls : List Label) (gs : List GotoTarget) (g : GotoTarget)
      → AllBound statements ls gs
      → IsBound statements ls g
      → AllBound statements ls (gs ++ g ∷ [])
  unfolding AllBound
  AllBound-append ls [] g w b = (b, tt)
  AllBound-append ls (x ∷ gs) g w b = (w.0, AllBound-append ls gs g w.1 b)

  pub AllBound-at :
      (ls : List Label) (gs : List GotoTarget) (i : ℕ) (g : GotoTarget)
      → AllBound statements ls gs
      → get_elem? gs i ≡ some g
      → IsBound statements ls g
  unfolding AllBound
  AllBound-at ls [] i g w e = cc
  AllBound-at ls (x ∷ gs) zero g w e = subst (IsBound statements ls) (same x g e) w.0
    where
      same : (x g : GotoTarget) → some x ≡ some g → x ≡ g
      same x g e = cc
  AllBound-at ls (x ∷ gs) (suc i) g w e = AllBound-at ls gs i g w.1 e

  unfoldable pub Targets : Resolution → Type 0
  Targets r = AllBound statements r.labels r.gotos

  add_label-Targets :
      (scope : Option ℕ) (id : NodeId) (name : Name) (frame : List NodeId) (r : Resolution)
      → Targets r
      → Targets (add_label scope id name frame r)
  unfolding Targets add_label resolution_error
  add_label-Targets scope id name frame r t = elim (Option-cases (find_label r scope name)) [
    | inl e ↦ rw (e, add_label) (AllBound-more r.labels _ r.gotos t)
    | inr (i, e) ↦ rw (e, add_label) t
  ]

  bind_goto-Targets :
      (scope : Option ℕ) (id : NodeId) (name : Name) (frame : List NodeId) (r : Resolution)
      → GotoOf statements scope id name frame
      → Targets r
      → Targets (bind_goto scope id name frame r)
  unfolding Targets bind_goto add_goto resolution_error IsBound
  bind_goto-Targets scope id name frame r o t = elim (Option-cases (find_label r scope name)) [
    | inl e ↦ rw (e, bind_goto) t
    | inr (i, e) ↦
        let (l, f, is_scope, is_name) = find_label-names r scope name i e in
        elim (Bool-cases (may_jump frame l)) [
          | inl g ↦
              let bound : IsBound statements r.labels (record { node = id; label_index = i }) =
                (scope, name, frame, l, o, f, is_scope, is_name, g) in
              rw (e, bind_goto) (rw f (rw g (AllBound-append r.labels r.gotos _ t bound)))
          | inr g ↦ rw (e, bind_goto) (rw f (rw g t))
        ]
  ]

  pub error-Targets : (r : Resolution) → Targets r → Targets (resolution_error r)
  unfolding Targets resolution_error
  error-Targets r t = t

  unless_error-Targets :
      (walk : Resolution → Resolution) (r : Resolution)
      → Targets r
      → Targets (walk r)
      → Targets (unless_error walk r)
  unfolding unless_error
  unless_error-Targets walk r t w = if_either Targets r.had_error t w

  -- A walk over a statement whose gotos are gotos of the program.
  module _ (scope : Option ℕ) (collect : Bool) where
    mutual
      unfolding walk_labels

      walk_labels-Targets :
          (frame : List NodeId) (node : Node) (r : Resolution)
          → ((id : NodeId) (name : Name) (inner : List NodeId)
              → GotoIn id name inner frame node
              → GotoOf statements scope id name inner)
          → Targets r
          → Targets (walk_labels scope collect frame node r)
      walk_labels-Targets frame (label_stmt id name) r o t =
          unless_error-Targets _ r t
            (if_either Targets collect (add_label-Targets scope id name frame r t) t)
      walk_labels-Targets frame (goto_stmt id name) r o t = unless_error-Targets _ r t (
          if_either Targets collect t
            (bind_goto-Targets scope id name frame r (o id name frame goto_here) t))
      walk_labels-Targets frame (block nodes) r o t =
          unless_error-Targets _ r t
            (walk_all_labels-Targets frame nodes r (λ i n f g. o i n f (goto_block g)) t)
      walk_labels-Targets frame (if_stmt _ then_branch else_branch) r o t =
          unless_error-Targets _ r t (
            walk_labels-Targets frame else_branch _ (λ i n f g. o i n f (goto_else g))
              (walk_labels-Targets frame then_branch r (λ i n f g. o i n f (goto_then g)) t))
      walk_labels-Targets frame (while_stmt _ body) r o t =
          unless_error-Targets _ r t
            (walk_labels-Targets frame body r (λ i n f g. o i n f (goto_while g)) t)
      walk_labels-Targets frame (for_stmt initializer _ increment body) r o t =
          unless_error-Targets _ r t (
            walk_labels-Targets frame increment _ (λ i n f g. o i n f (goto_increment g))
              (walk_labels-Targets frame body _ (λ i n f g. o i n f (goto_for g))
                (walk_labels-Targets frame initializer r (λ i n f g. o i n f (goto_initializer g))
                  t)))
      walk_labels-Targets frame (foreach_stmt id _ _ _ _ _ body) r o t =
          unless_error-Targets _ r t
            (walk_labels-Targets (id ∷ frame) body r (λ i n f g. o i n f (goto_foreach g)) t)
      walk_labels-Targets frame _ r o t = t

      walk_all_labels-Targets :
          (frame : List NodeId) (nodes : Nodes) (r : Resolution)
          → ((id : NodeId) (name : Name) (inner : List NodeId)
              → GotoAmong id name inner frame nodes
              → GotoOf statements scope id name inner)
          → Targets r
          → Targets (walk_all_labels scope collect frame nodes r)
      walk_all_labels-Targets frame nil r o t = t
      walk_all_labels-Targets frame (cons node rest) r o t =
          walk_all_labels-Targets frame rest _ (λ i n f g. o i n f (goto_later g))
            (walk_labels-Targets frame node r (λ i n f g. o i n f (goto_first g)) t)

  module _ (collect : Bool) where
    -- The walk over statements that all stand in the program, outside its functions.
    pub top-Targets :
        (nodes : Nodes) (r : Resolution)
        → ((id : NodeId) (name : Name) (inner : List NodeId)
            → GotoAmong id name inner [] nodes
            → GotoOf statements none id name inner)
        → Targets r
        → Targets (each_statement (walk_labels none collect []) nodes r)
    unfolding each_statement
    top-Targets nil r o t = t
    top-Targets (cons null rest) r o t = top-Targets rest r (λ i n f g. o i n f (goto_later g)) t
    top-Targets (cons (func_decl _ _ _ _ _) rest) r o t =
        top-Targets rest r (λ i n f g. o i n f (goto_later g)) t
    top-Targets (cons node rest) r o t =
        top-Targets rest (walk_labels none collect [] node r) (λ i n f g. o i n f (goto_later g))
          (walk_labels-Targets none collect [] node r (λ i n f g. o i n f (goto_first g)) t)

    -- The walk over the functions from the i-th on.
    pub functions-Targets :
        (i : ℕ) (nodes : Nodes) (r : Resolution)
        → ((k : ℕ) (body : Node)
            → function_body nodes k ≡ some body
            → function_body statements (i + k) ≡ some body)
        → Targets r
        → Targets (each_function (λ i _ _ body. walk_labels (some i) collect [] body) i nodes r)
    unfolding each_function function_body GotoOf
    functions-Targets i nil r o t = t
    functions-Targets i (cons (func_decl _ _ _ _ body) rest) r o t =
        let at : i + 0 ≡ i = omega arith in
        let here : function_body statements i ≡ some body =
          subst (λ p. function_body statements p ≡ some body) at (o 0 body refl) in
        functions-Targets (suc i) rest (walk_labels (some i) collect [] body r)
          (λ k b e.
            let step : i + suc k ≡ suc i + k = omega arith in
            subst (λ p. function_body statements p ≡ some b) step (o (suc k) b e))
          (walk_labels-Targets (some i) collect [] body r (λ id name inner g. (body, here, g)) t)
    functions-Targets i (cons _ rest) r o t = functions-Targets i rest r o t
