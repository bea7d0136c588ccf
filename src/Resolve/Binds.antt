-- ===== src/Resolve/Binds.antt =====
-- Where the gotos of a program stand, and the step of src/resolve.c that binds one to its label.
use holy_d.Prelude.{
  ℕ, zero, suc, ◌+◌, ◌≡◌, refl, ap, ◌∙◌, true, Option, some, none, inl, inr, List, [], ◌∷◌, ◌++◌,
  get_elem?, get_elem?-bound, get_elem?-append_left, arith, Bool-cases, same_bytes, same_bytes→eq,
  ==→eq,
}
use holy_d.Syntax.{
  Name, NodeId, Node, Nodes, nil, cons, block, if_stmt, while_stmt, for_stmt, foreach_stmt,
  goto_stmt, func_decl, TypeSyntax,
}
use holy_d.Resolve.Table.{GotoTarget, Label, Resolution}
use holy_d.Resolve.Labels.{same_scope, names_label, label_from, find_label, may_jump}

-- A goto to a name, at the node `id`, in a statement or in one of several. The statement stands in
-- the foreach bodies `outer`, innermost first, and the goto in `frame`.
mutual
  pub data GotoIn : NodeId → Name → List NodeId → List NodeId → Node → Type 0 where
    goto_here :
        {id : NodeId} {name : Name} {frame : List NodeId}
        → GotoIn id name frame frame (goto_stmt id name)
    goto_block :
        {id : NodeId} {name : Name} {frame outer : List NodeId} {statements : Nodes}
        → GotoAmong id name frame outer statements
        → GotoIn id name frame outer (block statements)
    goto_then :
        {id : NodeId} {name : Name} {frame outer : List NodeId} {c t e : Node}
        → GotoIn id name frame outer t
        → GotoIn id name frame outer (if_stmt c t e)
    goto_else :
        {id : NodeId} {name : Name} {frame outer : List NodeId} {c t e : Node}
        → GotoIn id name frame outer e
        → GotoIn id name frame outer (if_stmt c t e)
    goto_while :
        {id : NodeId} {name : Name} {frame outer : List NodeId} {c body : Node}
        → GotoIn id name frame outer body
        → GotoIn id name frame outer (while_stmt c body)
    goto_initializer :
        {id : NodeId} {name : Name} {frame outer : List NodeId} {i c s body : Node}
        → GotoIn id name frame outer i
        → GotoIn id name frame outer (for_stmt i c s body)
    goto_for :
        {id : NodeId} {name : Name} {frame outer : List NodeId} {i c s body : Node}
        → GotoIn id name frame outer body
        → GotoIn id name frame outer (for_stmt i c s body)
    goto_increment :
        {id : NodeId} {name : Name} {frame outer : List NodeId} {i c s body : Node}
        → GotoIn id name frame outer s
        → GotoIn id name frame outer (for_stmt i c s body)
    goto_foreach :
        {id : NodeId} {name : Name} {frame outer : List NodeId} {loop : NodeId}
        {value_type index_type : TypeSyntax} {value : Name} {index : Option Name}
        {array body : Node}
        → GotoIn id name frame (loop ∷ outer) body
        → GotoIn id name frame outer
            (foreach_stmt loop value_type value index_type index array body)

  pub data GotoAmong : NodeId → Name → List NodeId → List NodeId → Nodes → Type 0 where
    goto_first :
        {id : NodeId} {name : Name} {frame outer : List NodeId} {node : Node} {rest : Nodes}
        → GotoIn id name frame outer node
        → GotoAmong id name frame outer (cons node rest)
    goto_later :
        {id : NodeId} {name : Name} {frame outer : List NodeId} {node : Node} {rest : Nodes}
        → GotoAmong id name frame outer rest
        → GotoAmong id name frame outer (cons node rest)

-- The body of a function that the statements declare, by its position among the functions.
unfoldable pub function_body : Nodes → ℕ → Option Node
function_body nil i = none
function_body (cons (func_decl _ _ _ _ body) rest) zero = some body
function_body (cons (func_decl _ _ _ _ body) rest) (suc i) = function_body rest i
function_body (cons _ rest) i = function_body rest i

-- A goto in the statements outside the functions, or in the body of a function.
unfoldable pub GotoOf : Nodes → Option ℕ → NodeId → Name → List NodeId → Type 0
GotoOf statements none id name frame = GotoAmong id name frame [] statements
GotoOf statements (some i) id name frame =
    (body : Node) × (function_body statements i ≡ some body) × GotoIn id name frame [] body

-- A goto of the table is one of the program, and the label at its index is of the same function
-- and name; the foreach body that the label is recorded in, if there is one, holds the goto, too.
unfoldable pub IsBound : Nodes → List Label → GotoTarget → Type 0
IsBound statements labels g =
    (scope : Option ℕ) × (name : Name) × (frame : List NodeId) × (label : Label) × GotoOf statements
      scope g.node name frame
    × (get_elem? labels g.label_index ≡ some label)
    × (label.scope ≡ scope)
    × (label.name ≡ name)
    × (may_jump frame label ≡ true)

-- The search gives the position of a label of that scope and name.
label_from-names :
    (i k : ℕ) (ls : List Label) (scope : Option ℕ) (name : Name)
    → label_from i ls scope name ≡ some k
    → (j : ℕ) × (l : Label) × (k ≡ i + j)
      × (get_elem? ls j ≡ some l)
      × (names_label scope name l ≡ true)
unfolding label_from
label_from-names i k [] scope name h = cc
label_from-names i k (l ∷ ls) scope name h = elim (Bool-cases (names_label scope name l)) [
  | inl e ↦ (0, l, ground arith, refl, e)
  | inr e ↦
      let further : label_from (suc i) ls scope name ≡ some k = ground arith in
      let (j, l, at, is, names) = label_from-names (suc i) k ls scope name further in
      (suc j, l, omega (arith, at), is, names)
]

same_scope→eq : (a b : Option ℕ) → same_scope a b ≡ true → a ≡ b
unfolding same_scope
same_scope→eq none none h = refl
same_scope→eq none (some g) h = cc
same_scope→eq (some f) none h = cc
same_scope→eq (some f) (some g) h = ap some (==→eq f g h)

names_label-eq :
    (scope : Option ℕ) (name : Name) (l : Label)
    → names_label scope name l ≡ true
    → (l.scope ≡ scope) × (l.name ≡ name)
unfolding names_label
names_label-eq scope name l h =
    let places : same_scope l.scope scope ≡ true = ground arith in
    let names : same_bytes l.name name ≡ true = ground arith in
    (same_scope→eq l.scope scope places, same_bytes→eq l.name name names)

pub find_label-names :
    (r : Resolution) (scope : Option ℕ) (name : Name) (k : ℕ)
    → find_label r scope name ≡ some k
    → (l : Label) × (get_elem? r.labels k ≡ some l) × (l.scope ≡ scope) × (l.name ≡ name)
unfolding find_label
find_label-names r scope name k h =
    let (j, l, at, is, names) = label_from-names 0 k r.labels scope name h in
    let here : k ≡ j = omega (arith, at) in
    let (scopes, same_name) = names_label-eq scope name l names in
    (l, ap (get_elem? r.labels) here ∙ is, scopes, same_name)

-- Further labels leave a goto bound.
pub IsBound-more :
    (statements : Nodes) (ls more : List Label) (g : GotoTarget)
    → IsBound statements ls g
    → IsBound statements (ls ++ more) g
unfolding IsBound
IsBound-more statements ls more g (scope, name, frame, l, o, is, scopes, names, jump) =
    let kept =
      get_elem?-append_left ls more g.label_index (get_elem?-bound ls g.label_index l is) in
    (scope, name, frame, l, o, kept ∙ is, scopes, names, jump)
