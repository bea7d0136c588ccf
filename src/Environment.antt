-- ===== src/Environment.antt =====
-- The Environment of src/eval.h and src/eval.c: a chain of scopes, each a list of named values with
-- the newest entry first. The innermost scope is the head of the chain.
pub mod Laws
use holy_d.Prelude.{ℕ, Bool, Option, some, none, List, [], ◌∷◌, if◌then◌else◌, same_bytes}
use holy_d.Syntax.{Name}
use holy_d.Runtime.Value.{Value}

abbrev pub Scope : Type 0
Scope = List (Name × Value)

abbrev pub Environment : Type 0
Environment = List Scope

abbrev pub env_init : Environment
env_init = [] ∷ []

-- EnvInitChild
abbrev pub env_child : Environment → Environment
env_child parent = [] ∷ parent

-- EnvFindLocal
unfoldable pub find_local : Scope → Name → Option Value
find_local [] name = none
find_local ((key, v) ∷ rest) name = if same_bytes key name then some v else find_local rest name

-- The write through the entry that EnvFindLocal finds.
unfoldable pub update_local : Scope → Name → Value → Scope
update_local [] name v = []
update_local ((key, w) ∷ rest) name v =
    if same_bytes key name then (key, v) ∷ rest else (key, w) ∷ update_local rest name v

abbrev pub define_in : Scope → Name → Value → Scope
define_in scope name v = elim (find_local scope name) [
  | some _ ↦ update_local scope name v
  | none ↦ (name, v) ∷ scope
]

-- EnvDefine. An environment has a scope of its own always.
unfoldable pub env_define : Environment → Name → Value → Environment
unfolding find_local update_local
env_define [] name v = []
env_define (scope ∷ parents) name v = define_in scope name v ∷ parents

-- EnvGet
unfoldable pub env_get : Environment → Name → Option Value
unfolding find_local
env_get [] name = none
env_get (scope ∷ parents) name = elim (find_local scope name) [
  | some v ↦ some v
  | none ↦ env_get parents name
]

-- The loop of EnvSet: the chain with the nearest entry of the name written, if it has one.
unfoldable pub set_nearest : Environment → Name → Value → Option Environment
unfolding find_local update_local
set_nearest [] name v = none
set_nearest (scope ∷ parents) name v = elim (find_local scope name) [
  | some _ ↦ some (update_local scope name v ∷ parents)
  | none ↦ elim (set_nearest parents name v) [ none ↦ none | some ps ↦ some (scope ∷ ps) ]
]

-- EnvSet
unfoldable pub env_set : Environment → Name → Value → Environment
unfolding set_nearest env_define
env_set env name v = elim (set_nearest env name v) [
  | some env' ↦ env'
  | none ↦ env_define env name v
]
