-- ===== src/Environment/Laws.antt =====
-- What a lookup in the Environment of src/eval.c finds after a definition or an assignment.
use holy_d.Prelude.{
  ◌≡◌, refl, ap, true, false, some, none, [], ◌∷◌, if◌then◌else◌, same_bytes, arith, same_bytes→eq,
  Bool-cases, inl, inr, Option-cases,
}
use holy_d.Syntax.{Name}
use holy_d.Runtime.Value.{Value}
use holy_d.Environment.{
  Scope, Environment, find_local, update_local, define_in, env_define, env_get, set_nearest,
  env_set,
}

-- A key and two names that agree on it.
same_bytes_trans : (k a b : Name) → same_bytes k a ≡ true → same_bytes k b ≡ same_bytes a b
same_bytes_trans k a b h = rw (same_bytes→eq k a h)

same_bytes_agree :
    (k a b : Name) → same_bytes k a ≡ false → same_bytes k b ≡ true → same_bytes a b ≡ false
same_bytes_agree k a b h g = elim (Bool-cases (same_bytes a b)) [
  | inl e ↦ cc (ap (λ t. same_bytes k t) (same_bytes→eq a b e))
  | inr e ↦ e
]

find_local-update :
    (s : Scope) (a b : Name) (v w : Value)
    → find_local s a ≡ some w
    → find_local (update_local s a v) b ≡ (if same_bytes a b then some v else find_local s b)
unfolding find_local update_local
find_local-update [] a b v w h = cc
find_local-update ((k, u) ∷ s) a b v w h = elim (Bool-cases (same_bytes k a)) [
  | inl e ↦ rw e (ground (arith, same_bytes_trans k a b e))
  | inr e ↦ ground (arith, find_local-update s a b v w, same_bytes_agree k a b e)
]

-- Defining a name in a scope makes it the value of that name and of no other.
pub find_local-define :
    (s : Scope) (a b : Name) (v : Value)
    → find_local (define_in s a v) b ≡ (if same_bytes a b then some v else find_local s b)
unfolding find_local
find_local-define s a b v = elim (Option-cases (find_local s a)) [
  | inl e ↦ ground arith
  | inr (w, e) ↦ ground (arith, find_local-update s a b v w e)
]

-- After EnvDefine in the innermost scope a lookup of the name, wherever else it is bound, finds the
-- new value, and a lookup of any other name finds what it found before.
pub env_get-define :
    (s : Scope) (parents : Environment) (a b : Name) (v : Value)
    → env_get (env_define (s ∷ parents) a v) b
      ≡ (if same_bytes a b then some v else env_get (s ∷ parents) b)
unfolding env_get env_define
env_get-define s parents a b v = ground (arith, find_local-define s a b v)

unbound :
    (s : Scope) (a b : Name) → find_local s a ≡ none → same_bytes a b ≡ true → find_local s b ≡ none
unbound s a b h e = rw (← same_bytes→eq a b e) h

-- The nearest scope that binds the name is the one that is written.
env_get-set_nearest :
    (env env' : Environment) (a b : Name) (v : Value)
    → set_nearest env a v ≡ some env'
    → env_get env' b ≡ (if same_bytes a b then some v else env_get env b)
unfolding set_nearest env_get
env_get-set_nearest [] env' a b v h = cc
env_get-set_nearest (s ∷ parents) env' a b v h = elim (Option-cases (find_local s a)) [
  | inl e ↦ elim (Option-cases (set_nearest parents a v)) [
    | inl f ↦ ground arith
    | inr (ps, f) ↦ ground (arith, env_get-set_nearest parents ps a b v f, unbound s a b e)
  ]
  | inr (w, e) ↦ ground (arith, find_local-update s a b v w e)
]

env_set_found :
    (env env' : Environment) (a : Name) (v : Value)
    → set_nearest env a v ≡ some env'
    → env_set env a v ≡ env'
unfolding env_set
env_set_found env env' a v e = ground arith

env_set_missing :
    (env : Environment) (a : Name) (v : Value)
    → set_nearest env a v ≡ none
    → env_set env a v ≡ env_define env a v
unfolding env_set
env_set_missing env a v e = ground arith

-- After EnvSet a lookup of the name finds the new value, in whichever scope it was written, and a
-- lookup of any other name finds what it found before.
pub env_get-set :
    (s : Scope) (parents : Environment) (a b : Name) (v : Value)
    → env_get (env_set (s ∷ parents) a v) b
      ≡ (if same_bytes a b then some v else env_get (s ∷ parents) b)
env_get-set s parents a b v = elim (Option-cases (set_nearest (s ∷ parents) a v)) [
  | inl e ↦ rw (env_set_missing (s ∷ parents) a v e) (env_get-define s parents a b v)
  | inr (env', e) ↦
      rw (env_set_found (s ∷ parents) env' a v e) (env_get-set_nearest (s ∷ parents) env' a b v e)
]

set_nearest-total :
    (env : Environment) (a : Name) (v w : Value)
    → env_get env a ≡ some w
    → (env' : Environment) × (set_nearest env a v ≡ some env')
unfolding set_nearest env_get
set_nearest-total [] a v w h = cc
set_nearest-total (s ∷ parents) a v w h = elim (Option-cases (find_local s a)) [
  | inl e ↦ let (ps, f) = set_nearest-total parents a v w (ground arith) in (s ∷ ps, ground arith)
  | inr (u, e) ↦ (update_local s a v ∷ parents, ground arith)
]

set_nearest-none :
    (env : Environment) (a : Name) (v : Value) → env_get env a ≡ none → set_nearest env a v ≡ none
unfolding set_nearest env_get
set_nearest-none [] a v h = refl
set_nearest-none (s ∷ parents) a v h = elim (Option-cases (find_local s a)) [
  | inl e ↦ ground (arith, set_nearest-none parents a v)
  | inr (u, e) ↦ ground arith
]

-- An assignment does not change how many scopes there are.
pub env_set-cons :
    (s : Scope) (parents : Environment) (a : Name) (v : Value)
    → (s' : Scope) × (ps : Environment) × (env_set (s ∷ parents) a v ≡ s' ∷ ps)
unfolding env_set set_nearest env_define
env_set-cons s parents a v = elim (Option-cases (find_local s a)) [
  | inl e ↦ elim (Option-cases (set_nearest parents a v)) [
    | inl f ↦ ((a, v) ∷ s, parents, ground arith)
    | inr (ps, f) ↦ (s, ps, ground arith)
  ]
  | inr (w, e) ↦ (update_local s a v, parents, ground arith)
]

-- An assignment to a name that the innermost scope does not bind: if an outer scope binds it, the
-- outer ones are assigned to and the innermost one stays as it is; otherwise the innermost one
-- defines it.
pub env_set_scoping :
    (s : Scope) (parents : Environment) (a : Name) (v : Value)
    → find_local s a ≡ none
    → env_set (s ∷ parents) a v ≡ elim (env_get parents a) [
      | none ↦ ((a, v) ∷ s) ∷ parents
      | some _ ↦ s ∷ env_set parents a v
    ]
unfolding env_set set_nearest env_get env_define
env_set_scoping s parents a v h = elim (Option-cases (env_get parents a)) [
  | inl e ↦ ground (arith, set_nearest-none parents a v e)
  | inr (w, e) ↦ let (ps, f) = set_nearest-total parents a v w e in ground arith
]
