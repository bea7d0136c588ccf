-- ===== src/Vm/Frames.antt =====
-- Variables of run_chunk in src/compiler.c: reads and stores of names against frames and environment.
use holy_d.Prelude.{
  ℕ, ◌≡◌, ap, ◌∙◌, Bool, true, false, Option, none, some, [], ◌∷◌, same_bytes, same_bytes_self,
  same_bytes→eq, Bool-cases, get_elem?-set_self, get_elem?-set, Option-cases, inl, inr, arith,
}
use holy_d.Prelude.Int.{ℤ, pos, negsuc}
use holy_d.Outcome.{ok}
use holy_d.Syntax.{Name}
use holy_d.Runtime.Value.{Value}
use holy_d.Vm.Machine.{
  active_value, Machine, read_name, store_name, own_frame, environment, with_environment,
}
use holy_d.Environment.{Environment, env_get, env_set}
use holy_d.Environment.Laws.{env_get-set, env_set-cons}

env_get-env_set_self :
    (env : Environment) (name : Name) (v w : Value)
    → env_get env name ≡ some w
    → env_get (env_set env name v) name ≡ some v
unfolding env_get
env_get-env_set_self [] name v w h = cc
env_get-env_set_self (s ∷ parents) name v w h =
    ground (arith, env_get-set s parents name name v, same_bytes_self name)

environment-with_environment :
    (m : Machine) (name : Name) (v : Value)
    → environment (with_environment (env_set (environment m) name v) m)
      ≡ env_set (environment m) name v
environment-with_environment m name v = elim (Option-cases m.scope) [
  | inl e ↦ ground arith
  | inr (s, e) ↦ let shape = env_set-cons s m.world.globals name v in ground (arith, shape.2)
]

-- What the environment of the machine has after an assignment to a name that it has.
env_get-with_environment :
    (m : Machine) (name : Name) (v w : Value)
    → env_get (environment m) name ≡ some w
    → env_get (environment (with_environment (env_set (environment m) name v) m)) name ≡ some v
env_get-with_environment m name v w h =
    ap (λ env. env_get env name) (environment-with_environment m name v)
    ∙ env_get-env_set_self (environment m) name v w h

-- After a successful store to a name, reading the name in the same place gives the stored value,
-- whether the store went to its slot, to the global slot that it hides, or to the environment.
pub read_name-store_name :
    (is_local : Bool) (name : Name) (operand fallback : ℤ) (v : Value) (m m' : Machine)
    → store_name is_local name operand fallback v m ≡ ok m'
    → read_name is_local name operand fallback m' ≡ ok v
unfolding store_name read_name
read_name-store_name is_local name (pos n) (pos k) v m m' h =
    elim (Option-cases (env_get (environment m) name)) [
      | inl e ↦ ground (
        arith,
        get_elem?-set (own_frame is_local m) n n (some v),
        get_elem?-set_self (own_frame is_local m) n (some v),
        get_elem?-set m.world.global_frame k k (some v),
        get_elem?-set m.world.global_frame k n (some v),
      )
      | inr (w, e) ↦ ground (
        arith,
        env_get-with_environment m name v w e,
        get_elem?-set (own_frame is_local m) n n (some v),
        get_elem?-set_self (own_frame is_local m) n (some v),
        get_elem?-set m.world.global_frame k k (some v),
        get_elem?-set m.world.global_frame k n (some v),
      )
    ]
read_name-store_name is_local name (pos n) (negsuc k) v m m' h =
    elim (Option-cases (env_get (environment m) name)) [
      | inl e ↦ ground (
        arith,
        get_elem?-set (own_frame is_local m) n n (some v),
        get_elem?-set_self (own_frame is_local m) n (some v),
      )
      | inr (w, e) ↦ ground (
        arith,
        env_get-with_environment m name v w e,
        get_elem?-set (own_frame is_local m) n n (some v),
        get_elem?-set_self (own_frame is_local m) n (some v),
      )
    ]
read_name-store_name is_local name (negsuc n) (pos k) v m m' h =
    elim (Option-cases (env_get (environment m) name)) [
      | inl e ↦ ground (arith, get_elem?-set m.world.global_frame k k (some v))
      | inr (w, e) ↦ ground (
        arith,
        env_get-with_environment m name v w e,
        get_elem?-set m.world.global_frame k k (some v),
      )
    ]
read_name-store_name is_local name (negsuc n) (negsuc k) v m m' h =
    elim (Option-cases (env_get (environment m) name)) [
      | inl e ↦ ground (arith)
      | inr (w, e) ↦ ground (arith, env_get-with_environment m name v w e)
    ]

-- Whether a slot holds a value.
abbrev pub is_active : Option Value → Bool
is_active none = false
is_active (some _) = true

-- In both frames the slots that held a value still do and no other slot does.
store_name-slots :
    (is_local : Bool) (name : Name) (operand fallback : ℤ) (v w : Value) (m m' : Machine)
    → read_name is_local name operand fallback m ≡ ok w
    → store_name is_local name operand fallback v m ≡ ok m'
    → (of_local : Bool) (k : ℕ)
    → is_active (active_value (own_frame of_local m') (pos k))
      ≡ is_active (active_value (own_frame of_local m) (pos k))
unfolding store_name read_name
store_name-slots is_local name (pos n) (pos i) v w m m' g h of_local k = ground (
  arith,
  get_elem?-set (own_frame is_local m) n k (some v),
  get_elem?-set m.world.global_frame i k (some v),
)
store_name-slots is_local name (pos n) (negsuc i) v w m m' g h of_local k =
    ground (arith, get_elem?-set (own_frame is_local m) n k (some v))
store_name-slots is_local name (negsuc n) (pos i) v w m m' g h of_local k =
    ground (arith, get_elem?-set m.world.global_frame i k (some v))
store_name-slots is_local name (negsuc n) (negsuc i) v w m m' g h of_local k = ground arith

env_get-env_set_active :
    (env : Environment) (name : Name) (v w : Value)
    → env_get env name ≡ some w
    → (other : Name)
    → is_active (env_get (env_set env name v) other) ≡ is_active (env_get env other)
unfolding env_get
env_get-env_set_active [] name v w h other = cc
env_get-env_set_active (s ∷ parents) name v w h other = elim (Bool-cases (same_bytes name other)) [
  | inl e ↦
      let same = same_bytes→eq name other e in
      let here : env_get (s ∷ parents) other ≡ some w = rw (← same) h in
      ground (arith, env_get-set s parents name other v, here)
  | inr e ↦ ground (arith, env_get-set s parents name other v)
]

-- A name that the environment has is one that it had.
store_name-environment :
    (is_local : Bool) (name : Name) (operand fallback : ℤ) (v w : Value) (m m' : Machine)
    → read_name is_local name operand fallback m ≡ ok w
    → store_name is_local name operand fallback v m ≡ ok m'
    → (other : Name)
    → is_active (env_get (environment m') other) ≡ is_active (env_get (environment m) other)
unfolding store_name read_name
store_name-environment is_local name operand fallback v w m m' g h other =
    elim (Option-cases (env_get (environment m) name)) [
      | inl e ↦ ground arith
      | inr (x, e) ↦
          let kept =
            ap (λ env. is_active (env_get env other)) (environment-with_environment m name v)
            ∙ env_get-env_set_active (environment m) name v x e other in
          ground (arith, kept)
    ]

-- A successful store to a name that a read finds makes no new variable and drops none: in the
-- instruction's frame and in the global frame the same slots hold a value as before, and the
-- environment has the same names.
pub store_name-is_active :
    (is_local : Bool) (name : Name) (operand fallback : ℤ) (v w : Value) (m m' : Machine)
    → read_name is_local name operand fallback m ≡ ok w
    → store_name is_local name operand fallback v m ≡ ok m'
    → (of_local : Bool) (k : ℕ) (other : Name)
    → (is_active (active_value (own_frame of_local m') (pos k))
        ≡ is_active (active_value (own_frame of_local m) (pos k)))
      × (is_active (env_get (environment m') other) ≡ is_active (env_get (environment m) other))
store_name-is_active is_local name operand fallback v w m m' g h of_local k other = (
  store_name-slots is_local name operand fallback v w m m' g h of_local k,
  store_name-environment is_local name operand fallback v w m m' g h other,
)
