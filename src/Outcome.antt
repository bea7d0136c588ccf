-- ===== src/Outcome.antt =====
-- What a C function that can fail comes to. Every failing function of the program prints a message
-- and returns 0: that is `fail` with the message's constructor. Behaviour that C leaves undefined
-- (signed overflow, an access out of bounds, a NULL dereference) is `undefined`. `exhausted` is no
-- behaviour of the program: the fuel that a loop of the model was given ran out.
use holy_d.Prelude.{◌≡◌, refl, Bool, true, false}

pub data Outcome {ℓ} (E : Type 0) (A : Type ℓ) : Type ℓ where
  ok : A → Outcome E A
  fail : E → Outcome E A
  undefined : Outcome E A
  exhausted : Outcome E A

infixl 5 ◌>>=◌ ◌>>◌
abbrev pub ◌>>=◌ {ℓ κ} :
    {E : Type 0} {A : Type ℓ} {B : Type κ} → Outcome E A → (A → Outcome E B) → Outcome E B
ok a >>= f = f a
fail e >>= f = fail e
undefined >>= f = undefined
exhausted >>= f = exhausted

abbrev pub ◌>>◌ {ℓ} : {E : Type 0} {B : Type ℓ} → Outcome E (Unit {0}) → Outcome E B → Outcome E B
m >> k = m >>= λ _. k

-- An error return guarded by a test: go on where the test holds.
abbrev pub guard : {E : Type 0} → Bool → E → Outcome E (Unit {0})
guard true e = ok tt
guard false e = fail e

module _ {ℓ κ} {E : Type 0} {A : Type ℓ} {B : Type κ} where
  pub bind-eq-ok :
      (m : Outcome E A) (f : A → Outcome E B) {b : B}
      → (m >>= f) ≡ ok b
      → (a : A) × (m ≡ ok a) × (f a ≡ ok b)
  bind-eq-ok (ok a) f h = (a, refl, h)
  bind-eq-ok (fail e) f h = cc
  bind-eq-ok undefined f h = cc
  bind-eq-ok exhausted f h = cc

  pub bind_assoc {μ} :
      {C : Type μ} (m : Outcome E A) (f : A → Outcome E B) (g : B → Outcome E C)
      → (m >>= f >>= g) ≡ (m >>= λ a. f a >>= g)
  bind_assoc (ok a) f g = refl
  bind_assoc (fail e) f g = refl
  bind_assoc undefined f g = refl
  bind_assoc exhausted f g = refl

  pub bind_congr :
      (m : Outcome E A) {f g : A → Outcome E B} → ((a : A) → f a ≡ g a) → (m >>= f) ≡ (m >>= g)
  bind_congr m p = λ i. m >>= λ a. p a i
