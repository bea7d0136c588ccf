-- ===== src/Vm/Steps.antt =====
-- Rounds of run_chunk of src/compiler.c as a relation: from a machine, in a bounded number of rounds,
-- to another machine or to the error that stops the program.
use holy_d.Prelude.{
  ℕ, zero, suc, ◌+◌, ◌≤◌, ◌<◌, ◌≡◌, refl, Option, some, List, [], ◌∷◌, ◌++◌, length, get_elem?,
  get_elem?-append_at, append_assoc, length-append, arith,
}
use holy_d.Outcome.{ok, fail, undefined, exhausted, ◌>>=◌}
use holy_d.Syntax.{Name}
use holy_d.Runtime.Value.{Host, Value, Run, Fault}
use holy_d.Vm.Bytecode.{Chunk, Function}
use holy_d.Vm.Machine.{World, Machine}
use holy_d.Vm.Step.{Native, Next, going, round, run_rounds}

-- The instructions of `c` stand in the chunk from `at` on.
abbrev pub At : Chunk → ℕ → Chunk → Type 0
At chunk at [] = Unit
At chunk at (ins ∷ c) = (get_elem? chunk at ≡ some ins) × At chunk (at + 1) c

pub At-move : (chunk c : Chunk) (a b : ℕ) → a ≡ b → At chunk a c → At chunk b c
At-move chunk c a b e h = rw (← e) h

pub At-append_left : (chunk : Chunk) (at : ℕ) (c d : Chunk) → At chunk at (c ++ d) → At chunk at c
At-append_left chunk at [] d h = tt
At-append_left chunk at (ins ∷ c) d h = (h.0, At-append_left chunk (at + 1) c d h.1)

pub At-append_right :
    (chunk : Chunk) (at : ℕ) (c d : Chunk) → At chunk at (c ++ d) → At chunk (at + length c) d
At-append_right chunk at [] d h = At-move chunk d at (at + 0) (omega arith) h
At-append_right chunk at (ins ∷ c) d h =
    At-move chunk d (at + 1 + length c) (at + suc (length c)) (omega arith)
      (At-append_right chunk (at + 1) c d h.1)

pub At-chunk : (a b c : Chunk) (at : ℕ) → a ≡ b → At a at c → At b at c
At-chunk a b c at e h = rw (← e) h

-- A piece of a chunk stands in it behind what comes before.
pub At-here : (before c : Chunk) → At (before ++ c) (length before) c
At-here before [] = tt
At-here before (ins ∷ c) = (
  get_elem?-append_at before ins c,
  At-chunk _ _ c (length before + 1) (append_assoc before (ins ∷ []) c) (
      At-move _ c (length (before ++ ins ∷ [])) (length before + 1)
        (omega (arith, length-append {0})) (At-here (before ++ ins ∷ []) c)),
)

module _ ⦃host : Host⦄ (natives : Name → Option Native) (functions : List Function) where
  module _ (run : Chunk → Machine → Run (Value × World)) (depth : ℕ) (chunk : Chunk) where
    abbrev pub one_round : Machine → Run Next
    one_round m = round natives functions run depth chunk m

    -- In at most `n` rounds.
    pub data Steps : ℕ → Machine → Run Machine → Type 0 where
      done : (n : ℕ) (m : Machine) → Steps n m (ok m)
      next :
          (n k : ℕ) {m m' : Machine} {o : Run Machine}
          → k < n
          → one_round m ≡ ok (going m')
          → Steps k m' o
          → Steps n m o
      fails : (n : ℕ) {m : Machine} {e : Fault} → 0 < n → one_round m ≡ fail e → Steps n m (fail e)
      goes_wrong : (n : ℕ) {m : Machine} → 0 < n → one_round m ≡ undefined → Steps n m undefined
      runs_out : (n : ℕ) {m : Machine} → 0 < n → one_round m ≡ exhausted → Steps n m exhausted

    pub Steps-mono :
        {n : ℕ} {m : Machine} {o : Run Machine} (n' : ℕ) → n ≤ n' → Steps n m o → Steps n' m o
    Steps-mono n' h (done n m) = done n' m
    Steps-mono n' h (next n k lt e rest) = next n' k (omega arith) e rest
    Steps-mono n' h (fails n lt e) = fails n' (omega arith) e
    Steps-mono n' h (goes_wrong n lt e) = goes_wrong n' (omega arith) e
    Steps-mono n' h (runs_out n lt e) = runs_out n' (omega arith) e

    Steps-move : {n : ℕ} {m m' : Machine} {o : Run Machine} → m ≡ m' → Steps n m' o → Steps n m o
    Steps-move e h = rw e h

    -- The rounds to a machine, and then those from it.
    pub Steps-trans :
        {a b : ℕ} {m m' : Machine} {p o : Run Machine}
        → Steps a m p
        → p ≡ ok m'
        → Steps b m' o
        → Steps (a + b) m o
    Steps-trans (done n m) e rest = Steps-mono _ (omega arith) (Steps-move (cc) rest)
    Steps-trans (next n k lt e rest) h more = next _ _ (omega arith) e (Steps-trans rest h more)
    Steps-trans (fails n lt e) h more = cc
    Steps-trans (goes_wrong n lt e) h more = cc
    Steps-trans (runs_out n lt e) h more = cc

    -- A piece whose outcome is `p`, and a second one that goes on from its machine.
    pub Steps-bind :
        {a b : ℕ} {m : Machine} (p : Run Machine) {f : Machine → Run Machine}
        → Steps a m p
        → ((m' : Machine) → p ≡ ok m' → Steps b m' (f m'))
        → Steps (a + b) m (p >>= f)
    Steps-bind (ok m') h k = Steps-trans h refl (k m' refl)
    Steps-bind (fail e) h k = Steps-mono _ (omega arith) h
    Steps-bind undefined h k = Steps-mono _ (omega arith) h
    Steps-bind exhausted h k = Steps-mono _ (omega arith) h

    -- One instruction that does not end the activation.
    pub Steps-one :
        {m : Machine} (p : Run Machine) → one_round m ≡ (p >>= λ m'. ok (going m')) → Steps 1 m p
    Steps-one (ok m') h = next 1 0 (omega arith) h (done 0 m')
    Steps-one (fail e) h = fails 1 (omega arith) h
    Steps-one undefined h = goes_wrong 1 (omega arith) h
    Steps-one exhausted h = runs_out 1 (omega arith) h

    -- The rounds of the loop follow the relation: with more rounds than it needs, the loop goes on
    -- from the machine that it reaches, with rounds left, or stops with the same error.
    pub run_rounds-Steps :
        {n : ℕ} {m : Machine} {p : Run Machine} (fuel : ℕ)
        → Steps n m p
        → n < fuel
        → (left : ℕ) × (0 < left)
          × (run_rounds natives functions fuel one_round m
              ≡ (p >>= run_rounds natives functions left one_round))
    run_rounds-Steps zero h lt = absurd (omega arith)
    run_rounds-Steps (suc fuel) (done n m) lt = (suc fuel, omega arith, refl)
    run_rounds-Steps (suc fuel) (next n k less e rest) lt =
        rw (e, run_rounds) (run_rounds-Steps fuel rest (omega arith))
    run_rounds-Steps (suc fuel) (fails n less e) lt = (1, omega arith, rw (e, run_rounds) refl)
    run_rounds-Steps (suc fuel) (goes_wrong n less e) lt = (1, omega arith, rw (e, run_rounds) refl)
    run_rounds-Steps (suc fuel) (runs_out n less e) lt = (1, omega arith, rw (e, run_rounds) refl)
