-- ===== src/Resolve/Linked.antt =====
-- link_fallbacks of src/resolve.c as a whole: the chain of fallbacks of a name comes to an end.
use holy_d.Prelude.{
  ℕ, suc, ◌+◌, ◌≤◌, ◌<◌, ◌≡◌, refl, sym, ap, ◌∙◌, true, false, some, none, inl, inr, length,
  get_elem?, arith, Bool-cases, Option-cases, ◌==◌, ==→eq,
}
use holy_d.Syntax.{Name}
use holy_d.Resolve.Table.{
  Storage, global_storage, external_storage, local_storage, Symbol, Resolution,
}
use holy_d.Resolve.Scopes.{find_symbol, ensure_external}
use holy_d.Resolve.Collect.{global_behind, has_fallback, fallback_for}
use holy_d.Resolve.Keeps.{Sound}
use holy_d.Resolve.Found.{Stands, Grown, Grown-self, find_symbol-Stands}
use holy_d.Resolve.Fallbacks.{ensure_external-Grown, same_symbol}

-- How far in a place is: runtime names outermost, then globals, then locals.
unfoldable pub rank : Storage → ℕ
rank external_storage = 0
rank global_storage = 1
rank (local_storage _) = 2

-- A symbol of the name that stands further out.
pub record Outer (r : Resolution) (at : ℕ) (name : Name) (bound : ℕ) : Type 0 where
  pub place : Storage
  pub stands : Stands r.symbols at name place
  pub outer : rank place < bound

-- The symbol's fallback is a symbol of its name that stands further out.
pub record Falls (r : Resolution) (s : Symbol) : Type 0 where
  pub target : ℕ
  pub fallback_is : s.fallback ≡ some target
  pub behind : Outer r target s.name (rank s.storage)

-- The case of a name that falls back to the runtime.
external-Outer :
    {n : ℕ} (s : Symbol) (r : Resolution)
    → Sound n r
    → 0 < rank s.storage
    → Grown r (ensure_external s.name r).1
      × Outer (ensure_external s.name r).1 (ensure_external s.name r).0 s.name (rank s.storage)
unfolding rank
external-Outer s r sound h =
    let (grown, stands) = ensure_external-Grown s.name r sound in
    (grown, record { place = external_storage; stands = stands; outer = h })

pub fallback_for-Outer :
    {n : ℕ} (s : Symbol) (r : Resolution)
    → Sound n r
    → has_fallback s ≡ true
    → Grown r (fallback_for s r).1
      × Outer (fallback_for s r).1 (fallback_for s r).0 s.name (rank s.storage)
unfolding fallback_for has_fallback global_behind rank
fallback_for-Outer s r sound h = by-storage s.storage refl
  where
    by-storage :
        (p : Storage)
        → s.storage ≡ p
        → Grown r (fallback_for s r).1
          × Outer (fallback_for s r).1 (fallback_for s r).0 s.name (rank s.storage)
    by-storage external_storage e = absurd (ground arith)
    by-storage global_storage e =
        let none_behind : global_behind s r ≡ none = rw e refl in
        rw (none_behind, fallback_for) (external-Outer s r sound (rw e (omega arith)))
    by-storage (local_storage f) e =
        elim (Option-cases (find_symbol r.symbols s.name global_storage)) [
          | inl none_found ↦
              let none_behind : global_behind s r ≡ none = rw e none_found in
              rw (none_behind, fallback_for) (external-Outer s r sound (rw e (omega arith)))
          | inr (id, found) ↦
              let behind : global_behind s r ≡ some id = rw e found in
              rw (behind, fallback_for)
                (
                  Grown-self r,
                  record {
                    place = global_storage;
                    stands = find_symbol-Stands r s.name global_storage id sound found;
                    outer = rw e (omega arith);
                  },
                )
        ]

-- A table that is linked below a position of the loop, which began with so many symbols.
pub record State (n start i : ℕ) (r : Resolution) : Type 0 where
  pub sound : Sound n r
  pub linked :
      (k : ℕ) (s : Symbol)
      → get_elem? r.symbols k ≡ some s
      → k < i
      → has_fallback s ≡ true
      → Falls r s
  pub runtime :
      (k : ℕ) (s : Symbol)
      → get_elem? r.symbols k ≡ some s
      → start ≤ k
      → s.storage ≡ external_storage
  pub within : length r.symbols ≤ start + i
  pub total : length r.symbols ≤ start + start

pub external-has_fallback : (s : Symbol) → s.storage ≡ external_storage → has_fallback s ≡ false
unfolding has_fallback
external-has_fallback s e = rw e refl

-- A turn in front of a symbol that needs no fallback.
pub State-skip :
    {n start : ℕ} (i : ℕ) (s : Symbol) (r : Resolution)
    → get_elem? r.symbols i ≡ some s
    → has_fallback s ≡ false
    → State n start i r
    → State n start (suc i) r
State-skip i s r h f st = record {
  sound = st.sound;
  linked = λ k t g lt needs. elim (Bool-cases (i == k)) [
    | inl e ↦
        let is : s ≡ t = same_symbol s t (sym h ∙ ap (get_elem? r.symbols) (==→eq i k e) ∙ g) in
        absurd (clash (sym f ∙ ap has_fallback is ∙ needs))
    | inr e ↦ st.linked k t g (ground arith) needs
  ];
  runtime = st.runtime;
  within = omega (arith, st.within);
  total = st.total;
}
  where
    clash : false ≡ true → ⊥
    clash e = cc
