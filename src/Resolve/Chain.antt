-- ===== src/Resolve/Chain.antt =====
-- The turns of link_fallbacks of src/resolve.c that link a symbol, and the whole loop.
use mathlib.Core.Path.{subst}
use holy_d.Prelude.{
  ℕ, ◌<◌, ◌≡◌, refl, sym, ap, ◌∙◌, true, false, some, inl, inr, get_elem?, arith, Bool-cases, ◌==◌,
  ==→eq,
}
use holy_d.Syntax.{Name}
use holy_d.Resolve.Table.{Storage, Symbol, Resolution}
use holy_d.Resolve.Scopes.{change_symbol}
use holy_d.Resolve.Collect.{has_fallback, fallback_for, link_symbol}
use holy_d.Resolve.Found.{Stands, SameView, Grown}
use holy_d.Resolve.Fallbacks.{same_symbol, changed_self, changed_other}
use holy_d.Resolve.Linked.{rank, Outer, Falls, fallback_for-Outer, State, external-has_fallback}

-- A write of a symbol's fallback.
abbrev pub linked_to : ℕ → Symbol → Symbol
linked_to target s = record s { fallback = some target }

module _ (i target : ℕ) (q : Resolution) (old : Symbol)
    (here : get_elem? q.symbols i ≡ some old) where
  -- Names and places stay where they are when a fallback is written.
  Stands-linked :
      (at : ℕ) (name : Name) (place : Storage)
      → Stands q.symbols at name place
      → Stands (change_symbol i (linked_to target) q).symbols at name place
  Stands-linked at name place s = elim (Bool-cases (i == at)) [
    | inl e ↦
        let same = ==→eq i at e in
        let is : old ≡ s.symbol =
          same_symbol old s.symbol (sym here ∙ ap (get_elem? q.symbols) same ∙ s.here) in
        record {
          symbol = linked_to target old;
          here =
              ap (get_elem? (change_symbol i (linked_to target) q).symbols) (sym same)
              ∙ changed_self i (linked_to target) q old here;
          name_is = ap (λ x. x.name) is ∙ s.name_is;
          storage_is = ap (λ x. x.storage) is ∙ s.storage_is;
        }
    | inr e ↦ record {
      symbol = s.symbol;
      here =
          changed_other i (linked_to target) q old here at (λ same. absurd (ground arith)) ∙ s.here;
      name_is = s.name_is;
      storage_is = s.storage_is;
    }
  ]

  Outer-linked :
      (at : ℕ) (name : Name) (bound : ℕ)
      → Outer q at name bound
      → Outer (change_symbol i (linked_to target) q) at name bound
  Outer-linked at name bound o = record {
    place = o.place;
    stands = Stands-linked at name o.place o.stands;
    outer = o.outer;
  }

-- A symbol further out stays there while the table grows.
Outer-Grown :
    (r q : Resolution) (at : ℕ) (name : Name) (bound : ℕ)
    → Grown r q
    → Outer r at name bound
    → Outer q at name bound
Outer-Grown r q at name bound g o =
    let t = g.stays at o.stands.symbol o.stands.here in
    record {
      place = o.place;
      stands = record {
        symbol = t.symbol;
        here = t.here;
        name_is = t.name_is ∙ o.stands.name_is;
        storage_is = t.storage_is ∙ o.stands.storage_is;
      };
      outer = o.outer;
    }

Falls-view : (q : Resolution) (s t : Symbol) → SameView s t → Falls q s → Falls q t
Falls-view q s t v f = record {
  target = f.target;
  fallback_is = v.fallback_same ∙ f.fallback_is;
  behind =
      subst (λ p. Outer q f.target p (rank t.storage)) (sym v.name_same)
        (subst (λ p. Outer q f.target s.name (rank p)) (sym v.storage_same) f.behind);
}

pub link_symbol-turn :
    (i : ℕ) (s : Symbol) (r : Resolution)
    → has_fallback s ≡ true
    → link_symbol i s r ≡ change_symbol i (linked_to (fallback_for s r).0) (fallback_for s r).1
unfolding link_symbol
link_symbol-turn i s r f = rw (f, link_symbol) refl

pub link_symbol-none :
    (i : ℕ) (s : Symbol) (r : Resolution) → has_fallback s ≡ false → link_symbol i s r ≡ r
unfolding link_symbol
link_symbol-none i s r f = rw (f, link_symbol) refl

module _ {n start : ℕ} (i : ℕ) (s : Symbol) (r : Resolution) (h : get_elem? r.symbols i ≡ some s)
    (f : has_fallback s ≡ true) (st : State n start i r) where
  abbrev pub target : ℕ
  target = (fallback_for s r).0

  abbrev pub q : Resolution
  q = (fallback_for s r).1

  abbrev pub after : Resolution
  after = change_symbol i (linked_to target) q

  pub grown : Grown r q
  grown = (fallback_for-Outer s r st.sound f).0

  pub old : Stands q.symbols i s.name s.storage
  old = grown.stays i s h

  pub new : get_elem? after.symbols i ≡ some (linked_to target old.symbol)
  new = changed_self i (linked_to target) q old.symbol old.here

  pub other : (k : ℕ) → (i == k) ≡ false → get_elem? after.symbols k ≡ get_elem? q.symbols k
  other k e =
      changed_other i (linked_to target) q old.symbol old.here k (λ same. absurd (ground arith))

  -- The symbol itself falls back to what was found for it.
  pub self-Falls : Falls after (linked_to target old.symbol)
  self-Falls = record {
    target = target;
    fallback_is = refl;
    behind =
        Outer-linked i target q old.symbol old.here target old.symbol.name (rank old.symbol.storage)
          (subst (λ p. Outer q target p (rank old.symbol.storage)) (sym old.name_is)
            (subst (λ p. Outer q target s.name (rank p)) (sym old.storage_is)
              (fallback_for-Outer s r st.sound f).1));
  }

  -- Symbols that were linked before fall back as they did.
  pub other-Falls :
      (k : ℕ) (t : Symbol)
      → get_elem? q.symbols k ≡ some t
      → k < i
      → has_fallback t ≡ true
      → Falls after t
  other-Falls k t g lt needs = elim (grown.kept k t g) [
    | inl (u, at, v) ↦
        let falls = st.linked k u at lt (sym v.needs_same ∙ needs) in
        Falls-view after u t v (record {
          target = falls.target;
          fallback_is = falls.fallback_is;
          behind =
              Outer-linked i target q old.symbol old.here falls.target u.name (rank u.storage)
                (Outer-Grown r q falls.target u.name (rank u.storage) grown falls.behind);
        })
    | inr (le, external) ↦ absurd (clash (sym (external-has_fallback t external) ∙ needs))
  ]
    where
      clash : false ≡ true → ⊥
      clash e = cc
