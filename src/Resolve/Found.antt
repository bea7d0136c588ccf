-- ===== src/Resolve/Found.antt =====
-- What the searches and additions of src/resolve.c find and leave of the symbols.
use holy_d.Prelude.{
  ℕ, suc, ◌+◌, ◌≤◌, ◌≡◌, refl, sym, ap, ◌∙◌, true, ◌&&◌, ◌⊎◌, some, inl, inr, List, [], ◌∷◌, ◌++◌,
  length, get_elem?, map, arith, length-append, Bool-cases, ==→eq, same_bytes, same_bytes→eq,
}
use holy_d.Syntax.{Name}
use holy_d.Resolve.Table.{
  Storage, global_storage, external_storage, local_storage, Symbol, Resolution,
}
use holy_d.Resolve.Scopes.{same_storage, find_symbol}
use holy_d.Resolve.Collect.{has_fallback}
use holy_d.Resolve.Slots.{Key, key_of, Ordered}
use holy_d.Resolve.Keeps.{Sound}

pub same_storage-eq : (a b : Storage) → same_storage a b ≡ true → a ≡ b
unfolding same_storage
same_storage-eq global_storage global_storage h = refl
same_storage-eq global_storage external_storage h = cc
same_storage-eq global_storage (local_storage f) h = cc
same_storage-eq external_storage global_storage h = cc
same_storage-eq external_storage external_storage h = refl
same_storage-eq external_storage (local_storage f) h = cc
same_storage-eq (local_storage f) global_storage h = cc
same_storage-eq (local_storage f) external_storage h = cc
same_storage-eq (local_storage f) (local_storage g) h = ap local_storage (==→eq f g h)

-- A symbol that stands at a position.
pub record Stands (ss : List Symbol) (at : ℕ) (name : Name) (storage : Storage) : Type 0 where
  pub symbol : Symbol
  pub here : get_elem? ss at ≡ some symbol
  pub name_is : symbol.name ≡ name
  pub storage_is : symbol.storage ≡ storage

find_from-Stands :
    (before : List Key) (ss : List Symbol) (name : Name) (storage : Storage) (id : ℕ)
    → Ordered before (map key_of ss)
    → find_symbol ss name storage ≡ some id
    → (j : ℕ) × (id ≡ length before + j) × Stands ss j name storage
unfolding find_symbol Ordered
find_from-Stands before [] name storage id o h = cc
find_from-Stands before (s ∷ ss) name storage id o h =
    elim (Bool-cases (same_storage s.storage storage && same_bytes s.name name)) [
      | inl e ↦
          let is : s.id ≡ id = ground arith in
          (
            0,
            sym is ∙ o.0 ∙ omega arith,
            record {
              symbol = s;
              here = refl;
              name_is = same_bytes→eq s.name name (ground arith);
              storage_is = same_storage-eq s.storage storage (ground arith);
            },
          )
      | inr e ↦
          let further : find_symbol ss name storage ≡ some id = ground arith in
          let (j, at, t) =
            find_from-Stands (before ++ key_of s ∷ []) ss name storage id o.3 further in
          (
            suc j,
            omega (arith, at, length-append before (key_of s ∷ [])),
            record {
              symbol = t.symbol;
              here = t.here;
              name_is = t.name_is;
              storage_is = t.storage_is;
            },
          )
    ]

-- The search finds the position of a symbol of the name in the place.
pub find_symbol-Stands :
    {n : ℕ} (r : Resolution) (name : Name) (storage : Storage) (id : ℕ)
    → Sound n r
    → find_symbol r.symbols name storage ≡ some id
    → Stands r.symbols id name storage
find_symbol-Stands r name storage id s h =
    let (j, at, t) = find_from-Stands [] r.symbols name storage id s.well_formed.ordered h in
    let same : id ≡ j = omega (arith, at) in rw same t

-- What a symbol shows to the reads that fall back through it.
pub record SameView (s t : Symbol) : Type 0 where
  pub name_same : t.name ≡ s.name
  pub storage_same : t.storage ≡ s.storage
  pub fallback_same : t.fallback ≡ s.fallback
  pub needs_same : has_fallback t ≡ has_fallback s

-- Every symbol keeps its position and what it shows; later ones are runtime names, one at most.
pub record Grown (r q : Resolution) : Type 0 where
  pub kept :
      (k : ℕ) (t : Symbol)
      → get_elem? q.symbols k ≡ some t
      → ((s : Symbol) × (get_elem? r.symbols k ≡ some s) × SameView s t)
        ⊎ ((length r.symbols ≤ k) × (t.storage ≡ external_storage))
  pub stays :
      (k : ℕ) (s : Symbol) → get_elem? r.symbols k ≡ some s → Stands q.symbols k s.name s.storage
  pub size : length q.symbols ≤ suc (length r.symbols)

pub Grown-self : (r : Resolution) → Grown r r
Grown-self r = record {
  kept = λ k t h. inl (
    t,
    h,
    record { name_same = refl; storage_same = refl; fallback_same = refl; needs_same = refl },
  );
  stays = λ k s h. record { symbol = s; here = h; name_is = refl; storage_is = refl };
  size = omega arith;
}
