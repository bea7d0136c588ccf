-- ===== src/Resolve/Fallbacks.antt =====
-- The loop of link_fallbacks of src/resolve.c: every symbol that a read may fall through gets a
-- symbol to fall back to, which stands further out.
use mathlib.Core.Path.{subst}
use holy_d.Prelude.{
  get_elem?-bound, ℕ, zero, suc, ◌≡◌, ◌≢◌, refl, sym, ap, ◌∙◌, false, ◌⊎◌, some, none, inl, inr,
  List, [], ◌∷◌, ◌++◌, length, get_elem?, set, arith, length-append, Bool-cases, Option-cases, ◌==◌,
  ==→eq, get_elem?-set_self, get_elem?-set_ne, get_elem?-append_left, get_elem?-append_at,
}
use holy_d.Syntax.{Name}
use holy_d.Resolve.Table.{external_storage, Symbol, Resolution}
use holy_d.Resolve.Scopes.{
  find_symbol, renewed, change_symbol, count_slot, new_symbol, add_symbol, ensure_external,
  no_flags,
}
use holy_d.Resolve.Collect.{has_fallback}
use holy_d.Resolve.Keeps.{Sound, change_symbol-length}
use holy_d.Resolve.Found.{Stands, SameView, Grown, find_symbol-Stands}

change_symbol-symbols :
    (id : ℕ) (f : Symbol → Symbol) (r : Resolution) (s : Symbol)
    → get_elem? r.symbols id ≡ some s
    → (change_symbol id f r).symbols ≡ set r.symbols id (f s)
unfolding change_symbol
change_symbol-symbols id f r s h = rw (h, change_symbol) refl

pub same_symbol : (s t : Symbol) → some s ≡ some t → s ≡ t
same_symbol s t h = cc

module _ (id : ℕ) (f : Symbol → Symbol) (r : Resolution) (s : Symbol)
    (h : get_elem? r.symbols id ≡ some s) where
  -- The symbol that was changed and the others behind a change.
  pub changed_self : get_elem? (change_symbol id f r).symbols id ≡ some (f s)
  changed_self =
      rw (change_symbol-symbols id f r s h)
        (get_elem?-set_self r.symbols id (f s) (get_elem?-bound r.symbols id s h))

  pub changed_other :
      (k : ℕ) → id ≢ k → get_elem? (change_symbol id f r).symbols k ≡ get_elem? r.symbols k
  changed_other k ne =
      rw (change_symbol-symbols id f r s h) (get_elem?-set_ne r.symbols id k (f s) ne)

  change_symbol-Grown : SameView s (f s) → Grown r (change_symbol id f r)
  change_symbol-Grown v = record {
    kept = λ k t g. elim (Bool-cases (id == k)) [
      | inl e ↦
          let at = ==→eq id k e in
          let is : f s ≡ t =
            same_symbol (f s) t
              (sym changed_self ∙ ap (get_elem? (change_symbol id f r).symbols) at ∙ g) in
          inl (s, ap (get_elem? r.symbols) (sym at) ∙ h, subst (SameView s) is v)
      | inr e ↦ inl (
        t,
        sym (changed_other k (apart k e)) ∙ g,
        record { name_same = refl; storage_same = refl; fallback_same = refl; needs_same = refl },
      )
    ];
    stays = λ k t g. elim (Bool-cases (id == k)) [
      | inl e ↦
          let at = ==→eq id k e in
          let is : s ≡ t = same_symbol s t (sym h ∙ ap (get_elem? r.symbols) at ∙ g) in
          record {
            symbol = f s;
            here = ap (get_elem? (change_symbol id f r).symbols) (sym at) ∙ changed_self;
            name_is = v.name_same ∙ ap (λ x. x.name) is;
            storage_is = v.storage_same ∙ ap (λ x. x.storage) is;
          }
      | inr e ↦ record {
        symbol = t;
        here = changed_other k (apart k e) ∙ g;
        name_is = refl;
        storage_is = refl;
      }
    ];
    size = omega (arith, change_symbol-length id f r);
  }
    where
      apart : (k : ℕ) → (id == k) ≡ false → id ≢ k
      apart k e same = absurd (ground arith)

snoc-cases :
    (xs : List Symbol) (x : Symbol) (k : ℕ) (t : Symbol)
    → get_elem? (xs ++ x ∷ []) k ≡ some t
    → (get_elem? xs k ≡ some t) ⊎ ((k ≡ length xs) × (x ≡ t))
snoc-cases [] x zero t h = inr (refl, same_symbol x t h)
snoc-cases [] x (suc k) t h = cc
snoc-cases (y ∷ xs) x zero t h = inl h
snoc-cases (y ∷ xs) x (suc k) t h = elim (snoc-cases xs x k t h) [
  | inl old ↦ inl old
  | inr (at, is) ↦ inr (ap suc at, is)
]

-- A new runtime name at the end of the table.
snoc-Grown :
    (r q : Resolution) (x : Symbol)
    → q.symbols ≡ r.symbols ++ x ∷ []
    → x.storage ≡ external_storage
    → Grown r q
snoc-Grown r q x e external = record {
  kept = λ k t h. elim (snoc-cases r.symbols x k t (ap (λ ss. get_elem? ss k) (sym e) ∙ h)) [
    | inl old ↦ inl (
      t,
      old,
      record { name_same = refl; storage_same = refl; fallback_same = refl; needs_same = refl },
    )
    | inr (at, is) ↦ inr (omega (arith, at), ap (λ s. s.storage) (sym is) ∙ external)
  ];
  stays = λ k s h. record {
    symbol = s;
    here =
        ap (λ ss. get_elem? ss k) e
        ∙ get_elem?-append_left r.symbols (x ∷ []) k (get_elem?-bound r.symbols k s h)
        ∙ h;
    name_is = refl;
    storage_is = refl;
  };
  size = omega (arith, ap length e, length-append r.symbols (x ∷ []));
}

-- A runtime name shows nothing that a second request could change.
renewed-SameView :
    (s : Symbol) → s.storage ≡ external_storage → SameView s (renewed no_flags none s)
unfolding renewed has_fallback
renewed-SameView s e = record {
  name_same = refl;
  storage_same = refl;
  fallback_same = refl;
  needs_same = rw e refl;
}

pub ensure_external-Grown :
    {n : ℕ} (name : Name) (r : Resolution)
    → Sound n r
    → Grown r (ensure_external name r).1
      × Stands (ensure_external name r).1.symbols (ensure_external name r).0 name external_storage
unfolding ensure_external add_symbol new_symbol count_slot
ensure_external-Grown name r s = elim (Option-cases (find_symbol r.symbols name external_storage)) [
  | inl e ↦
      rw (e, ensure_external, add_symbol)
        (
          snoc-Grown r _ _ refl refl,
          record {
            symbol = _;
            here = get_elem?-append_at r.symbols _ [];
            name_is = refl;
            storage_is = refl;
          },
        )
  | inr (id, e) ↦
      let t = find_symbol-Stands r name external_storage id s e in
      rw (e, ensure_external, add_symbol)
        (
          change_symbol-Grown id (renewed no_flags none) r t.symbol t.here
              (renewed-SameView t.symbol t.storage_is),
          record {
            symbol = renewed no_flags none t.symbol;
            here = changed_self id (renewed no_flags none) r t.symbol t.here;
            name_is = (renewed-SameView t.symbol t.storage_is).name_same ∙ t.name_is;
            storage_is = (renewed-SameView t.symbol t.storage_is).storage_same ∙ t.storage_is;
          },
        )
]
