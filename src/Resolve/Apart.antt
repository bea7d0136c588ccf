-- ===== src/Resolve/Apart.antt =====
-- The numbers that HDResolveProgram of src/resolve.c gives: positions, slots and bindings.
use mathlib.Core.Path.{subst}
use holy_d.Prelude.{
  get_elem?-bound, ℕ, zero, suc, ◌+◌, ◌<◌, ◌≡◌, refl, sym, ap, ◌∙◌, true, Option, some, none, inl,
  inr, List, [], ◌∷◌, ◌++◌, if◌then◌else◌, length, get_elem?, take, map, arith, length-append,
  Bool-cases, ◌==◌, ==→eq, ==_self, ltb, ltb→lt, ◌⊎◌,
}
use holy_d.Syntax.{Nodes, block}
use holy_d.Resolve.Table.{
  Storage, global_storage, external_storage, local_storage, Symbol, Binding, ResolvedFunction,
  Resolution, resolution_symbol,
}
use holy_d.Resolve.Scopes.{same_storage}
use holy_d.Resolve.Program.{resolve_program}
use holy_d.Resolve.Slots.{Key, key_of, keys, count, count-append, nth_slot, Ordered}
use holy_d.Resolve.Invariant.{InPlace, WellFormed, length-keys, get_elem?-lt}
use holy_d.Resolve.Keeps.{Bound}
use holy_d.Resolve.Numbered.{resolve_program-Sound}

-- A symbol of an ordered table has its position for an identifier and counts its place for a slot.
Ordered-at :
    (before ks : List Key) (i : ℕ) (k : Key)
    → Ordered before ks
    → get_elem? ks i ≡ some k
    → (k.id ≡ length before + i)
      × (k.slot ≡ nth_slot k.storage (count k.storage before + count k.storage (take i ks)))
unfolding Ordered count
Ordered-at before [] i k o h = cc
Ordered-at before (x ∷ ks) zero k o h =
    let same : x ≡ k = found x k h in
    rw (← same) (o.0 ∙ omega arith, o.1 ∙ ap (nth_slot x.storage) (omega arith))
  where
    found : (x k : Key) → some x ≡ some k → x ≡ k
    found x k h = cc
Ordered-at before (x ∷ ks) (suc i) k o h =
    let (id, slot) = Ordered-at (before ++ x ∷ []) ks i k o.3 h in
    (
      id ∙ omega (arith, length-append before (x ∷ [])),
      slot ∙ ap (nth_slot k.storage) (omega (arith, count-append k.storage before (x ∷ []))),
    )

-- A symbol is counted in its place behind its position.
count-take :
    (storage : Storage) (ks : List Key) (i j : ℕ) (k : Key)
    → get_elem? ks i ≡ some k
    → same_storage k.storage storage ≡ true
    → i < j
    → count storage (take i ks) < count storage (take j ks)
unfolding count
count-take storage [] i j k h e lt = cc
count-take storage (x ∷ ks) i zero k h e lt = absurd (omega arith)
count-take storage (x ∷ ks) zero (suc j) k h e lt = ground arith
count-take storage (x ∷ ks) (suc i) (suc j) k h e lt =
    omega (arith, count-take storage ks i j k h e (omega arith))

keys-at :
    (ss : List Symbol) (i : ℕ) (s : Symbol)
    → get_elem? ss i ≡ some s
    → get_elem? (map key_of ss) i ≡ some (key_of s)
keys-at [] i s h = cc
keys-at (x ∷ ss) zero s h = ap (λ o. elim o [ none ↦ none | some t ↦ some (key_of t) ]) h
keys-at (x ∷ ss) (suc i) s h = keys-at ss i s h

pub same_storage_self : (a : Storage) → same_storage a a ≡ true
unfolding same_storage
same_storage_self global_storage = refl
same_storage_self external_storage = refl
same_storage_self (local_storage f) = ==_self f

compare-cases : (i j : ℕ) → (i < j) ⊎ ((i ≡ j) ⊎ (j < i))
compare-cases i j = elim (Bool-cases (ltb i j)) [
  | inl e ↦ inl (ltb→lt i j e)
  | inr e ↦ elim (Bool-cases (i == j)) [
    | inl k ↦ inr (inl (==→eq i j k))
    | inr k ↦ inr (inr (ground arith))
  ]
]

nth_slot-inj :
    (storage : Storage) (a b k : ℕ)
    → nth_slot storage a ≡ some k
    → nth_slot storage b ≡ some k
    → a ≡ b
unfolding nth_slot
nth_slot-inj global_storage a b k h g = ground arith
nth_slot-inj external_storage a b k h g = cc
nth_slot-inj (local_storage f) a b k h g = ground arith

-- The slot that a symbol of the table has: none for a runtime name, and for the others one of the
-- slots that are counted for the global frame or for the frame of the symbol's function.
unfoldable pub HasSlot : Resolution → Storage → Option ℕ → Type 0
HasSlot r external_storage slot = slot ≡ none
HasSlot r global_storage slot = (k : ℕ) × (slot ≡ some k) × k < r.global_slot_count
HasSlot r (local_storage f) slot =
    (function : ResolvedFunction) × (get_elem? r.functions f ≡ some function)
    × (k : ℕ) × (slot ≡ some k)
    × k < function.frame_slot_count

-- A slot below the number of its place's symbols is one of its frame's.
nth_slot-HasSlot :
    {n : ℕ} (r : Resolution) (storage : Storage) (a : ℕ)
    → WellFormed n r
    → InPlace n storage
    → a < count storage (keys r)
    → HasSlot r storage (nth_slot storage a)
unfolding HasSlot InPlace nth_slot
nth_slot-HasSlot r global_storage a w i lt = (a, refl, omega (arith, w.globals))
nth_slot-HasSlot r external_storage a w i lt = refl
nth_slot-HasSlot r (local_storage f) a w i lt =
    let (function, e) = get_elem?-lt r.functions f (omega (arith, w.function_count)) in
    (function, e, a, refl, omega (arith, w.frames f function e))

count-all :
    (storage : Storage) (ks : List Key) → count storage (take (length ks) ks) ≡ count storage ks
unfolding count
count-all storage [] = refl
count-all storage (k ∷ ks) =
    ap (λ c. (if same_storage k.storage storage then 1 else 0) + c) (count-all storage ks)

Bound-at :
    (m : ℕ) (bs : List Binding) (i : ℕ) (b : Binding)
    → Bound m bs
    → get_elem? bs i ≡ some b
    → b.symbol_id < m
unfolding Bound
Bound-at m [] i b h e = cc
Bound-at m (x ∷ bs) zero b h e =
    let is : x.symbol_id ≡ b.symbol_id = same x b e in omega (arith, h.0)
  where
    same : (x b : Binding) → some x ≡ some b → x.symbol_id ≡ b.symbol_id
    same x b e = cc
Bound-at m (x ∷ bs) (suc i) b h e = Bound-at m bs i b h.1 e

module _ (statements : Nodes) where
  abbrev table : Resolution
  table = resolve_program (block statements)

  at :
      (i : ℕ) (s : Symbol)
      → get_elem? table.symbols i ≡ some s
      → (s.id ≡ i) × (s.slot ≡ nth_slot s.storage (count s.storage (take i (keys table))))
  unfolding count
  at i s h =
      let (id, slot) =
        Ordered-at [] (keys table) i (key_of s)
          (resolve_program-Sound statements).well_formed.ordered (keys-at table.symbols i s h) in
      (id ∙ omega arith, slot ∙ ap (nth_slot s.storage) (omega arith))

  apart-lt :
      (i j k : ℕ) (s t : Symbol)
      → get_elem? table.symbols i ≡ some s
      → get_elem? table.symbols j ≡ some t
      → s.storage ≡ t.storage
      → s.slot ≡ some k
      → t.slot ≡ some k
      → i < j
      → ⊥
  apart-lt i j k s t hi hj same si tj lt =
      let counted =
        count-take s.storage (keys table) i j (key_of s) (keys-at table.symbols i s hi)
          (same_storage_self s.storage) lt in
      let first = sym (at i s hi).1 ∙ si in
      let second : nth_slot s.storage (count s.storage (take j (keys table))) ≡ some k =
        rw same (sym (at j t hj).1 ∙ tj) in
      let equal = nth_slot-inj s.storage _ _ k first second in omega arith

  -- In the table of a program two symbols of one place that have the same slot are the same symbol.
  pub resolve_program-slots :
      (i j k : ℕ) (s t : Symbol)
      → get_elem? (resolve_program (block statements)).symbols i ≡ some s
      → get_elem? (resolve_program (block statements)).symbols j ≡ some t
      → s.storage ≡ t.storage
      → s.slot ≡ some k
      → t.slot ≡ some k
      → i ≡ j
  resolve_program-slots i j k s t hi hj same si tj = elim (compare-cases i j) [
    | inl less ↦ absurd (apart-lt i j k s t hi hj same si tj less)
    | inr (inl e) ↦ e
    | inr (inr more) ↦ absurd (apart-lt j i k t s hj hi (sym same) tj si more)
  ]

  -- In the table of a program every symbol's identifier is its position. A runtime name has no slot;
  -- a global has one of the slots that are counted for globals; a local belongs to a function of the
  -- table and has one of the slots that are counted for that function's frame.
  pub resolve_program-HasSlot :
      (i : ℕ) (s : Symbol)
      → get_elem? (resolve_program (block statements)).symbols i ≡ some s
      → (s.id ≡ i) × HasSlot (resolve_program (block statements)) s.storage s.slot
  resolve_program-HasSlot i s h =
      let sound = (resolve_program-Sound statements).well_formed in
      let key = keys-at table.symbols i s h in
      let here = get_elem?-bound table.symbols i s h in
      let counted =
        count-take s.storage (keys table) i (length (keys table)) (key_of s) key
          (same_storage_self s.storage) (omega (arith, length-keys table.symbols)) in
      let all = count-all s.storage (keys table) in
      (
        (at i s h).0,
        subst (HasSlot table s.storage) (sym (at i s h).1) (
            nth_slot-HasSlot table s.storage _ sound (sound.places i (key_of s) key) (omega arith)),
      )

  -- In the table of a program every binding names a symbol, under the identifier that the symbol
  -- has.
  pub resolve_program-resolution_symbol :
      (i : ℕ) (b : Binding)
      → get_elem? (resolve_program (block statements)).bindings i ≡ some b
      → (s : Symbol) × (resolution_symbol (resolve_program (block statements)) b.symbol_id ≡ some s)
        × (s.id ≡ b.symbol_id)
  resolve_program-resolution_symbol i b h =
      let lt = Bound-at _ table.bindings i b (resolve_program-Sound statements).bound h in
      let (s, e) = get_elem?-lt table.symbols b.symbol_id lt in (s, e, (at b.symbol_id s e).0)
