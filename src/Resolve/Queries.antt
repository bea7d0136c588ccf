-- ===== src/Resolve/Queries.antt =====
-- Questions of the backends to the side table of src/resolve.c.
use holy_d.Prelude.{
  ℕ, zero, suc, ◌≡◌, refl, sym, ap, ◌∙◌, Bool, true, false, ◌&&◌, ◌||◌, Option, some, none, inl,
  inr, List, [], ◌∷◌, ◌==◌, ==→eq, ==_self, if◌then◌else◌, get_elem?, arith, Bool-cases,
}
use holy_d.Syntax.{Nodes, block}
use holy_d.Resolve.Table.{Storage, Symbol, Label, Binding, role_code, read_role, Resolution}
use holy_d.Resolve.Scopes.{same_storage, scope_storage}
use holy_d.Resolve.Found.{same_storage-eq}
use holy_d.Resolve.Program.{resolve_program}
use holy_d.Resolve.Apart.{resolve_program-slots, same_storage_self}

unfoldable pub has_slot : Option ℕ → ℕ → Bool
has_slot none slot = false
has_slot (some k) slot = k == slot

unfoldable pub slot_symbol_from : List Symbol → Storage → ℕ → Option Symbol
slot_symbol_from [] storage slot = none
slot_symbol_from (s ∷ rest) storage slot =
    let others = slot_symbol_from rest storage slot in
    if same_storage s.storage storage && has_slot s.slot slot then some s else others

-- HDResolutionSlotSymbol
unfoldable pub resolution_slot_symbol : Resolution → Option ℕ → ℕ → Option Symbol
resolution_slot_symbol r scope slot = slot_symbol_from r.symbols (scope_storage scope) slot

-- HDResolutionLabel
unfoldable pub resolution_label : Resolution → ℕ → Option Label
resolution_label r index = get_elem? r.labels index

unfoldable pub is_read_in : List Binding → ℕ → Bool
is_read_in [] id = false
is_read_in (b ∷ bs) id =
    b.symbol_id == id && role_code b.role == role_code read_role || is_read_in bs id

-- HDResolutionSymbolIsRead
unfoldable pub resolution_symbol_is_read : Resolution → ℕ → Bool
resolution_symbol_is_read r id = is_read_in r.bindings id

has_slot-eq : (o : Option ℕ) (slot : ℕ) → has_slot o slot ≡ true → o ≡ some slot
unfolding has_slot
has_slot-eq none slot h = cc
has_slot-eq (some k) slot h = ap some (==→eq k slot h)

-- A symbol that the first one does not hide stands behind it.
further :
    (x : Symbol) (ss : List Symbol) (storage : Storage) (slot i : ℕ) (s : Symbol)
    → get_elem? (x ∷ ss) i ≡ some s
    → s.storage ≡ storage
    → s.slot ≡ some slot
    → (same_storage x.storage storage && has_slot x.slot slot) ≡ false
    → (k : ℕ) × (get_elem? ss k ≡ some s)
unfolding has_slot
further x ss storage slot zero s h p e other =
    let is : x ≡ s = same x s h in
    let place : same_storage x.storage storage ≡ true =
      ap (λ q. same_storage q storage) (ap (λ t. t.storage) is ∙ p) ∙ same_storage_self storage in
    let held : has_slot x.slot slot ≡ true =
      ap (λ o. has_slot o slot) (ap (λ t. t.slot) is ∙ e) ∙ ==_self slot in
    absurd (clash (has_slot x.slot slot) (same_storage x.storage storage) place held other)
  where
    same : (x s : Symbol) → some x ≡ some s → x ≡ s
    same x s h = cc

    clash : (a b : Bool) → b ≡ true → a ≡ true → (b && a) ≡ false → ⊥
    clash a b h g e = ground arith
further x ss storage slot (suc i) s h p e other = (i, h)

-- Where a symbol of the place with the slot stands, the search finds one that stands somewhere.
slot_symbol_from-at :
    (ss : List Symbol) (storage : Storage) (slot i : ℕ) (s : Symbol)
    → get_elem? ss i ≡ some s
    → s.storage ≡ storage
    → s.slot ≡ some slot
    → (j : ℕ) × (t : Symbol) × (slot_symbol_from ss storage slot ≡ some t)
      × (get_elem? ss j ≡ some t)
      × (t.storage ≡ storage)
      × (t.slot ≡ some slot)
unfolding slot_symbol_from
slot_symbol_from-at [] storage slot i s h p e = cc
slot_symbol_from-at (x ∷ ss) storage slot i s h p e =
    elim (Bool-cases (same_storage x.storage storage && has_slot x.slot slot)) [
      | inl found ↦ (
        0,
        x,
        rw found refl,
        refl,
        same_storage-eq x.storage storage (ground arith),
        has_slot-eq x.slot slot (ground arith),
      )
      | inr other ↦
          let (k, behind) = further x ss storage slot i s h p e other in
          let (j, t, finds, at, place, here) = slot_symbol_from-at ss storage slot k s behind p e in
          (suc j, t, rw other finds, at, place, here)
    ]

-- In the table of a program the symbol of a scope's slot is the one that the slot was given to.
pub resolve_program-resolution_slot_symbol :
    (statements : Nodes) (scope : Option ℕ) (i slot : ℕ) (s : Symbol)
    → get_elem? (resolve_program (block statements)).symbols i ≡ some s
    → s.storage ≡ scope_storage scope
    → s.slot ≡ some slot
    → resolution_slot_symbol (resolve_program (block statements)) scope slot ≡ some s
unfolding resolution_slot_symbol
resolve_program-resolution_slot_symbol statements scope i slot s h p e =
    let (j, t, finds, at, place, here) =
      slot_symbol_from-at _ (scope_storage scope) slot i s h p e in
    let same = resolve_program-slots statements j i slot t s at h (place ∙ sym p) here e in
    finds ∙ sym at ∙ ap (get_elem? (resolve_program (block statements)).symbols) same ∙ h
