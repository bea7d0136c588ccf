-- ===== src/Resolve/Slots.antt =====
-- The symbols of src/resolve.c in their order: identifiers and slots count what stands before.
use holy_d.Prelude.{
  ℕ, ◌+◌, ◌≡◌, refl, Bool, false, ◌&&◌, ◌||◌, Option, some, none, List, [], ◌∷◌, ◌++◌,
  if◌then◌else◌, map, length, same_bytes, arith, append_assoc, append-nil,
}
use holy_d.Syntax.{Name}
use holy_d.Resolve.Table.{Storage, external_storage, Symbol, Resolution}
use holy_d.Resolve.Scopes.{same_storage, find_symbol}

-- What of a symbol never changes once it is in the table.
pub record Key : Type 0 where
  pub id : ℕ
  pub slot : Option ℕ
  pub storage : Storage
  pub name : Name

abbrev pub key_of : Symbol → Key
key_of s = record { id = s.id; slot = s.slot; storage = s.storage; name = s.name }

abbrev pub keys : Resolution → List Key
keys r = map key_of r.symbols

-- How many symbols stand in a place.
unfoldable pub count : Storage → List Key → ℕ
count storage [] = 0
count storage (k ∷ ks) = (if same_storage k.storage storage then 1 else 0) + count storage ks

-- The slot of a place's n-th symbol: a runtime name has none.
unfoldable pub nth_slot : Storage → ℕ → Option ℕ
nth_slot external_storage n = none
nth_slot _ n = some n

-- Whether a name has a symbol in a place.
unfoldable pub known : Name → Storage → List Key → Bool
known name storage [] = false
known name storage (k ∷ ks) =
    same_storage k.storage storage && same_bytes k.name name || known name storage ks

-- Each symbol's identifier is its position, its slot the number of symbols of its place before it,
-- and its name new to its place.
unfoldable pub Ordered : List Key → List Key → Type 0
Ordered before [] = Unit {0}
Ordered before (k ∷ ks) =
    (k.id ≡ length before)
    × (k.slot ≡ nth_slot k.storage (count k.storage before))
    × (known k.name k.storage before ≡ false)
    × Ordered (before ++ k ∷ []) ks

pub Ordered-snoc :
    (before ks : List Key) (k : Key)
    → Ordered before ks
    → Ordered (before ++ ks) (k ∷ [])
    → Ordered before (ks ++ k ∷ [])
unfolding Ordered
Ordered-snoc before [] k o n = rw (← (append-nil before)) n
Ordered-snoc before (j ∷ ks) k o n = (
  o.0,
  o.1,
  o.2,
  Ordered-snoc (before ++ j ∷ []) ks k o.3 (rw (append_assoc before (j ∷ []) ks) n),
)

pub count-append :
    (storage : Storage) (xs ys : List Key)
    → count storage (xs ++ ys) ≡ count storage xs + count storage ys
unfolding count
count-append storage [] ys = omega arith
count-append storage (k ∷ xs) ys = omega (arith, count-append storage xs ys)

-- The search by name and place finds nothing exactly for a name that the place does not know.
pub find_symbol-known :
    (symbols : List Symbol) (name : Name) (storage : Storage)
    → find_symbol symbols name storage ≡ none
    → known name storage (map key_of symbols) ≡ false
unfolding find_symbol known
find_symbol-known [] name storage h = refl
find_symbol-known (s ∷ rest) name storage h = ground (arith, find_symbol-known rest name storage)
