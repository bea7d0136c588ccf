-- ===== src/Runtime/ArrayLaws.antt =====
-- What array values show after the operations of src/runtime.c that write the store.
use holy_d.Prelude.{
  get_elem?-set, true, ◌||◌, length-append, ap, ℕ, zero, suc, ◌≡◌, refl, Bool, ◌&&◌, ◌==◌,
  if◌then◌else◌, some, List, [], ◌∷◌, ◌++◌, length, get_elem?, set, take, arith, Option-cases, inl,
  inr, get_elem?-append_at,
}
use holy_d.Prelude.Int.{pos}
use holy_d.Outcome.{ok}
use holy_d.Runtime.Value.{Host, Value, Store, int, array}
use holy_d.Runtime.Array.{is_array, concat, index, index_set, array_new, elements, length_of}

take-length {ℓ} : {A : Type ℓ} (xs : List A) → take (length xs) xs ≡ xs
take-length [] = refl
take-length (x ∷ xs) = ap (λ t. x ∷ t) (take-length xs)

get_elem?-kept {ℓ} :
    {A : Type ℓ} (xs ys : List A) (i : ℕ) (x : A)
    → get_elem? xs i ≡ some x
    → get_elem? (xs ++ ys) i ≡ some x
get_elem?-kept [] ys i x h = cc
get_elem?-kept (y ∷ xs) ys zero x h = h
get_elem?-kept (y ∷ xs) ys (suc i) x h = get_elem?-kept xs ys i x h

-- Whether two accesses are to one element.
abbrev same_element : ℕ → ℕ → ℕ → ℕ → Bool
same_element a k b j = a == b && k == j

-- After `array[k] = v`, every value that shares the array's elements reads `v` at `k`, whatever its
-- own length, and every other element that could be read reads as before.
pub index-index_set :
    (a n k b m j : ℕ) (v w : Value) (s s' : Store)
    → index_set (array a n) (int (pos k)) v s ≡ ok s'
    → index s (array b m) (int (pos j)) ≡ ok w
    → index s' (array b m) (int (pos j)) ≡ ok (if same_element a k b j then v else w)
unfolding index index_set
index-index_set a n k b m j v w s s' h g = elim (Option-cases (get_elem? s.cells a)) [
  | inl e ↦ ground arith
  | inr (c, e) ↦ ground (arith, get_elem?-set s.cells a b (set c k v), get_elem?-set c k j v)
]

module _ ⦃host : Host⦄ where
  -- A new array has the given elements and their number for its length, and the elements that any
  -- array showed before it shows still.
  pub array_new-elements :
      (vs ws : List Value) (b m : ℕ) (s s' : Store) (v : Value)
      → array_new vs s ≡ ok (v, s')
      → elements s (array b m) ≡ ok ws
      → (elements s' v ≡ ok vs)
        × (length_of v ≡ ok (int (pos (length vs))))
        × (elements s' (array b m) ≡ ok ws)
  unfolding array_new elements length_of
  array_new-elements [] ws b m s s' v h g = ground arith
  array_new-elements (u ∷ vs) ws b m s s' v h g = elim (Option-cases (get_elem? s.cells b)) [
    | inl e ↦ ground (arith, get_elem?-append_at s.cells (u ∷ vs) [], take-length (u ∷ vs))
    | inr (c, e) ↦ ground (
      arith,
      get_elem?-append_at s.cells (u ∷ vs) [],
      take-length (u ∷ vs),
      get_elem?-kept s.cells ((u ∷ vs) ∷ []) b c e,
    )
  ]

  elements-new :
      (vs : List Value) (s : Store)
      → elements (record s { cells = s.cells ++ vs ∷ [] }) (array (length s.cells) (length vs))
        ≡ ok vs
  unfolding elements
  elements-new [] s = ground arith
  elements-new (u ∷ vs) s =
      ground (arith, get_elem?-append_at s.cells (u ∷ vs) [], take-length (u ∷ vs))

  -- `~` with an array on a side gives an array of the left operand's elements and then the right
  -- one's; an operand that is no array counts as one element. The arrays before it show what they showed.
  pub concat-elements :
      (left right v : Value) (ls rs ws : List Value) (b m : ℕ) (s s' : Store)
      → (is_array left || is_array right) ≡ true
      → elements s left ≡ ok ls
      → elements s right ≡ ok rs
      → elements s (array b m) ≡ ok ws
      → concat left right s ≡ ok (v, s')
      → (is_array v ≡ true) × (elements s' v ≡ ok (ls ++ rs)) × (elements s' (array b m) ≡ ok ws)
  unfolding concat
  concat-elements left right v ls rs ws b m s s' some_array el er eb h =
      elim (Option-cases (get_elem? s.cells b)) [
        | inl e ↦ ground (arith, elements-new (ls ++ rs) s, length-append ls rs)
        | inr (c, e) ↦ ground (
          arith,
          elements-new (ls ++ rs) s,
          length-append ls rs,
          get_elem?-kept s.cells ((ls ++ rs) ∷ []) b c e,
        )
      ]
