-- ===== src/Resolve/Invariant.antt =====
-- The side table of src/resolve.c stays well formed through every operation that writes symbols and
-- bindings.
use mathlib.Core.Path.{subst}
use holy_d.Prelude.{
  ℕ, zero, suc, ◌+◌, ◌<◌, ◌≡◌, refl, sym, ap, ◌∙◌, false, Option, some, none, inl, inr, List, [],
  ◌∷◌, ◌++◌, ◌==◌, if◌then◌else◌, map, length, get_elem?, set, arith, Bool-cases, ==→eq,
  Option-cases, length-set,
}
use holy_d.Syntax.{Name}
use holy_d.Resolve.Table.{
  Declaration, Storage, global_storage, external_storage, local_storage, Flags, Symbol,
  ResolvedFunction, Resolution,
}
use holy_d.Resolve.Scopes.{same_storage, change_symbol, next_slot, count_slot, new_symbol}
use holy_d.Resolve.Slots.{
  Key, key_of, keys, count, nth_slot, known, Ordered, Ordered-snoc, count-append,
}

-- A place in a table of so many functions.
unfoldable pub InPlace : ℕ → Storage → Type 0
InPlace n (local_storage f) = f < n
InPlace n _ = Unit {0}

pub record WellFormed (functions : ℕ) (r : Resolution) : Type 0 where
  pub ordered : Ordered [] (keys r)
  pub globals : r.global_slot_count ≡ count global_storage (keys r)
  pub frames :
      (f : ℕ) (function : ResolvedFunction)
      → get_elem? r.functions f ≡ some function
      → function.frame_slot_count ≡ count (local_storage f) (keys r)
  pub function_count : length r.functions ≡ functions
  pub places : (i : ℕ) (k : Key) → get_elem? (keys r) i ≡ some k → InPlace functions k.storage

pub length-keys : (ss : List Symbol) → length (map key_of ss) ≡ length ss
length-keys [] = refl
length-keys (s ∷ ss) = ap suc (length-keys ss)

keys-append : (xs ys : List Symbol) → map key_of (xs ++ ys) ≡ map key_of xs ++ map key_of ys
keys-append [] ys = refl
keys-append (x ∷ xs) ys = ap (λ t. key_of x ∷ t) (keys-append xs ys)

keys-set :
    (ss : List Symbol) (i : ℕ) (s t : Symbol)
    → get_elem? ss i ≡ some s
    → key_of t ≡ key_of s
    → map key_of (set ss i t) ≡ map key_of ss
keys-set [] i s t h e = refl
keys-set (x ∷ ss) zero s t h e = ap (λ k. k ∷ map key_of ss) (e ∙ ap key_of (same_symbol x s h))
  where
    same_symbol : (x s : Symbol) → some x ≡ some s → s ≡ x
    same_symbol x s h = cc
keys-set (x ∷ ss) (suc i) s t h e = ap (λ k. key_of x ∷ k) (keys-set ss i s t h e)

pub get_elem?-lt :
    {A : Type 0} (xs : List A) (i : ℕ) → i < length xs → (x : A) × (get_elem? xs i ≡ some x)
get_elem?-lt [] i h = absurd (omega arith)
get_elem?-lt (x ∷ xs) zero h = (x, refl)
get_elem?-lt (x ∷ xs) (suc i) h = get_elem?-lt xs i (omega arith)

module _ (n : ℕ) where
  -- A change of a symbol that keeps its key keeps the table well formed.
  pub change_symbol-WellFormed :
      (id : ℕ) (f : Symbol → Symbol) (r : Resolution)
      → ((s : Symbol) → key_of (f s) ≡ key_of s)
      → WellFormed n r
      → WellFormed n (change_symbol id f r)
  unfolding change_symbol
  change_symbol-WellFormed id f r k w = elim (Option-cases (get_elem? r.symbols id)) [
    | inl e ↦ rw (e, change_symbol) w
    | inr (s, e) ↦
        let same = keys-set r.symbols id s (f s) e (k s) in
        rw (e, change_symbol)
          (record {
            ordered = rw same w.ordered;
            globals = rw same w.globals;
            frames = rw same w.frames;
            function_count = w.function_count;
            places = rw same w.places;
          })
  ]

-- What `new_symbol` appends.
unfoldable pub new_key : Name → Storage → Resolution → Key
new_key name storage r = record {
  id = length r.symbols;
  slot = next_slot r storage;
  storage = storage;
  name = name;
}

-- Only the place itself gains a symbol.
count-new :
    (p storage : Storage) (name : Name) (r : Resolution)
    → count p (keys r ++ new_key name storage r ∷ [])
      ≡ count p (keys r) + (if same_storage storage p then 1 else 0)
unfolding count new_key
count-new p storage name r = count-append p (keys r) (new_key name storage r ∷ []) ∙ omega arith

pub count_slot-symbols :
    (storage : Storage) (r : Resolution) → (count_slot storage r).symbols ≡ r.symbols
unfolding count_slot
count_slot-symbols global_storage r = refl
count_slot-symbols external_storage r = refl
count_slot-symbols (local_storage f) r = elim (Option-cases (get_elem? r.functions f)) [
  | inl e ↦ rw (e, count_slot) refl
  | inr (function, e) ↦ rw (e, count_slot) refl
]

pub keys-new_symbol :
    (name : Name) (storage : Storage) (flags : Flags) (d : Option Declaration) (r : Resolution)
    → keys (new_symbol name storage flags d r) ≡ keys r ++ new_key name storage r ∷ []
unfolding new_symbol new_key
keys-new_symbol name storage flags d r =
    ap (map key_of) (count_slot-symbols storage _) ∙ keys-append r.symbols _

count_slot-globals :
    (storage : Storage) (r : Resolution)
    → (count_slot storage r).global_slot_count
      ≡ r.global_slot_count + (if same_storage storage global_storage then 1 else 0)
unfolding count_slot same_storage
count_slot-globals global_storage r = omega arith
count_slot-globals external_storage r = omega arith
count_slot-globals (local_storage f) r = elim (Option-cases (get_elem? r.functions f)) [
  | inl e ↦ rw (e, count_slot) (omega arith)
  | inr (function, e) ↦ rw (e, count_slot) (omega arith)
]

count_slot-count :
    (storage : Storage) (r : Resolution)
    → length (count_slot storage r).functions ≡ length r.functions
unfolding count_slot
count_slot-count global_storage r = refl
count_slot-count external_storage r = refl
count_slot-count (local_storage f) r = elim (Option-cases (get_elem? r.functions f)) [
  | inl e ↦ rw (e, count_slot) refl
  | inr (function, e) ↦ rw (e, count_slot) (length-set r.functions f _)
]

-- A function with one more slot in its frame.
bumped : ResolvedFunction → ResolvedFunction
bumped function = record function { frame_slot_count = suc function.frame_slot_count }

no_function :
    (g : ℕ) (r : Resolution) → get_elem? r.functions g ≡ none → count_slot (local_storage g) r ≡ r
unfolding count_slot
no_function g r e = rw (e, count_slot) refl

one_more :
    (g : ℕ) (r : Resolution) (function : ResolvedFunction)
    → get_elem? r.functions g ≡ some function
    → (count_slot (local_storage g) r).functions ≡ set r.functions g (bumped function)
unfolding count_slot bumped
one_more g r function e = rw (e, count_slot) refl

get_elem?-inj : (x y : ResolvedFunction) → some x ≡ some y → x ≡ y
get_elem?-inj x y h = cc

set-frames :
    (fs : List ResolvedFunction) (g : ℕ) (function : ResolvedFunction)
    → get_elem? fs g ≡ some function
    → (f : ℕ) (after : ResolvedFunction) → get_elem? (set fs g (bumped function)) f ≡ some after
    → (before : ResolvedFunction) × (get_elem? fs f ≡ some before)
      × (after.frame_slot_count ≡ before.frame_slot_count + (if g == f then 1 else 0))
unfolding bumped
set-frames [] g function e f after h = cc
set-frames (x ∷ fs) zero function e zero after h =
    let is : bumped function ≡ after = get_elem?-inj _ _ h in
    (function, e, sym (ap (λ q. q.frame_slot_count) is) ∙ omega arith)
set-frames (x ∷ fs) zero function e (suc f) after h = (after, h, grind arith)
set-frames (x ∷ fs) (suc g) function e zero after h = (after, h, grind arith)
set-frames (x ∷ fs) (suc g) function e (suc f) after h =
    let (before, is, counts) = set-frames fs g function e f after h in (before, is, ground arith)

-- The frame of a function counts a symbol when it is the symbol's place.
count_slot-frames :
    (storage : Storage) (r : Resolution) (f : ℕ) (after : ResolvedFunction)
    → get_elem? (count_slot storage r).functions f ≡ some after
    → (before : ResolvedFunction) × (get_elem? r.functions f ≡ some before)
      × (after.frame_slot_count
          ≡ before.frame_slot_count + (if same_storage storage (local_storage f) then 1 else 0))
unfolding count_slot same_storage
count_slot-frames global_storage r f after h = (after, h, omega arith)
count_slot-frames external_storage r f after h = (after, h, omega arith)
count_slot-frames (local_storage g) r f after h = elim (Option-cases (get_elem? r.functions g)) [
  | inl e ↦
      let here : get_elem? r.functions f ≡ some after =
        sym (ap (λ q. get_elem? q.functions f) (no_function g r e)) ∙ h in
      (
        after,
        here,
        elim (Bool-cases (g == f)) [
          | inl same ↦ absurd (none_some {x = after} (sym e ∙ rw (==→eq g f same) here))
          | inr other ↦ rw other (omega arith)
        ],
      )
  | inr (function, e) ↦
      let here = sym (ap (λ fs. get_elem? fs f) (one_more g r function e)) ∙ h in
      set-frames r.functions g function e f after here
]
  where
    none_some : {x : ResolvedFunction} → none ≡ some x → ⊥
    none_some h = cc

module _ (n : ℕ) (name : Name) (flags : Flags) (d : Option Declaration) (r : Resolution)
    (w : WellFormed n r) where
  -- The new symbol's slot is the number of its place's symbols.
  next_slot-count :
      (storage : Storage)
      → InPlace n storage
      → next_slot r storage ≡ nth_slot storage (count storage (keys r))
  unfolding next_slot nth_slot InPlace
  next_slot-count global_storage i = ap some w.globals
  next_slot-count external_storage i = refl
  next_slot-count (local_storage f) i =
      let (function, e) = get_elem?-lt r.functions f (omega (arith, w.function_count)) in
      rw (e, next_slot) (ap some (w.frames f function e))

  snoc-InPlace :
      (ks : List Key) (new : Key) (j : ℕ) (k : Key)
      → ((j : ℕ) (k : Key) → get_elem? ks j ≡ some k → InPlace n k.storage)
      → InPlace n new.storage
      → get_elem? (ks ++ new ∷ []) j ≡ some k
      → InPlace n k.storage
  snoc-InPlace [] new zero k olds i e = subst (λ s. InPlace n s) (same new k e) i
    where
      same : (x y : Key) → some x ≡ some y → x.storage ≡ y.storage
      same x y e = cc
  snoc-InPlace [] new (suc j) k olds i e = cc
  snoc-InPlace (x ∷ ks) new zero k olds i e = olds 0 k e
  snoc-InPlace (x ∷ ks) new (suc j) k olds i e =
      snoc-InPlace ks new j k (λ j k e. olds (suc j) k e) i e

  new_key-InPlace :
      (storage : Storage)
      → InPlace n storage
      → (j : ℕ) (k : Key) → get_elem? (keys r ++ new_key name storage r ∷ []) j ≡ some k
      → InPlace n k.storage
  unfolding new_key
  new_key-InPlace storage i j k = snoc-InPlace (keys r) _ j k w.places i

  new_symbol-Ordered :
      (storage : Storage)
      → InPlace n storage
      → known name storage (keys r) ≡ false
      → Ordered [] (keys r ++ new_key name storage r ∷ [])
  unfolding Ordered new_key
  new_symbol-Ordered storage i new =
      Ordered-snoc [] (keys r) (new_key name storage r) w.ordered
        (sym (length-keys r.symbols), next_slot-count storage i, new, tt)

  pub new_symbol-WellFormed :
      (storage : Storage)
      → InPlace n storage
      → known name storage (keys r) ≡ false
      → WellFormed n (new_symbol name storage flags d r)
  unfolding new_symbol
  new_symbol-WellFormed storage i new =
      let same = keys-new_symbol name storage flags d r in
      record {
        ordered = rw same (new_symbol-Ordered storage i new);
        globals = rw same (
            count_slot-globals storage _
            ∙ ap (λ k. k + (if same_storage storage global_storage then 1 else 0)) w.globals
            ∙ sym (count-new global_storage storage name r));
        frames = λ f after h.
            let (before, is, counts) = count_slot-frames storage _ f after h in
            rw same (
              counts
              ∙ ap (λ k. k + (if same_storage storage (local_storage f) then 1 else 0))
                  (w.frames f before is)
              ∙ sym (count-new (local_storage f) storage name r));
        function_count = count_slot-count storage _ ∙ w.function_count;
        places = rw same (new_key-InPlace storage i);
      }
