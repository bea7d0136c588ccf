-- ===== src/Resolve/Ends.antt =====
-- The whole loop of link_fallbacks of src/resolve.c.
use mathlib.Core.Path.{subst}
use holy_d.Prelude.{
  get_elem?-bound, ℕ, zero, suc, ◌+◌, ◌*◌, ◌≤◌, ◌<◌, ◌≡◌, sym, ap, ◌∙◌, true, false, some, none,
  inl, inr, List, [], ◌∷◌, length, get_elem?, arith, Bool-cases, Option-cases, ◌==◌, ==→eq, ltb,
  ltb→lt, not-ltb→le,
}
use holy_d.Syntax.{Nodes}
use holy_d.Resolve.Table.{external_storage, Symbol, Resolution, resolution_symbol}
use holy_d.Resolve.Collect.{has_fallback, link_symbol, link_from, link_fallbacks}
use holy_d.Resolve.Program.{collect_names, resolution_init}
use holy_d.Resolve.Numbered.{collect_names-Sound}
use holy_d.Resolve.Keeps.{Sound, change_symbol-length}
use holy_d.Resolve.Passes.{link_symbol-Sound}
use holy_d.Resolve.Fallbacks.{same_symbol}
use holy_d.Resolve.Linked.{rank, Falls, State, State-skip, external-has_fallback}
use holy_d.Resolve.Chain.{
  linked_to, link_symbol-turn, link_symbol-none, target, q, after, grown, old, new, other,
  self-Falls, other-Falls,
}

clash : false ≡ true → ⊥
clash e = cc

module _ {n start : ℕ} (i : ℕ) (s : Symbol) (r : Resolution) (h : get_elem? r.symbols i ≡ some s)
    (f : has_fallback s ≡ true) (st : State n start i r) where
  -- A symbol that needs a fallback stood there from the start.
  before_start : i < start
  before_start = elim (Bool-cases (ltb i start)) [
    | inl e ↦ ltb→lt i start e
    | inr e ↦
        absurd (clash (sym (external-has_fallback s (st.runtime i s h (not-ltb→le i start e))) ∙ f))
  ]

  turned : Resolution
  turned = after i s r h f st

  turned-runtime :
      (k : ℕ) (t : Symbol)
      → get_elem? turned.symbols k ≡ some t
      → start ≤ k
      → t.storage ≡ external_storage
  unfolding turned
  turned-runtime k t e le =
      let early = before_start in
      let apart : (i == k) ≡ false = ground arith in
      elim ((grown i s r h f st).kept k t (sym (other i s r h f st k apart) ∙ e)) [
        | inl (u, at, v) ↦ v.storage_same ∙ st.runtime k u at le
        | inr (beyond, external) ↦ external
      ]

  turned-linked :
      (k : ℕ) (t : Symbol)
      → get_elem? turned.symbols k ≡ some t
      → k < suc i
      → has_fallback t ≡ true
      → Falls turned t
  unfolding turned
  turned-linked k t e lt needs = elim (Bool-cases (i == k)) [
    | inl same ↦
        let at = ==→eq i k same in
        let is : linked_to (target i s r h f st) (old i s r h f st).symbol ≡ t =
          same_symbol _ t (sym (new i s r h f st) ∙ ap (get_elem? turned.symbols) at ∙ e) in
        subst (Falls turned) is (self-Falls i s r h f st)
    | inr apart ↦
        other-Falls i s r h f st k t (sym (other i s r h f st k apart) ∙ e) (ground arith) needs
  ]

  State-link : State n start (suc i) (link_symbol i s r)
  unfolding turned
  State-link =
      let early = before_start in
      let size = change_symbol-length i (linked_to (target i s r h f st)) (q i s r h f st) in
      let more = (grown i s r h f st).size in
      let turn = link_symbol-turn i s r f in
      subst (State n start (suc i)) (sym turn) (record {
        sound = subst (Sound n) turn (link_symbol-Sound n i s r st.sound);
        linked = turned-linked;
        runtime = turned-runtime;
        within = omega (arith, st.within);
        total = omega (arith, st.within);
      })

none-length : {A : Type 0} (xs : List A) (i : ℕ) → get_elem? xs i ≡ none → length xs ≤ i
none-length [] i h = omega arith
none-length (x ∷ xs) zero h = cc
none-length (x ∷ xs) (suc i) h = omega (arith, none-length xs i h)

-- Every symbol that needs a fallback has one.
abbrev AllFall : Resolution → Type 0
AllFall r =
    (j : ℕ) (s : Symbol) → get_elem? r.symbols j ≡ some s → has_fallback s ≡ true → Falls r s

-- With a turn for every position that the table may come to have the loop links all of it.
link_from-State :
    {n start : ℕ} (k i : ℕ) (r : Resolution)
    → i + k ≡ start + start
    → State n start i r
    → AllFall (link_from k i r)
unfolding link_from
link_from-State zero i r e st = λ j s h needs.
    let bound = get_elem?-bound r.symbols j s h in st.linked j s h (omega (arith, st.total)) needs
link_from-State {n} {start} (suc k) i r e st = elim (Option-cases (get_elem? r.symbols i)) [
  | inl none_left ↦
      rw (none_left, link_from)
        (λ j s h needs.
          let bound = get_elem?-bound r.symbols j s h in
          let short = none-length r.symbols i none_left in st.linked j s h (omega arith) needs)
  | inr (s, h) ↦
      let next : State n start (suc i) (link_symbol i s r) = elim (Bool-cases (has_fallback s)) [
        | inl f ↦ State-link i s r h f st
        | inr f ↦
            subst (State n start (suc i)) (sym (link_symbol-none i s r f)) (State-skip i s r h f st)
      ] in
      rw (h, link_from) (link_from-State k (suc i) (link_symbol i s r) (omega arith) next)
]

-- A table that links nothing yet, when the loop begins.
State-start : {n : ℕ} (r : Resolution) → Sound n r → State n (length r.symbols) 0 r
State-start r sound = record {
  sound = sound;
  linked = λ k s h lt needs. absurd (omega arith);
  runtime = λ k s h le. absurd (let bound = get_elem?-bound r.symbols k s h in omega arith);
  within = omega arith;
  total = omega arith;
}

-- When the names of a program have been collected and linked, every symbol that may be inactive when
-- it is read, a global or a local that is no parameter, falls back to a symbol of its name that stands
-- further out: a runtime name, or for a local a global. The chain of fallbacks so ends after two
-- steps at most.
pub link_fallbacks-rank :
    (statements : Nodes) (j : ℕ) (s : Symbol)
    → get_elem? (link_fallbacks (collect_names statements resolution_init)).symbols j ≡ some s
    → has_fallback s ≡ true
    → (id : ℕ) × (t : Symbol) × (s.fallback ≡ some id)
      × (resolution_symbol (link_fallbacks (collect_names statements resolution_init)) id ≡ some t)
      × (t.name ≡ s.name)
      × rank t.storage < rank s.storage
unfolding link_fallbacks
link_fallbacks-rank statements j s h needs =
    let r = collect_names statements resolution_init in
    let falls =
      link_from-State (2 * length r.symbols) 0 r (omega arith)
        (State-start r (collect_names-Sound statements)) j s h needs in
    let stands = falls.behind.stands in
    (
      falls.target,
      stands.symbol,
      falls.fallback_is,
      stands.here,
      stands.name_is,
      subst (λ p. rank p < rank s.storage) (sym stands.storage_is) falls.behind.outer,
    )
