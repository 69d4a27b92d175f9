-- ===== src/Elf/Layout/Order.antt =====
-- The order of the symbols: it has every number once sorted, and the renumbering leads from every
-- old number to the same symbol.
use koit.Base.{
  ℕ, zero, suc, ◌+◌, ◌≤◌, ◌<◌, ◌≡◌, ◌≢◌, refl, sym, ap, ◌∙◌, arith, Bool, true, false, some, List,
  [], ◌∷◌, length, get_elem?, get_elem?-lt, All, ◌⊎◌, inl, inr, Bool-cases, if◌then◌else◌, ◌==◌,
  ==_iff,
}
use koit.Base.Dict.{Dict, get, put, put_all, get-put, nat_eq}
use koit.Base.Sort.{Has, Sorted, sort-All, sort-Has, sort-Sorted, length-sort}
use koit.Elf.{Symbol}
use koit.Elf.Layout.{
  SortKey, sort_key, bool_leq, key_leq, range, symbol_order, numbered, renumbering, select,
}

key_leq_total : (x y : SortKey) → key_leq x y ≡ false → key_leq y x ≡ true
unfolding key_leq bool_leq
key_leq_total (a, b, i) (c, d, j) h = ground arith

key_leq_trans : (x y z : SortKey) → key_leq x y ≡ true → key_leq y z ≡ true → key_leq x z ≡ true
unfolding key_leq bool_leq
key_leq_trans (a, b, i) (c, d, j) (e, f, k) h g = ground arith

length-range : (i n : ℕ) → length (range i n) ≡ n
unfolding range
length-range i zero = refl
length-range i (suc n) = ap suc (length-range (i + 1) n)

range-All : (i n m : ℕ) → i + n ≤ m → All (λ (k : ℕ). k < m) (range i n)
unfolding range
range-All i zero m h = tt
range-All i (suc n) m h = (omega arith, range-All (i + 1) n m (omega arith))

range-Has : (i n k : ℕ) → i ≤ k → k < i + n → Has k (range i n)
unfolding range
range-Has i zero k le lt = absurd (omega arith)
range-Has i (suc n) k le lt = elim (Bool-cases (i == k)) [
  | inl e ↦ inl ((==_iff i k).0 e)
  | inr ne ↦ inr (range-Has (i + 1) n k (ground arith) (omega arith))
]

abbrev pub leq_of : List Symbol → ℕ → ℕ → Bool
leq_of symbols i j = key_leq (sort_key symbols i) (sort_key symbols j)

pub order-All : (symbols : List Symbol) → All (λ (k : ℕ). k < length symbols) (symbol_order symbols)
unfolding symbol_order
order-All symbols =
    sort-All (leq_of symbols) _ (range 0 (length symbols))
      (range-All 0 (length symbols) _ (omega arith))

pub order-Has : (symbols : List Symbol) (k : ℕ) → k < length symbols → Has k (symbol_order symbols)
unfolding symbol_order
order-Has symbols k h =
    sort-Has (leq_of symbols) k _ (range-Has 0 (length symbols) k (omega arith) (omega arith))

pub order-Sorted : (symbols : List Symbol) → Sorted (leq_of symbols) (symbol_order symbols)
unfolding symbol_order
order-Sorted symbols =
    sort-Sorted (leq_of symbols) (λ x y. key_leq_total _ _) (λ x y z. key_leq_trans _ _ _) _

pub length-symbol_order : (symbols : List Symbol) → length (symbol_order symbols) ≡ length symbols
unfolding symbol_order
length-symbol_order symbols = length-sort (leq_of symbols) _ ∙ length-range 0 _

pub get_elem?-of_lt {ℓ} :
    {A : Type ℓ} (xs : List A) (i : ℕ) → i < length xs → (x : A) × (get_elem? xs i ≡ some x)
get_elem?-of_lt [] i h = absurd (omega arith)
get_elem?-of_lt (x ∷ xs) zero h = (x, refl)
get_elem?-of_lt (x ∷ xs) (suc i) h = get_elem?-of_lt xs i (omega arith)

pub select-cons :
    (symbols : List Symbol) (k : ℕ) (order : List ℕ) (s : Symbol)
    → get_elem? symbols k ≡ some s
    → select symbols (k ∷ order) ≡ s ∷ select symbols order
unfolding select
select-cons symbols k order s e = rw (select, e) refl

-- Where the order has `i` at `j`, the selection has symbol `i` at `j`.
get_elem?-select :
    (symbols : List Symbol) (order : List ℕ) (i j : ℕ)
    → All (λ (k : ℕ). k < length symbols) order
    → get_elem? order j ≡ some i
    → get_elem? (select symbols order) j ≡ get_elem? symbols i
get_elem?-select symbols [] i j h at = cc
get_elem?-select symbols (k ∷ order) i zero h at =
    let (s, e) = get_elem?-of_lt symbols k h.0 in
    let same : k ≡ i = cc in
    rw (select-cons symbols k order s e) (sym e ∙ ap (get_elem? symbols) same)
get_elem?-select symbols (k ∷ order) i (suc j) h at =
    let (s, e) = get_elem?-of_lt symbols k h.0 in
    rw (select-cons symbols k order s e) (get_elem?-select symbols order i j h.1 at)

pub length-select :
    (symbols : List Symbol) (order : List ℕ)
    → All (λ (k : ℕ). k < length symbols) order
    → length (select symbols order) ≡ length order
unfolding select
length-select symbols [] h = refl
length-select symbols (k ∷ order) h =
    let (s, e) = get_elem?-of_lt symbols k h.0 in
    rw (select-cons symbols k order s e) (ap suc (length-select symbols order h.1))

-- What the dictionary of numbered positions has for a key is a position of the key.
numbered_sound :
    (order : List ℕ) (new : ℕ) (d : Dict ℕ ℕ) (k j : ℕ)
    → get (put_all d (numbered new order)) k ≡ some j
    → (get d k ≡ some j) ⊎ ((p : ℕ) × (j ≡ new + p) × (get_elem? order p ≡ some k))
unfolding put_all numbered
numbered_sound [] new d k j h = inl h
numbered_sound (o ∷ order) new d k j h = elim (numbered_sound order (new + 1) (put d o new) k j h) [
  | inr (p, e, at) ↦ inr (suc p, omega (arith, e), at)
  | inl first ↦
      let moved : (if o == k then some new else get d k) ≡ some j =
        sym (get-put d k o new) ∙ first in
      elim (Bool-cases (o == k)) [
        | inl here ↦ inr (0, ground (arith, moved, here), ap some ((==_iff o k).0 here))
        | inr other ↦ inl (sym (rw other refl) ∙ moved)
      ]
]

numbered_complete :
    (order : List ℕ) (new : ℕ) (d : Dict ℕ ℕ) (k : ℕ)
    → Has k order ⊎ ((j : ℕ) × (get d k ≡ some j))
    → (j : ℕ) × (get (put_all d (numbered new order)) k ≡ some j)
unfolding put_all numbered
numbered_complete [] new d k (inl x) = elim x [ ]
numbered_complete [] new d k (inr known) = known
numbered_complete (o ∷ order) new d k h =
    numbered_complete order (new + 1) (put d o new) k (elim (Bool-cases (o == k)) [
      | inl here ↦ inr (new, rw (get-put d k o new, here) refl)
      | inr other ↦ elim h [
        | inl (inl e) ↦ absurd (ground (arith, other, e))
        | inl (inr later) ↦ inl later
        | inr (j, known) ↦ inr (j, rw (get-put d k o new, other) known)
      ]
    ])

never : (i j : ℕ) → get {V = ℕ} [] i ≢ some j
unfolding get
never i j h = cc

-- Every index of the old table has a new number, which is an index of the table too, and at which
-- the ordered table has what the old table has at the old index.
pub renumbering-select :
    (symbols : List Symbol) (i : ℕ)
    → i < length symbols
    → (j : ℕ) × (get (renumbering (symbol_order symbols)) i ≡ some j)
      × (j < length symbols)
      × (get_elem? (select symbols (symbol_order symbols)) j ≡ get_elem? symbols i)
unfolding renumbering
renumbering-select symbols i h =
    let order = symbol_order symbols in
    let (j, known) = numbered_complete order 0 [] i (inl (order-Has symbols i h)) in
    elim (numbered_sound order 0 [] i j known) [
      | inl nothing ↦ absurd (never i j nothing)
      | inr (p, e, at) ↦
          let same : j ≡ p = omega (arith, e) in
          let at' : get_elem? order j ≡ some i = ap (get_elem? order) same ∙ at in
          (
            j,
            known,
            rw (sym (length-symbol_order symbols)) (get_elem?-lt order j i at'),
            get_elem?-select symbols order i j (order-All symbols) at',
          )
    ]
