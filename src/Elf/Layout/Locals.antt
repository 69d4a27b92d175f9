-- ===== src/Elf/Layout/Locals.antt =====
-- The local symbols of `Elf.build`'s table come before its global ones, the null symbol first.
use koit.Base.{
  ℕ, zero, suc, ◌<◌, ◌≡◌, ◌≢◌, refl, sym, ap, ◌∙◌, arith, Bool, true, false, not, some, List, [],
  ◌∷◌, length, get_elem?, take, drop, All, inl, inr, Bool-cases, ◌==◌,
}
use koit.Base.Dict.{nat_eq}
use koit.Base.Sort.{Has, Sorted}
use mathlib.Core.Path.{subst}
use koit.Elf.{Symbol}
use koit.Elf.Layout.{is_global, sort_key, bool_leq, key_leq, symbol_order, select, first_global}
use koit.Elf.Layout.Order.{leq_of, get_elem?-of_lt, select-cons, order-All, order-Has, order-Sorted}

-- The global symbols of the list come last.
abbrev pub GlobalsLast : List Symbol → Type 0
GlobalsLast = Sorted (λ s t. bool_leq (is_global s) (is_global t))

abbrev Ranged : List Symbol → ℕ → Type 0
Ranged symbols k = k < length symbols

key_leq-second :
    (a c b d : Bool) (i j : ℕ)
    → a ≡ true
    → c ≡ true
    → key_leq (a, b, i) (c, d, j) ≡ true
    → bool_leq b d ≡ true
unfolding key_leq bool_leq
key_leq-second a c b d i j ha hc h = ground arith

sort_key-some :
    (symbols : List Symbol) (i : ℕ) (s : Symbol)
    → get_elem? symbols i ≡ some s
    → sort_key symbols i ≡ (not (i == 0), is_global s, i)
unfolding sort_key
sort_key-some symbols i s e = rw (sort_key, e) refl

not-zero : (i : ℕ) → not (suc i == 0) ≡ true
not-zero i = ground arith

suc-below_zero :
    (i : ℕ) (b d : Bool) (j : ℕ) → key_leq (not (suc i == 0), b, suc i) (not (0 == 0), d, j) ≢ true
unfolding key_leq bool_leq
suc-below_zero i b d j h = ground arith

key_leq-is_global :
    (z : Symbol) (symbols : List Symbol) (i j : ℕ) (s t : Symbol)
    → is_global z ≡ false
    → get_elem? (z ∷ symbols) i ≡ some s
    → get_elem? (z ∷ symbols) j ≡ some t
    → leq_of (z ∷ symbols) i j ≡ true
    → bool_leq (is_global s) (is_global t) ≡ true
unfolding key_leq bool_leq sort_key
key_leq-is_global z symbols zero j s t local e1 e2 h =
    let same : z ≡ s = cc in rw (sym (ap is_global same) ∙ local) refl
key_leq-is_global z symbols (suc i) zero s t local e1 e2 h =
    absurd (suc-below_zero i (sort_key (z ∷ symbols) (suc i)).1 (sort_key (z ∷ symbols) 0).1 0 h)
key_leq-is_global z symbols (suc i) (suc j) s t local e1 e2 h =
    key_leq-second _ _ (is_global s) (is_global t) (suc i) (suc j) (not-zero i) (not-zero j) (
      sym (
        rw (sort_key-some (z ∷ symbols) (suc i) s e1, sort_key-some (z ∷ symbols) (suc j) t e2)
          refl)
      ∙ h)

-- Of a sorted list of numbers, the selection has the global symbols last.
select-GlobalsLast :
    (z : Symbol) (symbols : List Symbol) (order : List ℕ)
    → is_global z ≡ false
    → All (Ranged (z ∷ symbols)) order
    → Sorted (leq_of (z ∷ symbols)) order
    → GlobalsLast (select (z ∷ symbols) order)
unfolding select
select-GlobalsLast z symbols [] local h sorted = tt
select-GlobalsLast z symbols (i ∷ order) local h sorted =
    let (s, e) = get_elem?-of_lt (z ∷ symbols) i h.0 in
    rw (select-cons (z ∷ symbols) i order s e)
      (above s i e order h.1 sorted.0, select-GlobalsLast z symbols order local h.1 sorted.1)
  where
    above :
        (s : Symbol) (i : ℕ)
        → get_elem? (z ∷ symbols) i ≡ some s
        → (order : List ℕ) → All (Ranged (z ∷ symbols)) order
        → All (λ j. leq_of (z ∷ symbols) i j ≡ true) order
        → All (λ t. bool_leq (is_global s) (is_global t) ≡ true) (select (z ∷ symbols) order)
    above s i e [] h hs = tt
    above s i e (j ∷ order) h hs =
        let (t, e2) = get_elem?-of_lt (z ∷ symbols) j h.0 in
        rw (select-cons (z ∷ symbols) j order t e2)
          (key_leq-is_global z symbols i j s t local e e2 hs.0, above s i e order h.1 hs.1)

bool_leq-true : {a b : Bool} → a ≡ true → bool_leq a b ≡ true → b ≡ true
unfolding bool_leq
bool_leq-true {a} {b} g h = ground arith

leq_of-zero : (symbols : List Symbol) (i : ℕ) → leq_of symbols i 0 ≡ true → i ≡ 0
unfolding key_leq bool_leq sort_key
leq_of-zero symbols zero h = refl
leq_of-zero symbols (suc i) h =
    absurd (suc-below_zero i (sort_key symbols (suc i)).1 (sort_key symbols 0).1 0 h)

All-Has : (P : ℕ → Type 0) (xs : List ℕ) (x : ℕ) → All P xs → Has x xs → P x
All-Has P [] x h has = elim has [ ]
All-Has P (y ∷ ys) x h (inl e) = subst P e h.0
All-Has P (y ∷ ys) x h (inr later) = All-Has P ys x h.1 later

-- `first_global` cuts such a list into its local and its global symbols.
first_global-splits :
    (ys : List Symbol)
    → GlobalsLast ys
    → All (λ s. is_global s ≡ false) (take (first_global ys) ys)
      × All (λ s. is_global s ≡ true) (drop (first_global ys) ys)
unfolding first_global
first_global-splits [] h = (tt, tt)
first_global-splits (s ∷ ys) h = elim (Bool-cases (is_global s)) [
  | inl global ↦ rw global (tt, (global, after s ys global h.0))
  | inr local ↦
      let (before, behind) = first_global-splits ys h.1 in rw local ((local, before), behind)
]
  where
    after :
        (s : Symbol) (ys : List Symbol)
        → is_global s ≡ true
        → All (λ t. bool_leq (is_global s) (is_global t) ≡ true) ys
        → All (λ t. is_global t ≡ true) ys
    after s [] g h = tt
    after s (t ∷ ys) g h = (bool_leq-true g h.0, after s ys g h.1)

-- Of a table whose first symbol is local, the ordered table begins with that symbol, all symbols
-- before `first_global` are local, and all from there on are global.
pub symbol_order-LocalsFirst :
    (z : Symbol) (symbols : List Symbol)
    → is_global z ≡ false
    → (get_elem? (select (z ∷ symbols) (symbol_order (z ∷ symbols))) 0 ≡ some z)
      × All
          (λ s. is_global s ≡ false)
          (take
            (first_global (select (z ∷ symbols) (symbol_order (z ∷ symbols))))
            (select (z ∷ symbols) (symbol_order (z ∷ symbols))))
      × All
          (λ s. is_global s ≡ true)
          (drop
            (first_global (select (z ∷ symbols) (symbol_order (z ∷ symbols))))
            (select (z ∷ symbols) (symbol_order (z ∷ symbols))))
symbol_order-LocalsFirst z symbols local =
    let all = z ∷ symbols in
    let split =
      first_global-splits _ (
        select-GlobalsLast z symbols (symbol_order all) local (order-All all) (order-Sorted all)) in
    (
      first_zero (symbol_order all) (order-All all) (order-Has all 0 (omega arith))
          (order-Sorted all),
      split.0,
      split.1,
    )
  where
    first_zero :
        (order : List ℕ)
        → All (Ranged (z ∷ symbols)) order
        → Has 0 order
        → Sorted (leq_of (z ∷ symbols)) order
        → get_elem? (select (z ∷ symbols) order) 0 ≡ some z
    first_zero [] h has sorted = elim has [ ]
    first_zero (i ∷ order) h has sorted =
        let (s, e) = get_elem?-of_lt (z ∷ symbols) i h.0 in
        let lowest : i ≡ 0 = elim has [
          | inl here ↦ here
          | inr later ↦ leq_of-zero (z ∷ symbols) i (All-Has _ order 0 sorted.0 later)
        ] in
        rw (select-cons (z ∷ symbols) i order s e) (sym e ∙ ap (get_elem? (z ∷ symbols)) lowest)
