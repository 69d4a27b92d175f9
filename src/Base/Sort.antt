-- ===== src/Base/Sort.antt =====
-- `sorted`: a stable sort by a Boolean order, by insertion, and the order of byte lists.
use koit.Base.{
  All, length, suc, ap, ◌∙◌, ◌⊎◌, inl, inr, Bool-cases, ◌≡◌, refl, Bool, true, false, ◌&&◌, ◌||◌,
  List, [], ◌∷◌, ltb, ◌==◌, if◌then◌else◌, arith,
}
use koit.Base.Bytes.{Bytes}

module _ {ℓ} {A : Type ℓ} (leq : A → A → Bool) where
  -- `x` goes in front of the first element that is not below it: equal elements keep their order.
  unfoldable pub insert : A → List A → List A
  insert x [] = x ∷ []
  insert x (y ∷ ys) = if leq x y then x ∷ (y ∷ ys) else y ∷ insert x ys

  unfoldable pub sort : List A → List A
  sort [] = []
  sort (x ∷ xs) = insert x (sort xs)

-- The order of `list(a) <= list(b)`.
unfoldable pub lex_leq : Bytes → Bytes → Bool
lex_leq [] ys = true
lex_leq (x ∷ xs) [] = false
lex_leq (x ∷ xs) (y ∷ ys) = ltb x y || (x == y && lex_leq xs ys)

-- `x` is an element.
abbrev pub Has : {A : Type 0} → A → List A → Type 0
Has x [] = ⊥
Has x (y ∷ ys) = (y ≡ x) ⊎ Has x ys

module _ {ℓ} {A : Type ℓ} (leq : A → A → Bool) where
  abbrev pub Sorted : List A → Type 0
  Sorted [] = Unit
  Sorted (x ∷ xs) = All (λ y. leq x y ≡ true) xs × Sorted xs

  pub length-insert : (x : A) (xs : List A) → length (insert leq x xs) ≡ suc (length xs)
  unfolding insert
  length-insert x [] = refl
  length-insert x (y ∷ ys) = ground (arith, length-insert x ys)

  pub length-sort : (xs : List A) → length (sort leq xs) ≡ length xs
  unfolding sort
  length-sort [] = refl
  length-sort (x ∷ xs) = length-insert x (sort leq xs) ∙ ap suc (length-sort xs)

  pub insert-All {κ} :
      (P : A → Type κ) (x : A) (xs : List A) → P x → All P xs → All P (insert leq x xs)
  unfolding insert
  insert-All P x [] p ps = (p, ps)
  insert-All P x (y ∷ ys) p ps = elim (Bool-cases (leq x y)) [
    | inl e ↦ rw e (p, ps)
    | inr e ↦ rw e (ps.0, insert-All P x ys p ps.1)
  ]

  pub sort-All {κ} : (P : A → Type κ) (xs : List A) → All P xs → All P (sort leq xs)
  unfolding sort
  sort-All P [] ps = ps
  sort-All P (x ∷ xs) ps = insert-All P x (sort leq xs) ps.0 (sort-All P xs ps.1)

  module _ (total : (x y : A) → leq x y ≡ false → leq y x ≡ true)
      (trans : (x y z : A) → leq x y ≡ true → leq y z ≡ true → leq x z ≡ true) where
    insert-Sorted : (x : A) (xs : List A) → Sorted xs → Sorted (insert leq x xs)
    unfolding insert
    insert-Sorted x [] h = (tt, tt)
    insert-Sorted x (y ∷ ys) h = elim (Bool-cases (leq x y)) [
      | inl e ↦ rw e ((e, below e ys h.0), h)
      | inr e ↦
          rw e (insert-All (λ z. leq y z ≡ true) x ys (total x y e) h.0, insert-Sorted x ys h.1)
    ]
      where
        below :
            leq x y ≡ true
            → (zs : List A) → All (λ z. leq y z ≡ true) zs
            → All (λ z. leq x z ≡ true) zs
        below e [] hs = tt
        below e (z ∷ zs) hs = (trans x y z e hs.0, below e zs hs.1)

    pub sort-Sorted : (xs : List A) → Sorted (sort leq xs)
    unfolding sort
    sort-Sorted [] = tt
    sort-Sorted (x ∷ xs) = insert-Sorted x (sort leq xs) (sort-Sorted xs)

module _ {A : Type 0} (leq : A → A → Bool) where
  insert-Has : (z x : A) (xs : List A) → (x ≡ z) ⊎ Has z xs → Has z (insert leq x xs)
  unfolding insert
  insert-Has z x [] h = h
  insert-Has z x (y ∷ ys) h = elim (Bool-cases (leq x y)) [
    | inl e ↦ rw e h
    | inr e ↦ rw e (elim h [
      | inl here ↦ inr (insert-Has z x ys (inl here))
      | inr (inl first) ↦ inl first
      | inr (inr rest) ↦ inr (insert-Has z x ys (inr rest))
    ])
  ]

  pub sort-Has : (z : A) (xs : List A) → Has z xs → Has z (sort leq xs)
  unfolding sort
  sort-Has z [] h = h
  sort-Has z (x ∷ xs) (inl e) = insert-Has z x (sort leq xs) (inl e)
  sort-Has z (x ∷ xs) (inr h) = insert-Has z x (sort leq xs) (inr (sort-Has z xs h))

  Has-insert : (z x : A) (xs : List A) → Has z (insert leq x xs) → (x ≡ z) ⊎ Has z xs
  unfolding insert
  Has-insert z x [] h = h
  Has-insert z x (y ∷ ys) h = elim (Bool-cases (leq x y)) [
    | inl e ↦ same_list e
    | inr e ↦ elim (other_list e) [
      | inl first ↦ inr (inl first)
      | inr later ↦ elim (Has-insert z x ys later) [
        | inl here ↦ inl here
        | inr rest ↦ inr (inr rest)
      ]
    ]
  ]
    where
      same_list : leq x y ≡ true → (x ≡ z) ⊎ Has z (y ∷ ys)
      same_list e = rw e at h

      other_list : leq x y ≡ false → Has z (y ∷ insert leq x ys)
      other_list e = rw e at h

  pub Has-sort : (z : A) (xs : List A) → Has z (sort leq xs) → Has z xs
  unfolding sort
  Has-sort z [] h = h
  Has-sort z (x ∷ xs) h = elim (Has-insert z x (sort leq xs) h) [
    | inl e ↦ inl e
    | inr later ↦ inr (Has-sort z xs later)
  ]
