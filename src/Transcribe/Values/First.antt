-- ===== src/Transcribe/Values/First.antt =====
-- tools/transcribe/transcribe.py: the lists in which each name stands once, with its first definition.
use koit.Base.{
  ◌≡◌, refl, arith, All, false, Bool-cases, inl, inr, if◌then◌else◌, Option, none, some, List, [],
  ◌∷◌,
}
use koit.Base.Bytes.{Bytes}
use koit.Base.Dict.{has_name, same_bytes, same_bytes_iff, bytes_eq}
use koit.Transcribe.Values.{firsts}

module _ {A : Type 0} (name : A → Bytes) where
  -- The first element of a name.
  abbrev pub find : List A → Bytes → Option A
  find [] k = none
  find (x ∷ xs) k = if same_bytes (name x) k then some x else find xs k

  -- No name stands twice.
  abbrev pub Distinct : List A → Type 0
  Distinct [] = Unit
  Distinct (x ∷ xs) = All (λ y. same_bytes (name x) (name y) ≡ false) xs × Distinct xs

  find-firsts :
      (seen : List Bytes) (xs : List A) (k : Bytes)
      → has_name seen k ≡ false
      → find (firsts name seen xs) k ≡ find xs k
  unfolding firsts has_name
  find-firsts seen [] k h = refl
  find-firsts seen (x ∷ xs) k h =
      ground
        (arith, find-firsts seen xs k, find-firsts (name x ∷ seen) xs k, same_bytes_iff (name x) k)

  Fresh : List Bytes → List A → Type 0
  Fresh seen xs = All (λ y. has_name seen (name y) ≡ false) xs

  apart :
      (n : Bytes) (seen : List Bytes) (xs : List A)
      → Fresh (n ∷ seen) xs
      → All (λ y. same_bytes n (name y) ≡ false) xs
  unfolding has_name Fresh
  apart n seen [] h = tt
  apart n seen (x ∷ xs) h = (ground (arith, h.0), apart n seen xs h.1)

  behind : (n : Bytes) (seen : List Bytes) (xs : List A) → Fresh (n ∷ seen) xs → Fresh seen xs
  unfolding has_name Fresh
  behind n seen [] h = tt
  behind n seen (x ∷ xs) h = (ground (arith, h.0), behind n seen xs h.1)

  firsts-Distinct :
      (seen : List Bytes) (xs : List A)
      → Fresh seen (firsts name seen xs) × Distinct (firsts name seen xs)
  unfolding firsts Fresh
  firsts-Distinct seen [] = (tt, tt)
  firsts-Distinct seen (x ∷ xs) = elim (Bool-cases (has_name seen (name x))) [
    | inl e ↦ rw e (firsts-Distinct seen xs)
    | inr e ↦
        let (fresh, distinct) = firsts-Distinct (name x ∷ seen) xs in
        rw e ((e, behind (name x) seen _ fresh), (apart (name x) seen _ fresh, distinct))
  ]

  -- In the list that keeps the elements whose name was not seen before, no name stands twice, and
  -- looking a name up gives the same element as looking it up in the whole list: the first
  -- definition wins.
  pub firsts_lem :
      (xs : List A)
      → Distinct (firsts name [] xs) × ((k : Bytes) → find (firsts name [] xs) k ≡ find xs k)
  unfolding has_name Fresh
  firsts_lem xs = ((firsts-Distinct [] xs).1, λ k. find-firsts [] xs k refl)
