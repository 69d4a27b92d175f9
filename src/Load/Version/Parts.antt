-- ===== src/Load/Version/Parts.antt =====
-- tools/load.py: the parts of a tag's version and of a release, read independently of the code.
use koit.Base.{
  ℕ, ◌≡◌, ◌≢◌, refl, sym, ap, ◌∙◌, ◌⊎◌, inl, inr, All, Bool-cases, [], ◌∷◌, ◌++◌, append-nil, ◌==◌,
  ==_iff, ==_ne,
}
use koit.Base.Bytes.{Bytes, NoByte}
use koit.Base.Text.{join}
use mathlib.Core.Path.{subst}
use koit.Load.{lstrip_v, split_first, split, major_minor, tag_version}

-- The text is empty or goes on with the letter.
abbrev pub IsTail : ℕ → Bytes → Type 0
IsTail c [] = Unit
IsTail c (x ∷ xs) = x ≡ c

-- The text's first two components, or all of it if it has no dot.
abbrev pub FirstTwo : Bytes → Bytes → Type 0
FirstTwo s out =
    (NoByte b'.' s × (out ≡ s))
    ⊎ ((major : Bytes) × (minor : Bytes) × (tail : Bytes) × NoByte b'.' major
        × NoByte b'.' minor
        × IsTail b'.' tail
        × (s ≡ major ++ (b'.' ∷ (minor ++ tail)))
        × (out ≡ major ++ (b'.' ∷ minor)))

-- The text does not begin with a `v`.
abbrev pub NoMark : Bytes → Type 0
NoMark [] = Unit
NoMark (x ∷ xs) = x ≢ b'v'

-- The version in a tag: what is between its letters `v` in front and its first dash.
abbrev pub Version : Bytes → Bytes → Type 0
Version tag version =
    (marks : Bytes) × (tail : Bytes) × All (λ x. x ≡ b'v') marks
    × NoMark (version ++ tail)
    × NoByte b'-' version
    × IsTail b'-' tail
    × (tag ≡ marks ++ (version ++ tail))

-- Of a part without the separator and a rest that is empty or begins with it, the part is the first.
split_first-append :
    (sep : ℕ) (a tail : Bytes)
    → NoByte sep a
    → IsTail sep tail
    → (split_first sep (a ++ tail)).0 ≡ a
unfolding split_first
split_first-append sep [] [] free ends = refl
split_first-append sep [] (x ∷ tail) ends' ends = rw ((==_iff x sep).1 ends) refl
split_first-append sep (x ∷ a) tail (ne, free) ends =
    rw (==_ne x sep ne) (ap (◌∷◌ x) (split_first-append sep a tail free ends))

split_first-parts :
    (sep : ℕ) (s : Bytes)
    → (tail : Bytes) × NoByte sep (split_first sep s).0
      × IsTail sep tail
      × (s ≡ (split_first sep s).0 ++ tail)
unfolding split_first
split_first-parts sep [] = ([], tt, tt, refl)
split_first-parts sep (x ∷ xs) = elim (Bool-cases (x == sep)) [
  | inl e ↦ rw e (x ∷ xs, tt, (==_iff x sep).0 e, refl)
  | inr e ↦
      let (tail, free, ends, same) = split_first-parts sep xs in
      rw e (tail, (λ at. cc (e, (==_iff x sep).1 at), free), ends, ap (◌∷◌ x) same)
]

lstrip_v-append :
    (marks rest : Bytes) → All (λ x. x ≡ b'v') marks → NoMark rest → lstrip_v (marks ++ rest) ≡ rest
unfolding lstrip_v
lstrip_v-append [] [] all unmarked = refl
lstrip_v-append [] (x ∷ rest) all unmarked = rw (==_ne x b'v' unmarked) refl
lstrip_v-append (x ∷ marks) rest (e, all) unmarked =
    rw ((==_iff x b'v').1 e) (lstrip_v-append marks rest all unmarked)

lstrip_v-parts :
    (s : Bytes)
    → (marks : Bytes) × All (λ x. x ≡ b'v') marks × NoMark (lstrip_v s) × (s ≡ marks ++ lstrip_v s)
unfolding lstrip_v
lstrip_v-parts [] = ([], tt, tt, refl)
lstrip_v-parts (x ∷ xs) = elim (Bool-cases (x == b'v')) [
  | inl e ↦
      let (marks, all, unmarked, same) = lstrip_v-parts xs in
      rw e (x ∷ marks, ((==_iff x b'v').0 e, all), unmarked, ap (◌∷◌ x) same)
  | inr e ↦ rw e ([], tt, λ at. cc (e, (==_iff x b'v').1 at), refl)
]

-- `tag_version` finds the version, and there is no other.
pub tag_version-Version : (tag : Bytes) → Version tag (tag_version tag)
unfolding tag_version
tag_version-Version tag =
    let (marks, all, unmarked, same) = lstrip_v-parts tag in
    let (tail, free, ends, parts) = split_first-parts b'-' (lstrip_v tag) in
    (marks, tail, all, subst NoMark parts unmarked, free, ends, same ∙ ap (◌++◌ marks) parts)

pub Version-tag_version : (tag version : Bytes) → Version tag version → tag_version tag ≡ version
unfolding tag_version
Version-tag_version tag version (marks, tail, all, unmarked, free, ends, same) =
    ap (λ s. (split_first b'-' (lstrip_v s)).0) same
    ∙ ap (λ s. (split_first b'-' s).0) (lstrip_v-append marks (version ++ tail) all unmarked)
    ∙ split_first-append b'-' version tail free ends

split_first-free : (sep : ℕ) (s : Bytes) → NoByte sep s → split_first sep s ≡ (s, [])
unfolding split_first
split_first-free sep [] free = refl
split_first-free sep (x ∷ xs) (ne, free) = rw (==_ne x sep ne, split_first-free sep xs free) refl

split_first-at :
    (sep : ℕ) (a rest : Bytes)
    → NoByte sep a
    → split_first sep (a ++ (sep ∷ rest)) ≡ (a, split sep rest)
unfolding split_first split
split_first-at sep [] rest free = rw ((==_iff sep sep).1 refl) refl
split_first-at sep (x ∷ a) rest (ne, free) =
    rw (==_ne x sep ne, split_first-at sep a rest free) refl

-- The text has no separator, or a first one.
abbrev Cut : ℕ → Bytes → Type 0
Cut sep s = NoByte sep s ⊎ ((a : Bytes) × (rest : Bytes) × NoByte sep a × (s ≡ a ++ (sep ∷ rest)))

Cut-at : (sep : ℕ) (s a tail : Bytes) → NoByte sep a → IsTail sep tail → s ≡ a ++ tail → Cut sep s
Cut-at sep s a [] free ends e = inl (subst (NoByte sep) (sym (e ∙ append-nil a)) free)
Cut-at sep s a (x ∷ rest) free ends e = inr (a, rest, free, e ∙ ap (λ y. a ++ (y ∷ rest)) ends)

cut : (sep : ℕ) (s : Bytes) → Cut sep s
cut sep s =
    let (tail, free, ends, e) = split_first-parts sep s in
    Cut-at sep s (split_first sep s).0 tail free ends e

pub major_minor-free : (s : Bytes) → NoByte b'.' s → major_minor s ≡ s
unfolding major_minor split join
major_minor-free s free = rw (split_first-free b'.' s free) refl

major_minor-at :
    (major rest : Bytes)
    → NoByte b'.' major
    → major_minor (major ++ (b'.' ∷ rest)) ≡ major ++ (b'.' ∷ (split_first b'.' rest).0)
unfolding major_minor split join
major_minor-at major rest free = rw (split_first-at b'.' major rest free) refl

pub major_minor-FirstTwo : (s : Bytes) → FirstTwo s (major_minor s)
major_minor-FirstTwo s = elim (cut b'.' s) [
  | inl free ↦ inl (free, major_minor-free s free)
  | inr (major, rest, free, e) ↦
      let (tail, free', ends, parts) = split_first-parts b'.' rest in
      inr (
        major,
        (split_first b'.' rest).0,
        tail,
        free,
        free',
        ends,
        e ∙ ap (λ r. major ++ (b'.' ∷ r)) parts,
        ap major_minor e ∙ major_minor-at major rest free,
      )
]

pub FirstTwo-major_minor : (s out : Bytes) → FirstTwo s out → major_minor s ≡ out
FirstTwo-major_minor s out (inl (free, e)) = major_minor-free s free ∙ sym e
FirstTwo-major_minor s out (inr (major, minor, tail, free, free', ends, e, same)) =
    ap major_minor e
    ∙ major_minor-at major (minor ++ tail) free
    ∙ ap (λ r. major ++ (b'.' ∷ r)) (split_first-append b'.' minor tail free' ends)
    ∙ sym same
