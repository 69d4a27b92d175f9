-- ===== src/Elf/Layout/Placement.antt =====
-- The sections in the file: aligned, in order, apart, and each with its contents at its offset.
use koit.Base.{
  ℕ, ◌+◌, ◌-◌, ◌%◌, ◌≤◌, ◌≡◌, refl, sym, ap, ◌∙◌, arith, List, [], ◌∷◌, ◌++◌, length, take, drop,
  replicate, append_assoc, append-nil, length-append, Bool-cases, inl, inr, ◌==◌, max,
  if◌then◌else◌,
}
use koit.Base.Bytes.{Bytes, take_at}
use mathlib.Core.Path.{subst}
use koit.Elf.{Section, sht_nobits}
use koit.Elf.Layout.{pad, lay_out, header_size}
use koit.Elf.Layout.Padding.{pad-IsPadded}

-- What a section takes of the file: nothing if it is NOBITS.
abbrev pub stored : Section → Bytes
stored s = if s.type == sht_nobits then [] else s.content

-- From `low` on, every section stands in `file` behind the one before it, at an offset that is a
-- multiple of its alignment, with its contents; offsets count from `base`.
abbrev pub Placed : ℕ → List Section → List ℕ → ℕ → Bytes → Type 0
Placed base [] [] low file = low ≤ base + length file
Placed base (s ∷ sections) (off ∷ offsets) low file =
    (low ≤ off)
    × (off % max s.align 1 ≡ 0)
    × (take (length (stored s)) (drop (off - base) file) ≡ stored s)
    × Placed base sections offsets (off + length (stored s)) file
Placed base _ _ low file = ⊥

body_after : Section → Bytes → Bytes
body_after s padded = if s.type == sht_nobits then padded else padded ++ s.content

body_after_lem : (s : Section) (padded : Bytes) → body_after s padded ≡ padded ++ stored s
unfolding body_after
body_after_lem s padded = elim (Bool-cases (s.type == sht_nobits)) [
  | inl e ↦ rw e (sym (append-nil padded))
  | inr e ↦ rw e refl
]

abbrev padded_for : Section → Bytes → Bytes
padded_for s body = pad (max s.align 1) header_size (max s.align 1) body

abbrev next_body : Section → Bytes → Bytes
next_body s body = padded_for s body ++ stored s

lay_out-cons :
    (s : Section) (sections : List Section) (body : Bytes)
    → lay_out (s ∷ sections) body ≡ (
      (header_size + length (padded_for s body)) ∷ (lay_out sections (next_body s body)).0,
      (lay_out sections (next_body s body)).1,
    )
unfolding lay_out body_after
lay_out-cons s sections body =
    ap
      (λ (b : Bytes). (
        (header_size + length (padded_for s body)) ∷ (lay_out sections b).0,
        (lay_out sections b).1,
      ))
      (body_after_lem s (padded_for s body))

-- What is laid out stays a front of the body.
lay_out-extends :
    (sections : List Section) (body : Bytes)
    → (more : Bytes) × ((lay_out sections body).1 ≡ body ++ more)
lay_out-extends [] body = ([], unfold lay_out in sym (append-nil body))
lay_out-extends (s ∷ sections) body =
    let p = pad-IsPadded header_size (max s.align 1) body (omega arith) in
    let (more, e) = lay_out-extends sections (next_body s body) in
    (
      replicate p.count 0 ++ (stored s ++ more),
      ap (λ r. r.1) (lay_out-cons s sections body) ∙ e ∙ rw p.same (simp append_assoc),
    )

-- In the body that `lay_out` makes from a start, with whatever is put behind it, every section
-- has its contents at its offset, which is a multiple of its alignment and lies behind the
-- contents of the section before; a NOBITS section takes no bytes.
pub lay_out-Placed :
    (sections : List Section) (body tail : Bytes)
    → Placed header_size sections
        (lay_out sections body).0
        (header_size + length body)
        ((lay_out sections body).1 ++ tail)
lay_out-Placed [] body tail = unfold lay_out in omega (arith, length-append {0} body tail)
lay_out-Placed (s ∷ sections) body tail =
    let p = pad-IsPadded header_size (max s.align 1) body (omega arith) in
    let (more, e) = lay_out-extends sections (next_body s body) in
    let padded = padded_for s body in
    let laid = (lay_out sections (next_body s body)).1 in
    let regroup : laid ++ tail ≡ padded ++ (stored s ++ (more ++ tail)) =
      ap (λ b. b ++ tail) e ∙ simp append_assoc in
    rw (lay_out-cons s sections body) (
      omega (
        arith,
        ap (λ (b : Bytes). length b) p.same,
        length-append {0} body (replicate p.count 0),
      ),
      p.aligned,
      rw regroup (take_at padded (stored s) (more ++ tail) _ (omega arith)),
      subst
          (λ (low : ℕ).
            Placed header_size sections (lay_out sections (next_body s body)).0 low (laid ++ tail))
          (omega (arith, length-append {0} padded (stored s)))
          (lay_out-Placed sections (next_body s body) tail),
    )
