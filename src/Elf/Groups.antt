-- ===== src/Elf/Groups.antt =====
-- `by_section` in `write`: each section holds its programs, in the order of the document.
use koit.Base.{
  ◌≡◌, refl, sym, ap, ◌∙◌, true, Option, none, some, List, [], ◌∷◌, ◌++◌, Bool-cases, Option-cases,
  inl, inr, if◌then◌else◌, append_assoc, append-nil,
}
use koit.Base.Bytes.{Bytes}
use koit.Base.Dict.{Dict, get, put, get-put, same_bytes, same_bytes_iff, bytes_eq}
use koit.Document.{Program}
use koit.Elf.Programs.{group_program, by_section}

-- The programs of the section, in order.
abbrev pub of_section : Bytes → List Program → List Program
of_section sec [] = []
of_section sec (p ∷ ps) =
    if same_bytes p.section sec then p ∷ of_section sec ps else of_section sec ps

-- A group with more programs behind it; no group for no program.
abbrev pub with_more : Option (List Program) → List Program → Option (List Program)
with_more none [] = none
with_more none (p ∷ ps) = some (p ∷ ps)
with_more (some qs) ps = some (qs ++ ps)

fresh_group :
    (groups : Dict Bytes (List Program)) (p : Program)
    → get groups p.section ≡ none
    → group_program groups p ≡ put groups p.section (p ∷ [])
unfolding group_program
fresh_group groups p fresh = rw (group_program, fresh) refl

grown_group :
    (groups : Dict Bytes (List Program)) (p : Program) (ps : List Program)
    → get groups p.section ≡ some ps
    → group_program groups p ≡ put groups p.section (ps ++ (p ∷ []))
unfolding group_program
grown_group groups p ps found = rw (group_program, found) refl

get-group_program :
    (groups : Dict Bytes (List Program)) (p : Program) (sec : Bytes) (rest : List Program)
    → with_more (get (group_program groups p) sec) rest
      ≡ with_more (get groups sec) (if same_bytes p.section sec then p ∷ rest else rest)
get-group_program groups p sec rest = elim (Option-cases (get groups p.section)) [
  | inl fresh ↦ elim (Bool-cases (same_bytes p.section sec)) [
    | inl here ↦
        rw
          (
            fresh_group groups p fresh,
            get-put groups sec p.section (p ∷ []),
            here,
            at_sec here fresh,
          )
          refl
    | inr other ↦ rw (fresh_group groups p fresh, get-put groups sec p.section (p ∷ []), other) refl
  ]
  | inr (qs, found) ↦ elim (Bool-cases (same_bytes p.section sec)) [
    | inl here ↦
        rw
          (
            grown_group groups p qs found,
            get-put groups sec p.section (qs ++ (p ∷ [])),
            here,
            at_sec here found,
          )
          (ap some (append_assoc qs (p ∷ []) rest))
    | inr other ↦
        rw (grown_group groups p qs found, get-put groups sec p.section (qs ++ (p ∷ [])), other)
          refl
  ]
]
  where
    at_sec :
        same_bytes p.section sec ≡ true
        → {r : Option (List Program)} → get groups p.section ≡ r
        → get groups sec ≡ r
    at_sec here found = sym (ap (get groups) ((same_bytes_iff p.section sec).0 here)) ∙ found

groups-by_section :
    (programs : List Program) (groups : Dict Bytes (List Program)) (sec : Bytes)
    → get (by_section groups programs) sec ≡ with_more (get groups sec) (of_section sec programs)
unfolding by_section
groups-by_section [] groups sec = elim (Option-cases (get groups sec)) [
  | inl e ↦ rw e refl
  | inr (ps, e) ↦ rw e (ap some (sym (append-nil ps)))
]
groups-by_section (p ∷ programs) groups sec =
    groups-by_section programs (group_program groups p) sec
    ∙ get-group_program groups p sec (of_section sec programs)

-- Under the name of a section `by_section` has exactly the programs of that section, in the order
-- of the document, and nothing where there is none.
pub get-by_section :
    (programs : List Program) (sec : Bytes)
    → get (by_section [] programs) sec ≡ with_more none (of_section sec programs)
get-by_section programs sec = unfold get in groups-by_section programs [] sec
