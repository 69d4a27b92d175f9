-- ===== src/Elf/Tables.antt =====
-- `Elf.build`: the sections of the object keep their number, each symbol has its entry, and the tables
-- stand behind the sections.
use koit.Base.{
  ℕ, suc, ◌+◌, ◌*◌, ◌/◌, ◌≡◌, refl, sym, ap, ◌∙◌, arith, false, Bool-cases, inl, inr, List, [], ◌∷◌,
  ◌++◌, some, length, get_elem?, get_elem?-append_length, All, All-append, ◌==◌, if◌then◌else◌,
  Result, ok, ◌>>=◌, >>=-eq-ok, length-append, append_assoc,
}
use koit.Base.Bytes.{Bytes, pack_all, pack_all-eq-ok, length-field_bytes}
use koit.Base.Dict.{Dict, nat_eq, bytes_eq}
use koit.Elf
use koit.Elf.{Elf, Section, Symbol, null_section, sht_rel, sht_symtab, sht_strtab}
use koit.Elf.Build.{renumber_entries, renumber_sections, symtab, link_relocs}
use koit.Elf.Layout.{symbol_order, select, first_global}

length-renumbered :
    (s : Section) (sections rest sections' : List Section)
    → length rest ≡ length sections
    → s ∷ rest ≡ sections'
    → length sections' ≡ suc (length sections)
length-renumbered s sections rest sections' h e =
    sym (ap (λ (ss : List Section). length ss) e) ∙ ap suc h

pub length-renumber_sections :
    (renumber : Dict ℕ ℕ) (sections sections' : List Section)
    → renumber_sections renumber sections ≡ ok sections'
    → length sections' ≡ length sections
unfolding renumber_sections
length-renumber_sections renumber [] sections' h = cc
length-renumber_sections renumber (s ∷ sections) sections' h =
    elim (Bool-cases (s.type == sht_rel)) [
      | inl e ↦
          let h' : (renumber_entries renumber s.content 0 ((length s.content + 15) / 16)
                >>= with_data)
              ≡ ok sections' =
            sym (rw e refl) ∙ h in
          let (data', e1, h1) =
            >>=-eq-ok (renumber_entries renumber s.content 0 ((length s.content + 15) / 16)) _ h' in
          let (rest, later, h2) = >>=-eq-ok (renumber_sections renumber sections) _ h1 in
          length-renumbered (record s { content = data' }) sections rest sections'
            (length-renumber_sections renumber sections rest later) (cc)
      | inr e ↦
          let h' : (renumber_sections renumber sections >>= (λ rest. ok (s ∷ rest)))
              ≡ ok sections' =
            sym (rw e refl) ∙ h in
          let (rest, later, h1) = >>=-eq-ok (renumber_sections renumber sections) _ h' in
          length-renumbered s sections rest sections'
            (length-renumber_sections renumber sections rest later) (cc)
    ]
  where
    with_data : Bytes → Result (List Section)
    with_data data' =
        renumber_sections renumber sections >>= (λ rest. ok (record s { content = data' } ∷ rest))

length-entry :
    (s : Symbol) (off : ℕ) (entry : Bytes)
    → pack_all ((4, off) ∷ (1, s.info) ∷ (1, 0) ∷ (2, s.shndx) ∷ (8, s.value) ∷ (8, s.size) ∷ [])
      ≡ ok entry
    → length entry ≡ 24
length-entry s off entry h =
    let fields : List (ℕ × ℕ) =
      (4, off) ∷ (1, s.info) ∷ (1, 0) ∷ (2, s.shndx) ∷ (8, s.value) ∷ (8, s.size) ∷ [] in
    let (fit, same) = pack_all-eq-ok fields h in
    omega (arith, ap (λ (b : Bytes). length b) same, length-field_bytes fields)

pub length-symtab :
    (symbols : List Symbol) (strtab table strtab' : Bytes)
    → symtab symbols strtab ≡ ok (table, strtab')
    → length table ≡ 24 * length symbols
unfolding symtab
length-symtab [] strtab table strtab' h =
    let e : [] ≡ table = cc in sym (ap (λ (b : Bytes). length b) e)
length-symtab (s ∷ symbols) strtab table strtab' h =
    let off = Elf.string s.name strtab in
    let (entry, packed, h1) =
      >>=-eq-ok
        (pack_all
          ((4, off.0) ∷ (1, s.info) ∷ (1, 0) ∷ (2, s.shndx) ∷ (8, s.value) ∷ (8, s.size) ∷ []))
        _ h in
    let ((rest, strtab''), later, h2) = >>=-eq-ok (symtab symbols off.1) _ h1 in
    let joined : entry ++ rest ≡ table = cc in
    omega (
      arith,
      ap (λ (b : Bytes). length b) joined,
      length-append {0} entry rest,
      length-entry s off.0 entry packed,
      length-symtab symbols off.1 rest strtab'' later,
    )

length-link_relocs :
    (i : ℕ) (sections : List Section) → length (link_relocs i sections) ≡ length sections
unfolding link_relocs
length-link_relocs i [] = refl
length-link_relocs i (s ∷ sections) = ap suc (length-link_relocs i sections)

-- A relocation section names the section `i` as its symbol table.
abbrev pub LinksTo : ℕ → Section → Type 0
LinksTo i s = s.type ≡ sht_rel → s.link ≡ i

link_relocs-LinksTo : (i : ℕ) (sections : List Section) → All (LinksTo i) (link_relocs i sections)
unfolding link_relocs
link_relocs-LinksTo i [] = tt
link_relocs-LinksTo i (s ∷ sections) = elim (Bool-cases (s.type == sht_rel)) [
  | inl e ↦ rw e ((λ h. refl), link_relocs-LinksTo i sections)
  | inr e ↦ rw e ((λ h. absurd (ground (arith, h, e))), link_relocs-LinksTo i sections)
]

-- The symbol table of the object stands behind its sections: its number of local symbols, the string
-- table behind it, and an entry of 24 bytes for each symbol.
pub record HasSymtab (elf : Elf) (sections : List Section) : Type 0 where
  pub table : Section
  pub placed : get_elem? sections (length elf.sections) ≡ some table
  pub type : table.type ≡ sht_symtab
  pub info : table.info ≡ first_global (select elf.symbols (symbol_order elf.symbols))
  pub link : table.link ≡ length elf.sections + 1
  pub entries : length table.content ≡ 24 * length elf.symbols

get_elem?-append_at {ℓ} :
    {A : Type ℓ} (xs ys : List A) (i : ℕ) (y : A)
    → length xs ≡ i
    → get_elem? (xs ++ (y ∷ ys)) i ≡ some y
get_elem?-append_at xs ys i y e =
    ap (get_elem? (xs ++ (y ∷ ys))) (omega (arith, e)) ∙ get_elem?-append_length xs (y ∷ ys) 0

link_relocs-append :
    (i : ℕ) (xs ys : List Section) → link_relocs i (xs ++ ys) ≡ link_relocs i xs ++ link_relocs i ys
unfolding link_relocs
link_relocs-append i [] ys = refl
link_relocs-append i (x ∷ xs) ys =
    ap (λ ss. (if x.type == sht_rel then record x { link = i } else x) ∷ ss)
      (link_relocs-append i xs ys)

-- The sections of the object, linked, with the three tables behind them.
abbrev pub tabled : List Section → Section → Section → Section → List Section
tabled sections t s e = link_relocs (length sections) (sections ++ (t ∷ (s ∷ []))) ++ (e ∷ [])

pub tabled-symtab :
    (sections : List Section) (t s e : Section)
    → t.type ≡ sht_symtab
    → get_elem? (tabled sections t s e) (length sections) ≡ some t
unfolding link_relocs
tabled-symtab sections t s e symtab_type =
    let n = length sections in
    let other : t.type == sht_rel ≡ false = rw symtab_type refl in
    let split : tabled sections t s e
        ≡ link_relocs n sections ++ (link_relocs n (t ∷ (s ∷ [])) ++ (e ∷ [])) =
      ap (λ ss. ss ++ (e ∷ [])) (link_relocs-append n sections (t ∷ (s ∷ [])))
      ∙ append_assoc (link_relocs n sections) (link_relocs n (t ∷ (s ∷ []))) (e ∷ []) in
    let first : link_relocs n (t ∷ (s ∷ [])) ≡ t ∷ link_relocs n (s ∷ []) = rw other refl in
    let placed : tabled sections t s e
        ≡ link_relocs n sections ++ (t ∷ (link_relocs n (s ∷ []) ++ (e ∷ []))) =
      split ∙ ap (λ ss. link_relocs n sections ++ (ss ++ (e ∷ []))) first in
    ap (λ ss. get_elem? ss n) placed
    ∙ get_elem?-append_at (link_relocs n sections) _ n t (length-link_relocs n sections)

pub tabled-LinksTo :
    (sections : List Section) (t s e : Section) (i : ℕ)
    → length sections ≡ i
    → e.type ≡ sht_strtab
    → All (LinksTo i) (tabled sections t s e)
tabled-LinksTo sections t s e i same strtab_type = rw (sym same) (
    All-append (LinksTo (length sections))
      (link_relocs (length sections) (sections ++ (t ∷ (s ∷ [])))) (e ∷ [])
      (link_relocs-LinksTo (length sections) (sections ++ (t ∷ (s ∷ []))))
      (λ h. absurd (ground (arith, h, strtab_type)), tt))
