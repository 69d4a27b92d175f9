-- ===== src/Elf/Whole.antt =====
-- `Elf.build` as a whole: the file it returns, and the symbol table it puts behind the sections.
use koit.Base.{
  ℕ, ◌+◌, ◌*◌, ◌≡◌, refl, sym, ap, ◌∙◌, arith, List, [], ◌∷◌, ◌++◌, length, get_elem?, All, map, ok,
  >>=-eq-ok,
}
use koit.Base.Bytes.{Bytes}
use koit.Base.Dict.{Dict, nat_eq, bytes_eq}
use koit.Base.Text.{text}
use koit.Elf.{Elf, Section, null_section, sht_symtab, sht_strtab}
use koit.Elf.Build.{renumber_sections, symtab, link_relocs, section_names, final_sections, build}
use koit.Elf.File.{IsElf, assemble-IsElf}
use koit.Elf.Layout.{symbol_order, renumbering, select, first_global}
use koit.Elf.Layout.Order.{length-symbol_order, length-select, order-All}
use koit.Elf.Tables.{
  length-renumber_sections, length-symtab, LinksTo, tabled, tabled-symtab, tabled-LinksTo,
  HasSymtab,
}

abbrev symtab_section : Elf → List Section → Bytes → Section
symtab_section elf sections table = record {
  name = text ".symtab";
  type = sht_symtab;
  flags = 0;
  content = table;
  link = length sections + 1;
  info = first_global (select elf.symbols (symbol_order elf.symbols));
  align = 8;
  entsize = 24;
}

abbrev strings_section : Bytes → Bytes → Section
strings_section name content = record null_section {
  name = name;
  type = sht_strtab;
  content = content;
  align = 1;
}

-- The parts of the file's sections.
record Parts (elf : Elf) (sections : List Section) : Type 0 where
  pub renumbered : List Section
  pub table : Bytes
  pub strtab : Bytes
  pub shstrtab : Bytes
  pub kept : length renumbered ≡ length elf.sections
  pub sized : length table ≡ 24 * length elf.symbols
  pub same :
      sections
      ≡ tabled renumbered
          (symtab_section elf renumbered table)
          (strings_section (text ".strtab") strtab)
          (strings_section (text ".shstrtab") shstrtab)

final_sections-Parts :
    (elf : Elf) (sections : List Section) (names : Dict Bytes ℕ)
    → final_sections elf ≡ ok (sections, names)
    → Parts elf sections
unfolding final_sections
final_sections-Parts elf sections names made =
    let order = symbol_order elf.symbols in
    let symbols = select elf.symbols order in
    let (renumbered, e1, h2) =
      >>=-eq-ok (renumber_sections (renumbering order) elf.sections) _ made in
    let ((table, strtab), e2, h3) = >>=-eq-ok (symtab symbols elf.strtab) _ h2 in
    record {
      renumbered = renumbered;
      table = table;
      strtab = strtab;
      shstrtab =
          (section_names
            (map (λ (s : Section). s.name)
                (link_relocs (length renumbered) (
                  renumbered
                  ++ (symtab_section elf renumbered table
                      ∷ (strings_section (text ".strtab") strtab ∷ []))))
              ++ (text ".shstrtab" ∷ []))
            [] (0 ∷ [])).1;
      kept = length-renumber_sections (renumbering order) elf.sections renumbered e1;
      sized = omega (
        arith,
        length-symtab symbols elf.strtab table strtab e2,
        length-select elf.symbols order (order-All elf.symbols),
        length-symbol_order elf.symbols,
      );
      same = cc;
    }

-- If `build` returns a file, then the file is that of its final sections as a reader of ELF finds
-- them (`IsElf`); the symbol table stands at the index behind the object's own sections, with the
-- number of the first global symbol as its info, a link to the section behind it, and 24 bytes
-- for each symbol; and every relocation section is linked to it.
pub build-IsElf :
    (elf : Elf) (file : Bytes)
    → build elf ≡ ok file
    → (sections : List Section) × (names : Dict Bytes ℕ) × (final_sections elf
        ≡ ok (sections, names))
      × IsElf sections names file
      × HasSymtab elf sections
      × All (LinksTo (length elf.sections)) sections
unfolding build
build-IsElf elf file h =
    let ((sections, names), made, h1) = >>=-eq-ok (final_sections elf) _ h in
    let p = final_sections-Parts elf sections names made in
    let t = symtab_section elf p.renumbered p.table in
    let s = strings_section (text ".strtab") p.strtab in
    let e = strings_section (text ".shstrtab") p.shstrtab in
    (
      sections,
      names,
      made,
      assemble-IsElf sections names file h1,
      record {
        table = t;
        placed =
            ap (λ ss. get_elem? ss (length elf.sections)) p.same
            ∙ ap (get_elem? (tabled p.renumbered t s e)) (sym p.kept)
            ∙ tabled-symtab p.renumbered t s e refl;
        type = refl;
        info = refl;
        link = omega (arith, p.kept);
        entries = p.sized;
      },
      rw p.same (tabled-LinksTo p.renumbered t s e (length elf.sections) p.kept refl),
    )
