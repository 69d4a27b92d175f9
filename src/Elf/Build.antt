-- ===== src/Elf/Build.antt =====
-- `Elf.build`: the file's bytes.
use koit.Base.{
  ℕ, zero, suc, ◌+◌, ◌/◌, none, some, List, [], ◌∷◌, ◌++◌, length, map, bit_and, bit_or, ◌==◌,
  if◌then◌else◌, replicate, Result, ok, of_option, ◌>>=◌, key_error,
}
use koit.Base.Bits.{◌<<<◌, ◌>>>◌}
use koit.Base.Bytes.{Bytes, pack_all, unpack_from}
use koit.Base.Dict.{Dict, get, put, bytes_eq, nat_eq}
use koit.Base.Text.{text}
use koit.Elf.{Elf, Section, Symbol, null_section, string, index, sht_rel, sht_symtab, sht_strtab}
use koit.Elf.Layout.{symbol_order, renumbering, select, first_global, pad, lay_out, header_size}

-- One relocation entry, written with the old symbol numbers.
unfoldable pub renumber_entry : Dict ℕ ℕ → Bytes → ℕ → Result Bytes
renumber_entry renumber bytes off = do
  r_offset ← unpack_from 8 bytes off
  r_info ← unpack_from 8 bytes (off + 8)
  sym ← of_option key_error (get renumber (r_info >>> 32))
  pack_all ((8, r_offset) ∷ (8, bit_or (sym <<< 32) (bit_and r_info 0xffffffff)) ∷ [])

-- The loop over `range(0, len(data), 16)`, by the rounds left.
unfoldable pub renumber_entries : Dict ℕ ℕ → Bytes → ℕ → ℕ → Result Bytes
renumber_entries renumber bytes off zero = ok []
renumber_entries renumber bytes off (suc rounds) = do
  entry ← renumber_entry renumber bytes off
  rest ← renumber_entries renumber bytes (off + 16) rounds
  ok (entry ++ rest)

unfoldable pub renumber_sections : Dict ℕ ℕ → List Section → Result (List Section)
renumber_sections renumber [] = ok []
renumber_sections renumber (s ∷ sections) =
    if s.type == sht_rel
    then (do
      data' ← renumber_entries renumber s.content 0 ((length s.content + 15) / 16)
      rest ← renumber_sections renumber sections
      ok (record s { content = data' } ∷ rest))
    else (do rest ← renumber_sections renumber sections; ok (s ∷ rest))

-- The symbol table, and the string table with the symbols' names.
unfoldable pub symtab : List Symbol → Bytes → Result (Bytes × Bytes)
symtab [] strtab = ok ([], strtab)
symtab (s ∷ symbols) strtab = do
  let (name_off, strtab') = string s.name strtab
  entry ←
      pack_all
        ((4, name_off) ∷ (1, s.info) ∷ (1, 0) ∷ (2, s.shndx) ∷ (8, s.value) ∷ (8, s.size) ∷ [])
  (rest, strtab'') ← symtab symbols strtab'
  ok (entry ++ rest, strtab'')

-- `s["link"] = symtab_index` of the relocation sections.
unfoldable pub link_relocs : ℕ → List Section → List Section
link_relocs symtab_index [] = []
link_relocs symtab_index (s ∷ sections) =
    (if s.type == sht_rel then record s { link = symtab_index } else s)
    ∷ link_relocs symtab_index sections

unfoldable pub name_offset : Dict Bytes ℕ → Bytes → ℕ
name_offset names name = elim (get names name) [ none ↦ 0 | some off ↦ off ]

-- The section names: each once, and no entry for the empty one.
unfoldable pub section_names : List Bytes → Dict Bytes ℕ → Bytes → Dict Bytes ℕ × Bytes
section_names [] names table = (names, table)
section_names ([] ∷ rest) names table = section_names rest names table
section_names ((c ∷ cs) ∷ rest) names table =
    let name = c ∷ cs in
    elim (get names name) [
      | some off ↦ section_names rest names table
      | none ↦ section_names rest (put names name (length table)) (table ++ (name ++ (0 ∷ [])))
    ]

unfoldable pub section_header : Dict Bytes ℕ → Section → ℕ → Result Bytes
section_header names s off = pack_all (
    (4, name_offset names s.name)
    ∷ (4, s.type)
    ∷ (8, s.flags)
    ∷ (8, 0)
    ∷ (8, if s.type == 0 then 0 else off)
    ∷ (8, length s.content)
    ∷ (4, s.link)
    ∷ (4, s.info)
    ∷ (8, s.align)
    ∷ (8, s.entsize)
    ∷ [])

-- `zip(self.sections, offsets)`
unfoldable pub section_headers : Dict Bytes ℕ → List Section → List ℕ → Result Bytes
section_headers names (s ∷ sections) (off ∷ offsets) = do
  h ← section_header names s off
  rest ← section_headers names sections offsets
  ok (h ++ rest)
section_headers names _ _ = ok []

abbrev pub ident : Bytes
ident = 0x7f ∷ b'E' ∷ b'L' ∷ b'F' ∷ 2 ∷ 1 ∷ 1 ∷ 0 ∷ replicate 8 0

unfoldable pub file_header : ℕ → ℕ → ℕ → Result Bytes
file_header shoff shnum shstrndx = do
  fields ← pack_all (
      (2, 1)
      ∷ (2, 247)
      ∷ (4, 1)
      ∷ (8, 0)
      ∷ (8, 0)
      ∷ (8, shoff)
      ∷ (4, 0)
      ∷ (2, header_size)
      ∷ (2, 0)
      ∷ (2, 0)
      ∷ (2, header_size)
      ∷ (2, shnum)
      ∷ (2, shstrndx)
      ∷ [])
  ok (ident ++ fields)

-- The file of the sections: the body after the header, padded to eight, then the section headers.
unfoldable pub assemble : List Section → Dict Bytes ℕ → Result Bytes
assemble sections names = do
  let (offsets, laid) = lay_out sections []
  let body = pad 8 header_size 8 laid
  shdrs ← section_headers names sections offsets
  shstrndx ← index sections (text ".shstrtab")
  ehdr ← file_header (header_size + length body) (length sections) shstrndx
  ok (ehdr ++ (body ++ shdrs))

-- The sections of the file: those of the object with the relocations renumbered and linked, then
-- `.symtab`, `.strtab` and `.shstrtab`; and the offsets of their names.
unfoldable pub final_sections : Elf → Result (List Section × Dict Bytes ℕ)
final_sections elf = do
  let order = symbol_order elf.symbols
  let symbols = select elf.symbols order
  renumbered ← renumber_sections (renumbering order) elf.sections
  (table, strtab) ← symtab symbols elf.strtab
  let symtab_index = length renumbered
  let symtab_section : Section = record {
    name = text ".symtab";
    type = sht_symtab;
    flags = 0;
    content = table;
    link = symtab_index + 1;
    info = first_global symbols;
    align = 8;
    entsize = 24;
  }
  let strtab_section : Section = record null_section {
    name = text ".strtab";
    type = sht_strtab;
    content = strtab;
    align = 1;
  }
  let linked = link_relocs symtab_index (renumbered ++ (symtab_section ∷ (strtab_section ∷ [])))
  let (names, shstrtab) =
      section_names (map (λ (s : Section). s.name) linked ++ (text ".shstrtab" ∷ [])) [] (0 ∷ [])
  let shstrtab_section : Section = record null_section {
    name = text ".shstrtab";
    type = sht_strtab;
    content = shstrtab;
    align = 1;
  }
  ok (linked ++ (shstrtab_section ∷ []), names)

-- `Elf.build`
unfoldable pub build : Elf → Result Bytes
build elf = do (sections, names) ← final_sections elf; assemble sections names
