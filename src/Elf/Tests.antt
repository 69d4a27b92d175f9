-- ===== src/Elf/Tests.antt =====
-- A small object: a program section with a relocation against an extern, and three symbols.
use koit.Base.{
  ℕ, ◌<◌, ◌≡◌, ◌+◌, refl, arith, true, false, some, none, List, [], ◌∷◌, ◌++◌, length, get_elem?,
  take, drop, All, Result, ok, err,
}
use koit.Base.Bytes.{Bytes, pack, pack_all, le_bytes, unpack_from, of_le}
use koit.Base.Dict.{Dict, get, put, put_all, nat_eq, bytes_eq, same_bytes}
use koit.Base.Sort.{sort, insert}
use koit.Base.Text.{text}
use koit.Document.{Program}
use koit.Elf
use koit.Elf.{Elf, Section, Symbol, null_section, null_symbol, sht_progbits, sht_rel}
use koit.Elf.Build.{
  assemble, build, final_sections, renumber_entry, renumber_entries, renumber_sections, symtab,
  link_relocs, section_names, section_header, section_headers, name_offset, file_header,
}
use koit.Elf.File.{IsElf, assemble-IsElf}
use koit.Elf.Groups.{of_section, with_more, get-by_section}
use koit.Elf.Layout.{
  symbol_order, renumbering, select, first_global, is_global, sort_key, key_leq, bool_leq, range,
  numbered, pad, lay_out, header_size,
}
use koit.Elf.Layout.Locals.{symbol_order-LocalsFirst}
use koit.Elf.Layout.Order.{renumbering-select}
use koit.Elf.Layout.Placement.{Placed, lay_out-Placed}
use koit.Elf.Programs.{by_section, rel_entry}
use koit.Elf.Symbols.{renumber_entry-rel_entry}
use koit.Elf.Tables.{HasSymtab, LinksTo}
use koit.Elf.Whole.{build-IsElf}

abbrev bytes_of : Result Bytes → Bytes
bytes_of (ok b) = b
bytes_of (err e) = []

abbrev code : Section
code = record null_section {
  name = text "xdp";
  type = sht_progbits;
  content = 0x95 ∷ (0 ∷ (0 ∷ []));
  align = 8;
}

abbrev names_section : Section
names_section = record null_section {
  name = text ".shstrtab";
  type = 3;
  content = 0 ∷ [];
  align = 1;
}

abbrev sections : List Section
sections = null_section ∷ (code ∷ (names_section ∷ []))

abbrev names : Dict Bytes ℕ
names = (text "xdp", 1) ∷ ((text ".shstrtab", 5) ∷ [])

abbrev small_file : Bytes
small_file = bytes_of (assemble sections names)

assembled : assemble sections names ≡ ok small_file
unfolding assemble section_headers section_header name_offset file_header pack_all pack le_bytes
    lay_out pad get same_bytes Elf.index Elf.index_from
assembled = refl

assemble-IsElf_example : IsElf sections names small_file
assemble-IsElf_example = assemble-IsElf sections names small_file assembled

abbrev main_symbol : Symbol
main_symbol = record null_symbol { name = text "f"; info = 18; shndx = 1; size = 8 }

abbrev local_symbol : Symbol
local_symbol = record null_symbol { name = text "g"; info = 2; shndx = 1 }

abbrev symbols : List Symbol
symbols = null_symbol ∷ (main_symbol ∷ (local_symbol ∷ []))

abbrev entry : Bytes
entry = le_bytes 8 8 ++ (10 ∷ (0 ∷ (0 ∷ (0 ∷ (1 ∷ (0 ∷ (0 ∷ (0 ∷ []))))))))

abbrev rels : Section
rels = record null_section {
  name = text ".relxdp";
  type = sht_rel;
  content = entry;
  info = 1;
  align = 8;
  entsize = 16;
}

abbrev object : Elf
object = record {
  sections = null_section ∷ (code ∷ (rels ∷ []));
  symbols = symbols;
  strtab = 0 ∷ [];
}

abbrev object_file : Bytes
object_file = bytes_of (build object)

built : build object ≡ ok object_file
unfolding build final_sections renumber_sections renumber_entries renumber_entry unpack_from of_le
    symtab link_relocs section_names symbol_order renumbering select first_global is_global sort
    insert sort_key key_leq bool_leq range numbered put put_all Elf.string assemble section_headers
    section_header name_offset file_header pack_all pack le_bytes lay_out pad get same_bytes
    Elf.index Elf.index_from
built = refl

build-IsElf_example :
    (sections : List Section) × (names : Dict Bytes ℕ) × (final_sections object
      ≡ ok (sections, names))
    × IsElf sections names object_file
    × HasSymtab object sections
    × All (LinksTo (length object.sections)) sections
build-IsElf_example = build-IsElf object object_file built

lay_out-Placed_example :
    Placed header_size sections
      (lay_out sections []).0
      (header_size + length {A = ℕ} [])
      ((lay_out sections []).1 ++ (7 ∷ []))
lay_out-Placed_example = lay_out-Placed sections [] (7 ∷ [])

renumbering-select_example :
    (j : ℕ) × (get (renumbering (symbol_order symbols)) 1 ≡ some j)
    × (j < length symbols)
    × (get_elem? (select symbols (symbol_order symbols)) j ≡ get_elem? symbols 1)
renumbering-select_example = renumbering-select symbols 1 (omega arith)

null-local : is_global null_symbol ≡ false
unfolding is_global
null-local = refl

symbol_order-LocalsFirst_example :
    (get_elem? (select symbols (symbol_order symbols)) 0 ≡ some null_symbol)
    × All
        (λ s. is_global s ≡ false)
        (take
          (first_global (select symbols (symbol_order symbols)))
          (select symbols (symbol_order symbols)))
    × All
        (λ s. is_global s ≡ true)
        (drop
          (first_global (select symbols (symbol_order symbols)))
          (select symbols (symbol_order symbols)))
symbol_order-LocalsFirst_example =
    symbol_order-LocalsFirst null_symbol (main_symbol ∷ (local_symbol ∷ [])) null-local

entry_made : rel_entry 8 1 10 ≡ ok entry
unfolding rel_entry pack_all pack le_bytes
entry_made = refl

renumber_entry-rel_entry_example :
    (j : ℕ) × (renumbered : Bytes) × (renumber_entry
        (renumbering (symbol_order symbols))
        ((3 ∷ []) ++ (entry ++ []))
        1
      ≡ ok renumbered)
    × (rel_entry 8 j 10 ≡ ok renumbered)
    × (get_elem? (select symbols (symbol_order symbols)) j ≡ get_elem? symbols 1)
renumber_entry-rel_entry_example =
    renumber_entry-rel_entry symbols (3 ∷ []) entry [] 8 1 10 (omega arith) (omega arith)
      (omega arith) entry_made

abbrev program_in : Bytes → Program
program_in sec = record {
  name = text "p";
  kind = text "xdp";
  prog_type_id = 6;
  section = sec;
  attach_id = 0;
  result = text "i32";
  verdicts = [];
  words = [];
  relocs = [];
  subprograms = [];
}

abbrev programs : List Program
programs = program_in (text "xdp") ∷ (program_in (text "tc") ∷ (program_in (text "xdp") ∷ []))

get-by_section_example :
    get (by_section [] programs) (text "xdp") ≡ with_more none (of_section (text "xdp") programs)
get-by_section_example = get-by_section programs (text "xdp")
