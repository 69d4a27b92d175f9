-- ===== src/Elf/Programs.antt =====
-- tools/elf.py, `write`: the program sections with their relocations, and those of the program
-- arrays.
use koit.Base.{
  ℕ, ◌+◌, ◌*◌, Option, none, some, List, [], ◌∷◌, ◌++◌, length, set, bit_and, bit_or, Result, ok,
  ◌>>=◌, system_exit, key_error, of_option, type_error,
}
use koit.Base.Bits.{and_not, ◌<<<◌}
use koit.Base.Bytes.{Bytes, pack_all}
use koit.Base.Dict.{Dict, get, put, put_all, bytes_eq}
use koit.Base.Text.{text}
use koit.Document.{Program, Reloc, map_fd, map_value, kfunc, unknown}
use koit.Elf.{
  Elf, Section, Symbol, null_section, add_section, add_symbol, sht_progbits, sht_rel, shf_alloc,
  shf_execinstr, stb_global, stt_notype, stt_func, r_bpf_64_64, r_bpf_64_32,
}
use koit.Elf.Data.{Writer}
use koit.Reloc.{words_of, word_at, insns_bytes, pseudo_map_fd}

-- `by_section`: the programs under the names of their sections, in the order of the document.
unfoldable pub group_program : Dict Bytes (List Program) → Program → Dict Bytes (List Program)
group_program groups p = elim (get groups p.section) [
  | none ↦ put groups p.section (p ∷ [])
  | some ps ↦ put groups p.section (ps ++ (p ∷ []))
]

unfoldable pub by_section : Dict Bytes (List Program) → List Program → Dict Bytes (List Program)
by_section groups [] = groups
by_section groups (p ∷ programs) = by_section (group_program groups p) programs

-- One relocation entry.
unfoldable pub rel_entry : ℕ → ℕ → ℕ → Result Bytes
rel_entry off sym type = pack_all ((8, off) ∷ (8, bit_or (sym <<< 32) type) ∷ [])

-- The word of a map reference: libbpf sets the descriptor.
unfoldable pub elf_map_word : ℕ → ℕ
elf_map_word w = bit_or (and_not (bit_and w 0xffffffff) (0xf <<< 12)) (pseudo_map_fd <<< 12)

-- The first word of a direct value: the offset where libbpf reads an addend.
unfoldable pub elf_value_word : ℕ → ℕ → ℕ
elf_value_word w offset =
    bit_or (and_not (bit_and w 0xffffffff) (0xf <<< 12)) (bit_and offset 0xffffffff <<< 32)

-- The symbol of a kfunc, made where it is first called.
unfoldable pub kfunc_symbol_of : Bytes → Writer → ℕ × Writer
kfunc_symbol_of name w = elim (get w.kfunc_symbol name) [
  | some sym ↦ (sym, w)
  | none ↦
      let r = add_symbol name 0 0 stb_global stt_notype 0 w.elf in
      (r.0, record w { elf = r.1; kfunc_symbol = put w.kfunc_symbol name r.0 })
]

-- A direct value, and every kind that is none of the others.
unfoldable pub relocate_value :
    ℕ → ℕ → Option Bytes → Option ℕ → List ℕ → Writer → Result (List ℕ × Bytes × Writer)
relocate_value base i m offset words w = do
  word ← word_at words i
  by ← of_option key_error offset
  let words' = set words i (elf_value_word word by)
  second ← word_at words' (i + 1)
  name ← of_option key_error m
  sym ← of_option key_error (get w.map_symbol name)
  entry ← rel_entry (base + i * 8) sym r_bpf_64_64
  ok (set words' (i + 1) (bit_and second 0xffffffff), entry, w)

-- One relocation of a program at `base`: its words, its entry, and the symbols.
unfoldable pub relocate_one : ℕ → Reloc → List ℕ → Writer → Result (List ℕ × Bytes × Writer)
relocate_one base (kfunc i name proto) words w = do
  word ← word_at words i
  let (sym, w') = kfunc_symbol_of name w
  entry ← rel_entry (base + i * 8) sym r_bpf_64_32
  ok (words, entry, w')
relocate_one base (map_fd i m) words w = do
  word ← word_at words i
  sym ← of_option key_error (get w.map_symbol m)
  entry ← rel_entry (base + i * 8) sym r_bpf_64_64
  ok (set words i (elf_map_word word), entry, w)
relocate_one base (map_value i m offset) words w =
    relocate_value base i (some m) (some offset) words w
relocate_one base (unknown i m offset) words w = relocate_value base i m offset words w

unfoldable pub relocate : ℕ → List Reloc → List ℕ → Writer → Result (List ℕ × Bytes × Writer)
relocate base [] words w = ok (words, [], w)
relocate base (r ∷ relocs) words w = do
  (words', entry, w') ← relocate_one base r words w
  (words'', rels, w'') ← relocate base relocs words' w'
  ok (words'', entry ++ rels, w'')

-- The programs of one section, from `text` on; the section is the next one.
unfoldable pub section_programs :
    List Program → Bytes → Bytes → Writer → Result (Bytes × Bytes × Writer)
section_programs [] code rels w = ok (code, rels, w)
section_programs (p ∷ programs) code rels w = do
  let base = length code
  words ← words_of p
  (words', entries, w') ← relocate base p.relocs words w
  insns ← insns_bytes words'
  let (sym, elf) =
      add_symbol p.name base (length words' * 8) stb_global stt_func (length w'.elf.sections) w'.elf
  section_programs programs (code ++ insns) (rels ++ entries) (record w' { elf = elf })

-- A section that is not empty of relocation entries against section `idx`.
unfoldable pub rel_section : Bytes → Bytes → ℕ → Elf → Elf
rel_section name [] idx elf = elf
rel_section name (b ∷ bs) idx elf =
    (add_section
      (record null_section {
        name = name;
        type = sht_rel;
        content = b ∷ bs;
        info = idx;
        align = 8;
        entsize = 16;
      })
      elf).1

unfoldable pub program_sections : List (Bytes × List Program) → Writer → Result Writer
program_sections [] w = ok w
program_sections ((sec, progs) ∷ groups) w = do
  (code, rels, w') ← section_programs progs [] [] w
  let s : Section = record null_section {
    name = sec;
    type = sht_progbits;
    flags = shf_alloc + shf_execinstr;
    content = code;
    align = 8;
  }
  let (idx, elf) = add_section s w'.elf
  program_sections groups (record w' { elf = rel_section (text ".rel" ++ sec) rels idx elf })

-- `prog_symbol`: the number of every symbol by its name, the last of a name.
unfoldable pub symbol_numbers : ℕ → List Symbol → List (Bytes × ℕ)
symbol_numbers i [] = []
symbol_numbers i (s ∷ symbols) = (s.name, i) ∷ symbol_numbers (i + 1) symbols

unfoldable pub slot_entries : Dict Bytes ℕ → List (ℕ × Bytes) → Result Bytes
slot_entries symbols [] = ok []
slot_entries symbols ((off, name) ∷ slots) = do
  sym ← of_option system_exit (get symbols name)
  entry ← rel_entry off sym r_bpf_64_64
  rest ← slot_entries symbols slots
  ok (entry ++ rest)

-- `.rel.maps`, if a program array has slots. Slots come of a declared map, so that `.maps` is there.
unfoldable pub slot_section : List (ℕ × Bytes) → Option ℕ → Writer → Result Writer
slot_section [] maps_idx w = ok w
slot_section (s ∷ slots) maps_idx w = do
  rels ← slot_entries (put_all [] (symbol_numbers 0 w.elf.symbols)) (s ∷ slots)
  idx ← of_option type_error maps_idx
  ok (record w { elf = rel_section (text ".rel.maps") rels idx w.elf })
