-- ===== src/Elf.antt =====
-- tools/elf.py, the class `Elf`: an ELF64 relocatable under construction, its sections and symbols
-- by index, and the string table of the symbols.
pub mod Layout
pub mod Build
pub mod File
pub mod Symbols
pub mod Maps
pub mod Data
pub mod Programs
pub mod Info
pub mod Write
pub mod Groups
pub mod Tables
pub mod Whole
mod Tests
use koit.Base.{
  ℕ, ◌+◌, ◌-◌, ◌≡◌, refl, Option, none, some, List, [], ◌∷◌, ◌++◌, length, bit_or, Result, ok, err,
  key_error, if◌then◌else◌,
}
use koit.Base.Bits.{◌<<<◌}
use koit.Base.Bytes.{Bytes}
use koit.Base.Dict.{same_bytes}

abbrev pub sht_progbits : ℕ
sht_progbits = 1

abbrev pub sht_symtab : ℕ
sht_symtab = 2

abbrev pub sht_strtab : ℕ
sht_strtab = 3

abbrev pub sht_nobits : ℕ
sht_nobits = 8

abbrev pub sht_rel : ℕ
sht_rel = 9

abbrev pub shf_write : ℕ
shf_write = 1

abbrev pub shf_alloc : ℕ
shf_alloc = 2

abbrev pub shf_execinstr : ℕ
shf_execinstr = 4

abbrev pub stb_local : ℕ
stb_local = 0

abbrev pub stb_global : ℕ
stb_global = 1

abbrev pub stt_notype : ℕ
stt_notype = 0

abbrev pub stt_object : ℕ
stt_object = 1

abbrev pub stt_func : ℕ
stt_func = 2

abbrev pub r_bpf_64_64 : ℕ
r_bpf_64_64 = 1

abbrev pub r_bpf_64_32 : ℕ
r_bpf_64_32 = 10

abbrev pub btf_func_extern : ℕ
btf_func_extern = 2

-- `content` is the field `data`.
pub record Section : Type 0 where
  pub name : Bytes
  pub type : ℕ
  pub flags : ℕ
  pub content : Bytes
  pub link : ℕ
  pub info : ℕ
  pub align : ℕ
  pub entsize : ℕ

pub record Symbol : Type 0 where
  pub name : Bytes
  pub value : ℕ
  pub size : ℕ
  pub info : ℕ
  pub shndx : ℕ

pub record Elf : Type 0 where
  pub sections : List Section
  pub symbols : List Symbol
  pub strtab : Bytes

abbrev pub null_section : Section
null_section = record {
  name = [];
  type = 0;
  flags = 0;
  content = [];
  link = 0;
  info = 0;
  align = 0;
  entsize = 0;
}

abbrev pub null_symbol : Symbol
null_symbol = record { name = []; value = 0; size = 0; info = 0; shndx = 0 }

-- `Elf()`
abbrev pub new : Elf
new = record { sections = null_section ∷ []; symbols = null_symbol ∷ []; strtab = 0 ∷ [] }

-- `Elf.string`, on the string table alone: the offset, and the new table.
unfoldable pub string : Bytes → Bytes → ℕ × Bytes
string [] strtab = (0, strtab)
string (c ∷ cs) strtab = (length strtab, strtab ++ ((c ∷ cs) ++ (0 ∷ [])))

-- `Elf.section`: the index of the new section.
unfoldable pub add_section : Section → Elf → ℕ × Elf
add_section s elf = (length elf.sections, record elf { sections = elf.sections ++ (s ∷ []) })

unfoldable pub index_from : ℕ → List Section → Bytes → Result ℕ
index_from i [] name = err key_error
index_from i (s ∷ ss) name = if same_bytes s.name name then ok i else index_from (i + 1) ss name

-- `Elf.index`
unfoldable pub index : List Section → Bytes → Result ℕ
index sections name = index_from 0 sections name

-- `Elf.symbol`: the index of the new symbol.
unfoldable pub add_symbol : Bytes → ℕ → ℕ → ℕ → ℕ → ℕ → Elf → ℕ × Elf
add_symbol name value size bind type shndx elf =
    let s : Symbol = record {
      name = name;
      value = value;
      size = size;
      info = bit_or (bind <<< 4) type;
      shndx = shndx;
    } in
    (length elf.symbols, record elf { symbols = elf.symbols ++ (s ∷ []) })
