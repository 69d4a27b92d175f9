-- ===== src/Elf/Data.antt =====
-- tools/elf.py, `write`: the sections of the maps, `.maps` and the global data, with their symbols.
use koit.Base.{
  ℕ, ◌+◌, ◌-◌, ◌*◌, Bool, true, false, not, ◌&&◌, ◌||◌, Option, none, some, List, [], ◌∷◌, ◌++◌,
  length, max, ltb, replicate, if◌then◌else◌, Result, ok, err, ◌>>=◌, system_exit, type_error,
  of_option,
}
use koit.Base.Bytes.{Bytes}
use koit.Base.Dict.{Dict, put, bytes_eq}
use koit.Base.Text.{text, from_hex}
use koit.Btf.{var, datasec}
use koit.Btf.Monad.{Btf}
use koit.Btf.OfType.{of_type}
use koit.Document.{MapDecl, Access, ro, wo}
use koit.Document.Layout.{Types, align_of, name_of}
use koit.Elf.{
  Elf, Section, null_section, add_section, add_symbol, sht_progbits, sht_nobits, shf_alloc,
  shf_write, stb_global, stt_object,
}
use koit.Elf.Layout.{pad}
use koit.Elf.Maps.{Variable, datasec_rows, declare_maps}

-- What `write` has built so far.
pub record Writer : Type 0 where
  pub elf : Elf
  pub btf : Btf
  pub map_symbol : Dict Bytes ℕ
  pub kfunc_symbol : Dict Bytes ℕ

-- A symbol for each variable of section `idx`.
unfoldable pub variable_symbols : ℕ → List Variable → Writer → Writer
variable_symbols idx [] w = w
variable_symbols idx (v ∷ vars) w =
    let r = add_symbol v.name v.offset v.size stb_global stt_object idx w.elf in
    variable_symbols idx vars (record w { elf = r.1; map_symbol = put w.map_symbol v.name r.0 })

-- A section of global variables: its entry in BTF, the section, and the symbols.
unfoldable pub variable_section :
    Bytes → ℕ → ℕ → List Variable → Bytes → Writer → Result (ℕ × Writer)
variable_section name type flags vars blob w = do
  (id, btf) ← datasec name (length blob) (datasec_rows vars) w.btf
  let s : Section = record null_section {
    name = name;
    type = type;
    flags = flags;
    content = blob;
    align = 8;
  }
  let (idx, elf) = add_section s w.elf
  ok (idx, variable_symbols idx vars (record w { elf = elf; btf = btf }))

-- The `.maps` section, if there is a declared map: the section's index, and the program slots.
unfoldable pub maps_section :
    Types → List MapDecl → Writer → Result (Option ℕ × List (ℕ × Bytes) × Writer)
maps_section types declared w = do
  ((vars, slots, size), btf) ← declare_maps types declared 0 w.btf
  let w' = record w { btf = btf }
  elim vars [
    | [] ↦ ok (none, slots, w')
    | v ∷ more ↦ (do
      (idx, w'') ←
          variable_section (text ".maps") sht_progbits (shf_alloc + shf_write) (v ∷ more)
            (replicate size 0) w'
      ok (some idx, slots, w''))
  ]

-- The initial bytes of a variable.
unfoldable pub contents_of : MapDecl → Result Bytes
contents_of m = do
  contents ← from_hex m.contents
  if ltb (m.value_size * m.entries) (length contents) then err system_exit else ok contents

-- The loop of `data_section` over the variables, each aligned to its value's alignment, or to eight.
unfoldable pub data_variables :
    Types → List MapDecl → Bytes → Btf → Result (List Variable × Bytes × Btf)
data_variables types [] blob btf = ok ([], blob, btf)
data_variables types (m ∷ members) blob btf = do
  value_type ← of_option type_error m.value
  value_align ← align_of types value_type
  let align = max value_align 8
  let padded = pad align 0 align blob
  (tid, btf1) ← of_type (length types) types value_type (name_of value_type) btf
  (v, btf2) ← var m.name tid 1 btf1
  contents ← contents_of m
  let size = m.value_size * m.entries
  let blob' = padded ++ (contents ++ replicate (size - length contents) 0)
  (vars, blob'', btf3) ← data_variables types members blob' btf2
  ok (record { id = v; offset = length padded; size = size; name = m.name } ∷ vars, blob'', btf3)

-- `data_section`
unfoldable pub data_section : Types → Bytes → List MapDecl → ℕ → Bool → Writer → Result Writer
data_section types name [] flags nobits w = ok w
data_section types name (m ∷ members) flags nobits w = do
  (vars, blob, btf) ← data_variables types (m ∷ members) [] w.btf
  (idx, w') ←
      variable_section name (if nobits then sht_nobits else sht_progbits) flags vars blob
        (record w { btf = btf })
  ok w'

unfoldable pub is_ro : Access → Bool
is_ro ro = true
is_ro _ = false

unfoldable pub is_wo : Access → Bool
is_wo wo = true
is_wo _ = false

unfoldable pub has_contents : MapDecl → Bool
has_contents m = elim m.contents [ [] ↦ false | c ∷ cs ↦ true ]

-- `[m for m in maps if test(m)]`
unfoldable pub select_maps : (MapDecl → Bool) → List MapDecl → List MapDecl
select_maps test [] = []
select_maps test (m ∷ ms) = if test m then m ∷ select_maps test ms else select_maps test ms

unfoldable pub any_map : (MapDecl → Bool) → List MapDecl → Bool
any_map test [] = false
any_map test (m ∷ ms) = test m || any_map test ms

-- The section of a direct map: `.rodata`, `.data` or `.bss`.
unfoldable pub in_rodata : MapDecl → Bool
in_rodata m = is_ro m.access

unfoldable pub in_data : MapDecl → Bool
in_data m = not (is_ro m.access) && has_contents m

unfoldable pub in_bss : MapDecl → Bool
in_bss m = not (is_ro m.access) && not (has_contents m)

unfoldable pub global_data : Types → List MapDecl → Writer → Result Writer
global_data types direct w = if any_map (λ m. is_wo m.access) direct then err system_exit else (do
  w1 ← data_section types (text ".rodata") (select_maps in_rodata direct) shf_alloc false w
  w2 ←
      data_section types (text ".data") (select_maps in_data direct) (shf_alloc + shf_write) false
        w1
  data_section types (text ".bss") (select_maps in_bss direct) (shf_alloc + shf_write) true w2)
