-- ===== src/Elf/Write.antt =====
-- tools/elf.py, `write`: the object file of a unit.
use koit.Base.{◌+◌, not, [], ◌∷◌, ◌++◌, length, if◌then◌else◌, Result, ok, ◌>>=◌}
use koit.Base.Bytes.{Bytes}
use koit.Base.Text.{text}
use koit.Btf.Blob.{blob, ext_blob}
use koit.Btf.Monad.{Btf}
use koit.Btf.Monad
use koit.Document.{KoitUnit}
use koit.Elf
use koit.Elf.{
  Section, null_section, add_section, add_symbol, sht_progbits, shf_alloc, shf_write, stb_global,
  stt_object,
}
use koit.Elf.Build.{build}
use koit.Elf.Data.{Writer, maps_section, global_data, select_maps}
use koit.Elf.Info.{fns_by_name, ext_sections, any_subprograms}
use koit.Elf.Maps.{collect_kfuncs, ksyms}
use koit.Elf.Programs.{by_section, program_sections, slot_section}

unfoldable pub start : KoitUnit → Result Writer
start unit = do
  kfuncs ← collect_kfuncs [] unit.programs
  (done, btf) ← ksyms kfuncs Monad.new
  ok (record { elf = Elf.new; btf = btf; map_symbol = []; kfunc_symbol = [] })

-- `.BTF.ext`, which a unit with subprograms has.
unfoldable pub add_info : KoitUnit → Writer → Result Writer
add_info unit w = do
  (secs, btf) ← ext_sections unit.types (fns_by_name unit.fns) (by_section [] unit.programs) w.btf
  if any_subprograms unit.programs
      then (do
        (ext, btf') ← ext_blob secs btf
        let s : Section = record null_section {
          name = text ".BTF.ext";
          type = sht_progbits;
          content = ext;
          align = 4;
        }
        ok (record w { elf = (add_section s w.elf).1; btf = btf' }))
      else ok (record w { btf = btf })

-- `license` with its symbol, and `.BTF`.
unfoldable pub finish : KoitUnit → Writer → Result Writer
finish unit w = do
  let lic = unit.license ++ (0 ∷ [])
  let s : Section = record null_section {
    name = text "license";
    type = sht_progbits;
    flags = shf_alloc + shf_write;
    content = lic;
    align = 1;
  }
  let (idx, elf) = add_section s w.elf
  let (sym, elf') = add_symbol (text "_license") 0 (length lic) stb_global stt_object idx elf
  (b, btf) ← blob w.btf
  let t : Section = record null_section {
    name = text ".BTF";
    type = sht_progbits;
    content = b;
    align = 4;
  }
  ok (record w { elf = (add_section t elf').1; btf = btf })

-- `write(unit)`
unfoldable pub write : KoitUnit → Result Bytes
write unit = do
  w0 ← start unit
  let declared = select_maps (λ m. not m.direct) unit.maps
  let direct = select_maps (λ m. m.direct) unit.maps
  (maps_idx, slots, w1) ← maps_section unit.types declared w0
  w2 ← global_data unit.types direct w1
  w3 ← program_sections (by_section [] unit.programs) w2
  w4 ← slot_section slots maps_idx w3
  w5 ← add_info unit w4
  w6 ← finish unit w5
  build w6.elf
