-- ===== src/Load/Programs.antt =====
-- tools/load.py: the programs, loaded and run, and the kfuncs they call.
use koit.Base.{
  ℕ, ◌+◌, ◌^◌, Bool, Option, none, some, List, [], ◌∷◌, ◌++◌, length, take, max, if◌then◌else◌,
  Result, ok, err, system_exit,
}
use koit.Base.Bytes.{Bytes, unpack_from}
use koit.Base.Dict.{Dict, put, has_name, same_bytes, bytes_eq}
use koit.Base.Sort.{sort, lex_leq}
use koit.Base.Text.{text}
use koit.Btf.Reader.{BtfType, read_btf, kfunc_id}
use koit.Document.{KoitUnit, Program, Reloc, kfunc}
use koit.Load.Attr.{attr_prog_load, attr_test_run, prog_load, prog_test_run}
use koit.Load.Machine.{Machine, Event, given, space, L, ◌>>=◌, return, history, lift, bpf}
use koit.Load.Maps.{exit_on_os_error}
use koit.Reloc.{words_of, patch, insns_bytes}

unfoldable pub reloc_names : List Bytes → List Reloc → List Bytes
reloc_names names [] = names
reloc_names names (kfunc i name proto ∷ relocs) =
    reloc_names (if has_name names name then names else names ++ (name ∷ [])) relocs
reloc_names names (r ∷ relocs) = reloc_names names relocs

unfoldable pub program_names : List Bytes → List Program → List Bytes
program_names names [] = names
program_names names (p ∷ programs) = program_names (reloc_names names p.relocs) programs

-- `kfunc_names`: the names of the kfuncs called, each once, sorted.
unfoldable pub kfunc_names : List Program → List Bytes
kfunc_names programs = sort lex_leq (program_names [] programs)

-- The ids of the kfuncs in the kernel's BTF.
unfoldable pub ids_in : List BtfType → List Bytes → Dict Bytes ℕ → Result (Dict Bytes ℕ)
ids_in types [] ids = ok ids
ids_in types (name ∷ names) ids = elim (kfunc_id types name) [
  | none ↦ err system_exit
  | some id ↦ ids_in types names (put ids name id)
]

unfoldable pub ids_from_file : Option Bytes → List Bytes → Result (Dict Bytes ℕ)
ids_from_file vmlinux [] = ok []
ids_from_file none (name ∷ names) = err system_exit
ids_from_file (some blob) (name ∷ names) = elim (read_btf blob) [
  | err e ↦ err e
  | ok types ↦ ids_in types (name ∷ names) []
]

-- The number of bytes of the output buffer.
unfoldable pub output_size : Bytes → ℕ
output_size packet = max (length packet + 256) 4096

-- What the attribute has afterwards: the verdict, and the bytes of the output.
unfoldable pub verdict_of : Bytes → Bytes → Result (ℕ × Bytes)
verdict_of attr output = elim (unpack_from 4 attr 4) [
  | err e ↦ err e
  | ok retval ↦ elim (unpack_from 4 attr 12) [
    | err e ↦ err e
    | ok size_out ↦ ok (retval, take size_out output)
  ]
]

unfoldable pub is_syscall : Program → Bool
is_syscall p = same_bytes p.kind (text "syscall")

module _ (m : Machine) where
  -- The descriptor of the instructions.
  unfoldable pub load_insns : Bytes → Bytes → Bytes → L m.State ℕ
  load_insns attr insns license = do
    reply ←
        exit_on_os_error
          (bpf m prog_load attr (given insns ∷ given (license ++ (0 ∷ [])) ∷ space (2 ^ 22) ∷ []))
    return reply.0

  -- The attribute of the program, its log of 2 ^ 22 bytes.
  unfoldable pub program_attr : List Event → Program → List ℕ → Result Bytes
  program_attr now p words =
      attr_prog_load p.prog_type_id (m.address now 0) (length words) (m.address now 1)
        (m.address now 2, 2 ^ 22) p.name p.attach_id

  -- `load_program`: the program's descriptor. Its log, which is written to a file, is not modelled.
  unfoldable pub load_program : KoitUnit → Dict Bytes ℕ → Dict Bytes ℕ → Program → L m.State ℕ
  load_program unit map_fds kfunc_ids p = do
    words ← lift (words_of p)
    patched ← lift (patch map_fds kfunc_ids words p.relocs)
    insns ← lift (insns_bytes patched)
    now ← history
    attr ← lift (program_attr now p patched)
    load_insns attr insns (unit.license ++ (0 ∷ []))

  unfoldable pub run_syscall : ℕ → L m.State (ℕ × Bytes)
  run_syscall fd = do
    attr ← lift (attr_test_run fd none none none none)
    reply ← bpf m prog_test_run attr []
    lift (verdict_of reply.1 [])

  unfoldable pub run_packet : ℕ → Bytes → L m.State (ℕ × Bytes)
  run_packet fd packet = do
    let size = output_size packet
    now ← history
    attr ← lift (
        attr_test_run fd (some (m.address now 0, length packet)) (some (m.address now 1, size)) none
          none)
    reply ← bpf m prog_test_run attr (given packet ∷ space size ∷ [])
    lift (verdict_of reply.1 reply.2)

  -- `test_run`: the result, and the packet afterwards.
  unfoldable pub test_run : Program → ℕ → Bytes → L m.State (ℕ × Bytes)
  test_run p fd packet = if is_syscall p then run_syscall fd else run_packet fd packet
