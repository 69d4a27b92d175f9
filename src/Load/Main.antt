-- ===== src/Load/Main.antt =====
-- tools/load.py: `main` behind the command line, in its stages.
use koit.Base.{
  ℕ, ◌+◌, Bool, ◌&&◌, not, Option, none, some, List, [], ◌∷◌, ◌++◌, if◌then◌else◌, Result, ok, err,
  system_exit, os_error, key_error, of_option,
}
use koit.Base.Bytes.{Bytes, pack_all}
use koit.Base.Dict.{Dict, get, put, same_bytes, bytes_eq}
use koit.Base.Text.{text, hex, from_hex}
use koit.Document.{KoitUnit, MapDecl, Program}
use koit.Load.{check_version}
use koit.Load.Machine.{Machine, printed, closed, L, ◌>>=◌, ◌>>◌, return, lift, emit}
use koit.Load.Maps.{create_map, update, read_map}
use koit.Load.Programs.{kfunc_names, ids_from_file, load_program, test_run, is_syscall}
use koit.Report.{verdict_name, report_map}

-- The arguments, `--ctx` left out: `main` refuses it.
pub record Args : Type 0 where
  pub packet : Bytes
  pub program : Option Bytes
  pub any_kernel : Bool
  pub show_packet : Bool

unfoldable pub named_only : Bytes → List Program → List Program
named_only name [] = []
named_only name (p ∷ programs) =
    let rest = named_only name programs in if same_bytes p.name name then p ∷ rest else rest

-- `programs`; there must be one if a name is asked for.
unfoldable pub chosen : Option Bytes → List Program → Result (List Program)
chosen none programs = ok programs
chosen (some name) programs = elim (named_only name programs) [
  | [] ↦ err system_exit
  | p ∷ found ↦ ok (p ∷ found)
]

unfoldable pub of_closing : Option ℕ → Result (Unit {0})
of_closing none = ok tt
of_closing (some errno) = err (os_error errno)

module _ (m : Machine) where
  unfoldable pub create_maps : KoitUnit → List MapDecl → Dict Bytes ℕ → L m.State (Dict Bytes ℕ)
  create_maps unit [] fds = return fds
  create_maps unit (map ∷ maps) fds = do
    fd ← create_map m unit map
    create_maps unit maps (put fds map.name fd)

  unfoldable pub load_programs :
      KoitUnit
      → Dict Bytes ℕ
      → Dict Bytes ℕ
      → List Program
      → Dict Bytes ℕ
      → L m.State (Dict Bytes ℕ)
  load_programs unit map_fds kfunc_ids [] fds = return fds
  load_programs unit map_fds kfunc_ids (p ∷ programs) fds = do
    fd ← load_program m unit map_fds kfunc_ids p
    load_programs unit map_fds kfunc_ids programs (put fds p.name fd)

  -- The slots of a program array from `slot` on.
  unfoldable pub fill_slots :
      Dict Bytes ℕ → Dict Bytes ℕ → MapDecl → ℕ → List Bytes → L m.State (Unit {0})
  fill_slots map_fds prog_fds map slot [] = return tt
  fill_slots map_fds prog_fds map slot (name ∷ names) = do
    prog_fd ← lift (of_option system_exit (get prog_fds name))
    key ← lift (pack_all ((4, slot) ∷ []))
    value ← lift (pack_all ((4, prog_fd) ∷ []))
    map_fd ← lift (of_option key_error (get map_fds map.name))
    update m map_fd key value
    fill_slots map_fds prog_fds map (slot + 1) names

  unfoldable pub fill_arrays : Dict Bytes ℕ → Dict Bytes ℕ → List MapDecl → L m.State (Unit {0})
  fill_arrays map_fds prog_fds [] = return tt
  fill_arrays map_fds prog_fds (map ∷ maps) = do
    fill_slots map_fds prog_fds map 0 map.programs
    fill_arrays map_fds prog_fds maps

  -- `os.close(fd)`
  unfoldable pub close_fd : ℕ → L m.State (Unit {0})
  close_fd fd w =
      (do
        emit (closed fd)
        let r = m.close fd w.kernel
        (λ w'. (of_closing r.0, record w' { kernel = r.1 })))
        w

  -- One program: the verdict's line, the packet's if it is asked for, and its descriptor closed.
  unfoldable pub run_program : Args → Bytes → Dict Bytes ℕ → Program → L m.State (Unit {0})
  run_program args packet prog_fds p = do
    fd ← lift (of_option key_error (get prog_fds p.name))
    (retval, out) ← test_run m p fd packet
    verdict ← lift (verdict_name p retval)
    emit (printed (p.name ++ (text ": " ++ verdict)))
    (if args.show_packet && not (is_syscall p)
        then emit (printed (p.name ++ (text ": packet: 0x" ++ hex out)))
        else return tt)
    close_fd fd

  unfoldable pub run_programs : Args → Bytes → Dict Bytes ℕ → List Program → L m.State (Unit {0})
  run_programs args packet prog_fds [] = return tt
  run_programs args packet prog_fds (p ∷ programs) = do
    run_program args packet prog_fds p
    run_programs args packet prog_fds programs

  unfoldable pub print_lines : List Bytes → L m.State (Unit {0})
  print_lines [] = return tt
  print_lines (line ∷ lines) = do emit (printed line); print_lines lines

  unfoldable pub report_maps : KoitUnit → Dict Bytes ℕ → List MapDecl → L m.State (Unit {0})
  report_maps unit map_fds [] = return tt
  report_maps unit map_fds (map ∷ maps) = do
    fd ← lift (of_option key_error (get map_fds map.name))
    contents ← read_map m map fd
    lines ← lift (report_map unit.types map contents)
    print_lines lines
    report_maps unit map_fds maps

  -- Everything up to the first run: the descriptors of the maps and of the programs.
  unfoldable pub prepare : KoitUnit → List Program → L m.State (Dict Bytes ℕ × Dict Bytes ℕ)
  prepare unit programs = do
    kfunc_ids ← lift (ids_from_file m.vmlinux (kfunc_names programs))
    map_fds ← create_maps unit unit.maps []
    prog_fds ← load_programs unit map_fds kfunc_ids programs []
    fill_arrays map_fds prog_fds unit.maps
    return (map_fds, prog_fds)

  -- The runs, and the maps' contents afterwards.
  unfoldable pub run_all :
      Args → KoitUnit → Bytes → List Program → Dict Bytes ℕ × Dict Bytes ℕ → L m.State (Unit {0})
  run_all args unit packet programs (map_fds, prog_fds) = do
    run_programs args packet prog_fds programs
    report_maps unit map_fds unit.maps

  -- `main` on a unit.
  unfoldable pub run_unit : Args → KoitUnit → L m.State (Unit {0})
  run_unit args unit = do
    lift (check_version unit.kernel m.release args.any_kernel)
    packet ← lift (from_hex args.packet)
    programs ← lift (chosen args.program unit.programs)
    fds ← prepare unit programs
    run_all args unit packet programs fds
