-- ===== src/Load/Order/Running.antt =====
-- The part of `main` that runs the programs and reads the maps: what it does, whatever the kernel answers.
use koit.Base.{
  ℕ, zero, suc, ◌+◌, ◌≢◌, refl, arith, Bool, true, false, ◌&&◌, not, if◌then◌else◌, Option, none,
  some, List, [], ◌∷◌, ◌++◌, of_option, key_error, sym, append-nil, Bool-cases, inl, inr,
}
use koit.Base.Bytes.{Bytes, pack, pack_all}
use koit.Base.Dict.{Dict, get, bytes_eq}
use koit.Base.Text.{text, hex}
use koit.Document.{
  KoitUnit, MapDecl, Program, MapKind, ringbuf, hash, array, percpu, prog_array, sockmap, sockhash,
}
use koit.Load.{ringbuf_records}
use koit.Load.Attr.{
  map_create, map_lookup_elem, map_update_elem, map_get_next_key, map_freeze, prog_load,
  prog_test_run, btf_load,
}
use koit.Load.Emits.{Emits, nothing, one, both, or_absent-Adds, bpf-Adds}
use koit.Load.Machine.{Machine, Event, called, printed, closed, L, ◌>>=◌, return, emit}
use koit.Load.Main.{Args, close_fd, run_program, run_programs, print_lines, report_maps, run_all}
use koit.Load.Maps.{
  lookup, lookup_elem, next_key, next_key_call, keys_from, keys, read_pairs, read_cells,
  read_ringbuf, read_kind, read_map,
}
use koit.Load.Programs.{is_syscall, run_syscall, run_packet, test_run}
use koit.Report.{verdict_name, report_map}

-- No map is created, filled or frozen, and no program or BTF is loaded.
abbrev pub Runs : Event → Type 0
Runs (called cmd attr buffers) =
    (cmd ≢ map_create)
    × (cmd ≢ map_update_elem)
    × (cmd ≢ map_freeze)
    × (cmd ≢ prog_load)
    × (cmd ≢ btf_load)
Runs (printed line) = Unit
Runs (closed fd) = Unit

lookup_event : Runs (called map_lookup_elem [] [])
lookup_event = (
  λ e. omega (arith, e),
  λ e. omega (arith, e),
  λ e. omega (arith, e),
  λ e. omega (arith, e),
  λ e. omega (arith, e),
)

next_event : Runs (called map_get_next_key [] [])
next_event = (
  λ e. omega (arith, e),
  λ e. omega (arith, e),
  λ e. omega (arith, e),
  λ e. omega (arith, e),
  λ e. omega (arith, e),
)

test_event : Runs (called prog_test_run [] [])
test_event = (
  λ e. omega (arith, e),
  λ e. omega (arith, e),
  λ e. omega (arith, e),
  λ e. omega (arith, e),
  λ e. omega (arith, e),
)

module _ (m : Machine) where
  lookup-Runs : (fd : ℕ) (key : Bytes) (size : ℕ) → Emits Runs (lookup m fd key size)
  unfolding lookup lookup_elem
  lookup-Runs fd key size w = or_absent-Adds none (lookup_elem m fd key size) (
      both nothing
        (λ attr w1. both (bpf-Adds m map_lookup_elem _ _ lookup_event) (λ r w2. nothing)))

  next_key_call-Runs : (fd size : ℕ) (key : Option Bytes) → Emits Runs (next_key_call m fd size key)
  unfolding next_key_call
  next_key_call-Runs fd size none w =
      both nothing (λ attr w1. both (bpf-Adds m map_get_next_key _ _ next_event) (λ r w2. nothing))
  next_key_call-Runs fd size (some key) w =
      both nothing (λ attr w1. both (bpf-Adds m map_get_next_key _ _ next_event) (λ r w2. nothing))

  next_key-Runs : (fd size : ℕ) (key : Option Bytes) → Emits Runs (next_key m fd size key)
  unfolding next_key
  next_key-Runs fd size key w =
      or_absent-Adds none (next_key_call m fd size key) (next_key_call-Runs fd size key w)

  keys_from-Runs :
      (fuel fd size : ℕ) (key : Option Bytes) → Emits Runs (keys_from m fuel fd size key)
  unfolding keys_from
  keys_from-Runs zero fd size key w = nothing
  keys_from-Runs (suc fuel) fd size key w =
      both (next_key-Runs fd size key w) (behind (keys_from-Runs fuel fd size))
    where
      behind :
          ((key : Option Bytes) → Emits Runs (keys_from m fuel fd size key))
          → (found : Option Bytes)
          → Emits Runs (elim found as (λ _. L m.State (List Bytes)) [
            | none ↦ return []
            | some next ↦ (do rest ← keys_from m fuel fd size (some next); return (next ∷ rest))
          ])
      behind more none w1 = nothing
      behind more (some next) w1 = both (more (some next) w1) (λ rest w2. nothing)

  read_pairs-Runs : (fd size : ℕ) (ks : List Bytes) → Emits Runs (read_pairs m fd size ks)
  unfolding read_pairs
  read_pairs-Runs fd size [] w = nothing
  read_pairs-Runs fd size (key ∷ ks) w =
      both (lookup-Runs fd key size w)
        (λ found w1. both (read_pairs-Runs fd size ks w1) (λ rest w2. nothing))

  read_cells-Runs : (fd size i count : ℕ) → Emits Runs (read_cells m fd size i count)
  unfolding read_cells
  read_cells-Runs fd size i zero w = nothing
  read_cells-Runs fd size i (suc count) w =
      both {r = (pack_all ((4, i) ∷ []), w)} nothing (λ key w1.
        both (lookup-Runs fd key size w1)
          (λ found w2. both (read_cells-Runs fd size (i + 1) count w2) (λ rest w3. nothing)))

  read_ringbuf-Runs : (fd size : ℕ) → Emits Runs (read_ringbuf m fd size)
  unfolding read_ringbuf
  read_ringbuf-Runs fd size w =
      both
        {r = (
          ringbuf_records m.page size (m.ring fd size w.kernel).0 (m.ring fd size w.kernel).1,
          w,
        )}
        nothing
        (λ found w1.
          both {r = (pack 8 found.1, w1)} nothing
            (λ position w2. record { evs = []; added = sym (append-nil w2.events); all = tt }))

  read_kind-Runs : (map : MapDecl) (fd : ℕ) (kind : MapKind) → Emits Runs (read_kind m map fd kind)
  unfolding read_kind keys
  read_kind-Runs map fd ringbuf w = both (read_ringbuf-Runs fd map.entries w) (λ found w1. nothing)
  read_kind-Runs map fd hash w =
      both (keys_from-Runs (suc map.entries) fd map.key_size none w)
        (λ ks w1. both (read_pairs-Runs fd map.value_size ks w1) (λ found w2. nothing))
  read_kind-Runs map fd array w =
      both (read_cells-Runs fd map.value_size 0 map.entries w) (λ found w1. nothing)
  read_kind-Runs map fd percpu w =
      both (read_cells-Runs fd map.value_size 0 map.entries w) (λ found w1. nothing)
  read_kind-Runs map fd prog_array w =
      both (read_cells-Runs fd map.value_size 0 map.entries w) (λ found w1. nothing)
  read_kind-Runs map fd sockmap w =
      both (read_cells-Runs fd map.value_size 0 map.entries w) (λ found w1. nothing)
  read_kind-Runs map fd sockhash w =
      both (read_cells-Runs fd map.value_size 0 map.entries w) (λ found w1. nothing)

  run_syscall-Runs : (fd : ℕ) → Emits Runs (run_syscall m fd)
  unfolding run_syscall
  run_syscall-Runs fd w =
      both nothing (λ attr w1. both (bpf-Adds m prog_test_run _ _ test_event) (λ r w2. nothing))

  run_packet-Runs : (fd : ℕ) (packet : Bytes) → Emits Runs (run_packet m fd packet)
  unfolding run_packet
  run_packet-Runs fd packet w =
      both nothing (λ attr w1. both (bpf-Adds m prog_test_run _ _ test_event) (λ r w2. nothing))

  test_run-Runs : (p : Program) (fd : ℕ) (packet : Bytes) → Emits Runs (test_run m p fd packet)
  unfolding test_run
  test_run-Runs p fd packet w = elim (Bool-cases (is_syscall p)) [
    | inl e ↦ rw e (run_syscall-Runs fd w)
    | inr e ↦ rw e (run_packet-Runs fd packet w)
  ]

  show-Runs :
      (shown : Bool) (line : Bytes)
      → Emits {S = m.State} Runs (if shown then emit (printed line) else return tt)
  show-Runs true line w = one (printed line) tt
  show-Runs false line w = nothing

  close_fd-Runs : (fd : ℕ) → Emits Runs (close_fd m fd)
  unfolding close_fd
  close_fd-Runs fd w = record { evs = closed fd ∷ []; added = refl; all = (tt, tt) }

  run_program-Runs :
      (args : Args) (packet : Bytes) (fds : Dict Bytes ℕ) (p : Program)
      → Emits Runs (run_program m args packet fds p)
  unfolding run_program
  run_program-Runs args packet fds p w =
      both {r = (of_option key_error (get fds p.name), w)} nothing (λ fd w1.
        both (test_run-Runs p fd packet w1) (λ out w2.
          both {r = (verdict_name p out.0, w2)} nothing (λ verdict w3.
            both (one (printed (p.name ++ (text ": " ++ verdict))) tt) (λ u w4.
              both
                (show-Runs (args.show_packet && not (is_syscall p))
                  (p.name ++ (text ": packet: 0x" ++ hex out.1)) w4)
                (λ v w5. close_fd-Runs fd w5)))))

  run_programs-Runs :
      (args : Args) (packet : Bytes) (fds : Dict Bytes ℕ) (programs : List Program)
      → Emits Runs (run_programs m args packet fds programs)
  unfolding run_programs
  run_programs-Runs args packet fds [] w = nothing
  run_programs-Runs args packet fds (p ∷ programs) w =
      both (run_program-Runs args packet fds p w)
        (λ u w1. run_programs-Runs args packet fds programs w1)

  print_lines-Runs : (lines : List Bytes) → Emits Runs (print_lines m lines)
  unfolding print_lines
  print_lines-Runs [] w = nothing
  print_lines-Runs (line ∷ lines) w =
      both (one (printed line) tt) (λ u w1. print_lines-Runs lines w1)

  report_maps-Runs :
      (unit : KoitUnit) (fds : Dict Bytes ℕ) (maps : List MapDecl)
      → Emits Runs (report_maps m unit fds maps)
  unfolding report_maps read_map
  report_maps-Runs unit fds [] w = nothing
  report_maps-Runs unit fds (map ∷ maps) w =
      both {r = (of_option key_error (get fds map.name), w)} nothing (λ fd w1.
        both (read_kind-Runs map fd map.kind w1) (λ contents w2.
          both {r = (report_map unit.types map contents, w2)} nothing (λ lines w3.
            both (print_lines-Runs lines w3) (λ u w4. report_maps-Runs unit fds maps w4))))

  pub run_all-Runs :
      (args : Args) (unit : KoitUnit) (packet : Bytes) (programs : List Program)
      (fds : Dict Bytes ℕ × Dict Bytes ℕ)
      → Emits Runs (run_all m args unit packet programs fds)
  unfolding run_all
  run_all-Runs args unit packet programs fds w =
      both (run_programs-Runs args packet fds.1 programs w)
        (λ u w1. report_maps-Runs unit fds.0 unit.maps w1)
