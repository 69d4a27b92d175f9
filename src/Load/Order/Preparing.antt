-- ===== src/Load/Order/Preparing.antt =====
-- The part of `main` that creates, loads and fills: what it does, whatever the kernel answers.
use koit.Base.{
  ℕ, ◌+◌, ◌≢◌, arith, Option, none, some, List, [], ◌∷◌, ◌++◌, of_option, system_exit, key_error,
}
use koit.Base.Bytes.{Bytes, pack_all}
use koit.Base.Dict.{Dict, get, bytes_eq}
use koit.Document.{KoitUnit, MapDecl, Program, Access, rw, ro, wo}
use koit.Load.Attr.{map_create, map_update_elem, map_freeze, prog_load, prog_test_run, btf_load}
use koit.Load.Emits.{Emits, nothing, both, exit_on_os_error-Adds, bpf-Adds}
use koit.Load.Machine.{Machine, Event, called, printed, closed}
use koit.Load.Maps.{
  load_blob, btf_ids, freeze_for, update, write_values, freeze, fill_map, create_map,
}
use koit.Load.Programs.{program_attr, load_insns, load_program}
use koit.Load.Main.{create_maps, load_programs, fill_slots, fill_arrays, prepare}
use koit.Reloc.{words_of, patch, insns_bytes}

-- No program runs, and nothing is printed or closed.
abbrev pub Prepares : Event → Type 0
Prepares (called cmd attr buffers) = cmd ≢ prog_test_run
Prepares (printed line) = ⊥
Prepares (closed fd) = ⊥

creates : Prepares (called map_create [] [])
creates e = omega (arith, e)

updates : Prepares (called map_update_elem [] [])
updates e = omega (arith, e)

freezes : Prepares (called map_freeze [] [])
freezes e = omega (arith, e)

loads : Prepares (called prog_load [] [])
loads e = omega (arith, e)

loads_btf : Prepares (called btf_load [] [])
loads_btf e = omega (arith, e)

module _ (m : Machine) where
  update-Prepares : (fd : ℕ) (key value : Bytes) → Emits Prepares (update m fd key value)
  unfolding update
  update-Prepares fd key value w =
      both nothing (λ attr w1. both (bpf-Adds m map_update_elem _ _ updates) (λ r w2. nothing))

  write_values-Prepares :
      (fd : ℕ) (values : List (ℕ × Bytes)) → Emits Prepares (write_values m fd values)
  unfolding write_values
  write_values-Prepares fd [] w = nothing
  write_values-Prepares fd ((i, value) ∷ values) w = both nothing (λ key w1.
      both (update-Prepares fd key value w1) (λ r w2. write_values-Prepares fd values w2))

  freeze-Prepares : (fd : ℕ) → Emits Prepares (freeze m fd)
  unfolding freeze
  freeze-Prepares fd w =
      both nothing (λ attr w1. both (bpf-Adds m map_freeze _ _ freezes) (λ r w2. nothing))

  freeze_for-Prepares : (access : Access) (fd : ℕ) → Emits Prepares (freeze_for m access fd)
  unfolding freeze_for
  freeze_for-Prepares ro fd w = freeze-Prepares fd w
  freeze_for-Prepares rw fd w = nothing
  freeze_for-Prepares wo fd w = nothing

  fill_map-Prepares : (map : MapDecl) (fd : ℕ) → Emits Prepares (fill_map m map fd)
  unfolding fill_map
  fill_map-Prepares map fd w = both nothing (λ contents w1.
      both (write_values-Prepares fd _ w1) (λ r w2. freeze_for-Prepares map.access fd w2))

  load_blob-Prepares : (blob : Bytes) → Emits Prepares (load_blob m blob)
  unfolding load_blob
  load_blob-Prepares blob w = both nothing (λ attr w1.
      both (exit_on_os_error-Adds _ (bpf-Adds m btf_load _ _ loads_btf)) (λ r w2. nothing))

  btf_ids-Prepares :
      (unit : KoitUnit) (map : MapDecl) (lock : Option ℕ) → Emits Prepares (btf_ids m unit map lock)
  unfolding btf_ids
  btf_ids-Prepares unit map none w = nothing
  btf_ids-Prepares unit map (some offset) w =
      both nothing (λ made w1. both (load_blob-Prepares made.0 w1) (λ fd w2. nothing))

  create_map-Prepares : (unit : KoitUnit) (map : MapDecl) → Emits Prepares (create_map m unit map)
  unfolding create_map
  create_map-Prepares unit map w = both (btf_ids-Prepares unit map map.spin_lock w) (λ ids w1.
      both nothing (λ attr w2.
        both (bpf-Adds m map_create _ _ creates)
          (λ r w3. both (fill_map-Prepares map r.0 w3) (λ u w4. nothing))))

  create_maps-Prepares :
      (unit : KoitUnit) (maps : List MapDecl) (fds : Dict Bytes ℕ)
      → Emits Prepares (create_maps m unit maps fds)
  unfolding create_maps
  create_maps-Prepares unit [] fds w = nothing
  create_maps-Prepares unit (map ∷ maps) fds w =
      both (create_map-Prepares unit map w) (λ fd w1. create_maps-Prepares unit maps _ w1)

  load_insns-Prepares :
      (attr insns license : Bytes) → Emits Prepares (load_insns m attr insns license)
  unfolding load_insns
  load_insns-Prepares attr insns license w =
      both (exit_on_os_error-Adds _ (bpf-Adds m prog_load _ _ loads)) (λ r w1. nothing)

  load_program-Prepares :
      (unit : KoitUnit) (map_fds kfunc_ids : Dict Bytes ℕ) (p : Program)
      → Emits Prepares (load_program m unit map_fds kfunc_ids p)
  unfolding load_program
  load_program-Prepares unit map_fds kfunc_ids p w = both {r = (words_of p, w)} nothing (λ words w1.
      both {r = (patch map_fds kfunc_ids words p.relocs, w1)} nothing (λ patched w2.
        both {r = (insns_bytes patched, w2)} nothing (λ insns w3.
          both {r = (program_attr m w3.events p patched, w3)} nothing
            (λ attr w4. load_insns-Prepares attr insns (unit.license ++ (0 ∷ [])) w4))))

  load_programs-Prepares :
      (unit : KoitUnit) (map_fds kfunc_ids : Dict Bytes ℕ) (programs : List Program)
      (fds : Dict Bytes ℕ)
      → Emits Prepares (load_programs m unit map_fds kfunc_ids programs fds)
  unfolding load_programs
  load_programs-Prepares unit map_fds kfunc_ids [] fds w = nothing
  load_programs-Prepares unit map_fds kfunc_ids (p ∷ programs) fds w =
      both (load_program-Prepares unit map_fds kfunc_ids p w)
        (λ fd w1. load_programs-Prepares unit map_fds kfunc_ids programs _ w1)

  fill_slots-Prepares :
      (map_fds prog_fds : Dict Bytes ℕ) (map : MapDecl) (slot : ℕ) (names : List Bytes)
      → Emits Prepares (fill_slots m map_fds prog_fds map slot names)
  unfolding fill_slots
  fill_slots-Prepares map_fds prog_fds map slot [] w = nothing
  fill_slots-Prepares map_fds prog_fds map slot (name ∷ names) w =
      both {r = (of_option system_exit (get prog_fds name), w)} nothing (λ prog_fd w1.
        both {r = (pack_all ((4, slot) ∷ []), w1)} nothing (λ key w2.
          both {r = (pack_all ((4, prog_fd) ∷ []), w2)} nothing (λ value w3.
            both {r = (of_option key_error (get map_fds map.name), w3)} nothing (λ map_fd w4.
              both (update-Prepares map_fd key value w4)
                (λ u w5. fill_slots-Prepares map_fds prog_fds map (slot + 1) names w5)))))

  fill_arrays-Prepares :
      (map_fds prog_fds : Dict Bytes ℕ) (maps : List MapDecl)
      → Emits Prepares (fill_arrays m map_fds prog_fds maps)
  unfolding fill_arrays
  fill_arrays-Prepares map_fds prog_fds [] w = nothing
  fill_arrays-Prepares map_fds prog_fds (map ∷ maps) w =
      both (fill_slots-Prepares map_fds prog_fds map 0 map.programs w)
        (λ u w1. fill_arrays-Prepares map_fds prog_fds maps w1)

  pub prepare-Prepares :
      (unit : KoitUnit) (programs : List Program) → Emits Prepares (prepare m unit programs)
  unfolding prepare
  prepare-Prepares unit programs w = both nothing (λ ids w1.
      both (create_maps-Prepares unit unit.maps [] w1) (λ map_fds w2.
        both (load_programs-Prepares unit map_fds ids programs [] w2) (λ prog_fds w3.
          both (fill_arrays-Prepares map_fds prog_fds unit.maps w3) (λ u w4. nothing))))
