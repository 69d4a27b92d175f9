-- ===== src/Load/Order/Loading.antt =====
-- What the first part of `main` leaves when it succeeds: a descriptor for each program that is run and
-- for each that a program array names.
use koit.Base.{
  ℕ, ◌+◌, ◌≡◌, ◌≢◌, arith, All, none, some, List, [], ◌∷◌, of_option, of_option-eq-ok, ap,
  system_exit, key_error, Result, ok, sym,
}
use koit.Base.Bytes.{Bytes, pack_all}
use koit.Base.Dict.{Dict, get, put, get-put, get-put_self, bytes_eq}
use koit.Document.{KoitUnit, MapDecl, Program}
use koit.Load.Machine.{Machine, World, bind_result-eq-ok}
use koit.Load.Main.{create_maps, load_programs, fill_slots, fill_arrays, prepare}
use koit.Load.Maps.{update}
use koit.Load.Programs.{load_program, kfunc_names, ids_from_file}

-- The name has a descriptor.
abbrev pub Known : Dict Bytes ℕ → Bytes → Type 0
Known fds name = get fds name ≢ none

-- Each program that is run is loaded.
abbrev pub Loaded : Dict Bytes ℕ → List Program → Type 0
Loaded fds programs = All (λ p. Known fds p.name) programs

-- Each program that a program array names is loaded.
abbrev pub Filled : Dict Bytes ℕ → List MapDecl → Type 0
Filled fds maps = All (λ map. All (Known fds) map.programs) maps

put-Known : (d : Dict Bytes ℕ) (j k : Bytes) (v : ℕ) → Known d j → Known (put d k v) j
put-Known d j k v known e = ground (arith, get-put d j k v, known)

some-Known : (d : Dict Bytes ℕ) (k : Bytes) {v : ℕ} → get d k ≡ some v → Known d k
some-Known d k h e = cc

second-inj :
    {S : Type 0} {a a' b b' : Dict Bytes ℕ} {w w' : World S}
    → ◌≡◌ {A = Result (Dict Bytes ℕ × Dict Bytes ℕ) × World S} (ok (a, b), w) (ok (a', b'), w')
    → b ≡ b'
second-inj h = cc

module _ (m : Machine) where
  load_programs-Loaded :
      (unit : KoitUnit) (map_fds kfunc_ids : Dict Bytes ℕ) (programs : List Program)
      (fds : Dict Bytes ℕ) {out : Dict Bytes ℕ} (w : World m.State) {w' : World m.State}
      → load_programs m unit map_fds kfunc_ids programs fds w ≡ (ok out, w')
      → ((name : Bytes) → Known fds name → Known out name) × Loaded out programs
  unfolding load_programs
  load_programs-Loaded unit map_fds kfunc_ids [] fds w h = (λ name known e. known cc, tt)
  load_programs-Loaded unit map_fds kfunc_ids (p ∷ programs) fds w h =
      let (fd, w1, _, h1) = bind_result-eq-ok (load_program m unit map_fds kfunc_ids p w) _ h in
      let (kept, rest) =
        load_programs-Loaded unit map_fds kfunc_ids programs (put fds p.name fd) w1 h1 in
      (
        λ name known. kept name (put-Known fds name p.name fd known),
        (kept p.name (some-Known _ p.name (get-put_self fds p.name fd)), rest),
      )

  fill_slots-Known :
      (map_fds fds : Dict Bytes ℕ) (map : MapDecl) (slot : ℕ) (names : List Bytes)
      (w : World m.State) {w' : World m.State}
      → fill_slots m map_fds fds map slot names w ≡ (ok tt, w')
      → All (Known fds) names
  unfolding fill_slots
  fill_slots-Known map_fds fds map slot [] w h = tt
  fill_slots-Known map_fds fds map slot (name ∷ names) w h =
      let (fd, w1, e, h1) = bind_result-eq-ok (of_option system_exit (get fds name), w) _ h in
      let (key, w2, _, h2) = bind_result-eq-ok (pack_all ((4, slot) ∷ []), w1) _ h1 in
      let (value, w3, _, h3) = bind_result-eq-ok (pack_all ((4, fd) ∷ []), w2) _ h2 in
      let (map_fd, w4, _, h4) =
        bind_result-eq-ok (of_option key_error (get map_fds map.name), w3) _ h3 in
      let (_, w5, _, h5) = bind_result-eq-ok (update m map_fd key value w4) _ h4 in
      (
        some-Known fds name (of_option-eq-ok system_exit _ (ap (λ r. r.0) e)),
        fill_slots-Known map_fds fds map (slot + 1) names w5 h5,
      )

  fill_arrays-Filled :
      (map_fds fds : Dict Bytes ℕ) (maps : List MapDecl) (w : World m.State) {w' : World m.State}
      → fill_arrays m map_fds fds maps w ≡ (ok tt, w')
      → Filled fds maps
  unfolding fill_arrays
  fill_arrays-Filled map_fds fds [] w h = tt
  fill_arrays-Filled map_fds fds (map ∷ maps) w h =
      let (_, w1, e, h1) = bind_result-eq-ok (fill_slots m map_fds fds map 0 map.programs w) _ h in
      (
        fill_slots-Known map_fds fds map 0 map.programs w e,
        fill_arrays-Filled map_fds fds maps w1 h1,
      )

  pub prepare-Loaded :
      (unit : KoitUnit) (programs : List Program) {map_fds fds : Dict Bytes ℕ} (w : World m.State)
      {w' : World m.State}
      → prepare m unit programs w ≡ (ok (map_fds, fds), w')
      → Loaded fds programs × Filled fds unit.maps
  unfolding prepare
  prepare-Loaded unit programs {map_fds} {fds} w {w'} h =
      let (ids, w1, _, h1) =
        bind_result-eq-ok (ids_from_file m.vmlinux (kfunc_names programs), w) _ h in
      let (maps', w2, _, h2) = bind_result-eq-ok (create_maps m unit unit.maps [] w1) _ h1 in
      let (fds', w3, e3, h3) =
        bind_result-eq-ok (load_programs m unit maps' ids programs [] w2) _ h2 in
      let (_, w4, e4, h4) = bind_result-eq-ok (fill_arrays m maps' fds' unit.maps w3) _ h3 in
      let same : fds' ≡ fds = second-inj h4 in
      rw (sym same) (
        (load_programs-Loaded unit maps' ids programs [] w2 e3).1,
        fill_arrays-Filled maps' fds' unit.maps w3 e4,
      )
