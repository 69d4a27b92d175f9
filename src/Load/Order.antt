-- ===== src/Load/Order.antt =====
-- `main` runs in two parts: what creates, loads and fills, and what runs and reads.
mod Preparing
mod Running
mod Loading
use koit.Base.{
  ℕ, ◌≡◌, refl, ap, sym, ◌∙◌, Option, List, Result, Result-cases, Error, err, ok, ◌⊎◌, inl, inr,
}
use koit.Base.Bytes.{Bytes}
use koit.Base.Dict.{Dict}
use koit.Base.Text.{from_hex}
use koit.Document.{KoitUnit, Program}
use koit.Load.{check_version}
use koit.Load.Emits.{Adds, nothing}
use koit.Load.Machine.{Machine, World, bind_result, bind_result-eq-ok}
use koit.Load.Main.{Args, chosen, prepare, run_all, run_unit}
use Loading.{Loaded, Filled, prepare-Loaded}
use Preparing.{Prepares, prepare-Prepares}
use Running.{Runs, run_all-Runs}

-- A run that raises before any program runs.
pub record Stops (m : Machine) (w : World m.State) (r : Result (Unit {0}) × World m.State)
    : Type 0 where
  pub raised : Error
  pub raises : r.0 ≡ err raised
  pub prepares : Adds Prepares w r

-- A run that prepares, up to the world `ready`, and runs the programs from there.
pub record Goes (m : Machine) (args : Args) (unit : KoitUnit) (w : World m.State)
    (r : Result (Unit {0}) × World m.State) : Type 0 where
  pub programs : List Program
  pub map_fds : Dict Bytes ℕ
  pub prog_fds : Dict Bytes ℕ
  pub ready : World m.State
  pub selected : chosen args.program unit.programs ≡ ok programs
  pub prepared : prepare m unit programs w ≡ (ok (map_fds, prog_fds), ready)
  pub prepares : Adds Prepares w (prepare m unit programs w)
  pub loaded : Loaded prog_fds programs
  pub filled : Filled prog_fds unit.maps
  pub runs : Adds Runs ready r

module _ (m : Machine) (args : Args) (unit : KoitUnit) (w : World m.State) where
  prepared_run :
      (packet : Bytes) (programs : List Program)
      → chosen args.program unit.programs ≡ ok programs
      → (fds : Result (Dict Bytes ℕ × Dict Bytes ℕ)) (ready : World m.State)
      → prepare m unit programs w ≡ (fds, ready)
      → Stops m w (bind_result (fds, ready) (run_all m args unit packet programs))
        ⊎ Goes m args unit w (bind_result (fds, ready) (run_all m args unit packet programs))
  prepared_run packet programs selected (err e) ready h =
      let d = prepare-Prepares m unit programs w in
      inl (record {
        raised = e;
        raises = refl;
        prepares = record {
          evs = d.evs;
          added = ap (λ r. r.1.events) (sym h) ∙ d.added;
          all = d.all;
        };
      })
  prepared_run packet programs selected (ok (map_fds, fds)) ready h =
      let (loaded, filled) = prepare-Loaded m unit programs w h in
      inr (record {
        programs = programs;
        map_fds = map_fds;
        prog_fds = fds;
        ready = ready;
        selected = selected;
        prepared = h;
        prepares = prepare-Prepares m unit programs w;
        loaded = loaded;
        filled = filled;
        runs = run_all-Runs m args unit packet programs (map_fds, fds) ready;
      })

  -- Whatever the kernel answers, `main` on a unit either raises, and has then run no program,
  -- printed nothing and closed nothing; or the programs asked for are selected and `prepare`
  -- succeeds on them, after which each of them and each program that a program array names has a
  -- descriptor; up to there no program has run, and from there on no map is created, written or
  -- frozen and no program or BTF is loaded.
  pub run_unit_in_order :
      Stops m w (run_unit m args unit w) ⊎ Goes m args unit w (run_unit m args unit w)
  unfolding run_unit
  run_unit_in_order = elim (Result-cases (check_version unit.kernel m.release args.any_kernel)) [
    | inl (e, h) ↦ rw h (stops e)
    | inr (_, h) ↦ rw h (elim (Result-cases (from_hex args.packet)) [
      | inl (e, h') ↦ rw h' (stops e)
      | inr (packet, h') ↦ rw h' (elim (Result-cases (chosen args.program unit.programs)) [
        | inl (e, h'') ↦ rw h'' (stops e)
        | inr (programs, h'') ↦ rw h'' (
            prepared_run packet programs h'' (prepare m unit programs w).0
              (prepare m unit programs w).1 refl)
      ])
    ])
  ]
    where
      stops : (e : Error) → Stops m w (err e, w) ⊎ Goes m args unit w (err e, w)
      stops e = inl (record { raised = e; raises = refl; prepares = nothing })
