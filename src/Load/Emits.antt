-- ===== src/Load/Emits.antt =====
-- What the loader's functions do to the world: the events that they add, whatever the kernel answers.
use koit.Base.{
  ℕ, ◌≡◌, refl, sym, ap, ◌∙◌, inl, inr, List, [], ◌∷◌, ◌++◌, All, All-append, Result, ok, err,
  append-nil, append_assoc, Option-cases, os_error, Bool-cases, ◌==◌,
}
use koit.Base.Bytes.{Bytes}
use koit.Base.Dict.{get, bytes_eq}
use koit.Load.Machine.{
  bind_result, Machine, Buffer, Reply, done, refused, Event, called, World, L, emit, call, bpf,
  syscall_nr, answer,
}
use koit.Load.Maps.{exit_on_os_error, or_absent, exit_result, absent_for}

-- The outcome has events added behind those of `w`, which satisfy `P`.
pub record Adds {S A : Type 0} (P : Event → Type 0) (w : World S) (r : Result A × World S)
    : Type 0 where
  pub evs : List Event
  pub added : r.1.events ≡ w.events ++ evs
  pub all : All P evs

-- From every world the function adds events that satisfy `P`.
abbrev pub Emits : {S A : Type 0} → (Event → Type 0) → L S A → Type 0
Emits {S} P m = (w : World S) → Adds P w (m w)

module _ {S : Type 0} {P : Event → Type 0} where
  pub nothing : {A : Type 0} {r : Result A} {w : World S} → Adds P w (r, w)
  nothing {w} = record { evs = []; added = sym (append-nil w.events); all = tt }

  pub one : {w : World S} (e : Event) → P e → Adds P w (emit e w)
  one {w} e p = record { evs = e ∷ []; added = refl; all = (p, tt) }

  pub both :
      {A B : Type 0} {w : World S} {r : Result A × World S} {f : A → L S B}
      → Adds P w r
      → ((a : A) (w' : World S) → Adds P w' (f a w'))
      → Adds P w (bind_result r f)
  both {w} {r = (err e, w')} d k = record { evs = d.evs; added = d.added; all = d.all }
  both {w} {r = (ok a, w')} d k =
      let more = k a w' in
      record {
        evs = d.evs ++ more.evs;
        added =
            more.added ∙ ap (λ es. es ++ more.evs) d.added ∙ append_assoc w.events d.evs more.evs;
        all = All-append P d.evs more.evs d.all more.all;
      }

  -- The handlers of `OSError` change the result alone.
  pub exit_on_os_error-Adds :
      {A : Type 0} (m : L S A) {w : World S} → Adds P w (m w) → Adds P w (exit_on_os_error m w)
  unfolding exit_on_os_error
  exit_on_os_error-Adds {A} m {w} h = same_events (m w) h
    where
      same_events : (r : Result A × World S) → Adds P w r → Adds P w (exit_result r)
      same_events (ok a, w') d = record { evs = d.evs; added = d.added; all = d.all }
      same_events (err e, w') d = record { evs = d.evs; added = d.added; all = d.all }

  pub or_absent-Adds :
      {A : Type 0} (a : A) (m : L S A) {w : World S} → Adds P w (m w) → Adds P w (or_absent a m w)
  unfolding or_absent
  or_absent-Adds {A} a m {w} h = same_events (m w) h
    where
      same_events : (r : Result A × World S) → Adds P w r → Adds P w (absent_for a r)
      same_events (ok b, w') d = record { evs = d.evs; added = d.added; all = d.all }
      same_events (err (os_error errno), w') d = elim (Bool-cases (errno == 2)) [
        | inl e ↦ record { evs = d.evs; added = rw e d.added; all = d.all }
        | inr e ↦ record { evs = d.evs; added = rw e d.added; all = d.all }
      ]
      same_events (err e, w') d = record { evs = d.evs; added = d.added; all = d.all }

module _ (m : Machine) {P : Event → Type 0} where
  call-Emits :
      (nr cmd : ℕ) (attr : Bytes) (buffers : List Buffer)
      → P (called cmd attr buffers)
      → Emits P (call m nr cmd attr buffers)
  unfolding call
  call-Emits nr cmd attr buffers p w = after (m.syscall nr cmd attr buffers w.kernel)
    where
      w' : World m.State
      w' = record w { events = w.events ++ (called cmd attr buffers ∷ []) }

      after : (r : Reply × m.State) → Adds P w (answer r.0 r.1 w')
      after (done r out written, s) = record {
        evs = called cmd attr buffers ∷ [];
        added = refl;
        all = (p, tt);
      }
      after (refused errno, s) = record {
        evs = called cmd attr buffers ∷ [];
        added = refl;
        all = (p, tt);
      }

  -- A system call is one event at most: none on an unknown architecture.
  pub bpf-Adds :
      (cmd : ℕ) (attr : Bytes) (buffers : List Buffer) {w : World m.State}
      → P (called cmd attr buffers)
      → Adds P w (bpf m cmd attr buffers w)
  unfolding bpf
  bpf-Adds cmd attr buffers {w} p = elim (Option-cases (get syscall_nr m.architecture)) [
    | inl unknown ↦ rw (bpf, unknown) nothing
    | inr (nr, known) ↦ rw (bpf, known) (call-Emits nr cmd attr buffers p w)
  ]
