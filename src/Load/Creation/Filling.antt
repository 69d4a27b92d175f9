-- ===== src/Load/Creation/Filling.antt =====
-- tools/load.py: the events of the system calls that `create_map` makes for a map's contents.
use koit.Base.{
  ℕ, ◌≡◌, refl, sym, ap, ◌∙◌, Option-cases, inl, inr, List, [], ◌∷◌, ◌++◌, append_assoc, append-nil,
  Result, ok, err, Error, system_exit,
}
use koit.Base.Bytes.{Bytes, pack_all}
use koit.Base.Dict.{get, bytes_eq}
use koit.Load.Attr.{attr_map_elem, map_update_elem}
use koit.Load.Machine.{
  Machine, Buffer, given, Reply, done, refused, Event, called, World, bind_result-eq-ok, bpf, call,
  answer, syscall_nr,
}
use koit.Load.Maps.{update, write_values}
use mathlib.Core.Path.{subst}

-- An update for each value, its number as the key; the events `before` come before them.
abbrev pub Updates : Machine → ℕ → List Event → List (ℕ × Bytes) → List Event → Type 0
Updates m fd before [] evs = evs ≡ []
Updates m fd before ((i, value) ∷ values) evs =
    (key : Bytes) × (attr : Bytes) × (rest : List Event) × (pack_all ((4, i) ∷ []) ≡ ok key)
    × (attr_map_elem fd (m.address before 0) (m.address before 1) 0 ≡ ok attr)
    × (evs ≡ called map_update_elem attr (given key ∷ (given value ∷ [])) ∷ rest)
    × Updates m fd (before ++ (called map_update_elem attr (given key ∷ (given value ∷ [])) ∷ []))
        values rest

-- From `w` to `w'` the events were added, which satisfy `P`.
abbrev pub Added : {S : Type 0} → (List Event → Type 0) → World S → World S → Type 0
Added P w w' = (evs : List Event) × (w'.events ≡ w.events ++ evs) × P evs

pub never :
    {S A : Type 0} {e : Error} {a : A} {w w' : World S}
    → ◌≡◌ {A = Result A × World S} (err e, w) (ok a, w')
    → ⊥
never h = cc

pub events_of :
    {S A : Type 0} {a b : A} {w w' : World S}
    → ◌≡◌ {A = Result A × World S} (ok a, w) (ok b, w')
    → w'.events ≡ w.events
events_of h = ap (λ x. x.1.events) (sym h)

pub value_eq :
    {S A : Type 0} {a b : A} {w w' : World S}
    → ◌≡◌ {A = Result A × World S} (ok a, w) (ok b, w')
    → a ≡ b
value_eq h = cc

module _ (m : Machine) where
  answered :
      (asked : World m.State) (reply : Reply) (s : m.State) {r : ℕ × Bytes × Bytes}
      {w' : World m.State}
      → answer reply s asked ≡ (ok r, w')
      → w'.events ≡ asked.events
  answered asked (done n out written) s e = events_of e
  answered asked (refused errno) s e = absurd (never e)

  pub bpf-event :
      (cmd : ℕ) (attr : Bytes) (buffers : List Buffer) (w : World m.State) {r : ℕ × Bytes × Bytes}
      {w' : World m.State}
      → bpf m cmd attr buffers w ≡ (ok r, w')
      → w'.events ≡ w.events ++ (called cmd attr buffers ∷ [])
  unfolding bpf call
  bpf-event cmd attr buffers w {r} {w'} h = elim (Option-cases (get syscall_nr m.architecture)) [
    | inl unknown ↦
        let e : bpf m cmd attr buffers w ≡ (err system_exit, w) = rw (bpf, unknown) refl in
        absurd (never (sym e ∙ h))
    | inr (nr, known) ↦
        let asked : World m.State = record w {
          events = w.events ++ (called cmd attr buffers ∷ []);
        } in
        let reply = m.syscall nr cmd attr buffers w.kernel in
        let e : bpf m cmd attr buffers w ≡ answer reply.0 reply.1 asked = rw (bpf, known) refl in
        answered asked reply.0 reply.1 (sym e ∙ h)
  ]

  abbrev update_event : Bytes → Bytes → Bytes → Event
  update_event attr key value = called map_update_elem attr (given key ∷ (given value ∷ []))

  update-event :
      (fd : ℕ) (key value : Bytes) (w : World m.State) {w' : World m.State}
      → update m fd key value w ≡ (ok tt, w')
      → (attr : Bytes) × (attr_map_elem fd (m.address w.events 0) (m.address w.events 1) 0
          ≡ ok attr)
        × (w'.events ≡ w.events ++ (update_event attr key value ∷ []))
  unfolding update
  update-event fd key value w h =
      let (attr, w1, e1, h1) =
        bind_result-eq-ok (attr_map_elem fd (m.address w.events 0) (m.address w.events 1) 0, w) _
          h in
      let (reply, w2, e2, h2) =
        bind_result-eq-ok (bpf m map_update_elem attr (given key ∷ (given value ∷ [])) w1) _ h1 in
      (
        attr,
        ap (λ x. x.0) e1,
        events_of h2
            ∙ bpf-event map_update_elem attr _ w1 e2
            ∙ ap (λ es. es ++ (update_event attr key value ∷ [])) (ap (λ x. x.1.events) (sym e1)),
      )

  pub write_values-Updates :
      (fd : ℕ) (values : List (ℕ × Bytes)) (w : World m.State) {w' : World m.State}
      → write_values m fd values w ≡ (ok tt, w')
      → Added (Updates m fd w.events values) w w'
  unfolding write_values
  write_values-Updates fd [] w h = ([], events_of h ∙ sym (append-nil w.events), refl)
  write_values-Updates fd ((i, value) ∷ values) w h =
      let (key, w1, e1, h1) = bind_result-eq-ok (pack_all ((4, i) ∷ []), w) _ h in
      let (_, w2, e2, h2) = bind_result-eq-ok (update m fd key value w1) _ h1 in
      let start : w1.events ≡ w.events = ap (λ x. x.1.events) (sym e1) in
      let (attr, packs, added) = update-event fd key value w1 e2 in
      let behind : w2.events ≡ w.events ++ (update_event attr key value ∷ []) =
        added ∙ ap (λ es. es ++ (update_event attr key value ∷ [])) start in
      let (rest, e5, updates) = write_values-Updates fd values w2 h2 in
      (
        update_event attr key value ∷ rest,
        e5
            ∙ ap (λ es. es ++ rest) behind
            ∙ append_assoc w.events (update_event attr key value ∷ []) rest,
        (
          key,
          attr,
          rest,
          ap (λ x. x.0) e1,
          subst (λ es. attr_map_elem fd (m.address es 0) (m.address es 1) 0 ≡ ok attr) start packs,
          refl,
          subst (λ es. Updates m fd es values rest) behind updates,
        ),
      )
