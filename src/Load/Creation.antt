-- ===== src/Load/Creation.antt =====
-- tools/load.py: the calls that `create_map` has made when it succeeds.
pub mod Filling
use koit.Base.{
  ℕ, ◌≡◌, refl, sym, ap, ◌∙◌, Option-cases, none, inl, inr, List, [], ◌∷◌, ◌++◌, append_assoc,
  append-nil, Result, ok, err, Error, system_exit, ◌+◌, ◌-◌, arith, length, take, replicate,
  length-take_le, >>=-eq-ok,
}
use koit.Base.Bytes.{Bytes, pack_all, le_bytes, field_bytes, Fit, pack_all-eq-ok}
use koit.Base.Dict.{get, bytes_eq}
use koit.Base.Text.{from_hex}
use koit.Document.{KoitUnit, MapDecl, Access}
use koit.Load.{initial_values}
use koit.Load.Attr.{
  attr_map_create, name_field, attr_map_elem, map_create, map_update_elem, map_freeze,
}
use koit.Load.Machine.{
  Machine, Buffer, given, Reply, done, refused, Event, called, World, bind_result-eq-ok, bpf, call,
  answer, syscall_nr,
}
use koit.Load.Creation.Filling.{
  Updates, Added, events_of, value_eq, bpf-event, write_values-Updates,
}
use koit.Load.Maps.{btf_ids, update, write_values, freeze, freeze_for, fill_map, create_map}
use mathlib.Core.Path.{subst}

-- A freeze for a read-only map alone.
abbrev pub Freezes : ℕ → Access → List Event → Type 0
Freezes fd Access.ro evs =
    (attr : Bytes) × (pack_all ((4, fd) ∷ []) ≡ ok attr) × (evs ≡ called map_freeze attr [] ∷ [])
Freezes fd Access.rw evs = evs ≡ []
Freezes fd Access.wo evs = evs ≡ []

-- The updates with the map's contents, and the freeze.
pub record Fills (m : Machine) (map : MapDecl) (fd : ℕ) (before evs : List Event) : Type 0 where
  pub contents : Bytes
  pub updates : List Event
  pub freezes : List Event
  pub reads : from_hex map.contents ≡ ok contents
  pub updated : Updates m fd before (initial_values contents map.value_size 0 map.entries) updates
  pub frozen : Freezes fd map.access freezes
  pub order : evs ≡ updates ++ freezes

-- The numbers that begin the attribute of a map without BTF.
abbrev pub numbers_of : MapDecl → List (ℕ × ℕ)
numbers_of map =
    (4, map.type_id)
    ∷ (4, map.key_size)
    ∷ (4, map.value_size)
    ∷ (4, map.entries)
    ∷ (4, map.flags)
    ∷ (4, 0)
    ∷ (4, 0)
    ∷ []

-- The attribute of a map without BTF: the numbers, which fit; sixteen bytes with up to fifteen of the
-- name and zeros behind it; and sixteen zeros.
pub record IsMapAttr (map : MapDecl) (attr : Bytes) : Type 0 where
  pub fits : Fit (numbers_of map)
  pub zeros : ℕ
  pub filled : length (take 15 map.name) + zeros ≡ 16
  pub bytes :
      attr
      ≡ field_bytes (numbers_of map) ++ ((take 15 map.name ++ replicate zeros 0) ++ replicate 16 0)

attr_map_create-IsMapAttr :
    (map : MapDecl) {attr : Bytes}
    → attr_map_create map.type_id map.key_size map.value_size map.entries map.flags map.name
        (0, 0, 0)
      ≡ ok attr
    → IsMapAttr map attr
unfolding attr_map_create name_field le_bytes
attr_map_create-IsMapAttr map {attr} h =
    let (before, e1, h1) = >>=-eq-ok (pack_all (numbers_of map)) _ h in
    let (after, e2, h2) = >>=-eq-ok (pack_all ((4, 0) ∷ (4, 0) ∷ (4, 0) ∷ (4, 0) ∷ [])) _ h1 in
    let p = pack_all-eq-ok (numbers_of map) e1 in
    let q = pack_all-eq-ok ((4, 0) ∷ (4, 0) ∷ (4, 0) ∷ (4, 0) ∷ []) e2 in
    record {
      fits = p.0;
      zeros = 16 - length (take 15 map.name);
      filled = omega (arith, length-take_le 15 map.name);
      bytes =
          sym (cc h2)
          ∙ ap (λ (b : Bytes). b ++ (name_field map.name ++ after)) p.1
          ∙ ap (λ (b : Bytes). field_bytes (numbers_of map) ++ (name_field map.name ++ b)) q.1;
    }

-- The creation, and what fills the map.
pub record Creates (m : Machine) (map : MapDecl) (fd : ℕ) (before evs : List Event) : Type 0 where
  pub attr : Bytes
  pub filling : List Event
  pub is : IsMapAttr map attr
  pub fills : Fills m map fd (before ++ (called map_create attr [] ∷ [])) filling
  pub order : evs ≡ called map_create attr [] ∷ filling

module _ (m : Machine) where
  freeze_for-Freezes :
      (access : Access) (fd : ℕ) (w : World m.State) {w' : World m.State}
      → freeze_for m access fd w ≡ (ok tt, w')
      → Added (Freezes fd access) w w'
  unfolding freeze_for freeze
  freeze_for-Freezes Access.rw fd w h = ([], events_of h ∙ sym (append-nil w.events), refl)
  freeze_for-Freezes Access.wo fd w h = ([], events_of h ∙ sym (append-nil w.events), refl)
  freeze_for-Freezes Access.ro fd w h =
      let (attr, w1, e1, h1) = bind_result-eq-ok (pack_all ((4, fd) ∷ []), w) _ h in
      let (reply, w2, e2, h2) = bind_result-eq-ok (bpf m map_freeze attr [] w1) _ h1 in
      (
        called map_freeze attr [] ∷ [],
        events_of h2
            ∙ bpf-event m map_freeze attr [] w1 e2
            ∙ ap (λ es. es ++ (called map_freeze attr [] ∷ [])) (ap (λ x. x.1.events) (sym e1)),
        (attr, ap (λ x. x.0) e1, refl),
      )

  fill_map-Fills :
      (map : MapDecl) (fd : ℕ) (w : World m.State) {w' : World m.State}
      → fill_map m map fd w ≡ (ok tt, w')
      → Added (Fills m map fd w.events) w w'
  unfolding fill_map
  fill_map-Fills map fd w h =
      let (contents, w1, e1, h1) = bind_result-eq-ok (from_hex map.contents, w) _ h in
      let values = initial_values contents map.value_size 0 map.entries in
      let (_, w2, e2, h2) = bind_result-eq-ok (write_values m fd values w1) _ h1 in
      let (updates, u, updated) = write_values-Updates m fd values w1 e2 in
      let (freezes, f, frozen) = freeze_for-Freezes map.access fd w2 h2 in
      (
        updates ++ freezes,
        f
            ∙ ap (λ es. es ++ freezes)
                (u ∙ ap (λ es. es ++ updates) (ap (λ x. x.1.events) (sym e1)))
            ∙ append_assoc w.events updates freezes,
        record {
          contents = contents;
          updates = updates;
          freezes = freezes;
          reads = ap (λ x. x.0) e1;
          updated =
              subst (λ es. Updates m fd es values updates) (ap (λ x. x.1.events) (sym e1)) updated;
          frozen = frozen;
          order = refl;
        },
      )

  -- If `create_map` of a map without a spin lock succeeds, then it has made exactly these calls,
  -- in this order: the creation, with the attribute's bytes made of the map's type, sizes,
  -- entries and flags, up to fifteen bytes of its name, and no BTF; an update of the new
  -- descriptor for each of the initial values of the document's contents, with the entry's number
  -- in four bytes as the key, and the addresses of buffers made for that call; and, for a
  -- read-only map alone, a freeze of the descriptor.
  pub create_map-Creates :
      (unit : KoitUnit) (map : MapDecl) (w : World m.State) {fd : ℕ} {w' : World m.State}
      → map.spin_lock ≡ none
      → create_map m unit map w ≡ (ok fd, w')
      → (evs : List Event) × (w'.events ≡ w.events ++ evs) × Creates m map fd w.events evs
  unfolding create_map btf_ids
  create_map-Creates unit map w {fd} {w'} unlocked h =
      let (ids, w1, e1, h1) = bind_result-eq-ok (btf_ids m unit map map.spin_lock w) _ h in
      let none_made : btf_ids m unit map map.spin_lock w ≡ (ok (0, 0, 0), w) =
        ap (λ lock. btf_ids m unit map lock w) unlocked in
      let no_ids : (0, 0, 0) ≡ ids = value_eq (sym none_made ∙ e1) in
      let (attr, w2, e2, h2) =
        bind_result-eq-ok
          (
            attr_map_create map.type_id map.key_size map.value_size map.entries map.flags map.name
                ids,
            w1,
          )
          _ h1 in
      let (reply, w3, e3, h3) = bind_result-eq-ok (bpf m map_create attr [] w2) _ h2 in
      let (_, w4, e4, h4) = bind_result-eq-ok (fill_map m map reply.0 w3) _ h3 in
      let (filling, f, fills) = fill_map-Fills map reply.0 w3 e4 in
      let start : w2.events ≡ w.events =
        ap (λ x. x.1.events) (sym e2) ∙ events_of (sym none_made ∙ e1) in
      let created : w3.events ≡ w.events ++ (called map_create attr [] ∷ []) =
        bpf-event m map_create attr [] w2 e3
        ∙ ap (λ es. es ++ (called map_create attr [] ∷ [])) start in
      (
        called map_create attr [] ∷ filling,
        events_of h4
            ∙ f
            ∙ ap (λ es. es ++ filling) created
            ∙ append_assoc w.events (called map_create attr [] ∷ []) filling,
        record {
          attr = attr;
          filling = filling;
          is = attr_map_create-IsMapAttr map (
              ap
                (attr_map_create map.type_id map.key_size map.value_size map.entries map.flags
                  map.name)
                no_ids
              ∙ ap (λ x. x.0) e2);
          fills =
              subst (λ d. Fills m map d (w.events ++ (called map_create attr [] ∷ [])) filling)
                (value_eq h4) (subst (λ es. Fills m map reply.0 es filling) created fills);
          order = refl;
        },
      )
