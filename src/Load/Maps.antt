-- ===== src/Load/Maps.antt =====
-- tools/load.py: the maps, created, filled and read back by system calls.
use koit.Base.{
  ℕ, zero, suc, ◌+◌, ◌^◌, Option, none, some, List, [], ◌∷◌, length, replicate, if◌then◌else◌, ◌==◌,
  Result, ok, err, Error, system_exit, os_error, out_of_fuel,
}
use koit.Base.Bytes.{Bytes, pack, pack_all}
use koit.Base.Text.{from_hex}
use koit.Document.{KoitUnit, MapDecl, MapKind, ringbuf, hash, Access, ro}
use koit.Load.{initial_values, ringbuf_records}
use koit.Load.Attr.{
  attr_map_create, attr_map_elem, attr_btf_load, map_create, map_lookup_elem, map_update_elem,
  map_get_next_key, btf_load, map_freeze,
}
use koit.Load.Machine.{
  Machine, given, space, World, L, ◌>>=◌, ◌>>◌, return, raise, history, lift, bpf,
}
use koit.Report.{Contents, records, pairs, cells, map_btf}

-- `except OSError as e: raise SystemExit(...)`
abbrev exit_for : Error → Error
exit_for (os_error errno) = system_exit
exit_for e = e

abbrev pub exit_result : {S A : Type 0} → Result A × World S → Result A × World S
exit_result (ok a, w) = (ok a, w)
exit_result (err e, w) = (err (exit_for e), w)

unfoldable pub exit_on_os_error : {S A : Type 0} → L S A → L S A
exit_on_os_error m w = exit_result (m w)

-- `except OSError as e: if e.errno == 2: return none; raise`
abbrev pub absent_for : {S A : Type 0} → A → Result A × World S → Result A × World S
absent_for none_there (ok a, w) = (ok a, w)
absent_for none_there (err (os_error errno), w) =
    if errno == 2 then (ok none_there, w) else (err (os_error errno), w)
absent_for none_there (err e, w) = (err e, w)

unfoldable pub or_absent : {S A : Type 0} → A → L S A → L S A
or_absent none_there m w = absent_for none_there (m w)

module _ (m : Machine) where
  -- The descriptor of a BTF blob.
  unfoldable pub load_blob : Bytes → L m.State ℕ
  load_blob blob = do
    now ← history
    attr ← lift (attr_btf_load (m.address now 0, length blob) (m.address now 1, 2 ^ 16))
    reply ← exit_on_os_error (bpf m btf_load attr (given blob ∷ space (2 ^ 16) ∷ []))
    return reply.0

  -- The BTF of a map with a spin lock: its descriptor, and the ids of the key and of the value.
  unfoldable pub btf_ids : KoitUnit → MapDecl → Option ℕ → L m.State (ℕ × ℕ × ℕ)
  btf_ids unit map none = return (0, 0, 0)
  btf_ids unit map (some offset) = do
    made ← lift (map_btf unit.types map)
    fd ← load_blob made.0
    return (fd, made.1, made.2)

  -- An element of the map `fd`, its key and its value.
  unfoldable pub update : ℕ → Bytes → Bytes → L m.State (Unit {0})
  update fd key value = do
    now ← history
    attr ← lift (attr_map_elem fd (m.address now 0) (m.address now 1) 0)
    reply ← bpf m map_update_elem attr (given key ∷ given value ∷ [])
    return tt

  unfoldable pub write_values : ℕ → List (ℕ × Bytes) → L m.State (Unit {0})
  write_values fd [] = return tt
  write_values fd ((i, value) ∷ values) = do
    key ← lift (pack_all ((4, i) ∷ []))
    update fd key value
    write_values fd values

  unfoldable pub freeze : ℕ → L m.State (Unit {0})
  freeze fd = do attr ← lift (pack_all ((4, fd) ∷ [])); reply ← bpf m map_freeze attr []; return tt

  unfoldable pub freeze_for : Access → ℕ → L m.State (Unit {0})
  freeze_for ro fd = freeze fd
  freeze_for _ fd = return tt

  -- The contents of the document's map, and the freeze of a read-only one.
  unfoldable pub fill_map : MapDecl → ℕ → L m.State (Unit {0})
  fill_map map fd = do
    contents ← lift (from_hex map.contents)
    write_values fd (initial_values contents map.value_size 0 map.entries)
    freeze_for map.access fd

  -- `create_map`: the map's descriptor.
  unfoldable pub create_map : KoitUnit → MapDecl → L m.State ℕ
  create_map unit map = do
    ids ← btf_ids unit map map.spin_lock
    attr ←
        lift (
          attr_map_create map.type_id map.key_size map.value_size map.entries map.flags map.name
            ids)
    reply ← bpf m map_create attr []
    fill_map map reply.0
    return reply.0

  -- The value under a key of the map, which must be there.
  unfoldable pub lookup_elem : ℕ → Bytes → ℕ → L m.State (Option Bytes)
  lookup_elem fd key value_size = do
    now ← history
    attr ← lift (attr_map_elem fd (m.address now 0) (m.address now 1) 0)
    reply ← bpf m map_lookup_elem attr (given key ∷ space value_size ∷ [])
    return (some reply.2)

  -- `lookup`
  unfoldable pub lookup : ℕ → Bytes → ℕ → L m.State (Option Bytes)
  lookup fd key value_size = or_absent none (lookup_elem fd key value_size)

  -- The key behind `key`, from no key the first; nothing behind the last.
  unfoldable pub next_key_call : ℕ → ℕ → Option Bytes → L m.State (Option Bytes)
  next_key_call fd key_size none = do
    now ← history
    attr ← lift (attr_map_elem fd 0 (m.address now 0) 0)
    reply ← bpf m map_get_next_key attr (space key_size ∷ [])
    return (some reply.2)
  next_key_call fd key_size (some key) = do
    now ← history
    attr ← lift (attr_map_elem fd (m.address now 0) (m.address now 1) 0)
    reply ← bpf m map_get_next_key attr (given key ∷ space key_size ∷ [])
    return (some reply.2)

  unfoldable pub next_key : ℕ → ℕ → Option Bytes → L m.State (Option Bytes)
  next_key fd key_size key = or_absent none (next_key_call fd key_size key)

  -- The loop of `keys` behind a key, with fuel: a kernel that always has a next key never ends it.
  unfoldable pub keys_from : ℕ → ℕ → ℕ → Option Bytes → L m.State (List Bytes)
  keys_from zero fd key_size key = raise out_of_fuel
  keys_from (suc fuel) fd key_size key = do
    found ← next_key fd key_size key
    elim found [
      | none ↦ return []
      | some next ↦ (do rest ← keys_from fuel fd key_size (some next); return (next ∷ rest))
    ]

  -- `keys`; a map has at most `entries` keys, and one more call finds the end.
  unfoldable pub keys : ℕ → ℕ → ℕ → L m.State (List Bytes)
  keys entries fd key_size = keys_from (suc entries) fd key_size none

  -- The pairs of the keys; a key that is gone by now has `None`.
  unfoldable pub read_pairs : ℕ → ℕ → List Bytes → L m.State (List (Bytes × Option Bytes))
  read_pairs fd value_size [] = return []
  read_pairs fd value_size (key ∷ keys) = do
    found ← lookup fd key value_size
    rest ← read_pairs fd value_size keys
    return ((key, found) ∷ rest)

  -- The cells from index `i` on, `count` of them.
  unfoldable pub read_cells : ℕ → ℕ → ℕ → ℕ → L m.State (List (ℕ × Bytes))
  read_cells fd value_size i zero = return []
  read_cells fd value_size i (suc count) = do
    key ← lift (pack_all ((4, i) ∷ []))
    found ← lookup fd key value_size
    rest ← read_cells fd value_size (i + 1) count
    return ((i, elim found [ none ↦ replicate value_size 0 | some value ↦ value ]) ∷ rest)

  -- `ringbuf_records` with its pages: the records, and the consumer's position written back.
  unfoldable pub read_ringbuf : ℕ → ℕ → L m.State (List Bytes)
  read_ringbuf fd size w =
      (do
        let (consumer, data') = m.ring fd size w.kernel
        (found, end) ← lift (ringbuf_records m.page size consumer data')
        position ← lift (pack 8 end)
        (λ w'. (ok found, record w' { kernel = m.consume fd position w'.kernel })))
        w

  unfoldable pub read_kind : MapDecl → ℕ → MapKind → L m.State Contents
  read_kind map fd ringbuf = do found ← read_ringbuf fd map.entries; return (records found)
  read_kind map fd hash = do
    ks ← keys map.entries fd map.key_size
    found ← read_pairs fd map.value_size ks
    return (pairs found)
  read_kind map fd _ = do found ← read_cells fd map.value_size 0 map.entries; return (cells found)

  -- `read_map`
  unfoldable pub read_map : MapDecl → ℕ → L m.State Contents
  read_map map fd = read_kind map fd map.kind
