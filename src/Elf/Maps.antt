-- ===== src/Elf/Maps.antt =====
-- tools/elf.py: the kfunc externs and the `.maps` part of `write`, and `map_definition`.
use koit.Base.{
  ℕ, ◌+◌, ◌*◌, Bool, true, false, Option, none, some, List, [], ◌∷◌, ◌++◌, length, map, ◌==◌,
  if◌then◌else◌, Result, ok, err, value_error, system_exit, attribute_error, of_option, Error,
}
use koit.Base.Bytes.{Bytes}
use koit.Base.Dict.{Dict, get, put, bytes_eq}
use koit.Base.Text.{text}
use koit.Btf.{int_type, array_type, struct_type, ptr, func_proto, func, var, datasec}
use koit.Btf.CType.{ctype}
use koit.Btf.Monad.{M, ◌>>=◌, return, raise, lift}
use koit.Btf.OfType.{of_type}
use koit.Document.{MapDecl, MapKind, ringbuf, prog_array, Program, Reloc, kfunc}
use koit.Document.Layout.{Types, name_of}
use koit.Elf.{btf_func_extern}

-- A C prototype: the result type, and the arguments, each a type and a name.
abbrev pub Proto : Type 0
Proto = Bytes × List (Bytes × Bytes)

unfoldable pub collect_relocs : Dict Bytes Proto → List Reloc → Result (Dict Bytes Proto)
collect_relocs kfuncs [] = ok kfuncs
collect_relocs kfuncs (kfunc i name proto ∷ relocs) = elim (get kfuncs name) [
  | some p ↦ collect_relocs kfuncs relocs
  | none ↦ elim proto [
    | none ↦ err system_exit
    | some p ↦ collect_relocs (put kfuncs name p) relocs
  ]
]
collect_relocs kfuncs (r ∷ relocs) = collect_relocs kfuncs relocs

-- The kfuncs called, each with its prototype.
unfoldable pub collect_kfuncs : Dict Bytes Proto → List Program → Result (Dict Bytes Proto)
collect_kfuncs kfuncs [] = ok kfuncs
collect_kfuncs kfuncs (p ∷ programs) = elim (collect_relocs kfuncs p.relocs) [
  | err e ↦ err e
  | ok kfuncs' ↦ collect_kfuncs kfuncs' programs
]

-- `except ValueError as e: raise SystemExit(...)`
abbrev exit_for : Error → Error
exit_for value_error = system_exit
exit_for e = e

unfoldable pub exit_on_value_error : {A : Type 0} → M A → M A
exit_on_value_error m s = elim (m s) [ ok r ↦ ok r | err e ↦ err (exit_for e) ]

unfoldable pub proto_args : List (Bytes × Bytes) → M (List (Bytes × ℕ))
proto_args [] = return []
proto_args ((t, a) ∷ args) = do id ← ctype t; rest ← proto_args args; return ((a, id) ∷ rest)

unfoldable pub extern_proto : Proto → M ℕ
extern_proto (ret, args) = do r ← ctype ret; params ← proto_args args; func_proto r params

-- An extern function for each kfunc.
unfoldable pub externs : List (Bytes × Proto) → M (List ℕ)
externs [] = return []
externs ((name, p) ∷ kfuncs) = do
  proto ← exit_on_value_error (extern_proto p)
  f ← func name proto btf_func_extern
  rest ← externs kfuncs
  return (f ∷ rest)

unfoldable pub ksyms : Dict Bytes Proto → M (Unit {0})
ksyms kfuncs = do
  fs ← externs kfuncs
  elim fs [
    | [] ↦ return tt
    | f ∷ more ↦ (do
      id ← datasec (text ".ksyms") 0 (map (λ (g : ℕ). (g, 0, 0)) (f ∷ more))
      return tt)
  ]

-- The members of a map's struct so far: a name, a type id, and an offset; and the next offset.
abbrev pub Members : Type 0
Members = List (Bytes × ℕ × ℕ) × ℕ

-- `add(name, target)`
unfoldable pub add_member : Bytes → ℕ → Members → M Members
add_member name target (members, off) = do
  t ← ptr target
  return (members ++ ((name, t, off) ∷ []), off + 8)

unfoldable pub is_ringbuf : MapKind → Bool
is_ringbuf ringbuf = true
is_ringbuf _ = false

unfoldable pub is_prog_array : MapKind → Bool
is_prog_array prog_array = true
is_prog_array _ = false

unfoldable pub add_key_value : Types → MapDecl → Members → M Members
add_key_value types m members = if is_ringbuf m.kind then return members else (do
  key_type ← lift (of_option attribute_error m.key)
  key ← of_type (length types) types key_type (name_of key_type)
  with_key ← add_member (text "key") key members
  value_type ← lift (of_option attribute_error m.value)
  value ← of_type (length types) types value_type (name_of value_type)
  add_member (text "value") value with_key)

unfoldable pub add_flags : ℕ → MapDecl → Members → M Members
add_flags u32 m members =
    if m.flags == 0
    then return members
    else (do flags ← array_type u32 m.flags; add_member (text "map_flags") flags members)

-- The slots of a program array, and their offset in the variable.
unfoldable pub add_values : ℕ → MapDecl → Members → M (Members × Option ℕ)
add_values u32 m (members, off) =
    if is_prog_array m.kind
    then (do
      ctx ← ptr 0
      proto ← func_proto u32 ((text "ctx", ctx) ∷ [])
      slot ← ptr proto
      values ← array_type slot m.entries
      return ((members ++ ((text "values", values, off) ∷ []), off + 8 * m.entries), some off))
    else return ((members, off), none)

-- `map_definition`: the type id, the size of the variable, and the offset of its values.
unfoldable pub map_definition : Types → MapDecl → M (ℕ × ℕ × Option ℕ)
map_definition types m = do
  u32 ← int_type (text "int") 4 true false
  type ← array_type u32 m.type_id
  m1 ← add_member (text "type") type ([], 0)
  m2 ← add_key_value types m m1
  entries ← array_type u32 m.entries
  m3 ← add_member (text "max_entries") entries m2
  m4 ← add_flags u32 m m3
  ((members, off), values_off) ← add_values u32 m m4
  id ← struct_type [] off members
  return (id, off, values_off)

-- A variable of a data section: its type id, its offset, its size, and its name.
pub record Variable : Type 0 where
  pub id : ℕ
  pub offset : ℕ
  pub size : ℕ
  pub name : Bytes

-- The slots of a map from slot `i` on: each an offset in `.maps` and a program's name.
unfoldable pub slots_from : ℕ → ℕ → List Bytes → List (ℕ × Bytes)
slots_from base i [] = []
slots_from base i (p ∷ programs) = (base + 8 * i, p) ∷ slots_from base (i + 1) programs

unfoldable pub slots_of : ℕ → Option ℕ → MapDecl → List (ℕ × Bytes)
slots_of base none m = []
slots_of base (some off) m = slots_from (base + off) 0 m.programs

-- The loop over the declared maps: the variables, the program slots, and the size of `.maps`.
unfoldable pub declare_maps : Types → List MapDecl → ℕ → M (List Variable × List (ℕ × Bytes) × ℕ)
declare_maps types [] size = return ([], [], size)
declare_maps types (m ∷ maps) size = elim m.contents [
  | c ∷ cs ↦ raise system_exit
  | [] ↦ (do
    (tid, bytes, values_off) ← map_definition types m
    v ← var m.name tid 1
    (vars, slots, end) ← declare_maps types maps (size + bytes)
    return (
      record { id = v; offset = size; size = bytes; name = m.name } ∷ vars,
      slots_of size values_off m ++ slots,
      end,
    ))
]

abbrev pub datasec_rows : List Variable → List (ℕ × ℕ × ℕ)
datasec_rows [] = []
datasec_rows (v ∷ vars) = (v.id, v.offset, v.size) ∷ datasec_rows vars
