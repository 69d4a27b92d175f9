-- ===== src/Btf.antt =====
-- tools/koitobj.py, the class `Btf`, a BTF blob under construction: the type records by id from 1,
-- the string table, and the cache of the types that are added once.
pub mod Monad
pub mod Blob
pub mod CType
pub mod OfType
pub mod Reader
pub mod Strings
pub mod Extra
pub mod Records
pub mod RoundTrip
pub mod Encoders
pub mod Members
pub mod Lookup
mod Tests
use koit.Base.{
  ℕ, zero, suc, ◌+◌, ◌-◌, ◌*◌, ◌≡◌, Bool, true, false, ◌||◌, Option, none, some, List, [], ◌∷◌,
  ◌++◌, length, get_or, bit_and, bit_or, ◌==◌, if◌then◌else◌, ltb, map, ◌^◌, Result, ok, err,
  struct_error,
}
use koit.Base.Bits.{◌<<<◌, ◌>>>◌}
use koit.Base.Bytes.{Bytes, pack, pack_all, pack_rows, find}
use koit.Base.Text.{text}
use koit.Base.Dict.{get, put}
use Monad.{Btf, M, Key, int_key, fwd_key, key_eq, ◌>>=◌, ◌>>◌, return, lift}

-- BTF_KIND_*
abbrev pub kind_int : ℕ
kind_int = 1

abbrev pub kind_ptr : ℕ
kind_ptr = 2

abbrev pub kind_array : ℕ
kind_array = 3

abbrev pub kind_struct : ℕ
kind_struct = 4

abbrev pub kind_fwd : ℕ
kind_fwd = 7

abbrev pub kind_func : ℕ
kind_func = 12

abbrev pub kind_func_proto : ℕ
kind_func_proto = 13

abbrev pub kind_var : ℕ
kind_var = 14

abbrev pub kind_datasec : ℕ
kind_datasec = 15

abbrev pub kind_decl_tag : ℕ
kind_decl_tag = 17

-- Where `string` reuses an entry: a hit that begins an entry, so that no tail of one is taken.
unfoldable pub reusable : Bytes → Bytes → Option ℕ
reusable strings b = elim (find b strings) [
  | none ↦ none
  | some zero ↦ some zero
  | some (suc i) ↦ if get_or strings i 1 == 0 then some (suc i) else none
]

unfoldable pub string : Bytes → M ℕ
string [] s = return 0 s
string (c ∷ cs) s =
    let b = (c ∷ cs) ++ (0 ∷ []) in
    elim (reusable s.strings b) [
      | some i ↦ return i s
      | none ↦ return (length s.strings) (record s { strings = s.strings ++ b })
    ]

-- The second word of a type record.
unfoldable pub info_word : ℕ → ℕ → ℕ → ℕ
info_word kind vlen kind_flag =
    bit_or (bit_or (kind <<< 24) (bit_and vlen 0xffff)) (kind_flag <<< 31)

unfoldable pub append_type : Bytes → Bytes → M ℕ
append_type head extra s =
    let types = s.types ++ ((head, extra) ∷ []) in
    return (length types) (record s { types = types })

unfoldable pub add : Bytes → ℕ → ℕ → ℕ → Bytes → ℕ → M ℕ
add name kind vlen size_or_type extra kind_flag = do
  name_off ← string name
  head ←
      lift (pack_all ((4, name_off) ∷ (4, info_word kind vlen kind_flag) ∷ (4, size_or_type) ∷ []))
  append_type head extra

unfoldable pub lookup : Key → M (Option ℕ)
lookup key s = return (get s.by_key key) s

unfoldable pub remember : Key → ℕ → M ℕ
remember key t s = return t (record s { by_key = put s.by_key key t })

-- `if key not in self.by_key: self.by_key[key] = make()`, and the type under the key.
unfoldable pub once : Key → M ℕ → M ℕ
once key make = do
  found ← lookup key
  elim found [ some t ↦ return t | none ↦ (do t ← make; remember key t) ]

unfoldable pub int_type : Bytes → ℕ → Bool → Bool → M ℕ
int_type name size signed boolean = once (int_key name) (do
  extra ← lift (
      pack 4 (
        bit_or (bit_or (if signed then 1 <<< 24 else 0) (if boolean then 1 <<< 26 else 0))
          (size * 8)))
  add name kind_int 0 size extra 0)

unfoldable pub array_type : ℕ → ℕ → M ℕ
array_type elem n = do
  index ← int_type (text "__ARRAY_SIZE_TYPE__") 4 false false
  extra ← lift (pack_all ((4, elem) ∷ (4, index) ∷ (4, n) ∷ []))
  add [] kind_array 0 0 extra 0

-- A member is a name, a type id, and a byte offset.
unfoldable pub members_extra : List (Bytes × ℕ × ℕ) → M Bytes
members_extra [] = return []
members_extra ((n, t, off) ∷ members) = do
  name_off ← string n
  b ← lift (pack_all ((4, name_off) ∷ (4, t) ∷ (4, off * 8) ∷ []))
  rest ← members_extra members
  return (b ++ rest)

unfoldable pub struct_type : Bytes → ℕ → List (Bytes × ℕ × ℕ) → M ℕ
struct_type name size members = do
  extra ← members_extra members
  add name kind_struct (length members) size extra 0

unfoldable pub ptr : ℕ → M ℕ
ptr t = add [] kind_ptr 0 t [] 0

unfoldable pub fwd : Bytes → Bool → M ℕ
fwd name union = once (fwd_key name) (add name kind_fwd 0 0 [] (if union then 1 else 0))

-- A parameter is a name and a type id.
unfoldable pub params_extra : List (Bytes × ℕ) → M Bytes
params_extra [] = return []
params_extra ((n, t) ∷ params) = do
  name_off ← string n
  b ← lift (pack_all ((4, name_off) ∷ (4, t) ∷ []))
  rest ← params_extra params
  return (b ++ rest)

unfoldable pub func_proto : ℕ → List (Bytes × ℕ) → M ℕ
func_proto ret params = do
  extra ← params_extra params
  add [] kind_func_proto (length params) ret extra 0

unfoldable pub func : Bytes → ℕ → ℕ → M ℕ
func name proto linkage = add name kind_func linkage proto [] 0

-- `struct.pack("<i", component)`, `none` for the default of -1.
unfoldable pub pack_component : Option ℕ → Result Bytes
pack_component none = ok (255 ∷ 255 ∷ 255 ∷ 255 ∷ [])
pack_component (some c) = if ltb c (2 ^ 31) then pack 4 c else err struct_error

unfoldable pub decl_tag : Bytes → ℕ → Option ℕ → M ℕ
decl_tag name target component = do
  extra ← lift (pack_component component)
  add name kind_decl_tag 0 target extra 0

unfoldable pub var : Bytes → ℕ → ℕ → M ℕ
var name t linkage = do extra ← lift (pack 4 linkage); add name kind_var 0 t extra 0

-- A variable is a type id, an offset, and a size.
unfoldable pub vars_extra : List (ℕ × ℕ × ℕ) → Result Bytes
vars_extra vars = pack_rows (map (λ (v, off, sz). (4, v) ∷ (4, off) ∷ (4, sz) ∷ []) vars)

unfoldable pub datasec : Bytes → ℕ → List (ℕ × ℕ × ℕ) → M ℕ
datasec name size vars = do
  extra ← lift (vars_extra vars)
  add name kind_datasec (length vars) size extra 0
