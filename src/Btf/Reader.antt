-- ===== src/Btf/Reader.antt =====
-- `read_btf` and `kfunc_id`: the types of a BTF blob.
use koit.Base.{
  ℕ, zero, suc, ◌+◌, ◌-◌, ◌*◌, ◌&&◌, Option, none, some, List, [], ◌∷◌, length, take, drop, slice,
  bit_and, ltb, ◌==◌, if◌then◌else◌, Result, ok, err, check, ◌>>=◌, ◌>>◌, value_error, out_of_fuel,
}
use koit.Base.Bits.{◌>>>◌}
use koit.Base.Bytes.{Bytes, unpack_from, index_of_byte}
use koit.Base.Dict.{same_bytes}
use koit.Base.Utf8.{decode}
use koit.Btf.{kind_int, kind_array, kind_struct, kind_var, kind_datasec, kind_func}
use koit.Btf.Blob.{magic}

pub record BtfType : Type 0 where
  pub kind : ℕ
  pub name : Bytes
  pub vlen : ℕ
  pub size_or_type : ℕ
  pub extra : Bytes

-- How many bytes follow a type record of the kind.
unfoldable pub extra_len : ℕ → ℕ → ℕ
extra_len kind vlen =
    if kind == kind_int
    then 4
    else if kind == kind_array
    then 12
    else if kind == kind_struct
    then vlen * 12
    else if kind == 5
    then vlen * 12
    else if kind == 6
    then vlen * 8
    else if kind == 13
    then vlen * 8
    else if kind == kind_var
    then 4
    else if kind == kind_datasec
    then vlen * 12
    else if kind == 17
    then 4
    else if kind == 19
    then vlen * 12
    else 0

-- `strings[name_off:strings.find(b"\0", name_off)]`; `find` gives -1 if no NUL is left, and the
-- slice then ends before the last byte.
unfoldable pub cstring_at : Bytes → ℕ → Bytes
cstring_at strings off = elim (index_of_byte 0 (drop off strings)) [
  | some n ↦ take n (drop off strings)
  | none ↦ slice strings off (length strings - 1)
]

unfoldable pub name_at : Bytes → ℕ → Bytes
name_at strings off = if off == 0 then [] else cstring_at strings off

-- One round of the loop: the type at `pos`, and the position behind it.
unfoldable pub read_type : Bytes → Bytes → ℕ → Result (BtfType × ℕ)
read_type blob strings pos = do
  name_off ← unpack_from 4 blob pos
  info ← unpack_from 4 blob (pos + 4)
  size_or_type ← unpack_from 4 blob (pos + 8)
  let kind = bit_and (info >>> 24) 0x1f
  let vlen = bit_and info 0xffff
  let extra = extra_len kind vlen
  name ← decode (name_at strings name_off)
  ok (
    record {
      kind = kind;
      name = name;
      vlen = vlen;
      size_or_type = size_or_type;
      extra = slice blob (pos + 12) (pos + 12 + extra);
    },
    pos + 12 + extra,
  )

unfoldable pub read_loop : ℕ → Bytes → Bytes → ℕ → ℕ → Result (List BtfType)
read_loop zero blob strings end pos = if ltb pos end then err out_of_fuel else ok []
read_loop (suc fuel) blob strings end pos =
    let rest = (do
      (t, next) ← read_type blob strings pos
      ts ← read_loop fuel blob strings end next
      ok (t ∷ ts)) in
    if ltb pos end then rest else ok []

-- The types from id 1 on; `out[0]`, which is `None`, is left out. Each round advances by twelve
-- bytes at least, so that the length is fuel enough.
unfoldable pub read_btf : Bytes → Result (List BtfType)
read_btf blob = do
  magic' ← unpack_from 2 blob 0
  version ← unpack_from 1 blob 2
  flags ← unpack_from 1 blob 3
  hdr_len ← unpack_from 4 blob 4
  type_off ← unpack_from 4 blob 8
  type_len ← unpack_from 4 blob 12
  str_off ← unpack_from 4 blob 16
  str_len ← unpack_from 4 blob 20
  check (magic' == magic) value_error
  let strings = slice blob (hdr_len + str_off) (hdr_len + str_off + str_len)
  let start = hdr_len + type_off
  read_loop (suc type_len) blob strings (start + type_len) start

-- The id of the function of the name, the first if there are several; `i` is the id of the list's
-- first type.
unfoldable pub kfunc_id_from : ℕ → List BtfType → Bytes → Option ℕ
kfunc_id_from i [] name = none
kfunc_id_from i (t ∷ ts) name =
    if t.kind == kind_func && same_bytes t.name name then some i else kfunc_id_from (i + 1) ts name

unfoldable pub kfunc_id : List BtfType → Bytes → Option ℕ
kfunc_id types name = kfunc_id_from 1 types name
