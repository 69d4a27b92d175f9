-- ===== src/Load/Attr.antt =====
-- tools/load.py: the attributes of the system calls, as bytes.
use koit.Base.{
  ℕ, ◌-◌, Option, none, some, [], ◌∷◌, ◌++◌, length, take, replicate, Result, ok, ◌>>=◌,
}
use koit.Base.Bytes.{Bytes, pack_all}

-- enum bpf_cmd
abbrev pub map_create : ℕ
map_create = 0

abbrev pub map_lookup_elem : ℕ
map_lookup_elem = 1

abbrev pub map_update_elem : ℕ
map_update_elem = 2

abbrev pub map_get_next_key : ℕ
map_get_next_key = 4

abbrev pub prog_load : ℕ
prog_load = 5

abbrev pub prog_test_run : ℕ
prog_test_run = 10

abbrev pub btf_load : ℕ
btf_load = 18

abbrev pub map_freeze : ℕ
map_freeze = 22

-- The field `16s` of `name.encode()[:15]`.
unfoldable pub name_field : Bytes → Bytes
name_field name = let short = take 15 name in short ++ replicate (16 - length short) 0

-- The type, the sizes of a key and of a value, the entries, the flags, the name, and the BTF's
-- descriptor with its ids of the key and the value.
unfoldable pub attr_map_create :
    (type key_size value_size entries flags : ℕ) → Bytes → ℕ × ℕ × ℕ → Result Bytes
attr_map_create type key_size value_size entries flags name (btf_fd, btf_key, btf_value) = do
  before ← pack_all (
      (4, type)
      ∷ (4, key_size)
      ∷ (4, value_size)
      ∷ (4, entries)
      ∷ (4, flags)
      ∷ (4, 0)
      ∷ (4, 0)
      ∷ [])
  after ← pack_all ((4, 0) ∷ (4, btf_fd) ∷ (4, btf_key) ∷ (4, btf_value) ∷ [])
  ok (before ++ (name_field name ++ after))

-- A descriptor, and the addresses of the key and of the value or the next key.
unfoldable pub attr_map_elem : (fd key value flags : ℕ) → Result Bytes
attr_map_elem fd key value flags =
    pack_all ((4, fd) ∷ (4, 0) ∷ (8, key) ∷ (8, value) ∷ (8, flags) ∷ [])

-- A buffer by its address and length.
abbrev pub Span : Type 0
Span = ℕ × ℕ

unfoldable pub attr_prog_load :
    (prog_type insns insn_cnt license : ℕ) (log : Span) (name : Bytes) (attach_type : ℕ)
    → Result Bytes
attr_prog_load prog_type insns insn_cnt license log name attach_type = do
  before ← pack_all (
      (4, prog_type)
      ∷ (4, insn_cnt)
      ∷ (8, insns)
      ∷ (8, license)
      ∷ (4, 1)
      ∷ (4, log.1)
      ∷ (8, log.0)
      ∷ (4, 0)
      ∷ (4, 0)
      ∷ [])
  after ← pack_all ((4, 0) ∷ (4, attach_type) ∷ [])
  ok (before ++ (name_field name ++ after))

-- `len(b) if b is not None else 0`, and its address.
unfoldable pub length_of : Option Span → ℕ
length_of none = 0
length_of (some (address, len)) = len

unfoldable pub address_of : Option Span → ℕ
address_of none = 0
address_of (some (address, len)) = address

unfoldable pub attr_test_run : ℕ → (data_in data_out ctx_in ctx_out : Option Span) → Result Bytes
attr_test_run prog_fd data_in data_out ctx_in ctx_out = pack_all (
    (4, prog_fd)
    ∷ (4, 0)
    ∷ (4, length_of data_in)
    ∷ (4, length_of data_out)
    ∷ (8, address_of data_in)
    ∷ (8, address_of data_out)
    ∷ (4, 1)
    ∷ (4, 0)
    ∷ (4, length_of ctx_in)
    ∷ (4, length_of ctx_out)
    ∷ (8, address_of ctx_in)
    ∷ (8, address_of ctx_out)
    ∷ (4, 0)
    ∷ (4, 0)
    ∷ (4, 0)
    ∷ [])

unfoldable pub attr_btf_load : (btf log : Span) → Result Bytes
attr_btf_load btf log = pack_all ((8, btf.0) ∷ (8, log.0) ∷ (4, btf.1) ∷ (4, log.1) ∷ (4, 1) ∷ [])
