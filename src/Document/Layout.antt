-- ===== src/Document/Layout.antt =====
-- The type descriptions of a document, and the class `Types`: their resolution, size, alignment.
use koit.Base.{
  ℕ, zero, suc, ◌/◌, Bool, none, some, List, [], length, Result, ok, err, key_error, out_of_fuel,
  ◌>>=◌,
}
use koit.Base.Bytes.{Bytes}
use koit.Base.Dict.{Dict, get, put_all, bytes_eq}

-- A description by its `kind`; `other` is a kind that the tools do not know. An array, a slot, a
-- struct and an unknown kind carry `size` and `align`.
mutual
  pub data Ty : Type 0 where
    int : (signed : Bool) (bits : ℕ) → Ty
    be : (bits : ℕ) → Ty
    bool : Ty
    array : (elem : Ty) (len size align : ℕ) → Ty
    slot : (name kernel : Bytes) (size align : ℕ) → Ty
    struct : (fields : Fields) (size align : ℕ) → Ty
    named : (name : Bytes) → Ty
    other : (size align : ℕ) → Ty

  pub data Fields : Type 0 where
    no_fields : Fields
    field : (name : Bytes) (offset : ℕ) (type : Ty) (rest : Fields) → Fields

-- `self.named`
abbrev pub Types : Type 0
Types = Dict Bytes Ty

unfoldable pub types_of : List (Bytes × Ty) → Types
types_of decls = put_all [] decls

-- `while t["kind"] == "named": t = self.named[t["name"]]`, with fuel. Python does not come back
-- where the fuel runs out.
unfoldable pub resolve_loop : ℕ → Types → Ty → Result Ty
resolve_loop zero types (named n) = err out_of_fuel
resolve_loop (suc fuel) types (named n) = elim (get types n) [
  | none ↦ err key_error
  | some t ↦ resolve_loop fuel types t
]
resolve_loop _ types t = ok t

-- A chain of names that ends passes each declared name at most once.
unfoldable pub resolve : Types → Ty → Result Ty
resolve types t = resolve_loop (suc (length types)) types t

-- `size` and `align` of a description that is no name.
unfoldable pub size_resolved : Ty → ℕ
size_resolved (int s bits) = bits / 8
size_resolved (be bits) = bits / 8
size_resolved bool = 1
size_resolved (array e len size align) = size
size_resolved (slot name kernel size align) = size
size_resolved (struct fs size align) = size
size_resolved (other size align) = size
size_resolved (named n) = 0

unfoldable pub align_resolved : Ty → ℕ
align_resolved (int s bits) = bits / 8
align_resolved (be bits) = bits / 8
align_resolved bool = 1
align_resolved (array e len size align) = align
align_resolved (slot name kernel size align) = align
align_resolved (struct fs size align) = align
align_resolved (other size align) = align
align_resolved (named n) = 0

unfoldable pub size_of : Types → Ty → Result ℕ
size_of types t = do u ← resolve types t; ok (size_resolved u)

unfoldable pub align_of : Types → Ty → Result ℕ
align_of types t = do u ← resolve types t; ok (align_resolved u)

-- `t.get("name")`: a name's own, a slot's, or nothing, for which the tools take the empty text.
unfoldable pub name_of : Ty → Bytes
name_of (named n) = n
name_of (slot n kernel size align) = n
name_of _ = []
