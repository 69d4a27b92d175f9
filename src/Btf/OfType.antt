-- ===== src/Btf/OfType.antt =====
-- `Btf.of_type`: the type of a description of the document.
use koit.Base.{
  ℕ, zero, suc, true, false, none, some, List, [], ◌∷◌, ◌++◌, if◌then◌else◌, ◌/◌, value_error,
  out_of_fuel,
}
use koit.Base.Bytes.{Bytes}
use koit.Base.Text.{text, decimal}
use koit.Btf.{int_type, array_type, struct_type, once, lookup, remember}
use koit.Btf.Monad.{M, slot_key, named_key, ◌>>=◌, return, raise, lift}
use koit.Document.Layout.{
  Ty, Fields, Types, resolve, int, be, bool, array, slot, struct, named, other, no_fields, field,
}

-- `if name: self.by_key[("named", name)] = tid`
unfoldable pub remember_named : Bytes → ℕ → M ℕ
remember_named [] t = return t
remember_named (c ∷ cs) t = remember (named_key (c ∷ cs)) t

-- `rec` is the call on what a name resolves to.
unfoldable mutual
  pub of_desc : (rec : Ty → Bytes → M ℕ) (types : Types) (t : Ty) (name : Bytes) → M ℕ
  of_desc rec types (named n) name = do
    found ← lookup (named_key n)
    elim found [ some t ↦ return t | none ↦ (do u ← lift (resolve types (named n)); rec u n) ]
  of_desc rec types (int signed bits) name =
      int_type ((if signed then text "s" else text "u") ++ decimal bits) (bits / 8) signed false
  of_desc rec types (be bits) name = int_type (text "u" ++ decimal bits) (bits / 8) false false
  of_desc rec types bool name = int_type (text "bool") 1 false true
  of_desc rec types (array elem len size align) name = do
    t ← of_desc rec types elem []
    array_type t len
  of_desc rec types (slot n kernel size align) name = once (slot_key kernel) (do
    val ← int_type (text "u32") 4 false false
    struct_type kernel size ((text "val", val, 0) ∷ []))
  of_desc rec types (struct fs size align) name = do
    members ← of_members rec types fs
    t ← struct_type name size members
    remember_named name t
  of_desc rec types (other size align) name = raise value_error

  pub of_members : (rec : Ty → Bytes → M ℕ) (types : Types) (fs : Fields) → M (List (Bytes × ℕ × ℕ))
  of_members rec types no_fields = return []
  of_members rec types (field n offset t fs) = do
    tid ← of_desc rec types t []
    members ← of_members rec types fs
    return ((n, tid, offset) ∷ members)

-- The fuel bounds how deep names are nested in what names stand for; a type that contains itself
-- by name is a `RecursionError` in Python.
unfoldable pub of_type : ℕ → Types → Ty → Bytes → M ℕ
of_type zero types t name = of_desc (λ u n. raise out_of_fuel) types t name
of_type (suc fuel) types t name = of_desc (of_type fuel types) types t name
