-- ===== src/Document.antt =====
-- tools/koitobj.py, the reader of the compiler's document: the classes `Unit` and `Types`. The
-- records hold what the tools read of the JSON document; a field that they take by `get` is an
-- `Option`, or the empty list where they treat a missing one as empty.
pub mod Layout
pub mod Format
pub mod Laws
mod Tests
use koit.Base.{
  ℕ, ◌≡◌, refl, Bool, true, false, Option, none, some, List, [], ◌∷◌, Result, ok, err, check, ◌>>=◌,
  ◌>>◌, value_error, key_error, ◌==◌, if◌then◌else◌,
}
use koit.Base.Bytes.{Bytes}
use koit.Base.Dict.{same_bytes}
use koit.Base.Int.{ℤ}
use koit.Base.Text.{text}
use Layout.{Ty, Types, types_of}

pub data MapKind : Type 0 where
  array percpu hash ringbuf prog_array sockmap sockhash : MapKind

pub data Access : Type 0 where
  rw ro wo : Access

-- `contents` is the field `data`, in hexadecimal digits.
pub record MapDecl : Type 0 where
  pub name : Bytes
  pub kind : MapKind
  pub type_id : ℕ
  pub key : Option Ty
  pub key_size : ℕ
  pub value : Option Ty
  pub value_size : ℕ
  pub entries : ℕ
  pub flags : ℕ
  pub access : Access
  pub contents : Bytes
  pub direct : Bool
  pub programs : List Bytes
  pub spin_lock : Option ℕ

-- A relocation by its `kind`; a kfunc's prototype is the result and the arguments, each a C type
-- and a name. `unknown` is a kind that the tools do not know, with a
-- map and an offset if it has them.
pub data Reloc : Type 0 where
  map_fd : (index : ℕ) (map : Bytes) → Reloc
  map_value : (index : ℕ) (map : Bytes) (offset : ℕ) → Reloc
  kfunc : (index : ℕ) (name : Bytes) (proto : Option (Bytes × List (Bytes × Bytes))) → Reloc
  unknown : (index : ℕ) (map : Option Bytes) (offset : Option ℕ) → Reloc

-- `words` are hexadecimal numbers; a subprogram is a name and an instruction's index.
pub record Program : Type 0 where
  pub name : Bytes
  pub kind : Bytes
  pub prog_type_id : ℕ
  pub section : Bytes
  pub attach_id : ℕ
  pub result : Bytes
  pub verdicts : List (Bytes × ℤ)
  pub words : List Bytes
  pub relocs : List Reloc
  pub subprograms : List (Bytes × ℕ)

-- A parameter of a global function: its name, whether its kind is `ref`, and its type.
pub record FnDecl : Type 0 where
  pub name : Bytes
  pub params : List (Bytes × Bool × Ty)
  pub ret : Option Ty

-- The document; `license` is empty for a missing one.
pub record Doc : Type 0 where
  pub koit : ℕ
  pub kernel : Bytes
  pub cpu : Bytes
  pub unit : Bytes
  pub license : Bytes
  pub types : List (Bytes × Ty)
  pub maps : List MapDecl
  pub programs : List Program
  pub fns : List FnDecl

pub record KoitUnit : Type 0 where
  pub kernel : Bytes
  pub cpu : Bytes
  pub name : Bytes
  pub license : Bytes
  pub types : Types
  pub maps : List MapDecl
  pub programs : List Program
  pub fns : List FnDecl

unfoldable pub license_or_gpl : Bytes → Bytes
license_or_gpl [] = text "GPL"
license_or_gpl (c ∷ cs) = c ∷ cs

-- `Unit(doc)`
unfoldable pub unit_of : Doc → Result KoitUnit
unit_of doc = do
  check (doc.koit == 1) value_error
  ok (record {
    kernel = doc.kernel;
    cpu = doc.cpu;
    name = doc.unit;
    license = license_or_gpl doc.license;
    types = types_of doc.types;
    maps = doc.maps;
    programs = doc.programs;
    fns = doc.fns;
  })

-- `Unit.map`
unfoldable pub find_map : List MapDecl → Bytes → Result MapDecl
find_map [] name = err key_error
find_map (m ∷ ms) name = if same_bytes m.name name then ok m else find_map ms name
