-- ===== src/Transcribe/Side.antt =====
-- tools/transcribe/transcribe.py: what is read from a tree, the value that the written file holds.
use koit.Base.{ℕ, Bool, Option, List}
use koit.Base.Bytes.{Bytes}
use koit.Base.Int.{ℤ}
use koit.Transcribe.Enums.{Value}
use koit.Transcribe.Layout.{CtxStruct}

-- The type and the name of an argument.
abbrev pub Arg : Type 0
Arg = Bytes × Bytes

pub record Helper : Type 0 where
  pub name : Bytes
  pub id : ℕ
  pub ret : Bytes
  pub args : List Arg

pub record FuncProto : Type 0 where
  pub name : Bytes
  pub func : Bytes
  pub gpl_only : Bool
  pub ret : Bytes
  pub args : List Bytes
  pub changes_pkt : Bool
  pub path : Bytes

pub record ProtoFn : Type 0 where
  pub name : Bytes
  pub cases : List (Bytes × Bytes)
  pub fallback : Option Bytes

pub record ProgType : Type 0 where
  pub name : Bytes
  pub id : ℤ
  pub proto_fn : Option Bytes
  pub ctx : Option Bytes
  pub sections : List (Bytes × Option Bytes)
  pub kfunc_sets : List Bytes

pub record Kfunc : Type 0 where
  pub name : Bytes
  pub set : Bytes
  pub flags : List Bytes
  pub ret : Bytes
  pub args : List Arg

pub record Side : Type 0 where
  pub tag : Bytes
  pub tree : Bytes
  pub commit : Bytes
  pub helpers : List Helper
  pub protos : List FuncProto
  pub proto_fns : List ProtoFn
  pub prog_types : List ProgType
  pub map_types : List Value
  pub kfuncs : List Kfunc
  pub ctx : List CtxStruct
  pub values : List Value
  pub changes_pkt : List Bytes
  pub spin_lock_size : ℕ
