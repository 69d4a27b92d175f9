-- ===== src/Transcribe/Lean.antt =====
-- tools/transcribe/transcribe.py: the Lean text of the values.
pub mod Strings
pub mod Tables
use koit.Base.{
  ℕ, zero, suc, ◌+◌, ◌-◌, Bool, true, false, not, ◌&&◌, ◌||◌, leb, ◌==◌, if◌then◌else◌, Option,
  none, some, List, [], ◌∷◌, ◌++◌, replicate, map,
}
use koit.Base.Bytes.{Bytes}
use koit.Base.Int.{ℤ, pos, negsuc, str}
use koit.Base.Text.{text, join, decimal}
use koit.Load.{lstrip_v}
use koit.Transcribe.Enums.{Value}
use koit.Transcribe.Layout.{CtxStruct, Field}
use koit.Transcribe.Side.{Arg, Helper, FuncProto, ProtoFn, ProgType, Kfunc, Side}

-- `s.replace(c, by)` for one letter.
unfoldable pub replace : ℕ → Bytes → Bytes → Bytes
replace c by [] = []
replace c by (x ∷ xs) = if x == c then by ++ replace c by xs else x ∷ replace c by xs

unfoldable pub lstr : Bytes → Bytes
lstr s = b'"' ∷ (replace b'"' (92 ∷ (b'"' ∷ [])) (replace 92 (92 ∷ (92 ∷ [])) s) ++ (b'"' ∷ []))

unfoldable pub lbool : Bool → Bytes
lbool b = if b then text "true" else text "false"

unfoldable pub lint : ℤ → Bytes
lint (pos n) = decimal n
lint (negsuc n) = text "(" ++ (str (negsuc n) ++ text ")")

unfoldable pub lopt : Option Bytes → Bytes
lopt none = text "none"
lopt (some s) = text "some " ++ lstr s

unfoldable pub llist : List Bytes → ℕ → Bytes
llist [] indent = text "[]"
llist (x ∷ xs) indent =
    let pad = replicate indent 32 in
    text "[\n"
    ++ (join (text ",\n") (map (λ item. pad ++ item) (x ∷ xs))
        ++ (text "\n" ++ (replicate (indent - 2) 32 ++ text "]")))

unfoldable pub is_alnum : ℕ → Bool
is_alnum c = leb b'a' c && leb c b'z' || (leb b'A' c && leb c b'Z' || leb b'0' c && leb c b'9')

-- `re.sub(r"[^A-Za-z0-9]", "_", s)`
unfoldable pub underscored : Bytes → Bytes
underscored s = map (λ c. if is_alnum c then c else b'_') s

unfoldable pub lean_name : Bytes → Bytes
lean_name tag = text "v" ++ underscored (lstrip_v tag)

unfoldable pub file_name : Bytes → Bytes
file_name tag = text "V" ++ (underscored (lstrip_v tag) ++ text ".lean")

-- The parts one behind the other, as an f-string has them.
unfoldable pub concat : List Bytes → Bytes
concat [] = []
concat (s ∷ ss) = s ++ concat ss

unfoldable pub commas : List Bytes → Bytes
commas = join (text ", ")

unfoldable pub pair : Bytes → Bytes → Bytes
pair a b = concat (text "(" ∷ (a ∷ (text ", " ∷ (b ∷ (text ")" ∷ [])))))

unfoldable pub args_text : List Arg → Bytes
args_text args = commas (map (λ (arg : Arg). pair (lstr arg.0) (lstr arg.1)) args)

unfoldable pub helper_text : Helper → Bytes
helper_text h = concat (
    text "{ name := "
    ∷ (lstr h.name
        ∷ (text ", id := "
            ∷ (decimal h.id
                ∷ (text ", ret := "
                    ∷ (lstr h.ret
                        ∷ (text ", args := [" ∷ (args_text h.args ∷ (text "] }" ∷ [])))))))))

unfoldable pub proto_text : FuncProto → Bytes
proto_text p = concat (
    text "{ name := "
    ∷ (lstr p.name
        ∷ (text ", func := "
            ∷ (lstr p.func
                ∷ (text ", gplOnly := "
                    ∷ (lbool p.gpl_only
                        ∷ (text ", ret := "
                            ∷ (lstr p.ret
                                ∷ (text ", args := ["
                                    ∷ (commas (map lstr p.args) ∷ (text "] }" ∷ [])))))))))))

unfoldable pub proto_fn_text : ProtoFn → Bytes
proto_fn_text f = concat (
    text "{ name := "
    ∷ (lstr f.name
        ∷ (text ", fallback := "
            ∷ (lopt f.fallback
                ∷ (text ",\n    cases := [" ∷ (args_text f.cases ∷ (text "] }" ∷ [])))))))

unfoldable pub prog_type_text : ProgType → Bytes
prog_type_text t = concat (
    text "{ name := "
    ∷ (lstr t.name
        ∷ (text ", id := "
            ∷ (str t.id
                ∷ (text ", protoFn := "
                    ∷ (lopt t.proto_fn
                        ∷ (text ", ctx := "
                            ∷ (lopt t.ctx
                                ∷ (text ",\n    sections := ["
                                    ∷ (commas (
                                          map
                                            (λ (s : Bytes × Option Bytes).
                                              pair (lstr s.0) (lopt s.1))
                                            t.sections)
                                        ∷ (text "], kfuncSets := ["
                                            ∷ (commas (map lstr t.kfunc_sets)
                                                ∷ (text "] }" ∷ [])))))))))))))

unfoldable pub map_type_text : Value → Bytes
map_type_text (k, v) = pair (lstr k) (str v)

unfoldable pub kfunc_text : Kfunc → Bytes
kfunc_text k = concat (
    text "{ name := "
    ∷ (lstr k.name
        ∷ (text ", set := "
            ∷ (lstr k.set
                ∷ (text ", flags := ["
                    ∷ (commas (map lstr k.flags)
                        ∷ (text "], ret := "
                            ∷ (lstr k.ret
                                ∷ (text ", args := ["
                                    ∷ (args_text k.args ∷ (text "] }" ∷ [])))))))))))

unfoldable pub field_text : Field → Bytes
field_text f = concat (
    text "⟨"
    ∷ (lstr f.name
        ∷ (text ", " ∷ (decimal f.offset ∷ (text ", " ∷ (decimal f.size ∷ (text "⟩" ∷ [])))))))

unfoldable pub ctx_text : CtxStruct → Bytes
ctx_text c = concat (
    text "{ name := "
    ∷ (lstr c.name
        ∷ (text ", size := "
            ∷ (decimal c.size
                ∷ (text ",\n    fields := ["
                    ∷ (commas (map field_text c.fields) ∷ (text "] }" ∷ [])))))))

unfoldable pub value_text : Value → Bytes
value_text (k, v) = pair (lstr k) (lint v)

-- `def NAME.FIELD : TYPE := [...]`
unfoldable pub definition : Bytes → Bytes → Bytes → List Bytes → Bytes
definition name field type items = concat (
    text "def "
    ∷ (name
        ∷ (text "."
            ∷ (field
                ∷ (text " : " ∷ (type ∷ (text " := " ∷ (llist items 2 ∷ (text "\n" ∷ [])))))))))

unfoldable pub head_text : Side → Bytes
head_text side = concat (
    text "/-!\nThe kernel side of the interface for "
    ∷ (side.tag
        ∷ (text ", transcribed by\n`tools/transcribe/transcribe.py` from "
            ∷ (side.tree
                ∷ (text " at "
                    ∷ (side.tag
                        ∷ (text "\n("
                            ∷ (side.commit
                                ∷ (text "). Do not edit: rerun the transcriber.\n-/\n" ∷ [])))))))))

unfoldable pub side_text : Side → Bytes → Bytes
side_text side name = concat (
    text "def "
    ∷ (name
        ∷ (text " : Side :=\n  { tag := "
            ∷ (lstr side.tag
                ∷ (text ", tree := "
                    ∷ (lstr side.tree
                        ∷ (text ", commit := "
                            ∷ (lstr side.commit
                                ∷ (text ",\n    helpers := "
                                    ∷ (name
                                        ∷ (text ".helpers, protos := "
                                            ∷ (name
                                                ∷ (text ".protos, protoFns := "
                                                    ∷ (name
                                                        ∷ (text ".protoFns,\n    progTypes := "
                                                            ∷ (name
                                                            ∷ (text ".progTypes, mapTypes := "
                                                            ∷ (name
                                                            ∷ (text ".mapTypes, kfuncs := "
                                                            ∷ (name
                                                            ∷ (text ".kfuncs,\n    ctx := "
                                                            ∷ (name
                                                            ∷ (text ".ctx, values := "
                                                            ∷ (name
                                                            ∷ (text ".values,\n    changesPkt := ["
                                                            ∷ (commas (map lstr side.changes_pkt)
                                                            ∷ (text "],\n    spinLockSize := "
                                                            ∷ (decimal side.spin_lock_size
                                                            ∷ (text " }\n"
                                                            ∷ [])))))))))))))))))))))))))))))

-- `emit`: the file's text.
unfoldable pub emit : Side → Bytes → Bytes
emit side name = join (text "\n") (
    text "import Koit.Interface.Kernel\n"
    ∷ (head_text side
        ∷ (text "namespace Koit.Interface.Kernel\n"
            ∷ (definition name (text "helpers") (text "List Helper") (map helper_text side.helpers)
                ∷ (definition name (text "protos") (text "List Proto") (map proto_text side.protos)
                    ∷ (definition name (text "protoFns") (text "List ProtoFn")
                          (map proto_fn_text side.proto_fns)
                        ∷ (definition name (text "progTypes") (text "List ProgType")
                              (map prog_type_text side.prog_types)
                            ∷ (definition name (text "mapTypes") (text "List (String × Nat)")
                                  (map map_type_text side.map_types)
                                ∷ (definition name (text "kfuncs") (text "List Kfunc")
                                      (map kfunc_text side.kfuncs)
                                    ∷ (definition name (text "ctx") (text "List CtxStruct")
                                          (map ctx_text side.ctx)
                                        ∷ (definition name (text "values")
                                              (text "List (String × Int)")
                                              (map value_text side.values)
                                            ∷ (concat (
                                                  text "/-- The kernel side of "
                                                  ∷ (side.tag ∷ (text ". -/\n" ∷ [])))
                                                ∷ (side_text side name
                                                    ∷ (text "\nend Koit.Interface.Kernel\n"
                                                        ∷ []))))))))))))))
