-- ===== src/Elf/Info.antt =====
-- tools/elf.py, `write`: the function information of `.BTF` and `.BTF.ext`.
use koit.Base.{
  ℕ, ◌+◌, ◌*◌, Bool, true, false, Option, none, some, List, [], ◌∷◌, ◌++◌, length, if◌then◌else◌,
  system_exit, of_option,
}
use koit.Base.Bytes.{Bytes}
use koit.Base.Dict.{Dict, get, put_all, bytes_eq}
use koit.Base.Text.{text}
use koit.Btf.{int_type, ptr, func_proto, func, decl_tag}
use koit.Btf.Blob.{FuncInfo}
use koit.Btf.Monad.{M, ◌>>=◌, ◌>>◌, return, lift}
use koit.Btf.OfType.{of_type}
use koit.Document.{Program, FnDecl}
use koit.Document.Layout.{Ty, Types, name_of}
use koit.Reloc.{words_of}

unfoldable pub fn_pairs : List FnDecl → List (Bytes × FnDecl)
fn_pairs [] = []
fn_pairs (f ∷ fs) = (f.name, f) ∷ fn_pairs fs

-- `{f["name"]: f for f in fns}`
unfoldable pub fns_by_name : List FnDecl → Dict Bytes FnDecl
fns_by_name fns = put_all [] (fn_pairs fns)

module _ (types : Types) where
  abbrev type_id : Ty → M ℕ
  type_id t = of_type (length types) types t (name_of t)

  -- The parameters from number `i` on: a name and a type id each, and the numbers of the references.
  unfoldable pub fn_params : ℕ → List (Bytes × Bool × Ty) → M (List (Bytes × ℕ) × List ℕ)
  fn_params i [] = return ([], [])
  fn_params i ((name, is_ref, t) ∷ params) = do
    id ← type_id t
    id' ← (if is_ref then ptr id else return id)
    (rest, tags) ← fn_params (i + 1) params
    return ((name, id') ∷ rest, if is_ref then i ∷ tags else tags)

  unfoldable pub fn_ret : Option Ty → M ℕ
  fn_ret none = return 0
  fn_ret (some t) = type_id t

  unfoldable pub nonnull_tags : ℕ → List ℕ → M (Unit {0})
  nonnull_tags fid [] = return tt
  nonnull_tags fid (i ∷ tags) = do
    tag ← decl_tag (text "arg:nonnull") fid (some i)
    nonnull_tags fid tags

  unfoldable pub subprogram_info : Dict Bytes FnDecl → ℕ → List (Bytes × ℕ) → M (List FuncInfo)
  subprogram_info fns base [] = return []
  subprogram_info fns base ((name, insn) ∷ subs) = do
    f ← lift (of_option system_exit (get fns name))
    (params, tags) ← fn_params 0 f.params
    ret ← fn_ret f.ret
    proto ← func_proto ret params
    fid ← func name proto 1
    nonnull_tags fid tags
    rest ← subprogram_info fns base subs
    return ((base + 8 * insn, fid) ∷ rest)

  -- The records of the programs of a section, the first of them at `base`.
  unfoldable pub section_info : Dict Bytes FnDecl → ℕ → List Program → M (List FuncInfo)
  section_info fns base [] = return []
  section_info fns base (p ∷ programs) = do
    words ← lift (words_of p)
    int ← int_type (text "int") 4 true false
    ctx ← ptr 0
    main_proto ← func_proto int ((text "ctx", ctx) ∷ [])
    main ← func p.name main_proto 0
    subs ← subprogram_info fns base p.subprograms
    rest ← section_info fns (base + 8 * length words) programs
    return ((base, main) ∷ (subs ++ rest))

  unfoldable pub ext_sections :
      Dict Bytes FnDecl → List (Bytes × List Program) → M (List (Bytes × List FuncInfo))
  ext_sections fns [] = return []
  ext_sections fns ((sec, progs) ∷ groups) = do
    recs ← section_info fns 0 progs
    rest ← ext_sections fns groups
    return ((sec, recs) ∷ rest)

unfoldable pub any_subprograms : List Program → Bool
any_subprograms [] = false
any_subprograms (p ∷ programs) = elim p.subprograms [
  | [] ↦ any_subprograms programs
  | s ∷ subs ↦ true
]
