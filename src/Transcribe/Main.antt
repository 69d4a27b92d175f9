-- ===== src/Transcribe/Main.antt =====
-- tools/transcribe/transcribe.py: `main`, from the tree to the text of the file. The warnings that it prints
-- change nothing of the text and are left out.
pub mod Helpers
use koit.Base.{
  ℕ, zero, suc, ◌+◌, Bool, true, false, not, ◌&&◌, ◌||◌, leb, ◌==◌, if◌then◌else◌, Option, none,
  some, List, [], ◌∷◌, ◌++◌, map, Error, Result, ok, err, ◌>>=◌, of_option, key_error, system_exit,
}
use koit.Base.Bytes.{Bytes}
use koit.Base.Dict.{Dict, get, put, has_name, same_bytes, bytes_eq}
use koit.Base.Int.{ℤ}
use koit.Base.Regex.{Regex, group, Match, text_of, finditer}
use koit.Base.Sort.{sort, lex_leq}
use koit.Base.Text.{text, is_empty}
use koit.Transcribe.{Tree, show, commit, cat, lit, words}
use koit.Transcribe.Enums.{Value, parse_enum}
use koit.Transcribe.Values.{parse_values, firsts}
use koit.Transcribe.Kfuncs.{
  SetRow, Defs, parse_kfunc_registrations, parse_kfunc_sets, parse_kfunc_defs,
}
use koit.Transcribe.ProgTypes.{TypeRow, parse_prog_types, parse_verifier_ops, parse_sections}
use koit.Transcribe.Layout.{CtxStruct, layout_struct}
use koit.Transcribe.Lean.{emit, lean_name}
use koit.Transcribe.ProtoFns.{function_body, parse_proto_fns}
use koit.Transcribe.Protos.{
  BrokenDown, parse_helper_numbers, parse_helper_protos, parse_func_protos,
}
use koit.Transcribe.Side.{Arg, Helper, FuncProto, ProtoFn, ProgType, Kfunc, Side}

-- The set with the names of the list, each once.
unfoldable pub add_names : List Bytes → List Bytes → List Bytes
add_names names [] = names
add_names names (n ∷ ns) = add_names (if has_name names n then names else names ++ (n ∷ [])) ns

-- `re.findall` of a pattern with one group.
unfoldable pub findall : Regex → Bytes → List Bytes
findall r s = map (λ m. text_of m 1) (finditer r s)

-- `{p["name"]: p["func"] for p in protos}`
unfoldable pub by_proto : Dict Bytes Bytes → List FuncProto → Dict Bytes Bytes
by_proto d [] = d
by_proto d (p ∷ protos) = by_proto (put d p.name p.func) protos

unfoldable pub is_changing : Dict Bytes Bytes → List Bytes → Bytes → Bool
is_changing funcs_by changing proto = elim (get funcs_by proto) [
  | none ↦ false
  | some func ↦ has_name changing func
]

-- The helpers of the cases whose prototype's function is a changing one.
unfoldable pub changing_cases : Dict Bytes Bytes → List Bytes → List (Bytes × Bytes) → List Bytes
changing_cases funcs_by changing [] = []
changing_cases funcs_by changing ((helper, proto) ∷ cases) =
    let rest = changing_cases funcs_by changing cases in
    if is_changing funcs_by changing proto then helper ∷ rest else rest

unfoldable pub all_cases : Dict Bytes ProtoFn → List (Bytes × Bytes)
all_cases [] = []
all_cases ((name, f) ∷ fns) = f.cases ++ all_cases fns

unfoldable pub changing_in : List FuncProto → Dict Bytes ProtoFn → Option Bytes → List Bytes
changing_in protos fns none = []
changing_in protos fns (some body) =
    let cases =
      findall (cat (lit (text "case BPF_FUNC_") ∷ (group 1 words ∷ (lit (text ":") ∷ [])))) body in
    let funcs = findall (cat (lit (text "func == ") ∷ (group 1 words ∷ []))) body in
    add_names (add_names [] cases) (changing_cases (by_proto [] protos) funcs (all_cases fns))

unfoldable pub parse_changes_pkt : Tree → List FuncProto → Dict Bytes ProtoFn → Result (List Bytes)
parse_changes_pkt tree protos fns = do
  src ← show tree (text "net/core/filter.c")
  ok (
      sort lex_leq
        (changing_in protos fns (function_body src (text "bpf_helper_changes_pkt_data"))))

unfoldable pub number_leq : Bytes × ℕ → Bytes × ℕ → Bool
number_leq a b = leb a.1 b.1

-- The helpers that have a prototype.
unfoldable pub helpers_of : Dict Bytes (Bytes × List Arg) → List (Bytes × ℕ) → List Helper
helpers_of protos [] = []
helpers_of protos ((name, id) ∷ numbers) = elim (get protos name) [
  | none ↦ helpers_of protos numbers
  | some proto ↦
      record { name = name; id = id; ret = proto.0; args = proto.1 } ∷ helpers_of protos numbers
]

-- The list of helpers: those with a prototype, by their numbers.
unfoldable pub helper_list : Dict Bytes (Bytes × List Arg) → List (Bytes × ℕ) → List Helper
helper_list protos numbers = helpers_of protos (sort number_leq numbers)

-- `d.get(k, [])`
unfoldable pub get_list : {A : Type 0} → Dict Bytes (List A) → Bytes → List A
get_list d k = elim (get d k) [ none ↦ [] | some vs ↦ vs ]

-- The function of a type's operations, if it was found and parsed.
unfoldable pub proto_fn_of : Dict Bytes ProtoFn → Option (Option Bytes) → Option Bytes
proto_fn_of fns none = none
proto_fn_of fns (some none) = none
proto_fn_of fns (some (some fn)) =
    if is_empty fn then some fn else (elim (get fns fn) [ none ↦ none | some f ↦ some fn ])

-- What is read of the program types.
pub record TypeTables : Type 0 where
  pub ops : Dict Bytes (Option Bytes)
  pub fns : Dict Bytes ProtoFn
  pub ids : List Value
  pub sections : Dict Bytes (List (Bytes × Option Bytes))
  pub registrations : Dict Bytes (List Bytes)

-- `dict(values)[name]`
unfoldable pub last_value : Dict Bytes ℤ → List Value → Dict Bytes ℤ
last_value d [] = d
last_value d ((k, v) ∷ values) = last_value (put d k v) values

unfoldable pub id_of : TypeTables → Bytes → Result ℤ
id_of t name = of_option key_error (get (last_value [] t.ids) name)

unfoldable pub prog_type_of : TypeTables → TypeRow → Result ProgType
prog_type_of t row = do
  id ← id_of t row.name
  ok (record {
    name = row.name;
    id = id;
    proto_fn = proto_fn_of t.fns (get t.ops row.ops);
    ctx = row.ctx;
    sections = get_list t.sections row.name;
    kfunc_sets = get_list t.registrations row.name;
  })

unfoldable pub prog_types_of : TypeTables → List TypeRow → Result (List ProgType)
prog_types_of t [] = ok []
prog_types_of t (row ∷ rows) = do p ← prog_type_of t row; rest ← prog_types_of t rows; ok (p ∷ rest)

-- The type of no type, in front, if kfuncs are registered for it.
unfoldable pub with_unspec : TypeTables → List ProgType → Result (List ProgType)
with_unspec t types = elim (get t.registrations (text "BPF_PROG_TYPE_UNSPEC")) [
  | none ↦ ok types
  | some sets ↦ (do
    id ← id_of t (text "BPF_PROG_TYPE_UNSPEC")
    ok (
        record {
          name = text "BPF_PROG_TYPE_UNSPEC";
          id = id;
          proto_fn = none;
          ctx = none;
          sections = [];
          kfunc_sets = sets;
        }
        ∷ types))
]

unfoldable pub kfunc_of : Defs → SetRow → Kfunc
kfunc_of defs row =
    let found : Bytes × List Arg = elim (get defs row.name) [ none ↦ ([], []) | some d ↦ d ] in
    record { name = row.name; set = row.set; flags = row.flags; ret = found.0; args = found.1 }

unfoldable pub ctx_names : List TypeRow → List Bytes
ctx_names [] = []
ctx_names (row ∷ rows) = elim row.ctx [ none ↦ ctx_names rows | some c ↦ c ∷ ctx_names rows ]

-- `except SystemExit`: a struct that cannot be laid out is left out.
unfoldable pub add_ctx : Result CtxStruct → Result (List CtxStruct) → Result (List CtxStruct)
add_ctx (ok s) rest = do structs ← rest; ok (s ∷ structs)
add_ctx (err system_exit) rest = rest
add_ctx (err e) rest = err e

unfoldable pub ctx_structs : Bytes → List Bytes → Result (List CtxStruct)
ctx_structs bpf_h [] = ok []
ctx_structs bpf_h (c ∷ names) = add_ctx (layout_struct bpf_h c) (ctx_structs bpf_h names)

unfoldable pub fn_leq : ProtoFn → ProtoFn → Bool
fn_leq f g = lex_leq f.name g.name

-- `fns.values()`
unfoldable pub values_in : {A : Type 0} → Dict Bytes A → List A
values_in d = map (λ kv. kv.1) d

-- Everything that is read from the tree, whose path is absolute here.
unfoldable pub read_side : (Bytes → Bytes → List BrokenDown) → Tree → Result Side
read_side parser tree = do
  bpf_h ← show tree (text "include/uapi/linux/bpf.h")
  numbers ← parse_helper_numbers bpf_h
  cprotos ← parse_helper_protos parser tree
  protos ← parse_func_protos tree
  fns ← parse_proto_fns tree
  rows ← parse_prog_types tree
  ops ← parse_verifier_ops tree
  ids ← parse_enum bpf_h (text "bpf_prog_type")
  secs ← parse_sections tree
  regs ← parse_kfunc_registrations tree
  let tables : TypeTables = record {
    ops = ops;
    fns = fns;
    ids = ids;
    sections = secs;
    registrations = regs;
  }
  known_types ← prog_types_of tables rows
  prog_types ← with_unspec tables known_types
  kdefs ← parse_kfunc_defs tree
  sets ← parse_kfunc_sets tree
  structs ← ctx_structs bpf_h (sort lex_leq (add_names [] (ctx_names rows)))
  id ← commit tree
  map_types ← parse_enum bpf_h (text "bpf_map_type")
  values ← parse_values tree bpf_h
  changes ← parse_changes_pkt tree (firsts (λ (p : FuncProto). p.name) [] protos) fns
  lock ← layout_struct bpf_h (text "struct bpf_spin_lock")
  ok (record {
    tag = tree.tag;
    tree = tree.path;
    commit = id;
    helpers = helper_list cprotos numbers;
    protos = firsts (λ (p : FuncProto). p.name) [] protos;
    proto_fns = sort fn_leq (values_in fns);
    prog_types = prog_types;
    map_types = map_types;
    kfuncs = map (kfunc_of kdefs) sets;
    ctx = structs;
    values = values;
    changes_pkt = changes;
    spin_lock_size = lock.size;
  })

-- `main`: the text of the file.
unfoldable pub transcribe : (Bytes → Bytes → List BrokenDown) → Tree → Result Bytes
transcribe parser tree = do side ← read_side parser tree; ok (emit side (lean_name tree.tag))
