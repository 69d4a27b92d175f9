-- ===== src/Transcribe/Protos.antt =====
-- tools/transcribe/transcribe.py: the helpers' numbers and prototypes, and the functions that hand the
-- prototypes out.
use koit.Base.{
  ℕ, Bool, true, false, ◌&&◌, ◌||◌, leb, if◌then◌else◌, none, some, List, [], ◌∷◌, ◌++◌, drop, map,
  Result, ok, err, ◌>>=◌, value_error,
}
use koit.Base.Bytes.{Bytes, starts_with}
use koit.Base.Dict.{Dict, put, same_bytes, bytes_eq, nat_eq}
use koit.Base.Regex.{
  Regex, one, seq, either, lazy, group, is_digit, Match, text_of, search_in, finditer,
}
use koit.Base.Sort.{sort}
use koit.Base.Text.{text, parse_int, is_empty}
use koit.Transcribe.{
  Tree, show, grep_files, squeeze, cat, lit, except, words, digits, spaces, anything,
}
use koit.Transcribe.Side.{Arg, FuncProto}

-- `FN\((\w+), (\d+), ##ctx\)`
unfoldable pub number_pattern : Regex
number_pattern = cat (
    lit (text "FN(")
    ∷ (group 1 words ∷ (lit (text ", ") ∷ (group 2 digits ∷ (lit (text ", ##ctx)") ∷ [])))))

unfoldable pub numbers_of : Dict Bytes ℕ → List Match → Result (Dict Bytes ℕ)
numbers_of numbers [] = ok numbers
numbers_of numbers (m ∷ ms) = do
  n ← parse_int 10 (text_of m 2)
  numbers_of (put numbers (text_of m 1) n) ms

unfoldable pub parse_helper_numbers : Bytes → Result (Dict Bytes ℕ)
parse_helper_numbers bpf_h = numbers_of [] (finditer number_pattern bpf_h)

-- What the kernel's own parser makes of a helper: the stars and the names are empty where it finds none.
pub record BrokenArg : Type 0 where
  pub type : Bytes
  pub star : Bytes
  pub name : Bytes

pub record BrokenDown : Type 0 where
  pub name : Bytes
  pub ret_type : Bytes
  pub ret_star : Bytes
  pub args : List BrokenArg

unfoldable pub starred : Bytes → Bytes → Bytes
starred type stars = if is_empty stars then type else type ++ text " *"

unfoldable pub args_of : List BrokenArg → List Arg
args_of [] = []
args_of (a ∷ args) =
    let rest = args_of args in
    if same_bytes a.type (text "...") || same_bytes a.name (text "...")
    then (text "...", []) ∷ rest
    else (if same_bytes a.type (text "void") && is_empty a.name
        then rest
        else (starred a.type a.star, a.name) ∷ rest)

unfoldable pub without_bpf : Bytes → Bytes
without_bpf name = if starts_with (text "bpf_") name then drop 4 name else name

unfoldable pub protos_of :
    Dict Bytes (Bytes × List Arg) → List BrokenDown → Dict Bytes (Bytes × List Arg)
protos_of protos [] = protos
protos_of protos (b ∷ helpers) =
    protos_of (put protos (without_bpf b.name) (starred b.ret_type b.ret_star, args_of b.args))
      helpers

-- The position of `s[:s.index(mark)]`'s end; `ValueError` where there is none.
unfoldable pub before_mark : Bytes → Bytes → Result Bytes
before_mark mark [] = if is_empty mark then ok [] else err value_error
before_mark mark (c ∷ cs) =
    let rest = before_mark mark cs in
    if starts_with mark (c ∷ cs) then ok [] else (do s ← rest; ok (c ∷ s))

-- The prototypes of the documentation, through the kernel's parser: its script's classes, on the header.
unfoldable pub parse_helper_protos :
    (Bytes → Bytes → List BrokenDown) → Tree → Result (Dict Bytes (Bytes × List Arg))
parse_helper_protos parser tree = do
  script ← show tree (text "scripts/bpf_doc.py")
  classes ← before_mark (text "\nargParser") script
  header ← show tree (text "include/uapi/linux/bpf.h")
  ok (protos_of [] (parser classes header))

-- `\.FIELD\s*=\s*VALUE`
unfoldable pub assigned : Regex → Regex → Regex
assigned field value =
    cat (lit (text ".") ∷ (field ∷ (spaces ∷ (lit (text "=") ∷ (spaces ∷ (value ∷ []))))))

-- `struct bpf_func_proto (\w+) =\s*\{(.*?)\};` under `re.S`
unfoldable pub func_proto_pattern : Regex
func_proto_pattern = cat (
    lit (text "struct bpf_func_proto ")
    ∷ (group 1 words
        ∷ (lit (text " =")
            ∷ (spaces ∷ (lit (text "{") ∷ (group 2 anything ∷ (lit (text "};") ∷ [])))))))

-- `([^,]+?)\s*,`
unfoldable pub up_to_comma : ℕ → Regex
up_to_comma i = cat (
    group i (seq (except (text ",")) (lazy (except (text ",")))) ∷ (spaces ∷ (lit (text ",") ∷ [])))

-- `\.arg(\d)_type\s*=\s*([^,]+?)\s*,`
unfoldable pub arg_pattern : Regex
arg_pattern =
    assigned (cat (lit (text "arg") ∷ (group 1 (one is_digit) ∷ (lit (text "_type") ∷ []))))
      (up_to_comma 2)

-- `m.group(1) if m else ""`
unfoldable pub found_or_empty : Regex → Bytes → Bytes
found_or_empty r s = elim (search_in r s) [ none ↦ [] | some m ↦ text_of m 1 ]

unfoldable pub found : Regex → Bytes → Bool
found r s = elim (search_in r s) [ none ↦ false | some m ↦ true ]

unfoldable pub proto_args : Dict ℕ Bytes → List Match → Result (Dict ℕ Bytes)
proto_args args [] = ok args
proto_args args (m ∷ ms) = do
  i ← parse_int 10 (text_of m 1)
  proto_args (put args i (squeeze (text_of m 2))) ms

unfoldable pub by_number : ℕ × Bytes → ℕ × Bytes → Bool
by_number a b = leb a.0 b.0

unfoldable pub proto_of : Bytes → Match → Result FuncProto
proto_of path m = do
  args ← proto_args [] (finditer arg_pattern (text_of m 2))
  ok (record {
    name = text_of m 1;
    func = found_or_empty (assigned (lit (text "func")) (group 1 words)) (text_of m 2);
    gpl_only =
        same_bytes
          (found_or_empty
            (assigned (lit (text "gpl_only"))
              (group 1 (either (lit (text "true")) (lit (text "false")))))
            (text_of m 2))
          (text "true");
    ret = squeeze (found_or_empty (assigned (lit (text "ret_type")) (up_to_comma 1)) (text_of m 2));
    args = map (λ (arg : ℕ × Bytes). arg.1) (sort by_number args);
    changes_pkt =
        found (assigned (lit (text "changes_pkt_data")) (lit (text "true"))) (text_of m 2);
    path = path;
  })

unfoldable pub protos_in : Bytes → List Match → Result (List FuncProto)
protos_in path [] = ok []
protos_in path (m ∷ ms) = do p ← proto_of path m; rest ← protos_in path ms; ok (p ∷ rest)

unfoldable pub protos_of_files : Tree → List Bytes → Result (List FuncProto)
protos_of_files tree [] = ok []
protos_of_files tree (path ∷ paths) = do
  src ← show tree path
  protos ← protos_in path (finditer func_proto_pattern src)
  rest ← protos_of_files tree paths
  ok (protos ++ rest)

unfoldable pub c_files : List Bytes
c_files = text "*.c" ∷ []

unfoldable pub parse_func_protos : Tree → Result (List FuncProto)
parse_func_protos tree = do
  paths ← grep_files tree (text "struct bpf_func_proto [A-Za-z_0-9]+ = *\\{") c_files
  protos_of_files tree paths
