-- ===== src/Transcribe/ProtoFns.antt =====
-- tools/transcribe/transcribe.py: the functions that hand out prototypes by a helper's number.
pub mod Shared
use koit.Base.{
  ℕ, zero, suc, ◌+◌, ◌-◌, Bool, true, false, not, ◌&&◌, ◌||◌, ◌==◌, if◌then◌else◌, Option, none,
  some, List, [], ◌∷◌, ◌++◌, length, take, drop, map, Result, ok, err, ◌>>=◌,
}
use koit.Base.Bytes.{Bytes, starts_with}
use koit.Base.Dict.{Dict, get, put, same_bytes, bytes_eq, nat_eq}
use koit.Base.Regex.{
  Regex, Place, one, seq, either, star, lazy, group, line_start, line_end, boundary, is_word, Match,
  text_of, group_of, search_in, finditer, search_from, start_of,
}
use koit.Base.Text.{text, is_empty}
use koit.Btf.CType.{is_space}
use koit.Transcribe.{Tree, show, grep_files, cat, lit, opt, plus, except, words, spaces, anything}
use koit.Transcribe.Protos.{c_files}
use koit.Transcribe.Side.{ProtoFn}

-- `^(?:[\w\s\*]+?[\s\*])?NAME\s*\([^)]*\)\s*\n?\{` under `re.M`
unfoldable pub function_pattern : Bytes → Regex
function_pattern name =
    let any_word = one (λ c. is_word c || (is_space c || c == b'*')) in
    cat (
      line_start
      ∷ (opt (cat (any_word ∷ (lazy any_word ∷ (one (λ c. is_space c || c == b'*') ∷ []))))
          ∷ (lit name
              ∷ (spaces
                  ∷ (lit (text "(")
                      ∷ (star (except (text ")"))
                          ∷ (lit (text ")")
                              ∷ (spaces ∷ (opt (one (◌==◌ 10)) ∷ (lit (text "{") ∷ []))))))))))

-- `s[:s.find("\n}\n")]`; `find` gives -1 where there is none, which leaves the last letter out.
unfoldable pub up_to_brace : Bytes → Option Bytes
up_to_brace [] = none
up_to_brace (c ∷ cs) =
    let rest = up_to_brace cs in
    if starts_with (text "\n}\n") (c ∷ cs)
    then some []
    else (elim rest [ none ↦ none | some s ↦ some (c ∷ s) ])

unfoldable pub closed_body : Bytes → Bytes
closed_body s = elim (up_to_brace s) [ some body ↦ body | none ↦ take (length s - 1) s ]

unfoldable pub function_body : Bytes → Bytes → Option Bytes
function_body src name = elim (search_in (function_pattern name) src) [
  | none ↦ none
  | some m ↦ some (closed_body m.end.rest)
]

-- `&(\w+_proto)\b`, of which `\w+` gives letters back.
unfoldable pub proto_pattern : Regex
proto_pattern = cat (lit (text "&") ∷ (group 1 (seq words (lit (text "_proto"))) ∷ (boundary ∷ [])))

-- `struct bpf_func_proto \*\s*(\w+)\(void\)\s*\n?\{(.*?)^\}` under `re.M | re.S`
unfoldable pub getter_pattern : Regex
getter_pattern = cat (
    lit (text "struct bpf_func_proto *")
    ∷ (spaces
        ∷ (group 1 words
            ∷ (lit (text "(void)")
                ∷ (spaces
                    ∷ (opt (one (◌==◌ 10))
                        ∷ (lit (text "{")
                            ∷ (group 2 anything ∷ (line_start ∷ (lit (text "}") ∷ []))))))))))

unfoldable pub add_getters : Dict Bytes Bytes → List Match → Dict Bytes Bytes
add_getters getters [] = getters
add_getters getters (m ∷ ms) = elim (search_in proto_pattern (text_of m 2)) [
  | none ↦ add_getters getters ms
  | some p ↦ add_getters (put getters (text_of m 1) (text_of p 1)) ms
]

unfoldable pub getters_of_files : Tree → Dict Bytes Bytes → List Bytes → Result (Dict Bytes Bytes)
getters_of_files tree getters [] = ok getters
getters_of_files tree getters (path ∷ paths) = do
  src ← show tree path
  getters_of_files tree (add_getters getters (finditer getter_pattern src)) paths

unfoldable pub parse_proto_getters : Tree → Result (Dict Bytes Bytes)
parse_proto_getters tree = do
  paths ← grep_files tree (text "struct bpf_func_proto \\*[A-Za-z_0-9]+\\(void\\)") c_files
  getters_of_files tree [] paths

-- `^\s*(case BPF_FUNC_(\w+):|default:)` under `re.M`
unfoldable pub label_pattern : Regex
label_pattern = cat (
    line_start
    ∷ (spaces
        ∷ (group 1 (
              either (cat (lit (text "case BPF_FUNC_") ∷ (group 2 words ∷ (lit (text ":") ∷ []))))
                (lit (text "default:")))
            ∷ [])))

-- `\b(\w+SUFFIX)\s*\(`
unfoldable pub call_pattern : Bytes → Bytes → Regex
call_pattern suffix behind =
    cat (boundary ∷ (group 1 (seq words (lit suffix)) ∷ (spaces ∷ (lit behind ∷ []))))

unfoldable pub return_pattern : Regex
return_pattern = cat (boundary ∷ (lit (text "return") ∷ (boundary ∷ [])))

-- The prototype that the text behind a label names, by itself or by its getter.
unfoldable pub named_proto : Dict Bytes Bytes → Bytes → Option Bytes
named_proto getters text' = elim (search_in proto_pattern text') [
  | some p ↦ some (text_of p 1)
  | none ↦ elim (search_in (call_pattern (text "_proto") (text "()")) text') [
    | none ↦ none
    | some g ↦ get getters (text_of g 1)
  ]
]

-- A label: a helper's, or the default; and the text behind it, up to the next label.
pub data Label : Type 0 where
  helper : (name : Bytes) (behind : Bytes) → Label
  default : (behind : Bytes) → Label

-- The loop's variables: the cases, the fallback, and the helpers whose labels stand above the same text.
pub record Cases : Type 0 where
  pub cases : List (Bytes × Bytes)
  pub fallback : Option Bytes
  pub pending : List Bytes

unfoldable pub fallback_of : Option Bytes → Bytes → Option Bytes
fallback_of fallback behind =
    elim (search_in (call_pattern (text "_func_proto") (text "(")) behind) [
      | none ↦ fallback
      | some m ↦ some (text_of m 1)
    ]

unfoldable pub label_step : Dict Bytes Bytes → Cases → Label → Cases
label_step getters c (default behind) = record {
  cases = c.cases;
  fallback = fallback_of c.fallback behind;
  pending = [];
}
label_step getters c (helper name behind) = elim (named_proto getters behind) [
  | some proto ↦ record {
    cases = c.cases ++ map (λ h. (h, proto)) (c.pending ++ (name ∷ []));
    fallback = c.fallback;
    pending = [];
  }
  | none ↦ elim (search_in return_pattern behind) [
    | none ↦ record c { pending = c.pending ++ (name ∷ []) }
    | some m ↦ record c { pending = [] }
  ]
]

unfoldable pub label_steps : Dict Bytes Bytes → Cases → List Label → Cases
label_steps getters c [] = c
label_steps getters c (label ∷ labels) = label_steps getters (label_step getters c label) labels

unfoldable pub no_cases : Cases
no_cases = record { cases = []; fallback = none; pending = [] }

-- The text from the label's end to the next one's start.
unfoldable pub behind_label : Match → List Match → Bytes
behind_label m [] = m.end.rest
behind_label m (n ∷ ms) = take (n.start - m.end.pos) m.end.rest

unfoldable pub label_of : Match → Bytes → Label
label_of m behind =
    if same_bytes (text_of m 1) (text "default:")
    then default behind
    else helper (text_of m 2) behind

unfoldable pub labels_of : List Match → List Label
labels_of [] = []
labels_of (m ∷ ms) = label_of m (behind_label m ms) ∷ labels_of ms

unfoldable pub proto_fn : Dict Bytes Bytes → Bytes → Bytes → ProtoFn
proto_fn getters name body =
    let c = label_steps getters no_cases (labels_of (finditer label_pattern body)) in
    record { name = name; cases = c.cases; fallback = c.fallback }

-- `^(\w+_func_proto)\(enum bpf_func_id func_id` under `re.M`
unfoldable pub proto_fn_pattern : Regex
proto_fn_pattern = cat (
    line_start
    ∷ (group 1 (seq words (lit (text "_func_proto")))
        ∷ (lit (text "(enum bpf_func_id func_id") ∷ [])))

unfoldable pub add_fns :
    Dict Bytes Bytes → Bytes → Dict Bytes ProtoFn → List Match → Dict Bytes ProtoFn
add_fns getters src fns [] = fns
add_fns getters src fns (m ∷ ms) = elim (function_body src (text_of m 1)) [
  | none ↦ add_fns getters src fns ms
  | some body ↦ add_fns getters src (put fns (text_of m 1) (proto_fn getters (text_of m 1) body)) ms
]

unfoldable pub fns_of_files :
    Tree → Dict Bytes Bytes → Dict Bytes ProtoFn → List Bytes → Result (Dict Bytes ProtoFn)
fns_of_files tree getters fns [] = ok fns
fns_of_files tree getters fns (path ∷ paths) = do
  src ← show tree path
  fns_of_files tree getters (add_fns getters src fns (finditer proto_fn_pattern src)) paths

unfoldable pub parse_proto_fns : Tree → Result (Dict Bytes ProtoFn)
parse_proto_fns tree = do
  getters ← parse_proto_getters tree
  paths ← grep_files tree (text "^[A-Za-z_0-9]+_func_proto\\(enum bpf_func_id func_id") c_files
  fns_of_files tree getters [] paths
