-- ===== src/Transcribe/ProgTypes.antt =====
-- tools/transcribe/transcribe.py: the program types, their operations, and their sections.
use koit.Base.{if◌then◌else◌, Option, none, some, List, [], ◌∷◌, ◌++◌, map, Result, ok, ◌>>=◌}
use koit.Base.Bytes.{Bytes}
use koit.Base.Dict.{Dict, get, put, same_bytes, bytes_eq}
use koit.Base.Regex.{Regex, seq, either, group, Match, text_of, search_in, finditer}
use koit.Base.Text.{text}
use koit.Transcribe.{Tree, show, grep_files, cat, lit, plus, except, words, spaces, anything}
use koit.Transcribe.Protos.{c_files, assigned}

pub record TypeRow : Type 0 where
  pub name : Bytes
  pub ops : Bytes
  pub ctx : Option Bytes

-- `BPF_PROG_TYPE\((BPF_PROG_TYPE_\w+),\s*(\w+),\s*(struct \w+|void)`
unfoldable pub prog_type_pattern : Regex
prog_type_pattern = cat (
    lit (text "BPF_PROG_TYPE(")
    ∷ (group 1 (seq (lit (text "BPF_PROG_TYPE_")) words)
        ∷ (lit (text ",")
            ∷ (spaces
                ∷ (group 2 words
                    ∷ (lit (text ",")
                        ∷ (spaces
                            ∷ (group 3
                                  (either (seq (lit (text "struct ")) words) (lit (text "void")))
                                ∷ []))))))))

unfoldable pub type_row : Match → TypeRow
type_row m = record {
  name = text_of m 1;
  ops = text_of m 2 ++ text "_verifier_ops";
  ctx = if same_bytes (text_of m 3) (text "void") then none else some (text_of m 3);
}

unfoldable pub parse_prog_types : Tree → Result (List TypeRow)
parse_prog_types tree = do
  src ← show tree (text "include/linux/bpf_types.h")
  ok (map type_row (finditer prog_type_pattern src))

-- What a function makes of each file's text, from the left.
unfoldable pub over_files : {A : Type 0} → Tree → (A → Bytes → A) → A → List Bytes → Result A
over_files tree f a [] = ok a
over_files tree f a (path ∷ paths) = do src ← show tree path; over_files tree f (f a src) paths

-- `struct STRUCT (\w+SUFFIX) = \{(.*?)\};` under `re.S`
unfoldable pub struct_pattern : Bytes → Bytes → Regex
struct_pattern struct suffix = cat (
    lit (text "struct " ++ (struct ++ text " "))
    ∷ (group 1 (seq words (lit suffix))
        ∷ (lit (text " = {") ∷ (group 2 anything ∷ (lit (text "};") ∷ [])))))

unfoldable pub first_group : Option Match → Option Bytes
first_group none = none
first_group (some m) = some (text_of m 1)

unfoldable pub add_ops : Dict Bytes (Option Bytes) → List Match → Dict Bytes (Option Bytes)
add_ops ops [] = ops
add_ops ops (m ∷ ms) =
    add_ops
      (put ops (text_of m 1) (
        first_group
          (search_in (assigned (lit (text "get_func_proto")) (group 1 words)) (text_of m 2))))
      ms

unfoldable pub ops_in : Dict Bytes (Option Bytes) → Bytes → Dict Bytes (Option Bytes)
ops_in ops src =
    add_ops ops (finditer (struct_pattern (text "bpf_verifier_ops") (text "_verifier_ops")) src)

unfoldable pub parse_verifier_ops : Tree → Result (Dict Bytes (Option Bytes))
parse_verifier_ops tree = do
  paths ← grep_files tree (text "_verifier_ops = \\{") c_files
  over_files tree ops_in [] paths

-- `d.setdefault(k, []).append(v)`
unfoldable pub append_to : {A : Type 0} → Dict Bytes (List A) → Bytes → A → Dict Bytes (List A)
append_to d k v = elim (get d k) [ none ↦ put d k (v ∷ []) | some vs ↦ put d k (vs ++ (v ∷ [])) ]

-- `SEC_DEF\("([^"]+)",\s*(\w+),\s*(\w+),`
unfoldable pub section_pattern : Regex
section_pattern = cat (
    lit (text "SEC_DEF(\"")
    ∷ (group 1 (plus (except (text "\"")))
        ∷ (lit (text "\",")
            ∷ (spaces
                ∷ (group 2 words
                    ∷ (lit (text ",") ∷ (spaces ∷ (group 3 words ∷ (lit (text ",") ∷ [])))))))))

unfoldable pub attach_of : Bytes → Option Bytes
attach_of s = if same_bytes s (text "0") then none else some s

unfoldable pub add_sections :
    Dict Bytes (List (Bytes × Option Bytes)) → List Match → Dict Bytes (List (Bytes × Option Bytes))
add_sections secs [] = secs
add_sections secs (m ∷ ms) =
    add_sections
      (append_to secs (text "BPF_PROG_TYPE_" ++ text_of m 2) (text_of m 1, attach_of (text_of m 3)))
      ms

unfoldable pub parse_sections : Tree → Result (Dict Bytes (List (Bytes × Option Bytes)))
parse_sections tree = do
  src ← show tree (text "tools/lib/bpf/libbpf.c")
  ok (add_sections [] (finditer section_pattern src))
