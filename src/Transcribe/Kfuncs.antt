-- ===== src/Transcribe/Kfuncs.antt =====
-- tools/transcribe/transcribe.py: the kernel functions, their sets and their definitions.
use koit.Base.{not, ◌||◌, ◌==◌, if◌then◌else◌, none, some, List, [], ◌∷◌, ◌++◌, map, Result, ◌>>=◌}
use koit.Base.Bytes.{Bytes}
use koit.Base.Dict.{Dict, get, put, same_bytes, bytes_eq}
use koit.Base.Regex.{
  Regex, one, seq, either, star, lazy, group, backref, line_start, text_end, boundary, is_word,
  Match, text_of, search_in, match_in, finditer, sub,
}
use koit.Base.Text.{text, is_empty}
use koit.Btf.CType.{is_space, strip}
use koit.Transcribe.{
  Tree, grep_files, split_on, squeeze, cat, lit, opt, plus, except, words, spaces, some_spaces,
  anything,
}
use koit.Transcribe.Protos.{c_files, assigned}
use koit.Transcribe.Side.{Arg}
use koit.Transcribe.ProgTypes.{append_to, over_files, struct_pattern}

-- The sets of the `btf_kfunc_id_set` variables of a file.
unfoldable pub add_sets : Dict Bytes Bytes → List Match → Dict Bytes Bytes
add_sets sets [] = sets
add_sets sets (m ∷ ms) =
    elim (search_in (assigned (lit (text "set")) (seq (lit (text "&")) (group 1 words)))
      (text_of m 2)) [
        | none ↦ add_sets sets ms
        | some s ↦ add_sets (put sets (text_of m 1) (text_of s 1)) ms
      ]

-- `register_btf_kfunc_id_set\((BPF_PROG_TYPE_\w+),\s*&(\w+)\)`
unfoldable pub register_pattern : Regex
register_pattern = cat (
    lit (text "register_btf_kfunc_id_set(")
    ∷ (group 1 (seq (lit (text "BPF_PROG_TYPE_")) words)
        ∷ (lit (text ",") ∷ (spaces ∷ (lit (text "&") ∷ (group 2 words ∷ (lit (text ")") ∷ [])))))))

unfoldable pub add_registrations :
    Dict Bytes Bytes → Dict Bytes (List Bytes) → List Match → Dict Bytes (List Bytes)
add_registrations sets regs [] = regs
add_registrations sets regs (m ∷ ms) = elim (get sets (text_of m 2)) [
  | none ↦ add_registrations sets regs ms
  | some set ↦ add_registrations sets (append_to regs (text_of m 1) set) ms
]

unfoldable pub registrations_in : Dict Bytes (List Bytes) → Bytes → Dict Bytes (List Bytes)
registrations_in regs src =
    let sets = add_sets [] (finditer (struct_pattern (text "btf_kfunc_id_set") []) src) in
    add_registrations sets regs (finditer register_pattern src)

unfoldable pub parse_kfunc_registrations : Tree → Result (Dict Bytes (List Bytes))
parse_kfunc_registrations tree = do
  paths ← grep_files tree (text "register_btf_kfunc_id_set\\(") c_files
  over_files tree registrations_in [] paths

pub record SetRow : Type 0 where
  pub name : Bytes
  pub set : Bytes
  pub flags : List Bytes

-- `(?:BTF_SET8_START|BTF_KFUNCS_START)\((\w+)\)(.*?)(?:BTF_SET8_END|BTF_KFUNCS_END)\(\1\)` under `re.S`
unfoldable pub set_pattern : Regex
set_pattern = cat (
    either (lit (text "BTF_SET8_START")) (lit (text "BTF_KFUNCS_START"))
    ∷ (lit (text "(")
        ∷ (group 1 words
            ∷ (lit (text ")")
                ∷ (group 2 anything
                    ∷ (either (lit (text "BTF_SET8_END")) (lit (text "BTF_KFUNCS_END"))
                        ∷ (lit (text "(") ∷ (backref 1 ∷ (lit (text ")") ∷ [])))))))))

-- `BTF_ID_FLAGS\(func,\s*(\w+)(?:,\s*([^)]+))?\)`
unfoldable pub flags_pattern : Regex
flags_pattern = cat (
    lit (text "BTF_ID_FLAGS(func,")
    ∷ (spaces
        ∷ (group 1 words
            ∷ (opt (cat (lit (text ",") ∷ (spaces ∷ (group 2 (plus (except (text ")"))) ∷ []))))
                ∷ (lit (text ")") ∷ [])))))

unfoldable pub stripped : List Bytes → List Bytes
stripped [] = []
stripped (s ∷ ss) = let rest = stripped ss in if is_empty (strip s) then rest else strip s ∷ rest

unfoldable pub set_row : Bytes → Match → SetRow
set_row set m = record {
  name = text_of m 1;
  set = set;
  flags = stripped (split_on b'|' (text_of m 2));
}

unfoldable pub set_rows : List Match → List SetRow
set_rows [] = []
set_rows (m ∷ ms) =
    map (set_row (text_of m 1)) (finditer flags_pattern (text_of m 2)) ++ set_rows ms

unfoldable pub sets_in : List SetRow → Bytes → List SetRow
sets_in sets src = sets ++ set_rows (finditer set_pattern src)

unfoldable pub parse_kfunc_sets : Tree → Result (List SetRow)
parse_kfunc_sets tree = do
  paths ← grep_files tree (text "BTF_ID_FLAGS\\(func,") c_files
  over_files tree sets_in [] paths

-- `^__bpf_kfunc\s+([\w\s\*]+?)\s*\b(\w+)\s*\(([^)]*)\)\s*\n?\{` under `re.M`
unfoldable pub kfunc_pattern : Regex
kfunc_pattern =
    let any_word = one (λ c. is_word c || (is_space c || c == b'*')) in
    cat (
      line_start
      ∷ (lit (text "__bpf_kfunc")
          ∷ (some_spaces
              ∷ (group 1 (seq any_word (lazy any_word))
                  ∷ (spaces
                      ∷ (boundary
                          ∷ (group 2 words
                              ∷ (spaces
                                  ∷ (lit (text "(")
                                      ∷ (group 3 (star (except (text ")")))
                                          ∷ (lit (text ")")
                                              ∷ (spaces
                                                  ∷ (opt (one (◌==◌ 10))
                                                      ∷ (lit (text "{") ∷ []))))))))))))))

-- `re.sub(r"\bWORD\b", "", ret).strip()`
unfoldable pub without_word : Bytes → Bytes → Bytes
without_word word ret = strip (sub (cat (boundary ∷ (lit word ∷ (boundary ∷ [])))) [] ret)

unfoldable pub without_words : List Bytes → Bytes → Bytes
without_words [] ret = ret
without_words (word ∷ rest) ret = without_words rest (without_word word ret)

-- `(.+?)\s*(\**)\s*(\w+)$`
unfoldable pub param_pattern : Regex
param_pattern =
    let any = one (λ c. not (c == 10)) in
    cat (
      group 1 (seq any (lazy any))
      ∷ (spaces
          ∷ (group 2 (star (one (◌==◌ b'*'))) ∷ (spaces ∷ (group 3 words ∷ (text_end ∷ []))))))

unfoldable pub param_of : Bytes → Arg
param_of a = elim (match_in param_pattern a) [
  | none ↦ (a, [])
  | some m ↦ (
    if is_empty (text_of m 2) then text_of m 1 else text_of m 1 ++ (text " " ++ text_of m 2),
    text_of m 3,
  )
]

unfoldable pub params_of : List Bytes → List Arg
params_of [] = []
params_of (a ∷ args) =
    let rest = params_of args in
    if is_empty (squeeze a) || same_bytes (squeeze a) (text "void")
    then rest
    else param_of (squeeze a) ∷ rest

abbrev pub Defs : Type 0
Defs = Dict Bytes (Bytes × List Arg)

-- `defs.setdefault(name, (ret, args))`
unfoldable pub set_default : Defs → Bytes → Bytes × List Arg → Defs
set_default defs k v = elim (get defs k) [ none ↦ put defs k v | some old ↦ defs ]

unfoldable pub add_defs : Defs → List Match → Defs
add_defs defs [] = defs
add_defs defs (m ∷ ms) =
    let ret =
      without_words (text "static" ∷ (text "inline" ∷ (text "__always_inline" ∷ [])))
        (squeeze (text_of m 1)) in
    add_defs (set_default defs (text_of m 2) (ret, params_of (split_on b',' (text_of m 3)))) ms

unfoldable pub defs_in : Defs → Bytes → Defs
defs_in defs src = add_defs defs (finditer kfunc_pattern src)

unfoldable pub parse_kfunc_defs : Tree → Result Defs
parse_kfunc_defs tree = do
  paths ← grep_files tree (text "^__bpf_kfunc ") c_files
  over_files tree defs_in [] paths
