-- ===== src/Transcribe/Values.antt =====
-- tools/transcribe/transcribe.py: the `#define`s, and the values of the interface.
pub mod First
use koit.Base.{
  ℕ, zero, suc, ◌+◌, ◌*◌, ◌^◌, Bool, true, false, not, ◌&&◌, ◌||◌, leb, ◌==◌, if◌then◌else◌, Option,
  none, some, List, [], ◌∷◌, ◌++◌, Result, ok, err, ◌>>=◌, system_exit,
}
use koit.Base.Bytes.{Bytes}
use koit.Base.Dict.{Dict, get, put_all, has_name, bytes_eq}
use koit.Base.Int.{ℤ, pos, negsuc}
use koit.Base.Regex.{
  Regex, seq, either, star, group, one, text_start, text_end, line_start, boundary, is_word,
  is_digit, Match, text_of, match_in, search_in, finditer, sub,
}
use koit.Base.Text.{text, parse_int, is_empty}
use koit.Btf.CType.{is_space, strip}
use koit.Transcribe.{
  Tree, show, partition, split_on, int_any, int_signed, cat, lit, opt, plus, words, digits, spaces,
  some_spaces, anything,
}
use mathlib.Core.List.{reverse}
use koit.Transcribe.Enums.{Value, parse_anon_enum, parse_enum}

-- `s.strip("()")`
unfoldable pub strip_parens_left : Bytes → Bytes
strip_parens_left [] = []
strip_parens_left (c ∷ cs) = if c == b'(' || c == b')' then strip_parens_left cs else c ∷ cs

unfoldable pub strip_parens : Bytes → Bytes
strip_parens s = reverse (strip_parens_left (reverse (strip_parens_left s)))

unfoldable pub is_hex : ℕ → Bool
is_hex c = is_digit c || leb b'a' c && leb c b'f' || leb b'A' c && leb c b'F'

unfoldable pub in_parens : Regex → Regex
in_parens r =
    cat (opt (lit (text "(")) ∷ (opt (lit (text "-")) ∷ (r ∷ (opt (lit (text ")")) ∷ []))))

-- `^#define\s+(PREFIX)\s+(\(?-?0x[0-9a-fA-F]+\)?|\(?-?\d+\)?)` under `re.M`
unfoldable pub define_pattern : Regex → Regex
define_pattern prefix = cat (
    line_start
    ∷ (lit (text "#define")
        ∷ (some_spaces
            ∷ (group 1 prefix
                ∷ (some_spaces
                    ∷ (group 2 (
                          either (in_parens (seq (lit (text "0x")) (plus (one is_hex))))
                            (in_parens digits))
                        ∷ []))))))

-- The values of the matches, by the reading of their numbers.
unfoldable pub values_of : (Bytes → Result ℤ) → List Match → Result (List Value)
values_of read [] = ok []
values_of read (m ∷ ms) = do
  v ← read (text_of m 2)
  values ← values_of read ms
  ok ((text_of m 1, v) ∷ values)

unfoldable pub parse_defines : Bytes → Regex → Result (List Value)
parse_defines src prefix =
    values_of (λ s. int_any (strip_parens s)) (finditer (define_pattern prefix) src)

-- `^\s*(IPPROTO_\w+)\s*=\s*(\d+)` under `re.M`
unfoldable pub protocol_pattern : Regex
protocol_pattern = cat (
    line_start
    ∷ (spaces
        ∷ (group 1 (seq (lit (text "IPPROTO_")) words)
            ∷ (spaces ∷ (lit (text "=") ∷ (spaces ∷ (group 2 digits ∷ [])))))))

-- `\bFLAG\s*=\s*(\d+)`
unfoldable pub flag_pattern : Bytes → Regex
flag_pattern flag =
    cat (boundary ∷ (lit flag ∷ (spaces ∷ (lit (text "=") ∷ (spaces ∷ (group 1 digits ∷ []))))))

-- `BPF_F_CURRENT_NETNS\s*=\s*\(?(-?\d+)L?\)?`
unfoldable pub netns_pattern : Regex
netns_pattern = cat (
    lit (text "BPF_F_CURRENT_NETNS")
    ∷ (spaces
        ∷ (lit (text "=")
            ∷ (spaces
                ∷ (opt (lit (text "("))
                    ∷ (group 1 (seq (opt (lit (text "-"))) digits)
                        ∷ (opt (lit (text "L")) ∷ (opt (lit (text ")")) ∷ []))))))))

unfoldable pub value_by : Bytes → Regex → Bytes → Result (List Value)
value_by name pattern src = elim (search_in pattern src) [
  | none ↦ ok []
  | some m ↦ (do v ← int_signed (text_of m 1); ok ((name, v) ∷ []))
]

unfoldable pub flag_values : List Bytes → Bytes → Result (List Value)
flag_values [] src = ok []
flag_values (flag ∷ flags) src = do
  found ← value_by flag (flag_pattern flag) src
  rest ← flag_values flags src
  ok (found ++ rest)

-- The elements whose name is not among the names seen, each name's first.
unfoldable pub firsts : {A : Type 0} → (A → Bytes) → List Bytes → List A → List A
firsts name seen [] = []
firsts name seen (x ∷ xs) =
    let without = firsts name seen xs in
    let behind = firsts name (name x ∷ seen) xs in
    if has_name seen (name x) then without else x ∷ behind

-- All the values, in the order of the sources.
unfoldable pub all_values : Tree → Bytes → Result (List Value)
all_values tree bpf_h = do
  actions ← parse_enum bpf_h (text "xdp_action")
  attach_types ← parse_enum bpf_h (text "bpf_attach_type")
  verdicts ← parse_enum bpf_h (text "sk_action")
  ops ← parse_anon_enum bpf_h (text "BPF_SOCK_OPS_VOID")
  redirect ← parse_anon_enum bpf_h (text "BPF_F_INGRESS")
  pkt_cls ← show tree (text "include/uapi/linux/pkt_cls.h")
  tc ← parse_defines pkt_cls (seq (lit (text "TC_ACT_")) words)
  in_h ← show tree (text "include/uapi/linux/in.h")
  protocols ← values_of int_signed (finditer protocol_pattern in_h)
  in6 ← show tree (text "include/uapi/linux/in6.h")
  protocols6 ← parse_defines in6 (seq (lit (text "IPPROTO_")) words)
  if_ether ← show tree (text "include/uapi/linux/if_ether.h")
  ethers ← parse_defines if_ether (either (seq (lit (text "ETH_P_")) words) (lit (text "ETH_ALEN")))
  flags ←
      flag_values
        (text "BPF_ANY" ∷ (text "BPF_NOEXIST" ∷ (text "BPF_EXIST" ∷ (text "BPF_F_LOCK" ∷ []))))
        bpf_h
  netns ← value_by (text "BPF_F_CURRENT_NETNS") netns_pattern bpf_h
  ok (
      actions
      ++ (attach_types
          ++ (verdicts
              ++ (ops
                  ++ (redirect
                      ++ (tc ++ (protocols ++ (protocols6 ++ (ethers ++ (flags ++ netns))))))))))

unfoldable pub parse_values : Tree → Bytes → Result (List Value)
parse_values tree bpf_h = do
  values ← all_values tree bpf_h
  ok (firsts (λ value. value.0) [] values)
