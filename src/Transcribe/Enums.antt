-- ===== src/Transcribe/Enums.antt =====
-- tools/transcribe/transcribe.py: the C enumerations.
pub mod Rules
pub mod Numbering
use koit.Base.{
  ℕ, zero, suc, ◌+◌, ◌*◌, ◌^◌, Bool, true, false, not, ◌&&◌, ◌||◌, leb, ◌==◌, if◌then◌else◌, Option,
  none, some, List, [], ◌∷◌, ◌++◌, Result, ok, err, ◌>>=◌, system_exit,
}
use koit.Base.Bytes.{Bytes}
use koit.Base.Dict.{Dict, get, put_all, has_name, bytes_eq}
use koit.Base.Int.{ℤ, pos, negsuc}
use koit.Base.Regex.{
  Regex, seq, either, star, group, one, text_start, text_end, line_start, boundary, is_word,
  is_digit, Match, text_of, match_in, search_in, finditer, sub,
}
use koit.Base.Text.{text, parse_int, is_empty}
use koit.Btf.CType.{is_space, strip}
use koit.Transcribe.{
  Tree, show, partition, split_on, int_any, int_signed, cat, lit, opt, plus, words, digits, spaces,
  some_spaces, anything,
}
use mathlib.Core.List.{reverse}

abbrev pub Value : Type 0
Value = Bytes × ℤ

-- `^\(?\s*(\d+)\s*U?L*\s*<<\s*(\d+)\s*\)?$`
unfoldable pub shift_pattern : Regex
shift_pattern = cat (
    text_start
    ∷ (opt (lit (text "("))
        ∷ (spaces
            ∷ (group 1 digits
                ∷ (spaces
                    ∷ (opt (lit (text "U"))
                        ∷ (star (lit (text "L"))
                            ∷ (spaces
                                ∷ (lit (text "<<")
                                    ∷ (spaces
                                        ∷ (group 2 digits
                                            ∷ (spaces
                                                ∷ (opt (lit (text ")"))
                                                    ∷ (text_end ∷ []))))))))))))))

unfoldable pub shifted : Match → Result ℤ
shifted m = do
  base ← parse_int 10 (text_of m 1)
  by ← parse_int 10 (text_of m 2)
  ok (pos (base * 2 ^ by))

unfoldable pub enum_value : Bytes → Dict Bytes ℤ → Result ℤ
enum_value val known =
    let val' = strip val in
    elim (get known val') [
      | some v ↦ ok v
      | none ↦ elim (match_in shift_pattern val') [ some m ↦ shifted m | none ↦ int_any val' ]
    ]

unfoldable pub next_value : ℤ → ℤ
next_value (pos n) = pos (suc n)
next_value (negsuc zero) = pos 0
next_value (negsuc (suc n)) = negsuc n

-- An item that is not blank: its name, and its value or the next one.
unfoldable pub enum_item : List Value → ℤ → Bytes × Option Bytes → Result Value
enum_item values nxt (item, none) = ok (item, nxt)
enum_item values nxt (name, some val) = do
  v ← enum_value (strip val) (put_all [] values)
  ok (strip name, v)

unfoldable pub enum_loop : List Value → ℤ → List Bytes → Result (List Value)
enum_loop values nxt [] = ok values
enum_loop values nxt (item ∷ items) =
    let skip = enum_loop values nxt items in
    elim (is_empty (strip item)) [
      | true ↦ skip
      | false ↦ (do
        value ← enum_item values nxt (partition b'=' (strip item))
        enum_loop (values ++ (value ∷ [])) (next_value value.1) items)
    ]

-- `/\*.*?\*/` under `re.S`, and `^\s*#.*$` under `re.M`.
unfoldable pub comment_pattern : Regex
comment_pattern = cat (lit (text "/*") ∷ (anything ∷ (lit (text "*/") ∷ [])))

unfoldable pub directive_pattern : Regex
directive_pattern =
    cat (line_start ∷ (spaces ∷ (lit (text "#") ∷ (star (one (λ c. not (c == 10))) ∷ []))))

unfoldable pub parse_enum_body : Bytes → Result (List Value)
parse_enum_body body =
    enum_loop [] (pos 0) (split_on b',' (sub directive_pattern [] (sub comment_pattern [] body)))

-- `^HEAD \{(.*?)^\};` under `re.M | re.S`
unfoldable pub block_pattern : Bytes → Regex
block_pattern head = cat (
    line_start
    ∷ (lit (head ++ text " {") ∷ (group 1 anything ∷ (line_start ∷ (lit (text "};") ∷ [])))))

unfoldable pub parse_enum : Bytes → Bytes → Result (List Value)
parse_enum src enum_name = elim (search_in (block_pattern (text "enum " ++ enum_name)) src) [
  | none ↦ err system_exit
  | some m ↦ parse_enum_body (text_of m 1)
]

unfoldable pub declares : Bytes → Match → Bool
declares member m =
    elim (search_in (cat (boundary ∷ (lit member ∷ (boundary ∷ [])))) (text_of m 1)) [
      | none ↦ false
      | some found ↦ true
    ]

unfoldable pub first_declaring : Bytes → List Match → Result (List Value)
first_declaring member [] = err system_exit
first_declaring member (m ∷ ms) =
    let rest = first_declaring member ms in
    if declares member m then parse_enum_body (text_of m 1) else rest

unfoldable pub parse_anon_enum : Bytes → Bytes → Result (List Value)
parse_anon_enum src member = first_declaring member (finditer (block_pattern (text "enum")) src)
