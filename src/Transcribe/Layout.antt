-- ===== src/Transcribe/Layout.antt =====
-- tools/transcribe/transcribe.py: the context structs, laid out by C's rules.
pub mod Rules
pub mod Placing
pub mod Struct
use koit.Base.{
  ℕ, zero, suc, ◌+◌, ◌-◌, ◌*◌, ◌/◌, Bool, true, false, ◌&&◌, ◌||◌, max, ◌==◌, if◌then◌else◌, Option,
  none, some, List, [], ◌∷◌, ◌++◌, Result, ok, err, ◌>>=◌, of_option, key_error, value_error,
  system_exit,
}
use koit.Base.Bytes.{Bytes}
use koit.Base.Dict.{Dict, get, same_bytes, bytes_eq}
use koit.Base.Regex.{
  Regex, seq, either, group, star, Match, group_of, text_of, match_in, search_in, sub,
}
use koit.Base.Text.{text, parse_int, is_empty}
use koit.Btf.CType.{strip}
use koit.Transcribe.{
  cat, lit, opt, plus, except, words, digits, spaces, some_spaces, anything, splitlines,
}
use koit.Transcribe.Enums.{block_pattern, comment_pattern}

abbrev pub scalar_sizes : Dict Bytes ℕ
scalar_sizes =
    (text "__u8", 1)
    ∷ ((text "__s8", 1)
        ∷ ((text "__u16", 2)
            ∷ ((text "__s16", 2)
                ∷ ((text "__u32", 4)
                    ∷ ((text "__s32", 4)
                        ∷ ((text "__u64", 8)
                            ∷ ((text "__s64", 8)
                                ∷ ((text "__be16", 2)
                                    ∷ ((text "__be32", 4) ∷ ((text "__be64", 8) ∷ []))))))))))

-- A member: its size, its alignment, its name.
pub record Member : Type 0 where
  pub size : ℕ
  pub align : ℕ
  pub name : Bytes

pub record Field : Type 0 where
  pub name : Bytes
  pub offset : ℕ
  pub size : ℕ

pub record CtxStruct : Type 0 where
  pub name : Bytes
  pub size : ℕ
  pub fields : List Field

-- `__bpf_md_ptr\([^,]+,\s*(\w+)\);`
unfoldable pub pointer_pattern : Regex
pointer_pattern = cat (
    lit (text "__bpf_md_ptr(")
    ∷ (plus (except (text ","))
        ∷ (lit (text ",") ∷ (spaces ∷ (group 1 words ∷ (lit (text ");") ∷ []))))))

unfoldable pub any_of : Regex → List Regex → Regex
any_of r [] = r
any_of r (s ∷ rs) = either r (any_of s rs)

-- `(__(?:u|s|be)(?:8|16|32|64))\s+(\w+)?(?:\[(\d+)\])?\s*(?::\s*(\d+))?;`
unfoldable pub scalar_pattern : Regex
scalar_pattern = cat (
    group 1 (
      cat (
        lit (text "__")
        ∷ (any_of (lit (text "u")) (lit (text "s") ∷ (lit (text "be") ∷ []))
            ∷ (any_of (lit (text "8"))
                  (lit (text "16") ∷ (lit (text "32") ∷ (lit (text "64") ∷ [])))
                ∷ []))))
    ∷ (some_spaces
        ∷ (opt (group 2 words)
            ∷ (opt (cat (lit (text "[") ∷ (group 3 digits ∷ (lit (text "]") ∷ []))))
                ∷ (spaces
                    ∷ (opt (cat (lit (text ":") ∷ (spaces ∷ (group 4 digits ∷ []))))
                        ∷ (lit (text ";") ∷ [])))))))

unfoldable pub count_of : Option Bytes → Result ℕ
count_of none = ok 1
count_of (some s) = parse_int 10 s

-- A bit-field, which has no name: padding of its bits.
unfoldable pub bit_field : Bytes → Bytes → Result Member
bit_field [] bits = do
  n ← parse_int 10 bits
  ok (record { size = (n + 7) / 8; align = 1; name = [] })
bit_field (c ∷ name) bits = err system_exit

-- A scalar, or an array of scalars.
unfoldable pub array_member : ℕ → Bytes → Option Bytes → Result Member
array_member base name count = do
  n ← count_of count
  ok (record { size = base * n; align = base; name = name })

unfoldable pub sized_member : ℕ → Bytes → (count bits : Option Bytes) → Result Member
sized_member base name count none = array_member base name count
sized_member base name count (some bits) = bit_field name bits

unfoldable pub scalar_member : Match → Result Member
scalar_member m = do
  base ← of_option key_error (get scalar_sizes (text_of m 1))
  sized_member base (text_of m 2) (group_of m 3) (group_of m 4)

-- `layout_member`
unfoldable pub layout_member : Bytes → Result Member
layout_member line = elim (match_in pointer_pattern line) [
  | some m ↦ ok (record { size = 8; align = 8; name = text_of m 1 })
  | none ↦ elim (match_in scalar_pattern line) [ none ↦ err system_exit | some m ↦ scalar_member m ]
]

-- The loop's variables: the open union is `none` outside one.
pub record Frame : Type 0 where
  pub fields : List Field
  pub off : ℕ
  pub align_max : ℕ
  pub union : Option (List Member)

-- `(off + align - 1) // align * align`
unfoldable pub round_up : ℕ → ℕ → ℕ
round_up off align = (off + align - 1) / align * align

unfoldable pub largest : (Member → ℕ) → List Member → ℕ
largest f [] = 0
largest f (m ∷ ms) = max (f m) (largest f ms)

unfoldable pub fields_at : ℕ → List Member → List Field
fields_at off [] = []
fields_at off (m ∷ ms) = record { name = m.name; offset = off; size = m.size } ∷ fields_at off ms

-- The end of a union; `max` of no members raises.
unfoldable pub close_union : Frame → List Member → Result Frame
close_union frame [] = err value_error
close_union frame (m ∷ ms) =
    let align = largest (λ k. k.align) (m ∷ ms) in
    let off = round_up frame.off align in
    ok (record {
      fields = frame.fields ++ fields_at off (m ∷ ms);
      off = off + largest (λ k. k.size) (m ∷ ms);
      align_max = max frame.align_max align;
      union = none;
    })

-- A member of the struct itself.
unfoldable pub place : Frame → Member → Frame
place frame m =
    let off = round_up frame.off m.align in
    record {
      fields = frame.fields ++ fields_at off (m ∷ []);
      off = off + m.size;
      align_max = max frame.align_max m.align;
      union = none;
    }

unfoldable pub add_to : Option (List Member) → Frame → Member → Frame
add_to none frame m = place frame m
add_to (some ms) frame m = record frame { union = some (ms ++ (m ∷ [])) }

unfoldable pub add_member : Frame → Member → Frame
add_member frame m = add_to frame.union frame m

unfoldable pub layout_other : Frame → Bytes → Result Frame
layout_other frame line = do m ← layout_member line; ok (add_member frame m)

-- `};`, which closes a union that is open.
unfoldable pub layout_close : Option (List Member) → Frame → Bytes → Result Frame
layout_close none frame line = layout_other frame line
layout_close (some ms) frame line = close_union frame ms

-- The line by the tests on it: whether it is blank, opens a union, or closes one.
unfoldable pub layout_by : (blank opens closes : Bool) → Frame → Bytes → Result Frame
layout_by true opens closes frame line = ok frame
layout_by false true closes frame line = ok (record frame { union = some [] })
layout_by false false true frame line = layout_close frame.union frame line
layout_by false false false frame line = layout_other frame line

-- A line, stripped.
unfoldable pub layout_line : Frame → Bytes → Result Frame
layout_line frame line =
    layout_by (is_empty line) (same_bytes line (text "union {")) (same_bytes line (text "};")) frame
      line

unfoldable pub layout_lines : Frame → List Bytes → Result Frame
layout_lines frame [] = ok frame
layout_lines frame (line ∷ lines) = do
  frame' ← layout_line frame (strip line)
  layout_lines frame' lines

unfoldable pub empty_frame : Frame
empty_frame = record { fields = []; off = 0; align_max = 1; union = none }

unfoldable pub layout_body : Bytes → Bytes → Result CtxStruct
layout_body name body = do
  frame ← layout_lines empty_frame (splitlines (sub comment_pattern [] body))
  ok (record { name = name; size = round_up frame.off frame.align_max; fields = frame.fields })

-- `layout_struct`
unfoldable pub layout_struct : Bytes → Bytes → Result CtxStruct
layout_struct bpf_h name = elim (search_in (block_pattern name) bpf_h) [
  | none ↦ err system_exit
  | some m ↦ layout_body name (text_of m 1)
]
