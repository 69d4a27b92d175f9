-- ===== src/Transcribe/Tests.antt =====
-- A struct of a word and a pointer; names with letters that a literal escapes.
use koit.Base.{ℕ, zero, suc, ◌≡◌, ◌↔◌, refl, arith, All, none, some, List, [], ◌∷◌, ◌++◌, map, ok}
use koit.Base.Bytes.{Bytes}
use koit.Base.Regex
use koit.Base.Text.{text}
use koit.Base.Dict.{Dict}
use koit.Base.Int.{pos, negsuc}
use koit.Base.Sort.{Has}
use koit.Transcribe.{splitlines, split_on}
use koit.Transcribe.Enums.{Value, comment_pattern, directive_pattern, parse_enum_body}
use koit.Transcribe.Values.{firsts}
use koit.Transcribe.Values.First.{find, Distinct, firsts_lem}
use koit.Transcribe.Enums.Rules.{Members}
use koit.Transcribe.Enums.Numbering.{parse_enum_body_iff}
use koit.Transcribe.Lean.{llist, value_text}
use koit.Transcribe.Lean.Tables.{read_values, read_values-llist}
use koit.Transcribe.Main.{helper_list}
use koit.Transcribe.Main.Helpers.{Ascending, IsHelper, helper_list_lem}
use koit.Transcribe.ProtoFns.{helper, Cases, no_cases, label_steps, named_proto}
use koit.Transcribe.ProtoFns.Shared.{Given, label_for, FallsThrough, label_steps_shared}
use koit.Transcribe.Side.{Arg, Helper}
use koit.Transcribe.Layout.{Member, CtxStruct, layout_body}
use koit.Transcribe.Layout.Rules.{Reads}
use koit.Transcribe.Layout.Struct.{IsLayout, layout_body-IsLayout}

abbrev body : Bytes
body = text "__u8 a;" ++ (10 ∷ text "__u32 b;")

abbrev laid_out : CtxStruct
laid_out = record {
  name = text "s";
  size = 8;
  fields =
      record { name = text "a"; offset = 0; size = 1 }
      ∷ (record { name = text "b"; offset = 4; size = 4 } ∷ []);
}

lays_out : layout_body (text "s") body ≡ ok laid_out
unfolding Regex.at_boundary Regex.at_end Regex.at_line_end Regex.at_line_start Regex.go_if
    Regex.go_on Regex.greedily Regex.group_of Regex.is_digit Regex.is_word Regex.lazily Regex.letter
    Regex.literal Regex.match_at Regex.match_in Regex.match_with Regex.search_from Regex.step
    Regex.sub Regex.sub_from Regex.text_of koit.Base.Dict.get koit.Base.Dict.put
    koit.Base.Dict.same_bytes koit.Base.Text.digit_value koit.Base.Text.digits_value
    koit.Base.Text.is_empty koit.Base.Text.parse_int koit.Btf.CType.is_space koit.Btf.CType.strip
    koit.Btf.CType.strip_left koit.Transcribe.Enums.comment_pattern
    koit.Transcribe.Layout.add_member koit.Transcribe.Layout.add_to koit.Transcribe.Layout.any_of
    koit.Transcribe.Layout.array_member koit.Transcribe.Layout.bit_field
    koit.Transcribe.Layout.close_union koit.Transcribe.Layout.count_of
    koit.Transcribe.Layout.empty_frame koit.Transcribe.Layout.fields_at
    koit.Transcribe.Layout.largest koit.Transcribe.Layout.layout_by
    koit.Transcribe.Layout.layout_close koit.Transcribe.Layout.layout_line
    koit.Transcribe.Layout.layout_lines koit.Transcribe.Layout.layout_member
    koit.Transcribe.Layout.layout_other koit.Transcribe.Layout.place
    koit.Transcribe.Layout.pointer_pattern koit.Transcribe.Layout.round_up
    koit.Transcribe.Layout.scalar_member koit.Transcribe.Layout.scalar_pattern
    koit.Transcribe.Layout.sized_member koit.Transcribe.anything koit.Transcribe.cat
    koit.Transcribe.digits koit.Transcribe.except koit.Transcribe.is_break
    koit.Transcribe.lines_loop koit.Transcribe.lit koit.Transcribe.opt koit.Transcribe.plus
    koit.Transcribe.some_spaces koit.Transcribe.spaces koit.Transcribe.words layout_body splitlines
lays_out = refl

layout_body-IsLayout_example :
    (items : List (List Member)) × Reads none (splitlines (Regex.sub comment_pattern [] body)) items
    × IsLayout items laid_out
layout_body-IsLayout_example = layout_body-IsLayout (text "s") body lays_out

abbrev values : List Value
values = (text "A", pos 1) ∷ ((text "B", pos 2) ∷ ((text "A", pos 3) ∷ []))

abbrev name_of : Value → Bytes
name_of value = value.0

firsts_lem_example :
    Distinct name_of (firsts name_of [] values)
    × ((k : Bytes) → find name_of (firsts name_of [] values) k ≡ find name_of values k)
firsts_lem_example = firsts_lem name_of values

abbrev actions : Bytes
actions = text " XDP_ABORTED, XDP_DROP, XDP_LAST = 9, XDP_END,"

abbrev action_values : List Value
action_values =
    (text "XDP_ABORTED", pos 0)
    ∷ ((text "XDP_DROP", pos 1) ∷ ((text "XDP_LAST", pos 9) ∷ ((text "XDP_END", pos 10) ∷ [])))

parse_enum_body_iff_example :
    (parse_enum_body actions ≡ ok action_values)
    ↔ Members []
        (split_on b',' (Regex.sub directive_pattern [] (Regex.sub comment_pattern [] actions)))
        action_values
parse_enum_body_iff_example = parse_enum_body_iff actions action_values

abbrev getters : Dict Bytes Bytes
getters = []

abbrev silent : Bytes
silent = text " "

abbrev speaks : Bytes
speaks = text " return &a_proto;"

silent-FallsThrough : FallsThrough getters (text "x", silent)
unfolding Regex.at_boundary Regex.at_end Regex.at_line_end Regex.at_line_start Regex.go_if
    Regex.go_on Regex.greedily Regex.group_of Regex.is_word Regex.lazily Regex.letter Regex.literal
    Regex.match_at Regex.match_with Regex.search_from Regex.search_in Regex.step Regex.text_of
    koit.Base.Dict.get koit.Base.Dict.put koit.Base.Dict.same_bytes koit.Btf.CType.is_space
    koit.Transcribe.ProtoFns.call_pattern koit.Transcribe.ProtoFns.proto_pattern
    koit.Transcribe.ProtoFns.return_pattern koit.Transcribe.cat koit.Transcribe.lit
    koit.Transcribe.plus koit.Transcribe.spaces koit.Transcribe.words named_proto
silent-FallsThrough = (refl, refl)

names_proto : named_proto getters speaks ≡ some (text "a_proto")
unfolding Regex.at_boundary Regex.at_end Regex.at_line_end Regex.at_line_start Regex.go_if
    Regex.go_on Regex.greedily Regex.group_of Regex.is_word Regex.lazily Regex.letter Regex.literal
    Regex.match_at Regex.match_with Regex.search_from Regex.search_in Regex.step Regex.text_of
    koit.Base.Dict.get koit.Base.Dict.put koit.Base.Dict.same_bytes koit.Btf.CType.is_space
    koit.Transcribe.ProtoFns.call_pattern koit.Transcribe.ProtoFns.proto_pattern koit.Transcribe.cat
    koit.Transcribe.lit koit.Transcribe.plus koit.Transcribe.spaces koit.Transcribe.words
    named_proto
names_proto = refl

label_steps_shared_example :
    label_steps getters no_cases
      (map label_for ((text "x", silent) ∷ []) ++ (helper (text "y") speaks ∷ []))
    ≡ Given no_cases ((no_cases.pending ++ (text "x" ∷ [])) ++ (text "y" ∷ [])) (text "a_proto")
label_steps_shared_example =
    label_steps_shared getters ((text "x", silent) ∷ []) (text "y") speaks (text "a_proto") no_cases
      (silent-FallsThrough, tt) names_proto

abbrev protos : Dict Bytes (Bytes × List Arg)
protos =
    (text "f", (text "int", [])) ∷ ((text "g", (text "long", (text "void *", text "p") ∷ [])) ∷ [])

abbrev numbers : List (Bytes × ℕ)
numbers = (text "g", 2) ∷ ((text "h", 3) ∷ ((text "f", 1) ∷ []))

helper_list_lem_example :
    Ascending (helper_list protos numbers)
    × ((h : Helper) → Has h (helper_list protos numbers) ↔ IsHelper protos numbers h)
helper_list_lem_example = helper_list_lem protos numbers

abbrev table : List Value
table = (text "TC_ACT_UNSPEC", negsuc 0) ∷ ((text "a\"b", pos 12) ∷ [])

read_values-llist_example :
    read_values 2 (llist (map value_text table) 2 ++ text "\n") ≡ some (table, text "\n")
read_values-llist_example = read_values-llist 2 table (text "\n") (omega arith)
