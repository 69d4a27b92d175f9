-- ===== src/Report.antt =====
-- tools/koitobj.py: the verdict names, the report of a map's contents, and the BTF of a map.
pub mod Laws
mod Tests
use koit.Base.{
  ℕ, zero, suc, ◌+◌, ◌-◌, ◌*◌, ◌^◌, ◌≡◌, refl, Bool, true, false, not, ◌||◌, Option, none, some,
  List, [], ◌∷◌, ◌++◌, length, leb, ◌==◌, if◌then◌else◌, bit_and, map, Result, ok, err, ◌>>=◌,
  of_option, value_error, type_error, attribute_error,
}
use koit.Base.Bits.{◌<<<◌}
use koit.Base.Bytes.{Bytes, starts_with}
use koit.Base.Int.{ℤ, pos, negsuc, same_int, str}
use koit.Base.Sort.{sort, lex_leq}
use koit.Base.Text.{text, decimal, hex, parse_int}
use koit.Btf.Blob.{blob}
use koit.Btf.Monad.{new}
use koit.Btf.OfType.{of_type}
use koit.Document.{Program, MapDecl, MapKind, ringbuf, hash}
use koit.Document.Format.{format, format_found}
use koit.Document.Layout.{Ty, Types, name_of}

-- `v & ((1 << bits) - 1)`, less `1 << bits` from the sign bit on.
unfoldable pub signed_value : ℕ → ℕ → Result ℤ
signed_value zero retval = err value_error
signed_value (suc b) retval =
    let bits = suc b in
    let v = bit_and retval ((1 <<< bits) - 1) in
    if leb (1 <<< b) v then ok (negsuc ((1 <<< bits) - v - 1)) else ok (pos v)

-- The number of `bits` of a result type `i32`; none of another one.
unfoldable pub verdict_value : Bytes → ℕ → Result ℤ
verdict_value [] retval = ok (pos retval)
verdict_value (c ∷ cs) retval =
    if c == b'i' then (do bits ← parse_int 10 cs; signed_value bits retval) else ok (pos retval)

unfoldable pub verdict_lookup : List (Bytes × ℤ) → ℤ → Bytes
verdict_lookup [] v = str v
verdict_lookup ((name, value) ∷ verdicts) v =
    if same_int value v then name else verdict_lookup verdicts v

unfoldable pub verdict_name : Program → ℕ → Result Bytes
verdict_name p retval = do v ← verdict_value p.result retval; ok (verdict_lookup p.verdicts v)

-- What is read of a map: a ring buffer's records, a hash's entries, whose values may be `None`, or an array kind's cells.
pub data Contents : Type 0 where
  records : List Bytes → Contents
  pairs : List (Bytes × Option Bytes) → Contents
  cells : List (ℕ × Bytes) → Contents

unfoldable pub any_set : Bytes → Bool
any_set [] = false
any_set (b ∷ bs) = not (b == 0) || any_set bs

unfoldable pub live_cells : List (ℕ × Bytes) → List (ℕ × Bytes)
live_cells [] = []
live_cells ((i, b) ∷ cs) = if any_set b then (i, b) ∷ live_cells cs else live_cells cs

module _ (types : Types) where
  unfoldable pub pair_lines : Ty → Ty → List (Bytes × Option Bytes) → Result (List Bytes)
  pair_lines key value [] = ok []
  pair_lines key value ((k, v) ∷ ps) = do
    shown_key ← format types 32 key k
    shown_value ← format_found types value v
    rest ← pair_lines key value ps
    ok ((text "  " ++ (shown_key ++ (text " => " ++ shown_value))) ∷ rest)

  unfoldable pub cell_lines : Ty → List (ℕ × Bytes) → Result (List Bytes)
  cell_lines value [] = ok []
  cell_lines value ((i, b) ∷ cs) = do
    shown ← format types 32 value b
    rest ← cell_lines value cs
    ok ((text "  [" ++ (decimal i ++ (text "] = " ++ shown))) ∷ rest)

  unfoldable pub record_lines : List Bytes → List Bytes
  record_lines [] = []
  record_lines (r ∷ rs) = (text "  0x" ++ hex r) ∷ record_lines rs

  unfoldable pub key_leq : Bytes × Option Bytes → Bytes × Option Bytes → Bool
  key_leq a b = lex_leq a.0 b.0

  -- The report of each kind of map; contents of another shape are not what the caller reads of it.
  unfoldable pub report_records : MapDecl → Contents → Result (List Bytes)
  report_records m (records rs) = ok (
      (text "map " ++ (m.name ++ (text ": " ++ (decimal (length rs) ++ text " record(s)"))))
      ∷ record_lines rs)
  report_records m _ = err type_error

  unfoldable pub report_pairs : MapDecl → Contents → Result (List Bytes)
  report_pairs m (pairs []) = ok ((text "map " ++ (m.name ++ text ": empty")) ∷ [])
  report_pairs m (pairs (p ∷ ps)) = do
    key ← of_option type_error m.key
    value ← of_option type_error m.value
    lines ← pair_lines key value (sort key_leq (p ∷ ps))
    ok ((text "map " ++ (m.name ++ text ":")) ∷ lines)
  report_pairs m _ = err type_error

  unfoldable pub report_cells : MapDecl → Contents → Result (List Bytes)
  report_cells m (cells cs) = elim (live_cells cs) [
    | [] ↦ ok ((text "map " ++ (m.name ++ text ": all zero")) ∷ [])
    | c ∷ live ↦ (do
      value ← of_option type_error m.value
      lines ← cell_lines value (c ∷ live)
      ok ((text "map " ++ (m.name ++ text ":")) ∷ lines))
  ]
  report_cells m _ = err type_error

  -- `report_map`
  unfoldable pub report_map : MapDecl → Contents → Result (List Bytes)
  report_map m contents = by_kind m.kind
    where
      by_kind : MapKind → Result (List Bytes)
      by_kind ringbuf = report_records m contents
      by_kind hash = report_pairs m contents
      by_kind _ = report_cells m contents

-- `map_btf`: the blob with a map's key and value types, and their ids.
unfoldable pub map_btf : Types → MapDecl → Result (Bytes × ℕ × ℕ)
map_btf types m = do
  key_type ← of_option attribute_error m.key
  value_type ← of_option attribute_error m.value
  (key, s1) ← of_type (length types) types key_type (name_of key_type) new
  (value, s2) ← of_type (length types) types value_type (name_of value_type) s1
  (b, s3) ← blob s2
  ok (b, key, value)
