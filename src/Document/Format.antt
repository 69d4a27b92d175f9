-- ===== src/Document/Format.antt =====
-- `Types.format`: a value of a type as `koitc run` prints it.
use koit.Base.{
  ℕ, zero, suc, ◌+◌, ◌*◌, ◌-◌, ◌^◌, Bool, false, ◌&&◌, not, List, [], ◌∷◌, ◌++◌, length, take,
  slice, ltb, leb, ◌==◌, if◌then◌else◌, min, Result, ok, err, ◌>>=◌, index_error, type_error,
  Option, none, some,
}
use koit.Base.Bytes.{Bytes, of_le}
use koit.Base.Int.{ℤ, pos, negsuc, str}
use koit.Base.Text.{text, join, decimal, hex}
use koit.Document.Layout.{
  Ty, Fields, Types, resolve, size_of, int, be, bool, array, slot, struct, no_fields, field,
}

-- `int.from_bytes(bs, "little", signed=signed)`
unfoldable pub from_bytes : Bytes → Bool → ℤ
from_bytes bs signed =
    let n = of_le bs in
    let m = 2 ^ (8 * length bs) in if signed && leb m (2 * n) then negsuc (m - n - 1) else pos n

unfoldable pub is_u8 : Ty → Bool
is_u8 (int signed bits) = not signed && bits == 8
is_u8 _ = false

unfoldable pub format_bool : Bytes → Result Bytes
format_bool [] = err index_error
format_bool (b ∷ bs) = if b == 0 then ok (text "false") else ok (text "true")

module _ (types : Types) where
  -- The field list of a struct; `rec` formats at the next depth.
  unfoldable pub format_fields : (Ty → Bytes → Result Bytes) → Fields → Bytes → Result (List Bytes)
  format_fields rec no_fields bs = ok []
  format_fields rec (field name offset t fs) bs = do
    n ← size_of types t
    shown ← rec t (slice bs offset (offset + n))
    parts ← format_fields rec fs bs
    ok ((name ++ (text ": " ++ shown)) ∷ parts)

  -- The elements of an array from index `i`, `count` of them.
  unfoldable pub format_elems :
      (Ty → Bytes → Result Bytes) → Ty → ℕ → Bytes → ℕ → ℕ → Result (List Bytes)
  format_elems rec elem esz bs i zero = ok []
  format_elems rec elem esz bs i (suc count) = do
    shown ← rec elem (slice bs (i * esz) ((i + 1) * esz))
    parts ← format_elems rec elem esz bs (i + 1) count
    ok (shown ∷ parts)

  unfoldable pub format_bytes : Bytes → Bytes
  format_bytes bs =
      text "0x"
      ++ (hex (take 32 bs)
          ++ (if ltb 32 (length bs)
              then text "... (" ++ (decimal (length bs) ++ text " bytes)")
              else []))

  unfoldable pub format_array : (Ty → Bytes → Result Bytes) → Ty → ℕ → Bytes → Result Bytes
  format_array rec elem len bs = do
    e ← resolve types elem
    if is_u8 e then ok (format_bytes bs) else (do
      esz ← size_of types e
      parts ← format_elems rec e esz bs 0 (min len 16)
      ok (
          text "["
          ++ (join (text ", ") parts ++ ((if ltb 16 len then text ", ..." else []) ++ text "]"))))

  unfoldable pub format_resolved : (Ty → Bytes → Result Bytes) → Ty → Bytes → Result Bytes
  format_resolved rec (struct fs size align) bs = do
    parts ← format_fields rec fs bs
    ok (text "{ " ++ (join (text ", ") parts ++ text " }"))
  format_resolved rec (array elem len size align) bs = format_array rec elem len bs
  format_resolved rec (slot name kernel size align) bs = ok name
  format_resolved rec (be bits) bs = ok (text "0x" ++ hex bs)
  format_resolved rec bool bs = format_bool bs
  format_resolved rec (int signed bits) bs = ok (str (from_bytes bs signed))
  format_resolved rec _ bs = ok (text "?")

  -- `self.format(t, bs, depth)`
  unfoldable pub format : ℕ → Ty → Bytes → Result Bytes
  format zero t bs = ok (text "...")
  format (suc depth) t bs = do u ← resolve types t; format_resolved (format depth) u bs

  -- `self.format(t, None)`: what takes no byte of the value is shown, all else is a `TypeError`, which
  -- comes behind what is computed before.
  unfoldable pub format_none : Ty → Result Bytes
  format_none (struct no_fields size align) = ok (text "{ " ++ text " }")
  format_none (struct (field name offset t fs) size align) = do n ← size_of types t; err type_error
  format_none (array elem len size align) = do
    e ← resolve types elem
    if is_u8 e then err type_error else (do
      esz ← size_of types e
      if len == 0 then ok (text "[" ++ text "]") else err type_error)
  format_none (slot name kernel size align) = ok name
  format_none (be bits) = err type_error
  format_none bool = err type_error
  format_none (int signed bits) = err type_error
  format_none _ = ok (text "?")

  -- `self.format(t, v)` of a value that a map may not have.
  unfoldable pub format_found : Ty → Option Bytes → Result Bytes
  format_found t (some v) = format 32 t v
  format_found t none = do u ← resolve types t; format_none u
