-- ===== src/Base/Utf8.antt =====
-- Python's `bytes.decode`: a text is its UTF-8 bytes, so that only their form is looked at.
use koit.Base.{
  ℕ, zero, suc, ◌≡◌, Bool, true, false, ◌&&◌, Option, none, some, [], ◌∷◌, leb, ltb, ◌==◌,
  if◌then◌else◌, Result, ok, err, value_error,
}
use koit.Base.Bytes.{Bytes}

-- What has to follow the first byte of a character: the number of bytes, and the bounds of the next.
unfoldable pub after_first : ℕ → Option (ℕ × ℕ × ℕ)
after_first b =
    if ltb b 0x80
    then some (0, 0x80, 0xbf)
    else if leb 0xc2 b && leb b 0xdf
    then some (1, 0x80, 0xbf)
    else if b == 0xe0
    then some (2, 0xa0, 0xbf)
    else if b == 0xed
    then some (2, 0x80, 0x9f)
    else if leb 0xe1 b && leb b 0xef
    then some (2, 0x80, 0xbf)
    else if b == 0xf0
    then some (3, 0x90, 0xbf)
    else if leb 0xf1 b && leb b 0xf3
    then some (3, 0x80, 0xbf)
    else if b == 0xf4
    then some (3, 0x80, 0x8f)
    else none

-- Behind a part of a character that so many bytes have to follow, the next of them within bounds.
unfoldable pub utf8_from : ℕ → ℕ → ℕ → Bytes → Bool
utf8_from zero low high [] = true
utf8_from (suc left) low high [] = false
utf8_from zero low high (b ∷ bs) = elim (after_first b) [
  | none ↦ false
  | some (left, low', high') ↦ utf8_from left low' high' bs
]
utf8_from (suc left) low high (b ∷ bs) = leb low b && (leb b high && utf8_from left 0x80 0xbf bs)

unfoldable pub is_utf8 : Bytes → Bool
is_utf8 bs = utf8_from 0 0x80 0xbf bs

-- `bs.decode()`; `UnicodeDecodeError` is a `ValueError`.
unfoldable pub decode : Bytes → Result Bytes
decode bs = if is_utf8 bs then ok bs else err value_error

abbrev pub IsText : Bytes → Type 0
IsText bs = is_utf8 bs ≡ true
