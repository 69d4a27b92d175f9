-- ===== src/Base/Text.antt =====
-- Text as its code points, which are its bytes where the tools build it: all of it is ASCII but the
-- names, which are taken as their UTF-8 bytes throughout.
use Prim.Native.String.{String}
use Prim.Native.Char.{code}
use koit.Base.{
  ℕ, zero, suc, ◌+◌, ◌-◌, ◌*◌, ◌/◌, ◌%◌, Bool, true, false, ◌&&◌, ◌||◌, Option, none, some, List,
  [], ◌∷◌, ◌++◌, leb, ltb, ◌==◌, if◌then◌else◌, Result, ok, err, value_error, ◌>>=◌, not,
}
use koit.Base.Bytes.{Bytes}

abbrev pub text : String → Bytes
text String.[] = []
text (String.◌∷◌ c s) = code c ∷ text s

-- `", ".join(parts)` and the like.
unfoldable pub join : Bytes → List Bytes → Bytes
join sep [] = []
join sep (p ∷ []) = p
join sep (p ∷ (q ∷ ps)) = p ++ (sep ++ join sep (q ∷ ps))

-- `str(n)`: the digits of `n`, of which there are at most `n` and one.
unfoldable pub decimal_loop : ℕ → ℕ → Bytes → Bytes
decimal_loop zero n acc = acc
decimal_loop (suc fuel) n acc =
    let digit = b'0' + n % 10 in
    let rest = decimal_loop fuel (n / 10) (digit ∷ acc) in if ltb n 10 then digit ∷ acc else rest

unfoldable pub decimal : ℕ → Bytes
decimal n = decimal_loop (suc n) n []

unfoldable pub hex_digit : ℕ → ℕ
hex_digit d = if ltb d 10 then b'0' + d else b'a' + (d - 10)

-- `bs.hex()`
unfoldable pub hex : Bytes → Bytes
hex [] = []
hex (b ∷ bs) = hex_digit (b / 16) ∷ (hex_digit (b % 16) ∷ hex bs)

unfoldable pub digit_value : ℕ → Option ℕ
digit_value c =
    if leb b'0' c && leb c b'9'
    then some (c - b'0')
    else if leb b'a' c && leb c b'f'
    then some (c - b'a' + 10)
    else if leb b'A' c && leb c b'F'
    then some (c - b'A' + 10)
    else none

unfoldable pub digits_value : ℕ → ℕ → Bytes → Result ℕ
digits_value base acc [] = ok acc
digits_value base acc (c ∷ cs) = elim (digit_value c) [
  | none ↦ err value_error
  | some d ↦ if ltb d base then digits_value base (acc * base + d) cs else err value_error
]

unfoldable pub is_empty : Bytes → Bool
is_empty [] = true
is_empty (_ ∷ _) = false

-- `int(s)` and `int(s, 16)` of a text of digits, for base 16 also behind `0x`. The signs, spaces and
-- underscores that Python takes besides do not occur in a document; they are a `value_error` here.
unfoldable pub parse_int : ℕ → Bytes → Result ℕ
parse_int base [] = err value_error
parse_int base (c ∷ []) = digits_value base 0 (c ∷ [])
parse_int base (c ∷ (x ∷ cs)) =
    if base == 16 && c == b'0' && x == b'x' && not (is_empty cs)
    then digits_value base 0 cs
    else digits_value base 0 (c ∷ (x ∷ cs))

unfoldable pub hex_pair : Option ℕ → Option ℕ → Bytes → Result Bytes
hex_pair (some a) (some b) rest = ok ((a * 16 + b) ∷ rest)
hex_pair _ _ rest = err value_error

unfoldable pub is_hex_space : ℕ → Bool
is_hex_space c = c == 32 || (leb 9 c && leb c 13)

-- `bytes.fromhex(s)`, which skips spaces between the pairs.
unfoldable pub from_hex : Bytes → Result Bytes
from_hex [] = ok []
from_hex (c ∷ []) = if is_hex_space c then ok [] else err value_error
from_hex (c ∷ (d ∷ cs)) = elim (is_hex_space c) [
  | true ↦ from_hex (d ∷ cs)
  | false ↦ (do rest ← from_hex cs; hex_pair (digit_value c) (digit_value d) rest)
]
