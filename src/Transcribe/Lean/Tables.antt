-- ===== src/Transcribe/Lean/Tables.antt =====
-- tools/transcribe/transcribe.py: the table of values in the file reads back as the values.
use koit.Base.{
  ℕ, zero, suc, ◌+◌, ◌-◌, ◌*◌, ◌/◌, ◌%◌, ◌≤◌, ◌<◌, ◌≡◌, refl, sym, ap, ◌∙◌, arith, Bool, true,
  false, ◌&&◌, leb, ltb, ◌==◌, ==_iff, Bool-cases, inl, inr, if◌then◌else◌, Option, none, some,
  List, [], ◌∷◌, ◌++◌, append_assoc, length, map,
}
use koit.Base.Bytes.{Bytes}
use koit.Base.Int.{ℤ, pos, negsuc, str}
use koit.Base.Text.{text, decimal, decimal_loop, join}
use koit.Transcribe.Enums.{Value}
use koit.Transcribe.Lean.{lstr, lint, concat, pair, value_text, llist}
use koit.Transcribe.Lean.Strings.{read_string, read_string-lstr}
use native.Mathlib.Nat.{mod-lt, div-add-mod}

-- The text behind `mark`.
unfoldable pub expect : Bytes → Bytes → Option Bytes
expect [] s = some s
expect (p ∷ ps) [] = none
expect (p ∷ ps) (c ∷ cs) = let more = expect ps cs in if c == p then more else none

abbrev pub is_decimal : ℕ → Bool
is_decimal c = leb b'0' c && leb c b'9'

-- The digits at the start of the text, behind those of `n`.
unfoldable pub read_digits : ℕ → Bytes → ℕ × Bytes
read_digits n [] = (n, [])
read_digits n (c ∷ cs) =
    let more = read_digits (n * 10 + (c - b'0')) cs in if is_decimal c then more else (n, c ∷ cs)

-- No digit stands at the start.
abbrev pub EndsNumber : Bytes → Type 0
EndsNumber [] = Unit
EndsNumber (c ∷ cs) = is_decimal c ≡ false

read_digits-end : (n : ℕ) (rest : Bytes) → EndsNumber rest → read_digits n rest ≡ (n, rest)
unfolding read_digits
read_digits-end n [] h = refl
read_digits-end n (c ∷ cs) h = rw h refl

digit-is_decimal : (n : ℕ) → is_decimal (b'0' + n % 10) ≡ true
digit-is_decimal n = let small : n % 10 < 10 = mod-lt n (omega arith) in ground (arith, small)

read_digits-decimal_loop :
    (fuel n : ℕ) (acc rest : Bytes)
    → n < fuel
    → read_digits 0 (decimal_loop fuel n acc ++ rest) ≡ read_digits n (acc ++ rest)
unfolding decimal_loop read_digits
read_digits-decimal_loop zero n acc rest h = absurd (omega (arith, h))
read_digits-decimal_loop (suc fuel) n acc rest h = elim (Bool-cases (ltb n 10)) [
  | inl e ↦
      rw (decimal_loop, e, read_digits, digit-is_decimal n)
        (ap (λ k. read_digits k (acc ++ rest)) (ground (arith, e)))
  | inr e ↦
      rw (decimal_loop, e)
        (read_digits-decimal_loop fuel (n / 10) ((b'0' + n % 10) ∷ acc) rest (ground (arith, e, h))
          ∙ rw (read_digits, digit-is_decimal n)
              (ap (λ k. read_digits k (acc ++ rest)) (omega (arith, div-add-mod n 10))))
]

read_digits-decimal :
    (n : ℕ) (rest : Bytes) → EndsNumber rest → read_digits 0 (decimal n ++ rest) ≡ (n, rest)
unfolding decimal
read_digits-decimal n rest h =
    read_digits-decimal_loop (suc n) n [] rest (omega arith) ∙ read_digits-end n rest h

infixl 5 ◌>>=◌
abbrev ◌>>=◌ : {A B : Type 0} → Option A → (A → Option B) → Option B
none >>= f = none
some a >>= f = f a

unfoldable pub read_nat : Bytes → Option (ℕ × Bytes)
read_nat [] = none
read_nat (c ∷ cs) = if is_decimal c then some (read_digits 0 (c ∷ cs)) else none

abbrev minus : ℕ → ℤ
minus zero = pos 0
minus (suc n) = negsuc n

-- An integer, a negative one in parentheses.
unfoldable pub read_int : Bytes → Option (ℤ × Bytes)
read_int s = elim (expect (text "(-") s) [
  | none ↦ (do n ← read_nat s; some (pos n.0, n.1))
  | some s1 ↦ (do n ← read_nat s1; s2 ← expect (text ")") n.1; some (minus n.0, s2))
]

-- A pair of a name and an integer.
unfoldable pub read_value : Bytes → Option (Value × Bytes)
read_value s = do
  s1 ← expect (text "(") s
  k ← read_string s1
  s2 ← expect (text ", ") k.1
  v ← read_int s2
  s3 ← expect (text ")") v.1
  some ((k.0, v.0), s3)

expect-append : (mark s : Bytes) → expect mark (mark ++ s) ≡ some s
unfolding expect
expect-append [] s = refl
expect-append (c ∷ mark) s = rw (expect, (==_iff c c).1 refl) (expect-append mark s)

-- The first digit of a number.
decimal_loop_cons :
    (fuel n : ℕ) (acc : Bytes)
    → n < fuel
    → (c : ℕ) × (cs : Bytes) × (decimal_loop fuel n acc ≡ c ∷ cs) × (is_decimal c ≡ true)
unfolding decimal_loop
decimal_loop_cons zero n acc h = absurd (omega (arith, h))
decimal_loop_cons (suc fuel) n acc h = elim (Bool-cases (ltb n 10)) [
  | inl e ↦ (b'0' + n % 10, acc, rw (decimal_loop, e) refl, digit-is_decimal n)
  | inr e ↦
      let (c, cs, e1, e2) =
        decimal_loop_cons fuel (n / 10) ((b'0' + n % 10) ∷ acc) (ground (arith, e, h)) in
      (c, cs, rw (decimal_loop, e) e1, e2)
]

read_nat-decimal :
    (n : ℕ) (rest : Bytes) → EndsNumber rest → read_nat (decimal n ++ rest) ≡ some (n, rest)
unfolding decimal read_nat
read_nat-decimal n rest h =
    let (c, cs, e, digit) = decimal_loop_cons (suc n) n [] (omega arith) in
    let whole : read_digits 0 (c ∷ (cs ++ rest)) ≡ (n, rest) =
      ap (λ s. read_digits 0 (s ++ rest)) (sym e) ∙ read_digits-decimal n rest h in
    rw (e, read_nat, digit) (ap some whole)

-- A number does not begin with a parenthesis.
decimal-no_paren : (n : ℕ) (rest : Bytes) → expect (text "(-") (decimal n ++ rest) ≡ none
unfolding decimal expect
decimal-no_paren n rest =
    let (c, cs, e, digit) = decimal_loop_cons (suc n) n [] (omega arith) in
    let other : (c == b'(') ≡ false = ground (arith, digit) in rw (e, expect, other) refl

read_int-lint :
    (v : ℤ) (rest : Bytes) → EndsNumber rest → read_int (lint v ++ rest) ≡ some (v, rest)
unfolding read_int lint str expect
read_int-lint (pos n) rest h =
    rw (read_int, decimal-no_paren n rest, read_nat-decimal n rest h) refl
read_int-lint (negsuc n) rest h =
    rw
      (
        append_assoc (decimal (suc n)) (text ")") rest,
        read_int,
        expect,
        read_nat-decimal (suc n) (text ")" ++ rest) refl,
      )
      refl

value_text-pieces :
    (k : Bytes) (v : ℤ) (rest : Bytes)
    → value_text (k, v) ++ rest
      ≡ text "(" ++ (lstr k ++ (text ", " ++ (lint v ++ (text ")" ++ rest))))
unfolding value_text pair concat
value_text-pieces k v rest = ap (◌∷◌ b'(') (
    append_assoc (lstr k) (text ", " ++ (lint v ++ (text ")"))) rest
    ∙ ap (λ s. lstr k ++ (text ", " ++ s)) (append_assoc (lint v) (text ")") rest))

read_value-value_text :
    (v : Value) (rest : Bytes) → read_value (value_text v ++ rest) ≡ some (v, rest)
unfolding read_value
read_value-value_text (k, v) rest =
    ap read_value (value_text-pieces k v rest)
    ∙ rw
        (
          read_value,
          expect-append (text "(") (lstr k ++ (text ", " ++ (lint v ++ (text ")" ++ rest)))),
          read_string-lstr k (text ", " ++ (lint v ++ (text ")" ++ rest))),
          expect-append (text ", ") (lint v ++ (text ")" ++ rest)),
          read_int-lint v (text ")" ++ rest) refl,
          expect-append (text ")") rest,
        )
        refl

-- The values of a list, at most `fuel` of them, a line each.
unfoldable pub read_items : ℕ → Bytes → Option (List Value × Bytes)
read_items zero s = none
read_items (suc fuel) s = do
  s1 ← expect (text "  ") s
  v ← read_value s1
  elim (expect (text ",\n") v.1) [
    | none ↦ (do s2 ← expect (text "\n]") v.1; some (v.0 ∷ [], s2))
    | some s2 ↦ (do more ← read_items fuel s2; some (v.0 ∷ more.0, more.1))
  ]

unfoldable pub read_values : ℕ → Bytes → Option (List Value × Bytes)
read_values fuel s = elim (expect (text "[]") s) [
  | some s1 ↦ some ([], s1)
  | none ↦ (do s1 ← expect (text "[\n") s; read_items fuel s1)
]

abbrev lines_of : List Value → Bytes
lines_of values = join (text ",\n") (map (λ item. text "  " ++ item) (map value_text values))

read_items-lines :
    (fuel : ℕ) (v : Value) (values : List Value) (rest : Bytes)
    → length (v ∷ values) ≤ fuel
    → read_items fuel (lines_of (v ∷ values) ++ (text "\n]" ++ rest)) ≡ some (v ∷ values, rest)
unfolding read_items join expect
read_items-lines zero v values rest h = absurd (omega (arith, h))
read_items-lines (suc fuel) v [] rest h =
    rw (read_items, expect, read_value-value_text v (text "\n]" ++ rest)) refl
read_items-lines (suc fuel) v (v' ∷ values) rest h =
    ap (λ s. read_items (suc fuel) (text "  " ++ s))
      (append_assoc (value_text v) (text ",\n" ++ lines_of (v' ∷ values)) (text "\n]" ++ rest))
    ∙ rw
        (
          read_items,
          expect,
          read_value-value_text v (text ",\n" ++ (lines_of (v' ∷ values) ++ (text "\n]" ++ rest))),
          read_items-lines fuel v' values rest (omega (arith, h)),
        )
        refl

-- A reader of Lean's lists of pairs of a string literal and an integer, which takes up to a
-- number of pairs that is not below the number of values, reads back from the list that is
-- written of the values, with any text behind it, exactly these values, names with quotes and
-- backslashes and negative numbers included, and that text.
pub read_values-llist :
    (fuel : ℕ) (values : List Value) (rest : Bytes)
    → length values ≤ fuel
    → read_values fuel (llist (map value_text values) 2 ++ rest) ≡ some (values, rest)
unfolding read_values llist expect
read_values-llist fuel [] rest h = refl
read_values-llist fuel (v ∷ values) rest h =
    ap (λ s. read_items fuel s) (append_assoc (lines_of (v ∷ values)) (text "\n]") rest)
    ∙ read_items-lines fuel v values rest h
