-- ===== src/Transcribe/Lean/Strings.antt =====
-- tools/transcribe/transcribe.py: `lstr` writes a string literal that a reader of Lean's literals reads
-- back.
use koit.Base.{
  ℕ, ◌≡◌, refl, sym, ap, Bool, true, false, ◌||◌, Bool-cases, inl, inr, ◌==◌, ==_iff, if◌then◌else◌,
  Option, none, some, [], ◌∷◌, ◌++◌, append_assoc,
}
use koit.Base.Bytes.{Bytes}
use koit.Transcribe.Lean.{replace, lstr}

-- What Lean reads behind the quote that opens a literal: its letters, of which the escapes that `lstr`
-- writes are read, and what stands behind the quote that closes it.
abbrev pub quoted : Option (Bytes × Bytes) → ℕ → Option (Bytes × Bytes)
quoted none c = none
quoted (some (s, rest)) c = some (c ∷ s, rest)

unfoldable pub read_letters : (escaped : Bool) → Bytes → Option (Bytes × Bytes)
read_letters escaped [] = none
read_letters true (c ∷ cs) =
    let more = read_letters false cs in if c == 92 || c == b'"' then quoted more c else none
read_letters false (c ∷ cs) =
    let plain = read_letters false cs in
    let escaped = read_letters true cs in
    if c == b'"' then some ([], cs) else (if c == 92 then escaped else quoted plain c)

unfoldable pub read_string : Bytes → Option (Bytes × Bytes)
read_string [] = none
read_string (c ∷ cs) = if c == b'"' then read_letters false cs else none

abbrev escape : Bytes → Bytes
escape s = replace b'"' (92 ∷ (b'"' ∷ [])) (replace 92 (92 ∷ (92 ∷ [])) s)

read_letters-escape :
    (s rest : Bytes) → read_letters false (escape s ++ (b'"' ∷ rest)) ≡ some (s, rest)
unfolding read_letters replace
read_letters-escape [] rest = refl
read_letters-escape (c ∷ s) rest = elim (Bool-cases (c == 92)) [
  | inl e ↦
      let same : c ≡ 92 = (==_iff c 92).0 e in
      rw (e, read_letters-escape s rest) (ap (λ x. some (x ∷ s, rest)) (sym same))
  | inr e ↦ elim (Bool-cases (c == b'"')) [
    | inl e' ↦
        let same : c ≡ b'"' = (==_iff c b'"').0 e' in
        rw (e, e', read_letters-escape s rest) (ap (λ x. some (x ∷ s, rest)) (sym same))
    | inr e' ↦ rw (e, e', e', e, read_letters-escape s rest) refl
  ]
]

-- A reader of Lean's string literals that knows the escapes of the quote and the backslash reads
-- back from `lstr s`, with any text behind it, exactly `s` and that text.
pub read_string-lstr : (s rest : Bytes) → read_string (lstr s ++ rest) ≡ some (s, rest)
unfolding lstr read_string
read_string-lstr s rest = rw (append_assoc (escape s) (b'"' ∷ []) rest) (read_letters-escape s rest)
