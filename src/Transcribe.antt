-- ===== src/Transcribe.antt =====
-- tools/transcribe/transcribe.py: the kernel side of the interface, read from the texts of a Linux tree.
-- This module has what the parsers share: texts, patterns, and the tree.
pub mod Enums
pub mod Values
pub mod Side
pub mod Lean
pub mod Protos
pub mod ProtoFns
pub mod ProgTypes
pub mod Kfuncs
pub mod Main
mod Tests
pub mod Layout
use koit.Base.{
  ℕ, zero, suc, ◌+◌, ◌-◌, Bool, true, false, not, ◌&&◌, ◌||◌, Option, none, some, List, [], ◌∷◌,
  ◌++◌, length, take, drop, leb, ◌==◌, if◌then◌else◌, Result, ok, err, ◌>>=◌, of_option,
  value_error, index_error, called_process_error, map,
}
use koit.Base.Bytes.{Bytes}
use koit.Base.Dict.{same_bytes}
use koit.Base.Int.{ℤ, pos, negsuc}
use koit.Base.Regex.{Regex, empty, one, seq, either, star, lazy, group, is_word, is_digit}
use koit.Base.Text.{text, join, parse_int, is_empty}
use koit.Btf.CType.{is_space, strip, split_loop}
use mathlib.Core.List.{reverse}

-- The text up to the first `c`, and what is behind it, if there is one.
unfoldable pub partition : ℕ → Bytes → Bytes × Option Bytes
partition c [] = ([], none)
partition c (x ∷ xs) =
    let (before, behind) = partition c xs in if x == c then ([], some xs) else (x ∷ before, behind)

-- `s.split(c)` for one letter.
unfoldable pub split_on : ℕ → Bytes → List Bytes
split_on c [] = [] ∷ []
split_on c (x ∷ xs) = elim (split_on c xs) [
  | [] ↦ []
  | part ∷ parts ↦ if x == c then [] ∷ (part ∷ parts) else (x ∷ part) ∷ parts
]

-- The ends of lines of `splitlines`.
unfoldable pub is_break : ℕ → Bool
is_break c = leb 10 c && leb c 13 || leb 28 c && leb c 30

-- `s.splitlines()` behind the letters of an open line, which are in reverse.
unfoldable pub lines_loop : Bytes → Bytes → List Bytes
lines_loop [] [] = []
lines_loop (l ∷ line) [] = reverse (l ∷ line) ∷ []
lines_loop line (c ∷ []) = if is_break c then reverse line ∷ [] else reverse (c ∷ line) ∷ []
lines_loop line (c ∷ (d ∷ cs)) =
    let pair = lines_loop [] cs in
    let next = lines_loop [] (d ∷ cs) in
    let longer = lines_loop (c ∷ line) (d ∷ cs) in
    if c == 13 && d == 10
    then reverse line ∷ pair
    else (if is_break c then reverse line ∷ next else longer)

unfoldable pub splitlines : Bytes → List Bytes
splitlines s = lines_loop [] s

-- `" ".join(s.split())`
unfoldable pub squeeze : Bytes → Bytes
squeeze s = join (text " ") (split_loop [] s)

-- `int(s)` of digits with a sign, and `int(s, 0)`, which reads a number behind `0x` too and takes no zeros
-- in front of another digit. What else Python takes does not occur in the headers; it is a `value_error`.
unfoldable pub negated : ℕ → ℤ
negated zero = pos zero
negated (suc n) = negsuc n

unfoldable pub unsigned_any : Bytes → Result ℕ
unsigned_any (c ∷ (d ∷ cs)) =
    if c == b'0'
    then (if d == b'x' || d == b'X' then parse_int 16 (c ∷ (b'x' ∷ cs)) else err value_error)
    else parse_int 10 (c ∷ (d ∷ cs))
unsigned_any s = parse_int 10 s

unfoldable pub int_any : Bytes → Result ℤ
int_any [] = err value_error
int_any (c ∷ cs) =
    if c == b'-'
    then (do n ← unsigned_any cs; ok (negated n))
    else (do n ← unsigned_any (c ∷ cs); ok (pos n))

unfoldable pub int_signed : Bytes → Result ℤ
int_signed [] = err value_error
int_signed (c ∷ cs) =
    if c == b'-'
    then (do n ← parse_int 10 cs; ok (negated n))
    else (do n ← parse_int 10 (c ∷ cs); ok (pos n))

-- Patterns in sequence, and of the letters of a text.
unfoldable pub cat : List Regex → Regex
cat [] = empty
cat (r ∷ []) = r
cat (r ∷ rs) = seq r (cat rs)

unfoldable pub lit : Bytes → Regex
lit s = cat (map (λ c. one (◌==◌ c)) s)

unfoldable pub except : Bytes → Regex
except cs = one (λ c. not (has_letter cs c))
  where
    has_letter : Bytes → ℕ → Bool
    has_letter [] c = false
    has_letter (d ∷ ds) c = d == c || has_letter ds c

unfoldable pub opt : Regex → Regex
opt r = either r empty

unfoldable pub plus : Regex → Regex
plus r = seq r (star r)

-- `\w+`, `\d+`, `\s*`, `\s+`, and `.*?` under `re.S`.
unfoldable pub words : Regex
words = plus (one is_word)

unfoldable pub digits : Regex
digits = plus (one is_digit)

unfoldable pub spaces : Regex
spaces = star (one is_space)

unfoldable pub some_spaces : Regex
some_spaces = plus (one is_space)

unfoldable pub anything : Regex
anything = lazy (one (λ c. true))

-- `git -C path args`: what it prints, or nothing where it fails.
pub record Tree : Type 0 where
  pub path : Bytes
  pub tag : Bytes
  pub git : List Bytes → Option Bytes

unfoldable pub run_git : Tree → List Bytes → Result Bytes
run_git tree args = of_option called_process_error (tree.git args)

unfoldable pub commit : Tree → Result Bytes
commit tree = do out ← run_git tree (text "rev-parse" ∷ (tree.tag ∷ [])); ok (strip out)

-- The file at the tag. The cache of the files shown is left out: git shows the same at a tag.
unfoldable pub show : Tree → Bytes → Result Bytes
show tree path = run_git tree (text "show" ∷ ((tree.tag ++ (text ":" ++ path)) ∷ []))

-- `line.split(":", 1)[1]` for each line.
unfoldable pub behind_colons : List Bytes → Result (List Bytes)
behind_colons [] = ok []
behind_colons (line ∷ lines) = do
  path ← of_option index_error (partition b':' line).1
  paths ← behind_colons lines
  ok (path ∷ paths)

-- The files that have a line with the pattern; git fails where there is none.
unfoldable pub grep_files : Tree → Bytes → List Bytes → Result (List Bytes)
grep_files tree pattern globs =
    elim (tree.git
      (text "grep" ∷ (text "-l" ∷ (text "-E" ∷ (pattern ∷ (tree.tag ∷ (text "--" ∷ globs))))))) [
        | none ↦ ok []
        | some out ↦ behind_colons (splitlines out)
      ]
