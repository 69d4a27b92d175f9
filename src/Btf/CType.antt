-- ===== src/Btf/CType.antt =====
-- `Btf.ctype`: the type of a C type as the kernel spells it. White space is that of ASCII.
use koit.Base.{
  ℕ, zero, suc, Bool, true, false, ◌&&◌, ◌||◌, not, Option, none, some, List, [], ◌∷◌, length, leb,
  ◌==◌, if◌then◌else◌, value_error,
}
use koit.Base.Bytes.{Bytes, starts_with}
use koit.Base.Dict.{Dict, get, same_bytes, bytes_eq}
use koit.Base.Text.{text, join}
use koit.Btf.{int_type, fwd, ptr}
use koit.Btf.Monad.{M, ◌>>=◌, return, raise}
use mathlib.Core.List.{reverse}

unfoldable pub is_space : ℕ → Bool
is_space c = c == 32 || (leb 9 c && leb c 13) || (leb 28 c && leb c 31)

unfoldable pub strip_left : Bytes → Bytes
strip_left [] = []
strip_left (c ∷ cs) = if is_space c then strip_left cs else c ∷ cs

-- `s.strip()`
unfoldable pub strip : Bytes → Bytes
strip s = reverse (strip_left (reverse (strip_left s)))

-- `s.split()`: the words, `word` being the letters of the open one, last first.
unfoldable pub split_loop : Bytes → Bytes → List Bytes
split_loop [] [] = []
split_loop (w ∷ word) [] = reverse (w ∷ word) ∷ []
split_loop [] (c ∷ cs) = if is_space c then split_loop [] cs else split_loop (c ∷ []) cs
split_loop (w ∷ word) (c ∷ cs) =
    if is_space c then reverse (w ∷ word) ∷ split_loop [] cs else split_loop (c ∷ (w ∷ word)) cs

unfoldable pub is_qualifier : Bytes → Bool
is_qualifier w =
    same_bytes w (text "const")
    || same_bytes w (text "volatile")
    || same_bytes w (text "__restrict")
    || same_bytes w (text "restrict")

unfoldable pub drop_qualifiers : List Bytes → List Bytes
drop_qualifiers [] = []
drop_qualifiers (w ∷ ws) = if is_qualifier w then drop_qualifiers ws else w ∷ drop_qualifiers ws

-- `while s.endswith("*")`, on the text reversed: the stars, and the text before them. Each round
-- takes a letter at least, so that the length is fuel enough.
unfoldable pub stars_loop : ℕ → ℕ → Bytes → ℕ × Bytes
stars_loop zero stars s = (stars, s)
stars_loop (suc fuel) stars s = elim (reverse s) [
  | [] ↦ (stars, s)
  | c ∷ r ↦ if c == b'*' then stars_loop fuel (suc stars) (strip (reverse r)) else (stars, s)
]

-- `s.split(None, 1)[1]` of a text with no space at its ends that begins with a word and a space.
unfoldable pub after_word : Bytes → Bytes
after_word [] = []
after_word (c ∷ cs) = if is_space c then strip_left cs else after_word cs

abbrev sizes : Dict Bytes ℕ
sizes =
    (text "char", 1)
    ∷ (text "short", 2)
    ∷ (text "int", 4)
    ∷ (text "long", 8)
    ∷ (text "long long", 8)
    ∷ (text "size_t", 8)
    ∷ (text "u8", 1)
    ∷ (text "u16", 2)
    ∷ (text "u32", 4)
    ∷ (text "u64", 8)
    ∷ (text "s8", 1)
    ∷ (text "s16", 2)
    ∷ (text "s32", 4)
    ∷ (text "s64", 8)
    ∷ (text "__u8", 1)
    ∷ (text "__u16", 2)
    ∷ (text "__u32", 4)
    ∷ (text "__u64", 8)
    ∷ (text "__s8", 1)
    ∷ (text "__s16", 2)
    ∷ (text "__s32", 4)
    ∷ (text "__s64", 8)
    ∷ (text "unsigned char", 1)
    ∷ (text "unsigned short", 2)
    ∷ (text "unsigned int", 4)
    ∷ (text "unsigned long", 8)
    ∷ (text "unsigned long long", 8)
    ∷ (text "unsigned", 4)
    ∷ (text "uintptr_t", 8)
    ∷ (text "intptr_t", 8)
    ∷ (text "ssize_t", 8)
    ∷ []

-- The size of a scalar by its name, from the table.
unfoldable pub size_of_scalar : Bytes → Option ℕ
size_of_scalar s = get sizes s

unfoldable pub is_signed : Bytes → Bool
is_signed s = not (
    starts_with (text "u") s
    || starts_with (text "__u") s
    || starts_with (text "unsigned") s
    || same_bytes s (text "size_t"))

-- `s.replace(" ", "_")`
unfoldable pub underscored : Bytes → Bytes
underscored [] = []
underscored (c ∷ cs) = (if c == 32 then b'_' else c) ∷ underscored cs

-- The type without its stars.
unfoldable pub base_type : Bytes → M ℕ
base_type s =
    if same_bytes s (text "void")
    then return 0
    else if starts_with (text "struct ") s || starts_with (text "union ") s
    then fwd (after_word s) (starts_with (text "union ") s)
    else if starts_with (text "enum ") s
    then int_type (text "int") 4 true false
    else if same_bytes s (text "bool") || same_bytes s (text "_Bool")
    then int_type (text "bool") 1 false true
    else elim (size_of_scalar s) [
      | none ↦ raise value_error
      | some size ↦ int_type (underscored s) size (is_signed s) false
    ]

-- `for _ in range(stars): t = self.ptr(t)`
unfoldable pub pointers : ℕ → ℕ → M ℕ
pointers zero t = return t
pointers (suc stars) t = do p ← ptr t; pointers stars p

unfoldable pub ctype : Bytes → M ℕ
ctype s0 =
    let s = strip s0 in
    let (stars, rest) = stars_loop (length s) 0 s in
    do t ← base_type (join (text " ") (drop_qualifiers (split_loop [] rest))); pointers stars t
