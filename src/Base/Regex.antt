-- ===== src/Base/Regex.antt =====
-- Python's `re` for the patterns of the transcriber: a backtracking matcher, on code points, of patterns
-- as data. Its letters are ASCII's.
use koit.Base.{
  ℕ, zero, suc, ◌+◌, ◌-◌, Bool, true, false, not, ◌&&◌, ◌||◌, Option, none, some, List, [], ◌∷◌,
  ◌++◌, length, take, leb, ◌==◌, if◌then◌else◌,
}
use koit.Base.Bytes.{Bytes}
use koit.Base.Dict.{Dict, get, put, nat_eq}

-- `lazy` is `*?`, `backref i` is `\1`, `line_start` is `^` under `re.M`, and `text_end` is `$` without it.
pub data Regex : Type 0 where
  empty : Regex
  one : (class : ℕ → Bool) → Regex
  seq : Regex → Regex → Regex
  either : Regex → Regex → Regex
  star : Regex → Regex
  lazy : Regex → Regex
  group : ℕ → Regex → Regex
  backref : ℕ → Regex
  text_start line_start text_end line_end boundary : Regex

-- A place in the text: the letter before it, the position, and what is behind it.
pub record Place : Type 0 where
  pub before : Option ℕ
  pub pos : ℕ
  pub rest : Bytes

abbrev pub Groups : Type 0
Groups = Dict ℕ Bytes

-- A match: where it starts and ends, and the groups that took part.
pub record Match : Type 0 where
  pub start : ℕ
  pub end : Place
  pub groups : Groups

abbrev pub Found : Type 0
Found = Option (Place × Groups)

abbrev pub or_else {ℓ} : {A : Type ℓ} → Option A → Option A → Option A
or_else (some a) b = some a
or_else none b = b

unfoldable pub is_word : ℕ → Bool
is_word c =
    leb b'a' c && leb c b'z'
    || (leb b'A' c && leb c b'Z' || (leb b'0' c && leb c b'9' || c == b'_'))

unfoldable pub is_digit : ℕ → Bool
is_digit c = leb b'0' c && leb c b'9'

abbrev word_behind : Bytes → Bool
word_behind [] = false
word_behind (c ∷ cs) = is_word c

abbrev word_before : Option ℕ → Bool
word_before none = false
word_before (some c) = is_word c

unfoldable pub at_boundary : Place → Bool
at_boundary p = if word_before p.before then not (word_behind p.rest) else word_behind p.rest

unfoldable pub at_line_start : Option ℕ → Bool
at_line_start none = true
at_line_start (some c) = c == 10

-- `$` is the end, and the place before a last newline.
unfoldable pub at_end : Bytes → Bool
at_end [] = true
at_end (c ∷ []) = c == 10
at_end _ = false

unfoldable pub at_line_end : Bytes → Bool
at_line_end [] = true
at_line_end (c ∷ cs) = c == 10

-- The place behind one more letter.
unfoldable pub step : Place → ℕ → Bytes → Place
step p c rest = record { before = some c; pos = p.pos + 1; rest = rest }

unfoldable pub letter : (ℕ → Bool) → Place → Option Place
letter class p = elim p.rest [ [] ↦ none | c ∷ cs ↦ if class c then some (step p c cs) else none ]

unfoldable pub literal : Bytes → Place → Option Place
literal [] p = some p
literal (c ∷ cs) p = elim (letter (◌==◌ c) p) [ none ↦ none | some q ↦ literal cs q ]

abbrev pub Next : Type 0
Next = Place → Groups → Found

-- As often as the pattern matches more of the text, at most `fuel` times; the most first.
unfoldable pub greedily : (Place → Groups → Next → Found) → ℕ → Place → Groups → Next → Found
greedily m zero p g k = k p g
greedily m (suc fuel) p g k =
    or_else (m p g (λ q h. if q.pos == p.pos then none else greedily m fuel q h k)) (k p g)

-- The fewest first.
unfoldable pub lazily : (Place → Groups → Next → Found) → ℕ → Place → Groups → Next → Found
lazily m zero p g k = k p g
lazily m (suc fuel) p g k =
    or_else (k p g) (m p g (λ q h. if q.pos == p.pos then none else lazily m fuel q h k))

unfoldable pub go_on : Option Place → Groups → Next → Found
go_on none g k = none
go_on (some q) g k = k q g

unfoldable pub go_if : Bool → Place → Groups → Next → Found
go_if b p g k = if b then k p g else none

-- What the pattern matches from `p` on, so that `k` goes on. A repetition takes a letter each time, so
-- the letters left bound it.
unfoldable pub match_with : Regex → Place → Groups → Next → Found
match_with empty p g k = k p g
match_with (one class) p g k = go_on (letter class p) g k
match_with (seq r s) p g k = match_with r p g (λ q h. match_with s q h k)
match_with (either r s) p g k = or_else (match_with r p g k) (match_with s p g k)
match_with (star r) p g k = greedily (match_with r) (length p.rest) p g k
match_with (lazy r) p g k = lazily (match_with r) (length p.rest) p g k
match_with (group i r) p g k = match_with r p g (λ q h. k q (put h i (take (q.pos - p.pos) p.rest)))
match_with (backref i) p g k = elim (get g i) [ none ↦ none | some s ↦ go_on (literal s p) g k ]
match_with text_start p g k = go_if (p.pos == 0) p g k
match_with line_start p g k = go_if (at_line_start p.before) p g k
match_with text_end p g k = go_if (at_end p.rest) p g k
match_with line_end p g k = go_if (at_line_end p.rest) p g k
match_with boundary p g k = go_if (at_boundary p) p g k

unfoldable pub match_at : Regex → Place → Option Match
match_at r p = elim (match_with r p [] (λ q g. some (q, g))) [
  | none ↦ none
  | some found ↦ some (record { start = p.pos; end = found.0; groups = found.1 })
]

abbrev pub start_of : Bytes → Place
start_of s = record { before = none; pos = 0; rest = s }

-- The first match at `p` or behind it.
unfoldable pub search_from : Regex → ℕ → Place → Option Match
search_from r zero p = match_at r p
search_from r (suc fuel) p =
    or_else (match_at r p) (elim p.rest [ [] ↦ none | c ∷ cs ↦ search_from r fuel (step p c cs) ])

-- `re.search`
unfoldable pub search_in : Regex → Bytes → Option Match
search_in r s = search_from r (length s) (start_of s)

-- `re.match`
unfoldable pub match_in : Regex → Bytes → Option Match
match_in r s = match_at r (start_of s)

-- The matches one behind the other; none of the patterns matches without a letter.
unfoldable pub matches_from : Regex → ℕ → Place → List Match
matches_from r zero p = []
matches_from r (suc fuel) p = elim (search_from r (length p.rest) p) [
  | none ↦ []
  | some m ↦ m ∷ matches_from r fuel m.end
]

-- `re.finditer`
unfoldable pub finditer : Regex → Bytes → List Match
finditer r s = matches_from r (length s) (start_of s)

-- `m.group(i)`: `None` for a group that took no part.
unfoldable pub group_of : Match → ℕ → Option Bytes
group_of m i = get m.groups i

-- `m.group(i)` of a group that every match has.
unfoldable pub text_of : Match → ℕ → Bytes
text_of m i = elim (group_of m i) [ none ↦ [] | some s ↦ s ]

-- The text between the matches, from `p` on, with `by` in the place of each.
unfoldable pub sub_from : Regex → Bytes → ℕ → Place → Bytes
sub_from r by zero p = p.rest
sub_from r by (suc fuel) p = elim (search_from r (length p.rest) p) [
  | none ↦ p.rest
  | some m ↦ take (m.start - p.pos) p.rest ++ (by ++ sub_from r by fuel m.end)
]

-- `re.sub(r, by, s)`
unfoldable pub sub : Regex → Bytes → Bytes → Bytes
sub r by s = sub_from r by (length s) (start_of s)
