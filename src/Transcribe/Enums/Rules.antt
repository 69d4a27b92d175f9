-- ===== src/Transcribe/Enums/Rules.antt =====
-- tools/transcribe/transcribe.py: C's rule for the numbers of an enumeration's members.
use koit.Base.{
  ℕ, zero, suc, ◌+◌, ◌*◌, ◌^◌, ◌≡◌, ◌≢◌, refl, sym, ap, ◌∙◌, arith, Bool-cases, inl, inr, ==_iff,
  ==_ne, Option, none, some, List, [], ◌∷◌, ◌++◌, ◌==◌, if◌then◌else◌, ok,
}
use koit.Base.Bytes.{Bytes, NoByte}
use koit.Base.Dict.{same_bytes, bytes_eq}
use koit.Base.Int.{ℤ, pos, negsuc}
use koit.Base.Regex.{Match, match_in, text_of}
use koit.Base.Text.{parse_int}
use koit.Btf.CType.{strip}
use koit.Transcribe.{partition, int_any}
use koit.Transcribe.Enums.{Value, shift_pattern, next_value}

-- How far a number is above zero, and how far below.
abbrev pub above : ℤ → ℕ
above (pos n) = n
above (negsuc n) = 0

abbrev pub below : ℤ → ℕ
below (pos n) = 0
below (negsuc n) = suc n

-- `v` is one more than `u`.
abbrev pub IsBehind : ℤ → ℤ → Type 0
IsBehind u v = above u + 1 + below v ≡ above v + below u

-- The number of a member that is given none: one more than the last, and 0 for the first.
abbrev pub Follows : List Value → ℤ → Type 0
Follows [] v = v ≡ pos 0
Follows ((name, u) ∷ []) v = IsBehind u v
Follows (first ∷ (second ∷ values)) v = Follows (second ∷ values) v

-- The number of the latest member with a name.
abbrev pub latest : List Value → Bytes → Option ℤ
latest [] name = none
latest ((n, v) ∷ values) name = elim (latest values name) [
  | some w ↦ some w
  | none ↦ if same_bytes n name then some v else none
]

-- The number that a text gives: an earlier member's, a shift's, or its own.
pub data Gives (earlier : List Value) (val : Bytes) : ℤ → Type 0 where
  known : {v : ℤ} → latest earlier val ≡ some v → Gives earlier val v
  shift :
      {v : ℤ} {m : Match} (base by : ℕ)
      → latest earlier val ≡ none
      → match_in shift_pattern val ≡ some m
      → parse_int 10 (text_of m 1) ≡ ok base
      → parse_int 10 (text_of m 2) ≡ ok by
      → v ≡ pos (base * 2 ^ by)
      → Gives earlier val v
  literal :
      {v : ℤ}
      → latest earlier val ≡ none
      → match_in shift_pattern val ≡ none
      → int_any val ≡ ok v
      → Gives earlier val v

-- The members behind earlier ones: the items say all of them.
pub data Members : List Value → List Bytes → List Value → Type 0 where
  done : {values : List Value} → Members values [] values
  blank :
      {earlier values : List Value} {item : Bytes} {items : List Bytes}
      → strip item ≡ []
      → Members earlier items values
      → Members earlier (item ∷ items) values
  alone :
      {earlier values : List Value} {item : Bytes} {items : List Bytes} (v : ℤ)
      → strip item ≢ []
      → NoByte b'=' (strip item)
      → Follows earlier v
      → Members (earlier ++ ((strip item, v) ∷ [])) items values
      → Members earlier (item ∷ items) values
  given :
      {earlier values : List Value} {item : Bytes} {items : List Bytes} (name val : Bytes) (v : ℤ)
      → strip item ≡ name ++ (b'=' ∷ val)
      → NoByte b'=' name
      → Gives earlier (strip (strip val)) v
      → Members (earlier ++ ((strip name, v) ∷ [])) items values
      → Members earlier (item ∷ items) values

next_value-IsBehind : (u : ℤ) → IsBehind u (next_value u)
unfolding next_value
next_value-IsBehind (pos n) = omega arith
next_value-IsBehind (negsuc zero) = omega arith
next_value-IsBehind (negsuc (suc n)) = omega arith

pub next_value-Follows :
    (earlier : List Value) (name : Bytes) (u : ℤ)
    → Follows (earlier ++ ((name, u) ∷ [])) (next_value u)
next_value-Follows [] name u = next_value-IsBehind u
next_value-Follows (first ∷ []) name u = next_value-IsBehind u
next_value-Follows (first ∷ (second ∷ earlier)) name u =
    next_value-Follows (second ∷ earlier) name u

-- The part in front of the letter, which it does not have, and what is behind the letter.
abbrev pub Parts : ℕ → Bytes → Bytes × Option Bytes → Type 0
Parts c s (a, none) = (s ≡ a) × NoByte c s
Parts c s (a, some b) = (s ≡ a ++ (c ∷ b)) × NoByte c a

cons-Parts :
    (c x : ℕ) (xs : Bytes) (parts : Bytes × Option Bytes)
    → x ≢ c
    → Parts c xs parts
    → Parts c (x ∷ xs) (x ∷ parts.0, parts.1)
cons-Parts c x xs (a, none) ne (e, all) = (ap (◌∷◌ x) e, (ne, all))
cons-Parts c x xs (a, some b) ne (e, all) = (ap (◌∷◌ x) e, (ne, all))

pub partition-Parts : (c : ℕ) (s : Bytes) → Parts c s (partition c s)
unfolding partition
partition-Parts c [] = (refl, tt)
partition-Parts c (x ∷ xs) = elim (Bool-cases (x == c)) [
  | inl e ↦ rw e (ap (λ y. y ∷ xs) ((==_iff x c).0 e), tt)
  | inr e ↦ rw e (
      cons-Parts c x xs (partition c xs) (λ same. cc (e, (==_iff x c).1 same))
        (partition-Parts c xs))
]

IsBehind-unique : (u a b : ℤ) → IsBehind u a → IsBehind u b → a ≡ b
IsBehind-unique u (pos a) (pos b) h k = ap pos (omega (arith, h, k))
IsBehind-unique u (pos a) (negsuc b) h k = absurd (omega (arith, h, k))
IsBehind-unique u (negsuc a) (pos b) h k = absurd (omega (arith, h, k))
IsBehind-unique u (negsuc a) (negsuc b) h k = ap negsuc (omega (arith, h, k))

pub Follows-unique :
    (earlier : List Value) (a b : ℤ) → Follows earlier a → Follows earlier b → a ≡ b
Follows-unique [] a b h k = h ∙ sym k
Follows-unique ((name, u) ∷ []) a b h k = IsBehind-unique u a b h k
Follows-unique (first ∷ (second ∷ values)) a b h k = Follows-unique (second ∷ values) a b h k

pub partition-free : (c : ℕ) (s : Bytes) → NoByte c s → partition c s ≡ (s, none)
unfolding partition
partition-free c [] free = refl
partition-free c (x ∷ xs) (ne, free) = rw (==_ne x c ne, partition-free c xs free) refl

pub partition-append : (c : ℕ) (a b : Bytes) → NoByte c a → partition c (a ++ (c ∷ b)) ≡ (a, some b)
unfolding partition
partition-append c [] b free = rw ((==_iff c c).1 refl) refl
partition-append c (x ∷ xs) b (ne, free) = rw (==_ne x c ne, partition-append c xs b free) refl

pub append-full : (c : ℕ) (a b : Bytes) → a ++ (c ∷ b) ≢ []
append-full c [] b = λ e. cc
append-full c (x ∷ a) b = λ e. cc
