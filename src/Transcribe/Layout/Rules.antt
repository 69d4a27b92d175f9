-- ===== src/Transcribe/Layout/Rules.antt =====
-- tools/transcribe/transcribe.py: the layout of a struct against C's rules, for which a struct is a list of
-- members and of unions of members.
use koit.Base.{
  ℕ, zero, ◌+◌, ◌-◌, ◌*◌, ◌/◌, ◌%◌, ◌≤◌, ◌<◌, ◌≡◌, sym, arith, max, All, true, Bool-cases,
  Option-cases, inl, inr, Option, none, some, List, [], ◌∷◌, ◌++◌, Result, ok, err, Result-cases,
}
use koit.Base.Bytes.{Bytes}
use koit.Base.Dict.{Dict, get, same_bytes, bytes_eq}
use koit.Base.Regex.{match_in, group_of, text_of, Match}
use koit.Base.Text.{text, is_empty, parse_int}
use koit.Btf.CType.{strip}
use koit.Transcribe.Layout.{
  Member, Field, Frame, scalar_sizes, round_up, largest, fields_at, layout_member, scalar_member,
  sized_member, array_member, bit_field, count_of, pointer_pattern, scalar_pattern,
}
use mathlib.Core.Path.{subst}
use native.Mathlib.Nat.{mod-lt, div-add-mod}

-- `r` is the first multiple of `align` that is not below `off`.
pub record IsNext (off align r : ℕ) : Type 0 where
  pub above : off ≤ r
  pub near : r < off + align
  pub count : ℕ
  pub multiple : r ≡ align * count

pub round_up-IsNext : (off align : ℕ) → 0 < align → IsNext off align (round_up off align)
unfolding round_up
round_up-IsNext off align h =
    let x = off + align - 1 in
    let below : x ≡ align * (x / align) + x % align = sym (div-add-mod x align) in
    let small : x % align < align = mod-lt x h in
    record {
      above = omega (arith, below, small);
      near = omega (arith, below, small, h);
      count = x / align;
      multiple = omega arith;
    }

-- The largest size and alignment of the members at one offset.
abbrev pub widest : ℕ → List (List Member) → ℕ
widest a [] = a
widest a (ms ∷ items) = widest (max a (largest (λ m. m.align) ms)) items

-- The items from `off` to `end`: each at the next offset of its alignment, and behind it the next.
abbrev pub Placed : ℕ → List (List Member) → List Field → ℕ → Type 0
Placed off [] fields end = (fields ≡ []) × (end ≡ off)
Placed off (ms ∷ items) fields end =
    (o : ℕ) × (rest : List Field) × IsNext off (largest (λ m. m.align) ms) o
    × (fields ≡ fields_at o ms ++ rest)
    × Placed (o + largest (λ m. m.size) ms) items rest end

-- The lines of a struct, in an open union with the members so far, say the items.
pub data Reads : Option (List Member) → List Bytes → List (List Member) → Type 0 where
  done : {union : Option (List Member)} → Reads union [] []
  blank :
      {union : Option (List Member)} {line : Bytes} {lines : List Bytes}
      {items : List (List Member)}
      → is_empty (strip line) ≡ true
      → Reads union lines items
      → Reads union (line ∷ lines) items
  opens :
      {union : Option (List Member)} {line : Bytes} {lines : List Bytes}
      {items : List (List Member)}
      → same_bytes (strip line) (text "union {") ≡ true
      → Reads (some []) lines items
      → Reads union (line ∷ lines) items
  closes :
      {m : Member} {ms : List Member} {line : Bytes} {lines : List Bytes}
      {items : List (List Member)}
      → same_bytes (strip line) (text "};") ≡ true
      → Reads none lines items
      → Reads (some (m ∷ ms)) (line ∷ lines) ((m ∷ ms) ∷ items)
  member :
      {m : Member} {line : Bytes} {lines : List Bytes} {items : List (List Member)}
      → layout_member (strip line) ≡ ok m
      → Reads none lines items
      → Reads none (line ∷ lines) ((m ∷ []) ∷ items)
  inside :
      {m : Member} {ms : List Member} {line : Bytes} {lines : List Bytes}
      {items : List (List Member)}
      → layout_member (strip line) ≡ ok m
      → Reads (some (ms ++ (m ∷ []))) lines items
      → Reads (some ms) (line ∷ lines) items

-- What the lines add to a frame.
pub record Laid (frame : Frame) (lines : List Bytes) (frame' : Frame) : Type 0 where
  pub items : List (List Member)
  pub new : List Field
  pub reads : Reads frame.union lines items
  pub added : frame'.fields ≡ frame.fields ++ new
  pub placed : Placed frame.off items new frame'.off
  pub wide : frame'.align_max ≡ widest frame.align_max items

abbrev pub Aligned : List Member → Type 0
Aligned ms = All (λ m. zero < m.align) ms

abbrev pub AlignedUnion : Option (List Member) → Type 0
AlignedUnion none = Unit
AlignedUnion (some ms) = Aligned ms

abbrev pub IsAligned : Result Member → Type 0
IsAligned (ok m) = zero < m.align
IsAligned (err e) = Unit

get-All :
    (P : ℕ → Type 0) (d : Dict Bytes ℕ) (k : Bytes) {v : ℕ}
    → All (λ e. P e.1) d
    → get d k ≡ some v
    → P v
unfolding get
get-All P [] k all h = cc
get-All P ((j, w) ∷ d) k {v} all h = elim (Bool-cases (same_bytes j k)) [
  | inl e ↦ let same : w ≡ v = ground (arith, e, h) in subst P same all.0
  | inr e ↦ get-All P d k all.1 (ground (arith, e, h))
]

-- A member is aligned.
sized_member-IsAligned :
    (base : ℕ) (name : Bytes) (count bits : Option Bytes)
    → zero < base
    → IsAligned (sized_member base name count bits)
unfolding sized_member array_member bit_field
sized_member-IsAligned base name count none h = elim (Result-cases (count_of count)) [
  | inl (error, e) ↦ rw e tt
  | inr (n, e) ↦ rw e h
]
sized_member-IsAligned base [] count (some bits) h = elim (Result-cases (parse_int 10 bits)) [
  | inl (error, e) ↦ rw e tt
  | inr (n, e) ↦ rw e (omega arith)
]
sized_member-IsAligned base (c ∷ name) count (some bits) h = tt

scalars_positive : All (λ e. zero < e.1) scalar_sizes
scalars_positive = ground arith

scalar_member-IsAligned : (found : Match) → IsAligned (scalar_member found)
unfolding scalar_member
scalar_member-IsAligned found = elim (Option-cases (get scalar_sizes (text_of found 1))) [
  | inl e ↦ rw (scalar_member, e) tt
  | inr (base, e) ↦
      rw (scalar_member, e)
        (sized_member-IsAligned base (text_of found 2) (group_of found 3) (group_of found 4)
          (get-All (λ n. zero < n) scalar_sizes (text_of found 1) scalars_positive e))
]

pub layout_member-IsAligned : (line : Bytes) → IsAligned (layout_member line)
unfolding layout_member
layout_member-IsAligned line = elim (Option-cases (match_in pointer_pattern line)) [
  | inr (found, e) ↦ rw (layout_member, e) (omega arith)
  | inl e ↦ elim (Option-cases (match_in scalar_pattern line)) [
    | inl e' ↦ rw (layout_member, e, e') tt
    | inr (found, e') ↦ rw (layout_member, e, e') (scalar_member-IsAligned found)
  ]
]
