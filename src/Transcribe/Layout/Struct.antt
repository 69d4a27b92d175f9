-- ===== src/Transcribe/Layout/Struct.antt =====
-- tools/transcribe/transcribe.py: `layout_struct` lays a struct out.
use koit.Base.{
  ℕ, ◌+◌, ◌≤◌, ◌≡◌, sym, arith, max, All, All-append, none, List, [], ◌∷◌, ok, >>=-eq-ok,
}
use koit.Base.Bytes.{Bytes}
use koit.Base.Regex.{sub}
use koit.Transcribe.{splitlines}
use koit.Transcribe.Enums.{comment_pattern}
use koit.Transcribe.Layout.{
  Member, Field, Frame, CtxStruct, round_up, largest, fields_at, layout_lines, empty_frame,
  layout_body,
}
use koit.Transcribe.Layout.Placing.{lines-Laid}
use koit.Transcribe.Layout.Rules.{IsNext, round_up-IsNext, Reads, Laid, Placed, widest}
use mathlib.Core.Path.{subst}

-- Everything placed lies below the end.
Placed-below :
    (off : ℕ) (items : List (List Member)) (fields : List Field) (end : ℕ)
    → Placed off items fields end
    → (off ≤ end) × All (λ (f : Field). f.offset + f.size ≤ end) fields
unfolding fields_at largest
Placed-below off [] fields end (e, e') =
    (omega (arith, e'), subst (All (λ (f : Field). f.offset + f.size ≤ end)) (sym e) tt)
Placed-below off (ms ∷ items) fields end (o, rest, next, e, placed) =
    let (le, below) = Placed-below (o + largest (λ m. m.size) ms) items rest end placed in
    (
      omega (arith, next.above, le),
      subst (All (λ (f : Field). f.offset + f.size ≤ end)) (sym e) (
          All-append (λ (f : Field). f.offset + f.size ≤ end) (fields_at o ms) rest
            (at_offset o ms end le) below),
    )
  where
    at_offset :
        (o : ℕ) (ms : List Member) (end : ℕ)
        → o + largest (λ m. m.size) ms ≤ end
        → All (λ (f : Field). f.offset + f.size ≤ end) (fields_at o ms)
    at_offset o [] end h = tt
    at_offset o (m ∷ ms) end h = (omega (arith, h), at_offset o ms end (omega (arith, h)))

-- A struct of the items: they are placed one behind the other from 0 on, and its size is the next multiple
-- of its alignment behind them.
pub record IsLayout (items : List (List Member)) (s : CtxStruct) : Type 0 where
  pub end : ℕ
  pub placed : Placed 0 items s.fields end
  pub below : All (λ (f : Field). f.offset + f.size ≤ s.size) s.fields
  pub sized : IsNext end (widest 1 items) s.size

widest_ge : (a : ℕ) (items : List (List Member)) → a ≤ widest a items
widest_ge a [] = omega arith
widest_ge a (ms ∷ items) = omega (arith, widest_ge (max a (largest (λ m. m.align) ms)) items)

-- A frame that was filled from the empty one, as a struct.
finished-IsLayout :
    (name : Bytes) (lines : List Bytes) (frame : Frame) (d : Laid empty_frame lines frame)
    → IsLayout d.items
        (record { name = name; size = round_up frame.off frame.align_max; fields = frame.fields })
unfolding empty_frame
finished-IsLayout name lines frame d =
    let wide = widest_ge 1 d.items in
    let next = round_up-IsNext frame.off frame.align_max (omega (arith, wide, d.wide)) in
    let (_, below) = Placed-below 0 d.items d.new frame.off d.placed in
    record {
      end = frame.off;
      placed = subst (λ fs. Placed 0 d.items fs frame.off) (sym d.added) d.placed;
      below =
          subst (All (λ (f : Field). f.offset + f.size ≤ round_up frame.off frame.align_max))
            (sym d.added) (weaker d.new below next.above);
      sized = subst (λ a. IsNext frame.off a (round_up frame.off frame.align_max)) d.wide next;
    }
  where
    weaker :
        (fs : List Field) {m n : ℕ}
        → All (λ (f : Field). f.offset + f.size ≤ m) fs
        → m ≤ n
        → All (λ (f : Field). f.offset + f.size ≤ n) fs
    weaker [] h le = tt
    weaker (f ∷ fs) h le = (omega (arith, h.0, le), weaker fs h.1 le)

-- If the body of a struct is laid out, then its lines say a list of members and unions; these are
-- placed from offset 0 on, each at the first multiple of its alignment that is not below the end
-- of the one before, a union's members all at its offset and its alignment and size the largest
-- of theirs; every field ends within the struct; and the struct's size is the first multiple of
-- its alignment not below the end of the last.
pub layout_body-IsLayout :
    (name body : Bytes) {s : CtxStruct}
    → layout_body name body ≡ ok s
    → (items : List (List Member)) × Reads none (splitlines (sub comment_pattern [] body)) items
      × IsLayout items s
unfolding layout_body empty_frame
layout_body-IsLayout name body h =
    let (frame, e, e1) =
      >>=-eq-ok (layout_lines empty_frame (splitlines (sub comment_pattern [] body))) _ h in
    let d = lines-Laid (splitlines (sub comment_pattern [] body)) empty_frame tt e in
    (
      d.items,
      d.reads,
      subst (λ s. IsLayout d.items s) (ok_struct e1) (finished-IsLayout name _ frame d),
    )
  where
    ok_struct : {a b : CtxStruct} → ok a ≡ ok b → a ≡ b
    ok_struct h = cc
