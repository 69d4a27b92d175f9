-- ===== src/Transcribe/Layout/Placing.antt =====
-- tools/transcribe/transcribe.py: the loop of `layout_struct` places the members that its lines say.
use koit.Base.{
  ℕ, zero, ◌+◌, ◌<◌, ◌≡◌, refl, sym, ap, ◌∙◌, arith, max, All-append, Bool, true, false,
  Option-cases, inl, inr, Option, none, some, List, [], ◌∷◌, ◌++◌, append_assoc, append-nil, ok,
  >>=-eq-ok,
}
use koit.Base.Bytes.{Bytes}
use koit.Base.Dict.{same_bytes}
use koit.Base.Text.{text, is_empty}
use koit.Btf.CType.{strip}
use koit.Transcribe.Layout.{
  Member, Frame, round_up, largest, fields_at, close_union, place, add_to, add_member,
  layout_member, layout_line, layout_other, layout_lines, layout_close, layout_by,
}
use koit.Transcribe.Layout.Rules.{
  IsNext, round_up-IsNext, Reads, done, blank, opens, closes, member, inside, Laid, Aligned,
  AlignedUnion, IsAligned, layout_member-IsAligned,
}
use mathlib.Core.Path.{subst}

module _ (frame : Frame) (line : Bytes) (lines : List Bytes) {frame' : Frame} where
  blank-Laid :
      is_empty (strip line) ≡ true → Laid frame lines frame' → Laid frame (line ∷ lines) frame'
  blank-Laid h d = record {
    items = d.items;
    new = d.new;
    reads = blank h d.reads;
    added = d.added;
    placed = d.placed;
    wide = d.wide;
  }

  opens-Laid :
      same_bytes (strip line) (text "union {") ≡ true
      → Laid (record frame { union = some [] }) lines frame'
      → Laid frame (line ∷ lines) frame'
  opens-Laid h d = record {
    items = d.items;
    new = d.new;
    reads = opens h d.reads;
    added = d.added;
    placed = d.placed;
    wide = d.wide;
  }

  closes-Laid :
      (m : Member) (ms : List Member) (o : ℕ)
      → frame.union ≡ some (m ∷ ms)
      → same_bytes (strip line) (text "};") ≡ true
      → IsNext frame.off (largest (λ k. k.align) (m ∷ ms)) o
      → Laid
          (record {
            fields = frame.fields ++ fields_at o (m ∷ ms);
            off = o + largest (λ k. k.size) (m ∷ ms);
            align_max = max frame.align_max (largest (λ k. k.align) (m ∷ ms));
            union = none;
          })
          lines
          frame'
      → Laid frame (line ∷ lines) frame'
  closes-Laid m ms o started h next d = record {
    items = (m ∷ ms) ∷ d.items;
    new = fields_at o (m ∷ ms) ++ d.new;
    reads =
        subst (λ u. Reads u (line ∷ lines) ((m ∷ ms) ∷ d.items)) (sym started) (closes h d.reads);
    added = d.added ∙ append_assoc frame.fields (fields_at o (m ∷ ms)) d.new;
    placed = (o, d.new, next, refl, d.placed);
    wide = d.wide;
  }

  inside-Laid :
      (m : Member) (ms : List Member)
      → frame.union ≡ some ms
      → layout_member (strip line) ≡ ok m
      → Laid (record frame { union = some (ms ++ (m ∷ [])) }) lines frame'
      → Laid frame (line ∷ lines) frame'
  inside-Laid m ms started h d = record {
    items = d.items;
    new = d.new;
    reads = subst (λ u. Reads u (line ∷ lines) d.items) (sym started) (inside h d.reads);
    added = d.added;
    placed = d.placed;
    wide = d.wide;
  }

largest_one : (f : Member → ℕ) (m : Member) → largest f (m ∷ []) ≡ f m
unfolding largest
largest_one f m = omega arith

member-Laid :
    (frame : Frame) (line : Bytes) (lines : List Bytes) {frame' : Frame} (m : Member)
    → frame.union ≡ none
    → layout_member (strip line) ≡ ok m
    → zero < m.align
    → Laid (place frame m) lines frame'
    → Laid frame (line ∷ lines) frame'
unfolding place
member-Laid frame line lines m closed h aligned d =
    let o = round_up frame.off m.align in
    record {
      items = (m ∷ []) ∷ d.items;
      new = fields_at o (m ∷ []) ++ d.new;
      reads =
          subst (λ u. Reads u (line ∷ lines) ((m ∷ []) ∷ d.items)) (sym closed) (member h d.reads);
      added = d.added ∙ append_assoc frame.fields (fields_at o (m ∷ [])) d.new;
      placed =
          rw (largest_one (λ k. k.align) m, largest_one (λ k. k.size) m)
            (o, d.new, round_up-IsNext frame.off m.align aligned, refl, d.placed);
      wide = rw (largest_one (λ k. k.align) m) d.wide;
    }

largest-positive :
    (m : Member) (ms : List Member) → zero < m.align → zero < largest (λ k. k.align) (m ∷ ms)
unfolding largest
largest-positive m ms h = omega arith

-- A line that is a member.
added-Laid :
    (frame : Frame) (line : Bytes) (lines : List Bytes) {frame' : Frame} (m : Member)
    → AlignedUnion frame.union
    → layout_member (strip line) ≡ ok m
    → zero < m.align
    → (AlignedUnion (add_member frame m).union → Laid (add_member frame m) lines frame')
    → Laid frame (line ∷ lines) frame'
unfolding add_member add_to place
added-Laid frame line lines {frame'} m h e aligned rest = elim (Option-cases frame.union) [
  | inl closed ↦
      let same : add_member frame m ≡ place frame m = ap (λ u. add_to u frame m) closed in
      member-Laid frame line lines m closed e aligned
        (subst (λ (f : Frame). AlignedUnion f.union → Laid f lines frame') same rest tt)
  | inr (ms, started) ↦
      let same : add_member frame m ≡ record frame { union = some (ms ++ (m ∷ [])) } =
        ap (λ u. add_to u frame m) started in
      let all : Aligned ms = subst (λ u. AlignedUnion u) started h in
      inside-Laid frame line lines m ms started e (
        subst (λ (f : Frame). AlignedUnion f.union → Laid f lines frame') same rest
          (All-append (λ k. zero < k.align) ms (m ∷ []) all (aligned, tt)))
]

other-Laid :
    (frame : Frame) (line : Bytes) (lines : List Bytes) {frame1 frame' : Frame}
    → AlignedUnion frame.union
    → layout_other frame (strip line) ≡ ok frame1
    → (AlignedUnion frame1.union → Laid frame1 lines frame')
    → Laid frame (line ∷ lines) frame'
unfolding layout_other
other-Laid frame line lines {frame1} {frame'} h e rest =
    let (m, e1, e2) = >>=-eq-ok (layout_member (strip line)) _ e in
    let aligned : zero < m.align =
      subst (λ r. IsAligned r) e1 (layout_member-IsAligned (strip line)) in
    let same : frame1 ≡ add_member frame m = cc e2 in
    added-Laid frame line lines m h e1 aligned
      (subst (λ (f : Frame). AlignedUnion f.union → Laid f lines frame') same rest)

ok-inj : {a b : Frame} → ok a ≡ ok b → a ≡ b
ok-inj h = cc

-- A line that closes a union.
union-Laid :
    (frame : Frame) (line : Bytes) (lines : List Bytes) {frame1 frame' : Frame} (ms : List Member)
    → frame.union ≡ some ms
    → Aligned ms
    → same_bytes (strip line) (text "};") ≡ true
    → close_union frame ms ≡ ok frame1
    → (AlignedUnion frame1.union → Laid frame1 lines frame')
    → Laid frame (line ∷ lines) frame'
unfolding close_union
union-Laid frame line lines [] started all h e rest = cc e
union-Laid frame line lines {frame1} {frame'} (m ∷ ms) started all h e rest =
    closes-Laid frame line lines m ms _ started h
      (round_up-IsNext frame.off _ (largest-positive m ms all.0))
      (subst (λ (f : Frame). AlignedUnion f.union → Laid f lines frame') (sym (ok-inj e)) rest tt)

-- A line `};`.
close-Laid :
    (union : Option (List Member)) (frame : Frame) (line : Bytes) (lines : List Bytes)
    {frame1 frame' : Frame}
    → frame.union ≡ union
    → AlignedUnion frame.union
    → same_bytes (strip line) (text "};") ≡ true
    → layout_close union frame (strip line) ≡ ok frame1
    → (AlignedUnion frame1.union → Laid frame1 lines frame')
    → Laid frame (line ∷ lines) frame'
unfolding layout_close
close-Laid none frame line lines u h c e rest = other-Laid frame line lines h e rest
close-Laid (some ms) frame line lines u h c e rest =
    union-Laid frame line lines ms u (subst (λ v. AlignedUnion v) u h) c e rest

-- Any line.
line-Laid :
    (b o c : Bool) (frame : Frame) (line : Bytes) (lines : List Bytes) {frame1 frame' : Frame}
    → is_empty (strip line) ≡ b
    → same_bytes (strip line) (text "union {") ≡ o
    → same_bytes (strip line) (text "};") ≡ c
    → AlignedUnion frame.union
    → layout_by b o c frame (strip line) ≡ ok frame1
    → (AlignedUnion frame1.union → Laid frame1 lines frame')
    → Laid frame (line ∷ lines) frame'
unfolding layout_by
line-Laid true o c frame line lines {frame1} {frame'} hb ho hc h e rest =
    blank-Laid frame line lines hb
      (subst (λ (f : Frame). AlignedUnion f.union → Laid f lines frame') (sym (ok-inj e)) rest h)
line-Laid false true c frame line lines {frame1} {frame'} hb ho hc h e rest =
    opens-Laid frame line lines ho
      (subst (λ (f : Frame). AlignedUnion f.union → Laid f lines frame') (sym (ok-inj e)) rest tt)
line-Laid false false true frame line lines hb ho hc h e rest =
    close-Laid frame.union frame line lines refl h hc e rest
line-Laid false false false frame line lines hb ho hc h e rest =
    other-Laid frame line lines h e rest

pub lines-Laid :
    (lines : List Bytes) (frame : Frame) {frame' : Frame}
    → AlignedUnion frame.union
    → layout_lines frame lines ≡ ok frame'
    → Laid frame lines frame'
unfolding layout_lines layout_line
lines-Laid [] frame h e =
    subst (λ (f : Frame). Laid frame [] f) (ok-inj e)
      (record {
        items = [];
        new = [];
        reads = done;
        added = sym (append-nil frame.fields);
        placed = (refl, refl);
        wide = refl;
      })
lines-Laid (line ∷ lines) frame h e =
    let (frame1, e1, e2) = >>=-eq-ok (layout_line frame (strip line)) _ e in
    line-Laid _ _ _ frame line lines refl refl refl h e1 (λ h1. lines-Laid lines frame1 h1 e2)
