-- ===== src/Elf/File.antt =====
-- The file that `build` writes, as a reader of ELF64 finds it: the header leads to the section
-- headers, and each of those to its section's contents.
use koit.Base.{
  ℕ, suc, ◌+◌, ◌%◌, ◌≤◌, ◌≡◌, refl, sym, ap, ◌∙◌, arith, List, [], ◌∷◌, ◌++◌, length, take, drop,
  replicate, append_assoc, append-nil, length-append, max, if◌then◌else◌, ◌==◌, ok, >>=-eq-ok,
}
use koit.Base.Bytes.{
  Bytes, le_bytes, pack_all, pack_all-eq-ok, field_bytes, Fit, length-field_bytes, read_field,
  unpack_from, drop-append_ge,
}
use koit.Base.Dict.{Dict, bytes_eq}
use koit.Base.Text.{text}
use koit.Elf.{Section, index}
use koit.Elf.Build.{section_header, section_headers, file_header, assemble, ident, name_offset}
use koit.Elf.Layout.{pad, lay_out, header_size}
use koit.Elf.Layout.Padding.{pad-IsPadded}
use koit.Elf.Layout.Placement.{stored, Placed, lay_out-Placed}

abbrev header_fields : Dict Bytes ℕ → Section → ℕ → List (ℕ × ℕ)
header_fields names s off =
    (4, name_offset names s.name)
    ∷ (4, s.type)
    ∷ (8, s.flags)
    ∷ (8, 0)
    ∷ (8, if s.type == 0 then 0 else off)
    ∷ (8, length s.content)
    ∷ (4, s.link)
    ∷ (4, s.info)
    ∷ (8, s.align)
    ∷ (8, s.entsize)
    ∷ []

-- The header of a section at `pos`: the fields by which a reader finds name, type, contents, link
-- and information.
pub record HasHeader (names : Dict Bytes ℕ) (file : Bytes) (s : Section) (off pos : ℕ)
    : Type 0 where
  pub name : unpack_from 4 file pos ≡ ok (name_offset names s.name)
  pub type : unpack_from 4 file (pos + 4) ≡ ok s.type
  pub offset : unpack_from 8 file (pos + 24) ≡ ok (if s.type == 0 then 0 else off)
  pub size : unpack_from 8 file (pos + 32) ≡ ok (length s.content)
  pub link : unpack_from 4 file (pos + 40) ≡ ok s.link
  pub info : unpack_from 4 file (pos + 44) ≡ ok s.info

-- From `pos` on, a header for each section, 64 bytes apart.
abbrev pub HasHeaders : Dict Bytes ℕ → Bytes → List Section → List ℕ → ℕ → Type 0
HasHeaders names file [] [] pos = pos ≡ length file
HasHeaders names file (s ∷ sections) (off ∷ offsets) pos =
    HasHeader names file s off pos × HasHeaders names file sections offsets (pos + 64)
HasHeaders names file _ _ pos = ⊥

abbrev ehdr_fields : ℕ → ℕ → ℕ → List (ℕ × ℕ)
ehdr_fields shoff shnum shstrndx =
    (2, 1)
    ∷ (2, 247)
    ∷ (4, 1)
    ∷ (8, 0)
    ∷ (8, 0)
    ∷ (8, shoff)
    ∷ (4, 0)
    ∷ (2, header_size)
    ∷ (2, 0)
    ∷ (2, 0)
    ∷ (2, header_size)
    ∷ (2, shnum)
    ∷ (2, shstrndx)
    ∷ []

section_headers-HasHeaders :
    (names : Dict Bytes ℕ) (sections : List Section) (offsets : List ℕ) (before : Bytes)
    {shdrs file : Bytes} {pos : ℕ}
    → length sections ≡ length offsets
    → section_headers names sections offsets ≡ ok shdrs
    → file ≡ before ++ shdrs
    → pos ≡ length before
    → HasHeaders names file sections offsets pos
unfolding section_headers section_header
section_headers-HasHeaders names [] [] before n h f p =
    omega (
      arith,
      p,
      ap (λ (b : Bytes). length b) (f ∙ ap (λ xs. before ++ xs) (cc) ∙ append-nil before),
    )
section_headers-HasHeaders names [] (off ∷ offsets) before n h f p = absurd (omega arith)
section_headers-HasHeaders names (s ∷ sections) [] before n h f p = absurd (omega arith)
section_headers-HasHeaders names (s ∷ sections) (off ∷ offsets) before {file} {pos} n h f p =
    let (h1, first, k1) = >>=-eq-ok (section_header names s off) _ h in
    let (rest, later, k2) = >>=-eq-ok (section_headers names sections offsets) _ k1 in
    let fields = header_fields names s off in
    let (fit, bytes) = pack_all-eq-ok fields first in
    let whole : file ≡ before ++ (field_bytes fields ++ rest) = cc (f, k2, bytes) in
    (
      record {
        name = read_field fields 0 4 _ before rest refl fit whole (omega arith);
        type = read_field fields 1 4 _ before rest refl fit whole (omega arith);
        offset = read_field fields 4 8 _ before rest refl fit whole (omega arith);
        size = read_field fields 5 8 _ before rest refl fit whole (omega arith);
        link = read_field fields 6 4 _ before rest refl fit whole (omega arith);
        info = read_field fields 7 4 _ before rest refl fit whole (omega arith);
      },
      section_headers-HasHeaders names sections offsets (before ++ field_bytes fields) (omega arith)
          later (whole ∙ sym (append_assoc before (field_bytes fields) rest))
          (omega
            (arith, p, length-append {0} before (field_bytes fields), length-field_bytes fields)),
    )

length-offsets :
    (sections : List Section) (body : Bytes) → length sections ≡ length (lay_out sections body).0
unfolding lay_out
length-offsets [] body = refl
length-offsets (s ∷ sections) body = ap suc (length-offsets sections _)

-- In `file` every section stands behind the one before it, from `low` on, at an offset that is a
-- multiple of its alignment, and the contents that it stores are the bytes at its offset.
abbrev pub InFile : List Section → List ℕ → ℕ → Bytes → Type 0
InFile [] [] low file = low ≤ length file
InFile (s ∷ sections) (off ∷ offsets) low file =
    (low ≤ off)
    × (off % max s.align 1 ≡ 0)
    × (take (length (stored s)) (drop off file) ≡ stored s)
    × InFile sections offsets (off + length (stored s)) file
InFile _ _ low file = ⊥

-- Offsets that count from behind the header are offsets in the file.
Placed-InFile :
    (sections : List Section) (offsets : List ℕ) (low : ℕ) (front rest : Bytes)
    → length front ≤ low
    → Placed (length front) sections offsets low rest
    → InFile sections offsets low (front ++ rest)
Placed-InFile [] [] low front rest h p = omega (arith, p, length-append {0} front rest)
Placed-InFile [] (o ∷ os) low front rest h p = absurd p
Placed-InFile (s ∷ ss) [] low front rest h p = absurd p
Placed-InFile (s ∷ ss) (o ∷ os) low front rest h (above, aligned, here, behind) = (
  above,
  aligned,
  ap (take (length (stored s))) (drop-append_ge front rest o (omega arith)) ∙ here,
  Placed-InFile ss os _ front rest (omega arith) behind,
)

-- What a reader of the file finds.
pub record IsElf (sections : List Section) (names : Dict Bytes ℕ) (file : Bytes) : Type 0 where
  pub offsets : List ℕ
  pub shoff : ℕ
  pub placed : InFile sections offsets header_size file
  pub magic : take 4 file ≡ 0x7f ∷ b'E' ∷ b'L' ∷ b'F' ∷ []
  pub header_offset : unpack_from 8 file 40 ≡ ok shoff
  pub count : unpack_from 2 file 60 ≡ ok (length sections)
  pub names_index :
      (i : ℕ) × (index sections (text ".shstrtab") ≡ ok i) × (unpack_from 2 file 62 ≡ ok i)
  pub aligned : shoff % 8 ≡ 0
  pub headers : HasHeaders names file sections offsets shoff

module _ (sections : List Section) (names : Dict Bytes ℕ) (file shdrs : Bytes) (i : ℕ) where
  abbrev laid : List ℕ × Bytes
  laid = lay_out sections []

  abbrev body : Bytes
  body = pad 8 header_size 8 laid.1

  abbrev fields : List (ℕ × ℕ)
  fields = ehdr_fields (header_size + length body) (length sections) i

  abbrev front : Bytes
  front = ident ++ field_bytes fields

  length-front : length front ≡ 64
  unfolding le_bytes
  length-front = refl

  IsElf-parts :
      section_headers names sections laid.0 ≡ ok shdrs
      → index sections (text ".shstrtab") ≡ ok i
      → Fit fields
      → file ≡ front ++ (body ++ shdrs)
      → IsElf sections names file
  IsElf-parts headers_made found fit whole =
      let p = pad-IsPadded header_size 8 laid.1 (omega arith) in
      let split : body ++ shdrs ≡ laid.1 ++ (replicate p.count 0 ++ shdrs) =
        ap (λ b. b ++ shdrs) p.same ∙ append_assoc laid.1 (replicate p.count 0) shdrs in
      let by_fields : file ≡ ident ++ (field_bytes fields ++ (body ++ shdrs)) =
        whole ∙ append_assoc ident (field_bytes fields) (body ++ shdrs) in
      record {
        offsets = laid.0;
        shoff = header_size + length body;
        placed =
            rw (whole, split)
              (Placed-InFile sections laid.0 header_size front
                (laid.1 ++ (replicate p.count 0 ++ shdrs)) (omega (arith, length-front))
                (rw length-front (lay_out-Placed sections [] (replicate p.count 0 ++ shdrs))));
        magic = ap (λ (f : Bytes). take 4 f) whole;
        header_offset = read_field fields 5 8 _ ident (body ++ shdrs) refl fit by_fields refl;
        count = read_field fields 11 2 _ ident (body ++ shdrs) refl fit by_fields refl;
        names_index =
            (i, found, read_field fields 12 2 _ ident (body ++ shdrs) refl fit by_fields refl);
        aligned = p.aligned;
        headers =
            section_headers-HasHeaders names sections laid.0 (front ++ body)
              (length-offsets sections []) headers_made
              (whole ∙ sym (append_assoc front body shdrs))
              (omega (arith, length-append {0} front body, length-front));
      }

-- If `assemble` returns a file of sections, then the file begins with the ELF magic, its header
-- gives the number of sections, the index of `.shstrtab`, and the offset of the section headers,
-- a multiple of 8; and for each section, in order, there is a header with its name's offset,
-- type, size, link, info and offset (0 for type 0), and its contents stand at the offset, which
-- is a multiple of its alignment, behind the contents of the section before.
pub assemble-IsElf :
    (sections : List Section) (names : Dict Bytes ℕ) (file : Bytes)
    → assemble sections names ≡ ok file
    → IsElf sections names file
unfolding assemble file_header
assemble-IsElf sections names file h =
    let (shdrs, e1, h1) = >>=-eq-ok (section_headers names sections (lay_out sections []).0) _ h in
    let (i, e2, h2) = >>=-eq-ok (index sections (text ".shstrtab")) _ h1 in
    let b = pad 8 header_size 8 (lay_out sections []).1 in
    let (ehdr, e3, h3) =
      >>=-eq-ok (file_header (header_size + length b) (length sections) i) _ h2 in
    let fs = ehdr_fields (header_size + length b) (length sections) i in
    let (packed, e4, h4) = >>=-eq-ok (pack_all fs) _ e3 in
    let (fit, same) = pack_all-eq-ok fs e4 in
    IsElf-parts sections names file shdrs i e1 e2 fit (cc (h3, h4, same))
