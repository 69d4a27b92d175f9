-- ===== src/Btf/RoundTrip.antt =====
-- The reader gives back the types that a BTF object holds.
use koit.Base.{
  ℕ, zero, suc, ◌+◌, ◌^◌, ◌<◌, ◌≡◌, refl, sym, ap, ◌∙◌, arith, All, List, [], ◌∷◌, ◌++◌, length,
  slice, take, lt→ltb, ok, append_assoc, append-nil, length-append,
}
use koit.Base.Bytes.{
  Bytes, le_bytes, unpack_from, unpack_at, pack_all_ok, field_bytes, Fit, slice_at,
}
use koit.Base.Utf8.{IsText}
use koit.Btf.Blob.{types_blob, blob, header_fields, magic}
use koit.Btf.Monad.{Btf}
use koit.Btf.Reader.{BtfType, read_type, read_loop, read_btf}
use koit.Btf.Records.{IsRecord, read_type-IsRecord, length-record}
use koit.Btf.Strings.{IsTable}

-- The items are the records of the types, in order.
abbrev pub IsRecords : Bytes → List (Bytes × Bytes) → List BtfType → Type 0
IsRecords strings [] [] = Unit
IsRecords strings (item ∷ items) (t ∷ ts) = IsRecord strings item t × IsRecords strings items ts
IsRecords strings _ _ = ⊥

-- The object `b` stands for the list of types `ts`: the abstract view of a BTF object.
pub record Holds (b : Btf) (ts : List BtfType) : Type 0 where
  pub table : IsTable b.strings
  pub records : IsRecords b.strings b.types ts

pub read_loop-IsRecords :
    (items : List (Bytes × Bytes)) (ts : List BtfType) (strings before after : Bytes) (fuel : ℕ)
    {blob : Bytes} {end pos : ℕ}
    → IsRecords strings items ts
    → All (λ (t : BtfType). IsText t.name) ts
    → blob ≡ before ++ (types_blob items ++ after)
    → pos ≡ length before
    → end ≡ pos + length (types_blob items)
    → length (types_blob items) < fuel
    → read_loop fuel blob strings end pos ≡ ok ts
unfolding read_loop types_blob
read_loop-IsRecords items ts strings before after zero h named b p e enough = elim enough [ ]
read_loop-IsRecords [] [] strings before after (suc fuel) h named b p e enough = ground arith
read_loop-IsRecords [] (t ∷ ts) strings before after (suc fuel) h named b p e enough = absurd h
read_loop-IsRecords (item ∷ items) [] strings before after (suc fuel) h named b p e enough =
    absurd h
read_loop-IsRecords (item ∷ items) (t ∷ ts) strings before after (suc fuel) {blob} {end} {pos}
      (r, rs) (name, names) b p e enough =
    let rest : read_loop fuel blob strings end (pos + 12 + length t.extra) ≡ ok ts =
      read_loop-IsRecords items ts strings (before ++ record_bytes) after fuel rs names
        (regroup ∙ sym (append_assoc before record_bytes (types_blob items ++ after)))
        (omega (arith, p, length-append {0} before record_bytes, length-record r))
        (omega (arith, e, sizes, length-record r))
        (omega (arith, enough, sizes, length-record r)) in
    rw (lt→ltb pos end (omega (arith, sizes, length-record r)), read, rest) refl
  where
    record_bytes : Bytes
    record_bytes = item.0 ++ item.1

    sizes :
        length (record_bytes ++ types_blob items) ≡ length record_bytes + length (types_blob items)
    sizes = length-append record_bytes (types_blob items)

    regroup : blob ≡ before ++ (record_bytes ++ (types_blob items ++ after))
    regroup = b ∙ ap (λ xs. before ++ xs) (append_assoc record_bytes (types_blob items) after)

    read : read_type blob strings pos ≡ ok (t, pos + 12 + length t.extra)
    read =
        rw (regroup, p)
          (read_type-IsRecord strings before (types_blob items ++ after) item t r name)

-- The header's fields are read back, and the table's bytes behind the types.
module _ (types strings : Bytes) (fits : length types < 2 ^ 32)
    (table_fits : length strings < 2 ^ 32) where
  abbrev fields : List (ℕ × ℕ)
  fields = header_fields (length types) (length types) (length strings)

  abbrev file : Bytes
  file = field_bytes fields ++ (types ++ strings)

  fields-Fit : Fit fields
  fields-Fit = omega arith

  length-fields : 24 ≡ length (field_bytes fields)
  unfolding le_bytes
  length-fields = refl

  header-file :
      (unpack_from 2 file 0 ≡ ok magic)
      × (unpack_from 1 file 2 ≡ ok 1)
      × (unpack_from 1 file 3 ≡ ok 0)
      × (unpack_from 4 file 4 ≡ ok 24)
      × (unpack_from 4 file 8 ≡ ok 0)
      × (unpack_from 4 file 12 ≡ ok (length types))
      × (unpack_from 4 file 16 ≡ ok (length types))
      × (unpack_from 4 file 20 ≡ ok (length strings))
  unfolding le_bytes
  header-file = (
    unpack_at 2 magic [] _ refl refl (omega arith),
    unpack_at 1 1 (le_bytes 2 magic) _ refl refl (omega arith),
    unpack_at 1 0 (field_bytes (take 2 fields)) _ refl refl (omega arith),
    unpack_at 4 24 (field_bytes (take 3 fields)) _ refl refl (omega arith),
    unpack_at 4 0 (field_bytes (take 4 fields)) _ refl refl (omega arith),
    unpack_at 4 (length types) (field_bytes (take 5 fields)) _ refl refl (omega arith),
    unpack_at 4 (length types) (field_bytes (take 6 fields)) _ refl refl (omega arith),
    unpack_at 4 (length strings) (field_bytes (take 7 fields)) (types ++ strings) refl refl
        (omega arith),
  )

  strings-file : slice file (24 + length types) (24 + length types + length strings) ≡ strings
  unfolding le_bytes
  strings-file =
      ap (λ (f : Bytes). slice f (24 + length types) (24 + length types + length strings)) regroup
      ∙ slice_at (field_bytes fields ++ types) strings [] _ _
          (omega (arith, length-append {0} (field_bytes fields) types)) refl
    where
      regroup : file ≡ (field_bytes fields ++ types) ++ (strings ++ [])
      regroup = simp (append_assoc, append-nil)

-- A BTF object that stands for a list of types with names in UTF-8, and whose type section and
-- string table are shorter than 2^32 bytes, is written by `blob` without changing it, and
-- `read_btf` of the bytes gives exactly those types, in order.
pub read_btf-blob :
    (b : Btf) (ts : List BtfType)
    → Holds b ts
    → All (λ (t : BtfType). IsText t.name) ts
    → length (types_blob b.types) < 2 ^ 32
    → length b.strings < 2 ^ 32
    → (bytes : Bytes) × (blob b ≡ ok (bytes, b)) × (read_btf bytes ≡ ok ts)
unfolding blob read_btf
read_btf-blob b ts h named types_fit strings_fit =
    let types = types_blob b.types in
    let hdr = header-file types b.strings types_fit strings_fit in
    (
      file types b.strings types_fit strings_fit,
      rw
          (pack_all_ok (fields types b.strings types_fit strings_fit)
            (fields-Fit types b.strings types_fit strings_fit))
          refl,
      rw
          (
            hdr.0,
            hdr.1,
            hdr.2,
            hdr.3,
            hdr.4,
            hdr.5,
            hdr.6,
            hdr.7,
            strings-file types b.strings types_fit strings_fit,
          )
          (read_loop-IsRecords b.types ts b.strings
            (field_bytes (fields types b.strings types_fit strings_fit)) b.strings
            (suc (length types)) h.records named refl
            (length-fields types b.strings types_fit strings_fit) refl (omega arith)),
    )
