-- ===== src/Elf/Symbols.antt =====
-- `Elf.build` on a relocation entry that `write` made: it is written again against the new number of
-- the same symbol.
use koit.Base.{
  ℕ, ◌+◌, ◌*◌, ◌^◌, ◌≤◌, ◌<◌, ◌≡◌, refl, ap, arith, List, [], ◌∷◌, ◌++◌, length, get_elem?, ok,
  bit_and, bit_or,
}
use koit.Base.Bits.{◌<<<◌, ◌>>>◌, and_mask, or_above}
use koit.Base.Bytes.{Bytes, pack_all-eq-ok, pack_all_ok, field_bytes, read_field}
use koit.Base.Dict.{nat_eq}
use koit.Elf.{Symbol}
use koit.Elf.Build.{renumber_entry}
use koit.Elf.Layout.{symbol_order, renumbering, select}
use koit.Elf.Layout.Order.{renumbering-select}
use koit.Elf.Programs.{rel_entry}

info_parts :
    (i type : ℕ)
    → type < 2 ^ 32
    → (bit_or (i <<< 32) type >>> 32 ≡ i) × (bit_and (bit_or (i <<< 32) type) 0xffffffff ≡ type)
info_parts i type h =
    let e : bit_or (i <<< 32) type ≡ i * 2 ^ 32 + type = or_above 32 i type h in
    (omega (arith, e), omega (arith, e, and_mask 32 (bit_or (i <<< 32) type)))

info_fits : (j type : ℕ) → j < 2 ^ 32 → type < 2 ^ 32 → bit_or (j <<< 32) type < 256 ^ 8
info_fits j type h k = omega (arith, or_above 32 j type k)

-- Of a table of at most 2^32 symbols, an entry that `rel_entry` made for symbol `i` of the table
-- and a type below 2^32 is renumbered, wherever it stands in its section, to the entry with the
-- same offset and type for a number at which the ordered table has what the old table has at `i`.
pub renumber_entry-rel_entry :
    (symbols : List Symbol) (before entry after : Bytes) (off i type : ℕ)
    → i < length symbols
    → length symbols ≤ 2 ^ 32
    → type < 2 ^ 32
    → rel_entry off i type ≡ ok entry
    → (j : ℕ) × (renumbered : Bytes) × (renumber_entry
          (renumbering (symbol_order symbols))
          (before ++ (entry ++ after))
          (length before)
        ≡ ok renumbered)
      × (rel_entry off j type ≡ ok renumbered)
      × (get_elem? (select symbols (symbol_order symbols)) j ≡ get_elem? symbols i)
unfolding rel_entry renumber_entry
renumber_entry-rel_entry symbols before entry after off i type lt few type_lt h =
    let fields : List (ℕ × ℕ) = (8, off) ∷ (8, bit_or (i <<< 32) type) ∷ [] in
    let (fit, same) = pack_all-eq-ok fields h in
    let (j, known, j_lt, moved) = renumbering-select symbols i lt in
    let whole : before ++ (entry ++ after) ≡ before ++ (field_bytes fields ++ after) =
      ap (λ e. before ++ (e ++ after)) same in
    let new_fields : List (ℕ × ℕ) = (8, off) ∷ (8, bit_or (j <<< 32) type) ∷ [] in
    let packed = pack_all_ok new_fields (fit.0, (info_fits j type (omega arith) type_lt, tt)) in
    let parts = info_parts i type type_lt in
    (
      j,
      field_bytes new_fields,
      rw
          (
            read_field fields 0 8 off before after {pos = length before} refl fit whole
                (omega arith),
            read_field fields 1 8 (bit_or (i <<< 32) type) before after {pos = length before + 8}
                refl fit whole (omega arith),
            parts.0,
            known,
            parts.1,
          )
          packed,
      packed,
      moved,
    )
