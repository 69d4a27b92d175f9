-- ===== src/Btf/Members.antt =====
-- `Btf.struct`: the member rows, each a name, a type, and an offset in bits, read as written.
use koit.Base.{
  ℕ, ◌+◌, ◌-◌, ◌*◌, ◌^◌, ◌≤◌, ◌<◌, ◌≡◌, refl, inl, ◌∙◌, arith, List, [], ◌∷◌, ◌++◌, length, ok,
  append_assoc, append-nil, length-append,
}
use koit.Base.Bytes.{Bytes, NoNul, le_bytes, length-le_bytes, pack_all_ok}
use koit.Btf.{struct_type, members_extra, kind_struct}
use koit.Btf.Monad.{Btf}
use koit.Btf.Encoders.{Added, IsType, add-Added, IsRecords-weaken}
use koit.Btf.Extra.{three_words}
use koit.Btf.Reader.{BtfType}
use koit.Btf.RoundTrip.{Holds}
use koit.Btf.Strings.{IsTable, Names, Names-append, Names-lt, intern}

-- A member is a name, a type id, and an offset in bytes.
abbrev pub Member : Type 0
Member = Bytes × ℕ × ℕ

abbrev pub row : ℕ → ℕ → ℕ → Bytes
row name_off t off = le_bytes 4 name_off ++ (le_bytes 4 t ++ (le_bytes 4 (off * 8) ++ []))

-- The bytes are the rows of the members, with names from the table.
pub data IsRows (strings : Bytes) : List Member → Bytes → Type 0 where
  no_rows : IsRows strings [] []
  next_row :
      (n : Bytes) (t off name_off : ℕ) (members : List Member) (rest : Bytes)
      → Names strings name_off n
      → IsRows strings members rest
      → IsRows strings ((n, t, off) ∷ members) (row name_off t off ++ rest)

pub IsRows-append :
    {strings : Bytes} {members : List Member} {extra : Bytes} (more : Bytes)
    → IsRows strings members extra
    → IsRows (strings ++ more) members extra
IsRows-append more no_rows = no_rows
IsRows-append more (next_row n t off name_off members rest names h) =
    next_row n t off name_off members rest (Names-append more names) (IsRows-append more h)

-- The names have no NUL, and the numbers fit their words.
abbrev pub FitMembers : List Member → Type 0
FitMembers [] = Unit
FitMembers ((n, t, off) ∷ members) =
    NoNul n × (t < 256 ^ 4) × (off * 8 < 256 ^ 4) × FitMembers members

-- How much the table grows at most for the names.
abbrev pub room_for : List Member → ℕ
room_for [] = 0
room_for ((n, t, off) ∷ members) = length n + 1 + room_for members

pub record Rows (b : Btf) (members : List Member) : Type 0 where
  pub extra : Bytes
  pub more : Bytes
  pub result : members_extra members b ≡ ok (extra, record b { strings = b.strings ++ more })
  pub rows : IsRows (b.strings ++ more) members extra
  pub table : IsTable (b.strings ++ more)
  pub more_le : length more ≤ room_for members
  pub extra_length : length extra ≡ length members * 12

length-row : (name_off t off : ℕ) → length (row name_off t off) ≡ 12
length-row name_off t off = omega (
  arith,
  length-append {0} (le_bytes 4 name_off) (le_bytes 4 t ++ (le_bytes 4 (off * 8) ++ [])),
  length-append {0} (le_bytes 4 t) (le_bytes 4 (off * 8) ++ []),
  length-append {0} (le_bytes 4 (off * 8)) [],
  length-le_bytes 4 name_off,
  length-le_bytes 4 t,
  length-le_bytes 4 (off * 8),
)

pub members_extra-Rows :
    (b : Btf) (members : List Member)
    → IsTable b.strings
    → FitMembers members
    → length b.strings + room_for members < 256 ^ 4
    → Rows b members
unfolding members_extra
members_extra-Rows b [] t fit room = record {
  extra = [];
  more = [];
  result = rw append-nil refl;
  rows = no_rows;
  table = rw append-nil t;
  more_le = omega arith;
  extra_length = refl;
}
members_extra-Rows b ((n, t, off) ∷ members) table fit room =
    let i = intern b n table fit.0 in
    let grown = length-append {0} b.strings i.more in
    let name_fits : i.off < 256 ^ 4 = omega (arith, Names-lt i.names, i.more_le, grown) in
    let rest =
      members_extra-Rows (record b { strings = b.strings ++ i.more }) members i.table fit.3
        (omega (arith, grown, i.more_le, room)) in
    let joined : (b.strings ++ i.more) ++ rest.more ≡ b.strings ++ (i.more ++ rest.more) =
      append_assoc b.strings i.more rest.more in
    record {
      extra = row i.off t off ++ rest.extra;
      more = i.more ++ rest.more;
      result =
          rw
            (
              i.result,
              pack_all_ok ((4, i.off) ∷ (4, t) ∷ (4, off * 8) ∷ [])
                  (name_fits, (fit.1, (fit.2, tt))),
              rest.result,
              joined,
            )
            refl;
      rows =
          rw (← joined)
            (next_row n t off i.off members rest.extra (Names-append rest.more i.names) rest.rows);
      table = rw (← joined) rest.table;
      more_le = omega (arith, i.more_le, rest.more_le, length-append {0} i.more rest.more);
      extra_length = omega (
        arith,
        rest.extra_length,
        length-append {0} (row i.off t off) rest.extra,
        length-row i.off t off,
      );
    }

-- The type that `struct` adds.
pub record AddedStruct (b : Btf) (ts : List BtfType) (name : Bytes) (size : ℕ)
    (members : List Member) : Type 0 where
  pub type : BtfType
  pub added : Added b ts (struct_type name size members) type
  pub kind : type.kind ≡ kind_struct
  pub name_same : type.name ≡ name
  pub size_same : type.size_or_type ≡ size
  pub count : type.vlen ≡ length members
  pub rows : IsRows added.after.strings members type.extra

-- On an object that stands for the types `ts`, for a name and members without NUL whose numbers
-- fit their fields, fewer than 2^16 members, and room below 2^32 - 1 for the string table,
-- `struct` returns the id `length ts + 1` and adds a struct of the name, the size and the number
-- of members, whose rows are the members in order with their names, type ids and offsets in bits.
pub struct_type-AddedStruct :
    (b : Btf) (ts : List BtfType) (name : Bytes) (size : ℕ) (members : List Member)
    → Holds b ts
    → NoNul name
    → size < 256 ^ 4
    → length members < 2 ^ 16
    → FitMembers members
    → length b.strings + room_for members + length name < 256 ^ 4 - 1
    → AddedStruct b ts name size members
unfolding struct_type
struct_type-AddedStruct b ts name size members h plain size_lt count_lt fit room =
    let r = members_extra-Rows b members h.table fit (omega (arith, room)) in
    let b1 : Btf = record b { strings = b.strings ++ r.more } in
    let t : BtfType = record {
      kind = kind_struct;
      name = name;
      vlen = length members;
      size_or_type = size;
      extra = r.extra;
    } in
    let ok_t : IsType t = record {
      no_nul = plain;
      small = omega arith;
      extra_length = three_words (inl (inl refl)) r.extra_length;
      size_lt = size_lt;
    } in
    let held : Holds b1 ts = record {
      table = r.table;
      records = IsRecords-weaken b.types ts b.strings r.more h.records;
    } in
    let a =
      add-Added b1 ts t 0 held ok_t (omega arith)
        (omega (arith, room, r.more_le, length-append {0} b.strings r.more)) in
    record {
      type = t;
      added = record {
        after = a.after;
        result = rw (r.result, a.result) refl;
        holds = a.holds;
        keys = a.keys;
        more = r.more ++ a.more;
        strings_grow = a.strings_grow ∙ append_assoc b.strings r.more a.more;
      };
      kind = refl;
      name_same = refl;
      size_same = refl;
      count = refl;
      rows = rw a.strings_grow (IsRows-append a.more r.rows);
    }
