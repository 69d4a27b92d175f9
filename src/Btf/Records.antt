-- ===== src/Btf/Records.antt =====
-- A type record as `Btf.add` writes it and as `read_btf` reads it.
use koit.Base.{
  ℕ, ◌+◌, ◌*◌, ◌^◌, ◌<◌, ◌≡◌, refl, ap, arith, [], ◌++◌, length, slice, bit_and, ok, append_assoc,
  length-append,
}
use koit.Base.Bits.{◌>>>◌, or_above, or_below, and_mask}
use koit.Base.Bytes.{Bytes, le_bytes, length-le_bytes, unpack_from, unpack_at, slice_at}
use koit.Base.Utf8.{decode, IsText}
use koit.Btf.{info_word}
use koit.Btf.Extra.{ExtraLength, ExtraLength-extra_len}
use koit.Btf.Reader.{BtfType, read_type}
use koit.Btf.Strings.{Names, name_at-Names, Names-append}

-- The fields of a type that the two words can hold.
pub record IsSmall (t : BtfType) : Type 0 where
  pub kind_lt : t.kind < 32
  pub vlen_lt : t.vlen < 2 ^ 16

info_sum :
    (kind vlen flag : ℕ)
    → kind < 32
    → vlen < 2 ^ 16
    → info_word kind vlen flag ≡ flag * 2 ^ 31 + (kind * 2 ^ 24 + vlen)
unfolding info_word
info_sum kind vlen flag k v =
    ground (arith, and_mask 16 vlen, or_above 24 kind vlen, or_below 31 flag (kind * 2 ^ 24 + vlen))

-- For a kind below 32 and a length below 2^16, whatever the kind flag, the kind and the length
-- are read back from the info word as the reader takes them.
pub info_word_fields :
    (kind vlen flag : ℕ)
    → kind < 32
    → vlen < 2 ^ 16
    → (bit_and (info_word kind vlen flag >>> 24) 0x1f ≡ kind)
      × (bit_and (info_word kind vlen flag) 0xffff ≡ vlen)
info_word_fields kind vlen flag k v =
    let e = info_sum kind vlen flag k v in
    (
      omega (arith, e, and_mask 5 (info_word kind vlen flag >>> 24)),
      omega (arith, e, and_mask 16 (info_word kind vlen flag)),
    )

pub info_word-lt :
    (kind vlen flag : ℕ) → kind < 32 → vlen < 2 ^ 16 → flag < 2 → info_word kind vlen flag < 256 ^ 4
info_word-lt kind vlen flag k v f = omega (arith, info_sum kind vlen flag k v)

-- `item` is the record of the type `t` under the string table.
pub record IsRecord (strings : Bytes) (item : Bytes × Bytes) (t : BtfType) : Type 0 where
  pub off : ℕ
  pub flag : ℕ
  pub names : Names strings off t.name
  pub head :
      item.0
      ≡ le_bytes 4 off ++ (le_bytes 4 (info_word t.kind t.vlen flag) ++ le_bytes 4 t.size_or_type)
  pub extra_same : item.1 ≡ t.extra
  pub extra_length : ExtraLength t.kind t.vlen (length t.extra)
  pub small : IsSmall t
  pub flag_lt : flag < 2
  pub off_lt : off < 256 ^ 4
  pub size_lt : t.size_or_type < 256 ^ 4

pub IsRecord-append :
    {strings : Bytes} {item : Bytes × Bytes} {t : BtfType} (more : Bytes)
    → IsRecord strings item t
    → IsRecord (strings ++ more) item t
IsRecord-append more r = record {
  off = r.off;
  flag = r.flag;
  names = Names-append more r.names;
  head = r.head;
  extra_same = r.extra_same;
  extra_length = r.extra_length;
  small = r.small;
  flag_lt = r.flag_lt;
  off_lt = r.off_lt;
  size_lt = r.size_lt;
}

-- Three words and the bytes behind them, somewhere in a blob.
module _ (before after : Bytes) (x y z : ℕ) (e : Bytes) where
  abbrev words : Bytes
  words = le_bytes 4 x ++ (le_bytes 4 y ++ le_bytes 4 z)

  abbrev placed : Bytes
  placed = before ++ ((words ++ e) ++ after)

  word_first : x < 256 ^ 4 → unpack_from 4 placed (length before) ≡ ok x
  word_first h =
      unpack_at 4 x before ((le_bytes 4 y ++ le_bytes 4 z) ++ (e ++ after)) (simp append_assoc) refl
        h

  word_second : y < 256 ^ 4 → unpack_from 4 placed (length before + 4) ≡ ok y
  word_second h =
      unpack_at 4 y (before ++ le_bytes 4 x) (le_bytes 4 z ++ (e ++ after)) (simp append_assoc)
        (omega (arith, length-append {0} before (le_bytes 4 x), length-le_bytes 4 x)) h

  word_third : z < 256 ^ 4 → unpack_from 4 placed (length before + 8) ≡ ok z
  word_third h =
      unpack_at 4 z (before ++ (le_bytes 4 x ++ le_bytes 4 y)) (e ++ after) (simp append_assoc)
        (omega (
          arith,
          length-append {0} before (le_bytes 4 x ++ le_bytes 4 y),
          length-append {0} (le_bytes 4 x) (le_bytes 4 y),
          length-le_bytes 4 x,
          length-le_bytes 4 y,
        ))
        h

  length-words : length words ≡ 12
  length-words = omega (
    arith,
    length-append {0} (le_bytes 4 x) (le_bytes 4 y ++ le_bytes 4 z),
    length-append {0} (le_bytes 4 y) (le_bytes 4 z),
    length-le_bytes 4 x,
    length-le_bytes 4 y,
    length-le_bytes 4 z,
  )

  bytes_behind : slice placed (length before + 12) (length before + 12 + length e) ≡ e
  bytes_behind = rw regroup (
      slice_at (before ++ words) e after _ _
        (omega (arith, length-append {0} before words, length-words)) refl)
    where
      regroup : placed ≡ (before ++ words) ++ (e ++ after)
      regroup = simp append_assoc

-- Where the record of a type with a name in UTF-8 stands in a blob, `read_type` at its position
-- gives the type, its name from the string table, and the position behind the record and its
-- extra bytes.
pub read_type-IsRecord :
    (strings before after : Bytes) (item : Bytes × Bytes) (t : BtfType)
    → IsRecord strings item t
    → IsText t.name
    → read_type (before ++ ((item.0 ++ item.1) ++ after)) strings (length before)
      ≡ ok (t, length before + 12 + length t.extra)
unfolding read_type decode
read_type-IsRecord strings before after (h, e) t r named =
    rw
      (
        r.head,
        r.extra_same,
        word_first before after r.off info t.size_or_type t.extra r.off_lt,
        word_second before after r.off info t.size_or_type t.extra
            (info_word-lt t.kind t.vlen r.flag r.small.kind_lt r.small.vlen_lt r.flag_lt),
        word_third before after r.off info t.size_or_type t.extra r.size_lt,
        fields.0,
        fields.1,
        ← ExtraLength-extra_len t.kind t.vlen (length t.extra) r.extra_length,
        bytes_behind before after r.off info t.size_or_type t.extra,
        name_at-Names r.names,
        decode,
        named,
      )
      refl
  where
    info : ℕ
    info = info_word t.kind t.vlen r.flag

    fields : (bit_and (info >>> 24) 0x1f ≡ t.kind) × (bit_and info 0xffff ≡ t.vlen)
    fields = info_word_fields t.kind t.vlen r.flag r.small.kind_lt r.small.vlen_lt

pub length-record :
    {strings : Bytes} {item : Bytes × Bytes} {t : BtfType}
    → IsRecord strings item t
    → length (item.0 ++ item.1) ≡ 12 + length t.extra
length-record {item} {t} r = omega (
  arith,
  length-append {0} item.0 item.1,
  ap (λ (xs : Bytes). length xs) r.head,
  ap (λ (xs : Bytes). length xs) r.extra_same,
  length-words [] [] r.off (info_word t.kind t.vlen r.flag) t.size_or_type [],
)
