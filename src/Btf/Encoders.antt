-- ===== src/Btf/Encoders.antt =====
-- `Btf.add` and the methods over it: each adds its type to those that the object stands for.
use koit.Base.{
  ℕ, suc, ◌+◌, ◌-◌, ◌^◌, ◌<◌, ◌≡◌, refl, ap, arith, some, List, [], ◌∷◌, ◌++◌, length, ok,
  append-nil, length-append, Option-cases, inl, inr, Result-cases,
}
use koit.Base.Bytes.{Bytes, NoNul, le_bytes, pack_all_ok}
use koit.Base.Dict.{get, get-put_self}
use koit.Btf.{info_word, append_type, add, lookup, remember, once}
use koit.Btf.Monad.{new, Btf, M, Key, key_eq}
use koit.Btf.Extra.{ExtraLength}
use koit.Btf.Reader.{BtfType}
use koit.Btf.Records.{IsSmall, IsRecord, IsRecord-append, info_word-lt}
use koit.Btf.RoundTrip.{IsRecords, Holds}
use koit.Btf.Strings.{intern, Names-lt}

pub IsRecords-append :
    (items : List (Bytes × Bytes)) (ts : List BtfType) (strings more : Bytes) {item : Bytes × Bytes}
    {t : BtfType}
    → IsRecords strings items ts
    → IsRecord (strings ++ more) item t
    → IsRecords (strings ++ more) (items ++ (item ∷ [])) (ts ++ (t ∷ []))
IsRecords-append [] [] strings more h r = (r, tt)
IsRecords-append [] (t ∷ ts) strings more h r = absurd h
IsRecords-append (i ∷ items) [] strings more h r = absurd h
IsRecords-append (i ∷ items) (t ∷ ts) strings more h r =
    (IsRecord-append more h.0, IsRecords-append items ts strings more h.1 r)

pub IsRecords-weaken :
    (items : List (Bytes × Bytes)) (ts : List BtfType) (strings more : Bytes)
    → IsRecords strings items ts
    → IsRecords (strings ++ more) items ts
IsRecords-weaken [] [] strings more h = tt
IsRecords-weaken [] (t ∷ ts) strings more h = absurd h
IsRecords-weaken (i ∷ items) [] strings more h = absurd h
IsRecords-weaken (i ∷ items) (t ∷ ts) strings more h =
    (IsRecord-append more h.0, IsRecords-weaken items ts strings more h.1)

pub length-IsRecords :
    (items : List (Bytes × Bytes)) (ts : List BtfType) (strings : Bytes)
    → IsRecords strings items ts
    → length items ≡ length ts
length-IsRecords [] [] strings h = refl
length-IsRecords [] (t ∷ ts) strings h = absurd h
length-IsRecords (i ∷ items) [] strings h = absurd h
length-IsRecords (i ∷ items) (t ∷ ts) strings h = ap suc (length-IsRecords items ts strings h.1)

-- From a state that stands for `ts`, the call `m` adds exactly `t`, and returns its id.
pub record Added (b : Btf) (ts : List BtfType) (m : M ℕ) (t : BtfType) : Type 0 where
  pub after : Btf
  pub result : m b ≡ ok (length ts + 1, after)
  pub holds : Holds after (ts ++ (t ∷ []))
  pub keys : after.by_key ≡ b.by_key
  pub more : Bytes
  pub strings_grow : after.strings ≡ b.strings ++ more

-- What `add` needs of its arguments, as the type that they make: a name without NUL, fields that
-- fit, and as many bytes behind the record as its kind says.
pub record IsType (t : BtfType) : Type 0 where
  pub no_nul : NoNul t.name
  pub small : IsSmall t
  pub extra_length : ExtraLength t.kind t.vlen (length t.extra)
  pub size_lt : t.size_or_type < 256 ^ 4

-- On an object that stands for the types `ts`, for a type with a name without NUL, kind below 32,
-- length below 2^16, size below 2^32 and the extra bytes of its kind, for a flag below 2, and
-- with room below 2^32 - 1 for the string table, `add` returns the id `length ts + 1`, and the
-- new object stands for `ts` and that type; the cache of ids is kept, and the string table only
-- grows behind.
pub add-Added :
    (b : Btf) (ts : List BtfType) (t : BtfType) (flag : ℕ)
    → Holds b ts
    → IsType t
    → flag < 2
    → length b.strings + length t.name < 256 ^ 4 - 1
    → Added b ts (add t.name t.kind t.vlen t.size_or_type t.extra flag) t
unfolding add append_type
add-Added b ts t flag h ok_t flag_lt room =
    let i = intern b t.name h.table ok_t.no_nul in
    let off_fits : i.off < 256 ^ 4 =
      omega (arith, Names-lt i.names, i.more_le, length-append {0} b.strings i.more) in
    let word = info_word t.kind t.vlen flag in
    let word_fits : word < 256 ^ 4 =
      info_word-lt t.kind t.vlen flag ok_t.small.kind_lt ok_t.small.vlen_lt flag_lt in
    let head = le_bytes 4 i.off ++ (le_bytes 4 word ++ (le_bytes 4 t.size_or_type ++ [])) in
    let after : Btf = record b {
      types = b.types ++ ((head, t.extra) ∷ []);
      strings = b.strings ++ i.more;
    } in
    let counted : length (b.types ++ ((head, t.extra) ∷ [])) ≡ length ts + 1 = omega (
      arith,
      length-append {0} b.types ((head, t.extra) ∷ []),
      length-IsRecords b.types ts b.strings h.records,
    ) in
    record {
      after = after;
      result =
          rw
            (
              i.result,
              pack_all_ok ((4, i.off) ∷ (4, word) ∷ (4, t.size_or_type) ∷ [])
                  (off_fits, (word_fits, (ok_t.size_lt, tt))),
            )
            (ap (λ (n : ℕ). ok (n, after)) counted);
      holds = record {
        table = i.table;
        records = IsRecords-append b.types ts b.strings i.more h.records (record {
          off = i.off;
          flag = flag;
          names = i.names;
          head =
              ap (λ xs. le_bytes 4 i.off ++ (le_bytes 4 word ++ xs))
                (append-nil (le_bytes 4 t.size_or_type));
          extra_same = refl;
          extra_length = ok_t.extra_length;
          small = ok_t.small;
          flag_lt = flag_lt;
          off_lt = off_fits;
          size_lt = ok_t.size_lt;
        });
      };
      keys = refl;
      more = i.more;
      strings_grow = refl;
    }

-- A new object stands for no type.
pub new-Holds : Holds new []
new-Holds = record { table = record { tail = []; begins = refl }; records = tt }

once_hit :
    (key : Key) (make : M ℕ) (b : Btf) {t : ℕ}
    → get b.by_key key ≡ some t
    → once key make b ≡ ok (t, b)
unfolding once lookup
once_hit key make b found = ground arith

once_kept :
    (key : Key) (make : M ℕ) (b b' : Btf) (t : ℕ)
    → once key make b ≡ ok (t, b')
    → get b'.by_key key ≡ some t
unfolding once lookup remember
once_kept key make b b' t h = elim (Option-cases (get b.by_key key)) [
  | inr (i, found) ↦ ground arith
  | inl fresh ↦ elim (Result-cases (make b)) [
    | inl (e, failed) ↦ ground arith
    | inr ((i, s), made) ↦ ground (arith, get-put_self s.by_key key i)
  ]
]

-- If `once` returns an id for a key, then on the new object `once` of the key returns that id
-- again, whatever it would make, and changes nothing.
pub once-once :
    (key : Key) (make make' : M ℕ) (b b' : Btf) (t : ℕ)
    → once key make b ≡ ok (t, b')
    → once key make' b' ≡ ok (t, b')
once-once key make make' b b' t h = once_hit key make' b' (once_kept key make b b' t h)
