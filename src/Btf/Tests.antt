-- ===== src/Btf/Tests.antt =====
-- The BTF of an `int`: written, read back, and found; a struct of one member.
use koit.Base.{
  ◌<◌, ◌≡◌, ◌≢◌, ◌+◌, ◌^◌, refl, inl, arith, some, none, List, [], ◌∷◌, ◌++◌, length, All, ◌⊎◌, ok,
  err, out_of_fuel,
}
use koit.Base.Bytes.{Bytes, le_bytes, NoNul}
use koit.Base.Dict.{get, put}
use koit.Base.Text.{text}
use koit.Base.Utf8.{IsText}
use koit.Btf.{add, once, lookup, remember, info_word}
use koit.Btf.Blob.{blob, types_blob}
use koit.Btf.Encoders.{Added, IsType, add-Added, new-Holds, once-once}
use koit.Btf.Lookup.{IsFunc, kfunc_id_cases, read_btf-ends}
use koit.Btf.Members.{AddedStruct, struct_type-AddedStruct}
use koit.Btf.Monad.{Btf, new, int_key, return, key_eq}
use koit.Btf.Extra.{word}
use koit.Btf.Reader.{BtfType, read_btf, read_type, kfunc_id, extra_len}
use koit.Btf.Records.{IsRecord, read_type-IsRecord}
use koit.Btf.RoundTrip.{Holds, read_btf-blob}
use koit.Btf.Strings.{Interned, intern}

abbrev int_type : BtfType
int_type = record {
  kind = 1;
  name = text "int";
  vlen = 0;
  size_or_type = 4;
  extra = 32 ∷ (0 ∷ (0 ∷ (1 ∷ [])));
}

abbrev table : Bytes
table = 0 ∷ (text "int" ++ (0 ∷ []))

abbrev head : Bytes
head = 1 ∷ (0 ∷ (0 ∷ (0 ∷ (0 ∷ (0 ∷ (0 ∷ (1 ∷ (4 ∷ (0 ∷ (0 ∷ (0 ∷ [])))))))))))

abbrev sample : Btf
sample = record { types = (head, int_type.extra) ∷ []; strings = table; by_key = [] }

no_nul : NoNul (text "int")
no_nul = (omega arith, (omega arith, (omega arith, tt)))

int_record : IsRecord table (head, int_type.extra) int_type
unfolding le_bytes info_word extra_len
int_record = record {
  off = 1;
  flag = 0;
  names = record { rest = []; here = refl; no_nul = no_nul; empty_at_zero = λ z. cc };
  head = refl;
  extra_same = refl;
  extra_length = word (inl refl) refl;
  small = record { kind_lt = omega arith; vlen_lt = omega arith };
  flag_lt = omega arith;
  off_lt = omega arith;
  size_lt = omega arith;
}

sample-Holds : Holds sample (int_type ∷ [])
sample-Holds = record {
  table = record { tail = text "int" ++ (0 ∷ []); begins = refl };
  records = (int_record, tt);
}

named : IsText (text "int")
unfolding koit.Base.Utf8.is_utf8 koit.Base.Utf8.utf8_from koit.Base.Utf8.after_first
named = refl

types_fit : length (types_blob sample.types) < 2 ^ 32
unfolding types_blob
types_fit = omega arith

read_btf-blob_example :
    (bytes : Bytes) × (blob sample ≡ ok (bytes, sample)) × (read_btf bytes ≡ ok (int_type ∷ []))
read_btf-blob_example =
    read_btf-blob sample (int_type ∷ []) sample-Holds (named, tt) types_fit (omega arith)

read_type-IsRecord_example :
    read_type ((9 ∷ []) ++ ((head ++ int_type.extra) ++ [])) table 1 ≡ ok (int_type, 17)
read_type-IsRecord_example =
    read_type-IsRecord table (9 ∷ []) [] (head, int_type.extra) int_type int_record named

intern_example : Interned new (text "int")
intern_example = intern new (text "int") (record { tail = []; begins = refl }) no_nul

add-Added_example : Added new [] (add (text "int") 1 0 4 int_type.extra 0) int_type
add-Added_example =
    add-Added new [] int_type 0 new-Holds int_type-IsType (omega arith) (omega arith)
  where
    int_type-IsType : IsType int_type
    int_type-IsType = record {
      no_nul = no_nul;
      small = int_record.small;
      extra_length = int_record.extra_length;
      size_lt = omega arith;
    }

abbrev kept : Btf
kept = record new { by_key = (int_key (text "int"), 1) ∷ [] }

made : once (int_key (text "int")) (return 1) new ≡ ok (1, kept)
unfolding once lookup remember get put
made = refl

once-once_example : once (int_key (text "int")) (return 2) kept ≡ ok (1, kept)
once-once_example = once-once (int_key (text "int")) (return 1) (return 2) new kept 1 made

struct_type-AddedStruct_example : AddedStruct new [] (text "int") 8 ((text "int", 1, 4) ∷ [])
struct_type-AddedStruct_example =
    struct_type-AddedStruct new [] (text "int") 8 ((text "int", 1, 4) ∷ []) new-Holds no_nul
      (omega arith) (omega arith) (no_nul, omega arith, omega arith, tt) (omega arith)

abbrev f_type : BtfType
f_type = record { kind = 12; name = text "f"; vlen = 0; size_or_type = 1; extra = [] }

kfunc_id_cases_example :
    ((before : List BtfType) × (after : List BtfType) × (t : BtfType) × (int_type ∷ (f_type ∷ [])
        ≡ before ++ (t ∷ after))
      × IsFunc (text "f") t
      × All (λ s. IsFunc (text "f") s → ⊥) before
      × (kfunc_id (int_type ∷ (f_type ∷ [])) (text "f") ≡ some (1 + length before)))
    ⊎ ((kfunc_id (int_type ∷ (f_type ∷ [])) (text "f") ≡ none)
        × All (λ s. IsFunc (text "f") s → ⊥) (int_type ∷ (f_type ∷ [])))
kfunc_id_cases_example = kfunc_id_cases (int_type ∷ (f_type ∷ [])) (text "f")

read_btf-ends_example : read_btf head ≢ err out_of_fuel
read_btf-ends_example = read_btf-ends head
