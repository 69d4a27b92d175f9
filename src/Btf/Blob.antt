-- ===== src/Btf/Blob.antt =====
-- `Btf.blob` and `Btf.ext_blob`: the `.BTF` and `.BTF.ext` sections.
use koit.Base.{ℕ, List, [], ◌∷◌, ◌++◌, length, map}
use koit.Base.Bytes.{Bytes, pack_all, pack_rows}
use koit.Btf.{string}
use koit.Btf.Monad.{M, ◌>>=◌, return, lift}

abbrev pub magic : ℕ
magic = 0xeb9f

-- `b"".join(t + e for t, e in self.types)`
unfoldable pub types_blob : List (Bytes × Bytes) → Bytes
types_blob [] = []
types_blob ((t, e) ∷ types) = (t ++ e) ++ types_blob types

-- `struct.pack("<HBBIIIII", BTF_MAGIC, 1, 0, 24, 0, a, b, c)`
abbrev pub header_fields : ℕ → ℕ → ℕ → List (ℕ × ℕ)
header_fields a b c =
    (2, magic) ∷ (1, 1) ∷ (1, 0) ∷ (4, 24) ∷ (4, 0) ∷ (4, a) ∷ (4, b) ∷ (4, c) ∷ []

unfoldable pub blob : M Bytes
blob s =
    (do
      let types = types_blob s.types
      hdr ← lift (pack_all (header_fields (length types) (length types) (length s.strings)))
      return (hdr ++ (types ++ s.strings)))
      s

-- A record is an instruction offset in bytes and a function type.
abbrev pub FuncInfo : Type 0
FuncInfo = ℕ × ℕ

unfoldable pub ext_body : List (Bytes × List FuncInfo) → M Bytes
ext_body [] = return []
ext_body ((sec, recs) ∷ secs) = do
  name_off ← string sec
  head ← lift (pack_all ((4, name_off) ∷ (4, length recs) ∷ []))
  rows ← lift (pack_rows (map (λ (off, fid). (4, off) ∷ (4, fid) ∷ []) recs))
  rest ← ext_body secs
  return (head ++ (rows ++ rest))

unfoldable pub ext_blob : List (Bytes × List FuncInfo) → M Bytes
ext_blob secs = do
  size ← lift (pack_all ((4, 8) ∷ []))
  rest ← ext_body secs
  let body = size ++ rest
  hdr ← lift (pack_all (header_fields 0 (length body) (length body)))
  return (hdr ++ body)
