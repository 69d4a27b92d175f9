-- ===== src/Btf/Lookup.antt =====
-- `read_btf` ends on every blob, and `kfunc_id` finds the first function of a name.
use koit.Base.{
  ℕ, zero, suc, bit_and, ◌+◌, ◌<◌, ◌≡◌, ◌≢◌, refl, ap, ◌∙◌, arith, ◌&&◌, none, some, List, [], ◌∷◌,
  ◌++◌, length, All, ◌⊎◌, inl, inr, Bool-cases, ltb, ◌==◌, ok, err, value_error, out_of_fuel,
  >>=-eq-ok,
}
use koit.Base.Bits.{◌>>>◌}
use koit.Base.Bytes.{Bytes, unpack_from}
use koit.Base.Raised.{Raised, bind-Raised, check-Raised, unpack-Raised}
use koit.Base.Dict.{same_bytes, same_bytes_iff}
use koit.Base.Utf8.{decode, is_utf8}
use koit.Btf.{kind_func}
use koit.Btf.Blob.{magic}
use koit.Btf.Reader.{
  BtfType, read_type, read_loop, read_btf, extra_len, name_at, kfunc_id_from, kfunc_id,
}

-- The entry is the function of the name.
abbrev pub IsFunc : Bytes → BtfType → Type 0
IsFunc name t = (t.kind ≡ kind_func) × (t.name ≡ name)

kfunc_id_from-cases :
    (i : ℕ) (types : List BtfType) (name : Bytes)
    → ((before : List BtfType) × (after : List BtfType) × (t : BtfType) × (types
          ≡ before ++ (t ∷ after))
        × IsFunc name t
        × All (λ s. IsFunc name s → ⊥) before
        × (kfunc_id_from i types name ≡ some (i + length before)))
      ⊎ ((kfunc_id_from i types name ≡ none) × All (λ s. IsFunc name s → ⊥) types)
unfolding kfunc_id_from
kfunc_id_from-cases i [] name = inr (refl, tt)
kfunc_id_from-cases i (t ∷ ts) name =
    elim (Bool-cases (t.kind == kind_func && same_bytes t.name name)) [
      | inl hit ↦ inl (
        [],
        ts,
        t,
        refl,
        ground (arith, same_bytes_iff t.name name, hit),
        tt,
        rw hit (ap some (omega arith)),
      )
      | inr miss ↦
          let other : IsFunc name t → ⊥ =
            λ h. ground (arith, same_bytes_iff t.name name, miss, h.0, h.1) in
          elim (kfunc_id_from-cases (i + 1) ts name) [
            | inl (before, after, s, split, is, others, found) ↦ inl (
              t ∷ before,
              after,
              s,
              ap (λ xs. t ∷ xs) split,
              is,
              (other, others),
              rw miss (found ∙ ap some (omega arith)),
            )
            | inr (absent, others) ↦ inr (rw miss absent, (other, others))
          ]
    ]

-- Either `kfunc_id` gives the id, counted from 1, of a function of the name before which there is
-- none, or it gives nothing and no entry is a function of the name.
pub kfunc_id_cases :
    (types : List BtfType) (name : Bytes)
    → ((before : List BtfType) × (after : List BtfType) × (t : BtfType) × (types
          ≡ before ++ (t ∷ after))
        × IsFunc name t
        × All (λ s. IsFunc name s → ⊥) before
        × (kfunc_id types name ≡ some (1 + length before)))
      ⊎ ((kfunc_id types name ≡ none) × All (λ s. IsFunc name s → ⊥) types)
unfolding kfunc_id
kfunc_id_cases types name = kfunc_id_from-cases 1 types name

decode-Raised : (bs : Bytes) → Raised (decode bs)
unfolding decode
decode-Raised bs = elim (Bool-cases (is_utf8 bs)) [
  | inl e ↦ rw e (λ x. cc)
  | inr e ↦ rw e (λ x. cc)
]

read_type-Raised : (blob strings : Bytes) (pos : ℕ) → Raised (read_type blob strings pos)
unfolding read_type
read_type-Raised blob strings pos = bind-Raised _ _ (unpack-Raised 4 blob pos) (λ a e.
    bind-Raised _ _ (unpack-Raised 4 blob (pos + 4)) (λ b e2.
      bind-Raised _ _ (unpack-Raised 4 blob (pos + 8))
        (λ c e3. bind-Raised _ _ (decode-Raised _) (λ name e4. λ x. cc))))

read_type-next :
    (blob strings : Bytes) (pos next : ℕ) (t : BtfType)
    → read_type blob strings pos ≡ ok (t, next)
    → pos < next
unfolding read_type
read_type-next blob strings pos next t h =
    let (a, e1, h1) = >>=-eq-ok (unpack_from 4 blob pos) _ h in
    let (b, e2, h2) = >>=-eq-ok (unpack_from 4 blob (pos + 4)) _ h1 in
    let (c, e3, h3) = >>=-eq-ok (unpack_from 4 blob (pos + 8)) _ h2 in
    let (name, e4, h4) = >>=-eq-ok (decode (name_at strings a)) _ h3 in
    let kind = bit_and (b >>> 24) 0x1f in
    let vlen = bit_and b 0xffff in
    let same : pos + 12 + extra_len kind vlen ≡ next = cc in omega (arith, same)

read_loop-Raised :
    (fuel : ℕ) (blob strings : Bytes) (end pos : ℕ)
    → end < pos + fuel
    → Raised (read_loop fuel blob strings end pos)
unfolding read_loop
read_loop-Raised zero blob strings end pos enough = ground arith
read_loop-Raised (suc fuel) blob strings end pos enough = elim (Bool-cases (ltb pos end)) [
  | inl more ↦ rw more (
      bind-Raised _ _ (read_type-Raised blob strings pos) (λ (t, next) e.
        bind-Raised _ _
          (read_loop-Raised fuel blob strings end next
            (omega (arith, read_type-next blob strings pos next t e)))
          (λ ts e2. λ x. cc)))
  | inr done ↦ rw done (λ x. cc)
]

-- On every blob `read_btf` returns types or an error that Python raises: the bound on its rounds
-- never stops it.
pub read_btf-ends : (blob : Bytes) → read_btf blob ≢ err out_of_fuel
unfolding read_btf
read_btf-ends blob = bind-Raised _ _ (unpack-Raised 2 blob 0) (λ m e1.
    bind-Raised _ _ (unpack-Raised 1 blob 2) (λ v e2.
      bind-Raised _ _ (unpack-Raised 1 blob 3) (λ f e3.
        bind-Raised _ _ (unpack-Raised 4 blob 4) (λ hdr_len e4.
          bind-Raised _ _ (unpack-Raised 4 blob 8) (λ type_off e5.
            bind-Raised _ _ (unpack-Raised 4 blob 12) (λ type_len e6.
              bind-Raised _ _ (unpack-Raised 4 blob 16) (λ str_off e7.
                bind-Raised _ _ (unpack-Raised 4 blob 20) (λ str_len e8.
                  bind-Raised _ _ (check-Raised (m == magic) value_error (λ x. cc)) (λ c e9.
                    read_loop-Raised (suc type_len) blob _ (hdr_len + type_off + type_len)
                      (hdr_len + type_off) (omega arith))))))))))
