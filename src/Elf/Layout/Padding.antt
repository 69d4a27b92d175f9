-- ===== src/Elf/Layout/Padding.antt =====
-- The padding loop ends at the next multiple of the alignment, with fewer zero bytes than that.
use koit.Base.{
  ℕ, zero, suc, ◌+◌, ◌-◌, ◌*◌, ◌%◌, ◌/◌, ◌≤◌, ◌<◌, ◌≡◌, ◌≢◌, sym, ap, ◌∙◌, arith, [], ◌∷◌, ◌++◌,
  length, replicate, append_assoc, append-nil, length-append, Bool-cases, inl, inr, ◌==◌, ==_iff,
}
use koit.Base.Bytes.{Bytes}
use koit.Elf.Layout.{pad}
use native.Mathlib.Nat.{mod-lt, div-add-mod, mul-mod_right}

-- `padded` is `body` with at most `most` zero bytes up to a multiple of `align`, counted from `pos`.
pub record IsPadded (pos align most : ℕ) (body padded : Bytes) : Type 0 where
  pub count : ℕ
  pub same : padded ≡ body ++ replicate count 0
  pub count_le : count ≤ most
  pub aligned : (pos + length padded) % align ≡ 0

pad_within :
    (fuel m pos align : ℕ) (body : Bytes)
    → m ≤ fuel
    → (pos + length body + m) % align ≡ 0
    → IsPadded pos align m body (pad fuel pos align body)
unfolding pad
pad_within zero m pos align body le h = record {
  count = 0;
  same = sym (append-nil body);
  count_le = omega arith;
  aligned = ap (λ (k : ℕ). k % align) (omega arith) ∙ h;
}
pad_within (suc fuel) m pos align body le h = elim (Bool-cases ((pos + length body) % align == 0)) [
  | inl stop ↦ rw stop (record {
    count = 0;
    same = sym (append-nil body);
    count_le = omega arith;
    aligned = (==_iff _ _).0 stop;
  })
  | inr more ↦
      let positive : m ≢ 0 = λ z. cc (
        more,
        (==_iff ((pos + length body) % align) 0).1 (ap (λ (k : ℕ). k % align) (omega arith) ∙ h),
      ) in
      let grown = length-append {0} body (0 ∷ []) in
      let r =
        pad_within fuel (m - 1) pos align (body ++ (0 ∷ [])) (omega arith)
          (ap (λ (k : ℕ). k % align) (omega (arith, grown)) ∙ h) in
      rw more (record {
        count = suc r.count;
        same = r.same ∙ append_assoc body (0 ∷ []) (replicate r.count 0);
        count_le = omega (arith, r.count_le, positive);
        aligned = r.aligned;
      })
]

-- How many bytes the next multiple of `align` is away.
missing : (x align : ℕ) → 0 < align → (m : ℕ) × ((x + m) % align ≡ 0) × (m < align)
missing x align h = elim (Bool-cases (x % align == 0)) [
  | inl z ↦ (0, ap (λ (k : ℕ). k % align) (omega arith) ∙ (==_iff _ _).0 z, h)
  | inr nz ↦
      let r = x % align in
      let r_lt : r < align = mod-lt x h in
      let r_ne : r ≢ 0 = λ z. cc (nz, (==_iff r 0).1 z) in
      let up : x + (align - r) ≡ align * (x / align + 1) =
        omega (arith, div-add-mod x align, r_lt) in
      (
        align - r,
        ap (λ (k : ℕ). k % align) up ∙ multiple (x / align + 1),
        omega (arith, r_ne, r_lt),
      )
]
  where
    multiple : (k : ℕ) → align * k % align ≡ 0
    multiple k = mul-mod_right align k

-- For a positive alignment, `pad` with as many rounds as the alignment reaches a multiple of the
-- alignment: it adds zero bytes only, fewer than the alignment.
pub pad-IsPadded :
    (pos align : ℕ) (body : Bytes)
    → 0 < align
    → IsPadded pos align (align - 1) body (pad align pos align body)
pad-IsPadded pos align body h =
    let (m, reaches, m_lt) = missing (pos + length body) align h in
    let r = pad_within align m pos align body (omega arith) reaches in
    record {
      count = r.count;
      same = r.same;
      count_le = omega (arith, r.count_le, m_lt);
      aligned = r.aligned;
    }
