-- ===== src/Report/Laws.antt =====
-- The verdict's value is the two's complement reading of the result, and its name the first that fits.
use koit.Base.{
  ℕ, zero, suc, ◌+◌, ◌-◌, ◌*◌, ◌^◌, ◌%◌, ◌<◌, ◌≡◌, ◌≢◌, refl, ap, ◌∙◌, arith, Bool, false, List, [],
  ◌∷◌, ◌++◌, All, ◌⊎◌, inl, inr, ok, bit_and, Bool-cases, leb, leb→le, leb→gt, if◌then◌else◌,
}
use koit.Base.Bits.{◌<<<◌, and_mask}
use koit.Base.Bytes.{Bytes}
use koit.Base.Int.{ℤ, pos, negsuc, same_int, same_int_iff, str}
use koit.Report.{signed_value, verdict_lookup}
use native.Mathlib.Nat.{pow-suc, one-le-pow, mod-lt}

-- `v` is the integer of `bits` bits with a sign whose bits are those of `retval`.
abbrev pub IsSigned : ℕ → ℕ → ℤ → Type 0
IsSigned bits retval (pos n) = (2 * n < 2 ^ bits) × (n ≡ retval % 2 ^ bits)
IsSigned bits retval (negsuc n) = (2 * n < 2 ^ bits) × (retval % 2 ^ bits + (n + 1) ≡ 2 ^ bits)

masked : (k retval : ℕ) → bit_and retval ((1 <<< k) - 1) ≡ retval % 2 ^ k
masked k retval = ap (λ (t : ℕ). bit_and retval (t - 1)) (omega arith) ∙ and_mask k retval

-- For at least one bit, `signed_value` returns the integer in the range of signed integers of so
-- many bits that is equal to the result modulo 2^bits.
pub signed_value-IsSigned :
    (bits retval : ℕ)
    → 0 < bits
    → (v : ℤ) × (signed_value bits retval ≡ ok v) × IsSigned bits retval v
signed_value-IsSigned zero retval h = elim h [ ]
signed_value-IsSigned (suc b) retval h = elim (Bool-cases (leb (1 <<< b) v)) [
  | inl negative ↦ (
    negsuc ((1 <<< suc b) - v - 1),
    value negative,
    (omega (arith, pow-suc 2 b, leb→le _ _ negative, bound), omega (arith, bound)),
  )
  | inr positive ↦ (pos v, value positive, (omega (arith, pow-suc 2 b, leb→gt _ _ positive), refl))
]
  where
    v : ℕ
    v = retval % 2 ^ suc b

    bound : v < 2 ^ suc b
    bound = mod-lt retval (one-le-pow (suc b) 2 (omega arith))

    value :
        {t : Bool}
        → leb (1 <<< b) v ≡ t
        → signed_value (suc b) retval
          ≡ (if t then ok (negsuc ((1 <<< suc b) - v - 1)) else ok (pos v))
    value e = unfold signed_value in rw (signed_value, masked (suc b) retval, e) refl

-- Either the name that `verdict_lookup` gives is that of a verdict of the value before which no
-- verdict has the value, or it is the value printed, and no verdict has the value.
pub verdict_lookup_cases :
    (verdicts : List (Bytes × ℤ)) (v : ℤ)
    → ((before after : List (Bytes × ℤ)) × (verdicts
          ≡ before ++ ((verdict_lookup verdicts v, v) ∷ after))
        × All (λ p. p.1 ≢ v) before)
      ⊎ ((verdict_lookup verdicts v ≡ str v) × All (λ p. p.1 ≢ v) verdicts)
unfolding verdict_lookup
verdict_lookup_cases [] v = inr (refl, tt)
verdict_lookup_cases ((name, value) ∷ verdicts) v = elim (Bool-cases (same_int value v)) [
  | inl hit ↦ inl ([], verdicts, rw (hit, (same_int_iff value v).0 hit) refl, tt)
  | inr miss ↦ elim (verdict_lookup_cases verdicts v) [
    | inl (before, after, split, others) ↦ inl (
      (name, value) ∷ before,
      after,
      rw miss (ap (λ ps. (name, value) ∷ ps) split),
      (differs miss, others),
    )
    | inr (number, others) ↦ inr (rw miss number, (differs miss, others))
  ]
]
  where
    differs : same_int value v ≡ false → value ≢ v
    differs miss e = cc ((same_int_iff value v).1 e)
