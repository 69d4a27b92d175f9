-- ===== src/Base/Bits.antt =====
-- `|` and `&` of Python's non-negative integers at variables: each acts on the high and on the low
-- bits apart, at every cut. `and_not` is `w & ~m`, whose result is never negative for `0 ≤ w`.
use Prim.Native.Nat.{
  ℕ, zero, suc, ◌+◌, ◌-◌, ◌*◌, ◌/◌, ◌%◌, ◌^◌, ◌≤◌, ◌<◌, min, max, bit_and, bit_or, digits, bitwise,
  bit_and-bitwise, bit_or-bitwise,
}
use mathlib.Core.Path.{◌≡◌, refl, ap}
use native.Mathlib.Nat.{pow-suc, one-le-pow}
use native.Mathlib.Omega.{arith}

abbrev pub and_not : ℕ → ℕ → ℕ
and_not w m = w - bit_and w m

infixl 75 ◌<<<◌ ◌>>>◌
abbrev pub ◌<<<◌ : ℕ → ℕ → ℕ
x <<< k = x * 2 ^ k

abbrev pub ◌>>>◌ : ℕ → ℕ → ℕ
x >>> k = x / 2 ^ k

-- The fuel of the digit recursion does not matter once it covers the first number.
module _ (z : ℕ → ℕ) (f : ℕ → ℕ → ℕ) where
  digits_agree : (m n a b : ℕ) → a ≤ m → a ≤ n → digits z f m a b ≡ digits z f n a b
  digits_agree (suc m) (suc n) (suc a) b p q =
      rw (digits_agree m n (suc a / 2) (b / 2) (omega arith) (omega arith))
  digits_agree (suc m) zero (suc a) b p q = absurd (omega arith)
  digits_agree zero n (suc a) b p q = absurd (omega arith)
  digits_agree (suc m) (suc n) zero b p q = refl
  digits_agree (suc m) zero zero b p q = refl
  digits_agree zero (suc n) zero b p q = refl
  digits_agree zero zero zero b p q = refl

  bitwise_halves :
      (a b : ℕ)
      → bitwise z f (suc a) b ≡ bitwise z f (suc a / 2) (b / 2) * 2 + f (suc a % 2) (b % 2)
  bitwise_halves a b =
      rw (digits_agree a (suc a / 2) (suc a / 2) (b / 2) (omega arith) (omega arith)) refl

or_halves : (a b : ℕ) → bit_or a b ≡ bit_or (a / 2) (b / 2) * 2 + max (a % 2) (b % 2)
or_halves zero b = rw (bit_or-bitwise 0 b, bit_or-bitwise 0 (b / 2)) (omega arith)
or_halves (suc a) b = simp bit_or-bitwise (bitwise_halves (λ y. y) max a b)

and_halves : (a b : ℕ) → bit_and a b ≡ bit_and (a / 2) (b / 2) * 2 + min (a % 2) (b % 2)
and_halves zero b = rw (bit_and-bitwise 0 b, bit_and-bitwise 0 (b / 2)) (omega arith)
and_halves (suc a) b = simp bit_and-bitwise (bitwise_halves (λ y. 0) min a b)

double : (p k : ℕ) → p * 2 ^ suc k ≡ 2 * (p * 2 ^ k)
double p k = omega (arith, ap (λ (t : ℕ). p * t) (pow-suc 2 k))

-- Numbers cut at bit `k`: the operation works on both sides of the cut apart.
pub or_cut :
    (k p q r s : ℕ)
    → q < 2 ^ k
    → s < 2 ^ k
    → bit_or (p * 2 ^ k + q) (r * 2 ^ k + s) ≡ bit_or p r * 2 ^ k + bit_or q s
or_cut zero p zero r zero hq hs = ground arith
or_cut zero p (suc q) r s hq hs = absurd (omega arith)
or_cut zero p zero r (suc s) hq hs = absurd (omega arith)
or_cut (suc k) p q r s hq hs = ground (
  arith,
  or_halves (p * 2 ^ suc k + q) (r * 2 ^ suc k + s),
  or_halves q s,
  double p k,
  double r k,
  double (bit_or p r) k,
  pow-suc 2 k,
  or_cut k p (q / 2) r (s / 2),
)

pub and_cut :
    (k p q r s : ℕ)
    → q < 2 ^ k
    → s < 2 ^ k
    → bit_and (p * 2 ^ k + q) (r * 2 ^ k + s) ≡ bit_and p r * 2 ^ k + bit_and q s
and_cut zero p zero r zero hq hs = ground arith
and_cut zero p (suc q) r s hq hs = absurd (omega arith)
and_cut zero p zero r (suc s) hq hs = absurd (omega arith)
and_cut (suc k) p q r s hq hs = ground (
  arith,
  and_halves (p * 2 ^ suc k + q) (r * 2 ^ suc k + s),
  and_halves q s,
  double p k,
  double r k,
  double (bit_and p r) k,
  pow-suc 2 k,
  and_cut k p (q / 2) r (s / 2),
)

or_zero_below : (n a : ℕ) → a ≤ n → (bit_or a 0 ≡ a) × (bit_and a 0 ≡ 0)
or_zero_below n zero h = (refl, refl)
or_zero_below zero (suc a) h = absurd (omega arith)
or_zero_below (suc n) (suc a) h =
    let ih = or_zero_below n (suc a / 2) (omega arith) in
    (omega (arith, or_halves (suc a) 0, ih.0), omega (arith, and_halves (suc a) 0, ih.1))

pub or-zero : (a : ℕ) → bit_or a 0 ≡ a
or-zero a = (or_zero_below a a (omega arith)).0

pub and-zero : (a : ℕ) → bit_and a 0 ≡ 0
and-zero a = (or_zero_below a a (omega arith)).1

pub zero-or : (a : ℕ) → bit_or 0 a ≡ a
zero-or a = bit_or-bitwise 0 a

pub zero-and : (a : ℕ) → bit_and 0 a ≡ 0
zero-and a = bit_and-bitwise 0 a

-- A field put above or below a number that leaves its place free is added.
pub or_above : (k p q : ℕ) → q < 2 ^ k → bit_or (p * 2 ^ k) q ≡ p * 2 ^ k + q
or_above k p q h = ground (arith, or_cut k p 0 0 q, or-zero p, zero-or q, one-le-pow k 2)

pub or_below : (k p q : ℕ) → q < 2 ^ k → bit_or q (p * 2 ^ k) ≡ p * 2 ^ k + q
or_below k p q h = ground (arith, or_cut k 0 q p 0, zero-or p, or-zero q, one-le-pow k 2)

and_self_below : (k a : ℕ) → a < 2 ^ k → bit_and a (2 ^ k - 1) ≡ a
and_self_below zero a h = rw and-zero (omega arith)
and_self_below (suc k) a h =
    ground
      (arith, and_halves a (2 ^ suc k - 1), pow-suc 2 k, one-le-pow k 2, and_self_below k (a / 2))

-- A mask of `k` ones is the remainder by `2 ^ k`.
pub and_mask : (k a : ℕ) → bit_and a (2 ^ k - 1) ≡ a % 2 ^ k
and_mask k a = ground (
  arith,
  one-le-pow k 2,
  and_cut k (a / 2 ^ k) (a % 2 ^ k) 0 (2 ^ k - 1),
  and-zero (a / 2 ^ k),
  and_self_below k (a % 2 ^ k),
)
