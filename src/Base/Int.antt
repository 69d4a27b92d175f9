-- ===== src/Base/Int.antt =====
-- Python's integers where they can be negative: the library's shape over the native numbers.
use koit.Base.{ℕ, suc, ◌≡◌, ◌↔◌, arith, Bool, true, false, ◌∷◌, ◌==◌}
use koit.Base.Bytes.{Bytes}
use koit.Base.Text.{decimal}

-- `negsuc n` is -(n + 1).
pub data ℤ : Type 0 where
  pos : ℕ → ℤ
  negsuc : ℕ → ℤ

unfoldable pub same_int : ℤ → ℤ → Bool
same_int (pos a) (pos b) = a == b
same_int (negsuc a) (negsuc b) = a == b
same_int _ _ = false

pub same_int_iff : (a b : ℤ) → (same_int a b ≡ true) ↔ (a ≡ b)
unfolding same_int
same_int_iff (pos a) (pos b) = ground arith
same_int_iff (negsuc a) (negsuc b) = ground arith
same_int_iff (pos a) (negsuc b) = ground arith
same_int_iff (negsuc a) (pos b) = ground arith

-- `str(n)`
unfoldable pub str : ℤ → Bytes
str (pos n) = decimal n
str (negsuc n) = b'-' ∷ decimal (suc n)
