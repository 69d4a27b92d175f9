-- ===== src/Base/Raised.antt =====
-- Runs that the bound on a loop does not cut off: they return, or raise what Python raises.
use koit.Base.{
  ℕ, ◌≡◌, ◌≢◌, refl, arith, Bool, true, false, Result, ok, err, Error, check, ◌>>=◌, out_of_fuel,
}
use koit.Base.Bytes.{Bytes, unpack_from}

-- The error is one that Python raises.
abbrev pub Raised : {A : Type 0} → Result A → Type 0
Raised r = r ≢ err out_of_fuel

pub bind-Raised :
    {A B : Type 0} (m : Result A) (f : A → Result B)
    → Raised m
    → ((a : A) → m ≡ ok a → Raised (f a))
    → Raised (m >>= f)
bind-Raised (ok a) f h k = k a refl
bind-Raised (err e) f h k = λ x. h (cc)

pub unpack-Raised : (n : ℕ) (bytes : Bytes) (pos : ℕ) → Raised (unpack_from n bytes pos)
unfolding unpack_from
unpack-Raised n bytes pos = ground arith

pub check-Raised : (b : Bool) (e : Error) → e ≢ out_of_fuel → Raised (check b e)
check-Raised true e h = λ x. cc
check-Raised false e h = λ x. h (cc)
