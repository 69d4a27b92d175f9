-- ===== src/Btf/Monad.antt =====
-- The state of a `Btf` object, and the computations that change it or raise.
use koit.Base.{ℕ, Bool, true, false, ◌≡◌, arith, ◌↔◌, List, [], ◌∷◌, Result, ok, err, Error}
use koit.Base.Bytes.{Bytes}
use koit.Base.Dict.{Dict, Eq, same_bytes, same_bytes_iff}

-- The tuples `("int", name)` and so on under which `by_key` holds the types added once.
pub data Key : Type 0 where
  int_key fwd_key slot_key named_key : Bytes → Key

pub same_key : Key → Key → Bool
same_key (int_key a) (int_key b) = same_bytes a b
same_key (fwd_key a) (fwd_key b) = same_bytes a b
same_key (slot_key a) (slot_key b) = same_bytes a b
same_key (named_key a) (named_key b) = same_bytes a b
same_key _ _ = false

pub same_key_iff : (a b : Key) → (same_key a b ≡ true) ↔ (a ≡ b)
unfolding same_key
same_key_iff (int_key a) (int_key b) = ground (arith, same_bytes_iff a b)
same_key_iff (fwd_key a) (fwd_key b) = ground (arith, same_bytes_iff a b)
same_key_iff (slot_key a) (slot_key b) = ground (arith, same_bytes_iff a b)
same_key_iff (named_key a) (named_key b) = ground (arith, same_bytes_iff a b)
same_key_iff (int_key a) (fwd_key b) = ground arith
same_key_iff _ _ = ground arith

instance abbrev pub key_eq : Eq Key
key_eq = record { beq = same_key; beq_iff = same_key_iff }

-- A type is its record of twelve bytes and the bytes that follow it.
pub record Btf : Type 0 where
  pub types : List (Bytes × Bytes)
  pub strings : Bytes
  pub by_key : Dict Key ℕ

-- `Btf()`
abbrev pub new : Btf
new = record { types = []; strings = 0 ∷ []; by_key = [] }

-- A method returns its result and the new state, or raises. Nothing catches an exception and uses
-- the object afterwards, so that the state where it was raised is dropped.
abbrev pub M : Type 0 → Type 0
M A = Btf → Result (A × Btf)

abbrev bind_result : {A B : Type 0} → Result (A × Btf) → (A → M B) → Result (B × Btf)
bind_result (ok (a, s)) f = f a s
bind_result (err e) f = err e

infixl 5 ◌>>=◌ ◌>>◌
abbrev pub ◌>>=◌ : {A B : Type 0} → M A → (A → M B) → M B
◌>>=◌ m f s = bind_result (m s) f

abbrev pub ◌>>◌ : {A B : Type 0} → M A → M B → M B
◌>>◌ m k s = bind_result (m s) (λ _. k)

abbrev pub return : {A : Type 0} → A → M A
return a s = ok (a, s)

abbrev pub raise : {A : Type 0} → Error → M A
raise e s = err e

-- A computation that does not touch the object.
abbrev pub lift : {A : Type 0} → Result A → M A
lift (ok a) s = ok (a, s)
lift (err e) s = err e
