-- ===== src/Document/Tests.antt =====
-- A name that stands for a name that stands for `u8`; two maps.
use native.Mathlib.Omega.{arith}
use koit.Base.{
  ℕ, ◌≡◌, sym, true, false, some, none, [], ◌∷◌, ◌⊎◌, inl, inr, Bool-cases, ◌<◌, if◌then◌else◌,
}
use koit.Base.Bytes.{Bytes}
use koit.Base.Dict.{get, bytes_eq, same_bytes}
use koit.Base.Text.{text}
use koit.Document.{MapDecl, hash, ro}
use koit.Document.Laws.{IsRank, Ends, resolve-Ends}
use koit.Document.Layout.{Types, resolve, int, named}

abbrev types : Types
types = (text "id", named (text "byte")) ∷ ((text "byte", int false 8) ∷ [])

abbrev rank : Bytes → ℕ
rank n = if same_bytes (text "id") n then 1 else 0

types-IsRank : IsRank types rank
unfolding get same_bytes
types-IsRank = record { bounded = λ n. ground arith; lower = λ n m e. lower n m e (Bool-cases _) }
  where
    lower :
        (n m : Bytes)
        → get types n ≡ some (named m)
        → (same_bytes (text "id") n ≡ true) ⊎ (same_bytes (text "id") n ≡ false)
        → rank m < rank n
    lower n m e (inl is_id) =
        let byte : named (text "byte") ≡ named m = ground (arith, is_id, e) in
        let same : text "byte" ≡ m = cc in rw (is_id, sym same) (omega arith)
    lower n m e (inr other) = absurd (ground (arith, other, e))

resolve-Ends_example : Ends (resolve types (named (text "id")))
resolve-Ends_example = resolve-Ends types rank types-IsRank (named (text "id"))

abbrev counts : MapDecl
counts = record {
  name = text "counts";
  kind = hash;
  type_id = 1;
  key = some (int false 32);
  key_size = 4;
  value = some (int false 64);
  value_size = 8;
  entries = 16;
  flags = 0;
  access = ro;
  contents = [];
  direct = false;
  programs = [];
  spin_lock = none;
}
