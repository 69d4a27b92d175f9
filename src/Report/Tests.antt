-- ===== src/Report/Tests.antt =====
-- The verdicts of a program with an `i32` result.
use koit.Base.{◌≡◌, arith, List, [], ◌∷◌, ok}
use koit.Base.Bytes.{Bytes}
use koit.Base.Int.{ℤ, pos, negsuc}
use koit.Base.Text.{text}
use koit.Report.{signed_value}
use koit.Report.Laws.{IsSigned, signed_value-IsSigned}

signed_value-IsSigned_example :
    (v : ℤ) × (signed_value 32 0xffffffff ≡ ok v) × IsSigned 32 0xffffffff v
signed_value-IsSigned_example = signed_value-IsSigned 32 0xffffffff (omega arith)

abbrev verdicts : List (Bytes × ℤ)
verdicts = (text "drop", negsuc 0) ∷ ((text "pass", pos 2) ∷ [])
