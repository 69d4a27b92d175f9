-- ===== src/Base/Bytes.antt =====
-- Byte strings, and what the tools use of Python's `struct`: little-endian fields with no padding
-- (the `<` of every format string). A field of `w` bytes that its number does not fit is
-- `struct.error`; so is a read past the end of the buffer. A text is its UTF-8 bytes.
use koit.Base.{
  ◌≤◌, >>=-eq-ok, get_elem?, ℕ, zero, suc, ◌+◌, ◌-◌, ◌*◌, ◌/◌, ◌%◌, ◌^◌, ◌≤◌, ◌<◌, ◌≡◌, refl, ap,
  ◌∙◌, arith, Bool, true, false, ◌&&◌, Option, none, some, List, [], ◌∷◌, ◌++◌, length, take, drop,
  All, slice, ltb, ◌==◌, if◌then◌else◌, lt→ltb, Result, ok, err, ◌>>=◌, struct_error, take-append,
  drop-append, length-append, append_assoc, ◌≢◌, sym,
}
use mathlib.Core.Option
use native.Mathlib.Nat.{pow-suc}

abbrev pub Bytes : Type 0
Bytes = List ℕ

abbrev pub IsByte : ℕ → Type 0
IsByte b = b < 256

abbrev pub NoByte : ℕ → Bytes → Type 0
NoByte c s = All (λ x. x ≢ c) s

-- The `w` bytes of a number, lowest first, and the number of such bytes.
unfoldable pub le_bytes : ℕ → ℕ → Bytes
le_bytes zero n = []
le_bytes (suc w) n = (n % 256) ∷ le_bytes w (n / 256)

unfoldable pub of_le : Bytes → ℕ
of_le [] = 0
of_le (b ∷ bs) = b + 256 * of_le bs

-- `struct.pack` of one unsigned field of `w` bytes.
unfoldable pub pack : ℕ → ℕ → Result Bytes
pack w n = if ltb n (256 ^ w) then ok (le_bytes w n) else err struct_error

-- `struct.pack` of several fields, each a width and a value.
unfoldable pub pack_all : List (ℕ × ℕ) → Result Bytes
pack_all [] = ok []
pack_all ((w, n) ∷ fields) = do b ← pack w n; rest ← pack_all fields; ok (b ++ rest)

-- `b"".join(struct.pack(...) for ...)`
unfoldable pub pack_rows : List (List (ℕ × ℕ)) → Result Bytes
pack_rows [] = ok []
pack_rows (row ∷ rows) = do b ← pack_all row; rest ← pack_rows rows; ok (b ++ rest)

-- `struct.unpack_from` of one unsigned field of `w` bytes.
unfoldable pub unpack_from : ℕ → Bytes → ℕ → Result ℕ
unpack_from w blob pos =
    if ltb (length blob) (pos + w) then err struct_error else ok (of_le (take w (drop pos blob)))

pub length-le_bytes : (w n : ℕ) → length (le_bytes w n) ≡ w
unfolding le_bytes
length-le_bytes zero n = refl
length-le_bytes (suc w) n = ap suc (length-le_bytes w (n / 256))

pub le_bytes-IsByte : (w n : ℕ) → All IsByte (le_bytes w n)
unfolding le_bytes
le_bytes-IsByte zero n = tt
le_bytes-IsByte (suc w) n = (omega arith, le_bytes-IsByte w (n / 256))

pub of_le-le_bytes : (w n : ℕ) → n < 256 ^ w → of_le (le_bytes w n) ≡ n
unfolding le_bytes of_le
of_le-le_bytes zero n h = omega arith
of_le-le_bytes (suc w) n h =
    omega (arith, pow-suc 256 w, of_le-le_bytes w (n / 256) (omega (arith, pow-suc 256 w)))

pub pack_ok : (w n : ℕ) → n < 256 ^ w → pack w n ≡ ok (le_bytes w n)
unfolding pack
pack_ok w n h = rw (lt→ltb _ _ h)

-- `pack` succeeds exactly on what fits, and its bytes are those of the number.
pub pack-eq-ok : (w n : ℕ) {b : Bytes} → pack w n ≡ ok b → (n < 256 ^ w) × (b ≡ le_bytes w n)
unfolding pack
pack-eq-ok w n h = ground arith

-- The bytes written at `pos` are read back there, whatever stands before and behind.
pub unpack_from_lem :
    (w n : ℕ) (before after : Bytes)
    → n < 256 ^ w
    → unpack_from w (before ++ (le_bytes w n ++ after)) (length before) ≡ ok n
unfolding unpack_from
unpack_from_lem w n before after h =
    let fits : ltb (length (before ++ (le_bytes w n ++ after))) (length before + w) ≡ false =
      ground (
        arith,
        length-append before (le_bytes w n ++ after),
        length-append (le_bytes w n) after,
        length-le_bytes w n,
      ) in
    rw (fits, drop-append before (le_bytes w n ++ after)) (ap ok (front ∙ of_le-le_bytes w n h))
  where
    front : of_le (take w (le_bytes w n ++ after)) ≡ of_le (le_bytes w n)
    front =
        ap (λ (k : ℕ). of_le (take k (le_bytes w n ++ after))) (sym (length-le_bytes w n))
        ∙ ap of_le (take-append (le_bytes w n) after)

-- `b in xs`, by position: where the byte `b` stands first.
unfoldable pub index_of_byte : ℕ → Bytes → Option ℕ
index_of_byte b [] = none
index_of_byte b (x ∷ xs) = if x == b then some 0 else Option.map suc (index_of_byte b xs)

unfoldable pub starts_with : Bytes → Bytes → Bool
starts_with [] xs = true
starts_with (p ∷ ps) [] = false
starts_with (p ∷ ps) (x ∷ xs) = x == p && starts_with ps xs

-- `xs.find(needle)`, `none` for -1.
unfoldable pub find : Bytes → Bytes → Option ℕ
find needle [] = if starts_with needle [] then some 0 else none
find needle (x ∷ xs) =
    if starts_with needle (x ∷ xs) then some 0 else Option.map suc (find needle xs)

-- A C string has no NUL byte inside.
abbrev pub NoNul : Bytes → Type 0
NoNul = All (λ (b : ℕ). b ≢ 0)

pub index_of_byte-append :
    (s rest : Bytes) → NoNul s → index_of_byte 0 (s ++ (0 ∷ rest)) ≡ some (length s)
unfolding index_of_byte
index_of_byte-append [] rest h = refl
index_of_byte-append (x ∷ s) rest h = ground (arith, index_of_byte-append s rest h.1)

pub starts_with-append : (p xs : Bytes) → starts_with p (p ++ xs) ≡ true
unfolding starts_with
starts_with-append [] xs = refl
starts_with-append (x ∷ p) xs = ground (arith, starts_with-append p xs)

pub starts_with-eq-true : (p xs : Bytes) → starts_with p xs ≡ true → xs ≡ p ++ drop (length p) xs
unfolding starts_with
starts_with-eq-true [] xs h = refl
starts_with-eq-true (x ∷ p) [] h = cc
starts_with-eq-true (x ∷ p) (y ∷ xs) h = ground (arith, starts_with-eq-true p xs)

-- A hit of `find` is an occurrence.
pub find-eq-some :
    (needle xs : Bytes) (i : ℕ) → find needle xs ≡ some i → starts_with needle (drop i xs) ≡ true
unfolding find
find-eq-some needle [] zero h = ground arith
find-eq-some needle [] (suc i) h = ground arith
find-eq-some needle (x ∷ xs) zero h = ground arith
find-eq-some needle (x ∷ xs) (suc i) h = ground (arith, find-eq-some needle xs i)

-- The same with the blob and the position given by equations.
pub unpack_at :
    (w n : ℕ) {blob : Bytes} {pos : ℕ} (before after : Bytes)
    → blob ≡ before ++ (le_bytes w n ++ after)
    → pos ≡ length before
    → n < 256 ^ w
    → unpack_from w blob pos ≡ ok n
unpack_at w n before after e p h = rw (e, p) (unpack_from_lem w n before after h)

-- The bytes of several fields that fit.
abbrev pub field_bytes : List (ℕ × ℕ) → Bytes
field_bytes [] = []
field_bytes ((w, n) ∷ fields) = le_bytes w n ++ field_bytes fields

abbrev pub Fit : List (ℕ × ℕ) → Type 0
Fit [] = Unit
Fit ((w, n) ∷ fields) = (n < 256 ^ w) × Fit fields

pub pack_all_ok : (fields : List (ℕ × ℕ)) → Fit fields → pack_all fields ≡ ok (field_bytes fields)
unfolding pack_all
pack_all_ok [] h = refl
pack_all_ok ((w, n) ∷ fields) h = rw (pack_ok w n h.0, pack_all_ok fields h.1) refl

-- The part `xs` of a longer list is its slice.
pub slice_at {ℓ} :
    {A : Type ℓ} (before xs after : List A) (pos end : ℕ)
    → pos ≡ length before
    → end ≡ pos + length xs
    → slice (before ++ (xs ++ after)) pos end ≡ xs
slice_at before xs after pos end p e =
    rw (e, p, drop-append before (xs ++ after))
      (sized (length before) (length xs) ∙ take-append xs after)
  where
    sized : (b n : ℕ) → take (b + n - b) (xs ++ after) ≡ take n (xs ++ after)
    sized b n = ap (λ (k : ℕ). take k (xs ++ after)) (omega arith)

pub pack_all-eq-ok :
    (fields : List (ℕ × ℕ)) {b : Bytes}
    → pack_all fields ≡ ok b
    → Fit fields × (b ≡ field_bytes fields)
unfolding pack_all
pack_all-eq-ok [] h = (tt, cc)
pack_all-eq-ok ((w, n) ∷ fields) h =
    let (b, first, h1) = >>=-eq-ok (pack w n) _ h in
    let (rest, later, h2) = >>=-eq-ok (pack_all fields) _ h1 in
    let p = pack-eq-ok w n first in
    let q = pack_all-eq-ok fields later in ((p.0, q.0), cc (p.1, q.1))

-- The widths of the first `k` fields together.
abbrev pub widths : ℕ → List (ℕ × ℕ) → ℕ
widths zero fields = 0
widths (suc k) [] = 0
widths (suc k) ((w, n) ∷ fields) = w + widths k fields

pub length-field_bytes :
    (fields : List (ℕ × ℕ)) → length (field_bytes fields) ≡ widths (length fields) fields
length-field_bytes [] = refl
length-field_bytes ((w, n) ∷ fields) = omega (
  arith,
  length-append {0} (le_bytes w n) (field_bytes fields),
  length-le_bytes w n,
  length-field_bytes fields,
)

-- Field `k` of packed fields is read back behind the fields before it.
pub read_field :
    (fields : List (ℕ × ℕ)) (k w n : ℕ) (before after : Bytes) {blob : Bytes} {pos : ℕ}
    → get_elem? fields k ≡ some (w, n)
    → Fit fields
    → blob ≡ before ++ (field_bytes fields ++ after)
    → pos ≡ length before + widths k fields
    → unpack_from w blob pos ≡ ok n
read_field [] k w n before after at fit b p = cc
read_field ((v, m) ∷ fields) zero w n before after at fit b p =
    let width : v ≡ w = cc in
    let value : m ≡ n = cc in
    rw (← width, ← value)
      (unpack_at v m before (field_bytes fields ++ after)
        (b ∙ ap (λ xs. before ++ xs) (append_assoc (le_bytes v m) (field_bytes fields) after))
        (omega (arith, p)) fit.0)
read_field ((v, m) ∷ fields) (suc k) w n before after at fit b p =
    read_field fields k w n (before ++ le_bytes v m) after at fit.1 (b ∙ simp append_assoc)
      (omega (arith, p, length-append {0} before (le_bytes v m), length-le_bytes v m))

-- `take (length xs)` where `xs` begins.
pub take_at :
    (before xs after : Bytes) (pos : ℕ)
    → pos ≡ length before
    → take (length xs) (drop pos (before ++ (xs ++ after))) ≡ xs
take_at before xs after pos p =
    ap (λ (k : ℕ). take (length xs) (drop k (before ++ (xs ++ after)))) p
    ∙ ap (take (length xs)) (drop-append before (xs ++ after))
    ∙ take-append xs after

pub drop-append_ge :
    (front xs : Bytes) (a : ℕ)
    → length front ≤ a
    → drop a (front ++ xs) ≡ drop (a - length front) xs
drop-append_ge [] xs a h = ap (λ (k : ℕ). drop k xs) (omega arith)
drop-append_ge (x ∷ front) xs zero h = absurd (omega arith)
drop-append_ge (x ∷ front) xs (suc a) h =
    drop-append_ge front xs a (omega arith) ∙ ap (λ (k : ℕ). drop k xs) (omega arith)
