-- ===== src/Load/Records.antt =====
-- The reader of a ring buffer returns the records that were submitted, and passes the discarded ones.
use koit.Base.{
  ℕ, zero, suc, ◌+◌, ◌-◌, ◌*◌, ◌%◌, ◌^◌, ◌≤◌, ◌<◌, ◌≡◌, refl, ap, ◌∙◌, arith, true, false, List, [],
  ◌∷◌, length, slice, bit_and, bit_or, ltb, ◌==◌, if◌then◌else◌, Result, ok,
}
use koit.Base.Bits.{and_not, ◌<<<◌, and_cut, and_mask, and-zero}
use koit.Base.Bytes.{Bytes, unpack_from}
use koit.Load.{record_size, ringbuf_round, ringbuf_loop, ringbuf_records}

-- A record of `len` bytes at `pos` reaches to `next`: its header of eight bytes and the bytes, filled up
-- to a multiple of eight.
abbrev pub Reaches : ℕ → ℕ → ℕ → Type 0
Reaches pos len next =
    (eights : ℕ) × (next ≡ pos + 8 * eights) × (8 + len ≤ 8 * eights) × (8 * eights < 16 + len)

Reaches-record_size : (pos len next : ℕ) → Reaches pos len next → pos + record_size len ≡ next
unfolding record_size
Reaches-record_size pos len next (eights, at, reach, near) = omega (arith, at, reach, near)

Reaches-lt : (pos len next : ℕ) → Reaches pos len next → pos < next
Reaches-lt pos len next (eights, at, reach, near) = omega (arith, at, reach)

-- From one position to another the pages hold records: a header with the length, or with the length
-- and the discard bit, and the bytes behind it.
pub data Queue (page size : ℕ) (data' : Bytes) : ℕ → List Bytes → ℕ → Type 0 where
  nothing : (pos : ℕ) → Queue page size data' pos [] pos
  submitted :
      (pos next prod_pos : ℕ) (r : Bytes) (rs : List Bytes)
      → length r < 2 ^ 30
      → unpack_from 4 data' (page + pos % size) ≡ ok (length r)
      → slice data' (page + pos % size + 8) (page + pos % size + 8 + length r) ≡ r
      → Reaches pos (length r) next
      → Queue page size data' next rs prod_pos
      → Queue page size data' pos (r ∷ rs) prod_pos
  discarded :
      (pos next prod_pos len : ℕ) (rs : List Bytes)
      → len < 2 ^ 30
      → unpack_from 4 data' (page + pos % size) ≡ ok (2 ^ 30 + len)
      → Reaches pos len next
      → Queue page size data' next rs prod_pos
      → Queue page size data' pos rs prod_pos

header_bits :
    (flag len : ℕ)
    → len < 2 ^ 30
    → flag < 2
    → (bit_and (flag * 2 ^ 30 + len) (1 <<< 31) ≡ 0)
      × (bit_and (flag * 2 ^ 30 + len) (1 <<< 30) ≡ flag * 2 ^ 30)
      × (bit_and (and_not (flag * 2 ^ 30 + len) (bit_or (1 <<< 31) (1 <<< 30))) 0xffffffff ≡ len)
header_bits zero len h f =
    let a = and_cut 30 0 len 2 0 h (omega arith) in
    let b = and_cut 30 0 len 1 0 h (omega arith) in
    let c = and_cut 30 0 len 3 0 h (omega arith) in
    (
      ground (arith, a, and-zero len),
      ground (arith, b, and-zero len),
      ground (arith, c, and-zero len, and_mask 32 len),
    )
header_bits (suc zero) len h f =
    let a = and_cut 30 1 len 2 0 h (omega arith) in
    let b = and_cut 30 1 len 1 0 h (omega arith) in
    let c = and_cut 30 1 len 3 0 h (omega arith) in
    (
      ground (arith, a, and-zero len),
      ground (arith, b, and-zero len),
      ground (arith, c, and-zero len, and_mask 32 len),
    )
header_bits (suc (suc flag)) len h f = absurd (omega arith)

Queue-le :
    {page size : ℕ} {data' : Bytes} {pos prod_pos : ℕ} {rs : List Bytes}
    → Queue page size data' pos rs prod_pos
    → pos ≤ prod_pos
Queue-le (nothing pos) = omega arith
Queue-le (submitted pos next prod_pos r rs small found at span queue) =
    omega (arith, Reaches-lt pos (length r) next span, Queue-le queue)
Queue-le (discarded pos next prod_pos len rs small found span queue) =
    omega (arith, Reaches-lt pos len next span, Queue-le queue)

abbrev shown : ℕ → Bytes → List Bytes → ℕ → Result (List Bytes × ℕ)
shown flag r rs end = if flag == 0 then ok (r ∷ rs, end) else ok (rs, end)

shown-shift :
    (flag end : ℕ) (r : Bytes) (rs : List Bytes)
    → flag < 2
    → shown (flag * 2 ^ 30) r rs end ≡ shown flag r rs end
shown-shift zero end r rs h = refl
shown-shift (suc zero) end r rs h = refl
shown-shift (suc (suc flag)) end r rs h = absurd (omega arith)

-- A round of the loop at a record that is not being written.
round_at :
    (page size : ℕ) (data' : Bytes) (pos flag len end : ℕ) (rs : List Bytes)
    (next : ℕ → Result (List Bytes × ℕ))
    → 0 < size
    → len < 2 ^ 30
    → flag < 2
    → unpack_from 4 data' (page + pos % size) ≡ ok (flag * 2 ^ 30 + len)
    → next (pos + record_size len) ≡ ok (rs, end)
    → ringbuf_round page size data' pos next
      ≡ shown flag (slice data' (page + pos % size + 8) (page + pos % size + 8 + len)) rs end
unfolding ringbuf_round
round_at page size data' pos flag len end rs next size_lt small f found onward =
    let bits = header_bits flag len small f in
    let positive : size == 0 ≡ false = ground arith in
    rw (positive, found, bits.0, bits.2, onward, bits.1) (shown-shift flag end _ rs f)

ringbuf_loop-Queue :
    (fuel page size : ℕ) (data' : Bytes) {pos prod_pos : ℕ} {rs : List Bytes}
    → 0 < size
    → prod_pos ≤ pos + fuel
    → Queue page size data' pos rs prod_pos
    → ringbuf_loop fuel page size data' pos prod_pos ≡ ok (rs, prod_pos)
unfolding ringbuf_loop
ringbuf_loop-Queue zero page size data' size_lt enough (nothing pos) =
    let done : ltb pos pos ≡ false = ground arith in rw done refl
ringbuf_loop-Queue (suc fuel) page size data' size_lt enough (nothing pos) =
    let done : ltb pos pos ≡ false = ground arith in rw done refl
ringbuf_loop-Queue zero page size data' size_lt enough
      (submitted pos next prod_pos r rs small found at span queue) =
    absurd (omega (arith, enough, Reaches-lt pos (length r) next span, Queue-le queue))
ringbuf_loop-Queue zero page size data' size_lt enough
      (discarded pos next prod_pos len rs small found span queue) =
    absurd (omega (arith, enough, Reaches-lt pos len next span, Queue-le queue))
ringbuf_loop-Queue (suc fuel) page size data' size_lt enough
      (submitted pos next prod_pos r rs small found at span queue) =
    let more : ltb pos prod_pos ≡ true =
      ground (arith, Reaches-lt pos (length r) next span, Queue-le queue) in
    let rest =
      ringbuf_loop-Queue fuel page size data' size_lt
        (omega (arith, enough, Reaches-lt pos (length r) next span)) queue in
    let plain : length r ≡ 0 * 2 ^ 30 + length r = omega arith in
    rw more (
      round_at page size data' pos 0 (length r) prod_pos rs
        (λ n. ringbuf_loop fuel page size data' n prod_pos) size_lt small (omega arith)
        (found ∙ ap (λ (n : ℕ). ok n) plain)
        (ap (λ n. ringbuf_loop fuel page size data' n prod_pos)
            (Reaches-record_size pos (length r) next span)
          ∙ rest)
      ∙ ap (λ (b : Bytes). ok (b ∷ rs, prod_pos)) at)
ringbuf_loop-Queue (suc fuel) page size data' size_lt enough
      (discarded pos next prod_pos len rs small found span queue) =
    let more : ltb pos prod_pos ≡ true =
      ground (arith, Reaches-lt pos len next span, Queue-le queue) in
    let rest =
      ringbuf_loop-Queue fuel page size data' size_lt
        (omega (arith, enough, Reaches-lt pos len next span)) queue in
    rw more (
      round_at page size data' pos 1 len prod_pos rs
        (λ n. ringbuf_loop fuel page size data' n prod_pos) size_lt small (omega arith) found
        (ap (λ n. ringbuf_loop fuel page size data' n prod_pos)
            (Reaches-record_size pos len next span)
          ∙ rest))

-- For a size that is not 0, where the pages hold records from the consumer's position to the
-- producer's, each shorter than 2^30 bytes, submitted or discarded, `ringbuf_records` returns
-- exactly the submitted ones, in order, and leaves the consumer at the producer's position.
pub ringbuf_records-Queue :
    (page size : ℕ) (cons data' : Bytes) (start prod_pos : ℕ) (rs : List Bytes)
    → 0 < size
    → unpack_from 8 cons 0 ≡ ok start
    → unpack_from 8 data' 0 ≡ ok prod_pos
    → Queue page size data' start rs prod_pos
    → ringbuf_records page size cons data' ≡ ok (rs, prod_pos)
unfolding ringbuf_records
ringbuf_records-Queue page size cons data' start prod_pos rs size_lt at_start at_end queue =
    rw (at_end, at_start)
      (ringbuf_loop-Queue (prod_pos - start) page size data' size_lt (omega arith) queue)
