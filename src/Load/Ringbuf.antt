-- ===== src/Load/Ringbuf.antt =====
-- The reader of a ring buffer ends, at the producer or at a record that is still being written.
use koit.Base.{
  ℕ, zero, suc, ◌+◌, ◌-◌, ◌%◌, ◌≤◌, ◌<◌, ◌≡◌, ◌≢◌, refl, sym, ap, ◌∙◌, ◌⊎◌, inl, inr, arith, Bool,
  true, false, not, Bool-cases, List, [], ◌∷◌, slice, bit_and, bit_or, ltb, ◌==◌, if◌then◌else◌,
  Result, ok, err, ◌>>=◌, >>=-eq-ok, check, zero_division_error, out_of_fuel,
}
use koit.Base.Bits.{and_not, ◌<<<◌}
use koit.Base.Bytes.{Bytes, unpack_from}
use koit.Base.Raised.{Raised, bind-Raised, check-Raised, unpack-Raised}
use koit.Load.{record_size, ringbuf_round, ringbuf_loop, ringbuf_records}

-- Where the reader stops: not before its start, and at the producer's position or at a record that
-- is still being written.
pub record IsDrained (page size : ℕ) (data' : Bytes) (start prod_pos end : ℕ) : Type 0 where
  pub forward : start ≤ end
  pub stopped :
      (prod_pos ≤ end)
      ⊎ ((hdr : ℕ) × (unpack_from 4 data' (page + end % size) ≡ ok hdr)
          × (bit_and hdr (1 <<< 31) ≢ 0))

abbrev at_rest : List Bytes → ℕ → Result (List Bytes × ℕ)
at_rest records end = ok (records, end)

-- A round that succeeds stops at a record that is being written, or goes on behind one.
abbrev Rounds : ℕ → ℕ → Bytes → ℕ → (ℕ → Result (List Bytes × ℕ)) → ℕ → Type 0
Rounds page size data' cons_pos next end =
    ((cons_pos ≡ end)
      × (hdr : ℕ) × (unpack_from 4 data' (page + cons_pos % size) ≡ ok hdr)
      × (bit_and hdr (1 <<< 31) ≢ 0))
    ⊎ ((pos : ℕ) × (more : List Bytes) × (cons_pos < pos) × (next pos ≡ ok (more, end)))

pub record_size-lt : (pos len : ℕ) → pos < pos + record_size len
unfolding record_size
record_size-lt pos len = omega arith

same_end :
    (kept : Bool) (xs ys : List Bytes) (e end : ℕ) (records : List Bytes)
    → (if kept then at_rest xs e else at_rest ys e) ≡ at_rest records end
    → e ≡ end
same_end true xs ys e end records h = cc
same_end false xs ys e end records h = cc

ringbuf_round-eq-ok :
    (page size : ℕ) (data' : Bytes) (cons_pos end : ℕ) (records : List Bytes)
    (next : ℕ → Result (List Bytes × ℕ))
    → ringbuf_round page size data' cons_pos next ≡ ok (records, end)
    → Rounds page size data' cons_pos next end
unfolding ringbuf_round
ringbuf_round-eq-ok page size data' cons_pos end records next h =
    let (c, e1, h1) = >>=-eq-ok (check (not (size == 0)) zero_division_error) _ h in
    let (hdr, e2, h2) = >>=-eq-ok (unpack_from 4 data' (page + cons_pos % size)) _ h1 in
    elim (Bool-cases (bit_and hdr (1 <<< 31) == 0)) [
      | inr busy ↦
          let stop : at_rest [] cons_pos ≡ at_rest records end = sym (rw busy refl) ∙ h2 in
          inl (cc, hdr, e2, λ z. ground (arith, busy, z))
      | inl free ↦
          let len = bit_and (and_not hdr (bit_or (1 <<< 31) (1 <<< 30))) 0xffffffff in
          let go : (next (cons_pos + record_size len) >>= keep hdr len) ≡ ok (records, end) =
            sym (rw free refl) ∙ h2 in
          let ((more, e), onward, h3) = >>=-eq-ok (next (cons_pos + record_size len)) _ go in
          let same : e ≡ end = same_end (bit_and hdr (1 <<< 30) == 0) _ more e end records h3 in
          inr (
            cons_pos + record_size len,
            more,
            record_size-lt cons_pos len,
            onward ∙ ap (at_rest more) same,
          )
    ]
  where
    keep : ℕ → ℕ → List Bytes × ℕ → Result (List Bytes × ℕ)
    keep hdr len (more, end) =
        let off = cons_pos % size in
        if bit_and hdr (1 <<< 30) == 0
        then ok (slice data' (page + off + 8) (page + off + 8 + len) ∷ more, end)
        else ok (more, end)

ringbuf_loop-IsDrained :
    (fuel page size : ℕ) (data' : Bytes) (cons_pos prod_pos end : ℕ) (records : List Bytes)
    → ringbuf_loop fuel page size data' cons_pos prod_pos ≡ ok (records, end)
    → IsDrained page size data' cons_pos prod_pos end
unfolding ringbuf_loop
ringbuf_loop-IsDrained zero page size data' cons_pos prod_pos end records h =
    elim (Bool-cases (ltb cons_pos prod_pos)) [
      | inl more ↦ absurd (ground (arith, more, h))
      | inr done ↦
          let same : cons_pos ≡ end =
            (let rest : at_rest [] cons_pos ≡ at_rest records end = sym (rw done refl) ∙ h in cc) in
          record { forward = omega (arith, same); stopped = inl (ground (arith, done, same)) }
    ]
ringbuf_loop-IsDrained (suc fuel) page size data' cons_pos prod_pos end records h =
    elim (Bool-cases (ltb cons_pos prod_pos)) [
      | inr done ↦
          let same : cons_pos ≡ end =
            (let rest : at_rest [] cons_pos ≡ at_rest records end = sym (rw done refl) ∙ h in cc) in
          record { forward = omega (arith, same); stopped = inl (ground (arith, done, same)) }
      | inl more ↦
          let onward = λ (pos : ℕ). ringbuf_loop fuel page size data' pos prod_pos in
          let once : ringbuf_round page size data' cons_pos onward ≡ ok (records, end) =
            sym (rw more refl) ∙ h in
          elim (ringbuf_round-eq-ok page size data' cons_pos end records onward once) [
            | inl (same, hdr, found, busy) ↦ record {
              forward = omega (arith, same);
              stopped = inr (
                hdr,
                ap (λ (p : ℕ). unpack_from 4 data' (page + p % size)) (sym same) ∙ found,
                busy,
              );
            }
            | inr (pos, rest, further, later) ↦
                let d = ringbuf_loop-IsDrained fuel page size data' pos prod_pos end rest later in
                record { forward = omega (arith, d.forward, further); stopped = d.stopped }
          ]
    ]

-- If `ringbuf_records` returns, the position where it leaves the consumer is not before the
-- consumer's, and it is at or behind the producer's, or at a record whose header has the busy
-- bit.
pub ringbuf_records-IsDrained :
    (page size : ℕ) (cons data' : Bytes) (records : List Bytes) (end : ℕ)
    → ringbuf_records page size cons data' ≡ ok (records, end)
    → (start : ℕ) × (prod_pos : ℕ) × (unpack_from 8 cons 0 ≡ ok start)
      × (unpack_from 8 data' 0 ≡ ok prod_pos)
      × IsDrained page size data' start prod_pos end
unfolding ringbuf_records
ringbuf_records-IsDrained page size cons data' records end h =
    let (prod_pos, e1, h1) = >>=-eq-ok (unpack_from 8 data' 0) _ h in
    let (start, e2, h2) = >>=-eq-ok (unpack_from 8 cons 0) _ h1 in
    (
      start,
      prod_pos,
      e2,
      e1,
      ringbuf_loop-IsDrained (prod_pos - start) page size data' start prod_pos end records h2,
    )

either_Raised :
    (b : Bool) (r s : Result (List Bytes × ℕ)) → Raised r → Raised s → Raised (if b then r else s)
either_Raised true r s h k = h
either_Raised false r s h k = k

ringbuf_loop-Raised :
    (fuel page size : ℕ) (data' : Bytes) (cons_pos prod_pos : ℕ)
    → prod_pos ≤ cons_pos + fuel
    → Raised (ringbuf_loop fuel page size data' cons_pos prod_pos)
unfolding ringbuf_loop ringbuf_round
ringbuf_loop-Raised zero page size data' cons_pos prod_pos enough = ground arith
ringbuf_loop-Raised (suc fuel) page size data' cons_pos prod_pos enough =
    elim (Bool-cases (ltb cons_pos prod_pos)) [
      | inr done ↦ rw done (λ x. cc)
      | inl more ↦ rw more (
          bind-Raised _ _ (check-Raised (not (size == 0)) zero_division_error (λ x. cc)) (λ c e1.
            bind-Raised _ _ (unpack-Raised 4 data' (page + cons_pos % size)) (λ hdr e2.
              either_Raised (not (bit_and hdr (1 <<< 31) == 0)) _ _ (λ x. cc)
                (bind-Raised _ _
                  (ringbuf_loop-Raised fuel page size data' _ prod_pos (
                    omega (
                      arith,
                      record_size-lt cons_pos
                          (bit_and (and_not hdr (bit_or (1 <<< 31) (1 <<< 30))) 0xffffffff),
                    )))
                  (λ r e3. either_Raised (bit_and hdr (1 <<< 30) == 0) _ _ (λ x. cc) (λ x. cc))))))
    ]

-- On every content of the pages `ringbuf_records` returns or raises: the bound on its rounds, the
-- distance of the two positions, never stops it.
pub ringbuf_records-ends :
    (page size : ℕ) (cons data' : Bytes) → ringbuf_records page size cons data' ≢ err out_of_fuel
unfolding ringbuf_records
ringbuf_records-ends page size cons data' =
    bind-Raised _ _ (unpack-Raised 8 data' 0) (λ prod_pos e1.
      bind-Raised _ _ (unpack-Raised 8 cons 0) (λ start e2.
        ringbuf_loop-Raised (prod_pos - start) page size data' start prod_pos (omega arith)))
