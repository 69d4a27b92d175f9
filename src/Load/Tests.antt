-- ===== src/Load/Tests.antt =====
-- A ring buffer of one page with a record of three bytes; a kernel of a tag.
use koit.Base.{
  ℕ, arith, ◌≡◌, ◌≢◌, ◌↔◌, ◌⊎◌, ◌++◌, refl, true, false, [], ◌∷◌, replicate, ok, err, out_of_fuel,
}
use koit.Base.Bytes.{Bytes, unpack_from, of_le}
use koit.Base.Text.{text}
use koit.Load.{check_version, ringbuf_records, ringbuf_loop, ringbuf_round, record_size}
use koit.Load.Ringbuf.{IsDrained, ringbuf_records-IsDrained, ringbuf_records-ends}
use koit.Load.Records.{Queue, nothing, submitted, ringbuf_records-Queue}
use koit.Load.Version.{Agree, check_version_iff}

check_version_iff_example :
    (check_version (text "v6.8-rc1") (text "6.8.0-45") false ≡ ok tt)
    ↔ ((false ≡ true) ⊎ Agree (text "v6.8-rc1") (text "6.8.0-45"))
check_version_iff_example = check_version_iff (text "v6.8-rc1") (text "6.8.0-45") false

abbrev consumer : Bytes
consumer = replicate 8 0

-- Pages of 16 bytes: the producer's position is 16, and the record's header is its length.
abbrev pages : Bytes
pages = (16 ∷ replicate 15 0) ++ ((3 ∷ replicate 7 0) ++ (7 ∷ (8 ∷ (9 ∷ replicate 5 0))))

drained : ringbuf_records 16 16 consumer pages ≡ ok ((7 ∷ (8 ∷ (9 ∷ []))) ∷ [], 16)
unfolding ringbuf_records ringbuf_loop ringbuf_round record_size unpack_from of_le
drained = refl

ringbuf_records-IsDrained_example :
    (start : ℕ) × (prod_pos : ℕ) × (unpack_from 8 consumer 0 ≡ ok start)
    × (unpack_from 8 pages 0 ≡ ok prod_pos)
    × IsDrained 16 16 pages start prod_pos 16
ringbuf_records-IsDrained_example =
    ringbuf_records-IsDrained 16 16 consumer pages ((7 ∷ (8 ∷ (9 ∷ []))) ∷ []) 16 drained

ringbuf_records-ends_example : ringbuf_records 16 16 consumer pages ≢ err out_of_fuel
ringbuf_records-ends_example = ringbuf_records-ends 16 16 consumer pages

starts : unpack_from 8 consumer 0 ≡ ok 0
unfolding unpack_from of_le
starts = refl

produced : unpack_from 8 pages 0 ≡ ok 16
unfolding unpack_from of_le
produced = refl

abbrev payload : Bytes
payload = 7 ∷ (8 ∷ (9 ∷ []))

queue : Queue 16 16 pages 0 (payload ∷ []) 16
unfolding unpack_from of_le record_size
queue =
    submitted 0 16 16 payload [] (omega arith) refl refl (2, refl, omega arith, omega arith)
      (nothing 16)

ringbuf_records-Queue_example : ringbuf_records 16 16 consumer pages ≡ ok (payload ∷ [], 16)
ringbuf_records-Queue_example =
    ringbuf_records-Queue 16 16 consumer pages 0 16 (payload ∷ []) (omega arith) starts produced
      queue
