-- ===== src/Load.antt =====
-- tools/load.py: the parts of the loader that compute: the version check, the initial contents of a
-- map, and the records of a ring buffer.
pub mod Machine
pub mod Attr
pub mod Maps
pub mod Programs
pub mod Main
pub mod Emits
pub mod Order
pub mod Walk
pub mod Creation
pub mod Refusals
pub mod Contents
pub mod Version
pub mod Ringbuf
pub mod Records
mod Tests
mod MachineTests
use koit.Base.{
  ℕ, zero, suc, ◌+◌, ◌-◌, ◌*◌, ◌/◌, ◌%◌, ◌≡◌, refl, Bool, true, false, not, ◌&&◌, ◌||◌, Option,
  none, some, List, [], ◌∷◌, ◌++◌, length, take, slice, replicate, bit_and, bit_or, ltb, leb, ◌==◌,
  if◌then◌else◌, Result, ok, err, ◌>>=◌, ◌>>◌, check, system_exit, zero_division_error, out_of_fuel,
}
use koit.Base.Bits.{and_not, ◌<<<◌}
use koit.Base.Bytes.{Bytes, unpack_from}
use koit.Base.Dict.{same_bytes}
use koit.Base.Text.{join}

-- `s.lstrip("v")`
unfoldable pub lstrip_v : Bytes → Bytes
lstrip_v [] = []
lstrip_v (c ∷ cs) = if c == b'v' then lstrip_v cs else c ∷ cs

-- `s.split(sep)` for one letter: the first part, and the parts behind it.
unfoldable pub split_first : ℕ → Bytes → Bytes × List Bytes
split_first sep [] = ([], [])
split_first sep (c ∷ cs) =
    let rest = split_first sep cs in
    if c == sep then ([], rest.0 ∷ rest.1) else (c ∷ rest.0, rest.1)

unfoldable pub split : ℕ → Bytes → List Bytes
split sep s = let r = split_first sep s in r.0 ∷ r.1

-- `s.count(".")`
unfoldable pub count : ℕ → Bytes → ℕ
count sep [] = 0
count sep (c ∷ cs) = let rest = count sep cs in if c == sep then suc rest else rest

-- `".".join(s.split(".")[:2])`
unfoldable pub major_minor : Bytes → Bytes
major_minor s = join (b'.' ∷ []) (take 2 (split b'.' s))

-- `tag.lstrip("v").split("-")[0]`
unfoldable pub tag_version : Bytes → Bytes
tag_version tag = (split_first b'-' (lstrip_v tag)).0

unfoldable pub check_version : Bytes → Bytes → Bool → Result (Unit {0})
check_version tag release override =
    let version = tag_version tag in
    let want = if leb 1 (count b'.' version) then major_minor version else version in
    if not (same_bytes want (major_minor release)) && not override then err system_exit else ok tt

-- `create_map`: the values that it writes into the map, by index from `i` on, for the entries left.
unfoldable pub initial_values : Bytes → ℕ → ℕ → ℕ → List (ℕ × Bytes)
initial_values contents vs i zero = []
initial_values contents vs i (suc left) =
    let rest = initial_values contents vs (i + 1) left in
    elim (slice contents (i * vs) ((i + 1) * vs)) [
      | [] ↦ []
      | c ∷ cs ↦ (i, (c ∷ cs) ++ replicate (vs - length (c ∷ cs)) 0) ∷ rest
    ]

-- How far a record of `len` bytes reaches: its header and the bytes, rounded up to eight.
unfoldable pub record_size : ℕ → ℕ
record_size len = (8 + len + 7) / 8 * 8

-- One round of the loop of `ringbuf_records` over the mapped pages, the producer's page first; `next`
-- goes on at a position.
unfoldable pub ringbuf_round :
    ℕ → ℕ → Bytes → ℕ → (ℕ → Result (List Bytes × ℕ)) → Result (List Bytes × ℕ)
ringbuf_round page size data' cons_pos next = do
  check (not (size == 0)) zero_division_error
  let off = cons_pos % size
  hdr ← unpack_from 4 data' (page + off)
  let len = bit_and (and_not hdr (bit_or (1 <<< 31) (1 <<< 30))) 0xffffffff
  if not (bit_and hdr (1 <<< 31) == 0) then ok ([], cons_pos) else (do
    (records, end) ← next (cons_pos + record_size len)
    if bit_and hdr (1 <<< 30) == 0
        then ok (slice data' (page + off + 8) (page + off + 8 + len) ∷ records, end)
        else ok (records, end))

-- The loop: the records, and the consumer's new position.
unfoldable pub ringbuf_loop : ℕ → ℕ → ℕ → Bytes → ℕ → ℕ → Result (List Bytes × ℕ)
ringbuf_loop zero page size data' cons_pos prod_pos =
    if ltb cons_pos prod_pos then err out_of_fuel else ok ([], cons_pos)
ringbuf_loop (suc fuel) page size data' cons_pos prod_pos =
    let round =
      ringbuf_round page size data' cons_pos
        (λ pos. ringbuf_loop fuel page size data' pos prod_pos) in
    if ltb cons_pos prod_pos then round else ok ([], cons_pos)

-- `ringbuf_records` on the pages it maps: a round passes eight bytes at least, so that the distance
-- of the positions is fuel enough.
unfoldable pub ringbuf_records : ℕ → ℕ → Bytes → Bytes → Result (List Bytes × ℕ)
ringbuf_records page size cons data' = do
  prod_pos ← unpack_from 8 data' 0
  cons_pos ← unpack_from 8 cons 0
  ringbuf_loop (prod_pos - cons_pos) page size data' cons_pos prod_pos
