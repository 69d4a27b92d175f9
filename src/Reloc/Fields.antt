-- ===== src/Reloc/Fields.antt =====
-- The fields of an instruction word, and what the patched words hold in them.
use koit.Base.{ℕ, ◌+◌, ◌-◌, ◌*◌, ◌/◌, ◌%◌, ◌^◌, ◌<◌, ◌≡◌, arith, bit_and, bit_or}
use koit.Base.Bits.{◌<<<◌, and_cut, or_cut, or_below, and_mask, and-zero, or-zero}
use koit.Reloc.{map_word, offset_word, kfunc_word, pseudo_map_fd, pseudo_kfunc_call}
use koit.Elf.Programs.{elf_map_word, elf_value_word}

-- opcode 8, destination register 4, source register 4, offset 16, immediate 32: lowest first.
abbrev pub opcode : ℕ → ℕ
opcode w = w % 2 ^ 8

abbrev pub dst : ℕ → ℕ
dst w = w / 2 ^ 8 % 2 ^ 4

abbrev pub src : ℕ → ℕ
src w = w / 2 ^ 12 % 2 ^ 4

abbrev pub offset : ℕ → ℕ
offset w = w / 2 ^ 16 % 2 ^ 16

abbrev pub imm : ℕ → ℕ
imm w = w / 2 ^ 32

-- Opcode, destination and offset are those of the other word.
abbrev pub SameInsn : ℕ → ℕ → Type 0
SameInsn v w = (opcode v ≡ opcode w) × (dst v ≡ dst w) × (offset v ≡ offset w)

-- Masks of the source register's four bits.
src_bits : (w : ℕ) → bit_and w (0xf <<< 12) ≡ src w * 2 ^ 12
src_bits w = ground (
  arith,
  and_cut 12 (w / 2 ^ 12) (w % 2 ^ 12) 0xf 0,
  and_mask 4 (w / 2 ^ 12),
  and-zero (w % 2 ^ 12),
)

but_src_bits : (w : ℕ) → bit_and w 0xffff0fff ≡ offset w * 2 ^ 16 + w % 2 ^ 12
but_src_bits w = ground (
  arith,
  and_cut 16 (w / 2 ^ 16) (w % 2 ^ 16) 0xffff 0x0fff,
  and_mask 16 (w / 2 ^ 16),
  and_mask 12 (w % 2 ^ 16),
)

-- A source register put into the low half of a word, whose own is 0.
with_src :
    (h l s : ℕ)
    → l < 2 ^ 12
    → s < 2 ^ 4
    → bit_or (h * 2 ^ 16 + l) (s <<< 12) ≡ h * 2 ^ 16 + (s * 2 ^ 12 + l)
with_src h l s l_lt s_lt = ground (arith, or_cut 16 h l 0 (s * 2 ^ 12), or-zero h, or_below 12 s l)

-- The map word in arithmetic: the low half of the old word with the register, and the descriptor.
map_word_sum :
    (w s fd : ℕ)
    → s < 2 ^ 4
    → map_word w s fd ≡ fd % 2 ^ 32 * 2 ^ 32 + (offset w * 2 ^ 16 + (s * 2 ^ 12 + w % 2 ^ 12))
unfolding map_word
map_word_sum w s fd s_lt = ground (
  arith,
  src_bits w,
  and_mask 32 (w - src w * 2 ^ 12),
  and_mask 32 fd,
  with_src (offset w) (w % 2 ^ 12) s,
  or_below 32 (fd % 2 ^ 32) (offset w * 2 ^ 16 + (s * 2 ^ 12 + w % 2 ^ 12)),
)

kfunc_word_sum :
    (w kid : ℕ)
    → kfunc_word w kid
      ≡ kid % 2 ^ 32 * 2 ^ 32 + (offset w * 2 ^ 16 + (pseudo_kfunc_call * 2 ^ 12 + w % 2 ^ 12))
unfolding kfunc_word
kfunc_word_sum w kid = ground (
  arith,
  but_src_bits w,
  and_mask 32 kid,
  with_src (offset w) (w % 2 ^ 12) pseudo_kfunc_call,
  or_below 32 (kid % 2 ^ 32) (offset w * 2 ^ 16 + (pseudo_kfunc_call * 2 ^ 12 + w % 2 ^ 12)),
)

-- For a pseudo register below 2^4, `map_word` keeps opcode, destination register and offset, has
-- the pseudo register as source and the descriptor modulo 2^32 as immediate, and is below 2^64.
pub map_word_fields :
    (w s fd : ℕ)
    → s < 2 ^ 4
    → SameInsn (map_word w s fd) w
      × (src (map_word w s fd) ≡ s)
      × (imm (map_word w s fd) ≡ fd % 2 ^ 32)
      × (map_word w s fd < 2 ^ 64)
map_word_fields w s fd s_lt =
    let e = map_word_sum w s fd s_lt in
    (
      (omega (arith, e), omega (arith, e), omega (arith, e)),
      omega (arith, e),
      omega (arith, e),
      omega (arith, e),
    )

-- `kfunc_word` keeps opcode, destination register and offset, has the pseudo register of a kfunc
-- call as source and the id modulo 2^32 as immediate, and is below 2^64.
pub kfunc_word_fields :
    (w kid : ℕ)
    → SameInsn (kfunc_word w kid) w
      × (src (kfunc_word w kid) ≡ pseudo_kfunc_call)
      × (imm (kfunc_word w kid) ≡ kid % 2 ^ 32)
      × (kfunc_word w kid < 2 ^ 64)
kfunc_word_fields w kid =
    let e = kfunc_word_sum w kid in
    (
      (omega (arith, e), omega (arith, e), omega (arith, e)),
      omega (arith, e),
      omega (arith, e),
      omega (arith, e),
    )

-- `offset_word` keeps the low half of the word, has the offset modulo 2^32 as its high half, and
-- is below 2^64.
pub offset_word_fields :
    (w o : ℕ)
    → (offset_word w o % 2 ^ 32 ≡ w % 2 ^ 32)
      × (imm (offset_word w o) ≡ o % 2 ^ 32)
      × (offset_word w o < 2 ^ 64)
unfolding offset_word
offset_word_fields w o =
    let e : offset_word w o ≡ o % 2 ^ 32 * 2 ^ 32 + w % 2 ^ 32 =
      ground (arith, and_mask 32 w, and_mask 32 o, or_below 32 (o % 2 ^ 32) (w % 2 ^ 32)) in
    (omega (arith, e), omega (arith, e), omega (arith, e))

-- The word that the ELF writer puts for a map reference keeps opcode, destination register and
-- offset, and has the pseudo register of a descriptor as source and 0 as immediate.
pub elf_map_word_fields :
    (w : ℕ)
    → SameInsn (elf_map_word w) w
      × (src (elf_map_word w) ≡ pseudo_map_fd)
      × (imm (elf_map_word w) ≡ 0)
unfolding elf_map_word
elf_map_word_fields w =
    let e : elf_map_word w ≡ offset w * 2 ^ 16 + (1 * 2 ^ 12 + w % 2 ^ 12) =
      ground (arith, and_mask 32 w, src_bits (w % 2 ^ 32), with_src (offset w) (w % 2 ^ 12) 1) in
    ((omega (arith, e), omega (arith, e), omega (arith, e)), omega (arith, e), omega (arith, e))

-- The word that the ELF writer puts for a direct value keeps opcode, destination register and
-- offset, and has 0 as source and the offset modulo 2^32 as immediate.
pub elf_value_word_fields :
    (w o : ℕ)
    → SameInsn (elf_value_word w o) w
      × (src (elf_value_word w o) ≡ 0)
      × (imm (elf_value_word w o) ≡ o % 2 ^ 32)
unfolding elf_value_word
elf_value_word_fields w o =
    let e : elf_value_word w o ≡ o % 2 ^ 32 * 2 ^ 32 + (offset w * 2 ^ 16 + w % 2 ^ 12) = ground (
      arith,
      and_mask 32 w,
      src_bits (w % 2 ^ 32),
      and_mask 32 o,
      or_below 32 (o % 2 ^ 32) (offset w * 2 ^ 16 + w % 2 ^ 12),
    ) in
    ((omega (arith, e), omega (arith, e), omega (arith, e)), omega (arith, e), omega (arith, e))
