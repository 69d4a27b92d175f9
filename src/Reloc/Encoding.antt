-- ===== src/Reloc/Encoding.antt =====
-- The patched words are words of 64 bits, and their bytes are the program's.
use koit.Base.{
  ℕ, zero, suc, ◌+◌, ◌*◌, ◌≡◌, refl, ap, arith, some, List, [], ◌∷◌, ◌++◌, length, get_elem?, set,
  All, ok, >>=-eq-ok, length-append, append_assoc, append-nil,
}
use koit.Base.Bytes.{
  Bytes, le_bytes, length-le_bytes, pack_all_ok, pack_rows, unpack_from, unpack_at,
}
use koit.Base.Dict.{Dict}
use mathlib.Core.Path.{subst}
use koit.Document.{Reloc, map_fd, map_value, kfunc, unknown}
use koit.Reloc.{map_word, patch_one, patch, insns_bytes, pseudo_map_fd, pseudo_map_value}
use koit.Reloc.Fields.{map_word_fields, offset_word_fields, kfunc_word_fields}
use koit.Reloc.Steps.{IsWord, map_fd_step, kfunc_step, map_value_step, unknown_fails}

All-set : (words : List ℕ) (i v : ℕ) → All IsWord words → IsWord v → All IsWord (set words i v)
All-set [] i v h k = tt
All-set (w ∷ words) zero v h k = (k, h.1)
All-set (w ∷ words) (suc i) v h k = (h.0, All-set words i v h.1 k)

module _ (map_fds kfunc_ids : Dict Bytes ℕ) where
  step-IsWord :
      (words words' : List ℕ) (r : Reloc)
      → All IsWord words
      → patch_one map_fds kfunc_ids words r ≡ ok words'
      → All IsWord words'
  step-IsWord words words' (map_fd i m) h e =
      let (w, fd, at, found, set_to) = map_fd_step map_fds kfunc_ids words words' i m e in
      rw set_to (All-set words i _ h (map_word_fields w pseudo_map_fd fd (omega arith)).3)
  step-IsWord words words' (kfunc i n p) h e =
      let (w, kid, at, found, set_to) = kfunc_step map_fds kfunc_ids words words' i n p e in
      rw set_to (All-set words i _ h (kfunc_word_fields w kid).3)
  step-IsWord words words' (map_value i m o) h e =
      let (w, second, fd, at, next, found, set_to) =
        map_value_step map_fds kfunc_ids words words' i m o e in
      rw set_to (
        All-set (set words i (map_word w pseudo_map_value fd)) (i + 1) _
          (All-set words i _ h (map_word_fields w pseudo_map_value fd (omega arith)).3)
          (offset_word_fields second o).2)
  step-IsWord words words' (unknown i m o) h e =
      absurd (unknown_fails map_fds kfunc_ids words words' i m o e)

  -- If `patch` succeeds on words below 2^64, its words are below 2^64.
  pub patch-IsWord :
      (relocs : List Reloc) (words words' : List ℕ)
      → All IsWord words
      → patch map_fds kfunc_ids words relocs ≡ ok words'
      → All IsWord words'
  unfolding patch
  patch-IsWord [] words words' h e = subst (All IsWord) (cc) h
  patch-IsWord (r ∷ relocs) words words' h e =
      let (mid, first, later) = >>=-eq-ok (patch_one map_fds kfunc_ids words r) _ e in
      patch-IsWord relocs mid words' (step-IsWord words mid r h first) later

-- The bytes of words, eight for each.
abbrev pub words_bytes : List ℕ → Bytes
words_bytes [] = []
words_bytes (w ∷ words) = le_bytes 8 w ++ words_bytes words

insns_bytes_ok : (words : List ℕ) → All IsWord words → insns_bytes words ≡ ok (words_bytes words)
unfolding insns_bytes pack_rows
insns_bytes_ok [] h = refl
insns_bytes_ok (w ∷ words) h =
    rw (pack_all_ok ((8, w) ∷ []) (h.0, tt), insns_bytes_ok words h.1, append-nil (le_bytes 8 w))
      refl

length-words_bytes : (words : List ℕ) → length (words_bytes words) ≡ 8 * length words
length-words_bytes [] = refl
length-words_bytes (w ∷ words) = omega (
  arith,
  length-words_bytes words,
  length-append {0} (le_bytes 8 w) (words_bytes words),
  length-le_bytes 8 w,
)

read_word :
    (before : Bytes) (words : List ℕ) (i w pos : ℕ)
    → All IsWord words
    → get_elem? words i ≡ some w
    → pos ≡ length before + 8 * i
    → unpack_from 8 (before ++ words_bytes words) pos ≡ ok w
read_word before [] i w pos h at p = cc
read_word before (v ∷ words) zero w pos h at p =
    unpack_at 8 w before (words_bytes words)
      (ap (λ (k : ℕ). before ++ (le_bytes 8 k ++ words_bytes words)) (cc)) (omega arith)
      (omega (arith, h.0, same_word))
  where
    same_word : v ≡ w
    same_word = cc
read_word before (v ∷ words) (suc i) w pos h at p =
    rw (← append_assoc before (le_bytes 8 v) (words_bytes words)) (
      read_word (before ++ le_bytes 8 v) words i w pos h.1 at
        (omega (arith, p, length-append {0} before (le_bytes 8 v), length-le_bytes 8 v)))

-- Words below 2^64 are written as eight bytes each, and word `i` is read back at byte `8 * i`.
pub insns_bytes-read :
    (words : List ℕ)
    → All IsWord words
    → (bytes : Bytes) × (insns_bytes words ≡ ok bytes)
      × (length bytes ≡ 8 * length words)
      × ((i w : ℕ) → get_elem? words i ≡ some w → unpack_from 8 bytes (8 * i) ≡ ok w)
insns_bytes-read words h = (
  words_bytes words,
  insns_bytes_ok words h,
  length-words_bytes words,
  λ i w at. read_word [] words i w (8 * i) h at (omega arith),
)
