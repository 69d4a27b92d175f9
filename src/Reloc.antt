-- ===== src/Reloc.antt =====
-- tools/koitobj.py: the instruction words of a program, the relocations of the loader, and the
-- bytes of the words.
pub mod Fields
pub mod Steps
pub mod Laws
pub mod Encoding
mod Tests
use koit.Base.{
  ℕ, zero, suc, ◌+◌, ◌*◌, ◌^◌, ◌≡◌, refl, Option, none, some, List, [], ◌∷◌, get_elem?, set,
  bit_and, bit_or, Result, ok, err, of_option, ◌>>=◌, map, key_error, index_error, value_error,
}
use koit.Base.Bits.{and_not, ◌<<<◌}
use koit.Base.Bytes.{Bytes, pack_rows}
use koit.Base.Dict.{Dict, get, bytes_eq}
use koit.Base.Text.{parse_int}
use koit.Document.{Program, Reloc, map_fd, map_value, kfunc, unknown}

abbrev pub pseudo_map_fd : ℕ
pseudo_map_fd = 1

abbrev pub pseudo_map_value : ℕ
pseudo_map_value = 2

abbrev pub pseudo_kfunc_call : ℕ
pseudo_kfunc_call = 2

unfoldable pub parse_words : List Bytes → Result (List ℕ)
parse_words [] = ok []
parse_words (w ∷ ws) = do n ← parse_int 16 w; ns ← parse_words ws; ok (n ∷ ns)

-- `words_of(program)`
unfoldable pub words_of : Program → Result (List ℕ)
words_of p = parse_words p.words

-- `words[i]`
unfoldable pub word_at : List ℕ → ℕ → Result ℕ
word_at words i = of_option index_error (get_elem? words i)

-- The word of a map reference, with the pseudo register `src` and the descriptor.
unfoldable pub map_word : ℕ → ℕ → ℕ → ℕ
map_word w src fd =
    bit_or (bit_or (bit_and (and_not w (0xf <<< 12)) 0xffffffff) (src <<< 12))
      (bit_and fd 0xffffffff <<< 32)

-- The second word of a value reference.
unfoldable pub offset_word : ℕ → ℕ → ℕ
offset_word w offset = bit_or (bit_and w 0xffffffff) (bit_and offset 0xffffffff <<< 32)

unfoldable pub kfunc_word : ℕ → ℕ → ℕ
kfunc_word w kid =
    bit_or (bit_or (bit_and w 0xffff0fff) (pseudo_kfunc_call <<< 12))
      (bit_and kid 0xffffffff <<< 32)

module _ (map_fds kfunc_ids : Dict Bytes ℕ) where
  -- One round of the loop of `patch`.
  unfoldable pub patch_one : List ℕ → Reloc → Result (List ℕ)
  patch_one words (map_fd i m) = do
    w ← word_at words i
    fd ← of_option key_error (get map_fds m)
    ok (set words i (map_word w pseudo_map_fd fd))
  patch_one words (map_value i m offset) = do
    w ← word_at words i
    fd ← of_option key_error (get map_fds m)
    let words' = set words i (map_word w pseudo_map_value fd)
    second ← word_at words' (i + 1)
    ok (set words' (i + 1) (offset_word second offset))
  patch_one words (kfunc i name proto) = do
    w ← word_at words i
    kid ← of_option key_error (get kfunc_ids name)
    ok (set words i (kfunc_word w kid))
  patch_one words (unknown i m offset) = do w ← word_at words i; err value_error

  unfoldable pub patch : List ℕ → List Reloc → Result (List ℕ)
  patch words [] = ok words
  patch words (r ∷ relocs) = do words' ← patch_one words r; patch words' relocs

-- `insns_bytes(words)`
unfoldable pub insns_bytes : List ℕ → Result Bytes
insns_bytes words = pack_rows (map (λ w. (8, w) ∷ []) words)
