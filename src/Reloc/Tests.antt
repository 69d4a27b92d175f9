-- ===== src/Reloc/Tests.antt =====
-- A program of three words, a map of descriptor 7 and a kfunc of id 1000: the relocations run.
use koit.Base.{
  ℕ, ◌<◌, ◌≡◌, ◌%◌, ◌^◌, ◌*◌, refl, arith, some, none, List, [], ◌∷◌, get_elem?, length, All, ok,
}
use koit.Base.Bytes.{Bytes, unpack_from}
use koit.Base.Dict.{Dict, get, bytes_eq, same_bytes}
use koit.Base.Text.{text}
use koit.Document.{Reloc, map_fd, map_value, kfunc}
use koit.Reloc.{
  patch, patch_one, word_at, map_word, offset_word, kfunc_word, insns_bytes, pseudo_map_fd,
  pseudo_map_value, pseudo_kfunc_call,
}
use koit.Reloc.Encoding.{patch-IsWord, insns_bytes-read}
use koit.Reloc.Fields.{SameInsn, src, imm, map_word_fields, kfunc_word_fields}
use koit.Reloc.Steps.{IsWord}
use koit.Reloc.Laws.{patch-Spares, patch-map_fd, patch-map_value, patch-kfunc}

abbrev maps : Dict Bytes ℕ
maps = (text "m", 7) ∷ []

abbrev kfuncs : Dict Bytes ℕ
kfuncs = (text "f", 1000) ∷ []

abbrev words : List ℕ
words = 0x118 ∷ 0 ∷ 0x85 ∷ []

abbrev relocs : List Reloc
relocs = map_value 0 (text "m") 16 ∷ (kfunc 2 (text "f") none ∷ [])

abbrev with_fd : List ℕ
with_fd = 0x700001118 ∷ (0 ∷ (0x85 ∷ []))

abbrev patched : List ℕ
patched = 0x700002118 ∷ (0x1000000000 ∷ (0x3e800002085 ∷ []))

run : patch maps kfuncs words relocs ≡ ok patched
unfolding patch patch_one word_at map_word offset_word kfunc_word get same_bytes
run = refl

fd_relocs : patch maps kfuncs words (map_fd 0 (text "m") ∷ []) ≡ ok with_fd
unfolding patch patch_one word_at map_word get same_bytes
fd_relocs = refl

words-IsWord : All IsWord words
words-IsWord = (omega arith, (omega arith, (omega arith, tt)))

patch-Spares_example : (length with_fd ≡ length words) × (get_elem? with_fd 2 ≡ get_elem? words 2)
patch-Spares_example =
    patch-Spares maps kfuncs (map_fd 0 (text "m") ∷ []) words _ 2 (omega arith, tt) fd_relocs

patch-map_fd_example :
    (w : ℕ) × (fd : ℕ) × (get_elem? words 0 ≡ some w)
    × (get maps (text "m") ≡ some fd)
    × (get_elem? with_fd 0 ≡ some (map_word w pseudo_map_fd fd))
patch-map_fd_example = patch-map_fd maps kfuncs [] [] words _ 0 (text "m") tt tt fd_relocs

patch-map_value_example :
    (w : ℕ) × (second : ℕ) × (fd : ℕ) × (get_elem? words 0 ≡ some w)
    × (get_elem? words 1 ≡ some second)
    × (get maps (text "m") ≡ some fd)
    × (get_elem? patched 0 ≡ some (map_word w pseudo_map_value fd))
    × (get_elem? patched 1 ≡ some (offset_word second 16))
patch-map_value_example =
    patch-map_value maps kfuncs [] (kfunc 2 (text "f") none ∷ []) words patched 0 (text "m") 16 tt
      (omega arith, tt) tt (omega arith, tt) run

patch-kfunc_example :
    (w : ℕ) × (kid : ℕ) × (get_elem? words 2 ≡ some w)
    × (get kfuncs (text "f") ≡ some kid)
    × (get_elem? patched 2 ≡ some (kfunc_word w kid))
patch-kfunc_example =
    patch-kfunc maps kfuncs (map_value 0 (text "m") 16 ∷ []) [] words patched 2 (text "f") none
      ((omega arith, omega arith), tt) tt run

patch-IsWord_example : All IsWord patched
patch-IsWord_example = patch-IsWord maps kfuncs relocs words patched words-IsWord run

insns_bytes-read_example :
    (bytes : Bytes) × (insns_bytes words ≡ ok bytes)
    × (length bytes ≡ 8 * length words)
    × ((i w : ℕ) → get_elem? words i ≡ some w → unpack_from 8 bytes (8 * i) ≡ ok w)
insns_bytes-read_example = insns_bytes-read words words-IsWord

map_word_fields_example :
    SameInsn (map_word 0x118 pseudo_map_fd 7) 0x118
    × (src (map_word 0x118 pseudo_map_fd 7) ≡ pseudo_map_fd)
    × (imm (map_word 0x118 pseudo_map_fd 7) ≡ 7 % 2 ^ 32)
    × (map_word 0x118 pseudo_map_fd 7 < 2 ^ 64)
map_word_fields_example = map_word_fields 0x118 pseudo_map_fd 7 (omega arith)

kfunc_word_fields_example :
    SameInsn (kfunc_word 0x85 1000) 0x85
    × (src (kfunc_word 0x85 1000) ≡ pseudo_kfunc_call)
    × (imm (kfunc_word 0x85 1000) ≡ 1000 % 2 ^ 32)
    × (kfunc_word 0x85 1000 < 2 ^ 64)
kfunc_word_fields_example = kfunc_word_fields 0x85 1000
