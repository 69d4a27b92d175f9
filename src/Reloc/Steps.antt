-- ===== src/Reloc/Steps.antt =====
-- What one relocation of `patch` does, and what it leaves.
use koit.Base.{
  ℕ, ◌+◌, ◌^◌, ◌<◌, ◌≡◌, ◌≢◌, sym, ◌∙◌, arith, Option, some, List, length, get_elem?, set, Result,
  ok, >>=-eq-ok, of_option, of_option-eq-ok, length-set, get_elem?-set_ne, key_error, index_error,
}
use koit.Base.Bytes.{Bytes}
use koit.Base.Dict.{Dict, get, bytes_eq}
use koit.Document.{Reloc, map_fd, map_value, kfunc, unknown}
use koit.Reloc.{
  word_at, map_word, offset_word, kfunc_word, patch_one, pseudo_map_fd, pseudo_map_value,
}

-- The relocation writes no word at `j`.
abbrev pub Spares : ℕ → Reloc → Type 0
Spares j (map_fd i m) = i ≢ j
Spares j (map_value i m o) = (i ≢ j) × (i + 1 ≢ j)
Spares j (kfunc i n p) = i ≢ j
Spares j (unknown i m o) = Unit

abbrev pub IsWord : ℕ → Type 0
IsWord w = w < 2 ^ 64

pub word_at-eq-ok :
    (words : List ℕ) (i : ℕ) {w : ℕ} → word_at words i ≡ ok w → get_elem? words i ≡ some w
unfolding word_at
word_at-eq-ok words i h = of_option-eq-ok index_error (get_elem? words i) h

module _ (map_fds kfunc_ids : Dict Bytes ℕ) where
  abbrev pub run_one : List ℕ → Reloc → Result (List ℕ)
  run_one = patch_one map_fds kfunc_ids

  -- What one relocation does, when it succeeds.
  abbrev pub MapFdStep : List ℕ → List ℕ → ℕ → Bytes → Type 0
  MapFdStep words words' i m =
      (w : ℕ) × (fd : ℕ) × (get_elem? words i ≡ some w)
      × (get map_fds m ≡ some fd)
      × (words' ≡ set words i (map_word w pseudo_map_fd fd))

  pub map_fd_step :
      (words words' : List ℕ) (i : ℕ) (m : Bytes)
      → run_one words (map_fd i m) ≡ ok words'
      → MapFdStep words words' i m
  unfolding patch_one
  map_fd_step words words' i m h =
      let (w, at, h1) = >>=-eq-ok (word_at words i) _ h in
      let (fd, found, h2) = >>=-eq-ok (of_option key_error (get map_fds m)) _ h1 in
      (w, fd, word_at-eq-ok words i at, of_option-eq-ok key_error (get map_fds m) found, cc)

  abbrev pub KfuncStep : List ℕ → List ℕ → ℕ → Bytes → Type 0
  KfuncStep words words' i n =
      (w : ℕ) × (kid : ℕ) × (get_elem? words i ≡ some w)
      × (get kfunc_ids n ≡ some kid)
      × (words' ≡ set words i (kfunc_word w kid))

  pub kfunc_step :
      (words words' : List ℕ) (i : ℕ) (n : Bytes) (p : Option (Bytes × List (Bytes × Bytes)))
      → run_one words (kfunc i n p) ≡ ok words'
      → KfuncStep words words' i n
  unfolding patch_one
  kfunc_step words words' i n p h =
      let (w, at, h1) = >>=-eq-ok (word_at words i) _ h in
      let (kid, found, h2) = >>=-eq-ok (of_option key_error (get kfunc_ids n)) _ h1 in
      (w, kid, word_at-eq-ok words i at, of_option-eq-ok key_error (get kfunc_ids n) found, cc)

  abbrev pub MapValueStep : List ℕ → List ℕ → ℕ → Bytes → ℕ → Type 0
  MapValueStep words words' i m o =
      (w : ℕ) × (second : ℕ) × (fd : ℕ) × (get_elem? words i ≡ some w)
      × (get_elem? words (i + 1) ≡ some second)
      × (get map_fds m ≡ some fd)
      × (words' ≡ set (set words i (map_word w pseudo_map_value fd)) (i + 1) (offset_word second o))

  pub map_value_step :
      (words words' : List ℕ) (i : ℕ) (m : Bytes) (o : ℕ)
      → run_one words (map_value i m o) ≡ ok words'
      → MapValueStep words words' i m o
  unfolding patch_one
  map_value_step words words' i m o h =
      let (w, at, h1) = >>=-eq-ok (word_at words i) _ h in
      let (fd, found, h2) = >>=-eq-ok (of_option key_error (get map_fds m)) _ h1 in
      let first = set words i (map_word w pseudo_map_value fd) in
      let (second, next, h3) = >>=-eq-ok (word_at first (i + 1)) _ h2 in
      (
        w,
        second,
        fd,
        word_at-eq-ok words i at,
        sym (get_elem?-set_ne words i (i + 1) (map_word w pseudo_map_value fd) (omega arith))
            ∙ word_at-eq-ok first (i + 1) next,
        of_option-eq-ok key_error (get map_fds m) found,
        cc,
      )

  pub unknown_fails :
      (words words' : List ℕ) (i : ℕ) (m : Option Bytes) (o : Option ℕ)
      → run_one words (unknown i m o) ≡ ok words'
      → ⊥
  unfolding patch_one
  unknown_fails words words' i m o e = let (w, at, e') = >>=-eq-ok (word_at words i) _ e in cc

  pub step-Spares :
      (words words' : List ℕ) (r : Reloc) (j : ℕ)
      → Spares j r
      → run_one words r ≡ ok words'
      → get_elem? words' j ≡ get_elem? words j
  step-Spares words words' (map_fd i m) j h e =
      let (w, fd, at, found, set_to) = map_fd_step words words' i m e in
      rw set_to (get_elem?-set_ne words i j _ h)
  step-Spares words words' (kfunc i n p) j h e =
      let (w, kid, at, found, set_to) = kfunc_step words words' i n p e in
      rw set_to (get_elem?-set_ne words i j _ h)
  step-Spares words words' (map_value i m o) j h e =
      let (w, second, fd, at, next, found, set_to) = map_value_step words words' i m o e in
      rw set_to (
        get_elem?-set_ne (set words i (map_word w pseudo_map_value fd)) (i + 1) j _ h.1
        ∙ get_elem?-set_ne words i j _ h.0)
  step-Spares words words' (unknown i m o) j h e = absurd (unknown_fails words words' i m o e)

  pub step-length :
      (words words' : List ℕ) (r : Reloc)
      → run_one words r ≡ ok words'
      → length words' ≡ length words
  step-length words words' (map_fd i m) e =
      let (w, fd, at, found, set_to) = map_fd_step words words' i m e in
      rw set_to (length-set words i _)
  step-length words words' (kfunc i n p) e =
      let (w, kid, at, found, set_to) = kfunc_step words words' i n p e in
      rw set_to (length-set words i _)
  step-length words words' (map_value i m o) e =
      let (w, second, fd, at, next, found, set_to) = map_value_step words words' i m o e in
      rw set_to (length-set (set words i _) (i + 1) _ ∙ length-set words i _)
  step-length words words' (unknown i m o) e = absurd (unknown_fails words words' i m o e)
