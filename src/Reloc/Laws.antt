-- ===== src/Reloc/Laws.antt =====
-- `patch` over a whole program: what is touched, what each relocation leaves behind, and the bytes.
use koit.Base.{
  ℕ, ◌+◌, ◌≡◌, refl, sym, ◌∙◌, arith, Option, some, List, [], ◌∷◌, ◌++◌, length, get_elem?, set,
  All, ok, >>=-eq-ok, length-set, get_elem?-set_self, get_elem?-set_ne, get_elem?-lt,
}
use koit.Base.Bytes.{Bytes}
use koit.Base.Dict.{Dict, get, bytes_eq}
use koit.Document.{Reloc, map_fd, map_value, kfunc}
use koit.Reloc.{map_word, offset_word, kfunc_word, patch, pseudo_map_fd, pseudo_map_value}
use koit.Reloc.Steps.{
  Spares, run_one, map_fd_step, kfunc_step, map_value_step, step-Spares, step-length,
}

module _ (map_fds kfunc_ids : Dict Bytes ℕ) where
  -- If `patch` succeeds, it keeps the number of words, and it keeps each word that no relocation
  -- writes.
  pub patch-Spares :
      (relocs : List Reloc) (words words' : List ℕ) (j : ℕ)
      → All (Spares j) relocs
      → patch map_fds kfunc_ids words relocs ≡ ok words'
      → (length words' ≡ length words) × (get_elem? words' j ≡ get_elem? words j)
  unfolding patch
  patch-Spares [] words words' j h e = (cc, cc)
  patch-Spares (r ∷ relocs) words words' j h e =
      let (mid, first, later) = >>=-eq-ok (run_one map_fds kfunc_ids words r) _ e in
      let rest = patch-Spares relocs mid words' j h.1 later in
      (
        rest.0 ∙ step-length map_fds kfunc_ids words mid r first,
        rest.1 ∙ step-Spares map_fds kfunc_ids words mid r j h.0 first,
      )

  patch-append :
      (before after : List Reloc) (words words' : List ℕ)
      → patch map_fds kfunc_ids words (before ++ after) ≡ ok words'
      → (mid : List ℕ) × (patch map_fds kfunc_ids words before ≡ ok mid)
        × (patch map_fds kfunc_ids mid after ≡ ok words')
  unfolding patch
  patch-append [] after words words' e = (words, refl, e)
  patch-append (r ∷ before) after words words' e =
      let (next, first, later) = >>=-eq-ok (run_one map_fds kfunc_ids words r) _ e in
      let (mid, done, rest) = patch-append before after next words' later in
      (mid, rw first done, rest)

  -- If `patch` succeeds, and of its relocations only one, a map reference at `i`, writes word
  -- `i`, then the program has a word `w` there, the map has a descriptor, and the patched word is
  -- `map_word` of `w` with the pseudo register of a descriptor.
  pub patch-map_fd :
      (before after : List Reloc) (words words' : List ℕ) (i : ℕ) (m : Bytes)
      → All (Spares i) before
      → All (Spares i) after
      → patch map_fds kfunc_ids words (before ++ (map_fd i m ∷ after)) ≡ ok words'
      → (w : ℕ) × (fd : ℕ) × (get_elem? words i ≡ some w)
        × (get map_fds m ≡ some fd)
        × (get_elem? words' i ≡ some (map_word w pseudo_map_fd fd))
  unfolding patch
  patch-map_fd before after words words' i m clear_before clear_after e =
      let (mid, front, back) = patch-append before (map_fd i m ∷ after) words words' e in
      let (next, here, rest) = >>=-eq-ok (run_one map_fds kfunc_ids mid (map_fd i m)) _ back in
      let (w, fd, at, found, set_to) = map_fd_step map_fds kfunc_ids mid next i m here in
      (
        w,
        fd,
        sym (patch-Spares before words mid i clear_before front).1 ∙ at,
        found,
        (patch-Spares after next words' i clear_after rest).1
            ∙ rw set_to (get_elem?-set_self mid i _ (get_elem?-lt mid i w at)),
      )

  -- If `patch` succeeds, and of its relocations only one, a value reference at `i`, writes the
  -- words `i` and `i + 1`, then the program has both words, the map has a descriptor, the first
  -- patched word is `map_word` with the pseudo register of a value, and the second is
  -- `offset_word` with the offset.
  pub patch-map_value :
      (before after : List Reloc) (words words' : List ℕ) (i : ℕ) (m : Bytes) (o : ℕ)
      → All (Spares i) before
      → All (Spares i) after
      → All (Spares (i + 1)) before
      → All (Spares (i + 1)) after
      → patch map_fds kfunc_ids words (before ++ (map_value i m o ∷ after)) ≡ ok words'
      → (w : ℕ) × (second : ℕ) × (fd : ℕ) × (get_elem? words i ≡ some w)
        × (get_elem? words (i + 1) ≡ some second)
        × (get map_fds m ≡ some fd)
        × (get_elem? words' i ≡ some (map_word w pseudo_map_value fd))
        × (get_elem? words' (i + 1) ≡ some (offset_word second o))
  unfolding patch
  patch-map_value before after words words' i m o b0 a0 b1 a1 e =
      let (mid, front, back) = patch-append before (map_value i m o ∷ after) words words' e in
      let (next, here, rest) = >>=-eq-ok (run_one map_fds kfunc_ids mid (map_value i m o)) _ back in
      let (w, second, fd, at, at1, found, set_to) =
        map_value_step map_fds kfunc_ids mid next i m o here in
      let v = map_word w pseudo_map_value fd in
      (
        w,
        second,
        fd,
        sym (patch-Spares before words mid i b0 front).1 ∙ at,
        sym (patch-Spares before words mid (i + 1) b1 front).1 ∙ at1,
        found,
        (patch-Spares after next words' i a0 rest).1
            ∙ rw set_to (
                get_elem?-set_ne (set mid i v) (i + 1) i _ (omega arith)
                ∙ get_elem?-set_self mid i v (get_elem?-lt mid i w at)),
        (patch-Spares after next words' (i + 1) a1 rest).1
            ∙ rw set_to (
                get_elem?-set_self (set mid i v) (i + 1) _
                  (omega (arith, length-set mid i v, get_elem?-lt mid (i + 1) second at1))),
      )

  -- If `patch` succeeds, and of its relocations only one, a kfunc call at `i`, writes word `i`,
  -- then the program has a word `w` there, the function has an id, and the patched word is
  -- `kfunc_word` of the two.
  pub patch-kfunc :
      (before after : List Reloc) (words words' : List ℕ) (i : ℕ) (n : Bytes)
      (p : Option (Bytes × List (Bytes × Bytes)))
      → All (Spares i) before
      → All (Spares i) after
      → patch map_fds kfunc_ids words (before ++ (kfunc i n p ∷ after)) ≡ ok words'
      → (w : ℕ) × (kid : ℕ) × (get_elem? words i ≡ some w)
        × (get kfunc_ids n ≡ some kid)
        × (get_elem? words' i ≡ some (kfunc_word w kid))
  unfolding patch
  patch-kfunc before after words words' i n p clear_before clear_after e =
      let (mid, front, back) = patch-append before (kfunc i n p ∷ after) words words' e in
      let (next, here, rest) = >>=-eq-ok (run_one map_fds kfunc_ids mid (kfunc i n p)) _ back in
      let (w, kid, at, found, set_to) = kfunc_step map_fds kfunc_ids mid next i n p here in
      (
        w,
        kid,
        sym (patch-Spares before words mid i clear_before front).1 ∙ at,
        found,
        (patch-Spares after next words' i clear_after rest).1
            ∙ rw set_to (get_elem?-set_self mid i _ (get_elem?-lt mid i w at)),
      )
