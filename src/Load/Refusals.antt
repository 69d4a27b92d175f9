-- ===== src/Load/Refusals.antt =====
-- tools/load.py: what the kernel's refusals become.
use koit.Base.{
  ℕ, ◌≡◌, refl, Bool-cases, inl, inr, Option, none, some, [], ◌∷◌, Result, ok, err, os_error, ◌==◌,
  if◌then◌else◌,
}
use koit.Base.Bytes.{Bytes}
use koit.Base.Dict.{get, bytes_eq}
use koit.Load.Attr.{attr_map_elem, map_lookup_elem}
use koit.Load.Machine.{Machine, given, space, Reply, done, refused, World, bpf, call, syscall_nr}
use koit.Load.Maps.{lookup, lookup_elem, or_absent}

-- ENOENT says that the key is not there; any other refusal is an error.
abbrev pub value_of : Reply → Result (Option Bytes)
value_of (done r attr value) = ok (some value)
value_of (refused errno) = if errno == 2 then ok none else err (os_error errno)

module _ (m : Machine) (nr : ℕ) (known : get syscall_nr m.architecture ≡ some nr) where
  -- On a known architecture, and for a descriptor and addresses that fit their fields, `lookup`
  -- gives the value that the kernel wrote if the call is done, no value if it is refused with
  -- ENOENT, and raises `OSError` with the kernel's number if it is refused otherwise; the
  -- kernel's state is the one that the call left.
  pub lookup_by_reply :
      (fd size : ℕ) (key attr : Bytes) (w : World m.State) (reply : Reply) (s : m.State)
      → attr_map_elem fd (m.address w.events 0) (m.address w.events 1) 0 ≡ ok attr
      → m.syscall nr map_lookup_elem attr (given key ∷ space size ∷ []) w.kernel ≡ (reply, s)
      → ((lookup m fd key size w).0 ≡ value_of reply) × ((lookup m fd key size w).1.kernel ≡ s)
  unfolding lookup lookup_elem or_absent bpf call
  lookup_by_reply fd size key attr w (done r after value) s packs h =
      rw (packs, bpf, known, h) (refl, refl)
  lookup_by_reply fd size key attr w (refused errno) s packs h = elim (Bool-cases (errno == 2)) [
    | inl e ↦ rw (packs, bpf, known, h, e) (refl, refl)
    | inr e ↦ rw (packs, bpf, known, h, e) (refl, refl)
  ]
