-- ===== src/Load/Machine.antt =====
-- tools/load.py: the machine that the loader talks to, `bpf`, and functions that make system calls.
use koit.Base.{
  ℕ, ◌≡◌, refl, Option, none, some, List, [], ◌∷◌, ◌++◌, Result, ok, err, Error, system_exit,
  os_error,
}
use koit.Base.Bytes.{Bytes}
use koit.Base.Dict.{Dict, get, bytes_eq}
use koit.Base.Text.{text}

-- A buffer that an attribute points to: of given bytes, or of so many zero bytes.
pub data Buffer : Type 0 where
  given : Bytes → Buffer
  space : ℕ → Buffer

-- The kernel's answer to a system call: its result, the attribute and the last of the buffers as they
-- are afterwards; or an error's number.
pub data Reply : Type 0 where
  done : (result : ℕ) (attr : Bytes) (written : Bytes) → Reply
  refused : (errno : ℕ) → Reply

-- What the loader does, in order: its calls, the lines it prints, the descriptors that it closes or
-- fails to close.
pub data Event : Type 0 where
  called : (cmd : ℕ) (attr : Bytes) (buffers : List Buffer) → Event
  printed : (line : Bytes) → Event
  closed : (fd : ℕ) → Event

-- What the loader uses of the kernel and of the Python it runs in. Each call has buffers of its own:
-- `address now i` is where buffer number `i` of the call lies that comes after the events `now`.
-- `vmlinux` is the file of the kernel's BTF, `ring` maps the pages of a ring buffer: the consumer's,
-- and the producer's with the data. `close` gives the number of an error, if there is one.
pub record Machine : Type 1 where
  pub State : Type 0
  pub architecture : Bytes
  pub release : Bytes
  pub page : ℕ
  pub vmlinux : Option Bytes
  pub address : List Event → ℕ → ℕ
  pub syscall : (nr cmd : ℕ) (attr : Bytes) (buffers : List Buffer) → State → Reply × State
  pub ring : (fd size : ℕ) → State → Bytes × Bytes
  pub consume : (fd : ℕ) (consumer : Bytes) → State → State
  pub close : (fd : ℕ) → State → Option ℕ × State

pub record World (S : Type 0) : Type 0 where
  pub kernel : S
  pub events : List Event

-- The world stays changed where an exception is raised.
abbrev pub L : Type 0 → Type 0 → Type 0
L S A = World S → Result A × World S

abbrev pub bind_result : {S A B : Type 0} → Result A × World S → (A → L S B) → Result B × World S
bind_result (ok a, w) f = f a w
bind_result (err e, w) f = (err e, w)

infixl 5 ◌>>=◌ ◌>>◌
abbrev pub ◌>>=◌ : {S A B : Type 0} → L S A → (A → L S B) → L S B
◌>>=◌ m f w = bind_result (m w) f

abbrev pub ◌>>◌ : {S A B : Type 0} → L S A → L S B → L S B
◌>>◌ m k w = bind_result (m w) (λ _. k)

abbrev pub return : {S A : Type 0} → A → L S A
return a w = (ok a, w)

abbrev pub raise : {S A : Type 0} → Error → L S A
raise e w = (err e, w)

-- What was done before.
abbrev pub history : {S : Type 0} → L S (List Event)
history w = (ok w.events, w)

abbrev pub lift : {S A : Type 0} → Result A → L S A
lift r w = (r, w)

abbrev pub emit : {S : Type 0} → Event → L S (Unit {0})
emit e w = (ok tt, record w { events = w.events ++ (e ∷ []) })

-- __NR_bpf per architecture
abbrev pub syscall_nr : Dict Bytes ℕ
syscall_nr = (text "x86_64", 321) ∷ (text "aarch64", 280) ∷ (text "arm64", 280) ∷ []

-- What a call that the kernel did gives, or `OSError` with the error's number.
abbrev pub answer : {S : Type 0} → Reply → S → L S (ℕ × Bytes × Bytes)
answer (done r attr written) s w = (ok (r, attr, written), record w { kernel = s })
answer (refused errno) s w = (err (os_error errno), record w { kernel = s })

module _ (m : Machine) where
  -- The system call with a known number.
  unfoldable pub call : ℕ → ℕ → Bytes → List Buffer → L m.State (ℕ × Bytes × Bytes)
  call nr cmd attr buffers w =
      (do
        emit (called cmd attr buffers)
        let r = m.syscall nr cmd attr buffers w.kernel
        answer r.0 r.1)
        w

  -- `bpf(cmd, attr)`: the result, the attribute afterwards, and the buffer that the command writes.
  unfoldable pub bpf : ℕ → Bytes → List Buffer → L m.State (ℕ × Bytes × Bytes)
  bpf cmd attr buffers = elim (get syscall_nr m.architecture) [
    | none ↦ raise system_exit
    | some nr ↦ call nr cmd attr buffers
  ]

-- A sequence that succeeds has a first part that does, and a rest from the world that it leaves.
pub bind_result-eq-ok :
    {S A B : Type 0} (first : Result A × World S) (next : A → L S B) {b : B} {w : World S}
    → bind_result first next ≡ (ok b, w)
    → (a : A) × (w1 : World S) × (first ≡ (ok a, w1)) × (next a w1 ≡ (ok b, w))
bind_result-eq-ok (err e, w1) next h = cc
bind_result-eq-ok (ok a, w1) next h = (a, w1, refl, h)
