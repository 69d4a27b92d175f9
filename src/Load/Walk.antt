-- ===== src/Load/Walk.antt =====
-- tools/load.py: reading a map back from a kernel that answers as the documentation of the commands says.
use koit.Base.{
  ℕ, zero, suc, ◌≤◌, ◌≡◌, refl, arith, All, Option, none, some, List, [], ◌∷◌, length, map,
  length-map, Result, ok, err,
}
use koit.Base.Bytes.{Bytes}
use koit.Base.Dict.{get, bytes_eq}
use koit.Document.{MapDecl, hash}
use koit.Load.Attr.{attr_map_elem, map_lookup_elem, map_get_next_key}
use koit.Load.Machine.{
  Machine, Event, Buffer, given, space, done, refused, World, L, bind_result, bpf, call, syscall_nr,
}
use koit.Load.Maps.{
  lookup, lookup_elem, or_absent, absent_for, next_key, next_key_call, keys_from, keys, read_pairs,
  read_kind, read_map,
}
use koit.Report.{pairs}

-- A kernel in a state `s` that the calls leave as it is, whose call has the number `nr`.
module _ (m : Machine) (nr : ℕ) (s : m.State) where
  -- The attribute that asks for the key behind `key`, or from no key for the first, after the
  -- events `now`.
  abbrev pub asks : List Event → ℕ → Option Bytes → Result Bytes
  asks now fd none = attr_map_elem fd 0 (m.address now 0) 0
  asks now fd (some key) = attr_map_elem fd (m.address now 0) (m.address now 1) 0

  abbrev pub buffers_of : ℕ → Option Bytes → List Buffer
  buffers_of size none = space size ∷ []
  buffers_of size (some key) = given key ∷ space size ∷ []

  -- The next key is `k`, whenever it is asked for.
  abbrev pub Next : ℕ → ℕ → Option Bytes → Bytes → Type 0
  Next fd size key k =
      (now : List Event)
      → (attr : Bytes) × (r : ℕ) × (after : Bytes) × (asks now fd key ≡ ok attr)
        × (m.syscall nr map_get_next_key attr (buffers_of size key) s ≡ (done r after k, s))

  -- There is no next key, whenever it is asked for: ENOENT.
  abbrev pub Last : ℕ → ℕ → Option Bytes → Type 0
  Last fd size key =
      (now : List Event)
      → (attr : Bytes) × (asks now fd key ≡ ok attr)
        × (m.syscall nr map_get_next_key attr (buffers_of size key) s ≡ (refused 2, s))

  -- Behind `key` the map has the keys of the list, in this order, and then no more.
  abbrev pub Walk : ℕ → ℕ → Option Bytes → List Bytes → Type 0
  Walk fd size key [] = Last fd size key
  Walk fd size key (k ∷ ks) = Next fd size key k × Walk fd size (some k) ks

  -- Under `key` the map has `value`, whenever it is looked up.
  abbrev pub Has : ℕ → ℕ → Bytes × Bytes → Type 0
  Has fd size (key, value) =
      (now : List Event)
      → (attr : Bytes) × (r : ℕ) × (after : Bytes) × (attr_map_elem fd (m.address now 0)
            (m.address now 1) 0
          ≡ ok attr)
        × (m.syscall nr map_lookup_elem attr (given key ∷ space size ∷ []) s
            ≡ (done r after value, s))

-- Each key with its value.
abbrev pub found_in : List (Bytes × Bytes) → List (Bytes × Option Bytes)
found_in [] = []
found_in ((key, value) ∷ kvs) = (key, some value) ∷ found_in kvs

-- The outcome is `a`, in the state `s`.
pub record Gives {S A : Type 0} (s : S) (a : A) (r : Result A × World S) : Type 0 where
  pub result : r.0 ≡ ok a
  pub state : r.1.kernel ≡ s

module _ {S : Type 0} {s : S} where
  return-Gives : {A : Type 0} {a : A} {w : World S} → w.kernel ≡ s → Gives s a (ok a, w)
  return-Gives h = record { result = refl; state = h }

  bind_result-Gives :
      {A B : Type 0} {a : A} {b : B} (r : Result A × World S) (f : A → L S B)
      → Gives s a r
      → ((w : World S) → w.kernel ≡ s → Gives s b (f a w))
      → Gives s b (bind_result r f)
  bind_result-Gives {a} {b} (ok a', w) f g k =
      let same : a' ≡ a = cc g.result in rw same (k w g.state)
  bind_result-Gives (err e, w) f g k = cc g.result

  absent_for-Gives :
      {A : Type 0} {a : A} (b : A) (r : Result A × World S)
      → Gives s a r
      → Gives s a (absent_for b r)
  absent_for-Gives b (ok a', w) g = g
  absent_for-Gives b (err e, w) g = cc g.result

module _ (m : Machine) (nr : ℕ) (known : get syscall_nr m.architecture ≡ some nr)
    (s : m.State) where
  -- What a call gives is what the kernel replies.
  bpf-Gives :
      (cmd : ℕ) (attr : Bytes) (buffers : List Buffer) (w : World m.State) {r : ℕ}
      {after out : Bytes}
      → w.kernel ≡ s
      → m.syscall nr cmd attr buffers s ≡ (done r after out, s)
      → Gives s (r, after, out) (bpf m cmd attr buffers w)
  unfolding bpf call
  bpf-Gives cmd attr buffers w same h =
      rw (bpf, known, same, h) (record { result = refl; state = refl })

  -- ENOENT is no value.
  ends :
      {A : Type 0} (cmd : ℕ) (attr : Bytes) (buffers : List Buffer) (w : World m.State)
      (f : ℕ × Bytes × Bytes → L m.State (Option A))
      → w.kernel ≡ s
      → m.syscall nr cmd attr buffers s ≡ (refused 2, s)
      → Gives s none (absent_for none (bind_result (bpf m cmd attr buffers w) f))
  unfolding bpf call
  ends cmd attr buffers w f same h =
      rw (bpf, known, same, h) (record { result = refl; state = refl })

  lookup-Gives :
      (fd size : ℕ) (key value : Bytes) (w : World m.State)
      → w.kernel ≡ s
      → Has m nr s fd size (key, value)
      → Gives s (some value) (lookup m fd key size w)
  unfolding lookup lookup_elem or_absent
  lookup-Gives fd size key value w same has =
      let (attr, r, after, packs, h) = has w.events in
      absent_for-Gives none (lookup_elem m fd key size w) (
        rw packs (
          bind_result-Gives _ _ (bpf-Gives map_lookup_elem attr _ w same h)
            (λ w1 h1. return-Gives h1)))

  next_key-Gives :
      (fd size : ℕ) (key : Option Bytes) {k : Bytes} (w : World m.State)
      → w.kernel ≡ s
      → Next m nr s fd size key k
      → Gives s (some k) (next_key m fd size key w)
  unfolding next_key next_key_call or_absent
  next_key-Gives fd size none w same next =
      let (attr, r, after, packs, h) = next w.events in
      absent_for-Gives none (next_key_call m fd size none w) (
        rw packs (
          bind_result-Gives _ _ (bpf-Gives map_get_next_key attr _ w same h)
            (λ w1 h1. return-Gives h1)))
  next_key-Gives fd size (some key) w same next =
      let (attr, r, after, packs, h) = next w.events in
      absent_for-Gives none (next_key_call m fd size (some key) w) (
        rw packs (
          bind_result-Gives _ _ (bpf-Gives map_get_next_key attr _ w same h)
            (λ w1 h1. return-Gives h1)))

  next_key_ends :
      (fd size : ℕ) (key : Option Bytes) (w : World m.State)
      → w.kernel ≡ s
      → Last m nr s fd size key
      → Gives s none (next_key m fd size key w)
  unfolding next_key next_key_call or_absent
  next_key_ends fd size none w same last =
      let (attr, packs, h) = last w.events in rw packs (ends map_get_next_key attr _ w _ same h)
  next_key_ends fd size (some key) w same last =
      let (attr, packs, h) = last w.events in rw packs (ends map_get_next_key attr _ w _ same h)

  keys_from-Gives :
      (fuel fd size : ℕ) (key : Option Bytes) (ks : List Bytes) (w : World m.State)
      → suc (length ks) ≤ fuel
      → w.kernel ≡ s
      → Walk m nr s fd size key ks
      → Gives s ks (keys_from m fuel fd size key w)
  unfolding keys_from
  keys_from-Gives zero fd size key ks w le same walk = absurd (omega (arith, le))
  keys_from-Gives (suc fuel) fd size key [] w le same walk =
      bind_result-Gives _ _ (next_key_ends fd size key w same walk) (λ w1 h1. return-Gives h1)
  keys_from-Gives (suc fuel) fd size key (k ∷ ks) w le same (next, walk) =
      bind_result-Gives _ _ (next_key-Gives fd size key w same next) (λ w1 h1.
        bind_result-Gives _ _
          (keys_from-Gives fuel fd size (some k) ks w1 (omega (arith, le)) h1 walk)
          (λ w2 h2. return-Gives h2))

  read_pairs-Gives :
      (fd size : ℕ) (kvs : List (Bytes × Bytes)) (w : World m.State)
      → w.kernel ≡ s
      → All (Has m nr s fd size) kvs
      → Gives s (found_in kvs) (read_pairs m fd size (map (λ kv. kv.0) kvs) w)
  unfolding read_pairs
  read_pairs-Gives fd size [] w same all = return-Gives same
  read_pairs-Gives fd size ((key, value) ∷ kvs) w same (has, all) =
      bind_result-Gives _ _ (lookup-Gives fd size key value w same has) (λ w1 h1.
        bind_result-Gives _ _ (read_pairs-Gives fd size kvs w1 h1 all) (λ w2 h2. return-Gives h2))

  -- If a kernel on a known architecture, in a state that these calls leave as it is, gives the
  -- keys of a hash map one behind the other and ENOENT behind the last, and a value for each key,
  -- whenever it is asked and wherever the buffers lie then, and if the map has no more keys than
  -- entries, then `read_map` returns: it gives exactly the keys with their values, in order, and
  -- leaves the kernel's state as it was.
  pub read_map_lists_all :
      (decl : MapDecl) (fd : ℕ) (kvs : List (Bytes × Bytes)) (w : World m.State)
      → decl.kind ≡ hash
      → length kvs ≤ decl.entries
      → w.kernel ≡ s
      → Walk m nr s fd decl.key_size none (map (λ kv. kv.0) kvs)
      → All (Has m nr s fd decl.value_size) kvs
      → Gives s (pairs (found_in kvs)) (read_map m decl fd w)
  unfolding read_map read_kind keys
  read_map_lists_all decl fd kvs w kind le same walk all = rw kind (
      bind_result-Gives _ _
        (keys_from-Gives (suc decl.entries) fd decl.key_size none _ w
          (omega (arith, le, length-map (λ kv. kv.0) kvs)) same walk)
        (λ w1 h1.
          bind_result-Gives _ _ (read_pairs-Gives fd decl.value_size kvs w1 h1 all)
            (λ w2 h2. return-Gives h2)))
