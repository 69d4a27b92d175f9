-- ===== src/Transcribe/Main/Helpers.antt =====
-- tools/transcribe/transcribe.py: the helpers of the file, by their numbers.
use koit.Base.{
  ℕ, ◌≤◌, ◌≡◌, ◌↔◌, refl, sym, ap, ◌∙◌, arith, All, true, leb, leb→le, some, none, Option-cases,
  inl, inr, List, [], ◌∷◌,
}
use koit.Base.Bytes.{Bytes}
use koit.Base.Dict.{Dict, get, bytes_eq}
use koit.Base.Sort.{sort, Sorted, sort-Sorted, Has, sort-Has, Has-sort}
use koit.Transcribe.Main.{number_leq, helpers_of, helper_list}
use mathlib.Core.Path.{subst}
use koit.Transcribe.Side.{Arg, Helper}

-- The helpers' numbers ascend.
abbrev pub Ascending : List Helper → Type 0
Ascending [] = Unit
Ascending (h ∷ hs) = All (λ (k : Helper). h.id ≤ k.id) hs × Ascending hs

-- The helper has its number, and the prototype of its name.
abbrev pub IsHelper : Dict Bytes (Bytes × List Arg) → List (Bytes × ℕ) → Helper → Type 0
IsHelper protos numbers h = Has (h.name, h.id) numbers × (get protos h.name ≡ some (h.ret, h.args))

module _ (protos : Dict Bytes (Bytes × List Arg)) where
  above :
      (a : ℕ) (numbers : List (Bytes × ℕ))
      → All (λ (kv : Bytes × ℕ). leb a kv.1 ≡ true) numbers
      → All (λ (k : Helper). a ≤ k.id) (helpers_of protos numbers)
  unfolding helpers_of
  above a [] all = tt
  above a ((name, id) ∷ numbers) all = elim (Option-cases (get protos name)) [
    | inl e ↦ rw (helpers_of, e) (above a numbers all.1)
    | inr (proto, e) ↦ rw (helpers_of, e) (leb→le a id all.0, above a numbers all.1)
  ]

  ascends :
      (numbers : List (Bytes × ℕ))
      → Sorted number_leq numbers
      → Ascending (helpers_of protos numbers)
  unfolding helpers_of number_leq
  ascends [] h = tt
  ascends ((name, id) ∷ numbers) h = elim (Option-cases (get protos name)) [
    | inl e ↦ rw (helpers_of, e) (ascends numbers h.1)
    | inr (proto, e) ↦ rw (helpers_of, e) (above id numbers h.0, ascends numbers h.1)
  ]

  abbrev made : Bytes → ℕ → Bytes × List Arg → Helper
  made name id proto = record { name = name; id = id; ret = proto.0; args = proto.1 }

  skipped :
      (name : Bytes) (id : ℕ) (numbers : List (Bytes × ℕ))
      → get protos name ≡ none
      → helpers_of protos ((name, id) ∷ numbers) ≡ helpers_of protos numbers
  unfolding helpers_of
  skipped name id numbers e = rw (helpers_of, e) refl

  added :
      (name : Bytes) (id : ℕ) (numbers : List (Bytes × ℕ)) (proto : Bytes × List Arg)
      → get protos name ≡ some proto
      → helpers_of protos ((name, id) ∷ numbers) ≡ made name id proto ∷ helpers_of protos numbers
  unfolding helpers_of
  added name id numbers proto e = rw (helpers_of, e) refl

  Has-helpers_of :
      (h : Helper) (numbers : List (Bytes × ℕ))
      → Has h (helpers_of protos numbers)
      → IsHelper protos numbers h
  unfolding helpers_of
  Has-helpers_of h [] has = absurd has
  Has-helpers_of h ((name, id) ∷ numbers) has = elim (Option-cases (get protos name)) [
    | inl e ↦
        let (known, proto) =
          Has-helpers_of h numbers (subst (Has h) (skipped name id numbers e) has) in
        (inr known, proto)
    | inr (proto, e) ↦ elim (subst (Has h) (added name id numbers proto e) has) [
      | inl same ↦ subst (IsHelper protos ((name, id) ∷ numbers)) same (inl refl, e)
      | inr later ↦ let (known, proto') = Has-helpers_of h numbers later in (inr known, proto')
    ]
  ]

  helpers_of-Has :
      (h : Helper) (numbers : List (Bytes × ℕ))
      → IsHelper protos numbers h
      → Has h (helpers_of protos numbers)
  unfolding helpers_of
  helpers_of-Has h [] (known, e) = known
  helpers_of-Has h ((name, id) ∷ numbers) (inl same, e) =
      let found : get protos name ≡ some (h.ret, h.args) =
        ap (λ (kv : Bytes × ℕ). get protos kv.0) same ∙ e in
      subst (Has h) (sym (added name id numbers (h.ret, h.args) found))
        (inl (ap (λ (kv : Bytes × ℕ). made kv.0 kv.1 (h.ret, h.args)) same))
  helpers_of-Has h ((name, id) ∷ numbers) (inr known, e) = elim (Option-cases (get protos name)) [
    | inl missing ↦
        subst (Has h) (sym (skipped name id numbers missing)) (helpers_of-Has h numbers (known, e))
    | inr (proto, found) ↦
        subst (Has h) (sym (added name id numbers proto found))
          (inr (helpers_of-Has h numbers (known, e)))
  ]

  -- The list of helpers has ascending numbers, and a helper is in it exactly if its name and
  -- number are among the numbered names and its return type and arguments are what the table of
  -- prototypes has for its name.
  pub helper_list_lem :
      (numbers : List (Bytes × ℕ))
      → Ascending (helper_list protos numbers)
        × ((h : Helper) → Has h (helper_list protos numbers) ↔ IsHelper protos numbers h)
  unfolding number_leq helper_list
  helper_list_lem numbers = (
    ascends (sort number_leq numbers)
        (sort-Sorted number_leq (λ x y h. ground arith) (λ x y z h h'. ground arith) numbers),
    λ h. (
      λ has.
          let (known, e) = Has-helpers_of h (sort number_leq numbers) has in
          (Has-sort number_leq (h.name, h.id) numbers known, e),
      λ (known, e).
          helpers_of-Has h (sort number_leq numbers)
            (sort-Has number_leq (h.name, h.id) numbers known, e),
    ),
  )
