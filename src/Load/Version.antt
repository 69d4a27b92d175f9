-- ===== src/Load/Version.antt =====
-- The loader's version check compares the first two components.
pub mod Parts
use koit.Base.{
  ℕ, ◌≡◌, ◌≢◌, refl, sym, ap, ◌∙◌, ◌↔◌, ◌⊎◌, inl, inr, arith, All, Bool, true, false, not, ◌&&◌,
  Bool-cases, [], ◌∷◌, ◌++◌, append-nil, leb, ◌==◌, ==_iff, ==_ne, if◌then◌else◌, Result, ok, err,
  system_exit,
}
use koit.Base.Bytes.{Bytes, NoByte}
use koit.Base.Dict.{same_bytes, same_bytes_iff}
use koit.Base.Text.{join}
use koit.Load.Version.Parts.{
  FirstTwo, Version, tag_version-Version, Version-tag_version, major_minor-free,
  major_minor-FirstTwo, FirstTwo-major_minor,
}
use mathlib.Core.Path.{subst}
use koit.Load.{lstrip_v, split_first, split, count, major_minor, tag_version, check_version}

abbrev wanted : Bytes → Bytes
wanted version = if leb 1 (count b'.' version) then major_minor version else version

count-free : (sep : ℕ) (s : Bytes) → count sep s ≡ 0 → NoByte sep s
unfolding count
count-free sep [] h = tt
count-free sep (x ∷ xs) h = elim (Bool-cases (x == sep)) [
  | inl e ↦ absurd (ground (arith, e, h))
  | inr e ↦ (λ at. cc (e, (==_iff x sep).1 at), count-free sep xs (sym (rw e refl) ∙ h))
]

wanted-major_minor : (version : Bytes) → wanted version ≡ major_minor version
wanted-major_minor version = elim (Bool-cases (leb 1 (count b'.' version))) [
  | inl e ↦ rw e refl
  | inr e ↦ rw e (sym (major_minor-free version (count-free b'.' version (ground (arith, e)))))
]

abbrev outcome : Bool → Bool → Result (Unit {0})
outcome same override = if not same && not override then err system_exit else ok tt

outcome_iff :
    {P : Type 0} (same override : Bool)
    → (same ≡ true) ↔ P
    → (outcome same override ≡ ok tt) ↔ ((override ≡ true) ⊎ P)
outcome_iff true override iff = (λ h. inr (iff.0 refl), λ h. refl)
outcome_iff false true iff = (λ h. inl refl, λ h. refl)
outcome_iff false false iff = (λ h. cc, λ h. elim h [ inl e ↦ cc | inr p ↦ cc (iff.1 p) ])

-- The tag's version and the release have the same first two components.
abbrev pub Agree : Bytes → Bytes → Type 0
Agree tag release =
    (version : Bytes) × (two : Bytes) × Version tag version
    × FirstTwo version two
    × FirstTwo release two

same_iff :
    (tag release : Bytes)
    → (same_bytes (major_minor (tag_version tag)) (major_minor release) ≡ true) ↔ Agree tag release
same_iff tag release = (
  λ h. (
    tag_version tag,
    major_minor (tag_version tag),
    tag_version-Version tag,
    major_minor-FirstTwo (tag_version tag),
    subst (FirstTwo release) (sym ((same_bytes_iff _ _).0 h)) (major_minor-FirstTwo release),
  ),
  λ (version, two, is, first, second). (same_bytes_iff _ _).1 (
      ap major_minor (Version-tag_version tag version is)
      ∙ FirstTwo-major_minor version two first
      ∙ sym (FirstTwo-major_minor release two second)),
)

-- The version check passes exactly if it is overridden or the version in the tag, which is what
-- stands between all letters `v` in front and the first dash, and the running release have the
-- same first two components, which are all of a text without a dot.
pub check_version_iff :
    (tag release : Bytes) (override : Bool)
    → (check_version tag release override ≡ ok tt) ↔ ((override ≡ true) ⊎ Agree tag release)
unfolding check_version
check_version_iff tag release override = rw (wanted-major_minor (tag_version tag)) (
    outcome_iff (same_bytes (major_minor (tag_version tag)) (major_minor release)) override
      (same_iff tag release))
