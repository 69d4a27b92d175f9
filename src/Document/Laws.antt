-- ===== src/Document/Laws.antt =====
-- Names: `Types.resolve` ends where the document's names do, and `Unit.map` finds the first map.
use koit.Base.{
  ℕ, zero, suc, ◌≤◌, ◌<◌, ◌≡◌, ◌≢◌, refl, ap, ◌∙◌, arith, some, List, [], ◌∷◌, ◌++◌, length, All,
  ◌⊎◌, inl, inr, Bool-cases, Option-cases, Result, ok, err, key_error,
}
use koit.Base.Bytes.{Bytes}
use koit.Base.Dict.{get, bytes_eq, same_bytes, same_bytes_iff}
use koit.Document.{MapDecl, find_map}
use koit.Document.Layout.{Ty, Types, resolve, resolve_loop, named}

-- The description is no name.
abbrev pub IsResolved : Ty → Type 0
IsResolved (named n) = ⊥
IsResolved _ = Unit

-- A name of the document stands for a name of a lower rank or for no name; ranks are at most the
-- number of names.
pub record IsRank (types : Types) (rank : Bytes → ℕ) : Type 0 where
  pub bounded : (n : Bytes) → rank n ≤ length types
  pub lower : (n m : Bytes) → get types n ≡ some (named m) → rank m < rank n

-- What `resolve` gives for a description: no name, or `KeyError` for a name that is missing.
abbrev pub Ends : Result Ty → Type 0
Ends r = (r ≡ err key_error) ⊎ ((u : Ty) × (r ≡ ok u) × IsResolved u)

-- The loop stops at what is no name.
follow :
    (types : Types) (fuel : ℕ) (t : Ty)
    → ((m : Bytes) → t ≡ named m → Ends (resolve_loop fuel types (named m)))
    → Ends (resolve_loop fuel types t)
unfolding resolve_loop
follow types fuel (named m) ends = ends m refl
follow types zero t ends = inr (t, refl, tt)
follow types (suc fuel) t ends = inr (t, refl, tt)

module _ (types : Types) (rank : Bytes → ℕ) (h : IsRank types rank) where
  loop-Ends : (fuel : ℕ) (n : Bytes) → rank n < fuel → Ends (resolve_loop fuel types (named n))
  unfolding resolve_loop
  loop-Ends zero n lt = absurd (omega arith)
  loop-Ends (suc fuel) n lt = elim (Option-cases (get types n)) [
    | inl missing ↦ inl (rw (resolve_loop, missing) refl)
    | inr (t, found) ↦
        rw (resolve_loop, found)
          (follow types fuel t
            (λ m e. loop-Ends fuel m (omega (arith, h.lower n m (found ∙ ap some e)))))
  ]

  -- Where the names have ranks, at most their number, that fall from a name to the name it stands
  -- for, `resolve` returns a description that is no name, or `KeyError`: its bound never stops
  -- it.
  pub resolve-Ends : (t : Ty) → Ends (resolve types t)
  unfolding resolve
  resolve-Ends t =
      follow types (suc (length types)) t
        (λ m e. loop-Ends (suc (length types)) m (omega (arith, h.bounded m)))

-- Either `find_map` returns a map of the name before which there is none, or it is `KeyError` and
-- no map has the name.
pub find_map_cases :
    (maps : List MapDecl) (name : Bytes)
    → ((before : List MapDecl) × (after : List MapDecl) × (m : MapDecl) × (maps
          ≡ before ++ (m ∷ after))
        × (m.name ≡ name)
        × All (λ (k : MapDecl). k.name ≢ name) before
        × (find_map maps name ≡ ok m))
      ⊎ ((find_map maps name ≡ err key_error) × All (λ (k : MapDecl). k.name ≢ name) maps)
unfolding find_map
find_map_cases [] name = inr (refl, tt)
find_map_cases (m ∷ maps) name = elim (Bool-cases (same_bytes m.name name)) [
  | inl hit ↦ inl ([], maps, m, refl, (same_bytes_iff m.name name).0 hit, tt, rw hit refl)
  | inr miss ↦
      let other : m.name ≢ name = λ e. ground (arith, same_bytes_iff m.name name, miss, e) in
      elim (find_map_cases maps name) [
        | inl (before, after, k, split, is, others, found) ↦
            inl (m ∷ before, after, k, ap (λ xs. m ∷ xs) split, is, (other, others), rw miss found)
        | inr (absent, others) ↦ inr (rw miss absent, (other, others))
      ]
]
