-- ===== src/Load/Contents.antt =====
-- tools/load.py: the values that `create_map` writes are the contents of the document's map.
use koit.Base.{
  ℕ, zero, suc, ◌+◌, ◌-◌, ◌*◌, ◌≤◌, ◌<◌, ◌≡◌, refl, sym, ap, ◌∙◌, arith, All, List, [], ◌∷◌, ◌++◌,
  length, take, drop, replicate, append-nil, append_assoc, take_nil, take_add, drop_add, take_full,
  length-take_le, replicate_add, length-append, length-replicate, inl, inr, ◌⊎◌,
}
use koit.Base.Bytes.{Bytes}
use koit.Load.{initial_values}
use mathlib.Core.Path.{subst}

-- The values one behind the other.
abbrev pub joined : List (ℕ × Bytes) → Bytes
joined [] = []
joined ((i, value) ∷ values) = value ++ joined values

-- The entries are the ones from `i` on.
abbrev pub Numbered : ℕ → List (ℕ × Bytes) → Type 0
Numbered i [] = Unit
Numbered i ((j, value) ∷ values) = (j ≡ i) × Numbered (i + 1) values

-- At most `left` values of `vs` bytes, from the entry `i` on, hold the bytes, and zeros behind them.
pub record Holds (vs i left : ℕ) (bytes : Bytes) (values : List (ℕ × Bytes)) : Type 0 where
  pub zeros : ℕ
  pub content : joined values ≡ take (left * vs) bytes ++ replicate zeros 0
  pub sized : All (λ v. length v.1 ≡ vs) values
  pub numbered : Numbered i values
  pub few : length values ≤ left

take_some : (n : ℕ) (xs : Bytes) → zero < n → take n xs ≡ [] → xs ≡ []
take_some zero xs h e = absurd (omega (arith, h))
take_some (suc n) [] h e = refl
take_some (suc n) (x ∷ xs) h e = cc

no_values : (vs i left : ℕ) (bytes : Bytes) → bytes ≡ [] → Holds vs i left bytes []
no_values vs i left bytes e = record {
  zeros = 0;
  content = rw (e, take_nil (left * vs)) refl;
  sized = tt;
  numbered = tt;
  few = omega arith;
}

-- Zeros between two parts stand behind both, if there are none or the second part is empty.
zeros_behind :
    (xs ys : Bytes) (m n : ℕ)
    → (m ≡ 0) ⊎ (ys ≡ [])
    → (xs ++ replicate m 0) ++ (ys ++ replicate n 0) ≡ (xs ++ ys) ++ replicate (m + n) 0
zeros_behind xs ys m n (inl none) =
    rw (none, append-nil xs, ← append_assoc xs ys (replicate n 0))
      (ap (λ k. (xs ++ ys) ++ replicate k 0) (omega arith))
zeros_behind xs ys m n (inr none) =
    rw
      (
        none,
        append-nil xs,
        append_assoc xs (replicate m 0) (replicate n 0),
        replicate_add {A = ℕ} m n 0,
      )
      refl

-- A value in front, of the first bytes and the zeros that it lacks.
one_more :
    (vs i left : ℕ) (bytes : Bytes) (values : List (ℕ × Bytes))
    → Holds vs (i + 1) left (drop vs bytes) values
    → Holds vs i
        (suc left)
        bytes
        ((i, take vs bytes ++ replicate (vs - length (take vs bytes)) 0) ∷ values)
one_more vs i left bytes values h = record {
  zeros = vs - length (take vs bytes) + h.zeros;
  content =
      ap (λ v. (take vs bytes ++ replicate (vs - length (take vs bytes)) 0) ++ v) h.content
      ∙ zeros_behind (take vs bytes) (take (left * vs) (drop vs bytes)) _ h.zeros complete
      ∙ ap (λ v. v ++ replicate (vs - length (take vs bytes) + h.zeros) 0) taken;
  sized = (
    length-append (take vs bytes) _
        ∙ ap (λ k. length (take vs bytes) + k) (length-replicate (vs - length (take vs bytes)) 0)
        ∙ omega (arith, length-take_le vs bytes),
    h.sized,
  );
  numbered = (refl, h.numbered);
  few = omega (arith, h.few);
}
  where
    complete : (vs - length (take vs bytes) ≡ 0) ⊎ (take (left * vs) (drop vs bytes) ≡ [])
    complete = elim (take_full vs bytes) [
      | inl e ↦ inl (omega (arith, e))
      | inr e ↦ inr (rw e (take_nil (left * vs)))
    ]

    taken : take vs bytes ++ take (left * vs) (drop vs bytes) ≡ take (suc left * vs) bytes
    taken = sym (take_add vs (left * vs) bytes) ∙ ap (λ k. take k bytes) (omega arith)

-- One round of the loop, on the bytes of the entry.
round-Holds :
    (vs i left : ℕ) (bytes entry : Bytes) (values : List (ℕ × Bytes))
    → zero < vs
    → entry ≡ take vs bytes
    → Holds vs (i + 1) left (drop vs bytes) values
    → Holds vs i (suc left) bytes (elim entry as (λ _. List (ℕ × Bytes)) [
      | [] ↦ []
      | c ∷ cs ↦ (i, (c ∷ cs) ++ replicate (vs - length (c ∷ cs)) 0) ∷ values
    ])
round-Holds vs i left bytes [] values h e rest =
    no_values vs i (suc left) bytes (take_some vs bytes h (sym e))
round-Holds vs i left bytes (c ∷ cs) values h e rest =
    subst (λ t. Holds vs i (suc left) bytes ((i, t ++ replicate (vs - length t) 0) ∷ values))
      (sym e) (one_more vs i left bytes values rest)

-- For values of at least one byte, the values that `create_map` writes from an entry on, for as
-- many entries as are left, are at most so many, each of the value's size and for the entries
-- from there on, one each; joined, they are the contents from that entry on, as far as the
-- entries reach, with zeros behind.
pub initial_values-Holds :
    (contents : Bytes) (vs i left : ℕ)
    → zero < vs
    → Holds vs i left (drop (i * vs) contents) (initial_values contents vs i left)
unfolding initial_values
initial_values-Holds contents vs i zero h = record {
  zeros = 0;
  content = ap (λ k. take k (drop (i * vs) contents) ++ []) (zero_mul vs);
  sized = tt;
  numbered = tt;
  few = omega arith;
}
  where
    zero_mul : (n : ℕ) → 0 ≡ 0 * n
    zero_mul n = omega arith
initial_values-Holds contents vs i (suc left) h =
    round-Holds vs i left (drop (i * vs) contents) _ _ h
      (ap (λ k. take k (drop (i * vs) contents)) (omega arith))
      (subst (λ bytes. Holds vs (i + 1) left bytes (initial_values contents vs (i + 1) left)) next
        (initial_values-Holds contents vs (i + 1) left h))
  where
    next : drop ((i + 1) * vs) contents ≡ drop vs (drop (i * vs) contents)
    next = ap (λ k. drop k contents) (omega arith) ∙ drop_add (i * vs) vs contents
