-- ===== src/Transcribe/ProtoFns/Shared.antt =====
-- tools/transcribe/transcribe.py: labels that stand above one another share the prototype behind the last.
use koit.Base.{
  ◌≡◌, refl, sym, ap, ◌∙◌, All, none, some, List, [], ◌∷◌, ◌++◌, map, append_assoc, append-nil,
}
use koit.Base.Bytes.{Bytes}
use koit.Base.Dict.{Dict}
use koit.Base.Regex.{search_in}
use koit.Transcribe.ProtoFns.{
  Label, helper, Cases, named_proto, return_pattern, label_step, label_steps,
}

-- Behind the label stands neither a prototype nor a `return`.
abbrev pub FallsThrough : Dict Bytes Bytes → Bytes × Bytes → Type 0
FallsThrough getters (name, behind) =
    (named_proto getters behind ≡ none) × (search_in return_pattern behind ≡ none)

abbrev pub label_for : Bytes × Bytes → Label
label_for (name, behind) = helper name behind

-- The cases with the prototype for the helpers.
abbrev pub Given : Cases → List Bytes → Bytes → Cases
Given c helpers proto = record {
  cases = c.cases ++ map (λ h. (h, proto)) helpers;
  fallback = c.fallback;
  pending = [];
}

module _ (getters : Dict Bytes Bytes) where
  falls :
      (above : List (Bytes × Bytes)) (last : List Label) (c : Cases)
      → All (FallsThrough getters) above
      → label_steps getters c (map label_for above ++ last)
        ≡ label_steps getters (record c { pending = c.pending ++ map (λ l. l.0) above }) last
  unfolding label_steps label_step
  falls [] last c all =
      ap (λ ps. label_steps getters (record c { pending = ps }) last) (sym (append-nil c.pending))
  falls ((name, behind) ∷ above) last c ((p, r), all) =
      rw (label_steps, label_step, p, r)
        (falls above last (record c { pending = c.pending ++ (name ∷ []) }) all
          ∙ ap (λ ps. label_steps getters (record c { pending = ps }) last)
              (append_assoc c.pending (name ∷ []) (map (λ l. l.0) above)))

  -- For labels behind which stands neither a prototype nor a `return`, followed by a label behind
  -- which a prototype is named, the loop adds a case with that prototype for each pending helper,
  -- for each of those labels and for the last, in this order, leaves the fallback, and has no
  -- helper pending.
  pub label_steps_shared :
      (above : List (Bytes × Bytes)) (name behind proto : Bytes) (c : Cases)
      → All (FallsThrough getters) above
      → named_proto getters behind ≡ some proto
      → label_steps getters c (map label_for above ++ (helper name behind ∷ []))
        ≡ Given c ((c.pending ++ map (λ l. l.0) above) ++ (name ∷ [])) proto
  unfolding label_steps label_step
  label_steps_shared above name behind proto c all h =
      falls above (helper name behind ∷ []) c all ∙ rw (label_step, h) refl
