-- ===== src/Btf/Strings.antt =====
-- The string table: an offset that `Btf.string` gives reads as the text, then and ever after.
use koit.Base.{
  ℕ, zero, suc, ◌+◌, ◌≤◌, ◌<◌, ◌≡◌, ◌≢◌, refl, sym, ap, ◌∙◌, arith, none, some, [], ◌∷◌, ◌++◌,
  length, take, drop, ◌==◌, ok, append_assoc, append-nil, take-append, drop-append, length-append,
  Option-cases, Bool-cases, inl, inr,
}
use koit.Base.Bytes.{
  Bytes, NoNul, find, find-eq-some, starts_with, starts_with-eq-true, index_of_byte-append,
}
use koit.Btf.{string, reusable}
use koit.Btf.Monad.{Btf}
use koit.Btf.Reader.{cstring_at, name_at}

-- At `off` the table holds the text `s` with its NUL.
pub record Names (strings : Bytes) (off : ℕ) (s : Bytes) : Type 0 where
  pub rest : Bytes
  pub here : drop off strings ≡ s ++ (0 ∷ rest)
  pub no_nul : NoNul s
  pub empty_at_zero : off ≡ 0 → s ≡ []

-- The table begins with the empty text.
pub record IsTable (strings : Bytes) : Type 0 where
  pub tail : Bytes
  pub begins : strings ≡ 0 ∷ tail

pub cstring_at_lem :
    (strings : Bytes) (off : ℕ) (s rest : Bytes)
    → drop off strings ≡ s ++ (0 ∷ rest)
    → NoNul s
    → cstring_at strings off ≡ s
unfolding cstring_at
cstring_at_lem strings off s rest e h =
    rw (cstring_at, e, index_of_byte-append s rest h)
      (ap (take (length s)) e ∙ take-append s (0 ∷ rest))

-- What stands at the offset is read there.
pub name_at-Names :
    {strings : Bytes} {off : ℕ} {s : Bytes} → Names strings off s → name_at strings off ≡ s
unfolding name_at
name_at-Names {strings} {off} {s} n = elim (Bool-cases (off == 0)) [
  | inl z ↦ rw z (sym (n.empty_at_zero (ground arith)))
  | inr nz ↦ rw nz (cstring_at_lem strings off s n.rest n.here n.no_nul)
]

drop_extend :
    (xs more ys : Bytes) (off : ℕ) (y : ℕ)
    → drop off xs ≡ y ∷ ys
    → drop off (xs ++ more) ≡ (y ∷ ys) ++ more
drop_extend [] more ys zero y h = cc
drop_extend [] more ys (suc off) y h = cc
drop_extend (x ∷ xs) more ys zero y h = ap (λ zs. zs ++ more) h
drop_extend (x ∷ xs) more ys (suc off) y h = drop_extend xs more ys off y h

drop_extend_text :
    (xs more s rest : Bytes) (off : ℕ)
    → drop off xs ≡ s ++ (0 ∷ rest)
    → drop off (xs ++ more) ≡ s ++ (0 ∷ (rest ++ more))
drop_extend_text xs more [] rest off h = drop_extend xs more rest off 0 h
drop_extend_text xs more (c ∷ s) rest off h =
    drop_extend xs more (s ++ (0 ∷ rest)) off c h ∙ append_assoc (c ∷ s) (0 ∷ rest) more

-- Texts added behind do not change what an offset reads.
pub Names-append :
    {strings : Bytes} {off : ℕ} {s : Bytes} (more : Bytes)
    → Names strings off s
    → Names (strings ++ more) off s
Names-append {strings} {off} {s} more n = record {
  rest = n.rest ++ more;
  here = drop_extend_text strings more s n.rest off n.here;
  no_nul = n.no_nul;
  empty_at_zero = n.empty_at_zero;
}

-- What `string` gives for `s` in state `b`.
pub record Interned (b : Btf) (s : Bytes) : Type 0 where
  pub off : ℕ
  pub more : Bytes
  pub result : string s b ≡ ok (off, record b { strings = b.strings ++ more })
  pub names : Names (b.strings ++ more) off s
  pub table : IsTable (b.strings ++ more)
  pub more_le : length more ≤ length s + 1

reusable-find :
    (strings needle : Bytes) (i : ℕ)
    → reusable strings needle ≡ some i
    → find needle strings ≡ some i
unfolding reusable
reusable-find strings needle i h = ground arith

-- A text that begins with another byte than NUL is not found where the table begins.
find-ne-zero :
    (strings : Bytes) (c : ℕ) (cs : Bytes)
    → IsTable strings
    → c ≢ 0
    → find (c ∷ cs) strings ≢ some 0
unfolding find starts_with
find-ne-zero strings c cs t nz found =
    let f : find (c ∷ cs) (0 ∷ t.tail) ≡ some 0 = rw t.begins at found in ground arith

module _ (b : Btf) (c : ℕ) (cs : Bytes) (t : IsTable b.strings) (plain : NoNul (c ∷ cs)) where
  abbrev entry : Bytes
  entry = (c ∷ cs) ++ (0 ∷ [])

  reused : (i : ℕ) → reusable b.strings entry ≡ some i → Interned b (c ∷ cs)
  reused i e = record {
    off = i;
    more = [];
    result = unfold string in rw (string, e, append-nil b.strings) refl;
    names = rw append-nil (record {
      rest = drop (length entry) (drop i b.strings);
      here = found ∙ append_assoc (c ∷ cs) (0 ∷ []) _;
      no_nul = plain;
      empty_at_zero = λ z. absurd (
          find-ne-zero b.strings c (cs ++ (0 ∷ [])) t plain.0
            (rw z at (reusable-find b.strings entry i e)));
    });
    table = rw append-nil t;
    more_le = omega arith;
  }
    where
      found : drop i b.strings ≡ entry ++ drop (length entry) (drop i b.strings)
      found =
          starts_with-eq-true entry (drop i b.strings)
            (find-eq-some entry b.strings i (reusable-find b.strings entry i e))

  appended : reusable b.strings entry ≡ none → Interned b (c ∷ cs)
  appended e = record {
    off = length b.strings;
    more = entry;
    result = unfold string in rw (string, e) refl;
    names = record {
      rest = [];
      here = drop-append b.strings entry;
      no_nul = plain;
      empty_at_zero = λ z. absurd (omega (arith, ap (λ (xs : Bytes). length xs) t.begins));
    };
    table = record { tail = t.tail ++ entry; begins = ap (λ xs. xs ++ entry) t.begins };
    more_le = omega (arith, length-append {0} (c ∷ cs) (0 ∷ []));
  }

-- On a string table that begins with the empty text, `string` of a text without NUL succeeds: it
-- adds at most the text and a NUL behind the table, and at the offset that it returns, which is 0
-- only for the empty text, the table has the text and a NUL.
pub intern : (b : Btf) (s : Bytes) → IsTable b.strings → NoNul s → Interned b s
intern b [] t plain = record {
  off = 0;
  more = [];
  result = unfold string in rw (append-nil b.strings) refl;
  names =
      rw append-nil
        (record { rest = t.tail; here = t.begins; no_nul = plain; empty_at_zero = λ z. refl });
  table = rw append-nil t;
  more_le = omega arith;
}
intern b (c ∷ cs) t plain = elim (Option-cases (reusable b.strings ((c ∷ cs) ++ (0 ∷ [])))) [
  | inl e ↦ appended b c cs t plain e
  | inr (i, e) ↦ reused b c cs t plain i e
]

lt-drop : (xs : Bytes) (off : ℕ) (y : ℕ) (ys : Bytes) → drop off xs ≡ y ∷ ys → off < length xs
lt-drop [] zero y ys h = cc
lt-drop [] (suc off) y ys h = cc
lt-drop (x ∷ xs) zero y ys h = omega arith
lt-drop (x ∷ xs) (suc off) y ys h = omega (arith, lt-drop xs off y ys h)

lt-drop_text :
    (xs : Bytes) (off : ℕ) (s rest : Bytes) → drop off xs ≡ s ++ (0 ∷ rest) → off < length xs
lt-drop_text xs off [] rest h = lt-drop xs off 0 rest h
lt-drop_text xs off (c ∷ s) rest h = lt-drop xs off c (s ++ (0 ∷ rest)) h

pub Names-lt : {strings : Bytes} {off : ℕ} {s : Bytes} → Names strings off s → off < length strings
Names-lt {strings} {off} {s} n = lt-drop_text strings off s n.rest n.here
