-- ===== src/Btf/Extra.antt =====
-- The bytes behind a BTF record, as the format has them for each kind.
use koit.Base.{ℕ, ◌*◌, ◌≡◌, ◌≢◌, ◌⊎◌, inl, inr, ==_ne}
use koit.Btf.Reader.{extra_len}

-- Nothing, a word, an array's three words, or two or three words for each entry.
pub data ExtraLength (kind vlen n : ℕ) : Type 0 where
  -- int, var, decl_tag
  word : (kind ≡ 1) ⊎ ((kind ≡ 14) ⊎ (kind ≡ 17)) → n ≡ 4 → ExtraLength kind vlen n
  array : kind ≡ 3 → n ≡ 12 → ExtraLength kind vlen n
  -- enum, func_proto
  two_words : (kind ≡ 6) ⊎ (kind ≡ 13) → n ≡ vlen * 8 → ExtraLength kind vlen n
  -- struct, union, datasec, enum64
  three_words :
      ((kind ≡ 4) ⊎ (kind ≡ 5)) ⊎ ((kind ≡ 15) ⊎ (kind ≡ 19))
      → n ≡ vlen * 12
      → ExtraLength kind vlen n
  plain :
      (kind ≢ 1)
        × (kind ≢ 3)
        × (kind ≢ 4)
        × (kind ≢ 5)
        × (kind ≢ 6)
        × (kind ≢ 13)
        × (kind ≢ 14)
        × (kind ≢ 15)
        × (kind ≢ 17)
        × (kind ≢ 19)
      → n ≡ 0
      → ExtraLength kind vlen n

pub ExtraLength-extra_len : (kind vlen n : ℕ) → ExtraLength kind vlen n → n ≡ extra_len kind vlen
unfolding extra_len
ExtraLength-extra_len kind vlen n (word (inl e) h) = rw e h
ExtraLength-extra_len kind vlen n (word (inr (inl e)) h) = rw e h
ExtraLength-extra_len kind vlen n (word (inr (inr e)) h) = rw e h
ExtraLength-extra_len kind vlen n (array e h) = rw e h
ExtraLength-extra_len kind vlen n (two_words (inl e) h) = rw e h
ExtraLength-extra_len kind vlen n (two_words (inr e) h) = rw e h
ExtraLength-extra_len kind vlen n (three_words (inl (inl e)) h) = rw e h
ExtraLength-extra_len kind vlen n (three_words (inl (inr e)) h) = rw e h
ExtraLength-extra_len kind vlen n (three_words (inr (inl e)) h) = rw e h
ExtraLength-extra_len kind vlen n (three_words (inr (inr e)) h) = rw e h
ExtraLength-extra_len kind vlen n (plain (a, b, c, d, e, f, g, i, j, k) h) =
    rw
      (
        ==_ne kind 1 a,
        ==_ne kind 3 b,
        ==_ne kind 4 c,
        ==_ne kind 5 d,
        ==_ne kind 6 e,
        ==_ne kind 13 f,
        ==_ne kind 14 g,
        ==_ne kind 15 i,
        ==_ne kind 17 j,
        ==_ne kind 19 k,
      )
      h
