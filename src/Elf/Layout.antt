-- ===== src/Elf/Layout.antt =====
-- `Elf.build`, the order of the symbols and the layout of the file.
pub mod Padding
pub mod Order
pub mod Locals
pub mod Placement
use koit.Base.{
  ℕ, zero, suc, ◌+◌, ◌-◌, ◌%◌, ◌/◌, ◌≡◌, ◌<◌, refl, Bool, true, false, not, ◌&&◌, ◌||◌, Option,
  none, some, List, [], ◌∷◌, ◌++◌, length, max, ltb, leb, ◌==◌, if◌then◌else◌, get_elem?, map,
}
use koit.Base.Bits.{◌>>>◌}
use koit.Base.Bytes.{Bytes}
use koit.Base.Dict.{Dict, put_all, nat_eq}
use koit.Base.Sort.{sort}
use koit.Elf.{Section, Symbol, stb_local, sht_nobits}

-- `s["info"] >> 4 != STB_LOCAL`
unfoldable pub is_global : Symbol → Bool
is_global s = not (s.info >>> 4 == stb_local)

-- The sort key of a symbol's index: whether it is not 0, whether it is global, the index.
abbrev pub SortKey : Type 0
SortKey = Bool × Bool × ℕ

unfoldable pub sort_key : List Symbol → ℕ → SortKey
sort_key symbols i =
    (not (i == 0), elim (get_elem? symbols i) [ none ↦ false | some s ↦ is_global s ], i)

-- `<=` of Booleans and of keys, as tuples compare.
unfoldable pub bool_leq : Bool → Bool → Bool
bool_leq true false = false
bool_leq _ _ = true

unfoldable pub key_leq : SortKey → SortKey → Bool
key_leq (a, b, i) (c, d, j) =
    if bool_leq a c
    then (if bool_leq c a
        then (if bool_leq b d then (if bool_leq d b then leb i j else true) else false)
        else true)
    else false

unfoldable pub range : ℕ → ℕ → List ℕ
range i zero = []
range i (suc n) = i ∷ range (i + 1) n

-- `order`: the old numbers of the symbols in their new order.
unfoldable pub symbol_order : List Symbol → List ℕ
symbol_order symbols =
    sort (λ i j. key_leq (sort_key symbols i) (sort_key symbols j)) (range 0 (length symbols))

-- `enumerate(order)` turned round: the pairs of an old and its new number.
unfoldable pub numbered : ℕ → List ℕ → List (ℕ × ℕ)
numbered new [] = []
numbered new (old ∷ order) = (old, new) ∷ numbered (new + 1) order

unfoldable pub renumbering : List ℕ → Dict ℕ ℕ
renumbering order = put_all [] (numbered 0 order)

-- `[self.symbols[i] for i in order]`; every number of the order is a symbol's.
unfoldable pub select : List Symbol → List ℕ → List Symbol
select symbols [] = []
select symbols (i ∷ order) = elim (get_elem? symbols i) [
  | none ↦ select symbols order
  | some s ↦ s ∷ select symbols order
]

-- The number of the first global symbol, or of symbols if there is none.
unfoldable pub first_global : List Symbol → ℕ
first_global [] = 0
first_global (s ∷ symbols) = if is_global s then 0 else suc (first_global symbols)

-- `while (pos + len(body)) % align: body += b"\0"`, with fuel.
unfoldable pub pad : ℕ → ℕ → ℕ → Bytes → Bytes
pad zero pos align body = body
pad (suc fuel) pos align body =
    let more = pad fuel pos align (body ++ (0 ∷ [])) in
    if (pos + length body) % align == 0 then body else more

-- The size of the file's header, and of a section's.
abbrev pub header_size : ℕ
header_size = 64

-- The loop over the sections: their offsets, and the body. A round of padding for each residue of
-- the alignment is fuel enough.
unfoldable pub lay_out : List Section → Bytes → List ℕ × Bytes
lay_out [] body = ([], body)
lay_out (s ∷ sections) body =
    let align = max s.align 1 in
    let padded = pad align header_size align body in
    let rest = lay_out sections (if s.type == sht_nobits then padded else padded ++ s.content) in
    ((header_size + length padded) ∷ rest.0, rest.1)
