-- ===== src/Transcribe/Enums/Numbering.antt =====
-- tools/transcribe/transcribe.py: the loop over an enumeration's body numbers its members by the rule.
use koit.Base.{
  ℕ, ◌*◌, ◌^◌, ◌≡◌, ◌≢◌, ◌↔◌, refl, sym, ap, ◌∙◌, Bool-cases, Option-cases, inl, inr, true, false,
  Option, none, some, List, [], ◌∷◌, ◌++◌, ok, ◌>>=◌, >>=-eq-ok,
}
use koit.Base.Bytes.{Bytes}
use koit.Base.Dict.{Dict, get, put, put_all, get-put, same_bytes, bytes_eq}
use koit.Base.Int.{ℤ, pos}
use koit.Base.Regex.{Match, match_in, text_of, sub}
use koit.Base.Text.{is_empty, parse_int}
use koit.Btf.CType.{strip}
use mathlib.Core.Path.{subst}
use koit.Transcribe.{partition, split_on}
use koit.Transcribe.Enums.Rules.{
  Follows, latest, Gives, Members, next_value-Follows, Parts, partition-Parts, Follows-unique,
  partition-free, partition-append, append-full, known, shift, literal, done, blank, alone, given,
}
use koit.Transcribe.Enums.{
  Value, shift_pattern, shifted, enum_value, next_value, enum_item, enum_loop, parse_enum_body,
  comment_pattern, directive_pattern,
}

abbrev or_else : Option ℤ → Option ℤ → Option ℤ
or_else (some v) other = some v
or_else none other = other

get-put_all :
    (d : Dict Bytes ℤ) (values : List Value) (name : Bytes)
    → get (put_all d values) name ≡ or_else (latest values name) (get d name)
unfolding put_all
get-put_all d [] name = refl
get-put_all d ((n, v) ∷ values) name =
    get-put_all (put d n v) values name ∙ elim (Option-cases (latest values name)) [
      | inl e ↦
          rw (e, get-put d name n v)
            (elim (Bool-cases (same_bytes n name)) [
              | inl same ↦ rw same refl
              | inr same ↦ rw same refl
            ])
      | inr (w, e) ↦ rw e refl
    ]

get-latest :
    (values : List Value) (name : Bytes) → get (put_all [] values) name ≡ latest values name
unfolding get
get-latest values name =
    get-put_all [] values name
    ∙ elim (Option-cases (latest values name)) [ inl e ↦ rw e refl | inr (w, e) ↦ rw e refl ]

found :
    (earlier : List Value) (name : Bytes) {o : Option ℤ}
    → latest earlier name ≡ o
    → get (put_all [] earlier) name ≡ o
found earlier name e = get-latest earlier name ∙ e

shifted-ok :
    (m : Match) {v : ℤ}
    → shifted m ≡ ok v
    → (base : ℕ) × (by : ℕ) × (parse_int 10 (text_of m 1) ≡ ok base)
      × (parse_int 10 (text_of m 2) ≡ ok by)
      × (v ≡ pos (base * 2 ^ by))
unfolding shifted
shifted-ok m h =
    let (base, one, behind) = >>=-eq-ok (parse_int 10 (text_of m 1)) _ h in
    let (by, two, value) = >>=-eq-ok (parse_int 10 (text_of m 2)) _ behind in
    (base, by, one, two, sym (cc value))

enum_value-Gives :
    (earlier : List Value) (val : Bytes) {v : ℤ}
    → enum_value val (put_all [] earlier) ≡ ok v
    → Gives earlier (strip val) v
unfolding enum_value
enum_value-Gives earlier val {v} h = elim (Option-cases (latest earlier (strip val))) [
  | inr (w, e) ↦
      let same : ok w ≡ ok v = sym (rw (enum_value, found earlier (strip val) e) refl) ∙ h in
      known (e ∙ cc same)
  | inl e ↦ elim (Option-cases (match_in shift_pattern (strip val))) [
    | inl f ↦ literal e f (sym (rw (enum_value, found earlier (strip val) e, f) refl) ∙ h)
    | inr (m, f) ↦
        let runs : shifted m ≡ ok v =
          sym (rw (enum_value, found earlier (strip val) e, f) refl) ∙ h in
        let (base, by, one, two, value) = shifted-ok m runs in shift base by e f one two value
  ]
]

is_empty_nil : (s : Bytes) → is_empty s ≡ true → s ≡ []
unfolding is_empty
is_empty_nil [] h = refl
is_empty_nil (c ∷ cs) h = cc

nonempty : (s : Bytes) → is_empty s ≡ false → s ≢ []
unfolding is_empty
nonempty [] h = cc
nonempty (c ∷ cs) h = λ e. cc

-- An item that is not blank has a name and a number, as the rule for the rest goes on with them.
item-Members :
    (earlier : List Value) (nxt : ℤ) (item : Bytes) (items : List Bytes) {values : List Value}
    (value : Value) (parts : Bytes × Option Bytes)
    → Follows earlier nxt
    → is_empty (strip item) ≡ false
    → Parts b'=' (strip item) parts
    → enum_item earlier nxt parts ≡ ok value
    → Members (earlier ++ (value ∷ [])) items values
    → Members earlier (item ∷ items) values
unfolding enum_item
item-Members earlier nxt item items {values} value (a, none) follows full (e, free) h rest =
    let same : value ≡ (strip item, nxt) = cc (h, e) in
    alone nxt (nonempty (strip item) full) free follows
      (subst (λ (x : Value). Members (earlier ++ (x ∷ [])) items values) same rest)
item-Members earlier nxt item items {values} value (a, some b) follows full (e, free) h rest =
    let (v, number, same) = >>=-eq-ok (enum_value (strip b) (put_all [] earlier)) _ h in
    let pair : value ≡ (strip a, v) = sym (cc same) in
    given a b v e free (enum_value-Gives earlier (strip b) number)
      (subst (λ (x : Value). Members (earlier ++ (x ∷ [])) items values) pair rest)

enum_loop-Members :
    (earlier : List Value) (nxt : ℤ) (items : List Bytes) {values : List Value}
    → Follows earlier nxt
    → enum_loop earlier nxt items ≡ ok values
    → Members earlier items values
unfolding enum_loop
enum_loop-Members earlier nxt [] {values} follows h = subst (Members earlier []) (cc h) done
enum_loop-Members earlier nxt (item ∷ items) {values} follows h =
    elim (Bool-cases (is_empty (strip item))) [
      | inl e ↦
          blank (is_empty_nil (strip item) e)
            (enum_loop-Members earlier nxt items follows (sym (rw (enum_loop, e) refl) ∙ h))
      | inr e ↦
          let runs : (enum_item earlier nxt (partition b'=' (strip item)) >>= λ value.
          enum_loop (earlier ++ (value ∷ [])) (next_value value.1) items)
              ≡ ok values =
            sym (rw (enum_loop, e) refl) ∙ h in
          let (value, item_ok, rest) = >>=-eq-ok _ _ runs in
          item-Members earlier nxt item items value (partition b'=' (strip item)) follows e
            (partition-Parts b'=' (strip item)) item_ok
            (enum_loop-Members (earlier ++ (value ∷ [])) (next_value value.1) items
              (next_value-Follows earlier value.0 value.1) rest)
    ]

Gives-enum_value :
    (earlier : List Value) (val : Bytes) {v : ℤ}
    → Gives earlier (strip val) v
    → enum_value val (put_all [] earlier) ≡ ok v
unfolding enum_value shifted
Gives-enum_value earlier val (known e) = rw (enum_value, found earlier (strip val) e) refl
Gives-enum_value earlier val (shift base by e f one two value) =
    rw (enum_value, found earlier (strip val) e, f, shifted, one, two, value) refl
Gives-enum_value earlier val (literal e f value) =
    rw (enum_value, found earlier (strip val) e, f) value

is_empty-full : (s : Bytes) → s ≢ [] → is_empty s ≡ false
unfolding is_empty
is_empty-full [] h = absurd (h refl)
is_empty-full (c ∷ cs) h = refl

enum_loop-step :
    (earlier : List Value) (nxt : ℤ) (item : Bytes) (items : List Bytes)
    (parts : Bytes × Option Bytes) (value : Value) {values : List Value}
    → strip item ≢ []
    → partition b'=' (strip item) ≡ parts
    → enum_item earlier nxt parts ≡ ok value
    → enum_loop (earlier ++ (value ∷ [])) (next_value value.1) items ≡ ok values
    → enum_loop earlier nxt (item ∷ items) ≡ ok values
unfolding enum_loop
enum_loop-step earlier nxt item items parts value full split number rest =
    rw (enum_loop, is_empty-full (strip item) full, split, number) rest

Members-enum_loop :
    (earlier : List Value) (nxt : ℤ) (items : List Bytes) {values : List Value}
    → Follows earlier nxt
    → Members earlier items values
    → enum_loop earlier nxt items ≡ ok values
unfolding enum_loop enum_item is_empty
Members-enum_loop earlier nxt [] follows done = refl
Members-enum_loop earlier nxt (item ∷ items) follows (blank e rest) =
    rw (enum_loop, e) (Members-enum_loop earlier nxt items follows rest)
Members-enum_loop earlier nxt (item ∷ items) follows (alone v full free behind rest) =
    let same : v ≡ nxt = Follows-unique earlier v nxt behind follows in
    enum_loop-step earlier nxt item items (strip item, none) (strip item, v) full
      (partition-free b'=' (strip item) free) (cc same)
      (Members-enum_loop (earlier ++ ((strip item, v) ∷ [])) (next_value v) items
        (next_value-Follows earlier (strip item) v) rest)
Members-enum_loop earlier nxt (item ∷ items) follows (given name val v e free gives rest) =
    enum_loop-step earlier nxt item items (name, some val) (strip name, v)
      (λ empty. append-full b'=' name val (sym e ∙ empty))
      (ap (partition b'=') e ∙ partition-append b'=' name val free)
      (rw (Gives-enum_value earlier (strip val) gives) refl)
      (Members-enum_loop (earlier ++ ((strip name, v) ∷ [])) (next_value v) items
        (next_value-Follows earlier (strip name) v) rest)

-- An enumeration's body has exactly the values that C's rule gives its items, without comments
-- and directives: a name alone gets 0 if it is the first member and else one more than the member
-- before it, and a name in front of a `=` gets the number of the latest member that the text
-- behind it names, or if there is none the shift or the number that the text is.
pub parse_enum_body_iff :
    (body : Bytes) (values : List Value)
    → (parse_enum_body body ≡ ok values)
      ↔ Members [] (split_on b',' (sub directive_pattern [] (sub comment_pattern [] body))) values
unfolding parse_enum_body
parse_enum_body_iff body values =
    (λ h. enum_loop-Members [] (pos 0) _ refl h, λ h. Members-enum_loop [] (pos 0) _ refl h)
