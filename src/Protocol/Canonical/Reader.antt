-- ===== src/Protocol/Canonical/Reader.antt =====
-- What a canonical text says, and a reader of JSON that is independent of the writer: strings with
-- every short escape and `\u00xx`, integers, and the two containers, in the order of the text.
use retentionops_connector.Prelude.{
  ℕ, zero, suc, ◌+◌, ◌-◌, ◌*◌, String, Bool, true, false, ◌&&◌, ◌||◌, List, [], ◌∷◌, length, leb,
  eqb, if◌then◌else◌, Option, none, some,
}
use retentionops_connector.Prelude.Int.{ℤ, pos}
use retentionops_connector.Prelude.Text.{codes}
use retentionops_connector.Prelude.Result.{Result, ok, err, ◌>>=◌}
use retentionops_connector.Protocol.Json.{Json, Items, Members}
use retentionops_connector.Protocol.Values.{parse_int64}
use retentionops_connector.Protocol.Canonical.{quote, backslash, sort_entries}

-- A document as its readers see it.
mutual
  pub data Content : Type 0 where
    null : Content
    flag : Bool → Content
    text : List ℕ → Content
    integer : ℤ → Content
    list : Contents → Content
    record_of : Fields → Content

  pub data Contents : Type 0 where
    nil : Contents
    cons : Content → Contents → Contents

  pub data Fields : Type 0 where
    end : Fields
    field : List ℕ → Content → Fields → Fields

abbrev pub integer_or_zero : Option ℤ → ℤ
integer_or_zero none = pos 0
integer_or_zero (some z) = z

abbrev pub to_fields : List (String × Content) → Fields
to_fields [] = end
to_fields ((key, value) ∷ rest) = field (codes key) value (to_fields rest)

-- The content of a tree: its integers by value, and the members of its objects by their keys.
unfoldable mutual
  pub content : Json → Content
  content Json.null = null
  content (Json.bool b) = flag b
  content (Json.string s) = text (codes s)
  content (Json.number literal) = integer (integer_or_zero (parse_int64 literal))
  content (Json.array items) = list (contents items)
  content (Json.object members) = record_of (to_fields (sort_entries (member_contents members)))

  pub contents : Items → Contents
  contents Items.nil = nil
  contents (Items.cons item rest) = cons (content item) (contents rest)

  pub member_contents : Members → List (String × Content)
  member_contents Members.end = []
  member_contents (Members.member key value rest) = (key, content value) ∷ member_contents rest

pub data ReadError : Type 0 where
  unreadable out_of_fuel : ReadError

abbrev pub Reads {ℓ} : Type ℓ → Type ℓ
Reads A = Result ReadError (A × List ℕ)

-- Inside a string: plain characters, behind a backslash, or in a `\u` with digits left to read.
pub data Mode : Type 0 where
  plain : Mode
  escaped : Mode
  hex : ℕ → ℕ → Mode

abbrev pub hex_value : ℕ → ℕ
hex_value c = if leb c b'9' then c - b'0' else c - b'a' + 10

abbrev pub short_value : ℕ → ℕ
short_value c =
    if eqb c b'b'
    then 8
    else if eqb c b'f'
    then 12
    else if eqb c b'n'
    then 10
    else if eqb c b'r'
    then 13
    else if eqb c b't'
    then 9
    else c

-- The mode behind a character, and what the character adds.
abbrev pub step : Mode → ℕ → Mode × List ℕ
step plain c = if eqb c backslash then (escaped, []) else (plain, c ∷ [])
step escaped c = if eqb c b'u' then (hex 3 0, []) else (plain, short_value c ∷ [])
step (hex zero n) c = (plain, (n * 16 + hex_value c) ∷ [])
step (hex (suc left) n) c = (hex left (n * 16 + hex_value c), [])

abbrev pub closes : Mode → ℕ → Bool
closes plain c = eqb c quote
closes _ c = false

abbrev pub prepend : List ℕ → Reads (List ℕ) → Reads (List ℕ)
prepend [] r = r
prepend (c ∷ cs) r = r >>= λ (s, rest). ok (c ∷ s, rest)

unfoldable pub read_text : Mode → List ℕ → Reads (List ℕ)
read_text m [] = err unreadable
read_text m (c ∷ s) =
    let more = prepend (step m c).1 (read_text (step m c).0 s) in
    if closes m c then ok ([], s) else more

abbrev pub is_digit : ℕ → Bool
is_digit c = leb b'0' c && leb c b'9'

-- The longest prefix of digits.
unfoldable pub span_digits : List ℕ → List ℕ × List ℕ
span_digits [] = ([], [])
span_digits (c ∷ s) =
    let rest = span_digits s in if is_digit c then (c ∷ rest.0, rest.1) else ([], c ∷ s)

abbrev pub as_integer : List ℕ → List ℕ → Reads Content
as_integer literal rest = elim (parse_int64 literal) [
  | none ↦ err unreadable
  | some z ↦ ok (integer z, rest)
]

unfoldable pub read_number : ℕ → List ℕ → Reads Content
read_number c s =
    if eqb c b'-' || is_digit c
    then as_integer (c ∷ (span_digits s).0) (span_digits s).1
    else err unreadable

unfoldable pub expect : ℕ → List ℕ → Reads (Unit {0})
expect c [] = err unreadable
expect c (d ∷ s) = if eqb d c then ok (tt, s) else err unreadable

unfoldable pub expect_all : List ℕ → List ℕ → Reads (Unit {0})
unfolding expect
expect_all [] s = ok (tt, s)
expect_all (c ∷ cs) s = expect c s >>= λ (_, rest). expect_all cs rest

unfoldable pub expect_separator : Bool → List ℕ → Reads (Unit {0})
expect_separator true s = ok (tt, s)
expect_separator false s = expect b',' s

unfoldable pub starts : ℕ → List ℕ → Bool
starts c [] = false
starts c (d ∷ s) = eqb d c

abbrev pub tail : List ℕ → List ℕ
tail [] = []
tail (c ∷ s) = s

abbrev pub word : Content → List ℕ → List ℕ → Reads Content
word value letters s = expect_all letters s >>= λ (_, rest). ok (value, rest)

-- A call costs one unit of fuel.
unfoldable mutual
  pub read_value : ℕ → List ℕ → Reads Content
  read_value zero s = err out_of_fuel
  read_value (suc f) [] = err unreadable
  read_value (suc f) (c ∷ s) =
      let items = read_items f true s >>= λ (xs, rest). ok (list xs, rest) in
      let members = read_members f true s >>= λ (fs, rest). ok (record_of fs, rest) in
      if eqb c b'n'
      then word null (codes "ull") s
      else if eqb c b't'
      then word (flag true) (codes "rue") s
      else if eqb c b'f'
      then word (flag false) (codes "alse") s
      else if eqb c quote
      then (read_text plain s >>= λ (t, rest). ok (text t, rest))
      else if eqb c b'['
      then items
      else if eqb c b'{'
      then members
      else read_number c s

  pub read_items : ℕ → Bool → List ℕ → Reads Contents
  read_items zero first s = err out_of_fuel
  read_items (suc f) first s =
      let more = expect_separator first s >>= λ (_, s'). read_value f s' >>= λ (v, s'').
      read_items f false s'' >>= λ (xs, rest). ok (cons v xs, rest) in
      if starts b']' s then ok (nil, tail s) else more

  pub read_members : ℕ → Bool → List ℕ → Reads Fields
  read_members zero first s = err out_of_fuel
  read_members (suc f) first s =
      let more = expect_separator first s >>= λ (_, s'). expect quote s' >>= λ (_, s'').
      read_text plain s'' >>= λ (key, after_key). expect b':' after_key >>= λ (_, behind).
      read_value f behind >>= λ (v, after_value).
      read_members f false after_value >>= λ (fs, rest). ok (field key v fs, rest) in
      if starts b'}' s then ok (end, tail s) else more

abbrev pub finish : Reads Content → Result ReadError Content
finish (err e) = err e
finish (ok (v, [])) = ok v
finish (ok (v, c ∷ s)) = err unreadable

-- A whole text, with fuel that a text of its length cannot use up.
unfoldable pub read : List ℕ → Result ReadError Content
read s = finish (read_value (suc (length s)) s)
