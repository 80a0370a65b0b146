-- ===== src/Identity/Base64.antt =====
-- encoding/base64 of the standard library, as the keys and signatures use it: the alphabet with `+` and
-- `/`, padding, and a decoder that skips line breaks.
pub mod RoundTrip
use retentionops_connector.Prelude.{
  ℕ, Bool, true, false, ◌&&◌, ◌||◌, List, [], ◌∷◌, ◌++◌, Option, none, some, if◌then◌else◌, ltb,
  leb, eqb, is_nil, ◌+◌, ◌-◌, ◌*◌, ◌/◌, ◌%◌,
}

unfoldable pub letter : ℕ → ℕ
letter n =
    if ltb n 26
    then b'A' + n
    else if ltb n 52
    then b'a' + (n - 26)
    else if ltb n 62
    then b'0' + (n - 52)
    else if eqb n 62
    then b'+'
    else b'/'

abbrev pub padding : ℕ
padding = b'='

unfoldable pub std_encode : List ℕ → List ℕ
std_encode [] = []
std_encode (a ∷ []) = letter (a / 4) ∷ letter (a % 4 * 16) ∷ padding ∷ padding ∷ []
std_encode (a ∷ b ∷ []) =
    letter (a / 4) ∷ letter (a % 4 * 16 + b / 16) ∷ letter (b % 16 * 4) ∷ padding ∷ []
std_encode (a ∷ b ∷ c ∷ rest) =
    letter (a / 4)
    ∷ letter (a % 4 * 16 + b / 16)
    ∷ letter (b % 16 * 4 + c / 64)
    ∷ letter (c % 64)
    ∷ std_encode rest

-- The six bits of a letter.
unfoldable pub sextet : ℕ → Option ℕ
sextet c =
    if leb b'A' c && leb c b'Z'
    then some (c - b'A')
    else if leb b'a' c && leb c b'z'
    then some (c - b'a' + 26)
    else if leb b'0' c && leb c b'9'
    then some (c - b'0' + 52)
    else if eqb c b'+'
    then some 62
    else if eqb c b'/'
    then some 63
    else none

abbrev pub two : Option ℕ → Option ℕ → Option (List ℕ)
two (some p) (some q) = some ((p * 4 + q / 16) ∷ [])
two o none = none
two none (some q) = none

abbrev pub three : Option ℕ → Option ℕ → Option ℕ → Option (List ℕ)
three (some p) (some q) (some r) = some ((p * 4 + q / 16) ∷ (q % 16 * 16 + r / 4) ∷ [])
three none q r = none
three (some p) none r = none
three (some p) (some q) none = none

abbrev pub four : Option ℕ → Option ℕ → Option ℕ → Option ℕ → Option (List ℕ) → Option (List ℕ)
four (some p) (some q) (some r) (some s) (some rest) =
    some ((p * 4 + q / 16) ∷ (q % 16 * 16 + r / 4) ∷ (r % 4 * 64 + s) ∷ rest)
four none q r s rest = none
four (some p) none r s rest = none
four (some p) (some q) none s rest = none
four (some p) (some q) (some r) none rest = none
four (some p) (some q) (some r) (some s) none = none

abbrev pub padded : ℕ → ℕ → ℕ → List ℕ → Option (List ℕ)
padded a b c [] =
    if eqb c padding then two (sextet a) (sextet b) else three (sextet a) (sextet b) (sextet c)
padded a b c (x ∷ rest) = none

unfoldable pub quads : List ℕ → Option (List ℕ)
quads [] = some []
quads (a ∷ []) = none
quads (a ∷ b ∷ []) = none
quads (a ∷ b ∷ c ∷ []) = none
quads (a ∷ b ∷ c ∷ d ∷ rest) =
    let others = quads rest in
    if eqb d padding
    then padded a b c rest
    else four (sextet a) (sextet b) (sextet c) (sextet d) others

abbrev pub without_breaks : List ℕ → List ℕ
without_breaks [] = []
without_breaks (c ∷ rest) =
    let others = without_breaks rest in if eqb c 10 || eqb c 13 then others else c ∷ others

unfoldable pub std_decode : List ℕ → Option (List ℕ)
unfolding quads
std_decode text = quads (without_breaks text)
