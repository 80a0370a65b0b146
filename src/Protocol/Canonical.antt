-- ===== src/Protocol/Canonical.antt =====
-- protocol/v1/canonical.go: the canonical JSON writer (`writeCanonical` and what it calls), over the
-- tree that the decoder makes, and the bytes that sign an HTTP call. Text is a list of code points.
pub mod Order
pub mod Reader
pub mod Digits
pub mod RoundTrip
pub mod Tokens
pub mod Containers
pub mod Requests
use retentionops_connector.Prelude.{
  ℕ, zero, suc, ◌+◌, ◌-◌, ◌/◌, ◌%◌, String, Bool, true, false, ◌&&◌, ◌||◌, List, [], ◌∷◌, ◌++◌, any,
  ltb, leb, eqb, if◌then◌else◌, Option, none, some,
}
use retentionops_connector.Prelude.Int.{ℤ, pos, negsuc}
use retentionops_connector.Prelude.Text.{codes, ◌==◌}
use retentionops_connector.Prelude.Result.{Result, ok, err, ◌>>=◌}
use retentionops_connector.Protocol.Json.{Json, Items, Members}
use retentionops_connector.Protocol.Error.{ProtocolError, float_value, integer_out_of_range}
use retentionops_connector.Protocol.Values.{is_float_char, parse_int64}
use retentionops_connector.Protocol.Signing.{newline, request_domain, signing_payload}

abbrev pub quote : ℕ
quote = 34

abbrev pub backslash : ℕ
backslash = 92

abbrev pub hex_digit : ℕ → ℕ
hex_digit d = if ltb d 10 then b'0' + d else b'a' + (d - 10)

abbrev pub short_form : ℕ → List ℕ
short_form letter = backslash ∷ letter ∷ []

-- `\u%04x`, for a control character.
abbrev pub long_form : ℕ → List ℕ
long_form r = backslash ∷ b'u' ∷ b'0' ∷ b'0' ∷ hex_digit (r / 16) ∷ hex_digit (r % 16) ∷ []

-- The cases of `writeCanonicalString` for one rune.
unfoldable pub escape : ℕ → List ℕ
escape r =
    if eqb r quote
    then short_form quote
    else if eqb r backslash
    then short_form backslash
    else if eqb r 8
    then short_form b'b'
    else if eqb r 12
    then short_form b'f'
    else if eqb r 10
    then short_form b'n'
    else if eqb r 13
    then short_form b'r'
    else if eqb r 9
    then short_form b't'
    else if ltb r 32
    then long_form r
    else r ∷ []

unfoldable pub escape_all : List ℕ → List ℕ
escape_all [] = []
escape_all (r ∷ rs) = escape r ++ escape_all rs

unfoldable pub write_string : String → List ℕ
unfolding escape_all
write_string s = quote ∷ (escape_all (codes s) ++ quote ∷ [])

-- The decimal digits of a number in front of what is there. A digit takes one unit of fuel.
unfoldable pub digits : ℕ → ℕ → List ℕ → List ℕ
digits zero n out = out
digits (suc fuel) n out =
    let more = digits fuel (n / 10) ((b'0' + n % 10) ∷ out) in if eqb n 0 then out else more

abbrev pub format_nat : ℕ → List ℕ
format_nat n = if eqb n 0 then b'0' ∷ [] else digits (suc n) n []

-- `strconv.FormatInt(z, 10)`
unfoldable pub format_int : ℤ → List ℕ
unfolding digits
format_int (pos n) = format_nat n
format_int (negsuc n) = b'-' ∷ format_nat (suc n)

abbrev pub format_parsed : Option ℤ → Result ProtocolError (List ℕ)
format_parsed none = err integer_out_of_range
format_parsed (some z) = ok (format_int z)

unfoldable pub write_number : List ℕ → Result ProtocolError (List ℕ)
write_number literal =
    if any is_float_char literal then err float_value else format_parsed (parse_int64 literal)

-- `utf16.Encode` of one rune.
unfoldable pub utf16_rune : ℕ → List ℕ
utf16_rune r =
    if ltb r 0xd800 || (leb 0xe000 r && ltb r 0x10000)
    then r ∷ []
    else if leb 0x10000 r && leb r 0x10ffff
    then (0xd800 + (r - 0x10000) / 1024) ∷ (0xdc00 + (r - 0x10000) % 1024) ∷ []
    else 0xfffd ∷ []

unfoldable pub utf16_encode : List ℕ → List ℕ
unfolding utf16_rune
utf16_encode [] = []
utf16_encode (r ∷ rs) = utf16_rune r ++ utf16_encode rs

-- The loop of `lessUTF16`.
unfoldable pub less_units : List ℕ → List ℕ → Bool
less_units [] [] = false
less_units [] (y ∷ ys) = true
less_units (x ∷ xs) [] = false
less_units (x ∷ xs) (y ∷ ys) = let rest = less_units xs ys in if eqb x y then rest else ltb x y

abbrev pub units : String → List ℕ
units s = utf16_encode (codes s)

abbrev pub less_utf16 : String → String → Bool
less_utf16 left right = less_units (units left) (units right)

-- `sort.Slice` by that order; the keys of a map are distinct, so any sort gives this list.
module _ {ℓ} {A : Type ℓ} where
  unfoldable pub insert_entry : String × A → List (String × A) → List (String × A)
  insert_entry (key, a) [] = (key, a) ∷ []
  insert_entry (key, a) ((other, b) ∷ rest) =
      if less_utf16 key other
      then (key, a) ∷ (other, b) ∷ rest
      else (other, b) ∷ insert_entry (key, a) rest

  unfoldable pub sort_entries : List (String × A) → List (String × A)
  sort_entries [] = []
  sort_entries (entry ∷ rest) = insert_entry entry (sort_entries rest)

-- `if index > 0 { out.WriteByte(',') }`
abbrev pub separator : Bool → List ℕ
separator first = if first then [] else b',' ∷ []

-- The members in their order, up to the first that cannot be written.
unfoldable pub join_members :
    Bool → List (String × Result ProtocolError (List ℕ)) → Result ProtocolError (List ℕ)
join_members first [] = ok (b'}' ∷ [])
join_members first ((key, value) ∷ rest) = do
  written ← value
  more ← join_members false rest
  ok (separator first ++ (write_string key ++ (b':' ∷ (written ++ more))))

unfoldable mutual
  pub write_canonical : Json → Result ProtocolError (List ℕ)
  write_canonical Json.null = ok (codes "null")
  write_canonical (Json.bool true) = ok (codes "true")
  write_canonical (Json.bool false) = ok (codes "false")
  write_canonical (Json.string s) = ok (write_string s)
  write_canonical (Json.number literal) = write_number literal
  write_canonical (Json.array items) = do written ← write_items true items; ok (b'[' ∷ written)
  write_canonical (Json.object members) = do
    written ← join_members true (sort_entries (write_members members))
    ok (b'{' ∷ written)

  pub write_items : Bool → Items → Result ProtocolError (List ℕ)
  write_items first Items.nil = ok (b']' ∷ [])
  write_items first (Items.cons item rest) = do
    written ← write_canonical item
    more ← write_items false rest
    ok (separator first ++ (written ++ more))

  -- Each member with what is written for it.
  pub write_members : Members → List (String × Result ProtocolError (List ℕ))
  write_members Members.end = []
  write_members (Members.member key value rest) = (key, write_canonical value) ∷ write_members rest

-- `delete(tree, key)` for each name to leave out.
unfoldable pub delete_member : String → Members → Members
delete_member key Members.end = Members.end
delete_member key (Members.member name value rest) =
    let others = delete_member key rest in
    if name == key then others else Members.member name value others

unfoldable pub delete_members : List String → Members → Members
unfolding delete_member
delete_members [] members = members
delete_members (key ∷ keys) members = delete_members keys (delete_member key members)

-- `CanonicalizeWithout` after its decoding; without names it is `Canonicalize` of an object.
unfoldable pub canonicalize_without : List String → Members → Result ProtocolError (List ℕ)
canonicalize_without omit members = write_canonical (Json.object (delete_members omit members))

-- `strings.Join(fields, "\n")`
unfoldable pub join_lines : List (List ℕ) → List ℕ
join_lines [] = []
join_lines (field ∷ []) = field
join_lines (field ∷ next ∷ rest) = field ++ (newline ∷ join_lines (next ∷ rest))

-- `RequestSigningPayload`, with the digest of the body as an argument.
unfoldable pub request_signing_payload : (method path timestamp nonce : List ℕ) → List ℕ → List ℕ
unfolding join_lines
request_signing_payload method path timestamp nonce body_digest =
    signing_payload (codes request_domain)
      (join_lines (method ∷ path ∷ timestamp ∷ nonce ∷ body_digest ∷ []))
