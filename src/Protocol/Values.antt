-- ===== src/Protocol/Values.antt =====
-- protocol/v1/job.go: the literals of a condition, `DecodeConditionValue` and
-- `normalizeConditionValue`, and the `strconv.ParseInt` that they use on a JSON number.
use retentionops_connector.Prelude.{
  ℕ, zero, suc, ◌+◌, ◌-◌, ◌*◌, String, Bool, ◌&&◌, ◌||◌, List, [], ◌∷◌, any, leb, ltb, eqb,
  if◌then◌else◌, Option, none, some,
}
use retentionops_connector.Prelude.Int.{ℤ, pos, negsuc, half_word}
use retentionops_connector.Prelude.Result.{Result, ok, err, ◌>>=◌}
use retentionops_connector.Protocol.Json.{Json, Items}
use retentionops_connector.Protocol.Error.{
  ProtocolError, float_value, integer_out_of_range, nested_value, unsupported_value,
}

pub data Scalar : Type 0 where
  text : String → Scalar
  flag : Bool → Scalar
  integer : ℤ → Scalar

pub data ConditionValue : Type 0 where
  scalar : Scalar → ConditionValue
  sequence : List Scalar → ConditionValue

-- `ContainsAny(text, ".eE")`
abbrev pub is_float_char : ℕ → Bool
is_float_char c = eqb c b'.' || (eqb c b'e' || eqb c b'E')

-- The digits of a decimal number, read onto what came before; `none` at any other character.
unfoldable pub digits_value : ℕ → List ℕ → Option ℕ
digits_value n [] = some n
digits_value n (c ∷ cs) =
    let rest = digits_value (n * 10 + (c - b'0')) cs in
    if leb b'0' c && leb c b'9' then rest else none

-- An unsigned literal has a digit.
abbrev pub magnitude : List ℕ → Option ℕ
magnitude [] = none
magnitude (c ∷ cs) = digits_value 0 (c ∷ cs)

abbrev pub below_limit : Option ℕ → Option ℤ
below_limit none = none
below_limit (some n) = if ltb n half_word then some (pos n) else none

-- `-n` for n up to 2^63; `-0` is 0.
abbrev pub negate : ℕ → ℤ
negate zero = pos 0
negate (suc k) = negsuc k

abbrev pub below_limit_negated : Option ℕ → Option ℤ
below_limit_negated none = none
below_limit_negated (some n) = if leb n half_word then some (negate n) else none

-- `strconv.ParseInt(text, 10, 64)`
unfoldable pub parse_int64 : List ℕ → Option ℤ
unfolding digits_value
parse_int64 [] = none
parse_int64 (c ∷ cs) =
    if eqb c b'-'
    then below_limit_negated (magnitude cs)
    else if eqb c b'+'
    then below_limit (magnitude cs)
    else below_limit (magnitude (c ∷ cs))

abbrev pub in_range_or_error : Option ℤ → Result ProtocolError ConditionValue
in_range_or_error none = err integer_out_of_range
in_range_or_error (some z) = ok (scalar (integer z))

abbrev pub as_scalar : ConditionValue → Result ProtocolError Scalar
as_scalar (scalar s) = ok s
as_scalar (sequence items) = err nested_value

unfoldable mutual
  pub normalize_condition_value : Json → Result ProtocolError ConditionValue
  normalize_condition_value Json.null = err unsupported_value
  normalize_condition_value (Json.bool b) = ok (scalar (flag b))
  normalize_condition_value (Json.string s) = ok (scalar (text s))
  normalize_condition_value (Json.number literal) =
      if any is_float_char literal then err float_value else in_range_or_error (parse_int64 literal)
  normalize_condition_value (Json.array items) = do
    values ← normalize_items items
    ok (sequence values)
  normalize_condition_value (Json.object members) = err unsupported_value

  pub normalize_items : Items → Result ProtocolError (List Scalar)
  normalize_items Items.nil = ok []
  normalize_items (Items.cons item rest) = do
    normalized ← normalize_condition_value item
    value ← as_scalar normalized
    values ← normalize_items rest
    ok (value ∷ values)

-- The value as it stands in a decoded job: its JSON was read with the document, so that reading it
-- once more cannot fail.
unfoldable pub decode_condition_value : Json → Result ProtocolError ConditionValue
decode_condition_value raw = normalize_condition_value raw
