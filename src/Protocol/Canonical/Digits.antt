-- ===== src/Protocol/Canonical/Digits.antt =====
-- The decimal print of an int64 is read back, and so is an escaped string.
use mathlib.Core.List.{append_assoc}
use retentionops_connector.Prelude.{
  and-eq-true, Option, ◌≡◌, refl, ap, ◌∙◌, ◌≢◌, ◌<◌, inl, inr, ℕ, zero, suc, ◌+◌, ◌/◌, ◌%◌, true,
  List, [], ◌∷◌, ◌++◌, all, arith, Bool-cases, some, none, eqb,
}
use retentionops_connector.Prelude.Int.{ℤ, pos, negsuc, IsInt64}
use retentionops_connector.Prelude.Result.{ok}
use retentionops_connector.Protocol.Values.{
  digits_value, magnitude, parse_int64, below_limit, below_limit_negated,
}
use retentionops_connector.Protocol.Canonical.{
  digits, format_nat, format_int, escape, escape_all, quote,
}
use retentionops_connector.Protocol.Canonical.Reader.{
  is_digit, span_digits, read_text, plain, prepend,
}

-- Reading the digits of `n` in front of a text is reading the text with `n` before it.
digits_value-digits :
    (fuel n : ℕ) (out : List ℕ) → n < fuel → digits_value 0 (digits fuel n out) ≡ digits_value n out
unfolding digits digits_value
digits_value-digits zero n out h = absurd (omega arith)
digits_value-digits (suc fuel) n out h =
    ground (arith, digits_value-digits fuel (n / 10) ((b'0' + n % 10) ∷ out))

all-digits :
    (fuel n : ℕ) (out : List ℕ) → all is_digit out ≡ true → all is_digit (digits fuel n out) ≡ true
unfolding digits
all-digits zero n out h = h
all-digits (suc fuel) n out h = ground (arith, all-digits fuel (n / 10) ((b'0' + n % 10) ∷ out))

pub format_nat-digits : (n : ℕ) → all is_digit (format_nat n) ≡ true
format_nat-digits n = ground (arith, all-digits (suc n) n [] refl)

digits-ne_nil : (fuel n : ℕ) (out : List ℕ) → out ≢ [] → digits fuel n out ≢ []
unfolding digits
digits-ne_nil zero n out h = h
digits-ne_nil (suc fuel) n out h =
    ground (arith, digits-ne_nil fuel (n / 10) ((b'0' + n % 10) ∷ out))

-- A list of one digit or more.
abbrev pub HasDigits : List ℕ → Type 0
HasDigits [] = ⊥
HasDigits (c ∷ cs) = (is_digit c ≡ true) × (all is_digit cs ≡ true)

to_HasDigits : (s : List ℕ) → s ≢ [] → all is_digit s ≡ true → HasDigits s
to_HasDigits [] h _ = absurd (h refl)
to_HasDigits (c ∷ cs) h all_digits = and-eq-true (is_digit c) (all is_digit cs) all_digits

format_nat-ne_nil : (n : ℕ) → format_nat n ≢ []
unfolding digits
format_nat-ne_nil n = ground (arith, digits-ne_nil n (n / 10) ((b'0' + n % 10) ∷ []))

pub format_nat-HasDigits : (n : ℕ) → HasDigits (format_nat n)
format_nat-HasDigits n = to_HasDigits (format_nat n) (format_nat-ne_nil n) (format_nat-digits n)

digits_value-format_nat : (n : ℕ) → digits_value 0 (format_nat n) ≡ some n
unfolding digits_value
digits_value-format_nat n = ground (arith, digits_value-digits (suc n) n [])

magnitude_lem : (s : List ℕ) → HasDigits s → magnitude s ≡ digits_value 0 s
magnitude_lem [] h = absurd h
magnitude_lem (c ∷ cs) h = refl

magnitude-format_nat : (n : ℕ) → magnitude (format_nat n) ≡ some n
magnitude-format_nat n =
    magnitude_lem (format_nat n) (format_nat-HasDigits n) ∙ digits_value-format_nat n

-- Digits are no sign, so that they are read as a number without one.
parse_unsigned : (s : List ℕ) → HasDigits s → parse_int64 s ≡ below_limit (magnitude s)
unfolding parse_int64
parse_unsigned [] h = absurd h
parse_unsigned (c ∷ cs) h = ground arith

pub parse_int64-format_int : (z : ℤ) → IsInt64 z → parse_int64 (format_int z) ≡ some z
unfolding format_int parse_int64
parse_int64-format_int (pos n) (small, _) =
    parse_unsigned (format_nat n) (format_nat-HasDigits n)
    ∙ ap below_limit (magnitude-format_nat n)
    ∙ ground arith
parse_int64-format_int (negsuc n) (_, small) =
    ap below_limit_negated (magnitude-format_nat (suc n)) ∙ ground arith

below_limit-IsInt64 : (o : Option ℕ) (z : ℤ) → below_limit o ≡ some z → IsInt64 z
below_limit-IsInt64 none z h = cc
below_limit-IsInt64 (some n) z h = ground arith

below_limit_negated-IsInt64 : (o : Option ℕ) (z : ℤ) → below_limit_negated o ≡ some z → IsInt64 z
below_limit_negated-IsInt64 none z h = cc
below_limit_negated-IsInt64 (some zero) z h = ground arith
below_limit_negated-IsInt64 (some (suc n)) z h = ground arith

pub parse_int64-IsInt64 : (literal : List ℕ) (z : ℤ) → parse_int64 literal ≡ some z → IsInt64 z
unfolding parse_int64
parse_int64-IsInt64 [] z h = cc
parse_int64-IsInt64 (c ∷ cs) z h = elim (Bool-cases (eqb c b'-')) [
  | inl minus ↦ below_limit_negated-IsInt64 (magnitude cs) z (rw minus at h)
  | inr unsigned ↦ elim (Bool-cases (eqb c b'+')) [
    | inl plus ↦ below_limit-IsInt64 (magnitude cs) z (rw (unsigned, plus) at h)
    | inr digit ↦ below_limit-IsInt64 (magnitude (c ∷ cs)) z (rw (unsigned, digit) at h)
  ]
]

pub span_digits-append :
    (ds rest : List ℕ)
    → all is_digit ds ≡ true
    → span_digits rest ≡ ([], rest)
    → span_digits (ds ++ rest) ≡ (ds, rest)
unfolding span_digits
span_digits-append [] rest h e = e
span_digits-append (d ∷ ds) rest h e = ground (arith, span_digits-append ds rest)

read_text-escape :
    (r : ℕ) (s : List ℕ) → read_text plain (escape r ++ s) ≡ prepend (r ∷ []) (read_text plain s)
unfolding read_text escape
read_text-escape r s = ground arith

pub read_text-escape_all :
    (rs rest : List ℕ) → read_text plain (escape_all rs ++ quote ∷ rest) ≡ ok (rs, rest)
unfolding read_text escape_all
read_text-escape_all [] rest = refl
read_text-escape_all (r ∷ rs) rest = rw (append_assoc (escape r) (escape_all rs) (quote ∷ rest)) (
    read_text-escape r (escape_all rs ++ quote ∷ rest)
    ∙ ap (prepend (r ∷ [])) (read_text-escape_all rs rest))
