-- ===== src/Protocol/Canonical/Tokens.antt =====
-- The reader takes a written number, word or string for what it says.
use mathlib.Core.List.{append_assoc}
use retentionops_connector.Prelude.{
  ◌≡◌, refl, subst, ◌∙◌, ◌<◌, ℕ, zero, suc, String, Bool, true, false, ◌||◌, List, [], ◌∷◌, ◌++◌,
  length, all, arith, Bool-cases, Option-cases, eqb, some, inl, inr, any,
}
use retentionops_connector.Prelude.Int.{ℤ, pos, negsuc}
use retentionops_connector.Prelude.Text.{codes}
use retentionops_connector.Prelude.Result.{ok}
use retentionops_connector.Protocol.Values.{is_float_char, parse_int64}
use retentionops_connector.Protocol.Canonical.{
  write_number, write_string, format_int, format_nat, quote, escape_all,
}
use retentionops_connector.Protocol.Canonical.Digits.{
  HasDigits, format_nat-HasDigits, format_nat-digits, parse_int64-format_int, parse_int64-IsInt64,
  span_digits-append, read_text-escape_all,
}
use retentionops_connector.Protocol.Canonical.Reader.{
  Content, null, flag, text, integer, integer_or_zero, is_digit, span_digits, read_number,
  expect_all, starts, read_value, as_integer,
}

-- What can stand behind a number: no digit.
abbrev pub Delimited : List ℕ → Type 0
Delimited rest = span_digits rest ≡ ([], rest)

-- The reader takes `t` for `v`, whatever follows, and `t` is not the end of a list.
pub record ReadsAs (t : List ℕ) (v : Content) : Type 0 where
  pub not_empty : 0 < length t
  pub opens : (rest : List ℕ) → starts b']' (t ++ rest) ≡ false
  pub reads :
      (rest : List ℕ) (f : ℕ)
      → Delimited rest
      → length t < f
      → read_value f (t ++ rest) ≡ ok (v, rest)

abbrev number_start : ℕ → Bool
number_start c = eqb c b'-' || is_digit c

-- A character that starts a number starts nothing else.
read_value-number :
    (f c : ℕ) (s : List ℕ) → number_start c ≡ true → read_value (suc f) (c ∷ s) ≡ read_number c s
unfolding read_value
read_value-number f c s h = ground arith

read_number_lem :
    (c : ℕ) (cs rest : List ℕ) (z : ℤ)
    → number_start c ≡ true
    → all is_digit cs ≡ true
    → parse_int64 (c ∷ cs) ≡ some z
    → Delimited rest
    → read_number c (cs ++ rest) ≡ ok (integer z, rest)
unfolding read_number
read_number_lem c cs rest z h ds parsed stop =
    rw (h, span_digits-append cs rest ds stop) (rw (parsed, as_integer))

-- A text is taken by its first character, which uses one unit of the fuel.
pub first-ReadsAs :
    (c : ℕ) (cs : List ℕ) (v : Content)
    → eqb c b']' ≡ false
    → ((f : ℕ) (rest : List ℕ)
        → Delimited rest
        → length cs < f
        → read_value (suc f) (c ∷ cs ++ rest) ≡ ok (v, rest))
    → ReadsAs (c ∷ cs) v
unfolding starts
first-ReadsAs c cs v no_end reads = record {
  not_empty = omega arith;
  opens = λ rest. no_end;
  reads = λ rest f stop enough. spend f enough rest stop;
}
  where
    spend :
        (f : ℕ)
        → suc (length cs) < f
        → (rest : List ℕ) → Delimited rest
        → read_value f (c ∷ cs ++ rest) ≡ ok (v, rest)
    spend zero enough rest stop = absurd (omega arith)
    spend (suc f) enough rest stop = reads f rest stop (omega arith)

literal-ReadsAs :
    (c : ℕ) (cs : List ℕ) (z : ℤ)
    → number_start c ≡ true
    → all is_digit cs ≡ true
    → parse_int64 (c ∷ cs) ≡ some z
    → ReadsAs (c ∷ cs) (integer z)
literal-ReadsAs c cs z h ds parsed = first-ReadsAs c cs (integer z) (ground arith) λ f rest stop _.
    read_value-number f c (cs ++ rest) h ∙ read_number_lem c cs rest z h ds parsed stop

digits-ReadsAs : (s : List ℕ) (z : ℤ) → HasDigits s → parse_int64 s ≡ some z → ReadsAs s (integer z)
digits-ReadsAs [] z h parsed = absurd h
digits-ReadsAs (c ∷ cs) z (first, ds) parsed = literal-ReadsAs c cs z (ground arith) ds parsed

format_int-ReadsAs :
    (z : ℤ) → parse_int64 (format_int z) ≡ some z → ReadsAs (format_int z) (integer z)
unfolding format_int
format_int-ReadsAs (pos n) parsed =
    digits-ReadsAs (format_nat n) (pos n) (format_nat-HasDigits n) parsed
format_int-ReadsAs (negsuc n) parsed =
    literal-ReadsAs b'-' (format_nat (suc n)) (negsuc n) refl (format_nat-digits (suc n)) parsed

pub number-ReadsAs :
    (literal t : List ℕ)
    → write_number literal ≡ ok t
    → ReadsAs t (integer (integer_or_zero (parse_int64 literal)))
unfolding write_number
number-ReadsAs literal t h = elim (Bool-cases (any is_float_char literal)) [
  | inl float ↦ absurd (cc (rw float at h))
  | inr whole ↦ elim (Option-cases (parse_int64 literal)) [
    | inl bad ↦ absurd (cc (rw (whole, bad) at h))
    | inr (z, parsed) ↦
        let printed : format_int z ≡ t = cc (rw (whole, parsed) at h) in
        let kept = parse_int64-format_int z (parse_int64-IsInt64 literal z parsed) in
        rw parsed (subst (λ u. ReadsAs u (integer z)) printed (format_int-ReadsAs z kept))
  ]
]

pub null-ReadsAs : ReadsAs (codes "null") null
unfolding read_value expect_all
null-ReadsAs = first-ReadsAs b'n' (codes "ull") null refl λ f rest _ _. refl

pub true-ReadsAs : ReadsAs (codes "true") (flag true)
unfolding read_value expect_all
true-ReadsAs = first-ReadsAs b't' (codes "rue") (flag true) refl λ f rest _ _. refl

pub false-ReadsAs : ReadsAs (codes "false") (flag false)
unfolding read_value expect_all
false-ReadsAs = first-ReadsAs b'f' (codes "alse") (flag false) refl λ f rest _ _. refl

pub string-ReadsAs : (s : String) → ReadsAs (write_string s) (text (codes s))
unfolding write_string read_value
string-ReadsAs s =
    let spelled = escape_all (codes s) in
    first-ReadsAs quote (spelled ++ quote ∷ []) (text (codes s)) refl
      λ f rest _ _. rw (append_assoc spelled (quote ∷ []) rest, read_text-escape_all (codes s) rest)
