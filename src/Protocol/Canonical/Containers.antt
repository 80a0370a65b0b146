-- ===== src/Protocol/Canonical/Containers.antt =====
-- The reader takes the written inside of an array or an object for what it says.
use mathlib.Core.List.{append_assoc}
use retentionops_connector.Prelude.{
  ◌≡◌, refl, ◌<◌, ℕ, zero, suc, ◌+◌, String, Bool, true, false, List, [], ◌∷◌, ◌++◌, length,
  length-append, arith, eqb,
}
use retentionops_connector.Prelude.Text.{codes}
use retentionops_connector.Prelude.Result.{ok}
use retentionops_connector.Protocol.Canonical.{write_string, quote, separator, escape_all}
use retentionops_connector.Protocol.Canonical.Digits.{read_text-escape_all}
use retentionops_connector.Protocol.Canonical.Reader.{
  Content, Contents, Fields, list, record_of, nil, cons, end, field, expect, expect_separator,
  starts, read_value, read_items, read_members,
}
use retentionops_connector.Protocol.Canonical.Tokens.{Delimited, ReadsAs, first-ReadsAs}

-- The inside of a list and of a record, up to and with its closing bracket.
abbrev pub ReadsItems : Bool → List ℕ → Contents → Type 0
ReadsItems first t xs =
    (rest : List ℕ) (f : ℕ) → length t < f → read_items f first (t ++ rest) ≡ ok (xs, rest)

abbrev pub ReadsFields : Bool → List ℕ → Fields → Type 0
ReadsFields first t fs =
    (rest : List ℕ) (f : ℕ) → length t < f → read_members f first (t ++ rest) ≡ ok (fs, rest)

pub list-ReadsAs :
    (t : List ℕ) (xs : Contents) → ReadsItems true t xs → ReadsAs (b'[' ∷ t) (list xs)
unfolding read_value
list-ReadsAs t xs reads =
    first-ReadsAs b'[' t (list xs) refl λ f rest _ enough. rw (reads rest f enough)

pub record-ReadsAs :
    (t : List ℕ) (fs : Fields) → ReadsFields true t fs → ReadsAs (b'{' ∷ t) (record_of fs)
unfolding read_value
record-ReadsAs t fs reads =
    first-ReadsAs b'{' t (record_of fs) refl λ f rest _ enough. rw (reads rest f enough)

pub nil-ReadsItems : (first : Bool) → ReadsItems first (b']' ∷ []) nil
unfolding read_items starts
nil-ReadsItems first rest zero enough = absurd (omega arith)
nil-ReadsItems first rest (suc f) enough = refl

expect_separator-separator :
    (first : Bool) (s : List ℕ) → expect_separator first (separator first ++ s) ≡ ok (tt, s)
unfolding expect_separator expect
expect_separator-separator true s = refl
expect_separator-separator false s = refl

-- The text behind an item starts with a comma or a bracket.
abbrev pub Closed : List ℕ → Type 0
Closed t = (0 < length t) × ((rest : List ℕ) → Delimited (t ++ rest))

starts-separator :
    (first : Bool) (c : ℕ) (s : List ℕ)
    → starts c s ≡ false
    → eqb b',' c ≡ false
    → starts c (separator first ++ s) ≡ false
unfolding starts
starts-separator true c s h no_comma = h
starts-separator false c s h no_comma = no_comma

regroup : (a b c rest : List ℕ) → (a ++ (b ++ c)) ++ rest ≡ a ++ (b ++ (c ++ rest))
regroup a b c rest = simp append_assoc

regroup_member :
    (a spelled t more rest : List ℕ)
    → (a ++ (quote ∷ (spelled ++ quote ∷ []) ++ (b':' ∷ (t ++ more)))) ++ rest
      ≡ a ++ (quote ∷ (spelled ++ quote ∷ b':' ∷ (t ++ (more ++ rest))))
regroup_member a spelled t more rest = simp append_assoc

length-append_ℕ : (xs ys : List ℕ) → length (xs ++ ys) ≡ length xs + length ys
length-append_ℕ = length-append

ruleset lengths = (arith, length-append_ℕ)

pub cons-ReadsItems :
    (first : Bool) (t more : List ℕ) (v : Content) (xs : Contents)
    → ReadsAs t v
    → Closed more
    → ReadsItems false more xs
    → ReadsItems first (separator first ++ (t ++ more)) (cons v xs)
unfolding read_items starts
cons-ReadsItems first t more v xs one closed others rest zero enough = absurd (omega arith)
cons-ReadsItems first t more v xs one closed others rest (suc f) enough = rw (
  regroup (separator first) t more rest,
  starts-separator first b']' (t ++ (more ++ rest)) (one.opens (more ++ rest)) refl,
  expect_separator-separator first (t ++ (more ++ rest)),
  one.reads (more ++ rest) f (closed.1 rest) (omega (lengths, closed.0)),
  others rest f (omega (lengths, one.not_empty)),
)

length-member :
    (a named t more : List ℕ)
    → length t + length more < length (a ++ (named ++ (b':' ∷ (t ++ more))))
length-member a named t more = omega (
  lengths,
  length-append_ℕ a (named ++ (b':' ∷ (t ++ more))),
  length-append_ℕ named (b':' ∷ (t ++ more)),
)

pub cons-ReadsFields :
    (first : Bool) (key : String) (t more : List ℕ) (v : Content) (fs : Fields)
    → ReadsAs t v
    → Closed more
    → ReadsFields false more fs
    → ReadsFields first
        (separator first ++ (write_string key ++ (b':' ∷ (t ++ more))))
        (field (codes key) v fs)
unfolding read_members starts expect write_string
cons-ReadsFields first key t more v fs one closed others rest zero enough = absurd (omega arith)
cons-ReadsFields first key t more v fs one closed others rest (suc f) enough =
    let spelled = escape_all (codes key) in
    let shorter = length-member (separator first) (write_string key) t more in
    let behind = b':' ∷ (t ++ (more ++ rest)) in
    rw (
      regroup_member (separator first) spelled t more rest,
      starts-separator first b'}' (quote ∷ (spelled ++ quote ∷ behind)) refl refl,
      expect_separator-separator first (quote ∷ (spelled ++ quote ∷ behind)),
      read_text-escape_all (codes key) behind,
      one.reads (more ++ rest) f (closed.1 rest) (omega (arith, shorter, closed.0)),
      others rest f (omega (arith, shorter, one.not_empty)),
    )

pub nil-ReadsFields : (first : Bool) → ReadsFields first (b'}' ∷ []) end
unfolding read_members starts
nil-ReadsFields first rest zero enough = absurd (omega arith)
nil-ReadsFields first rest (suc f) enough = refl
