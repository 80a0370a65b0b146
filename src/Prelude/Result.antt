-- ===== src/Prelude/Result.antt =====
-- Go's `(value, error)` results: a value or an error, with `do`.
use mathlib.Core.Path.{◌≡◌, refl}
use mathlib.Core.Logic.{◌⊎◌, inl, inr}
use mathlib.Core.Bool.{Bool, true, false}
use mathlib.Core.List.{List, [], ◌∷◌}

pub data Result {ℓ κ} (E : Type ℓ) (A : Type κ) : Type (ℓ ⊔ κ) where
  ok : A → Result E A
  err : E → Result E A

-- A Go `error` result: nothing, or an error.
abbrev pub Check {ℓ} : Type ℓ → Type ℓ
Check E = Result E (Unit {0})

infixl 5 ◌>>=◌ ◌>>◌
abbrev pub ◌>>=◌ {ℓ κ μ} :
    {E : Type ℓ} {A : Type κ} {B : Type μ} → Result E A → (A → Result E B) → Result E B
ok value >>= next = next value
err problem >>= next = err problem

abbrev pub ◌>>◌ {ℓ κ} : {E : Type ℓ} {B : Type κ} → Check E → Result E B → Result E B
first >> second = first >>= λ _. second

-- `if b { return e }`
abbrev pub refuse_if {ℓ} : {E : Type ℓ} → Bool → E → Check E
refuse_if true e = err e
refuse_if false e = ok tt

-- `for _, x := range xs { if err := f(x); err != nil { return err } }`
abbrev pub for_each {ℓ κ} : {E : Type ℓ} {A : Type κ} → List A → (A → Check E) → Check E
for_each [] f = ok tt
for_each (x ∷ xs) f = f x >> for_each xs f

-- Inversion of a successful chain, for proofs where the parts stay shut.
pub >>=-eq-ok {ℓ κ μ} :
    {E : Type ℓ} {A : Type κ} {B : Type μ} (first : Result E A) (next : A → Result E B) {result : B}
    → (first >>= next) ≡ ok result
    → (value : A) × (first ≡ ok value) × (next value ≡ ok result)
>>=-eq-ok (ok value) next chain = (value, refl, chain)
>>=-eq-ok (err problem) next chain = cc

pub Check-cases {ℓ} : {E : Type ℓ} (c : Check E) → (c ≡ ok tt) ⊎ ((e : E) × (c ≡ err e))
Check-cases (ok u) = inl refl
Check-cases (err e) = inr (e, refl)

pub refuse_if-eq-ok {ℓ} :
    {E : Type ℓ} (b : Bool) (e : E) {r : Unit {0}} → refuse_if b e ≡ ok r → b ≡ false
refuse_if-eq-ok true e h = cc
refuse_if-eq-ok false e h = refl
