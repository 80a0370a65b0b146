-- ===== src/Prelude/Text.antt =====
-- Texts: the native `String` where the program compares whole texts, and its code points where it
-- walks them. Instants are nanoseconds since Go's zero `time.Time`.
use Prim.Native.Nat.{ℕ}
use Prim.Native.Char.{code}
use Prim.Native.String.{String}
use mathlib.Core.Path.{◌≡◌, sym, subst}
use mathlib.Core.Logic.{inl, inr}
use mathlib.Core.Bool.{Bool, true, false, ◌||◌}
use mathlib.Core.List.{List, [], ◌∷◌}
use retentionops_connector.Prelude.Int.{ℤ, pos, ltb_ℤ, eqb_ℤ}
use retentionops_connector.Prelude.Tests.{Bool-cases}
use retentionops_connector.Prelude.Lists.{In, here, there}
use native.Mathlib.Omega.{arith}
pub use text.Mathlib.Text.{◌==◌}
pub use text.Mathlib.TextEquality.{eq_iff}
pub use text.Mathlib.TextPositions.{eq_refl}

-- The code points of a text: its bytes, if it is ASCII.
abbrev pub codes : String → List ℕ
codes String.[] = []
codes (String.◌∷◌ c s) = code c ∷ codes s

abbrev pub is_empty : String → Bool
is_empty s = s == ""

-- `slices.Contains`, and the source's own loops of that shape.
unfoldable pub contains : String → List String → Bool
contains s [] = false
contains s (x ∷ xs) = x == s || contains s xs

pub contains-In : (s : String) (xs : List String) → contains s xs ≡ true → In s xs
unfolding contains
contains-In s [] h = cc
contains-In s (x ∷ xs) h = elim (Bool-cases (x == s)) [
  | inl e ↦ subst (λ y. In s (y ∷ xs)) (sym ((eq_iff x s).0 e)) here
  | inr e ↦ there (contains-In s xs (ground arith))
]

pub In-contains : {s : String} {xs : List String} → In s xs → contains s xs ≡ true
unfolding contains
In-contains {s} here = rw (eq_refl s)
In-contains (there i) = ground (arith, In-contains i)

-- Instants.
abbrev pub Time : Type 0
Time = ℤ

abbrev pub is_zero : Time → Bool
is_zero t = eqb_ℤ t (pos 0)

abbrev pub before : Time → Time → Bool
before a b = ltb_ℤ a b

abbrev pub after : Time → Time → Bool
after a b = ltb_ℤ b a

pub contains-cons_false :
    (s x : String) (xs : List String)
    → contains s (x ∷ xs) ≡ false
    → ((x == s) ≡ false) × (contains s xs ≡ false)
unfolding contains
contains-cons_false s x xs h = ground arith
