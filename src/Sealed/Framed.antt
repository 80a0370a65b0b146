-- ===== src/Sealed/Framed.antt =====
-- internal/sealedconfig/sealedconfig.go: the authenticated bytes determine the fields.
use retentionops_connector.Prelude.{
  ℕ, ◌/◌, ◌%◌, ◌<◌, ◌≡◌, refl, List, [], ◌∷◌, ◌++◌, All, length, arith,
}
use retentionops_connector.Sealed.{frame}

-- A field whose length fits the two bytes before it.
abbrev pub Short : List ℕ → Type 0
Short field = length field < 65536

split : (a b : List ℕ) (c d : List ℕ) → length a ≡ length b → a ++ c ≡ b ++ d → (a ≡ b) × (c ≡ d)
split [] [] c d h e = (refl, e)
split [] (y ∷ b) c d h e = absurd (omega (arith, h))
split (x ∷ a) [] c d h e = absurd (omega (arith, h))
split (x ∷ a) (y ∷ b) c d h e = let (same, rest) = split a b c d (omega (arith, h)) cc in (cc, rest)

same_length :
    (m n : ℕ)
    → m < 65536
    → n < 65536
    → m % 65536 / 256 ≡ n % 65536 / 256
    → m % 256 ≡ n % 256
    → m ≡ n
same_length m n hm hn high low = omega arith

-- Framed bytes determine the fields, if each is shorter than 2^16 bytes: nothing in one field can pass
-- for the border of another.
pub frame-Short :
    (xs ys : List (List ℕ)) → All Short xs → All Short ys → frame xs ≡ frame ys → xs ≡ ys
unfolding frame
frame-Short [] [] hx hy e = refl
frame-Short [] (y ∷ ys) hx hy e = cc
frame-Short (x ∷ xs) [] hx hy e = cc
frame-Short (x ∷ xs) (y ∷ ys) hx hy e =
    let high : length x % 65536 / 256 ≡ length y % 65536 / 256 = cc in
    let low : length x % 256 ≡ length y % 256 = cc in
    let after : x ++ frame xs ≡ y ++ frame ys = cc in
    let (field, rest) =
      split x y (frame xs) (frame ys) (same_length (length x) (length y) hx.0 hy.0 high low)
        after in
    cc (field, frame-Short xs ys hx.1 hy.1 rest)
