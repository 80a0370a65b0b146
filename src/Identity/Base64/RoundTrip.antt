-- ===== src/Identity/Base64/RoundTrip.antt =====
-- encoding/base64: decoding what was encoded.
use retentionops_connector.Prelude.{
  ◌≡◌, refl, ap, ℕ, false, List, [], ◌∷◌, some, All, arith, eqb, ◌<◌, ◌+◌, ◌*◌, ◌/◌, ◌%◌,
}
use retentionops_connector.Identity.Base64.{
  letter, padding, std_encode, sextet, quads, without_breaks, std_decode,
}

abbrev pub IsByte : ℕ → Type 0
IsByte b = b < 256

sextet-letter : (n : ℕ) → n < 64 → sextet (letter n) ≡ some n
unfolding sextet letter
sextet-letter n h = ground arith

letter-plain :
    (n : ℕ)
    → (eqb (letter n) padding ≡ false) × (eqb (letter n) 10 ≡ false) × (eqb (letter n) 13 ≡ false)
unfolding letter
letter-plain n = (ground arith, ground arith, ground arith)

keep-letter :
    (n : ℕ) (rest : List ℕ)
    → without_breaks rest ≡ rest
    → without_breaks (letter n ∷ rest) ≡ letter n ∷ rest
keep-letter n rest kept =
    let (p, l, c) = letter-plain n in rw (l, c) (ap (λ xs. letter n ∷ xs) kept)

kept-encode : (bytes : List ℕ) → without_breaks (std_encode bytes) ≡ std_encode bytes
unfolding std_encode
kept-encode [] = refl
kept-encode (a ∷ []) = keep-letter _ _ (keep-letter _ _ refl)
kept-encode (a ∷ b ∷ []) = keep-letter _ _ (keep-letter _ _ (keep-letter _ _ refl))
kept-encode (a ∷ b ∷ c ∷ rest) =
    keep-letter _ _ (keep-letter _ _ (keep-letter _ _ (keep-letter _ _ (kept-encode rest))))

first_byte : (a b : ℕ) → a < 256 → b < 256 → a / 4 * 4 + (a % 4 * 16 + b / 16) / 16 ≡ a
first_byte a b ha hb = omega arith

second_byte :
    (a b c : ℕ)
    → b < 256
    → c < 256
    → (a % 4 * 16 + b / 16) % 16 * 16 + (b % 16 * 4 + c / 64) / 4 ≡ b
second_byte a b c hb hc = omega arith

third_byte : (b c : ℕ) → c < 256 → (b % 16 * 4 + c / 64) % 4 * 64 + c % 64 ≡ c
third_byte b c hc = omega arith

quads-encode : (bytes : List ℕ) → All IsByte bytes → quads (std_encode bytes) ≡ some bytes
unfolding quads std_encode
quads-encode [] h = refl
quads-encode (a ∷ []) h =
    let s1 = sextet-letter (a / 4) (omega arith) in
    let s2 = sextet-letter (a % 4 * 16) (omega arith) in
    let e : a / 4 * 4 + a % 4 * 16 / 16 ≡ a = omega arith in rw (s1, s2, e) refl
quads-encode (a ∷ b ∷ []) h =
    let plain = letter-plain (b % 16 * 4) in
    let s1 = sextet-letter (a / 4) (omega arith) in
    let s2 = sextet-letter (a % 4 * 16 + b / 16) (omega arith) in
    let s3 = sextet-letter (b % 16 * 4) (omega arith) in
    let e1 = first_byte a b h.0 h.1.0 in
    let e2 : (a % 4 * 16 + b / 16) % 16 * 16 + b % 16 * 4 / 4 ≡ b = omega arith in
    rw (plain.0, s1, s2, s3, e1, e2) refl
quads-encode (a ∷ b ∷ c ∷ rest) h =
    let plain = letter-plain (c % 64) in
    let s1 = sextet-letter (a / 4) (omega arith) in
    let s2 = sextet-letter (a % 4 * 16 + b / 16) (omega arith) in
    let s3 = sextet-letter (b % 16 * 4 + c / 64) (omega arith) in
    let s4 = sextet-letter (c % 64) (omega arith) in
    let e1 = first_byte a b h.0 h.1.0 in
    let e2 = second_byte a b c h.1.0 h.1.1.0 in
    let e3 = third_byte b c h.1.1.0 in
    rw (plain.0, s1, s2, s3, s4, quads-encode rest h.1.1.1, e1, e2, e3) refl

-- Bytes that are encoded are decoded again.
pub decode-encode : (bytes : List ℕ) → All IsByte bytes → std_decode (std_encode bytes) ≡ some bytes
unfolding std_decode
decode-encode bytes h = rw (kept-encode bytes) (quads-encode bytes h)
