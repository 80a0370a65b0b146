-- ===== src/Identity/Signed.antt =====
-- internal/identity/identity.go: a signature that `Sign` makes is one that `VerifySignature` takes.
use retentionops_connector.Prelude.{
  ◌≡◌, refl, ℕ, true, List, [], ◌∷◌, some, All, arith, eqb, length,
}
use retentionops_connector.Prelude.Result.{ok}
use retentionops_connector.Identity.Base64.{std_encode}
use retentionops_connector.Identity.Base64.RoundTrip.{IsByte, decode-encode}
use retentionops_connector.Identity.{Crypto, sign, verify_signature, behind}

-- What Ed25519 promises of a seed and a payload: 64 bytes, which verify under the public key.
pub record Signs (crypto : Crypto) (seed payload : List ℕ) : Type 0 where
  pub size : length (crypto.sign_with seed payload) ≡ 64
  pub bytes : All IsByte (crypto.sign_with seed payload)
  pub verified :
      crypto.verifies (crypto.public_of seed) payload (crypto.sign_with seed payload) ≡ true

behind-encode :
    (crypto : Crypto) (raw : List ℕ)
    → length raw ≡ 64
    → behind crypto [] (std_encode raw) ≡ some (std_encode raw)
unfolding std_encode
behind-encode crypto [] h = absurd (omega arith)
behind-encode crypto (a ∷ []) h = refl
behind-encode crypto (a ∷ b ∷ []) h = refl
behind-encode crypto (a ∷ b ∷ c ∷ rest) h = refl

-- If Ed25519 signs a payload with 64 bytes that verify under the public key, then the text that the
-- connector puts into a header or a result verifies under that key.
pub verify-sign :
    (crypto : Crypto) (seed payload : List ℕ)
    → Signs crypto seed payload
    → verify_signature crypto (crypto.public_of seed) payload (sign crypto seed payload) ≡ ok tt
unfolding verify_signature sign
verify-sign crypto seed payload h =
    let signature = crypto.sign_with seed payload in
    let fits : eqb (length signature) 64 ≡ true = ground (arith, h.size) in
    rw (behind-encode crypto signature h.size, decode-encode signature h.bytes, fits, h.verified)
      refl
