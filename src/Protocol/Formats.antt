-- ===== src/Protocol/Formats.antt =====
-- protocol/v1/job.go: the regular expressions of identities, digests, signatures and nonces, over
-- the code points of a text.
use retentionops_connector.Prelude.{
  ℕ, zero, suc, String, Bool, true, false, ◌&&◌, ◌||◌, List, [], ◌∷◌, ◌++◌, leb, eqb, length, all,
}
use retentionops_connector.Prelude.Text.{codes}

-- One position of a pattern: the code points that may stand there.
abbrev pub Class : Type 0
Class = ℕ → Bool

abbrev pub in_range : ℕ → ℕ → Class
in_range low high c = leb low c && leb c high

abbrev pub is_char : ℕ → Class
is_char wanted c = eqb c wanted

abbrev pub digit : Class
digit = in_range b'0' b'9'

abbrev pub lower : Class
lower = in_range b'a' b'z'

abbrev pub upper : Class
upper = in_range b'A' b'Z'

-- [0-9a-f]
abbrev pub hex_digit : Class
hex_digit c = digit c || in_range b'a' b'f' c

-- [a-z_] and [a-z0-9_]
abbrev pub identifier_start : Class
identifier_start c = lower c || is_char b'_' c

abbrev pub identifier_rest : Class
identifier_rest c = lower c || digit c || is_char b'_' c

-- [A-Za-z0-9+/] and [A-Za-z0-9_-]
abbrev pub base64_char : Class
base64_char c = upper c || lower c || digit c || is_char b'+' c || is_char b'/' c

abbrev pub nonce_char : Class
nonce_char c = upper c || lower c || digit c || is_char b'_' c || is_char b'-' c

abbrev pub repeat {ℓ} : {A : Type ℓ} → ℕ → A → List A
repeat zero a = []
repeat (suc n) a = a ∷ repeat n a

-- A pattern of a fixed length, anchored at both ends.
unfoldable pub matches : List Class → List ℕ → Bool
matches [] [] = true
matches [] (_ ∷ _) = false
matches (_ ∷ _) [] = false
matches (p ∷ ps) (c ∷ cs) = p c && matches ps cs

abbrev pub literal : List ℕ → List Class
literal [] = []
literal (c ∷ cs) = is_char c ∷ literal cs

abbrev pub dash : List Class
dash = is_char b'-' ∷ []

abbrev pub uuid_pattern : List Class
uuid_pattern =
    repeat 8 hex_digit
    ++ (dash
        ++ (repeat 4 hex_digit
            ++ (dash
                ++ (repeat 4 hex_digit
                    ++ (dash ++ (repeat 4 hex_digit ++ (dash ++ repeat 12 hex_digit)))))))

unfoldable pub is_uuid : String → Bool
unfolding matches
is_uuid s = matches uuid_pattern (codes s)

unfoldable pub is_digest : String → Bool
unfolding matches
is_digest s = matches (literal (codes "sha256:") ++ repeat 64 hex_digit) (codes s)

unfoldable pub is_signature : String → Bool
unfolding matches
is_signature s =
    matches (literal (codes "ed25519:") ++ (repeat 86 base64_char ++ literal (codes "==")))
      (codes s)

-- ^[a-z_][a-z0-9_]{0,62}$
abbrev pub identifier_codes : List ℕ → Bool
identifier_codes [] = false
identifier_codes (c ∷ cs) = identifier_start c && (all identifier_rest cs && leb (length cs) 62)

unfoldable pub is_identifier : String → Bool
is_identifier s = identifier_codes (codes s)

-- ^[A-Za-z0-9_-]{22,64}$
unfoldable pub is_nonce : String → Bool
is_nonce s = all nonce_char (codes s) && (leb 22 (length (codes s)) && leb (length (codes s)) 64)
