-- ===== src/Postgres/Count/Bytes.antt =====
-- adapters/postgres/adapter.go: the byte estimate of `Count`.
use retentionops_connector.Prelude.{ℕ, ◌*◌, ◌/◌, ◌≤◌, ◌<◌, ◌≡◌, arith}
use retentionops_connector.Prelude.Int.{pos, ◌≤ℤ◌, ◌*ℤ◌, wrap64, word, half_word}
use retentionops_connector.Postgres.Count.{estimated_bytes}

product : (t c : ℕ) → pos t *ℤ pos c ≡ pos (t * c)
unfolding ◌*ℤ◌
product t c = ground arith

-- Below 2^63 the estimate is the share of the relation's bytes that the candidates have of its
-- rows, rounded down.
pub estimated_bytes_exact :
    (total candidates live : ℕ)
    → total * candidates < half_word
    → estimated_bytes (pos total) (pos candidates) (pos live) ≡ pos (total * candidates / live)
unfolding estimated_bytes wrap64
estimated_bytes_exact t c l h = rw product (ground arith)

-- From 2^63 to 2^64 the product wraps and the estimate is not positive, whatever the true share.
pub estimated_bytes_wraps :
    (total candidates live : ℕ)
    → half_word ≤ total * candidates
    → total * candidates < word
    → estimated_bytes (pos total) (pos candidates) (pos live) ≤ℤ pos 0
unfolding estimated_bytes wrap64
estimated_bytes_wraps t c l h k = rw product (ground arith)
