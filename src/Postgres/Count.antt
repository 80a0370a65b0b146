-- ===== src/Postgres/Count.antt =====
-- adapters/postgres/adapter.go: `Count`, as the reader in a read-only transaction.
pub mod Bytes
use retentionops_connector.Prelude.{ℕ, zero, suc, ◌+◌, ◌/◌, Bool, true, false, if◌then◌else◌}
use retentionops_connector.Prelude.Int.{ℤ, pos, negsuc, ◌*ℤ◌, wrap64, ltb_ℤ}
use retentionops_connector.Prelude.Result.{Result, Check, ok, err}
use retentionops_connector.Protocol.Job.{Limits}
use retentionops_connector.Protocol.Result.{Statistics}
use retentionops_connector.Evidence.{no_statistics}
use retentionops_connector.Postgres.Errors.{DriverError, RunError, unclassified}
use retentionops_connector.Postgres.Session.{
  Session, Action, Candidates, Role, reader, connect, set_all, timeout_statements, driver, finally,
  pure, ◌>>=◌, ◌>>◌,
}

-- Go's division of an int64 by a positive one: it rounds to zero.
abbrev pub negated : ℕ → ℤ
negated zero = pos 0
negated (suc n) = negsuc n

abbrev pub quotient : ℤ → ℕ → ℤ
quotient (pos n) d = pos (n / d)
quotient (negsuc n) d = negated ((n + 1) / d)

abbrev pub count_of : ℤ → ℕ
count_of (pos n) = n
count_of (negsuc n) = 0

-- `totalBytes * candidateRows / liveRows`, in int64, for a positive `liveRows`
unfoldable pub estimated_bytes : ℤ → ℤ → ℤ → ℤ
estimated_bytes total_bytes candidate_rows live_rows =
    quotient (wrap64 (total_bytes *ℤ candidate_rows)) (count_of live_rows)

-- An error of the size query is ignored, and so is a relation with no live row.
abbrev pub with_bytes : Result DriverError (ℤ × ℤ) → Statistics → Statistics
with_bytes (err e) st = st
with_bytes (ok (total_bytes, live_rows)) st =
    if ltb_ℤ (pos 0) live_rows
    then record st { estimated_bytes = estimated_bytes total_bytes st.candidate_rows live_rows }
    else st

module _ {S : Type 0} (session : Session S) where
  abbrev pub compiled : Action S (Unit {0})
  compiled s = (if session.compiles then ok tt else err unclassified, s)

  abbrev pub measured : Candidates → ℤ → ℤ → Statistics
  measured candidates resource_rows held_rows = record no_statistics {
    candidate_rows = candidates.rows;
    oldest = candidates.oldest;
    newest = candidates.newest;
    observed_rows = candidates.rows;
    resource_rows = resource_rows;
    blocked_hold_rows = held_rows;
  }

  -- inside the transaction
  unfoldable pub measure : Limits → Action S Statistics
  measure limits =
      set_all session (timeout_statements limits)
      >> (compiled
          >> (driver session.count_candidates >>= λ candidates.
              driver session.count_resource >>= λ resource_rows.
              compiled
              >> (driver session.count_held >>= λ held_rows. λ s.
                  let (size, s') = session.relation_size s in
                  (ok (with_bytes size (measured candidates resource_rows held_rows)), s'))))

  unfoldable pub count : Limits → Action S Statistics
  count limits =
      connect session reader
      >> finally session.close
          (driver session.begin_read_only >> finally session.rollback (measure limits))
