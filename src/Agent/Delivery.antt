-- ===== src/Agent/Delivery.antt =====
-- internal/agent/agent.go: `report`, which delivers a record with retries, and the waits between them.
pub mod Persists
pub mod Reaches
use Prim.Native.Nat.{min}
use retentionops_connector.Prelude.{
  ℕ, zero, suc, ◌+◌, ◌*◌, ◌/◌, ◌^◌, Bool, true, false, if◌then◌else◌,
}
use retentionops_connector.Prelude.Result.{Result, ok, err}
use retentionops_connector.Protocol.Result.{JobResult}
use retentionops_connector.Protocol.Signing.{SealError}

-- A second and a minute, in nanoseconds.
abbrev pub second : ℕ
second = 1_000_000_000

abbrev pub minute : ℕ
minute = 60_000_000_000

-- The wait before jitter: 2^failures seconds, at most a minute.
unfoldable pub capped : ℕ → ℕ
capped failures = min (2 ^ min failures 6 * second) minute

-- `random n` is `rand.Int64N(n)`.
unfoldable pub backoff : (ℕ → ℕ) → ℕ → ℕ
backoff random failures = capped failures / 2 + random (capped failures / 2 + 1)

-- What an attempt meets, by its number: whether `Complete` succeeds, whether the context is done when
-- it has failed, and whether the wait behind it ends by its timer.
pub record Wire : Type 0 where
  pub accepts : ℕ → Bool
  pub stopped : ℕ → Bool
  pub wakes : ℕ → Bool

-- How a report ends, with the number of the last attempt.
pub data Ending : Type 0 where
  unsealed : Ending
  delivered : JobResult → ℕ → Ending
  interrupted : ℕ → Ending
  exhausted : Ending

module _ (wire : Wire) (r : JobResult) where
  -- The attempts that are left, and the number of the next.
  unfoldable pub deliver : ℕ → ℕ → Ending
  deliver zero attempt = exhausted
  deliver (suc left) attempt =
      let more = deliver left (suc attempt) in
      if wire.accepts attempt
      then delivered r attempt
      else if wire.stopped attempt
      then interrupted attempt
      else if wire.wakes attempt
      then more
      else interrupted attempt

unfoldable pub report : Wire → Result SealError JobResult → Ending
unfolding deliver
report wire (err e) = unsealed
report wire (ok r) = deliver wire r 5 1
