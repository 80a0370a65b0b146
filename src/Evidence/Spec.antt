-- ===== src/Evidence/Spec.antt =====
-- internal/evidence/evidence.go: `DriftExceeded`, which computes in int64, against the tolerances
-- over whole numbers; and what it lets through under a local policy.
use retentionops_connector.Prelude.{
  ℕ, ◌+◌, ◌-◌, ◌*◌, ◌≤◌, ◌<◌, ◌≡◌, ◌↔◌, sym, subst, Bool, true, false, not, ◌&&◌, if◌then◌else◌,
  some, arith, ltb, eqb,
}
use retentionops_connector.Prelude.Int.{ℤ, pos, pos_part, ◌≤ℤ◌, ◌<ℤ◌, ◌-ℤ◌, ◌*ℤ◌, wrap64}
use retentionops_connector.Protocol.Job
use retentionops_connector.Protocol.Envelope.Ceilings.{DriftInRange}
use retentionops_connector.Evidence.{drift_exceeded, magnitude}

-- How far two counts are apart.
abbrev pub distance : ℕ → ℕ → ℕ
distance a b = (a - b) + (b - a)

-- The counts for which the int64 arithmetic is exact.
abbrev pub max_observed : ℕ
max_observed = 900_000_000_000_000

magnitude-distance :
    (o e : ℕ)
    → o ≤ max_observed
    → e ≤ 100_000_000
    → magnitude (wrap64 (pos o -ℤ pos e)) ≡ pos (distance o e)
unfolding wrap64 ◌-ℤ◌
magnitude-distance o e ho he = ground arith

product : (a b : ℕ) → a * b < 9223372036854775808 → wrap64 (pos a *ℤ pos b) ≡ pos (a * b)
unfolding wrap64 ◌*ℤ◌
product a b h = ground arith

abbrev drift_of : ℕ → ℕ → ℕ → Job.Drift
drift_of e m b = record { expected_rows = pos e; max_rows = pos m; max_basis_points = pos b }

pub mul_below : (a b k m : ℕ) → a ≤ k → b ≤ m → a * b ≤ k * m
mul_below a b k m h g = grind arith

-- Within every tolerance that is set, and exact where none is.
pub record WithinTolerance (d : Job.Drift) (observed : ℕ) : Type 0 where
  pub exact : d.max_rows ≡ pos 0 → d.max_basis_points ≡ pos 0 → observed ≡ pos_part d.expected_rows
  pub rows :
      pos 0 <ℤ d.max_rows → distance observed (pos_part d.expected_rows) ≤ pos_part d.max_rows
  pub share :
      pos 0 <ℤ d.max_basis_points
      → 0 < pos_part d.expected_rows
      → distance observed (pos_part d.expected_rows) * 10_000
        ≤ pos_part d.expected_rows * pos_part d.max_basis_points

exceeded_on_ℕ : ℕ → ℕ → ℕ → ℕ → Bool
exceeded_on_ℕ e m b o =
    if eqb m 0 && eqb b 0
    then not (eqb (distance o e) 0)
    else if ltb 0 m && ltb m (distance o e)
    then true
    else ltb 0 b && (ltb 0 e && ltb (e * b) (distance o e * 10_000))

module _ (e m b o : ℕ) (he : e ≤ 100_000_000) (hb : b ≤ 10_000) (ho : o ≤ max_observed) where
  drift_exceeded-on_ℕ : drift_exceeded (some (drift_of e m b)) (pos o) ≡ exceeded_on_ℕ e m b o
  unfolding drift_exceeded exceeded_on_ℕ
  drift_exceeded-on_ℕ =
      rw
        (
          magnitude-distance o e ho he,
          product e b (omega (arith, mul_below e b 100_000_000 10_000 he hb)),
          product (distance o e) 10_000 (omega arith),
        )
        (ground arith)

  exceeded-WithinTolerance : (exceeded_on_ℕ e m b o ≡ false) ↔ WithinTolerance (drift_of e m b) o
  unfolding exceeded_on_ℕ
  exceeded-WithinTolerance = (λ h. ground arith, λ h. ground arith)

nonnegative : (z : ℤ) → pos 0 ≤ℤ z → z ≡ pos (pos_part z)
nonnegative z h = ground arith

bounded_part : (z : ℤ) (n : ℕ) → z ≤ℤ pos n → pos 0 ≤ℤ z → pos_part z ≤ n
bounded_part z n h k = ground arith

drift_as_ℕ :
    (d : Job.Drift)
    → DriftInRange d
    → d ≡ drift_of (pos_part d.expected_rows) (pos_part d.max_rows) (pos_part d.max_basis_points)
drift_as_ℕ d r = λ i. record {
  expected_rows = nonnegative d.expected_rows r.expected_rows.0 i;
  max_rows = nonnegative d.max_rows r.max_rows.0 i;
  max_basis_points = nonnegative d.max_basis_points r.max_basis_points.0 i;
}

-- For a drift policy that passes the protocol's validation and a recount of at most 9 * 10^14
-- rows, the recount is accepted exactly when it is within every tolerance that the job sets, and
-- equal to the plan where it sets none: the int64 arithmetic does not wrap.
pub drift_exceeded_iff :
    (d : Job.Drift) (observed : ℕ)
    → DriftInRange d
    → observed ≤ max_observed
    → (drift_exceeded (some d) (pos observed) ≡ false) ↔ WithinTolerance d observed
drift_exceeded_iff d o r ho =
    subst (λ x. (drift_exceeded (some x) (pos o) ≡ false) ↔ WithinTolerance x o)
      (sym (drift_as_ℕ d r))
      (rw (drift_exceeded-on_ℕ e m b o he hb ho) (exceeded-WithinTolerance e m b o he hb ho))
  where
    e : ℕ
    e = pos_part d.expected_rows

    m : ℕ
    m = pos_part d.max_rows

    b : ℕ
    b = pos_part d.max_basis_points

    he : e ≤ 100_000_000
    he = bounded_part d.expected_rows 100_000_000 r.expected_rows.1 r.expected_rows.0

    hb : b ≤ 10_000
    hb = bounded_part d.max_basis_points 10_000 r.max_basis_points.1 r.max_basis_points.0
