-- ===== src/Agent/Delivery/Persists.antt =====
-- internal/agent/agent.go: a record that can be delivered is delivered, once.
use Prim.Native.Nat.{min}
use retentionops_connector.Prelude.{
  ◌≡◌, refl, ℕ, zero, suc, ◌+◌, ◌*◌, ◌/◌, ◌^◌, ◌≤◌, ◌<◌, true, false, arith, eqb, subst, Bool-cases,
  inl, inr,
}
use retentionops_connector.Prelude.Result.{Result, ok, err}
use retentionops_connector.Protocol.Result.{JobResult}
use retentionops_connector.Protocol.Signing.{SealError}
use retentionops_connector.Agent.Delivery.{
  second, minute, capped, backoff, Wire, delivered, deliver, report,
}

capped-le_minute : (failures : ℕ) → capped failures ≤ minute
unfolding capped
capped-le_minute failures = min-le (2 ^ min failures 6 * second)
  where
    min-le : (a : ℕ) → min a minute ≤ minute
    min-le a = omega arith

-- The wait after a failure is at least half of the exponential wait, and never more than a minute.
pub backoff-bounds :
    (random : ℕ → ℕ) (failures : ℕ)
    → random (capped failures / 2 + 1) < capped failures / 2 + 1
    → (capped failures / 2 ≤ backoff random failures) × (backoff random failures ≤ minute)
unfolding backoff
backoff-bounds random failures h = (omega arith, omega (arith, capped-le_minute failures))

-- An attempt that fails and after which the report goes on.
abbrev pub Retried : Wire → ℕ → Type 0
Retried wire n = (wire.accepts n ≡ false) × (wire.stopped n ≡ false) × (wire.wakes n ≡ true)

deliver-delivered :
    (wire : Wire) (r : JobResult) (left from n : ℕ)
    → from ≤ n
    → n < from + left
    → wire.accepts n ≡ true
    → ((m : ℕ) → from ≤ m → m < n → Retried wire m)
    → deliver wire r left from ≡ delivered r n
unfolding deliver
deliver-delivered wire r zero from n low high yes_n before = absurd (omega arith)
deliver-delivered wire r (suc left) from n low high yes_n before = elim (Bool-cases (eqb from n)) [
  | inl at_n ↦ let same : from ≡ n = ground arith in rw (same, yes_n) refl
  | inr earlier ↦
      let lt : from < n = ground arith in
      let (failed, going, woke) = before from (omega arith) lt in
      rw (failed, going, woke)
        (deliver-delivered wire r left (suc from) n lt (omega arith) yes_n
          (λ m p q. before m (omega arith) q))
]

earlier_failed :
    (wire : Wire) (from n : ℕ)
    → wire.accepts from ≡ false
    → ((m : ℕ) → suc from ≤ m → m < n → wire.accepts m ≡ false)
    → (m : ℕ) → from ≤ m
    → m < n
    → wire.accepts m ≡ false
earlier_failed wire from n failed before m low high = elim (Bool-cases (eqb from m)) [
  | inl same ↦ let e : from ≡ m = ground arith in rw (← e) failed
  | inr other ↦ before m (ground arith) high
]

deliver_sound :
    (wire : Wire) (r s : JobResult) (left from n : ℕ)
    → deliver wire r left from ≡ delivered s n
    → (s ≡ r)
      × (wire.accepts n ≡ true)
      × (from ≤ n)
      × (n < from + left)
      × ((m : ℕ) → from ≤ m → m < n → wire.accepts m ≡ false)
unfolding deliver
deliver_sound wire r s zero from n h = absurd (cc h)
deliver_sound wire r s (suc left) from n h = elim (Bool-cases (wire.accepts from)) [
  | inl accepted ↦
      let got : delivered r from ≡ delivered s n = rw accepted at h in
      let same : from ≡ n = cc got in
      (cc got, cc (accepted, same), omega arith, omega arith, λ m p q. absurd (omega arith))
  | inr failed ↦ elim (Bool-cases (wire.stopped from)) [
    | inl done ↦ absurd (cc (rw (failed, done) at h))
    | inr going ↦ elim (Bool-cases (wire.wakes from)) [
      | inl woke ↦
          let (same, got, low, high, before) =
            deliver_sound wire r s left (suc from) n (rw (failed, going, woke) at h) in
          (same, got, omega arith, omega arith, earlier_failed wire from n failed before)
      | inr done ↦ absurd (cc (rw (failed, going, done) at h))
    ]
  ]
]

-- A record that the n-th attempt delivers could be sealed, n is one to five, that attempt succeeded
-- and the earlier ones failed. The other way, a success within five attempts is reached if each
-- earlier one failed with the context alive and its wait at an end by the timer.
pub report-Delivers :
    (wire : Wire) (built : Result SealError JobResult) (r : JobResult) (n : ℕ)
    → (report wire built ≡ delivered r n
        → (built ≡ ok r)
          × (wire.accepts n ≡ true)
          × (1 ≤ n)
          × (n < 6)
          × ((m : ℕ) → 1 ≤ m → m < n → wire.accepts m ≡ false))
      × (built ≡ ok r
          → 1 ≤ n
          → n < 6
          → wire.accepts n ≡ true
          → ((m : ℕ) → 1 ≤ m → m < n → Retried wire m)
          → report wire built ≡ delivered r n)
unfolding report
report-Delivers wire (err e) r n = (λ h. absurd (cc h), λ h _ _ _ _. absurd (cc h))
report-Delivers wire (ok s) r n = (
  λ h.
      let (same, got, low, high, before) = deliver_sound wire s r 5 1 n h in
      (cc same, got, low, high, before),
  λ h low high got before.
      let same : s ≡ r = cc h in
      subst (λ x. deliver wire s 5 1 ≡ delivered x n) same
        (deliver-delivered wire s 5 1 n low high got before),
)
