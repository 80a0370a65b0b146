-- ===== src/Jobs/Verifier/Once.antt =====
-- internal/jobs: a document is accepted at most once, whatever arrives and whatever is pruned in
-- between. Two processes on one directory are covered too: every use of the disk is one step.
use retentionops_connector.Prelude.{
  ◌≡◌, ◌≢◌, refl, sym, ap, subst, ◌⊎◌, inl, inr, false, List, ◌∷◌, some, In, here, there, arith,
  Bool-cases,
}
use retentionops_connector.Prelude.Int.{
  ℤ, pos_part, neg_part, ◌≤ℤ◌, ◌+ℤ◌, ◌-ℤ◌, int_tests, int_laws,
}
use retentionops_connector.Prelude.Text.{Time, after}
use retentionops_connector.Protocol.Job.{JobEnvelope}
use retentionops_connector.Jobs.Replay.{
  Ledger, Entry, OpenFaults, PruneFaults, prune, prune_entries, prune-entries, In-prune_entries,
  In-has_entry,
}
use retentionops_connector.Jobs.Verifier.{Codec, Identity, accepted, verify}
use retentionops_connector.Jobs.Verifier.Sound.{Accepted, verify-Accepted, verify-ledger}

module _ {Raw : Type 0} (codec : Codec Raw) (identity : Identity) where
  -- What may happen between two looks at the ledger, in order of time.
  pub data Elapses (l : Ledger) (t : Time) : Ledger → Time → Type 0 where
    start : Elapses l t l t
    received :
        {m : Ledger} {u : Time} (v : Time) (faults : OpenFaults) (raw : Raw)
        → Elapses l t m u
        → u ≤ℤ v
        → Elapses l t (verify codec identity faults v raw m).1 v
    pruned :
        {m : Ledger} {u : Time} (v : Time) (faults : PruneFaults)
        → Elapses l t m u
        → u ≤ℤ v
        → Elapses l t (prune faults v m).1 v

  -- The nonce of the job is in the ledger, or the job has expired.
  record Barred (job : JobEnvelope) (t : Time) (retention : ℤ) (m : Ledger) (u : Time)
      : Type 0 where
    kept : m.retention ≡ retention
    barred :
        In (record { name = codec.nonce_digest job.nonce; modified = t }) m.entries
        ⊎ (job.expires_at ≤ℤ u)

  module _ (job : JobEnvelope) (t : Time) (retention : ℤ) where
    later :
        (u v : Time) {es : List Entry}
        → u ≤ℤ v
        → In (record { name = codec.nonce_digest job.nonce; modified = t }) es
          ⊎ (job.expires_at ≤ℤ u)
        → In (record { name = codec.nonce_digest job.nonce; modified = t }) es
          ⊎ (job.expires_at ≤ℤ v)
    later u v le (inl i) = inl i
    later u v le (inr e) = inr (omega arith)

    extended :
        (v : Time) {x : Entry} {es : List Entry}
        → In (record { name = codec.nonce_digest job.nonce; modified = t }) es
          ⊎ (job.expires_at ≤ℤ v)
        → In (record { name = codec.nonce_digest job.nonce; modified = t }) (x ∷ es)
          ⊎ (job.expires_at ≤ℤ v)
    extended v (inl i) = inl (there i)
    extended v (inr e) = inr e

    received-Barred :
        {m : Ledger} {u : Time} (v : Time) (faults : OpenFaults) (raw : Raw)
        → Barred job t retention m u
        → u ≤ℤ v
        → Barred job t retention (verify codec identity faults v raw m).1 v
    received-Barred {m} {u} v faults raw b le = elim (verify-ledger codec identity faults v raw m) [
      | inl same ↦ rw same (record { kept = b.kept; barred = later u v le b.barred })
      | inr (j, d, a, more) ↦
          rw more (record { kept = b.kept; barred = extended v (later u v le b.barred) })
    ]

    -- Past the retention the job has expired.
    expired_by :
        (v : Time) (r : ℤ)
        → job.expires_at ≤ℤ (t +ℤ r)
        → after t (v -ℤ r) ≡ false
        → job.expires_at ≤ℤ v
    expired_by v r life old = omega (int_laws, int_tests)

    swept :
        (u v : Time) (r : ℤ) (faults : PruneFaults) (es : List Entry)
        → u ≤ℤ v
        → job.expires_at ≤ℤ (t +ℤ r)
        → In (record { name = codec.nonce_digest job.nonce; modified = t }) es
          ⊎ (job.expires_at ≤ℤ u)
        → In
            (record { name = codec.nonce_digest job.nonce; modified = t })
            (prune_entries faults (v -ℤ r) es).0
          ⊎ (job.expires_at ≤ℤ v)
    swept u v r faults es le life (inr e) = inr (omega arith)
    swept u v r faults es le life (inl i) = elim (Bool-cases (after t (v -ℤ r))) [
      | inl young ↦ inl (In-prune_entries faults (v -ℤ r) _ es i young)
      | inr old ↦ inr (expired_by v r life old)
    ]

    pruned-Barred :
        {m : Ledger} {u : Time} (v : Time) (faults : PruneFaults)
        → job.expires_at ≤ℤ (t +ℤ retention)
        → Barred job t retention m u
        → u ≤ℤ v
        → Barred job t retention (prune faults v m).1 v
    pruned-Barred {m} {u} v faults life b le = elim (prune-entries faults v m) [
      | inl same ↦ rw same (record { kept = b.kept; barred = later u v le b.barred })
      | inr less ↦ rw less (record {
        kept = b.kept;
        barred =
            swept u v m.retention faults m.entries le
              (subst (λ r. job.expires_at ≤ℤ (t +ℤ r)) (sym b.kept) life) b.barred;
      })
    ]

    Elapses-Barred :
        {l m : Ledger} {u : Time}
        → job.expires_at ≤ℤ (t +ℤ retention)
        → Barred job t retention l t
        → Elapses l t m u
        → Barred job t retention m u
    Elapses-Barred life b start = b
    Elapses-Barred life b (received v faults raw e le) =
        received-Barred v faults raw (Elapses-Barred life b e) le
    Elapses-Barred life b (pruned v faults e le) =
        pruned-Barred v faults life (Elapses-Barred life b e) le

  not_again :
      (job j : JobEnvelope) (t u v : Time) (r : ℤ) (faults : OpenFaults) (raw : Raw) (m : Ledger)
      → codec.decode_job raw ≡ some job
      → Barred job t r m u
      → u ≤ℤ v
      → Accepted codec identity raw j v m (verify codec identity faults v raw m).1
      → ⊥
  not_again job j t u v r faults raw m d b le a = elim b.barred [
    | inl i ↦ cc (In-has_entry i, a.fresh, ap (λ (x : JobEnvelope). x.nonce) same)
    | inr e ↦ absurd (
        omega (
          arith,
          a.authentic.not_expired,
          ap (λ (x : JobEnvelope). pos_part x.expires_at) same,
          ap (λ (x : JobEnvelope). neg_part x.expires_at) same,
        ))
  ]
    where
      same : job ≡ j
      same = cc (d, a.decoded)

  -- A document that was accepted once is not accepted again, by this process or another on the same
  -- ledger, at any later time and after any documents and prunes in between, if its job lives no
  -- longer after its acceptance than the ledger keeps an entry.
  pub verify_once :
      (job again : JobEnvelope) (t u v : Time) (raw : Raw) (faults later_faults : OpenFaults)
      (l m : Ledger)
      → (verify codec identity faults t raw l).0 ≡ accepted job
      → job.expires_at ≤ℤ (t +ℤ l.retention)
      → Elapses (verify codec identity faults t raw l).1 t m u
      → u ≤ℤ v
      → (verify codec identity later_faults v raw m).0 ≢ accepted again
  verify_once job again t u v raw faults later_faults l m first life elapsed le second =
      let a = verify-Accepted codec identity faults t raw job l first in
      let b : Barred job t l.retention (verify codec identity faults t raw l).1 t =
        rw a.remembered (record { kept = refl; barred = inl here }) in
      not_again job again t u v l.retention later_faults raw m a.decoded
        (Elapses-Barred job t l.retention life b elapsed) le
        (verify-Accepted codec identity later_faults v raw again m second)
