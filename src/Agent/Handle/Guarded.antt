-- ===== src/Agent/Handle/Guarded.antt =====
-- internal/agent/agent.go: what has to hold before `handle` touches a database.
use retentionops_connector.Prelude.{
  ◌≡◌, ◌≢◌, refl, ◌⊎◌, inl, inr, String, true, false, ◌&&◌, List, [], ◌∷◌, Option, none, some, In,
  here, there, arith, Bool-cases, subst,
}
use retentionops_connector.Prelude.Text.{◌==◌, eq_iff}
use retentionops_connector.Protocol.Job.{Operation, JobEnvelope, destructive, same_operation}
use retentionops_connector.Jobs.Replay.{Ledger, OpenFaults}
use retentionops_connector.Jobs.Verifier.{Verdict, accepted, refused, broken, verify}
use retentionops_connector.Jobs.Verifier.Sound.{Accepted, verify-Accepted}
use retentionops_connector.Policy.{Decision, authorize}
use retentionops_connector.Policy.Permitted.{Permitted, authorize-Permitted}
use retentionops_connector.Config.{Source, find_source, pending, discovery_only}
use retentionops_connector.Agent.Checkpoint.{Gate}
use retentionops_connector.Agent.Handle.{
  Readings, Connector, Outside, Handled, dispatch, decided, handle, handle_verdict,
}

find_source-In :
    (sources : List (String × Source)) (id : String) {source : Source}
    → find_source sources id ≡ some source
    → In (id, source) sources
unfolding find_source
find_source-In [] id h = cc
find_source-In ((name, s) ∷ rest) id {source} h = elim (Bool-cases (name == id)) [
  | inl same ↦
      let found : s ≡ source = ground arith in
      subst (λ x. In (id, source) (x ∷ rest)) (cc ((eq_iff name id).0 same, found)) here
  | inr other ↦ there (find_source-In rest id {source = source} (ground arith))
]

-- Nothing outside the ledger has changed.
abbrev pub Untouched : {D : Type 0} → Gate D → Option (Handled D) → Type 0
Untouched g none = ⊥
Untouched g (some h) = h.gate ≡ g

-- The job that a document has to be before it runs.
pub record Cleared {Raw : Type 0} (c : Connector Raw) (at : Readings) (raw : Raw)
    (before after : Ledger) : Type 0 where
  pub job : JobEnvelope
  pub source : Source
  pub genuine : Accepted c.codec c.identity raw job at.verified before after
  pub configured : In (job.data_source_id, source) c.sources
  pub looked_up : find_source c.sources job.data_source_id ≡ some source
  pub ready : pending source ≡ false
  pub execution_enabled : job.operation ≡ Operation.delete → source.mode ≢ discovery_only
  pub permitted :
      (job.operation ≡ Operation.count) ⊎ (job.operation ≡ Operation.delete)
      → Permitted source.safety job at.authorized

module _ {Raw D : Type 0} (c : Connector Raw) (outside : Outside D) (at : Readings) where
  decided_guard :
      (job : JobEnvelope) (source : Source) (decision : Decision) (l : Ledger) (g : Gate D)
      → Untouched g (decided c outside at job source decision l g) ⊎ (decision.allowed ≡ true)
  decided_guard job source decision l g = elim (Bool-cases decision.allowed) [
    | inl granted ↦ inr granted
    | inr denied ↦ inl (rw denied refl)
  ]

  mode_guard :
      (job : JobEnvelope) (source : Source)
      → (destructive job.operation && source.mode == discovery_only) ≡ false
      → job.operation ≡ Operation.delete
      → source.mode ≢ discovery_only
  unfolding destructive same_operation
  mode_guard job source off o same = ground (arith, (eq_iff source.mode discovery_only).1 same)

  dispatch_guard :
      (raw : Raw) (job : JobEnvelope) (found : Option Source) (before l : Ledger) (g : Gate D)
      → Accepted c.codec c.identity raw job at.verified before l
      → find_source c.sources job.data_source_id ≡ found
      → Untouched g (dispatch c outside at job found l g) ⊎ Cleared c at raw before l
  unfolding dispatch
  dispatch_guard raw job none before l g a f = inl refl
  dispatch_guard raw job (some source) before l g a f = elim (Bool-cases (pending source)) [
    | inl p ↦ inl (rw p refl)
    | inr p ↦ elim (Bool-cases (destructive job.operation && source.mode == discovery_only)) [
      | inl off ↦ inl (rw (p, off) refl)
      | inr on ↦
          rw (p, on)
            (elim (decided_guard job source (authorize source.safety job at.authorized) l g) [
              | inl kept ↦ inl kept
              | inr granted ↦ inr (record {
                job = job;
                source = source;
                genuine = a;
                configured = find_source-In c.sources job.data_source_id f;
                looked_up = f;
                ready = p;
                execution_enabled = mode_guard job source on;
                permitted = λ o. authorize-Permitted source.safety job at.authorized o granted;
              })
            ])
    ]
  ]

  verdict_guard :
      (raw : Raw) (before : Ledger) (v : Verdict) (l : Ledger) (g : Gate D)
      → ((job : JobEnvelope)
          → v ≡ accepted job
          → Accepted c.codec c.identity raw job at.verified before l)
      → Untouched g (handle_verdict c outside at (v, l) g) ⊎ Cleared c at raw before l
  unfolding handle_verdict
  verdict_guard raw before (accepted job) l g a =
      dispatch_guard raw job (find_source c.sources job.data_source_id) before l g (a job refl) refl
  verdict_guard raw before (refused (some job) code) l g a = inl refl
  verdict_guard raw before (refused none code) l g a = inl refl
  verdict_guard raw before (broken job) l g a = inl refl

  -- A document reaches a database, or sends an event, only if it is a job that verification
  -- accepts, whose nonce is in the ledger from then on, for a source of the configuration that is
  -- not pending; if it deletes, only where execution is enabled; and if it counts or deletes, only
  -- if the local policy of that source permits it.
  pub handle-Cleared :
      (faults : OpenFaults) (raw : Raw) (l : Ledger) (g : Gate D)
      → Untouched g (handle c outside at faults raw l g)
        ⊎ Cleared c at raw l (verify c.codec c.identity faults at.verified raw l).1
  unfolding handle
  handle-Cleared faults raw l g =
      let r = verify c.codec c.identity faults at.verified raw l in
      verdict_guard raw l r.0 r.1 g
        (λ job e. verify-Accepted c.codec c.identity faults at.verified raw job l e)
