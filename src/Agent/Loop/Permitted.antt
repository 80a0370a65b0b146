-- ===== src/Agent/Loop/Permitted.antt =====
-- internal/agent/agent.go: what a document that the loop gets to may do, whatever came before it.
use retentionops_connector.Prelude.{
  ◌≡◌, ◌≢◌, subst, ◌⊎◌, inl, inr, String, false, List, ◌∷◌, Option, none, some, Bool-cases,
}
use retentionops_connector.Protocol.Job.{Operation, JobEnvelope}
use retentionops_connector.Jobs.Verifier.{verify}
use retentionops_connector.Jobs.Verifier.Sound.{Accepted}
use retentionops_connector.Policy.Permitted.{Permitted}
use retentionops_connector.Config.{Source, find_source, discovery_only}
use retentionops_connector.Config.Local.{AllKept}
use retentionops_connector.Agent.Handle.{Handled, handle}
use retentionops_connector.Agent.Handle.Guarded.{Untouched, Cleared, handle-Cleared}
use retentionops_connector.Agent.Loop.{
  Fixed, Turn, AgentState, Next, Poll, idle, failed, work, go_on, halted, held, pruned,
  connector_of, gate_of, handled, after_failure, polled, turn,
}
use retentionops_connector.Agent.Loop.Kept.{AllKept-trans, apply_pending-AllKept}

module _ {Raw D : Type 0} (fixed : Fixed Raw) where
  -- The loop, which starts with these turns in the first state, gets to a document in a turn and a
  -- state, in which the ledger has been pruned.
  pub data GetsTo
      : List (Turn Raw D) → AgentState D → Raw → Turn Raw D → AgentState D → Type 0 where
    now :
        {ts : List (Turn Raw D)} {s : AgentState D} (t : Turn Raw D) {raw : Raw}
        → t.cancelled ≡ false
        → t.poll ≡ work raw
        → GetsTo (t ∷ ts) s raw t (record s { ledger = pruned t.prunes s.ledger })
    later :
        {ts : List (Turn Raw D)} {s : AgentState D} (t : Turn Raw D) {next : AgentState D}
        {raw : Raw} {t' : Turn Raw D} {s' : AgentState D}
        → turn fixed t s ≡ go_on next
        → GetsTo ts next raw t' s'
        → GetsTo (t ∷ ts) s raw t' s'

  abbrev pub ended : Turn Raw D → AgentState D → Raw → Option (Handled D)
  ended t s raw =
      handle (connector_of fixed s.configured) t.outside t.at t.faults raw s.ledger (gate_of t s)

  -- The document is a genuine job for a source of the list `declared`, which has the mode and the
  -- policy that it is judged by.
  pub record PermittedBy (declared : List (String × Source)) (raw : Raw) (t : Turn Raw D)
      (s : AgentState D) : Type 0 where
    pub job : JobEnvelope
    pub source : Source
    pub genuine :
        Accepted fixed.codec fixed.identity raw job t.at.verified s.ledger
          (verify fixed.codec fixed.identity t.faults t.at.verified raw s.ledger).1
    pub declares : find_source declared job.data_source_id ≡ some source
    pub execution_enabled : job.operation ≡ Operation.delete → source.mode ≢ discovery_only
    pub permitted :
        (job.operation ≡ Operation.count) ⊎ (job.operation ≡ Operation.delete)
        → Permitted source.safety job t.at.authorized

  -- A turn that goes on keeps the sources as `declared` has them.
  abbrev Keeps : List (String × Source) → Next D → Type 0
  Keeps declared (go_on s) = AllKept declared s.configured.sources
  Keeps declared (halted s) = Unit
  Keeps declared held = Unit

  handled-Keeps :
      (declared : List (String × Source)) (s : AgentState D) (h : Option (Handled D))
      → AllKept declared s.configured.sources
      → Keeps declared (handled s h)
  unfolding handled
  handled-Keeps declared s none kept = tt
  handled-Keeps declared s (some h) kept = kept

  failed-Keeps :
      (declared : List (String × Source)) (t : Turn Raw D) (s : AgentState D)
      → AllKept declared s.configured.sources
      → Keeps declared (after_failure t s)
  unfolding after_failure
  failed-Keeps declared t s kept = elim (Bool-cases t.cancelled_after) [
    | inl done ↦ rw done tt
    | inr live ↦ elim (Bool-cases t.wakes) [
      | inl woken ↦ rw (live, woken) kept
      | inr cut ↦ rw (live, cut) tt
    ]
  ]

  polled-Keeps :
      (declared : List (String × Source)) (t : Turn Raw D) (p : Poll Raw) (s : AgentState D)
      → AllKept declared s.configured.sources
      → Keeps declared (polled fixed t p s)
  unfolding polled
  polled-Keeps declared t idle s kept =
      AllKept-trans _ _ _ kept (apply_pending-AllKept fixed t.pending s.configured)
  polled-Keeps declared t failed s kept = failed-Keeps declared t s kept
  polled-Keeps declared t (work raw) s kept = handled-Keeps declared s (ended t s raw) kept

  turn-Keeps :
      (declared : List (String × Source)) (t : Turn Raw D) (s : AgentState D)
      → AllKept declared s.configured.sources
      → Keeps declared (turn fixed t s)
  unfolding turn
  turn-Keeps declared t s kept = elim (Bool-cases t.cancelled) [
    | inl done ↦ rw done tt
    | inr live ↦
        simp live
          (polled-Keeps declared t t.poll (record s { ledger = pruned t.prunes s.ledger }) kept)
  ]

  GetsTo-AllKept :
      (declared : List (String × Source)) {ts : List (Turn Raw D)} {s s' : AgentState D} {raw : Raw}
      {t : Turn Raw D}
      → AllKept declared s.configured.sources
      → GetsTo ts s raw t s'
      → AllKept declared s'.configured.sources
  GetsTo-AllKept declared kept (now t live brings) = kept
  GetsTo-AllKept declared {s = s} kept (later t moves rest) =
      GetsTo-AllKept declared (subst (Keeps declared) moves (turn-Keeps declared t s kept)) rest

  Cleared-PermittedBy :
      (declared : List (String × Source)) (raw : Raw) (t : Turn Raw D) (s : AgentState D)
      → AllKept declared s.configured.sources
      → Cleared
          (connector_of fixed s.configured)
          t.at
          raw
          s.ledger
          (verify fixed.codec fixed.identity t.faults t.at.verified raw s.ledger).1
      → PermittedBy declared raw t s
  Cleared-PermittedBy declared raw t s kept c =
      let (d, found, local) = kept c.job.data_source_id c.source c.looked_up in
      record {
        job = c.job;
        source = d;
        genuine = c.genuine;
        declares = found;
        execution_enabled = λ o. subst (λ m. m ≢ discovery_only) local.mode (c.execution_enabled o);
        permitted =
            λ o. subst (λ p. Permitted p c.job t.at.authorized) local.safety (c.permitted o);
      }

  -- Whatever jobs and sealed configurations have come before, if the sources in force at the start
  -- are those of a list `declared` with other connections, a document that the loop gets to leaves
  -- the databases alone and sends no event, unless it is a genuine job for a source of `declared`:
  -- if it deletes, one whose mode there allows it; and if it counts or deletes, one whose policy
  -- there permits it.
  pub GetsTo-PermittedBy :
      (declared : List (String × Source)) {ts : List (Turn Raw D)} {s s' : AgentState D} {raw : Raw}
      {t : Turn Raw D}
      → AllKept declared s.configured.sources
      → GetsTo ts s raw t s'
      → Untouched (gate_of t s') (ended t s' raw) ⊎ PermittedBy declared raw t s'
  GetsTo-PermittedBy declared {s' = s'} {raw = raw} {t = t} kept reach =
      elim (handle-Cleared (connector_of fixed s'.configured) t.outside t.at t.faults raw s'.ledger
        (gate_of t s')) [
          | inl same ↦ inl same
          | inr c ↦
              inr (Cleared-PermittedBy declared raw t s' (GetsTo-AllKept declared kept reach) c)
        ]
