-- ===== src/Agent/Checkpoint/Obeyed.antt =====
-- internal/agent/agent.go: which answer a checkpoint obeys.
use retentionops_connector.Prelude.{
  ◌≡◌, ◌≢◌, ◌⊎◌, refl, ap, Bool, true, false, List, [], ◌∷◌, ◌++◌, Option, none, some, All, arith,
  sym, subst, ◌∙◌, Bool-cases, inl, inr,
}
use retentionops_connector.Prelude.Int.{ℤ, ◌≤ℤ◌, ◌<ℤ◌, ltb_ℤ, int_tests}
use retentionops_connector.Prelude.Result.{Check, ok, err}
use retentionops_connector.Protocol.Job.{JobEnvelope}
use retentionops_connector.Protocol.Control.{ExecutionControl, ControlAction}
use retentionops_connector.Postgres.Errors.{RunError, context_done, control_cancelled}
use retentionops_connector.Evidence.{Builder}
use retentionops_connector.Agent.Checkpoint.{
  Gate, Context, Wait, emit, emit_paused, emit_resumed, act_on, consider, await_polls,
  await_control,
}

-- An answer no newer than a version.
abbrev pub NoNewer : ℤ → Option ExecutionControl → Type 0
NoNewer version none = Unit
NoNewer version (some c) = c.execution_version ≤ℤ version

-- A wait passes an answer over, and the version that a later answer must reach goes from `low` to
-- `high`: a request that failed, an answer older than that version, or one that is neither RUN nor
-- CANCEL, which raises the version to its own.
abbrev pub Passes : ℤ → ℤ → Option ExecutionControl → Type 0
Passes low high none = high ≡ low
Passes low high (some c) =
    ((c.execution_version <ℤ low) × (high ≡ low))
    ⊎ ((low ≤ℤ c.execution_version)
        × (high ≡ c.execution_version)
        × (c.action ≢ ControlAction.run)
        × (c.action ≢ ControlAction.cancel))

-- Answers from a version on, each of which is passed over.
pub data Undecided : ℤ → List (Option ExecutionControl) → Type 0 where
  all_read : {version : ℤ} → Undecided version []
  passed :
      {low high : ℤ} {answer : Option ExecutionControl} {later : List (Option ExecutionControl)}
      → Passes low high answer
      → Undecided high later
      → Undecided low (answer ∷ later)

-- The answer that ended the wait: the first answers up to it are used up, none of them is newer,
-- and the version that a later answer must reach is its own.
pub record Decided {D : Type 0} (highest : ℤ) (polls : List (Option ExecutionControl))
    (action : ControlAction) (g : Gate D) : Type 0 where
  pub control : ExecutionControl
  pub earlier : List (Option ExecutionControl)
  pub used : polls ≡ earlier ++ (some control ∷ g.polls)
  pub wanted : control.action ≡ action
  pub current : highest ≤ℤ control.execution_version
  pub newest : All (NoNewer control.execution_version) earlier
  pub adopted : g.highest_version ≡ control.execution_version

abbrev pub ObeysAnswer :
    {D : Type 0} → ℤ → List (Option ExecutionControl) → Check RunError → Gate D → Type 0
ObeysAnswer highest polls (ok u) g = Decided highest polls ControlAction.run g
ObeysAnswer highest polls (err control_cancelled) g = Decided highest polls ControlAction.cancel g
ObeysAnswer highest polls (err context_done) g = (g.polls ≡ []) × Undecided highest polls
ObeysAnswer highest polls (err _) g = ⊥

older-NoNewer :
    (low high : ℤ) (answer : Option ExecutionControl)
    → low ≤ℤ high
    → NoNewer low answer
    → NoNewer high answer
older-NoNewer low high none le old = tt
older-NoNewer low high (some c) le old = omega arith

Passes-rises :
    (low high : ℤ) (answer : Option ExecutionControl)
    → Passes low high answer
    → (low ≤ℤ high) × NoNewer high answer
Passes-rises low high none same = rw same (omega arith, tt)
Passes-rises low high (some c) (inl (old, same)) = rw same (omega arith, omega (arith, old))
Passes-rises low high (some c) (inr (le, same, p, q)) = rw same (le, omega arith)

passed_decision :
    {D : Type 0} (highest low : ℤ) (polls : List (Option ExecutionControl))
    (answer : Option ExecutionControl) (action : ControlAction) (g : Gate D)
    → low ≤ℤ highest
    → NoNewer highest answer
    → Decided highest polls action g
    → Decided low (answer ∷ polls) action g
passed_decision highest low polls answer action g le old d = record {
  control = d.control;
  earlier = answer ∷ d.earlier;
  used = ap (λ ps. answer ∷ ps) d.used;
  wanted = d.wanted;
  current = omega (arith, d.current);
  newest = (older-NoNewer highest d.control.execution_version answer d.current old, d.newest);
  adopted = d.adopted;
}

-- One more answer, which the wait passed over.
passed_over :
    {D : Type 0} (highest low : ℤ) (polls : List (Option ExecutionControl))
    (answer : Option ExecutionControl) (r : Check RunError) (g : Gate D)
    → Passes low highest answer
    → ObeysAnswer highest polls r g
    → ObeysAnswer low (answer ∷ polls) r g
passed_over highest low polls answer (ok u) g by d =
    let (le, old) = Passes-rises low highest answer by in
    passed_decision highest low polls answer _ g le old d
passed_over highest low polls answer (err control_cancelled) g by d =
    let (le, old) = Passes-rises low highest answer by in
    passed_decision highest low polls answer _ g le old d
passed_over highest low polls answer (err context_done) g by (used, over) = (used, passed by over)
passed_over highest low polls answer (err _) g by d = absurd d

module _ {D : Type 0} (agent : Builder) (context : Context) (job : JobEnvelope) where
  -- Events change neither the version nor the answers that are left.
  resumed-keeps :
      (paused : Bool) (cumulative : ℤ) (g : Gate D)
      → ((emit_resumed agent context job paused cumulative g).polls ≡ g.polls)
        × ((emit_resumed agent context job paused cumulative g).highest_version ≡ g.highest_version)
        × ((emit_resumed agent context job paused cumulative g).database ≡ g.database)
  unfolding emit
  resumed-keeps true cumulative g = (refl, refl, refl)
  resumed-keeps false cumulative g = (refl, refl, refl)

  paused-keeps :
      (paused : Bool) (cumulative : ℤ) (g : Gate D)
      → ((emit_paused agent context job paused cumulative g).polls ≡ g.polls)
        × ((emit_paused agent context job paused cumulative g).highest_version ≡ g.highest_version)
        × ((emit_paused agent context job paused cumulative g).database ≡ g.database)
  unfolding emit
  paused-keeps true cumulative g = (refl, refl, refl)
  paused-keeps false cumulative g = (refl, refl, refl)

  -- What a wait obeyed, from a version, some answers and the state outside; a wait without an end has
  -- passed all answers over, and a context that lives.
  abbrev pub Obeys : ℤ → List (Option ExecutionControl) → D → Wait D → Type 0
  Obeys highest polls d none = (context.lives ≡ true) × Undecided highest polls
  Obeys highest polls d (some (r, g)) = ObeysAnswer highest polls r g × (g.database ≡ d)

  -- One more answer, which the wait passed over.
  wait-Obeys :
      (answer : Option ExecutionControl) (low high : ℤ) (later : List (Option ExecutionControl))
      (r : Wait D) (d d' : D)
      → d' ≡ d
      → Passes low high answer
      → Obeys high later d' r
      → Obeys low (answer ∷ later) d r
  wait-Obeys answer low high later none d d' same by (lives, over) = (lives, passed by over)
  wait-Obeys answer low high later (some (r, g)) d d' same by (obeyed, kept) =
      (passed_over high low later answer r g by obeyed, kept ∙ same)

  module _ (later : List (Option ExecutionControl)) (next : Bool → Gate D → Wait D)
      (good : (paused : Bool) (g : Gate D)
        → g.polls ≡ later
        → Obeys g.highest_version later g.database (next paused g)) where
    next-Obeys :
        (answer : Option ExecutionControl) (low high : ℤ) (paused : Bool) (g : Gate D) (d : D)
        → g.polls ≡ later
        → g.highest_version ≡ high
        → g.database ≡ d
        → Passes low high answer
        → Obeys low (answer ∷ later) d (next paused g)
    next-Obeys answer low high paused g d p v same by =
        wait-Obeys answer low high later (next paused g) d g.database same by
          (subst (λ h. Obeys h later g.database (next paused g)) v (good paused g p))

    acted-Obeys :
        (cumulative highest : ℤ) (c : ExecutionControl) (action : ControlAction) (paused : Bool)
        (g : Gate D)
        → c.action ≡ action
        → g.polls ≡ later
        → g.highest_version ≡ c.execution_version
        → highest ≤ℤ c.execution_version
        → Obeys highest
            (some c ∷ later)
            g.database
            (act_on agent context job next cumulative action paused g)
    unfolding act_on
    acted-Obeys cumulative highest c ControlAction.run paused g a p v le =
        let (polls, version, kept) = resumed-keeps paused cumulative g in
        (
          record {
            control = c;
            earlier = [];
            used = ap (λ ps. some c ∷ ps) (sym (polls ∙ p));
            wanted = a;
            current = le;
            newest = tt;
            adopted = version ∙ v;
          },
          kept,
        )
    acted-Obeys cumulative highest c ControlAction.cancel paused g a p v le = (
      record {
        control = c;
        earlier = [];
        used = ap (λ ps. some c ∷ ps) (sym p);
        wanted = a;
        current = le;
        newest = tt;
        adopted = v;
      },
      refl,
    )
    acted-Obeys cumulative highest c ControlAction.pause paused g a p v le =
        let (polls, version, kept) = paused-keeps paused cumulative g in
        next-Obeys (some c) highest c.execution_version true
          (emit_paused agent context job paused cumulative g) g.database (polls ∙ p) (version ∙ v)
          kept (inr (le, refl, (λ x. cc), (λ x. cc)))
    acted-Obeys cumulative highest c (ControlAction.unknown s) paused g a p v le =
        next-Obeys (some c) highest c.execution_version paused g g.database p v refl
          (inr (le, refl, (λ x. cc), (λ x. cc)))

    consider-Obeys :
        (cumulative : ℤ) (answer : Option ExecutionControl) (paused : Bool) (g : Gate D)
        → g.polls ≡ later
        → Obeys g.highest_version
            (answer ∷ later)
            g.database
            (consider agent context job next cumulative answer paused g)
    unfolding consider
    consider-Obeys cumulative none paused g p =
        next-Obeys none g.highest_version g.highest_version paused g g.database p refl refl refl
    consider-Obeys cumulative (some c) paused g p =
        elim (Bool-cases (ltb_ℤ c.execution_version g.highest_version)) [
          | inl stale ↦ rw stale (
              next-Obeys (some c) g.highest_version g.highest_version paused g g.database p refl
                refl (inl (omega int_tests, refl)))
          | inr fresh ↦ rw fresh (
              acted-Obeys cumulative g.highest_version c c.action paused
                (record g { highest_version = c.execution_version }) refl p refl (omega int_tests))
        ]

  await_polls-Obeys :
      (polls : List (Option ExecutionControl)) (cumulative : ℤ) (paused : Bool) (g : Gate D)
      → g.polls ≡ polls
      → Obeys g.highest_version polls g.database
          (await_polls agent context job polls cumulative paused g)
  unfolding await_polls
  await_polls-Obeys [] cumulative paused g p = elim (Bool-cases context.lives) [
    | inl lives ↦ simp lives (refl, all_read)
    | inr done ↦ simp done ((refl, all_read), refl)
  ]
  await_polls-Obeys (answer ∷ later) cumulative paused g p =
      consider-Obeys later (await_polls agent context job later cumulative)
        (await_polls-Obeys later cumulative) cumulative answer paused (record g { polls = later })
        refl

  -- A checkpoint lets the next batch begin only on a RUN, and cancels only on a CANCEL, that has a
  -- version no lower than any that the job has seen, at this checkpoint or before, and that
  -- version becomes the lowest to be obeyed. It ends with the context, or still waits where the context
  -- lives, only if every answer was passed over: it was missing, or older than that version, or
  -- neither RUN nor CANCEL. It never touches the database.
  pub await_control-Obeys :
      (cumulative : ℤ) (g : Gate D)
      → Obeys g.highest_version g.polls g.database (await_control agent context job cumulative g)
  unfolding await_control
  await_control-Obeys cumulative g = await_polls-Obeys g.polls cumulative false g refl
