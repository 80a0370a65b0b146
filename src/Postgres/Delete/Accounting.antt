-- ===== src/Postgres/Delete/Accounting.antt =====
-- adapters/postgres/adapter.go: the rows that `Delete` reports and the rows that its transactions
-- remove, on every way out.
use retentionops_connector.Prelude.{
  ℕ, zero, suc, ◌+◌, ◌≡◌, ◌≢◌, ◌⊎◌, refl, ap, subst, ◌∙◌, Bool, true, false, List, [], ◌∷◌, Option,
  none, some, arith, Bool-cases, inl, inr,
}
use retentionops_connector.Prelude.Int.{ℤ, pos, ltb_ℤ, ◌-ℤ◌}
use retentionops_connector.Prelude.Text.{Time}
use retentionops_connector.Prelude.Result.{Result, Check, ok, err}
use retentionops_connector.Protocol.Job.{Limits}
use retentionops_connector.Protocol.Result.{FailureCode}
use retentionops_connector.Postgres.Errors.{RunError, DriverError}
use retentionops_connector.Postgres.Session.{
  Session, Action, Setting, set_all, timeout_statements, driver, finally, continue, classified,
  connect, fail_unless, executor, Role, ◌>>=◌, ◌>>◌,
}
use retentionops_connector.Postgres.Delete.{
  Outcome, Progress, Surroundings, advanced, after_pause, after_checkpoint, after_batch,
  delete_loop, delete_one_batch, remove_rows, batch_limit, wait, enough_fuel, fresh, wait, delete,
  closed, delete_compiled, delete_connected,
}

-- The documented behaviour of a transaction: what a `DELETE` affects is pending until the commit, a
-- transaction that is rolled back removes nothing, and a commit that reports an error has removed
-- nothing, or, if its reply was lost, all that was pending.
pub record Transactional {S : Type 0} (session : Session S) : Type 0 where
  pub removed : S → ℕ
  pub pending : S → ℕ
  pub begins : (s : S) → removed (session.begin s).1 ≡ removed s
  pub sets : (x : Setting) (s : S) → removed (session.set_local x s).1 ≡ removed s
  pub deletes : (size : ℤ) (s : S) → removed (session.delete_rows size s).1 ≡ removed s
  pub affects :
      (size : ℤ) (n : ℕ) (s : S)
      → (session.delete_rows size s).0 ≡ ok n
      → pending (session.delete_rows size s).1 ≡ n
  pub commits :
      (s : S) → (session.commit s).0 ≡ ok tt → removed (session.commit s).1 ≡ removed s + pending s
  pub fails :
      (s : S) (e : DriverError)
      → (session.commit s).0 ≡ err e
      → (removed (session.commit s).1 ≡ removed s)
        ⊎ (removed (session.commit s).1 ≡ removed s + pending s)
  pub resolves : (role : Role) (s : S) → removed (session.resolve_secret role s).1 ≡ removed s
  pub dials : (role : Role) (s : S) → removed (session.dial role s).1 ≡ removed s
  pub closes : (s : S) → removed (session.close s) ≡ removed s
  pub rolls_back : (s : S) → removed (session.rollback s) ≡ removed s

-- A table whose removed rows are `base` behind an observer, if it returns.
abbrev pub Keeps : {S : Type 0} → (S → ℕ) → ℕ → Option (Check RunError × S) → Type 0
Keeps removed base none = Unit
Keeps removed base (some (r, s)) = removed s ≡ base

-- Neither the observer nor the wait touches the table.
pub record Outside {S : Type 0} (around : Surroundings S) (removed : S → ℕ) : Type 0 where
  pub observes :
      (k rows : ℕ) (t : ℤ) (s : S) → Keeps removed (removed s) (around.observe k rows t s)
  pub pauses : (ms : ℤ) (s : S) → removed (around.pause ms s).1 ≡ removed s

module _ {S : Type 0} (session : Session S) (law : Transactional session) where
  -- Beyond `base`, the rows of one `DELETE`, whose commit reported an error, are gone.
  abbrev pub InDoubt : ℕ → S → Type 0
  InDoubt base s =
      (size : ℤ) × (n : ℕ) × (e : DriverError) × (before : S) × ((session.delete_rows size before).0
        ≡ ok n)
      × ((session.commit (session.delete_rows size before).1).0 ≡ err e)
      × (law.removed s ≡ base + n)

  -- The rows that a batch reports have been removed, and no others; a batch that fails has removed
  -- none, or is in doubt.
  abbrev BatchRemoves : ℕ → Result RunError (ℕ × ℤ) × S → Type 0
  BatchRemoves base (ok (n, t), s) = law.removed s ≡ base + n
  BatchRemoves base (err e, s) = (law.removed s ≡ base) ⊎ InDoubt base s

  abbrev Holds : {A : Type 0} → ℕ → Result RunError A × S → Type 0
  Holds base (r, s) = law.removed s ≡ base

  driver-Holds :
      {A : Type 0} (base : ℕ) (r : Result DriverError A × S)
      → law.removed r.1 ≡ base
      → Holds base (classified r.0, r.1)
  driver-Holds base r h = h

  -- a step that keeps the rows, before one that has a property from there
  then-Removes :
      {A : Type 0} (base : ℕ) (r : Result RunError A × S) (k : A → Action S (ℕ × ℤ))
      → law.removed r.1 ≡ base
      → ((a : A) (s : S) → r ≡ (ok a, s) → law.removed s ≡ base → BatchRemoves base (k a s))
      → BatchRemoves base (continue r.0 k r.1)
  then-Removes base (ok a, s) k h good = good a s refl h
  then-Removes base (err e, s) k h good = inl h

  set_all-Holds :
      (base : ℕ) (xs : List Setting) (s : S)
      → law.removed s ≡ base
      → law.removed (set_all session xs s).1 ≡ base
  unfolding set_all
  set_all-Holds base [] s h = h
  set_all-Holds base (x ∷ xs) s h =
      go (session.set_local x s) (law.sets x s ∙ h) (set_all-Holds base xs)
    where
      go :
          (r : Check DriverError × S)
          → law.removed r.1 ≡ base
          → ((s : S) → law.removed s ≡ base → law.removed (set_all session xs s).1 ≡ base)
          → law.removed ((driver (λ _. r) >> set_all session xs) s).1 ≡ base
      go (ok u, s') h rest = rest s' h
      go (err e, s') h rest = h

  remove_rows-Removes :
      (base : ℕ) (size : ℤ) (started : Time) (s : S)
      → law.removed s ≡ base
      → BatchRemoves base (remove_rows session size started s)
  unfolding remove_rows
  remove_rows-Removes base size started s h =
      deleted (session.delete_rows size s) refl (law.deletes size s ∙ h) (λ n. law.affects size n s)
    where
      committed :
          (n : ℕ) (s1 : S) (r : Check DriverError × S)
          → law.removed s1 ≡ base
          → law.pending s1 ≡ n
          → (session.delete_rows size s).0 ≡ ok n
          → (session.commit (session.delete_rows size s).1).0 ≡ r.0
          → (r.0 ≡ ok tt → law.removed r.1 ≡ law.removed s1 + law.pending s1)
          → ((e : DriverError)
              → r.0 ≡ err e
              → (law.removed r.1 ≡ law.removed s1)
                ⊎ (law.removed r.1 ≡ law.removed s1 + law.pending s1))
          → BatchRemoves base ((driver (λ _. r) >> λ s. (ok (n, session.now s -ℤ started), s)) s1)
      committed n s1 (ok u, s2) kept owed from ends done undone = done refl ∙ (rw (kept, owed) refl)
      committed n s1 (err e, s2) kept owed from ends done undone = elim (undone e refl) [
        | inl nothing ↦ inl (nothing ∙ kept)
        | inr all_of_it ↦ inr (size, n, e, s, from, ends, all_of_it ∙ (rw (kept, owed) refl))
      ]

      deleted :
          (r : Result DriverError ℕ × S)
          → session.delete_rows size s ≡ r
          → law.removed r.1 ≡ base
          → ((n : ℕ) → r.0 ≡ ok n → law.pending r.1 ≡ n)
          → BatchRemoves base (
              (driver (λ _. r) >>= λ affected.
              driver session.commit >> λ s. (ok (affected, session.now s -ℤ started), s))
                s)
      deleted (ok n, s1) from kept owed =
          committed n s1 (session.commit s1) kept (owed n refl) (ap (λ x. x.0) from)
            (ap (λ x. (session.commit x.1).0) from) (law.commits s1) (law.fails s1)
      deleted (err e, s1) from kept owed = inl kept

  after_rollback :
      (base : ℕ) (r : Result RunError (ℕ × ℤ) × S)
      → BatchRemoves base r
      → BatchRemoves base (r.0, session.rollback r.1)
  after_rollback base (ok (n, t), s) h = law.rolls_back s ∙ h
  after_rollback base (err e, s) (inl h) = inl (law.rolls_back s ∙ h)
  after_rollback base (err e, s) (inr (size, n, at, before, from, fails, h)) =
      inr (size, n, at, before, from, fails, law.rolls_back s ∙ h)

  delete_one_batch-Removes :
      (base : ℕ) (limits : Limits) (size : ℤ) (s : S)
      → law.removed s ≡ base
      → BatchRemoves base (delete_one_batch session limits size s)
  unfolding delete_one_batch
  delete_one_batch-Removes base limits size s h = begun (session.begin s) (law.begins s ∙ h)
    where
      body : Action S (ℕ × ℤ)
      body = set_all session (timeout_statements limits) >> remove_rows session size (session.now s)

      filled : (s1 : S) → law.removed s1 ≡ base → BatchRemoves base (body s1)
      filled s1 kept =
          then-Removes base (set_all session (timeout_statements limits) s1)
            (λ _. remove_rows session size (session.now s))
            (set_all-Holds base (timeout_statements limits) s1 kept)
            (λ _ s2 e k. remove_rows-Removes base size (session.now s) s2 k)

      begun :
          (r : Check DriverError × S)
          → law.removed r.1 ≡ base
          → BatchRemoves base ((driver (λ _. r) >> finally session.rollback body) s)
      begun (ok u, s1) kept = after_rollback base (body s1) (filled s1 kept)
      begun (err e, s1) kept = inl kept

module _ {S : Type 0} (session : Session S) (law : Transactional session) (around : Surroundings S)
    (outside : Outside around law.removed) (limits : Limits) (base : ℕ) where
  -- The rows that are reported are the rows removed since `base`, or there is an error, and a batch
  -- beyond them is in doubt.
  abbrev pub Reported : Outcome → S → Type 0
  Reported o s =
      (law.removed s ≡ base + o.rows_deleted)
      ⊎ ((o.error ≢ none) × InDoubt session law (base + o.rows_deleted) s)

  abbrev Counted : Option (Outcome × S) → Type 0
  Counted none = Unit
  Counted (some (o, s)) = Reported o s

  module _ (next : Progress → S → Option (Outcome × S))
      (good : (q : Progress) (s : S)
        → law.removed s ≡ base + q.rows_deleted
        → Counted (next q s)) where
    paused-Counted :
        (q : Progress) (r : Bool × S)
        → law.removed r.1 ≡ base + q.rows_deleted
        → Counted (after_pause session around next q r)
    paused-Counted q (true, s) h = inl h
    paused-Counted q (false, s) h = good q s h

    wait-keeps : (s : S) → law.removed (wait session around limits s).1 ≡ law.removed s
    wait-keeps s = ground (arith, outside.pauses limits.pause_between_batches_ms s)

    checkpoint-Counted :
        (p : Progress) (k : ℕ) (s1 : S) (r : Option (Check RunError × S))
        → Keeps law.removed (base + (p.rows_deleted + k)) r
        → Counted (after_checkpoint session around next limits p k s1 r)
    unfolding after_checkpoint
    checkpoint-Counted p k s1 none h = tt
    checkpoint-Counted p k s1 (some (err e, s)) h = inl h
    checkpoint-Counted p k s1 (some (ok u, s)) h = ground (
      arith,
      paused-Counted (advanced session around p k s1 s) (wait session around limits s)
          (wait-keeps s ∙ h),
    )

    observed-at :
        (k rows : ℕ) (t : ℤ) (s : S) (n : ℕ)
        → law.removed s ≡ n
        → Keeps law.removed n (around.observe k rows t s)
    observed-at k rows t s n h =
        subst (λ m. Keeps law.removed m (around.observe k rows t s)) h (outside.observes k rows t s)

    batch-Counted :
        (p : Progress) (r : Result RunError (ℕ × ℤ) × S)
        → BatchRemoves session law (base + p.rows_deleted) r
        → Counted (after_batch session around next limits p r)
    unfolding after_batch
    batch-Counted p (err e, s) (inl h) = inl h
    batch-Counted p (err e, s) (inr doubt) = inr (λ x. cc, doubt)
    batch-Counted p (ok (zero, t), s) h = inl (omega (arith, h))
    batch-Counted p (ok (suc k, t), s) h =
        checkpoint-Counted p (suc k) s _
          (observed-at (suc k) (p.rows_deleted + suc k) t s _ (omega (arith, h)))

  loop-Counted :
      (fuel : ℕ) (p : Progress) (s : S)
      → law.removed s ≡ base + p.rows_deleted
      → Counted (delete_loop session around fuel limits p s)
  unfolding delete_loop
  loop-Counted zero p s h = tt
  loop-Counted (suc fuel) p s h = elim (Bool-cases (ltb_ℤ (pos p.rows_deleted) limits.max_rows)) [
    | inl more ↦ rw more (
        batch-Counted (delete_loop session around fuel limits) (loop-Counted fuel) p _ (
          delete_one_batch-Removes session law (base + p.rows_deleted) limits
            (batch_limit limits p.rows_deleted) s h))
    | inr done ↦ rw done (inl h)
  ]

  -- Statistics count the rows removed; without them nothing was removed.
  abbrev pub Accounted : Option (Result RunError Outcome × S) → Type 0
  Accounted none = Unit
  Accounted (some (ok o, s)) = Reported o s
  Accounted (some (err e, s)) = law.removed s ≡ base

  closed-Accounted : (r : Option (Outcome × S)) → Counted r → Accounted (closed session around r)
  closed-Accounted none h = tt
  closed-Accounted (some (o, s)) (inl h) = inl (law.closes s ∙ h)
  closed-Accounted (some (o, s)) (inr (failed, (size, n, e, before, from, fails, h))) =
      inr (failed, (size, n, e, before, from, fails, law.closes s ∙ h))

  compiled-Accounted :
      (b : Bool) (s : S)
      → law.removed s ≡ base
      → Accounted (delete_compiled session around b limits s)
  compiled-Accounted false s h = law.closes s ∙ h
  compiled-Accounted true s h =
      closed-Accounted _
        (loop-Counted (enough_fuel limits) (fresh (session.now s)) s (omega (arith, h)))

  connected-Accounted :
      (r : Result RunError (Unit {0}) × S)
      → law.removed r.1 ≡ base
      → Accounted (delete_connected session around limits r)
  connected-Accounted (err e, s) h = h
  connected-Accounted (ok u, s) h = compiled-Accounted session.compiles s h

connect-keeps :
    {S : Type 0} (session : Session S) (law : Transactional session) (role : Role) (s : S)
    → law.removed (connect session role s).1 ≡ law.removed s
unfolding connect
connect-keeps session law role s =
    go (session.resolve_secret role s) (session.parse_settings role) (law.resolves role s)
  where
    go :
        (r : Bool × _) (parsed : Bool)
        → law.removed r.1 ≡ law.removed s
        → law.removed
            ((fail_unless session r.0 FailureCode.secret
                >> (fail_unless session parsed FailureCode.internal >> driver (session.dial role)))
              r.1).1
          ≡ law.removed s
    go (true, s1) true h = law.dials role s1 ∙ h
    go (true, s1) false h = h
    go (false, s1) parsed h = h

-- Where `Delete` returns statistics, with or without an error, the rows that it reports are exactly
-- the rows that its transactions have removed, unless it ends in an error and the rows of one `DELETE`
-- more are gone, whose commit reported an error; and where it returns an error alone, nothing was
-- removed: if a statement's rows are pending until their commit, a commit that reports an error
-- removes nothing or all that was pending, and neither observer, wait nor connection touches the
-- table.
pub delete-Accounted :
    {S : Type 0} (session : Session S) (law : Transactional session) (around : Surroundings S)
    (outside : Outside around law.removed) (limits : Limits) (s : S)
    → Accounted session law around outside limits (law.removed s) (delete session around limits s)
unfolding delete
delete-Accounted session law around outside limits s =
    connected-Accounted session law around outside limits (law.removed s)
      (connect session executor s) (connect-keeps session law executor s)
