-- ===== src/Postgres/Delete/Bounds.antt =====
-- adapters/postgres/adapter.go: the row ceiling of `Delete`, and the end of its loop.
use retentionops_connector.Prelude.{
  ℕ, zero, suc, ◌+◌, ◌≤◌, ◌<◌, ◌≡◌, refl, ap, ◌⊎◌, inl, inr, Bool, true, false, Option, none, some,
  arith, Bool-cases,
}
use retentionops_connector.Prelude.Int.{ℤ, pos, pos_part, ◌≤ℤ◌, ◌-ℤ◌, ltb_ℤ, int_tests}
use retentionops_connector.Prelude.Text.{Time}
use retentionops_connector.Prelude.Result.{Result, Check, ok, err}
use retentionops_connector.Protocol.Job.{Limits}
use retentionops_connector.Postgres.Errors.{RunError, unclassified}
use retentionops_connector.Postgres.Session.{
  Session, connect, executor, set_all, timeout_statements, driver, bind-eq-ok,
}
use retentionops_connector.Postgres.Delete.{
  Outcome, Progress, Surroundings, advanced, after_pause, after_checkpoint, after_batch, delete,
  delete_loop, delete_one_batch, remove_rows, batch_limit, wait, run_loop, fresh, closed,
  delete_compiled, delete_connected,
}

batch_limit_bounds :
    (l : Limits) (rows n : ℕ) → pos n ≤ℤ batch_limit l rows → pos (rows + n) ≤ℤ l.max_rows
unfolding ◌-ℤ◌
batch_limit_bounds l rows n h = ground arith

-- A `DELETE` over a `LIMIT` affects no more rows than the limit.
pub record HonoursLimit {S : Type 0} (session : Session S) : Type 0 where
  pub limited : (size : ℤ) (n : ℕ) (s : S) → (session.delete_rows size s).0 ≡ ok n → pos n ≤ℤ size

module _ {S : Type 0} (session : Session S) (law : HonoursLimit session) where
  remove_rows-limit :
      (size : ℤ) (started : Time) (s : S) (n : ℕ) (t : ℤ)
      → (remove_rows session size started s).0 ≡ ok (n, t)
      → pos n ≤ℤ size
  unfolding remove_rows
  remove_rows-limit size started s n t h = ground (arith, law.limited size n s)

  delete_one_batch-limit :
      (limits : Limits) (size : ℤ) (s : S) (n : ℕ) (t : ℤ)
      → (delete_one_batch session limits size s).0 ≡ ok (n, t)
      → pos n ≤ℤ size
  unfolding delete_one_batch
  delete_one_batch-limit limits size s n t h =
      let (u, s1, begun, rest) = bind-eq-ok (driver session.begin) _ s (n, t) h in
      let (v, s2, set, removed) =
        bind-eq-ok (set_all session (timeout_statements limits)) _ s1 (n, t) rest in
      remove_rows-limit size (session.now s) s2 n t removed

module _ {S : Type 0} (session : Session S) (around : Surroundings S) (limits : Limits) where
  -- The rows lie between those of the progress so far and the ceiling.
  abbrev Bounded : ℕ → Option (Outcome × S) → Type 0
  Bounded rows none = Unit
  Bounded rows (some (o, s)) = (rows ≤ o.rows_deleted) × (pos o.rows_deleted ≤ℤ limits.max_rows)

  module _ (next : Progress → S → Option (Outcome × S))
      (good : (q : Progress) (s : S)
        → pos q.rows_deleted ≤ℤ limits.max_rows
        → Bounded q.rows_deleted (next q s)) where
    weaken : (a b : ℕ) (r : Option (Outcome × S)) → a ≤ b → Bounded b r → Bounded a r
    weaken a b none le h = tt
    weaken a b (some (o, s)) le h = omega arith

    paused-Bounded :
        (q : Progress) (r : Bool × S)
        → pos q.rows_deleted ≤ℤ limits.max_rows
        → Bounded q.rows_deleted (after_pause session around next q r)
    paused-Bounded q (true, s) h = omega arith
    paused-Bounded q (false, s) h = good q s h

    checkpoint-Bounded :
        (p : Progress) (k : ℕ) (s1 : S) (r : Option (Check RunError × S))
        → pos (p.rows_deleted + k) ≤ℤ limits.max_rows
        → Bounded (p.rows_deleted + k) (after_checkpoint session around next limits p k s1 r)
    unfolding after_checkpoint
    checkpoint-Bounded p k s1 none h = tt
    checkpoint-Bounded p k s1 (some (err e, s)) h = omega arith
    checkpoint-Bounded p k s1 (some (ok u, s)) h =
        ground
          (arith, paused-Bounded (advanced session around p k s1 s) (wait session around limits s))

    batch-Bounded :
        (p : Progress) (r : Result RunError (ℕ × ℤ) × S)
        → pos p.rows_deleted ≤ℤ limits.max_rows
        → ((n : ℕ) (t : ℤ) → r.0 ≡ ok (n, t) → pos (p.rows_deleted + n) ≤ℤ limits.max_rows)
        → Bounded p.rows_deleted (after_batch session around next limits p r)
    unfolding after_batch
    batch-Bounded p (err e, s) h fits = omega arith
    batch-Bounded p (ok (zero, t), s) h fits = omega arith
    batch-Bounded p (ok (suc k, t), s) h fits =
        weaken p.rows_deleted (p.rows_deleted + suc k) _ (omega arith)
          (checkpoint-Bounded p (suc k) s _ (fits (suc k) t refl))

  loop-Bounded :
      HonoursLimit session
      → (fuel : ℕ) (p : Progress) (s : S) → pos p.rows_deleted ≤ℤ limits.max_rows
      → Bounded p.rows_deleted (delete_loop session around fuel limits p s)
  unfolding delete_loop
  loop-Bounded law zero p s h = tt
  loop-Bounded law (suc fuel) p s h =
      elim (Bool-cases (ltb_ℤ (pos p.rows_deleted) limits.max_rows)) [
        | inl more ↦ rw more (
            batch-Bounded (delete_loop session around fuel limits)
              (λ q s' le. loop-Bounded law fuel q s' le) p _ h
              (λ n t e. batch_limit_bounds limits p.rows_deleted n (
                delete_one_batch-limit session law limits (batch_limit limits p.rows_deleted) s n t
                  e)))
        | inr done ↦ rw done (omega arith)
      ]

  -- An observer that does not return.
  abbrev pub Hangs : Type 0
  Hangs = (k rows : ℕ) × (t : ℤ) × (s : S) × (around.observe k rows t s ≡ none)

  -- A round that goes on has removed a row, so that the fuel lasts.
  abbrev Ends : Option (Outcome × S) → Type 0
  Ends none = Hangs
  Ends (some r) = Unit

  module _ (rows : ℕ) (next : Progress → S → Option (Outcome × S))
      (good : (q : Progress) (s : S) → rows < q.rows_deleted → Ends (next q s)) where
    paused-Ends :
        (q : Progress) (r : Bool × S)
        → rows < q.rows_deleted
        → Ends (after_pause session around next q r)
    paused-Ends q (true, s) h = tt
    paused-Ends q (false, s) h = good q s h

    checkpoint-Ends :
        (p : Progress) (k total : ℕ) (t : ℤ) (s1 : S) (r : Option (Check RunError × S))
        → around.observe k total t s1 ≡ r
        → rows < p.rows_deleted + k
        → Ends (after_checkpoint session around next limits p k s1 r)
    unfolding after_checkpoint
    checkpoint-Ends p k total t s1 none hangs h = (k, total, t, s1, hangs)
    checkpoint-Ends p k total t s1 (some (err e, s)) _ h = tt
    checkpoint-Ends p k total t s1 (some (ok u, s)) _ h =
        ground
          (arith, paused-Ends (advanced session around p k s1 s) (wait session around limits s))

    batch-Ends :
        (p : Progress) (r : Result RunError (ℕ × ℤ) × S)
        → rows ≤ p.rows_deleted
        → Ends (after_batch session around next limits p r)
    unfolding after_batch
    batch-Ends p (err e, s) h = tt
    batch-Ends p (ok (zero, t), s) h = tt
    batch-Ends p (ok (suc k, t), s) h =
        checkpoint-Ends p (suc k) (p.rows_deleted + suc k) t s _ refl (omega arith)

  loop-Ends :
      (fuel : ℕ) (p : Progress) (s : S)
      → pos_part limits.max_rows < fuel + p.rows_deleted
      → 0 < fuel
      → Ends (delete_loop session around fuel limits p s)
  unfolding delete_loop
  loop-Ends zero p s h k = absurd (omega arith)
  loop-Ends (suc fuel) p s h k = elim (Bool-cases (ltb_ℤ (pos p.rows_deleted) limits.max_rows)) [
    | inl more ↦ rw more (
        batch-Ends p.rows_deleted (delete_loop session around fuel limits)
          (λ q s' le. loop-Ends fuel q s' (omega arith) (omega int_tests)) p _ (omega arith))
    | inr done ↦ rw done tt
  ]

-- What `Delete` returns: no statistics, or rows within the ceiling.
abbrev pub WithinCeiling : Limits → Result RunError Outcome → Type 0
WithinCeiling limits (err e) = Unit
WithinCeiling limits (ok o) = pos o.rows_deleted ≤ℤ limits.max_rows

module _ {S : Type 0} (session : Session S) (around : Surroundings S) (limits : Limits) where
  loop_result :
      HonoursLimit session
      → pos 0 ≤ℤ limits.max_rows
      → (s : S)
      → ((o : Outcome) × (s' : S) × (run_loop session around limits s ≡ some (o, s'))
          × (pos o.rows_deleted ≤ℤ limits.max_rows))
        ⊎ ((run_loop session around limits s ≡ none) × Hangs session around limits)
  loop_result law sane s = go (run_loop session around limits s) refl ends bounded
    where
      ends : Ends session around limits (run_loop session around limits s)
      ends = loop-Ends session around limits _ (fresh (session.now s)) s (omega arith) (omega arith)

      bounded : Bounded session around limits 0 (run_loop session around limits s)
      bounded = loop-Bounded session around limits law _ (fresh (session.now s)) s sane

      go :
          (r : Option (Outcome × S))
          → run_loop session around limits s ≡ r
          → Ends session around limits r
          → Bounded session around limits 0 r
          → ((o : Outcome) × (s' : S) × (run_loop session around limits s ≡ some (o, s'))
              × (pos o.rows_deleted ≤ℤ limits.max_rows))
            ⊎ ((run_loop session around limits s ≡ none) × Hangs session around limits)
      go none e h b = inr (e, h)
      go (some (o, s')) e h b = inl (o, s', e, b.1)

  -- Whatever the batches, the checkpoints and the clock do, `Delete` ends, unless an observer does
  -- not return; and the rows that it reports, also when it stops at an error, are never more than
  -- the job's ceiling, if a batch affects no more rows than its `LIMIT`.
  pub delete-WithinCeiling :
      HonoursLimit session
      → pos 0 ≤ℤ limits.max_rows
      → (s : S)
      → ((r : Result RunError Outcome) × (s' : S) × (delete session around limits s ≡ some (r, s'))
          × WithinCeiling limits r)
        ⊎ ((delete session around limits s ≡ none) × Hangs session around limits)
  unfolding delete
  delete-WithinCeiling law sane s = connected (connect session executor s)
    where
      compiled :
          (b : Bool) (s1 : S)
          → ((r : Result RunError Outcome) × (s' : S) × (delete_compiled session around b limits s1
                ≡ some (r, s'))
              × WithinCeiling limits r)
            ⊎ ((delete_compiled session around b limits s1 ≡ none) × Hangs session around limits)
      compiled false s1 = inl (err unclassified, session.close s1, refl, tt)
      compiled true s1 = elim (loop_result law sane s1) [
        | inl (o, s2, done, within) ↦
            inl (ok o, session.close s2, ap (closed session around) done, within)
        | inr (open_end, hangs) ↦ inr (ap (closed session around) open_end, hangs)
      ]

      connected :
          (c : Result RunError (Unit {0}) × S)
          → ((r : Result RunError Outcome) × (s' : S) × (delete_connected session around limits c
                ≡ some (r, s'))
              × WithinCeiling limits r)
            ⊎ ((delete_connected session around limits c ≡ none) × Hangs session around limits)
      connected (err e, s1) = inl (err e, s1, refl, tt)
      connected (ok u, s1) = compiled session.compiles s1
