-- ===== src/Policy/Ceilings.antt =====
-- internal/policy/policy.go: what the ceilings and the lowered timeouts come to.
use retentionops_connector.Prelude.{◌≡◌, refl, ◌||◌, false, none, arith}
use retentionops_connector.Prelude.Int.{ℤ, pos, ◌≤ℤ◌, ◌<ℤ◌}
use retentionops_connector.Protocol.Job.{Limits}
use retentionops_connector.Policy.{
  Safety, TableRule, smallest_positive, exceeds, check_ceilings, lowered, effective_limits,
}

-- A request that respects a ceiling, where 0 or less means that there is none.
abbrev pub Respects : ℤ → ℤ → Type 0
Respects requested ceiling = pos 0 <ℤ ceiling → requested ≤ℤ ceiling

-- The tighter ceiling is exceeded exactly when one of the two is.
pub exceeds-smallest_positive :
    (r a b : ℤ) → exceeds r (smallest_positive a b) ≡ (exceeds r a || exceeds r b)
unfolding smallest_positive
exceeds-smallest_positive r a b = ground arith

pub record WithinCeilings (s : Safety) (rule : TableRule) (l : Limits) : Type 0 where
  pub rule_rows : Respects l.max_rows rule.max_delete_rows
  pub source_rows : Respects l.max_rows s.max_delete_rows
  pub rule_batch : Respects l.batch_size rule.max_batch_size
  pub source_batch : Respects l.batch_size s.max_batch_size

exceeds_neither :
    (r a b : ℤ) → exceeds r (smallest_positive a b) ≡ false → Respects r a × Respects r b
unfolding smallest_positive
exceeds_neither r a b h = ground arith

within_both : (r a b : ℤ) → Respects r a → Respects r b → exceeds r (smallest_positive a b) ≡ false
unfolding smallest_positive
within_both r a b h k = ground arith

abbrev rows_ceiling : Safety → TableRule → ℤ
rows_ceiling s rule = smallest_positive rule.max_delete_rows s.max_delete_rows

abbrev batch_ceiling : Safety → TableRule → ℤ
batch_ceiling s rule = smallest_positive rule.max_batch_size s.max_batch_size

pub check_ceilings_sound :
    (s : Safety) (l : Limits) (rule : TableRule)
    → check_ceilings s l rule ≡ none
    → WithinCeilings s rule l
unfolding check_ceilings
check_ceilings_sound s l rule h =
    let rows : exceeds l.max_rows (rows_ceiling s rule) ≡ false = ground arith in
    let batch : exceeds l.batch_size (batch_ceiling s rule) ≡ false = ground arith in
    let (rr, sr) = exceeds_neither l.max_rows rule.max_delete_rows s.max_delete_rows rows in
    let (rb, sb) = exceeds_neither l.batch_size rule.max_batch_size s.max_batch_size batch in
    record { rule_rows = rr; source_rows = sr; rule_batch = rb; source_batch = sb }

pub check_ceilings_complete :
    (s : Safety) (l : Limits) (rule : TableRule)
    → WithinCeilings s rule l
    → check_ceilings s l rule ≡ none
unfolding check_ceilings
check_ceilings_complete s l rule h = rw (
  within_both l.max_rows rule.max_delete_rows s.max_delete_rows h.rule_rows h.source_rows,
  within_both l.batch_size rule.max_batch_size s.max_batch_size h.rule_batch h.source_batch,
)

-- A timeout as it is applied: within the local maximum where there is one, and no longer than
-- requested where one was requested.
abbrev pub Lowered : ℤ → ℤ → ℤ → Type 0
Lowered requested ceiling applied =
    Respects applied ceiling × (pos 0 <ℤ requested → applied ≤ℤ requested)

lowered-Lowered : (r c : ℤ) → Lowered r c (lowered r c)
unfolding smallest_positive
lowered-Lowered r c = ground arith

pub record LimitsLowered (s : Safety) (requested applied : Limits) : Type 0 where
  pub batch_size : applied.batch_size ≡ requested.batch_size
  pub max_rows : applied.max_rows ≡ requested.max_rows
  pub pause : applied.pause_between_batches_ms ≡ requested.pause_between_batches_ms
  pub statement :
      Lowered requested.statement_timeout_seconds s.statement_timeout_seconds
        applied.statement_timeout_seconds
  pub lock :
      Lowered requested.lock_timeout_seconds s.lock_timeout_seconds applied.lock_timeout_seconds
  pub duration :
      Lowered requested.max_duration_seconds s.max_duration_seconds applied.max_duration_seconds

-- The limits that are applied keep the scope of the request (rows, batch, pause), and bring each
-- timeout down to the local maximum, never above a timeout that was requested.
pub effective_limits-LimitsLowered :
    (s : Safety) (l : Limits) → LimitsLowered s l (effective_limits s l)
unfolding effective_limits
effective_limits-LimitsLowered s l = record {
  batch_size = refl;
  max_rows = refl;
  pause = refl;
  statement = lowered-Lowered l.statement_timeout_seconds s.statement_timeout_seconds;
  lock = lowered-Lowered l.lock_timeout_seconds s.lock_timeout_seconds;
  duration = lowered-Lowered l.max_duration_seconds s.max_duration_seconds;
}
