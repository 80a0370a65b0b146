-- ===== src/Protocol/Condition/Measure.antt =====
-- What a condition tree is made of: its nodes, its depth and the columns that it names.
use retentionops_connector.Prelude.{ℕ, suc, ◌+◌}
use Prim.Native.Nat.{max}
use retentionops_connector.Protocol.Job.{Condition, Conditions, Negated, node, absent, present}

unfoldable mutual
  pub size : Condition → ℕ
  size (node column operator value every some_of negated) =
      suc (size_conditions every + size_conditions some_of + size_negated negated)

  pub size_conditions : Conditions → ℕ
  size_conditions Conditions.nil = 0
  size_conditions (Conditions.cons c cs) = size c + size_conditions cs

  pub size_negated : Negated → ℕ
  size_negated absent = 0
  size_negated (present c) = size c

-- The longest chain of nodes from the root down.
unfoldable mutual
  pub height : Condition → ℕ
  height (node column operator value every some_of negated) =
      suc (max (height_conditions every) (max (height_conditions some_of) (height_negated negated)))

  pub height_conditions : Conditions → ℕ
  height_conditions Conditions.nil = 0
  height_conditions (Conditions.cons c cs) = max (height c) (height_conditions cs)

  pub height_negated : Negated → ℕ
  height_negated absent = 0
  height_negated (present c) = height c
