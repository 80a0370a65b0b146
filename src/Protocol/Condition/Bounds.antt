-- ===== src/Protocol/Condition/Bounds.antt =====
-- What the complexity budget of `Condition.validate` buys: the size and the depth of what passes.
use Prim.Native.Nat.{max}
use retentionops_connector.Prelude.{ℕ, suc, ◌+◌, ◌≤◌, ◌≡◌, arith}
use retentionops_connector.Prelude.Result.{Result, ok, err, ◌>>=◌}
use retentionops_connector.Protocol.Error.{ProtocolError}
use retentionops_connector.Protocol.Job.{Condition, Conditions, node, absent, present}
use retentionops_connector.Protocol.Condition.{validate_condition, validate_conditions}
use retentionops_connector.Protocol.Condition.Measure.{
  size, size_conditions, height, height_conditions,
}

-- A success has spent `nodes` of the budget from `budget` on, and `levels` fit below `depth`.
abbrev pub Within : Result ProtocolError ℕ → ℕ → ℕ → ℕ → ℕ → Type 0
Within (err e) budget nodes depth levels = Unit
Within (ok spent) budget nodes depth levels =
    (spent ≡ budget + nodes) × (budget ≤ 500 → spent ≤ 500) × (depth ≤ 17 → depth + levels ≤ 17)

bind-Within :
    (r : Result ProtocolError ℕ) (f : ℕ → Result ProtocolError ℕ) (b d n m h k : ℕ)
    → Within r b n d h
    → ((s : ℕ) → Within (f s) s m d k)
    → Within (r >>= f) b (n + m) d (max h k)
bind-Within (err e) f b d n m h k first rest = tt
bind-Within (ok s) f b d n m h k first rest = joined (f s) first (rest s)
  where
    joined :
        (q : Result ProtocolError ℕ)
        → Within (ok s) b n d h
        → Within q s m d k
        → Within q b (n + m) d (max h k)
    joined (err e) p q = tt
    joined (ok t) p q = omega arith

mutual
  unfolding validate_condition size height

  pub condition-Within :
      (c : Condition) (b d : ℕ) → Within (validate_condition c b d) b (size c) d (height c)
  condition-Within (node col op v Conditions.nil Conditions.nil absent) b d = ground arith
  condition-Within (node col op v (Conditions.cons c cs) Conditions.nil absent) b d =
      ground (arith, conditions-Within (Conditions.cons c cs) (suc b) (suc d))
  condition-Within (node col op v Conditions.nil (Conditions.cons c cs) absent) b d =
      ground (arith, conditions-Within (Conditions.cons c cs) (suc b) (suc d))
  condition-Within (node col op v Conditions.nil Conditions.nil (present c)) b d =
      ground (arith, condition-Within c (suc b) (suc d))
  condition-Within (node col op v (Conditions.cons _ _) (Conditions.cons _ _) absent) b d =
      ground arith
  condition-Within (node col op v (Conditions.cons _ _) Conditions.nil (present _)) b d =
      ground arith
  condition-Within (node col op v Conditions.nil (Conditions.cons _ _) (present _)) b d =
      ground arith
  condition-Within (node col op v (Conditions.cons _ _) (Conditions.cons _ _) (present _)) b d =
      ground arith

  conditions-Within :
      (cs : Conditions) (b d : ℕ)
      → Within (validate_conditions cs b d) b (size_conditions cs) d (height_conditions cs)
  conditions-Within Conditions.nil b d = ground arith
  conditions-Within (Conditions.cons c cs) b d =
      bind-Within (validate_condition c b d) (λ spent. validate_conditions cs spent d) b d (size c)
        (size_conditions cs) (height c) (height_conditions cs) (condition-Within c b d)
        (λ s. conditions-Within cs s d)

-- A condition that passes from a fresh budget has at most 500 nodes, nested at most 17 deep, and
-- the budget that it reports as spent is the number of its nodes.
pub validate_condition_bounds :
    (c : Condition) (spent : ℕ)
    → validate_condition c 0 0 ≡ ok spent
    → (spent ≡ size c) × (size c ≤ 500) × (height c ≤ 17)
validate_condition_bounds c spent h = ground (arith, condition-Within c 0 0)
