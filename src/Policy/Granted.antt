-- ===== src/Policy/Granted.antt =====
-- internal/policy/policy.go: what the local policy permits, `Authorize` allows.
use retentionops_connector.Protocol.Job
use retentionops_connector.Protocol.Job.{same_operation}
use retentionops_connector.Policy.Permitted.{Permitted}
