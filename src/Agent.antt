-- ===== src/Agent.antt =====
-- internal/agent/agent.go: the run loop. The children model the checkpoint, the run of a job, and
-- the handling of a document.
pub mod Checkpoint
pub mod Run
pub mod Handle
pub mod Delivery
pub mod Heartbeat
pub mod Loop
