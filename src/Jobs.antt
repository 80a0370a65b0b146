-- ===== src/Jobs.antt =====
-- internal/jobs: from a document off the network to a job that this connector must consider.
pub mod Replay
pub mod Verifier
