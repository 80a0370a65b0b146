-- ===== src/Tests.antt =====
-- Concrete documents, policies and databases, and the theorems at them.
pub mod Data
pub mod Agent
pub mod Policy
pub mod Protocol
pub mod Sealed
pub mod Wire
pub mod Operator
pub mod Loop
pub mod Client
pub mod Enroll
