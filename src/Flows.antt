-- ===== src/Flows.antt =====
-- src/passman/core/flows: the decision logic of signing in and of the first set-up.
pub mod Login
pub mod Setup
pub mod Tests
