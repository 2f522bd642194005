-- ===== src/Auth.antt =====
-- src/passman/core/auth: signing in to another program by typing into its window.
pub mod Detection
pub mod Strategy
pub mod Editor
pub mod Steps
pub mod Checks
pub mod Engine
pub mod Tests
