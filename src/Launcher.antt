-- ===== src/Launcher.antt =====
-- src/passman/launcher: what a shortcut and a drive start.
pub mod Agent
pub mod Edges
pub mod Opening
pub mod Ready
pub mod Show
pub mod Tests
