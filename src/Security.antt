-- ===== src/Security.antt =====
-- src/passman/core/security: the secret buffer, the clipboard, the session and the strength estimate.
pub mod Logging
pub mod Memory
pub mod Clipboard
pub mod Session
pub mod Strength
pub mod Tests
