-- ===== src/Vault.antt =====
-- src/passman/core/vault: what the vault hands out.
pub mod Models
pub mod Kdbx
pub mod Tests
