-- ===== src/Vaults.antt =====
-- src/passman/core/vaults: the local registry of vaults.
pub mod Record
pub mod Registry
pub mod Health
pub mod Tests
