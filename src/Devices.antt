-- ===== src/Devices.antt =====
-- src/passman/core/devices: the devices of a vault, and the ways to its master secret.
pub mod Container
pub mod LocalKey
pub mod Registry
pub mod Passwords
pub mod Reset
pub mod Revocation
pub mod Enrolment
pub mod Tests
