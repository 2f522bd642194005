-- ===== src/Crypto.antt =====
-- src/passman/core/crypto: the sealed copies of the master secret.
pub mod Aead
pub mod Kdf
pub mod Binding
pub mod Keyslots
