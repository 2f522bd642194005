-- ===== src/Generator.antt =====
-- src/passman/core/generator: passwords from templates, and random ones.
pub mod Template
pub mod Random
