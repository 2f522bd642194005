-- ===== src/Usb.antt =====
-- src/passman/integration/usb/identity.py and src/passman/core/flows/usb_login_lookup.py: which
-- drive is the vault's.
pub mod Identity
pub mod Lookup
pub mod Tests
