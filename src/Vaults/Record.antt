-- ===== src/Vaults/Record.antt =====
-- src/passman/core/vaults/registry.py: one registered vault. It is metadata only.
use ash_password_manager.Common.{Bool, Option, String}

pub record VaultRecord : Type 0 where
  pub vault_id : String
  pub name : String
  pub filesystem_uuid : String
  pub luks_uuid : Option String
  pub drive_serial : Option String
  pub drive_vendor : Option String
  pub drive_model : Option String
  pub container_rel_path : String
  pub label : String
  pub created_utc : String
  pub last_seen_utc : Option String
  pub imported_from_legacy : Bool
