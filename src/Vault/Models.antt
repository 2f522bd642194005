-- ===== src/Vault/Models.antt =====
-- src/passman/core/vault/models.py: the two tiers of what is known of an account.
use ash_password_manager.Common.{Bool, Option, none, List, [], Bytes}
use ash_password_manager.Security.Memory.{SecretBytes, wipe}
use ash_password_manager.Totp.{TotpConfig}
use ash_password_manager.Recovery.{RecoveryCode}

pub record AccountSummary : Type 0 where
  pub entry_uuid : Bytes
  pub display_name : Bytes
  pub service_name : Bytes
  pub icon_ref : Option Bytes
  pub tags : List Bytes
  pub has_totp : Bool
  pub has_recovery_codes : Bool
  pub has_username : Bool
  pub has_password : Bool
  pub category : Bytes

pub record AccountSecrets : Type 0 where
  pub entry_uuid : Bytes
  pub display_name : Bytes
  pub service_name : Bytes
  pub username : Bytes
  pub password : SecretBytes
  pub url : Bytes
  pub notes : Bytes
  pub app_identifiers : List Bytes
  pub auth_strategy_json : Option Bytes
  pub totp : Option TotpConfig
  pub recovery_codes : List RecoveryCode
  pub category : Bytes

unfoldable pub wipe_secrets : AccountSecrets → AccountSecrets
wipe_secrets s = record s {
  password = wipe s.password;
  recovery_codes = [];
  username = [];
  url = [];
  notes = [];
  totp = none;
}
