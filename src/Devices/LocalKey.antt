-- ===== src/Devices/LocalKey.antt =====
-- src/passman/core/devices/local_key.py and src/passman/core/devices/secret_store.py: what this
-- machine keeps for one vault.
use ash_password_manager.Common.{
  Bool, true, false, not, Option, none, some, Bytes, same_bytes, length, ◌==◌, if◌then◌else◌, ◌⊎◌,
  inl, inr,
}
use ash_password_manager.Common.Chars.{codes}
use ash_password_manager.Security.Memory.{SecretBytes, secret}
use ash_password_manager.Devices.Container.{Failure, local_key_error}

pub data ProtectionTier : Type 0 where
  secret_service file_only : ProtectionTier

abbrev pub tier_name : ProtectionTier → Bytes
tier_name secret_service = codes "secret_service"
tier_name file_only = codes "file_only"

pub record DeviceIdentity : Type 0 where
  pub device_id : Bytes
  pub vault_id : Bytes
  pub label : Bytes
  pub created_utc : Bytes
  pub tier : Bytes

-- The directory of one vault under `devices/`: the bytes of the key file, and what `load_identity` reads.
pub record Local : Type 0 where
  pub key_file : Option Bytes
  pub identity : Option DeviceIdentity

abbrev pub is_there : Option Bytes → Bool
is_there none = false
is_there (some bytes) = true

unfoldable pub has_local_key : Local → Bool
has_local_key l = is_there l.key_file

-- The key's random bytes and the time are arguments. An existing key is never overwritten.
unfoldable pub generate_local_key :
    Bytes → Bytes → Bytes → Bytes → Bytes → Bytes → Local → Failure ⊎ (SecretBytes × Local)
generate_local_key raw now vault_id device_id label tier l =
    if is_there l.key_file
    then inl local_key_error
    else inr (
      secret raw,
      record {
        key_file = some raw;
        identity = some (record {
          device_id = device_id;
          vault_id = vault_id;
          label = label;
          created_utc = now;
          tier = tier;
        });
      },
    )

abbrev checked : Option Bytes → Failure ⊎ SecretBytes
checked none = inl local_key_error
checked (some raw) = if not (length raw == 32) then inl local_key_error else inr (secret raw)

unfoldable pub load_local_key : Local → Failure ⊎ SecretBytes
load_local_key l = checked l.key_file

unfoldable pub forget_local_key : Local → Local
forget_local_key l = record { key_file = none; identity = none }

pub record PepperResult : Type 0 where
  pub pepper : Option SecretBytes
  pub tier : ProtectionTier

-- `stored` is the answer of the Secret Service to `store_pepper`.
unfoldable pub provision_pepper : Bytes → Bool → PepperResult
provision_pepper candidate stored =
    if stored
    then record { pepper = some (secret candidate); tier = secret_service }
    else record { pepper = none; tier = file_only }

-- `loaded` is what `load_pepper` finds.
unfoldable pub resolve_pepper : ProtectionTier → Option SecretBytes → Option SecretBytes
resolve_pepper file_only loaded = none
resolve_pepper secret_service loaded = loaded

-- The tier of the identity, and the file alone where the text is none of the names.
unfoldable pub tier_of : Bytes → ProtectionTier
tier_of tier = if same_bytes tier (tier_name secret_service) then secret_service else file_only
