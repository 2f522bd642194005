-- ===== src/Devices/Registry.antt =====
-- src/passman/core/devices/registry.py: registering, unlocking, revoking, and changing the password.
use ash_password_manager.Common.{
  Bool, false, not, ◌&&◌, Option, none, some, [], ◌∷◌, ◌++◌, map, Bytes, same_bytes, if◌then◌else◌,
  ◌⊎◌, inl, inr,
}
use ash_password_manager.Common.Chars.{codes}
use ash_password_manager.Security.Memory.{SecretBytes}
use ash_password_manager.Crypto.Aead.{Gcm}
use ash_password_manager.Crypto.Kdf.{Hashes, Argon2Params}
use ash_password_manager.Crypto.Binding.{Machine, default_binding_inputs}
use ash_password_manager.Crypto.Keyslots.{
  KeySlot, Fresh, SlotError, bad_value, Unwrapped, password_slot_id, slot_id_for_device,
  create_password_slot, unwrap_password_slot, create_device_slot, unwrap_device_slot,
  rewrap_password_slot,
}
use ash_password_manager.Devices.Container.{
  DeviceRecord, is_revoked, missing, Container, Failure, registry_error, vault_unreadable,
  no_local_key, device_revoked, path_error, slot_error, is_slot_id, put, read_slot, write_slot,
  collect, latest_or,
}
use ash_password_manager.Devices.LocalKey.{
  tier_name, DeviceIdentity, Local, has_local_key, generate_local_key, load_local_key,
  provision_pepper, resolve_pepper, tier_of,
}

-- What is random in a registration, and the answer of the Secret Service.
pub record Enrolment : Type 0 where
  pub device_id : Bytes
  pub key : Bytes
  pub pepper : Bytes
  pub stored : Bool
  pub fresh : Fresh

abbrev pub lifted : Unwrapped → Failure ⊎ SecretBytes
lifted (inl e) = inl (slot_error e)
lifted (inr vms) = inr vms

abbrev pub revoke_record : Bytes → Bytes → DeviceRecord → DeviceRecord
revoke_record now device_id r =
    if same_bytes r.device_id device_id && not (is_revoked r)
    then record r { revoked_utc = some now }
    else r

-- Deleting a slot that is not there is no error.
unfoldable pub revoke_device : Bytes → Bytes → Container → Failure ⊎ Container
revoke_device now device_id c =
    if not (is_slot_id (slot_id_for_device device_id))
    then inl path_error
    else inr (record {
      slots = put (slot_id_for_device device_id) missing c.slots;
      devices = map (revoke_record now device_id) c.devices;
    })

module _ (gcm : Gcm) (hashes : Hashes) where
  abbrev pub unwrap_password : Failure ⊎ KeySlot → SecretBytes → Failure ⊎ SecretBytes
  unwrap_password (inl e) password = inl e
  unwrap_password (inr slot) password = lifted (unwrap_password_slot gcm hashes slot password)

  unfoldable pub unlock_with_password : Container → SecretBytes → Failure ⊎ SecretBytes
  unlock_with_password c password = unwrap_password (read_slot c password_slot_id) password

  abbrev pub written : Container → Failure ⊎ KeySlot → Failure ⊎ Container
  written c (inl e) = inl e
  written c (inr slot) = write_slot c slot

  abbrev pub slot_or_error : Option KeySlot → Failure ⊎ KeySlot
  slot_or_error none = inl (slot_error bad_value)
  slot_or_error (some slot) = inr slot

  abbrev pub lifted_slot : SlotError ⊎ KeySlot → Failure ⊎ KeySlot
  lifted_slot (inl e) = inl (slot_error e)
  lifted_slot (inr slot) = inr slot

  abbrev pub rewrap_slot :
      Fresh
      → Failure ⊎ KeySlot
      → SecretBytes
      → SecretBytes
      → Option Argon2Params
      → Failure ⊎ KeySlot
  rewrap_slot fresh (inl e) old new_password params = inl e
  rewrap_slot fresh (inr slot) old new_password params =
      lifted_slot (rewrap_password_slot gcm hashes fresh slot old new_password params)

  unfoldable pub change_master_password :
      Fresh → SecretBytes → SecretBytes → Option Argon2Params → Container → Failure ⊎ Container
  change_master_password fresh old new_password params c =
      written c (rewrap_slot fresh (read_slot c password_slot_id) old new_password params)

  abbrev pub listed : DeviceRecord → Failure ⊎ Container → Failure ⊎ Container
  listed r (inl e) = inl e
  listed r (inr c) = inr (record c { devices = c.devices ++ r ∷ [] })

  abbrev pub new_record : Bytes → Bytes → Bytes → Bytes → Bytes → DeviceRecord
  new_record device_id label tier os_release now = record {
    device_id = device_id;
    label = label;
    tier = tier;
    registered_utc = now;
    last_seen_utc = some now;
    revoked_utc = none;
    os_release = os_release;
  }

  -- The new container, and the key that is returned; the Local Key is on disk also where the slot fails.
  abbrev pub registered :
      Machine
      → Enrolment
      → Bytes
      → SecretBytes
      → Bytes
      → Bytes
      → Container
      → Local
      → Failure ⊎ (SecretBytes × Local)
      → (Failure ⊎ Container) × Local
  registered machine e vault_id vms label os_release c l (inl error) = (inl error, l)
  registered machine e vault_id vms label os_release c l (inr (local_secret, l')) =
      let pepper = provision_pepper e.pepper e.stored in
      let now = e.fresh.now in
      (
        listed (new_record e.device_id label (tier_name pepper.tier) os_release now) (
            written c (
              slot_or_error (
                create_device_slot gcm hashes machine e.fresh vault_id
                  (slot_id_for_device e.device_id) e.device_id local_secret pepper.pepper vms
                  default_binding_inputs now label))),
        l',
      )

  unfoldable pub register_device :
      Machine
      → Enrolment
      → Bytes
      → SecretBytes
      → Bytes
      → Bytes
      → Container
      → Local
      → (Failure ⊎ Container) × Local
  register_device machine e vault_id vms label os_release c l =
      registered machine e vault_id vms label os_release c l (
        generate_local_key e.key e.fresh.now vault_id e.device_id label
          (tier_name (provision_pepper e.pepper e.stored).tier) l)

  -- `except DeviceRegistryError`, which VaultUnreadableError is too.
  abbrev pub device_slot : Failure ⊎ KeySlot → Failure ⊎ KeySlot
  device_slot (inl registry_error) = inl no_local_key
  device_slot (inl vault_unreadable) = inl no_local_key
  device_slot (inl e) = inl e
  device_slot (inr slot) = inr slot

  abbrev pub unwrap_device :
      Machine → SecretBytes → Option SecretBytes → Failure ⊎ KeySlot → Failure ⊎ SecretBytes
  unwrap_device machine local_secret pepper (inl e) = inl e
  unwrap_device machine local_secret pepper (inr slot) =
      lifted (unwrap_device_slot gcm hashes machine slot local_secret pepper)

  abbrev pub with_key :
      Machine
      → Option SecretBytes
      → DeviceIdentity
      → Container
      → Failure ⊎ SecretBytes
      → Failure ⊎ SecretBytes
  with_key machine loaded identity c (inl e) = inl e
  with_key machine loaded identity c (inr local_secret) =
      unwrap_device machine local_secret (resolve_pepper (tier_of identity.tier) loaded)
        (device_slot (read_slot c (slot_id_for_device identity.device_id)))

  abbrev pub is_bad : Option DeviceRecord → Bool
  is_bad none = false
  is_bad (some r) = is_revoked r

  abbrev pub with_identity :
      Machine
      → Option SecretBytes
      → Container
      → Local
      → Option DeviceIdentity
      → Failure ⊎ SecretBytes
  with_identity machine loaded c l none = inl no_local_key
  with_identity machine loaded c l (some identity) =
      if is_bad (latest_or none identity.device_id c.devices)
      then inl device_revoked
      else with_key machine loaded identity c (load_local_key l)

  -- The secret, or the error that the login falls back from.
  unfoldable pub local_key_secret :
      Machine → Option SecretBytes → Container → Local → Failure ⊎ SecretBytes
  local_key_secret machine loaded c l =
      if not (has_local_key l)
      then inl no_local_key
      else with_identity machine loaded c l l.identity

  abbrev pub seen : Bytes → Option DeviceIdentity → Container → Container
  seen now none c = c
  seen now (some identity) c = elim (latest_or none identity.device_id c.devices) [
    | none ↦ c
    | some r ↦ record c {
      devices = collect [] (c.devices ++ record r { last_seen_utc = some now } ∷ []);
    }
  ]

  -- The time of the last use is recorded only where the slot has opened.
  abbrev pub recorded :
      Bytes
      → Option DeviceIdentity
      → Container
      → Failure ⊎ SecretBytes
      → (Failure ⊎ SecretBytes) × Container
  recorded now identity c (inl e) = (inl e, c)
  recorded now identity c (inr vms) = (inr vms, seen now identity c)

  unfoldable pub unlock_with_local_key :
      Machine → Option SecretBytes → Bytes → Container → Local → (Failure ⊎ SecretBytes) × Container
  unlock_with_local_key machine loaded now c l =
      recorded now l.identity c (local_key_secret machine loaded c l)

  abbrev pub reset_slot :
      Fresh → Bytes → SecretBytes → Option Argon2Params → Failure ⊎ SecretBytes → Failure ⊎ KeySlot
  reset_slot fresh vault_id new_password params (inl e) = inl e
  reset_slot fresh vault_id new_password params (inr vms) = slot_or_error (
      create_password_slot gcm hashes fresh vault_id password_slot_id new_password vms params []
        (codes "Master password"))

  unfoldable pub reset_master_password_with_local_key :
      Machine
      → Option SecretBytes
      → Bytes
      → Fresh
      → Bytes
      → SecretBytes
      → Option Argon2Params
      → Container
      → Local
      → Failure ⊎ Container
  reset_master_password_with_local_key machine loaded now fresh vault_id new_password params c l =
      let (result, c') = unlock_with_local_key machine loaded now c l in
      written c' (reset_slot fresh vault_id new_password params result)
