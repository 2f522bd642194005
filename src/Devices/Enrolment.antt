-- ===== src/Devices/Enrolment.antt =====
-- src/passman/core/devices/registry.py: a device that has been registered can unlock.
use ash_password_manager.Common.{
  Bool, true, false, not, Option, none, some, List, [], ◌∷◌, ◌++◌, Bytes, same_bytes,
  same_bytes_refl, length, ◌≡◌, ◌≢◌, refl, ap, ◌∙◌, ◌⊎◌, inl, inr, if◌then◌else◌,
}
use ash_password_manager.Security.Memory.{SecretBytes, secret, to_bytes}
use ash_password_manager.Crypto.Aead.{Gcm}
use ash_password_manager.Crypto.Kdf.{Hashes}
use ash_password_manager.Crypto.Binding.{Machine, default_binding_inputs}
use ash_password_manager.Crypto.Keyslots.{
  KeySlot, slot_id_for_device, device_ikm, unwrap_device_slot,
}
use ash_password_manager.Crypto.Keyslots.Sealing.{IsRandom, IsHeld, device_opens}
use ash_password_manager.Devices.Container.{
  Container, DeviceRecord, Failure, holds, path_error, is_slot_id, read_slot, write_slot, put,
  latest_or, is_revoked,
}
use ash_password_manager.Devices.LocalKey.{
  Local, tier_name, generate_local_key, has_local_key, load_local_key, provision_pepper,
  resolve_pepper, tier_of,
}
use ash_password_manager.Devices.Passwords.{put_self, put_other}
use ash_password_manager.Devices.Registry.{
  Enrolment, listed, new_record, local_key_secret, register_device,
}

-- Random bytes of the lengths that the code asks for, and an id that can name a file.
abbrev pub IsProper : Enrolment → Type 0
IsProper e =
    IsRandom e.fresh × (length e.key ≡ 32) × (is_slot_id (slot_id_for_device e.device_id) ≡ true)

latest_or-append :
    (found : Option DeviceRecord) (rs : List DeviceRecord) (r : DeviceRecord)
    → latest_or found r.device_id (rs ++ r ∷ []) ≡ some r
latest_or-append found [] r = rw (same_bytes_refl r.device_id) refl
latest_or-append found (s ∷ rs) r =
    latest_or-append (if same_bytes s.device_id r.device_id then some s else found) rs r

-- The pepper that was provisioned is the one that is resolved later, if the Secret Service still has it.
resolved :
    (candidate : Bytes) (stored : Bool) (loaded : Option SecretBytes)
    → (stored ≡ true → loaded ≡ some (secret candidate))
    → resolve_pepper (tier_of (tier_name (provision_pepper candidate stored).tier)) loaded
      ≡ (provision_pepper candidate stored).pepper
unfolding resolve_pepper tier_of provision_pepper same_bytes
resolved candidate true loaded h = h refl
resolved candidate false loaded h = refl

module _ (gcm : Gcm) (hashes : Hashes) where
  ikm_of :
      (key candidate : Bytes) (stored : Bool)
      → (ikm : Bytes) × (device_ikm gcm hashes
            (secret key)
            (provision_pepper candidate stored).pepper
          ≡ some ikm)
  unfolding provision_pepper to_bytes secret
  ikm_of key candidate true = (key ++ candidate, refl)
  ikm_of key candidate false = (key, refl)

  -- The container and the local files after a registration.
  abbrev pub enrolled : Enrolment → KeySlot → Bytes → Bytes → Container → Container
  enrolled e slot label os_release c = record {
    slots = put (slot_id_for_device e.device_id) (holds slot) c.slots;
    devices =
        c.devices
        ++ new_record gcm hashes e.device_id label
            (tier_name (provision_pepper e.pepper e.stored).tier) os_release e.fresh.now
          ∷ [];
  }

  abbrev pub kept : Enrolment → Bytes → Bytes → Local
  kept e vault_id label = record {
    key_file = some e.key;
    identity = some (record {
      device_id = e.device_id;
      vault_id = vault_id;
      label = label;
      created_utc = e.fresh.now;
      tier = tier_name (provision_pepper e.pepper e.stored).tier;
    });
  }

  unlocks :
      (machine : Machine) (e : Enrolment) (slot : KeySlot) (vault_id label os_release : Bytes)
      (c : Container) (loaded : Option SecretBytes) (s : SecretBytes)
      → IsProper e
      → (e.stored ≡ true → loaded ≡ some (secret e.pepper))
      → unwrap_device_slot gcm hashes machine slot
          (secret e.key)
          (provision_pepper e.pepper e.stored).pepper
        ≡ inr s
      → local_key_secret gcm hashes machine loaded
          (enrolled e slot label os_release c)
          (kept e vault_id label)
        ≡ inr s
  unfolding local_key_secret has_local_key load_local_key read_slot is_revoked
  unlocks machine e slot vault_id label os_release c loaded s (random, long, valid) service opens =
      let tier = tier_name (provision_pepper e.pepper e.stored).tier in
      rw
        (
          latest_or-append none c.devices
              (new_record gcm hashes e.device_id label tier os_release e.fresh.now),
          long,
          valid,
          put_self (slot_id_for_device e.device_id) (holds slot) c.slots,
          resolved e.pepper e.stored loaded service,
          opens,
        )
        refl

  writes :
      (e : Enrolment) (slot : KeySlot) (label os_release : Bytes) (c : Container)
      → is_slot_id (slot_id_for_device e.device_id) ≡ true
      → slot.slot_id ≡ slot_id_for_device e.device_id
      → listed gcm hashes
          (new_record gcm hashes e.device_id label
            (tier_name (provision_pepper e.pepper e.stored).tier)
            os_release
            e.fresh.now)
          (write_slot c slot)
        ≡ inr (enrolled e slot label os_release c)
  unfolding write_slot
  writes e slot label os_release c valid named =
      let write : Bytes → Failure ⊎ Container = λ id.
        if not (is_slot_id id)
        then inl path_error
        else inr (record c { slots = put id (holds slot) c.slots }) in
      let add : Failure ⊎ Container → Failure ⊎ Container = listed gcm hashes (
        new_record gcm hashes e.device_id label
          (tier_name (provision_pepper e.pepper e.stored).tier) os_release e.fresh.now) in
      ap (λ id. add (write id)) named ∙ rw valid refl

  -- On a machine that has no Local Key for the vault yet, registering a device succeeds, whether or
  -- not the Secret Service has stored the pepper, and changes no other slot. The key file that it
  -- leaves then unlocks, on that machine and as long as a stored pepper is found again, to the master
  -- secret that was registered.
  pub register_device_lem :
      (machine : Machine) (e : Enrolment) (vault_id label os_release : Bytes) (vms : SecretBytes)
      (c : Container) (l : Local)
      → IsProper e
      → IsHeld vms
      → l.key_file ≡ none
      → let (result, l') = register_device gcm hashes machine e vault_id vms label os_release c l in
        (c' : Container) × (result ≡ inr c')
        × ((loaded : Option SecretBytes)
            → (e.stored ≡ true → loaded ≡ some (secret e.pepper))
            → local_key_secret gcm hashes machine loaded c' l' ≡ inr (secret vms.buf))
        × ((id : Bytes) → id ≢ slot_id_for_device e.device_id → c'.slots id ≡ c.slots id)
  unfolding register_device generate_local_key
  register_device_lem machine e vault_id label os_release vms c l proper held new =
      let pepper = (provision_pepper e.pepper e.stored).pepper in
      let (ikm, derives) = ikm_of e.key e.pepper e.stored in
      let (slot, made, named, opens) =
        device_opens gcm hashes e.fresh proper.0 machine machine vault_id
          (slot_id_for_device e.device_id) e.device_id (secret e.key) pepper vms
          default_binding_inputs e.fresh.now label ikm derives held refl in
      rw (new, made)
        (
          enrolled e slot label os_release c,
          writes e slot label os_release c proper.2 named,
          λ loaded service.
              unlocks machine e slot vault_id label os_release c loaded (secret vms.buf) proper
                service opens,
          λ id other. put_other (slot_id_for_device e.device_id) id (holds slot) c.slots other,
        )
