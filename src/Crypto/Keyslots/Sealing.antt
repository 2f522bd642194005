-- ===== src/Crypto/Keyslots/Sealing.antt =====
-- src/passman/core/crypto/keyslots.py: what is sealed in a slot comes out again.
use ash_password_manager.Common.{
  false, Option, none, some, List, Bytes, length, ◌≡◌, refl, inr, arith,
}
use ash_password_manager.Security.Memory.{SecretBytes, secret, to_bytes}
use ash_password_manager.Crypto.Aead.{Gcm, open_box-seal}
use ash_password_manager.Crypto.Kdf.{Hashes, Argon2Params, derive_key_argon2id, first_bytes}
use ash_password_manager.Crypto.Kdf.Expand.{hkdf_sha256_lem, blocks}
use ash_password_manager.Crypto.Binding.{
  BindingInput, Machine, compute_binding, default_binding_inputs,
}
use ash_password_manager.Crypto.Keyslots.{
  KeySlot, Fresh, password_kind, device_kind, create_password_slot, unwrap_password_slot,
  create_device_slot, unwrap_device_slot, params_or, aad, device_ikm, device_info, given_or_now,
}

-- Random bytes of the lengths that the code asks for.
abbrev pub IsRandom : Fresh → Type 0
IsRandom fresh = (length fresh.salt ≡ 16) × (length fresh.nonce ≡ 12)

abbrev pub IsHeld : SecretBytes → Type 0
IsHeld s = s.wiped ≡ false

held-bytes : (s : SecretBytes) → IsHeld s → to_bytes s ≡ some s.buf
unfolding to_bytes
held-bytes s h = rw h

module _ (gcm : Gcm) (hashes : Hashes) (fresh : Fresh) (random : IsRandom fresh) where
  password_kek :
      (password : SecretBytes) (params : Argon2Params)
      → IsHeld password
      → derive_key_argon2id hashes password fresh.salt params
        ≡ some (hashes.argon2id password.buf fresh.salt params)
  unfolding derive_key_argon2id
  password_kek password params h = ground (arith, held-bytes password h, random.0)

  -- A password slot can be made with a password and a master secret that have not been wiped; it has
  -- the ids, the label and the time that it was given, and opens with that password to that secret.
  pub password_opens :
      (vault_id slot_id : Bytes) (password vms : SecretBytes) (params : Option Argon2Params)
      (created label : Bytes)
      → IsHeld password
      → IsHeld vms
      → (slot : KeySlot) × (create_password_slot gcm hashes fresh vault_id slot_id password vms
            params created label
          ≡ some slot)
        × (slot.slot_id ≡ slot_id)
        × (slot.vault_id ≡ vault_id)
        × (slot.label ≡ label)
        × (slot.created_utc ≡ given_or_now created fresh.now)
        × (unwrap_password_slot gcm hashes slot password ≡ inr (secret vms.buf))
  unfolding create_password_slot unwrap_password_slot
  password_opens vault_id slot_id password vms params created label h v =
      let kek = hashes.argon2id password.buf fresh.salt (params_or params) in
      let extra = aad vault_id slot_id password_kind in
      let (box, made, opens) =
        open_box-seal gcm fresh.nonce kek vms.buf extra random.1
          (hashes.argon2id_length password.buf fresh.salt (params_or params)) in
      (
        record {
          slot_id = slot_id;
          kind = password_kind;
          vault_id = vault_id;
          salt = fresh.salt;
          box = box;
          created_utc = given_or_now created fresh.now;
          label = label;
          argon2_params = some (params_or params);
          device_id = none;
          binding_inputs = default_binding_inputs;
        },
        rw (password_kek password (params_or params) h, held-bytes vms v, made) refl,
        refl,
        refl,
        refl,
        refl,
        rw (password_kek password (params_or params) h, opens) refl,
      )

  -- A device slot can be made with a Local Key, with or without a pepper, that has not been wiped; with
  -- the same key and pepper it opens to the master secret on every machine whose binding, for the inputs
  -- that the slot names, is that of the machine that made it.
  pub device_opens :
      (machine other : Machine) (vault_id slot_id device_id : Bytes) (local_key : SecretBytes)
      (pepper : Option SecretBytes) (vms : SecretBytes) (inputs : List BindingInput)
      (created label ikm : Bytes)
      → device_ikm gcm hashes local_key pepper ≡ some ikm
      → IsHeld vms
      → compute_binding hashes other inputs ≡ compute_binding hashes machine inputs
      → (slot : KeySlot) × (create_device_slot gcm hashes machine fresh vault_id slot_id device_id
            local_key pepper vms inputs created label
          ≡ some slot)
        × (slot.slot_id ≡ slot_id)
        × (unwrap_device_slot gcm hashes other slot local_key pepper ≡ inr (secret vms.buf))
  unfolding create_device_slot unwrap_device_slot
  device_opens machine other vault_id slot_id device_id local_key pepper vms inputs created label
        ikm k v same =
      let extra = aad vault_id slot_id device_kind in
      let info =
        device_info gcm hashes vault_id slot_id device_id (compute_binding hashes machine inputs) in
      let (m, derives, long) =
        hkdf_sha256_lem hashes ikm fresh.salt info 32 (omega arith) (omega arith) in
      let kek = first_bytes 32 (blocks hashes (hashes.hmac_sha256 fresh.salt ikm) info m) in
      let (box, made, opens) = open_box-seal gcm fresh.nonce kek vms.buf extra random.1 long in
      (
        record {
          slot_id = slot_id;
          kind = device_kind;
          vault_id = vault_id;
          salt = fresh.salt;
          box = box;
          created_utc = given_or_now created fresh.now;
          label = label;
          argon2_params = none;
          device_id = some device_id;
          binding_inputs = inputs;
        },
        rw (k, derives, held-bytes vms v, made) refl,
        refl,
        rw (k, same, derives, opens) refl,
      )
