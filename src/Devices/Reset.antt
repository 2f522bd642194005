-- ===== src/Devices/Reset.antt =====
-- src/passman/core/devices/registry.py: a forgotten password is replaced with the help of the Local
-- Key.
use ash_password_manager.Common.{
  Option, none, some, [], Bytes, ◌≡◌, ◌≢◌, refl, ap, ◌∙◌, ◌⊎◌, inl, inr, arith, Bool-cases,
}
use ash_password_manager.Common.Chars.{codes}
use ash_password_manager.Security.Memory.{SecretBytes, secret}
use ash_password_manager.Crypto.Aead.{Gcm}
use ash_password_manager.Crypto.Kdf.{Hashes, Argon2Params}
use ash_password_manager.Crypto.Binding.{Machine, compute_binding}
use ash_password_manager.Crypto.Keyslots.{
  KeySlot, Fresh, SlotKind, password_kind, device_kind, aad, device_ikm, device_info, device_kek,
  id_text, password_slot_id, slot_id_for_device, unwrap_by_device, unwrap_device_slot,
}
use ash_password_manager.Crypto.Keyslots.Sealing.{IsRandom, IsHeld}
use ash_password_manager.Devices.Container.{Container, Failure, read_slot, latest_or}
use ash_password_manager.Devices.LocalKey.{
  Local, DeviceIdentity, has_local_key, load_local_key, resolve_pepper, tier_of,
}
use ash_password_manager.Devices.Passwords.{with_kek-secret, replaced, unlocked-secret}
use ash_password_manager.Devices.Registry.{
  recorded, written, unwrap_device, with_key, with_identity, device_slot, is_bad, reset_slot, seen,
  local_key_secret, unlock_with_password, unlock_with_local_key,
  reset_master_password_with_local_key,
}

no_secret : {e : Failure} (s : SecretBytes) → ◌≡◌ {A = Failure ⊎ SecretBytes} (inl e) (inr s) → ⊥
no_secret s h = cc h

-- Nothing but times in the list of devices differs.
slots-seen :
    (now : Bytes) (o : Option DeviceIdentity) (gcm : Gcm) (hashes : Hashes) (c : Container)
    → (seen gcm hashes now o c).slots ≡ c.slots
slots-seen now none gcm hashes c = refl
slots-seen now (some identity) gcm hashes c = ground arith

module _ (gcm : Gcm) (hashes : Hashes) (machine : Machine) (loaded : Option SecretBytes) where
  kind-secret :
      (k : SlotKind) (slot : KeySlot) (key : SecretBytes) (pepper : Option SecretBytes)
      (s : SecretBytes)
      → unwrap_by_device gcm hashes k machine slot key pepper ≡ inr s
      → s ≡ secret s.buf
  kind-secret password_kind slot key pepper s h = absurd (cc h)
  kind-secret device_kind slot key pepper s h =
      with_kek-secret gcm hashes
        (device_kek gcm hashes (device_ikm gcm hashes key pepper) slot.salt (
          device_info gcm hashes slot.vault_id slot.slot_id (id_text gcm hashes slot.device_id)
            (compute_binding hashes machine slot.binding_inputs)))
        slot.box (aad slot.vault_id slot.slot_id device_kind) s h

  slot-secret :
      (o : Failure ⊎ KeySlot) (key : SecretBytes) (pepper : Option SecretBytes) (s : SecretBytes)
      → unwrap_device gcm hashes machine key pepper o ≡ inr s
      → s ≡ secret s.buf
  unfolding unwrap_device_slot
  slot-secret (inl e) key pepper s h = absurd (cc h)
  slot-secret (inr slot) key pepper s h =
      kind-secret slot.kind slot key pepper s
        (unlocked-secret gcm hashes (unwrap_device_slot gcm hashes machine slot key pepper) s h)

  key-secret :
      (o : Failure ⊎ SecretBytes) (identity : DeviceIdentity) (c : Container) (s : SecretBytes)
      → with_key gcm hashes machine loaded identity c o ≡ inr s
      → s ≡ secret s.buf
  key-secret (inl e) identity c s h = absurd (cc h)
  key-secret (inr key) identity c s h =
      slot-secret (device_slot gcm hashes (read_slot c (slot_id_for_device identity.device_id))) key
        (resolve_pepper (tier_of identity.tier) loaded) s h

  identity-secret :
      (o : Option DeviceIdentity) (c : Container) (l : Local) (s : SecretBytes)
      → with_identity gcm hashes machine loaded c l o ≡ inr s
      → s ≡ secret s.buf
  identity-secret none c l s h = absurd (cc h)
  identity-secret (some identity) c l s h =
      elim (Bool-cases (is_bad gcm hashes (latest_or none identity.device_id c.devices))) [
        | inl bad ↦ absurd (no_secret s (rw bad at h))
        | inr good ↦ key-secret (load_local_key l) identity c s (rw good at h)
      ]

  local_key-secret :
      (c : Container) (l : Local) (s : SecretBytes)
      → local_key_secret gcm hashes machine loaded c l ≡ inr s
      → s ≡ secret s.buf
  unfolding local_key_secret
  local_key-secret c l s h = elim (Bool-cases (has_local_key l)) [
    | inr gone ↦ absurd (no_secret s (rw gone at h))
    | inl there ↦ identity-secret l.identity c l s (rw there at h)
  ]

  unlocks :
      (now : Bytes) (c : Container) (l : Local) (s : SecretBytes)
      → local_key_secret gcm hashes machine loaded c l ≡ inr s
      → unlock_with_local_key gcm hashes machine loaded now c l
        ≡ (inr s, seen gcm hashes now l.identity c)
  unfolding unlock_with_local_key
  unlocks now c l s h = ap (recorded gcm hashes now l.identity c) h

  -- Where the Local Key gives the master secret, the password can be replaced without the old one: the
  -- new password then opens the vault to that secret, and no slot but the password's has changed.
  pub reset_master_password_lem :
      (now vault_id : Bytes) (fresh : Fresh) (c : Container) (l : Local)
      (new_password s : SecretBytes) (params : Option Argon2Params)
      → IsRandom fresh
      → IsHeld new_password
      → local_key_secret gcm hashes machine loaded c l ≡ inr s
      → (c' : Container) × (reset_master_password_with_local_key gcm hashes machine loaded now fresh
            vault_id new_password params c l
          ≡ inr c')
        × (unlock_with_password gcm hashes c' new_password ≡ inr s)
        × ((id : Bytes) → id ≢ password_slot_id → c'.slots id ≡ c.slots id)
  unfolding reset_master_password_with_local_key
  reset_master_password_lem now vault_id fresh c l new_password s params random held h =
      let later = seen gcm hashes now l.identity c in
      let (c', made, opens, same, keeps) =
        replaced gcm hashes later fresh vault_id new_password s params [] (codes "Master password")
          random held (local_key-secret c l s h) in
      (
        c',
        ap
              (λ (u : (Failure ⊎ SecretBytes) × Container).
                written gcm hashes u.1
                  (reset_slot gcm hashes fresh vault_id new_password params u.0))
              (unlocks now c l s h)
            ∙ made,
        opens,
        λ id other. same.1 id other ∙ ap (λ f. f id) (slots-seen now l.identity gcm hashes c),
      )
