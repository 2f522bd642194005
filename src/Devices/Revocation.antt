-- ===== src/Devices/Revocation.antt =====
-- src/passman/core/devices/registry.py: what a new device can do, and what a revoked one no longer
-- can.
use ash_password_manager.Common.{
  true, false, not, ◌&&◌, Option, none, some, List, [], ◌∷◌, map, Bytes, same_bytes, same_bytes→eq,
  ◌≡◌, ◌≢◌, refl, sym, ap, ◌∙◌, ◌⊎◌, inl, inr, arith, Bool-cases, subst, if◌then◌else◌,
}
use ash_password_manager.Security.Memory.{SecretBytes}
use ash_password_manager.Crypto.Aead.{Gcm}
use ash_password_manager.Crypto.Kdf.{Hashes}
use ash_password_manager.Crypto.Binding.{Machine}
use ash_password_manager.Crypto.Keyslots.{slot_id_for_device}
use ash_password_manager.Devices.Container.{
  missing, content, Container, DeviceRecord, Failure, path_error, registry_error, no_local_key,
  device_revoked, is_slot_id, read_slot, put, latest_or, is_revoked,
}
use ash_password_manager.Devices.LocalKey.{
  Local, DeviceIdentity, resolve_pepper, tier_of, has_local_key, load_local_key,
}
use ash_password_manager.Devices.Passwords.{put_self, put_other}
use ash_password_manager.Devices.Registry.{
  with_key, unwrap_device, device_slot, with_identity, is_bad, local_key_secret,
  unlock_with_password, revoke_device, revoke_record,
}

-- Whatever key and identity file it has kept, a machine that names the device cannot unlock.
abbrev pub IsShutOut : Gcm → Hashes → Container → Bytes → Type 0
IsShutOut gcm hashes c device_id =
    (machine : Machine) (loaded : Option SecretBytes) (l : Local) (identity : DeviceIdentity)
    → l.identity ≡ some identity
    → identity.device_id ≡ device_id
    → (e : Failure) × (local_key_secret gcm hashes machine loaded c l ≡ inl e)

other_record :
    (r : DeviceRecord) (device_id id : Bytes)
    → id ≢ device_id
    → (same_bytes r.device_id device_id && not (is_revoked r)) ≡ true
    → same_bytes r.device_id id ≡ false
other_record r device_id id h marked =
    ground (arith, same_bytes→eq r.device_id id, same_bytes→eq r.device_id device_id)

-- The records of other devices are found as before.
latest_or-revoke :
    (now device_id id : Bytes) (found : Option DeviceRecord) (rs : List DeviceRecord)
    → id ≢ device_id
    → latest_or found id (map (revoke_record now device_id) rs) ≡ latest_or found id rs
latest_or-revoke now device_id id found [] h = refl
latest_or-revoke now device_id id found (r ∷ rs) h =
    elim (Bool-cases (same_bytes r.device_id device_id && not (is_revoked r))) [
      | inr kept ↦ rw kept (
          latest_or-revoke now device_id id (if same_bytes r.device_id id then some r else found) rs
            h)
      | inl marked ↦
          let miss = other_record r device_id id h marked in
          rw (marked, miss) (latest_or-revoke now device_id id found rs h)
    ]

abbrev revoked : Bytes → Bytes → Container → Container
revoked now device_id c = record {
  slots = put (slot_id_for_device device_id) missing c.slots;
  devices = map (revoke_record now device_id) c.devices;
}

no_container : {e : Failure} {c : Container} → ◌≡◌ {A = Failure ⊎ Container} (inl e) (inr c) → ⊥
no_container h = cc h

revoked_same : {b c : Container} → ◌≡◌ {A = Failure ⊎ Container} (inr b) (inr c) → b ≡ c
revoked_same h = cc h

revoked_is :
    (now device_id : Bytes) (c c' : Container)
    → revoke_device now device_id c ≡ inr c'
    → (is_slot_id (slot_id_for_device device_id) ≡ true) × (revoked now device_id c ≡ c')
unfolding revoke_device
revoked_is now device_id c c' done = elim (Bool-cases (is_slot_id (slot_id_for_device device_id))) [
  | inl valid ↦ (valid, revoked_same (rw valid at done))
  | inr not_valid ↦ absurd (no_container (rw not_valid at done))
]

gone :
    (now device_id : Bytes) (c : Container)
    → is_slot_id (slot_id_for_device device_id) ≡ true
    → read_slot (revoked now device_id c) (slot_id_for_device device_id) ≡ inl registry_error
unfolding read_slot
gone now device_id c valid =
    rw (valid, put_self (slot_id_for_device device_id) missing c.slots) refl

other_slot :
    (now device_id id : Bytes) (c : Container)
    → id ≢ device_id
    → read_slot (revoked now device_id c) (slot_id_for_device id)
      ≡ read_slot c (slot_id_for_device id)
unfolding read_slot same_bytes
other_slot now device_id id c h =
    ap (λ f. if not (is_slot_id (slot_id_for_device id)) then inl path_error else content f)
      (put_other (slot_id_for_device device_id) (slot_id_for_device id) missing c.slots
        (λ e. h (cc e)))

module _ (gcm : Gcm) (hashes : Hashes) where
  same_key_read :
      (machine : Machine) (loaded : Option SecretBytes) (identity : DeviceIdentity)
      (now device_id : Bytes) (c : Container)
      → identity.device_id ≢ device_id
      → (k : Failure ⊎ SecretBytes)
      → with_key gcm hashes machine loaded identity (revoked now device_id c) k
        ≡ with_key gcm hashes machine loaded identity c k
  same_key_read machine loaded identity now device_id c other (inl e) = refl
  same_key_read machine loaded identity now device_id c other (inr key) =
      ap
        (λ f.
          unwrap_device gcm hashes machine key (resolve_pepper (tier_of identity.tier) loaded)
            (device_slot gcm hashes f))
        (other_slot now device_id identity.device_id c other)

  no_slot :
      (machine : Machine) (loaded : Option SecretBytes) (identity : DeviceIdentity) (c : Container)
      (k : Failure ⊎ SecretBytes)
      → read_slot c (slot_id_for_device identity.device_id) ≡ inl registry_error
      → (e : Failure) × (with_key gcm hashes machine loaded identity c k ≡ inl e)
  no_slot machine loaded identity c (inl e) h = (e, refl)
  no_slot machine loaded identity c (inr key) h = (
    no_local_key,
    ap
        (λ f.
          unwrap_device gcm hashes machine key (resolve_pepper (tier_of identity.tier) loaded)
            (device_slot gcm hashes f))
        h,
  )

  shut :
      (machine : Machine) (loaded : Option SecretBytes) (identity : DeviceIdentity) (c : Container)
      (l : Local)
      → read_slot c (slot_id_for_device identity.device_id) ≡ inl registry_error
      → (e : Failure) × (with_identity gcm hashes machine loaded c l (some identity) ≡ inl e)
  shut machine loaded identity c l h =
      elim (Bool-cases (is_bad gcm hashes (latest_or none identity.device_id c.devices))) [
        | inl bad ↦ (device_revoked, rw bad refl)
        | inr good ↦ rw good (no_slot machine loaded identity c (load_local_key l) h)
      ]

  shut_out :
      (c : Container) (device_id : Bytes)
      → read_slot c (slot_id_for_device device_id) ≡ inl registry_error
      → IsShutOut gcm hashes c device_id
  unfolding local_key_secret
  shut_out c device_id h machine loaded l identity e named = elim (Bool-cases (has_local_key l)) [
    | inr gone ↦ (no_local_key, rw gone refl)
    | inl there ↦ rw there (
        subst (λ o. (x : Failure) × (with_identity gcm hashes machine loaded c l o ≡ inl x)) (sym e)
          (shut machine loaded identity c l
            (ap (λ id. read_slot c (slot_id_for_device id)) named ∙ h)))
  ]

  -- Another device's identity.
  same_key :
      (machine : Machine) (loaded : Option SecretBytes) (identity : DeviceIdentity)
      (now device_id : Bytes) (c : Container) (l : Local)
      → identity.device_id ≢ device_id
      → with_identity gcm hashes machine loaded (revoked now device_id c) l (some identity)
        ≡ with_identity gcm hashes machine loaded c l (some identity)
  same_key machine loaded identity now device_id c l other =
      rw
        (
          latest_or-revoke now device_id identity.device_id none c.devices other,
          same_key_read machine loaded identity now device_id c other (load_local_key l),
        )
        refl

  same_secret :
      (machine : Machine) (loaded : Option SecretBytes) (identity : DeviceIdentity)
      (now device_id : Bytes) (c : Container) (l : Local)
      → l.identity ≡ some identity
      → identity.device_id ≢ device_id
      → local_key_secret gcm hashes machine loaded (revoked now device_id c) l
        ≡ local_key_secret gcm hashes machine loaded c l
  unfolding local_key_secret
  same_secret machine loaded identity now device_id c l e other =
      ap (λ b. if not (has_local_key l) then inl no_local_key else b)
        (subst
          (λ o.
            with_identity gcm hashes machine loaded (revoked now device_id c) l o
            ≡ with_identity gcm hashes machine loaded c l o)
          (sym e) (same_key machine loaded identity now device_id c l other))

  -- What revoking leaves.
  abbrev pub Revokes : Bytes → Container → Container → Type 0
  Revokes device_id c c' =
      IsShutOut gcm hashes c' device_id
      × ((id : Bytes) → id ≢ slot_id_for_device device_id → c'.slots id ≡ c.slots id)
      × ((password : SecretBytes)
          → unlock_with_password gcm hashes c' password
            ≡ unlock_with_password gcm hashes c password)
      × ((machine : Machine) (loaded : Option SecretBytes) (identity : DeviceIdentity) (l : Local)
          → l.identity ≡ some identity
          → identity.device_id ≢ device_id
          → local_key_secret gcm hashes machine loaded c' l
            ≡ local_key_secret gcm hashes machine loaded c l)

  same_password :
      (now device_id : Bytes) (c : Container) (password : SecretBytes)
      → unlock_with_password gcm hashes (revoked now device_id c) password
        ≡ unlock_with_password gcm hashes c password
  unfolding unlock_with_password read_slot is_slot_id same_bytes
  same_password now device_id c password = refl

  -- Revoking a device leaves every other slot and the password as they were. No machine that names
  -- the device can then unlock with a Local Key, whatever files it has kept and whatever its Secret
  -- Service holds; and a machine that names another device unlocks exactly as before.
  pub revoke_device_lem :
      (now device_id : Bytes) (c c' : Container)
      → revoke_device now device_id c ≡ inr c'
      → Revokes device_id c c'
  revoke_device_lem now device_id c c' done =
      let (valid, e) = revoked_is now device_id c c' done in
      subst (Revokes device_id c) e (
        shut_out (revoked now device_id c) device_id (gone now device_id c valid),
        λ id other. put_other (slot_id_for_device device_id) id missing c.slots other,
        λ password. same_password now device_id c password,
        λ machine loaded identity l e other.
            same_secret machine loaded identity now device_id c l e other,
      )
