-- ===== src/Devices/Passwords.antt =====
-- src/passman/core/devices/registry.py: what changing the master password does, and what it leaves
-- alone.
use ash_password_manager.Common.{
  if◌then◌else◌, not, Option, none, some, Bytes, same_bytes, same_bytes→eq, same_bytes_refl, ◌≡◌,
  ◌≢◌, refl, sym, ap, ◌∙◌, inl, inr, arith,
}
use ash_password_manager.Security.Memory.{SecretBytes, secret}
use ash_password_manager.Crypto.Aead.{
  Gcm, SealedBox, Opened, opened, aead_error, value_error, open_box,
}
use ash_password_manager.Crypto.Kdf.{Hashes, Argon2Params, derive_key_argon2id}
use ash_password_manager.Crypto.Binding.{Machine}
use ash_password_manager.Crypto.Keyslots.{
  unwrap_by_password, params_or, aad, rewrap, KeySlot, Fresh, SlotKind, password_kind, device_kind,
  Unwrapped, answer, with_kek, password_slot_id, unwrap_password_slot, rewrap_password_slot,
  created_or_error, create_password_slot, params_over,
}
use ash_password_manager.Crypto.Keyslots.Sealing.{IsRandom, IsHeld, password_opens}
use ash_password_manager.Devices.Container.{
  SlotFile, holds, Container, content, path_error, is_slot_id, put, read_slot, write_slot,
}
use ash_password_manager.Devices.LocalKey.{Local}
use ash_password_manager.Devices.Registry.{
  unwrap_password, rewrap_slot, slot_or_error, lifted_slot, lifted, written, local_key_secret,
  unlock_with_password, change_master_password,
}

-- The slot of a container that stands at the id that it names.
abbrev pub IsPasswordSlot : Container → KeySlot → Type 0
IsPasswordSlot c slot = (c.slots password_slot_id ≡ holds slot) × (slot.slot_id ≡ password_slot_id)

-- Everything but the password slot.
abbrev pub SameBesides : Container → Container → Type 0
SameBesides c c' =
    (c'.devices ≡ c.devices) × ((id : Bytes) → id ≢ password_slot_id → c'.slots id ≡ c.slots id)

pub answer-secret : (o : Opened) (s : SecretBytes) → answer o ≡ inr s → s ≡ secret s.buf
unfolding secret
answer-secret (opened text) s h = cc
answer-secret aead_error s h = absurd (cc h)
answer-secret value_error s h = absurd (cc h)

pub IsHeld-secret : (s : SecretBytes) → s ≡ secret s.buf → IsHeld s
unfolding secret
IsHeld-secret s h = ap (λ (t : SecretBytes). t.wiped) h

pub put_self :
    (id : Bytes) (file : SlotFile) (slots : Bytes → SlotFile) → put id file slots id ≡ file
put_self id file slots = rw (same_bytes_refl id) refl

pub put_other :
    (id other : Bytes) (file : SlotFile) (slots : Bytes → SlotFile)
    → other ≢ id
    → put id file slots other ≡ slots other
put_other id other file slots h = ground (arith, same_bytes→eq other id)

-- Writing under a name that is known.
write_at :
    (c : Container) (slot : KeySlot) (id : Bytes)
    → id ≡ password_slot_id
    → (if not (is_slot_id id)
        then inl path_error
        else inr (record c { slots = put id (holds slot) c.slots }))
      ≡ inr (record c { slots = put password_slot_id (holds slot) c.slots })
unfolding is_slot_id same_bytes
write_at c slot id h = rw h refl

write_password :
    (c : Container) (slot : KeySlot)
    → slot.slot_id ≡ password_slot_id
    → write_slot c slot ≡ inr (record c { slots = put password_slot_id (holds slot) c.slots })
unfolding write_slot
write_password c slot h = write_at c slot slot.slot_id h

module _ (gcm : Gcm) (hashes : Hashes) where
  pub with_kek-secret :
      (kek : Option Bytes) (box : SealedBox) (extra : Bytes) (s : SecretBytes)
      → with_kek gcm hashes kek box extra ≡ inr s
      → s ≡ secret s.buf
  with_kek-secret none box extra s h = absurd (cc h)
  with_kek-secret (some kek) box extra s h = answer-secret (open_box gcm kek box extra) s h

  -- After writing a password slot, reading it is unwrapping it, and a Local Key opens what it did.
  unlock-write :
      (c : Container) (slot : KeySlot) (password : SecretBytes)
      → unlock_with_password gcm hashes
          (record c { slots = put password_slot_id (holds slot) c.slots })
          password
        ≡ lifted (unwrap_password_slot gcm hashes slot password)
  unfolding unlock_with_password read_slot is_slot_id same_bytes
  unlock-write c slot password = refl

  keeps_local_key :
      (machine : Machine) (loaded : Option SecretBytes) (c : Container) (slot : KeySlot) (l : Local)
      → local_key_secret gcm hashes machine loaded
          (record c { slots = put password_slot_id (holds slot) c.slots })
          l
        ≡ local_key_secret gcm hashes machine loaded c l
  unfolding local_key_secret read_slot is_slot_id same_bytes
  keeps_local_key machine loaded c slot l = refl

  -- A new slot for the password, at its place.
  pub replaced :
      (c : Container) (fresh : Fresh) (vault_id : Bytes) (password s : SecretBytes)
      (params : Option Argon2Params) (created label : Bytes)
      → IsRandom fresh
      → IsHeld password
      → s ≡ secret s.buf
      → (c' : Container) × (written gcm hashes c (
            slot_or_error gcm hashes (
              create_password_slot gcm hashes fresh vault_id password_slot_id password s params
                created label))
          ≡ inr c')
        × (unlock_with_password gcm hashes c' password ≡ inr s)
        × SameBesides c c'
        × ((machine : Machine) (loaded : Option SecretBytes) (l : Local)
            → local_key_secret gcm hashes machine loaded c' l
              ≡ local_key_secret gcm hashes machine loaded c l)
  replaced c fresh vault_id password s params created label random held whole =
      let (slot, made, at, owner, titled, since, opens) =
        password_opens gcm hashes fresh random vault_id password_slot_id password s params created
          label held (IsHeld-secret s whole) in
      (
        record c { slots = put password_slot_id (holds slot) c.slots },
        rw made (write_password c slot at),
        unlock-write c slot password ∙ rw opens (ap inr (sym whole)),
        (refl, λ id other. put_other password_slot_id id (holds slot) c.slots other),
        λ machine loaded l. keeps_local_key machine loaded c slot l,
      )

  same_error :
      (o : Option KeySlot)
      → lifted_slot gcm hashes (created_or_error gcm hashes o) ≡ slot_or_error gcm hashes o
  same_error none = refl
  same_error (some slot) = refl

  pub unlocked-secret : (o : Unwrapped) (s : SecretBytes) → lifted o ≡ inr s → o ≡ inr s
  unlocked-secret (inl e) s h = absurd (cc h)
  unlocked-secret (inr t) s h = cc

  kind-secret :
      (k : SlotKind) (slot : KeySlot) (password s : SecretBytes)
      → unwrap_by_password gcm hashes k slot password ≡ inr s
      → s ≡ secret s.buf
  kind-secret device_kind slot password s h = absurd (cc h)
  kind-secret password_kind slot password s h =
      with_kek-secret (derive_key_argon2id hashes password slot.salt (params_or slot.argon2_params))
        slot.box (aad slot.vault_id slot.slot_id password_kind) s h

  slot-secret :
      (slot : KeySlot) (password s : SecretBytes)
      → unwrap_password_slot gcm hashes slot password ≡ inr s
      → s ≡ secret s.buf
  unfolding unwrap_password_slot
  slot-secret slot password s h = kind-secret slot.kind slot password s h

  slot_opens :
      (c : Container) (slot : KeySlot) (old s : SecretBytes)
      → c.slots password_slot_id ≡ holds slot
      → unlock_with_password gcm hashes c old ≡ inr s
      → unwrap_password_slot gcm hashes slot old ≡ inr s
  unfolding unlock_with_password read_slot is_slot_id same_bytes
  slot_opens c slot old s at opens =
      unlocked-secret (unwrap_password_slot gcm hashes slot old) s
        (sym (ap (λ file. unwrap_password gcm hashes (content file) old) at) ∙ opens)

  changes :
      (fresh : Fresh) (c : Container) (slot : KeySlot) (old new_password s : SecretBytes)
      (params : Option Argon2Params)
      → c.slots password_slot_id ≡ holds slot
      → slot.slot_id ≡ password_slot_id
      → unwrap_password_slot gcm hashes slot old ≡ inr s
      → change_master_password gcm hashes fresh old new_password params c
        ≡ written gcm hashes c (
            slot_or_error gcm hashes (
              create_password_slot gcm hashes fresh slot.vault_id password_slot_id new_password s
                (params_over gcm hashes params slot.argon2_params)
                slot.created_utc
                slot.label))
  unfolding change_master_password read_slot is_slot_id same_bytes rewrap_password_slot
  changes fresh c slot old new_password s params at named was =
      let create : Bytes → Option KeySlot = λ id.
        create_password_slot gcm hashes fresh slot.vault_id id new_password s
          (params_over gcm hashes params slot.argon2_params) slot.created_utc slot.label in
      ap
        (λ file.
          written gcm hashes c
            (rewrap_slot gcm hashes fresh (content file) old new_password params))
        at
      ∙ ap
          (λ u.
            written gcm hashes c
              (lifted_slot gcm hashes (rewrap gcm hashes u fresh slot new_password params)))
          was
      ∙ ap
          (λ id.
            written gcm hashes c (lifted_slot gcm hashes (created_or_error gcm hashes (create id))))
          named
      ∙ ap (written gcm hashes c) (same_error (create password_slot_id))

  -- Where the password slot stands at the id that it names and the old password opens it, changing the
  -- password succeeds; the new password opens the vault to the same master secret; every other slot
  -- and the list of devices are as before; and every Local Key gives what it gave before.
  pub change_master_password_lem :
      (fresh : Fresh) (c : Container) (slot : KeySlot) (old new_password s : SecretBytes)
      (params : Option Argon2Params)
      → IsRandom fresh
      → IsHeld new_password
      → IsPasswordSlot c slot
      → unlock_with_password gcm hashes c old ≡ inr s
      → (c' : Container) × (change_master_password gcm hashes fresh old new_password params c
          ≡ inr c')
        × (unlock_with_password gcm hashes c' new_password ≡ inr s)
        × SameBesides c c'
        × ((machine : Machine) (loaded : Option SecretBytes) (l : Local)
            → local_key_secret gcm hashes machine loaded c' l
              ≡ local_key_secret gcm hashes machine loaded c l)
  change_master_password_lem fresh c slot old new_password s params random held (at, named) opens =
      let was = slot_opens c slot old s at opens in
      let (c', made, opens', same, keeps) =
        replaced c fresh slot.vault_id new_password s
          (params_over gcm hashes params slot.argon2_params) slot.created_utc slot.label random held
          (slot-secret slot old s was) in
      (c', changes fresh c slot old new_password s params at named was ∙ made, opens', same, keeps)
