-- ===== src/Crypto/Keyslots.antt =====
-- src/passman/core/crypto/keyslots.py: sealing the vault master secret under a password or under a
-- device. Ids are their UTF-8 bytes. Salts, nonces and the time are arguments.
pub mod Dict
pub mod Sealing
use ash_password_manager.Common.{
  ◌⊎◌, inl, inr, ℕ, Bool, true, false, Option, none, some, List, [], ◌∷◌, ◌++◌, Bytes,
}
use ash_password_manager.Common.Chars.{codes}
use ash_password_manager.Security.Memory.{SecretBytes, secret, to_bytes}
use ash_password_manager.Crypto.Aead.{
  SealedBox, Gcm, seal, Opened, opened, aead_error, value_error, open_box,
}
use ash_password_manager.Crypto.Kdf.{
  Hashes, Argon2Params, default_params, derive_key_argon2id, hkdf_sha256,
}
use ash_password_manager.Crypto.Binding.{
  BindingInput, Machine, compute_binding, default_binding_inputs,
}

pub data SlotKind : Type 0 where
  password_kind device_kind : SlotKind

pub record KeySlot : Type 0 where
  pub slot_id : Bytes
  pub kind : SlotKind
  pub vault_id : Bytes
  pub salt : Bytes
  pub box : SealedBox
  pub created_utc : Bytes
  pub label : Bytes
  pub argon2_params : Option Argon2Params
  pub device_id : Option Bytes
  pub binding_inputs : List BindingInput

abbrev pub password_slot_id : Bytes
password_slot_id = codes "password"

abbrev pub slot_id_for_device : Bytes → Bytes
slot_id_for_device device_id = codes "device-" ++ device_id

abbrev pub kind_name : SlotKind → Bytes
kind_name password_kind = codes "password"
kind_name device_kind = codes "device"

-- The associated data, which ties a box to its vault, its slot and its kind.
abbrev pub aad : Bytes → Bytes → SlotKind → Bytes
aad vault_id slot_id kind =
    codes "ash-pm/slot/v1/" ++ vault_id ++ b'/' ∷ slot_id ++ b'/' ∷ kind_name kind

-- SlotUnwrapError, SlotFormatError, and a ValueError.
pub data SlotError : Type 0 where
  unwrap_error format_error bad_value : SlotError

abbrev pub Unwrapped : Type 0
Unwrapped = SlotError ⊎ SecretBytes

-- The random bytes of one new slot, and the time.
pub record Fresh : Type 0 where
  pub salt : Bytes
  pub nonce : Bytes
  pub now : Bytes

abbrev pub params_or : Option Argon2Params → Argon2Params
params_or none = default_params
params_or (some params) = params

abbrev pub answer : Opened → Unwrapped
answer (opened text) = inr (secret text)
answer aead_error = inl unwrap_error
answer value_error = inl bad_value

-- `created_utc or _now()`
abbrev pub given_or_now : Bytes → Bytes → Bytes
given_or_now [] now = now
given_or_now (c ∷ cs) now = c ∷ cs

module _ (gcm : Gcm) (hashes : Hashes) where
  abbrev sealed : Bytes → Option Bytes → Option Bytes → Bytes → Option SealedBox
  sealed nonce none text extra = none
  sealed nonce (some kek) none extra = none
  sealed nonce (some kek) (some text) extra = seal gcm nonce kek text extra

  abbrev pub with_kek : Option Bytes → SealedBox → Bytes → Unwrapped
  with_kek none box extra = inl bad_value
  with_kek (some kek) box extra = answer (open_box gcm kek box extra)

  abbrev password_slot :
      Bytes → Bytes → Bytes → Bytes → Bytes → Argon2Params → Option SealedBox → Option KeySlot
  password_slot vault_id slot_id salt created label params none = none
  password_slot vault_id slot_id salt created label params (some box) = some (record {
    slot_id = slot_id;
    kind = password_kind;
    vault_id = vault_id;
    salt = salt;
    box = box;
    created_utc = created;
    label = label;
    argon2_params = some params;
    device_id = none;
    binding_inputs = default_binding_inputs;
  })

  -- `none` is a ValueError.
  unfoldable pub create_password_slot :
      Fresh
      → Bytes
      → Bytes
      → SecretBytes
      → SecretBytes
      → Option Argon2Params
      → Bytes
      → Bytes
      → Option KeySlot
  create_password_slot fresh vault_id slot_id password vms params created label =
      password_slot vault_id slot_id fresh.salt (given_or_now created fresh.now) label
        (params_or params)
        (sealed fresh.nonce (derive_key_argon2id hashes password fresh.salt (params_or params))
          (to_bytes vms) (aad vault_id slot_id password_kind))

  abbrev pub unwrap_by_password : SlotKind → KeySlot → SecretBytes → Unwrapped
  unwrap_by_password device_kind slot password = inl format_error
  unwrap_by_password password_kind slot password =
      with_kek (derive_key_argon2id hashes password slot.salt (params_or slot.argon2_params))
        slot.box (aad slot.vault_id slot.slot_id password_kind)

  unfoldable pub unwrap_password_slot : KeySlot → SecretBytes → Unwrapped
  unwrap_password_slot slot password = unwrap_by_password slot.kind slot password

  abbrev joined : Option Bytes → Option Bytes → Option Bytes
  joined none pepper = none
  joined (some key) none = none
  joined (some key) (some pepper) = some (key ++ pepper)

  abbrev pub device_ikm : SecretBytes → Option SecretBytes → Option Bytes
  device_ikm local_key none = to_bytes local_key
  device_ikm local_key (some pepper) = joined (to_bytes local_key) (to_bytes pepper)

  abbrev pub device_info : Bytes → Bytes → Bytes → Bytes → Bytes
  device_info vault_id slot_id device_id binding =
      aad vault_id slot_id device_kind ++ b'|' ∷ device_id ++ b'|' ∷ binding

  abbrev pub device_kek : Option Bytes → Bytes → Bytes → Option Bytes
  device_kek none salt info = none
  device_kek (some ikm) salt info = hkdf_sha256 hashes ikm salt info 32

  abbrev device_slot :
      Bytes
      → Bytes
      → Bytes
      → List BindingInput
      → Bytes
      → Bytes
      → Bytes
      → Option SealedBox
      → Option KeySlot
  device_slot vault_id slot_id device_id inputs salt created label none = none
  device_slot vault_id slot_id device_id inputs salt created label (some box) = some (record {
    slot_id = slot_id;
    kind = device_kind;
    vault_id = vault_id;
    salt = salt;
    box = box;
    created_utc = created;
    label = label;
    argon2_params = none;
    device_id = some device_id;
    binding_inputs = inputs;
  })

  unfoldable pub create_device_slot :
      Machine
      → Fresh
      → Bytes
      → Bytes
      → Bytes
      → SecretBytes
      → Option SecretBytes
      → SecretBytes
      → List BindingInput
      → Bytes
      → Bytes
      → Option KeySlot
  create_device_slot machine fresh vault_id slot_id device_id local_key pepper vms inputs created
        label =
      device_slot vault_id slot_id device_id inputs fresh.salt (given_or_now created fresh.now)
        label
        (sealed fresh.nonce
          (device_kek (device_ikm local_key pepper) fresh.salt
            (device_info vault_id slot_id device_id (compute_binding hashes machine inputs)))
          (to_bytes vms) (aad vault_id slot_id device_kind))

  -- `slot.device_id or ""`
  abbrev pub id_text : Option Bytes → Bytes
  id_text none = []
  id_text (some id) = id

  abbrev pub unwrap_by_device :
      SlotKind → Machine → KeySlot → SecretBytes → Option SecretBytes → Unwrapped
  unwrap_by_device password_kind machine slot local_key pepper = inl format_error
  unwrap_by_device device_kind machine slot local_key pepper =
      with_kek
        (device_kek (device_ikm local_key pepper) slot.salt (
          device_info slot.vault_id slot.slot_id (id_text slot.device_id)
            (compute_binding hashes machine slot.binding_inputs)))
        slot.box (aad slot.vault_id slot.slot_id device_kind)

  unfoldable pub unwrap_device_slot :
      Machine → KeySlot → SecretBytes → Option SecretBytes → Unwrapped
  unwrap_device_slot machine slot local_key pepper =
      unwrap_by_device slot.kind machine slot local_key pepper

  abbrev pub params_over : Option Argon2Params → Option Argon2Params → Option Argon2Params
  params_over none old = old
  params_over (some params) old = some params

  abbrev pub created_or_error : Option KeySlot → SlotError ⊎ KeySlot
  created_or_error none = inl bad_value
  created_or_error (some slot) = inr slot

  abbrev pub rewrap :
      Unwrapped → Fresh → KeySlot → SecretBytes → Option Argon2Params → SlotError ⊎ KeySlot
  rewrap (inl e) fresh old new_password params = inl e
  rewrap (inr vms) fresh old new_password params = created_or_error (
      create_password_slot fresh old.vault_id old.slot_id new_password vms
        (params_over params old.argon2_params) old.created_utc old.label)

  unfoldable pub rewrap_password_slot :
      Fresh → KeySlot → SecretBytes → SecretBytes → Option Argon2Params → SlotError ⊎ KeySlot
  rewrap_password_slot fresh old old_password new_password params =
      rewrap (unwrap_password_slot old old_password) fresh old new_password params
