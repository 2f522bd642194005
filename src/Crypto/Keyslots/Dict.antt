-- ===== src/Crypto/Keyslots/Dict.antt =====
-- src/passman/core/crypto/keyslots.py: the JSON form of a key slot, `to_dict` and `from_dict`. Texts
-- are ASCII where they are base64; a text with other characters is no base64 text either.
pub mod Survival
pub mod Tests
use ash_password_manager.Common.{
  ℕ, ◌≤◌, Bool, true, false, not, ◌&&◌, ◌||◌, Option, none, some, List, [], ◌∷◌, Bytes, same_bytes,
  length, leb, ◌==◌, if◌then◌else◌, ◌⊎◌, inl, inr,
}
use ash_password_manager.Common.Base64.{b64encode, b64decode}
use ash_password_manager.Common.Chars.{codes}
use ash_password_manager.Common.Ints.{pos}
use ash_password_manager.Common.Json.{
  Json, Items, Fields, null, integer, text, array, object, nil, cons, end, field, Try, value_error,
  attribute_error, ◌>>=◌, item, get_or, is_object, truth, as_text, each, is_empty_text,
}
use ash_password_manager.Crypto.Aead.{SealedBox}
use ash_password_manager.Crypto.Binding.{
  BindingInput, machine_id, uid, username, root_filesystem_uuid, input_name, default_binding_inputs,
}
use ash_password_manager.Crypto.Kdf.{Argon2Params, default_params}
use ash_password_manager.Crypto.Kdf.Dict.{params_dict, params_from_dict}
use ash_password_manager.Crypto.Keyslots.{
  KeySlot, SlotKind, password_kind, device_kind, kind_name, params_or,
}

abbrev b64 : Bytes → Json
b64 bytes = text (b64encode bytes)

abbrev decoded : Option Bytes → Try Bytes
decoded none = inl value_error
decoded (some bytes) = inr bytes

abbrev pub unb64 : Json → Try Bytes
unb64 (text s) = decoded (b64decode s)
unb64 j = inl attribute_error

abbrev pub input_texts : List BindingInput → Items
input_texts [] = nil
input_texts (i ∷ is) = cons (text (input_name i)) (input_texts is)

abbrev text_or_null : Option Bytes → Json
text_or_null none = null
text_or_null (some s) = text s

abbrev pub credential : KeySlot → SlotKind → Fields
credential slot password_kind = field "argon2" (params_dict (params_or slot.argon2_params)) end
credential slot device_kind =
    field "device_id" (text_or_null slot.device_id)
      (field "binding_inputs" (array (input_texts slot.binding_inputs)) end)

unfoldable pub to_dict : KeySlot → Json
to_dict slot = object (
    field "version" (integer (pos 1)) (
      field "slot_id" (text slot.slot_id) (
        field "kind" (text (kind_name slot.kind)) (
          field "vault_id" (text slot.vault_id) (
            field "salt" (b64 slot.salt) (
              field "nonce" (b64 slot.box.nonce) (
                field "ciphertext" (b64 slot.box.ciphertext) (
                  field "tag" (b64 slot.box.tag) (
                    field "created_utc" (text slot.created_utc)
                      (field "label" (text slot.label) (credential slot slot.kind)))))))))))

-- `type(version) is int` and the one known version; another number is a SlotFormatError too.
abbrev pub known_version : Json → Try (Unit {0})
known_version (integer (pos n)) = if n == 1 then inr tt else inl value_error
known_version j = inl value_error

abbrev pub kind_of : Json → Try SlotKind
kind_of (text s) =
    if same_bytes s (codes "password")
    then inr password_kind
    else if same_bytes s (codes "device")
    then inr device_kind
    else inl value_error
kind_of j = inl value_error

abbrev pub input_of : Json → Try BindingInput
input_of (text s) =
    if same_bytes s (codes "machine_id")
    then inr machine_id
    else if same_bytes s (codes "uid")
    then inr uid
    else if same_bytes s (codes "username")
    then inr username
    else if same_bytes s (codes "root_filesystem_uuid")
    then inr root_filesystem_uuid
    else inl value_error
input_of j = inl value_error

abbrev pub inputs_of : Items → Try (List BindingInput)
inputs_of nil = inr []
inputs_of (cons j js) = do i ← input_of j; is ← inputs_of js; inr (i ∷ is)

abbrev pub params_of : Json → Try Argon2Params
params_of j = if truth j then params_from_dict j else inr default_params

abbrev pub require : Bool → Try (Unit {0})
require true = inr tt
require false = inl value_error

abbrev pub is_sized : Bytes → SealedBox → Bool
is_sized salt box =
    leb 16 (length salt)
    && leb (length salt) 64
    && length box.nonce == 12
    && length box.tag == 16
    && length box.ciphertext == 32

abbrev pub with_password : KeySlot → Argon2Params → KeySlot
with_password slot p = record slot {
  kind = password_kind;
  argon2_params = some p;
  device_id = none;
  binding_inputs = default_binding_inputs;
}

abbrev pub with_device : KeySlot → Bytes → List BindingInput → KeySlot
with_device slot id inputs = record slot {
  kind = device_kind;
  argon2_params = none;
  device_id = some id;
  binding_inputs = inputs;
}

abbrev pub bare_slot : SlotKind → Bytes → Bytes → Bytes → SealedBox → Bytes → Bytes → KeySlot
bare_slot kind slot_id vault_id salt box created label = record {
  slot_id = slot_id;
  kind = kind;
  vault_id = vault_id;
  salt = salt;
  box = box;
  created_utc = created;
  label = label;
  argon2_params = none;
  device_id = none;
  binding_inputs = default_binding_inputs;
}

module _ (repr : Json → Bytes) where
  abbrev pub credential_of : Json → KeySlot → SlotKind → Try KeySlot
  credential_of d slot password_kind = do
    raw ← get_or "argon2" null d
    p ← params_of raw
    inr (with_password slot p)
  credential_of d slot device_kind = do
    id ← item "device_id" d
    raw ← get_or "binding_inputs" (array (input_texts default_binding_inputs)) d
    js ← each raw
    inputs ← inputs_of js
    inr (with_device slot (as_text repr id) inputs)

  abbrev pub sealed_of : Json → SlotKind → Bytes → SealedBox → Try KeySlot
  sealed_of d kind salt box = do
    slot_id ← item "slot_id" d
    vault_id ← item "vault_id" d
    created ← get_or "created_utc" (text []) d
    label ← get_or "label" (text []) d
    let slot =
        bare_slot kind (as_text repr slot_id) (as_text repr vault_id) salt box
          (as_text repr created) (as_text repr label)
    _ ← require (not (is_empty_text slot.vault_id || is_empty_text slot.slot_id))
    _ ← require (is_sized salt box)
    credential_of d slot kind

  -- Every exception is a SlotFormatError for the caller.
  unfoldable pub from_dict : Json → Try KeySlot
  from_dict d = do
    _ ← require (is_object d)
    version ← item "version" d
    _ ← known_version version
    kind_text ← item "kind" d
    kind ← kind_of kind_text
    nonce_text ← item "nonce" d
    nonce ← unb64 nonce_text
    ciphertext_text ← item "ciphertext" d
    ciphertext ← unb64 ciphertext_text
    tag_text ← item "tag" d
    tag ← unb64 tag_text
    salt_text ← item "salt" d
    salt ← unb64 salt_text
    sealed_of d kind salt (record { nonce = nonce; ciphertext = ciphertext; tag = tag })
