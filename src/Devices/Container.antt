-- ===== src/Devices/Container.antt =====
-- src/passman/core/devices/registry.py and src/passman/core/vaults/layout.py: the key-slot files
-- and `devices.json` of a vault. The integrity manifest, and errors of the file system on writing,
-- are not modelled.
use ash_password_manager.Common.{
  Bool, true, false, not, ◌||◌, Option, none, some, List, [], ◌∷◌, Bytes, same_bytes, elem,
  if◌then◌else◌, ◌⊎◌, inl, inr,
}
use ash_password_manager.Common.Chars.{codes}
use ash_password_manager.Crypto.Keyslots.{KeySlot, SlotError, format_error}

pub record DeviceRecord : Type 0 where
  pub device_id : Bytes
  pub label : Bytes
  pub tier : Bytes
  pub registered_utc : Bytes
  pub last_seen_utc : Option Bytes
  pub revoked_utc : Option Bytes
  pub os_release : Bytes

unfoldable pub is_revoked : DeviceRecord → Bool
is_revoked r = elim r.revoked_utc [ none ↦ false | some at ↦ true ]

-- What reading a slot file gives: FileNotFoundError, another OSError, no JSON, no key slot, or a slot.
pub data SlotFile : Type 0 where
  missing unreadable corrupt malformed : SlotFile
  holds : KeySlot → SlotFile

pub record Container : Type 0 where
  pub slots : Bytes → SlotFile
  pub devices : List DeviceRecord

pub data Failure : Type 0 where
  registry_error vault_unreadable no_local_key device_revoked local_key_error path_error : Failure
  slot_error : SlotError → Failure

abbrev is_nil : Bytes → Bool
is_nil [] = true
is_nil (c ∷ cs) = false

-- The check of `keyslot_path`, which else raises PathTraversalError.
unfoldable pub is_slot_id : Bytes → Bool
is_slot_id id =
    not (is_nil id || elem b'/' id || same_bytes id (codes ".") || same_bytes id (codes ".."))

abbrev pub put : Bytes → SlotFile → (Bytes → SlotFile) → Bytes → SlotFile
put id file slots other = if same_bytes other id then file else slots other

abbrev pub content : SlotFile → Failure ⊎ KeySlot
content missing = inl registry_error
content unreadable = inl vault_unreadable
content corrupt = inl registry_error
content malformed = inl (slot_error format_error)
content (holds slot) = inr slot

unfoldable pub read_slot : Container → Bytes → Failure ⊎ KeySlot
read_slot c id = if not (is_slot_id id) then inl path_error else content (c.slots id)

unfoldable pub write_slot : Container → KeySlot → Failure ⊎ Container
write_slot c slot =
    if not (is_slot_id slot.slot_id)
    then inl path_error
    else inr (record c { slots = put slot.slot_id (holds slot) c.slots })

-- `{r.device_id: r for r in records}`: a later record takes the place of an earlier one.
abbrev pub insert : DeviceRecord → List DeviceRecord → List DeviceRecord
insert r [] = r ∷ []
insert r (s ∷ rs) = if same_bytes s.device_id r.device_id then r ∷ rs else s ∷ insert r rs

abbrev pub collect : List DeviceRecord → List DeviceRecord → List DeviceRecord
collect values [] = values
collect values (r ∷ rs) = collect (insert r values) rs

-- `records.get(device_id)`: the last one with the id.
abbrev pub latest_or : Option DeviceRecord → Bytes → List DeviceRecord → Option DeviceRecord
latest_or found id [] = found
latest_or found id (r ∷ rs) = latest_or (if same_bytes r.device_id id then some r else found) id rs
