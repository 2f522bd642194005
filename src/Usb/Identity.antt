-- ===== src/Usb/Identity.antt =====
-- src/passman/integration/usb/identity.py: the block devices, and what they say of a registered
-- vault.
pub mod Mapped
pub mod Trust
use ash_password_manager.Common.{
  Bool, true, false, not, ◌&&◌, ◌||◌, Option, none, some, List, [], ◌∷◌, ◌++◌, Bytes, same_bytes,
  if◌then◌else◌,
}
use ash_password_manager.Common.Chars.{codes}

pub record Block : Type 0 where
  pub name : Bytes
  pub path : Bytes
  pub uuid : Option Bytes
  pub fstype : Option Bytes
  pub kind : Bytes
  pub mountpoint : Option Bytes

mutual
  pub data BlockDevice : Type 0 where
    device : Block → Devices → BlockDevice

  pub data Devices : Type 0 where
    no_devices : Devices
    more_devices : BlockDevice → Devices → Devices

-- What is read of a registration.
pub record Registration : Type 0 where
  pub luks_uuid : Option Bytes
  pub filesystem_uuid : Bytes

abbrev pub block_of : BlockDevice → Block
block_of (device b children) = b

abbrev pub children_of : BlockDevice → Devices
children_of (device b children) = children

-- A device, then its children with theirs, in order.
unfoldable mutual
  pub walk : BlockDevice → List BlockDevice
  walk (device b children) = device b children ∷ walk_all children

  pub walk_all : Devices → List BlockDevice
  walk_all no_devices = []
  walk_all (more_devices d ds) = walk d ++ walk_all ds

abbrev pub members : Devices → List BlockDevice
members no_devices = []
members (more_devices d ds) = d ∷ members ds

abbrev pub is_text : Option Bytes → Bytes → Bool
is_text none t = false
is_text (some s) t = same_bytes s t

abbrev pub is_luks : BlockDevice → Bool
is_luks d = is_text (block_of d).fstype (codes "crypto_LUKS")

abbrev pub find : (BlockDevice → Bool) → List BlockDevice → Option BlockDevice
find p [] = none
find p (d ∷ ds) = if p d then some d else find p ds

unfoldable pub find_luks_device : Devices → Bytes → Option BlockDevice
unfolding walk_all
find_luks_device devices uuid =
    find (λ d. is_luks d && is_text (block_of d).uuid uuid) (walk_all devices)

unfoldable pub find_unlocked_child : BlockDevice → Bytes → Option BlockDevice
find_unlocked_child outer uuid =
    find (λ d. same_bytes (block_of d).kind (codes "crypt") && is_text (block_of d).uuid uuid)
      (members (children_of outer))

unfoldable pub find_filesystem_device : Devices → Bytes → Option BlockDevice
unfolding walk_all
find_filesystem_device devices uuid =
    find (λ d. not (is_luks d) && is_text (block_of d).uuid uuid) (walk_all devices)

pub data UsbState : Type 0 where
  absent locked unlocked_not_mounted present_not_mounted mounted identity_mismatch : UsbState

pub record UsbStatus : Type 0 where
  pub state : UsbState
  pub mountpoint : Option Bytes
  pub mapped_device_path : Option Bytes
  pub outer_device_path : Option Bytes

abbrev bare : UsbState → UsbStatus
bare s = record {
  state = s;
  mountpoint = none;
  mapped_device_path = none;
  outer_device_path = none;
}

-- `bool(text)` of a text that may be None.
abbrev pub given : Option Bytes → Bool
given none = false
given (some []) = false
given (some (c ∷ cs)) = true

abbrev plain_status : Option BlockDevice → UsbStatus
plain_status none = bare absent
plain_status (some d) =
    if given (block_of d).mountpoint
    then record (bare mounted) {
      mountpoint = (block_of d).mountpoint;
      mapped_device_path = some (block_of d).path;
    }
    else record (bare present_not_mounted) { mapped_device_path = some (block_of d).path }

unfoldable pub evaluate_plain_filesystem_status : Devices → Bytes → UsbStatus
evaluate_plain_filesystem_status devices uuid = plain_status (find_filesystem_device devices uuid)

abbrev has_children : Devices → Bool
has_children no_devices = false
has_children (more_devices d ds) = true

abbrev inner_status : BlockDevice → Option BlockDevice → UsbStatus
inner_status outer none =
    if has_children (children_of outer)
    then record (bare identity_mismatch) { outer_device_path = some (block_of outer).path }
    else record (bare locked) { outer_device_path = some (block_of outer).path }
inner_status outer (some d) =
    if given (block_of d).mountpoint
    then record {
      state = mounted;
      mountpoint = (block_of d).mountpoint;
      mapped_device_path = some (block_of d).path;
      outer_device_path = some (block_of outer).path;
    }
    else record (bare unlocked_not_mounted) {
      mapped_device_path = some (block_of d).path;
      outer_device_path = some (block_of outer).path;
    }

abbrev luks_status : Bytes → Option BlockDevice → UsbStatus
luks_status filesystem_uuid none = bare absent
luks_status filesystem_uuid (some outer) =
    inner_status outer (find_unlocked_child outer filesystem_uuid)

abbrev status_by : Devices → Registration → Option Bytes → UsbStatus
status_by devices reg (some (c ∷ cs)) =
    luks_status reg.filesystem_uuid (find_luks_device devices (c ∷ cs))
status_by devices reg _ = evaluate_plain_filesystem_status devices reg.filesystem_uuid

unfoldable pub evaluate_usb_status : Devices → Registration → UsbStatus
evaluate_usb_status devices reg = status_by devices reg reg.luks_uuid

abbrev is_mounted : UsbState → Bool
is_mounted mounted = true
is_mounted _ = false

unfoldable pub should_lock_for_usb_state : UsbStatus → Bytes → Bool
should_lock_for_usb_state status expected =
    if not (is_mounted status.state) then true else not (is_text status.mountpoint expected)

unfoldable pub should_lock_for_usb_removal : UsbStatus → Bytes → Bytes → Bool
should_lock_for_usb_removal status expected action =
    if same_bytes action (codes "keep_unlocked")
    then false
    else should_lock_for_usb_state status expected
