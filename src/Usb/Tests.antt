-- ===== src/Usb/Tests.antt =====
-- A drive with a LUKS container, at concrete inputs.
use ash_password_manager.Common.{false, none, some, [], ◌∷◌, same_bytes, ◌≡◌, refl, ◌⊎◌}
use ash_password_manager.Common.Chars.{codes}
use ash_password_manager.Usb.Identity.{
  Block, device, Devices, no_devices, more_devices, Registration, walk, walk_all, find_luks_device,
  find_unlocked_child, evaluate_usb_status, should_lock_for_usb_state, should_lock_for_usb_removal,
}
use ash_password_manager.Usb.Identity.Trust.{IsGenuine, open_only_if}
use ash_password_manager.Usb.Lookup.{Udisks, find_and_mount_vault}
use ash_password_manager.Usb.Lookup.Narrow.{IsNarrow, find_and_mount_vault-IsNarrow}

abbrev inner : Block
inner = record {
  name = [];
  path = codes "/dev/dm-0";
  uuid = some (codes "fs");
  fstype = some (codes "ext4");
  kind = codes "crypt";
  mountpoint = some (codes "/mnt");
}

abbrev outer : Block
outer = record {
  name = [];
  path = codes "/dev/sdb1";
  uuid = some (codes "luks");
  fstype = some (codes "crypto_LUKS");
  kind = codes "part";
  mountpoint = none;
}

abbrev drives : Devices
drives = more_devices (device outer (more_devices (device inner no_devices) no_devices)) no_devices

abbrev registered : Registration
registered = record { luks_uuid = some (codes "luks"); filesystem_uuid = codes "fs" }

open_only_if_example :
    (codes "lock_immediately" ≡ codes "keep_unlocked")
    ⊎ IsGenuine drives (codes "fs") (codes "/mnt") (some (codes "luks"))
unfolding should_lock_for_usb_removal should_lock_for_usb_state evaluate_usb_status find_luks_device
    find_unlocked_child walk walk_all same_bytes
open_only_if_example = open_only_if drives registered (codes "/mnt") (codes "lock_immediately") refl

abbrev udisks : Udisks
udisks = record {
  blocks =
      record {
        object_path = codes "/b1";
        device = codes "/dev/sdb1";
        id_uuid = codes "luks";
        id_usage = codes "crypto";
        crypto_backing_device = none;
        mountpoints = [];
      }
      ∷ [];
  unlocks = λ d. false;
  blocks_after = [];
  mounts = λ d. none;
}

find_and_mount_vault-IsNarrow_example :
    IsNarrow udisks registered (find_and_mount_vault udisks registered)
find_and_mount_vault-IsNarrow_example = find_and_mount_vault-IsNarrow udisks registered
