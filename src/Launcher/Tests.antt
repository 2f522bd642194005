-- ===== src/Launcher/Tests.antt =====
-- The agent and the shortcut at concrete inputs.
use ash_password_manager.Common.{
  ℕ, false, Option, none, some, List, [], ◌∷◌, Bytes, same_bytes, ◌≡◌, ◌↔◌, refl,
}
use ash_password_manager.Common.Chars.{codes}
use ash_password_manager.Usb.Identity.{
  device, Devices, no_devices, more_devices, Registration, walk, walk_all, evaluate_usb_status,
  evaluate_plain_filesystem_status, find_filesystem_device,
}
use ash_password_manager.Usb.Lookup.{
  RawBlockInfo, Udisks, find_and_mount_vault, find_connected_vault,
}
use ash_password_manager.Launcher.Agent.{
  Poll, unavailable, sees, poll_once, handle_blocks, take_over, compute_newly_connected_vaults,
}
use ash_password_manager.Launcher.Show.{
  main_app, WizardResult, is_ui_running, focus_existing, run_show, show_registered, show_devices,
  sign_in, run_sign_in_or_login,
}
use ash_password_manager.Launcher.Opening.{IsSource, run_sign_in_or_login-main_app_iff}
use ash_password_manager.Launcher.Ready.{IsPresent, run_show-main_app}
use ash_password_manager.Launcher.Edges.{sign_ins, insertions, sign_ins_lem}

abbrev stick : RawBlockInfo
stick = record {
  object_path = codes "/b1";
  device = codes "/dev/sdb1";
  id_uuid = codes "fs";
  id_usage = codes "filesystem";
  crypto_backing_device = none;
  mountpoints = codes "/mnt" ∷ [];
}

abbrev plugged : Poll
plugged = sees (
    record {
      vault_id = codes "v";
      registration = record { luks_uuid = none; filesystem_uuid = codes "fs" };
      answers = some (record {
        blocks = stick ∷ [];
        unlocks = λ d. false;
        blocks_after = [];
        mounts = λ d. none;
      });
    }
    ∷ [])

abbrev empty : Poll
empty = sees (
    record {
      vault_id = codes "v";
      registration = record { luks_uuid = none; filesystem_uuid = codes "fs" };
      answers =
          some
            (record { blocks = []; unlocks = λ d. false; blocks_after = []; mounts = λ d. none });
    }
    ∷ [])

two_insertions : sign_ins (codes "v") (plugged ∷ empty ∷ unavailable ∷ plugged ∷ plugged ∷ []) ≡ 2
unfolding poll_once handle_blocks take_over compute_newly_connected_vaults same_bytes
    find_and_mount_vault
two_insertions = refl

sign_ins_lem_example :
    sign_ins (codes "v") (plugged ∷ unavailable ∷ plugged ∷ [])
    ≡ insertions (codes "v") (plugged ∷ unavailable ∷ plugged ∷ [])
sign_ins_lem_example = sign_ins_lem (codes "v") (plugged ∷ unavailable ∷ plugged ∷ [])

abbrev on_stick : Registration
on_stick = record { luks_uuid = none; filesystem_uuid = codes "fs" }

abbrev nobody : Bytes → Option Bytes
nobody command = none

abbrev unused : WizardResult ℕ
unused = record { handle = none; record_made = none; made_at = none; discovered_existing = none }

abbrev vaults : List (Registration × Udisks)
vaults =
    (
      on_stick,
      record { blocks = stick ∷ []; unlocks = λ d. false; blocks_after = []; mounts = nobody },
    )
    ∷ []

abbrev login : Registration → Bytes → Option ℕ
login reg m = some 9

run_sign_in_or_login-main_app_iff_example :
    (run_sign_in_or_login login nobody unused vaults ≡ main_app (codes "/mnt") on_stick (some 9))
    ↔ ((is_ui_running nobody ≡ false)
        × ((v : ℕ) × (◌≡◌ {A = Option ℕ} (some 9) (some v))
            × IsSource login unused vaults (codes "/mnt") on_stick v))
run_sign_in_or_login-main_app_iff_example =
    run_sign_in_or_login-main_app_iff login nobody unused vaults (codes "/mnt") on_stick (some 9)

signs_in :
    run_sign_in_or_login login nobody unused vaults ≡ main_app (codes "/mnt") on_stick (some 9)
unfolding run_sign_in_or_login is_ui_running sign_in find_connected_vault find_and_mount_vault
    same_bytes
signs_in = refl

abbrev drives : Devices
drives =
    more_devices
      (device
        (record {
          name = [];
          path = codes "/dev/sdb1";
          uuid = some (codes "fs");
          fstype = some (codes "ext4");
          kind = codes "part";
          mountpoint = none;
        })
        no_devices)
      no_devices

abbrev mount : Bytes → Option Bytes
mount path = some (codes "/mnt")

run_show-main_app_example :
    (◌≡◌ {A = Option ℕ} none none)
    × IsPresent mount (some on_stick) (some drives) (codes "/mnt") on_stick
unfolding run_show is_ui_running focus_existing show_registered show_devices evaluate_usb_status
    evaluate_plain_filesystem_status find_filesystem_device walk walk_all same_bytes
run_show-main_app_example =
    run_show-main_app mount nobody [] (some on_stick) (some drives) (codes "/mnt") on_stick none
      refl
