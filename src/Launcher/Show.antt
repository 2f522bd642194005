-- ===== src/Launcher/Show.antt =====
-- src/passman/launcher/daemon.py and src/passman/launcher/ash_daemon.py: what the shortcut opens. The
-- other process, the windows and UDisks2 are parameters.
use ash_password_manager.Common.{
  Bool, false, ◌&&◌, ◌||◌, Option, none, some, List, [], ◌∷◌, ◌++◌, Bytes, same_bytes,
  if◌then◌else◌,
}
use ash_password_manager.Common.Chars.{codes}
use ash_password_manager.Usb.Identity.{
  Devices, Registration, UsbState, absent, locked, unlocked_not_mounted, present_not_mounted,
  mounted, identity_mismatch, UsbStatus, evaluate_usb_status,
}
use ash_password_manager.Usb.Lookup.{Udisks, find_connected_vault}

-- `send_command`: no answer if no window is open.
abbrev pub Peer : Type 0
Peer = Bytes → Option Bytes

abbrev pub is_reply : Bytes → Option Bytes → Bool
is_reply expected none = false
is_reply expected (some reply) = same_bytes reply expected

unfoldable pub is_ui_running : Peer → Bool
is_ui_running peer = is_reply (codes "pong") (peer (codes "ping"))

-- The context is given as its JSON text.
unfoldable pub focus_existing : Peer → Option Bytes → Bool
focus_existing peer none = is_reply (codes "ok") (peer (codes "focus"))
focus_existing peer (some context) =
    is_reply (codes "ok") (peer (codes "focus-target " ++ context))
    || is_reply (codes "ok") (peer (codes "focus"))

-- What the set-up wizard hands over.
pub record WizardResult (V : Type 0) : Type 0 where
  pub handle : Option V
  pub record_made : Option Registration
  pub made_at : Option Bytes
  pub discovered_existing : Option (Registration × Bytes)

-- What is on the screen at the end. The manager's window comes with the vault that a login has opened;
-- the old flow opens its own.
pub data Shown (V : Type 0) : Type 0 where
  focused : Shown V
  setup_window : Shown V
  locked_window : Bytes → Shown V
  main_app : Bytes → Registration → Option V → Shown V
  closed : Shown V

abbrev pub locked_reason : UsbState → Bytes
locked_reason identity_mismatch = codes "This USB does not match your registered vault."
locked_reason _ = codes "Insert your USB key to continue."

abbrev pub given_path : Option Bytes → Option Bytes
given_path none = none
given_path (some []) = none
given_path (some (c ∷ cs)) = some (c ∷ cs)

module _ {V : Type 0} where
  abbrev pub ready : Registration → Option Bytes → Shown V
  ready reg none = locked_window (codes "Vault USB is not ready.")
  ready reg (some m) = main_app m reg none

  abbrev pub mounted_on : Registration → Option Bytes → Shown V
  mounted_on reg none = locked_window (codes "Could not mount the vault USB.")
  mounted_on reg (some m) = ready reg (given_path (some m))

  abbrev pub mount_first : (Bytes → Option Bytes) → Registration → Option Bytes → Shown V
  mount_first mount reg none = ready reg none
  mount_first mount reg (some path) = mounted_on reg (mount path)

  abbrev pub show_by : (Bytes → Option Bytes) → Registration → UsbStatus → UsbState → Shown V
  show_by mount reg status absent = locked_window (locked_reason absent)
  show_by mount reg status locked = locked_window (locked_reason locked)
  show_by mount reg status identity_mismatch = locked_window (locked_reason identity_mismatch)
  show_by mount reg status unlocked_not_mounted =
      mount_first mount reg (given_path status.mapped_device_path)
  show_by mount reg status present_not_mounted =
      mount_first mount reg (given_path status.mapped_device_path)
  show_by mount reg status mounted = ready reg (given_path status.mountpoint)

  unfoldable pub show_devices : (Bytes → Option Bytes) → Registration → Option Devices → Shown V
  unfolding evaluate_usb_status
  show_devices mount reg none = locked_window (codes "USB detection unavailable on this system.")
  show_devices mount reg (some devices) =
      let status = evaluate_usb_status devices reg in show_by mount reg status status.state

  unfoldable pub show_registered :
      (Bytes → Option Bytes) → Option Registration → Option Devices → Shown V
  unfolding show_devices
  show_registered mount none devices = setup_window
  show_registered mount (some reg) devices = show_devices mount reg devices

  -- The old flow. No devices: UDisks2 cannot be asked.
  unfoldable pub run_show :
      Peer → Bytes → Option Registration → Option Devices → (Bytes → Option Bytes) → Shown V
  unfolding is_ui_running focus_existing show_registered
  run_show peer context reg devices mount =
      if is_ui_running peer && focus_existing peer (some context)
      then focused
      else show_registered mount reg devices

  abbrev pub logged_in : Registration → Bytes → Option V → Shown V
  logged_in reg m none = closed
  logged_in reg m (some v) = main_app m reg (some v)

  abbrev pub finished : Option V → Option Registration → Option Bytes → Shown V
  finished none reg m = closed
  finished (some v) none m = closed
  finished (some v) (some reg) none = closed
  finished (some v) (some reg) (some m) = main_app m reg (some v)

  -- The login window gives the open vault, or nothing when it is closed.
  module _ (login : Registration → Bytes → Option V) where
    abbrev pub run_login : Registration × Bytes → Shown V
    run_login (reg, m) = logged_in reg m (login reg m)

    abbrev pub after_wizard : WizardResult V → Option (Registration × Bytes) → Shown V
    after_wizard w (some found) = run_login found
    after_wizard w none = finished w.handle w.record_made w.made_at

    abbrev pub run_setup : WizardResult V → Shown V
    run_setup w = after_wizard w w.discovered_existing

    abbrev pub sign_in_to : Option (Registration × Bytes) → Shown V
    sign_in_to none =
        locked_window (codes "Connect a registered ASH Password Manager USB to continue.")
    sign_in_to (some found) = run_login found

    unfoldable pub sign_in : WizardResult V → List (Registration × Udisks) → Shown V
    unfolding find_connected_vault
    sign_in w [] = run_setup w
    sign_in w (v ∷ vs) = sign_in_to (find_connected_vault (v ∷ vs))

    unfoldable pub run_sign_in_or_login :
        Peer → WizardResult V → List (Registration × Udisks) → Shown V
    unfolding is_ui_running sign_in
    run_sign_in_or_login peer w vaults = if is_ui_running peer then focused else sign_in w vaults
