-- ===== src/Launcher/Ready.antt =====
-- src/passman/launcher/daemon.py: on which drive the old flow opens.
use ash_password_manager.Common.{
  Bool, true, false, ◌&&◌, Option, none, some, [], ◌∷◌, Bytes, same_bytes_refl, ◌≡◌, refl, sym, ap,
  ◌∙◌, subst, ◌⊎◌, inl, inr, arith, if◌then◌else◌,
}
use ash_password_manager.Usb.Identity.{
  Devices, Registration, UsbState, absent, locked, unlocked_not_mounted, present_not_mounted,
  mounted, identity_mismatch, UsbStatus, evaluate_usb_status, should_lock_for_usb_state,
  should_lock_for_usb_removal, is_text,
}
use ash_password_manager.Usb.Identity.Trust.{IsGenuine, open_only_if}
use ash_password_manager.Usb.Identity.Mapped.{IsMapped, evaluate_usb_status-IsMapped}
use ash_password_manager.Launcher.Show.{
  Peer, is_ui_running, focus_existing, focused, main_app, given_path, ready, mounted_on,
  mount_first, show_by, show_devices, show_registered, run_show,
}
use ash_password_manager.Launcher.Opening.{main_app-injective}

given_path-some : (o : Option Bytes) (m : Bytes) → given_path o ≡ some m → o ≡ some m
given_path-some none m h = absurd (cc h)
given_path-some (some []) m h = absurd (cc h)
given_path-some (some (c ∷ cs)) m h = h

stays :
    (s : UsbStatus) (m : Bytes)
    → s.state ≡ mounted
    → s.mountpoint ≡ some m
    → should_lock_for_usb_removal s m [] ≡ false
unfolding should_lock_for_usb_removal should_lock_for_usb_state
stays s m state at = ground (arith, subst (λ o. is_text o m ≡ true) (sym at) (same_bytes_refl m))

module _ (mount : Bytes → Option Bytes) where
  -- The mountpoint is that of the registered drive, or where its device has just been mounted.
  abbrev pub IsReady : Devices → Registration → Bytes → Type 0
  IsReady devices reg m =
      IsGenuine devices reg.filesystem_uuid m reg.luks_uuid
      ⊎ ((path : Bytes) × (mount path ≡ some m)
          × IsMapped devices reg.filesystem_uuid path reg.luks_uuid)

  -- The vault that the window opens is the one of the registration, on a drive that carries it.
  abbrev pub IsPresent : Option Registration → Option Devices → Bytes → Registration → Type 0
  IsPresent none devices m r = ⊥
  IsPresent (some reg) none m r = ⊥
  IsPresent (some reg) (some devices) m r = (reg ≡ r) × IsReady devices reg m

  mounted-IsReady :
      (devices : Devices) (reg : Registration) (m : Bytes)
      → (evaluate_usb_status devices reg).state ≡ mounted
      → (evaluate_usb_status devices reg).mountpoint ≡ some m
      → IsReady devices reg m
  mounted-IsReady devices reg m state at =
      elim (open_only_if devices reg m [] (stays (evaluate_usb_status devices reg) m state at)) [
        | inl keeps ↦ absurd (cc keeps)
        | inr genuine ↦ inl genuine
      ]

module _ {V : Type 0} (mount : Bytes → Option Bytes) where
  ready-main_app :
      (reg r : Registration) (o : Option Bytes) (m : Bytes) (h : Option V)
      → ready reg o ≡ main_app m r h
      → (o ≡ some m) × (reg ≡ r) × (h ≡ none)
  ready-main_app reg r none m h e = absurd (cc e)
  ready-main_app reg r (some x) m h e =
      let (at, same, opened) = main_app-injective x m reg r none h e in
      (ap some at, same, sym opened)

  mount_first-main_app :
      (reg r : Registration) (o : Option Bytes) (m : Bytes) (h : Option V)
      → mount_first mount reg (given_path o) ≡ main_app m r h
      → (reg ≡ r) × (h ≡ none) × ((path : Bytes) × (mount path ≡ some m) × (o ≡ some path))
  mount_first-main_app reg r none m h e = absurd (cc e)
  mount_first-main_app reg r (some []) m h e = absurd (cc e)
  mount_first-main_app reg r (some (c ∷ cs)) m h e = by_mount (mount (c ∷ cs)) refl e
    where
      by_mount :
          (o : Option Bytes)
          → mount (c ∷ cs) ≡ o
          → mounted_on reg o ≡ main_app m r h
          → (reg ≡ r)
            × (h ≡ none)
            × ((path : Bytes) × (mount path ≡ some m)
                × (◌≡◌ {A = Option Bytes} (some (c ∷ cs)) (some path)))
      by_mount none at k = absurd (cc k)
      by_mount (some x) at k =
          let (there, same, opened) = ready-main_app reg r (given_path (some x)) m h k in
          (same, opened, ((c ∷ cs), at ∙ given_path-some (some x) m there, refl))

  show_by-main_app :
      (devices : Devices) (reg : Registration) (st : UsbState) (r : Registration) (m : Bytes)
      (h : Option V)
      → (evaluate_usb_status devices reg).state ≡ st
      → show_by mount reg (evaluate_usb_status devices reg) st ≡ main_app m r h
      → (reg ≡ r) × (h ≡ none) × IsReady mount devices reg m
  show_by-main_app ds reg absent r m h s e = absurd (cc e)
  show_by-main_app ds reg locked r m h s e = absurd (cc e)
  show_by-main_app ds reg identity_mismatch r m h s e = absurd (cc e)
  show_by-main_app ds reg unlocked_not_mounted r m h s e =
      let (same, opened, (path, at, mapped)) =
        mount_first-main_app reg r (evaluate_usb_status ds reg).mapped_device_path m h e in
      (same, opened, inr (path, at, evaluate_usb_status-IsMapped ds reg path mapped))
  show_by-main_app ds reg present_not_mounted r m h s e =
      let (same, opened, (path, at, mapped)) =
        mount_first-main_app reg r (evaluate_usb_status ds reg).mapped_device_path m h e in
      (same, opened, inr (path, at, evaluate_usb_status-IsMapped ds reg path mapped))
  show_by-main_app ds reg mounted r m h s e =
      let (there, same, opened) =
        ready-main_app reg r (given_path (evaluate_usb_status ds reg).mountpoint) m h e in
      (
        same,
        opened,
        mounted-IsReady mount ds reg m s
            (given_path-some (evaluate_usb_status ds reg).mountpoint m there),
      )

  show_registered-main_app :
      (o : Option Registration) (devices : Option Devices) (m : Bytes) (r : Registration)
      (h : Option V)
      → show_registered mount o devices ≡ main_app m r h
      → (h ≡ none) × IsPresent mount o devices m r
  unfolding show_registered show_devices
  show_registered-main_app none devices m r h e = absurd (cc e)
  show_registered-main_app (some reg) none m r h e = absurd (cc e)
  show_registered-main_app (some reg) (some ds) m r h e =
      let (same, opened, is_ready) =
        show_by-main_app ds reg (evaluate_usb_status ds reg).state r m h refl e in
      (opened, (same, is_ready))

  -- The old flow opens the manager's window only for the registered vault, and only if the block devices
  -- show the registered identifiers together: mounted at the mountpoint of the window, or on the device
  -- that was then mounted there. So an absent, locked or wrong drive opens no window but the message.
  pub run_show-main_app :
      (peer : Peer) (context : Bytes) (o : Option Registration) (devices : Option Devices)
      (m : Bytes) (r : Registration) (h : Option V)
      → run_show peer context o devices mount ≡ main_app m r h
      → (h ≡ none) × IsPresent mount o devices m r
  unfolding run_show
  run_show-main_app peer context o devices m r h e =
      by_peer (is_ui_running peer && focus_existing peer (some context)) e
    where
      by_peer :
          (b : Bool)
          → (if b then focused else show_registered mount o devices) ≡ main_app m r h
          → (h ≡ none) × IsPresent mount o devices m r
      by_peer true k = absurd (cc k)
      by_peer false k = show_registered-main_app o devices m r h k
