-- ===== src/Application.antt =====
-- src/passman/ui/app.py: the process that holds an open vault, without what its windows draw. What
-- json.loads and json.dumps give, the vault of the old flow, and what UDisks2 and logind say are
-- parameters. Callbacks given to `GLib.idle_add` wait in `pending`, the oldest first.
pub mod Polls
pub mod Closing
pub mod Control
pub mod History
pub mod Tests
use ash_password_manager.Common.{
  ℕ, ◌==◌, Bool, true, false, not, ◌&&◌, ◌||◌, Option, none, some, List, [], ◌∷◌, ◌++◌, Bytes,
  same_bytes, if◌then◌else◌,
}
use ash_password_manager.Common.Chars.{codes, strip, has_prefix}
use ash_password_manager.Common.Json.{Json, null, text, object, Fields, end, field, get}
use ash_password_manager.Auth.Detection.{DetectedContext}
use ash_password_manager.Security.Clipboard.{Desk, Tools}
use ash_password_manager.Security.Session.{
  Session, SessionState, locked, unlocked, LockReason, usb_removed, screen_locked, suspended,
  inactivity_timeout, manual_close, is_locked, is_unlocked, new_session, unlock, lock,
  check_inactivity,
}
use ash_password_manager.Usb.Identity.{
  Devices, Registration, evaluate_usb_status, should_lock_for_usb_removal,
}

-- What is read of the settings.
pub record Policy : Type 0 where
  pub lock_on_usb_removal : Bool
  pub usb_removal_action : Bytes
  pub lock_on_screen_lock : Bool
  pub lock_on_suspend : Bool

pub data Callback : Type 0 where
  lock_for : LockReason → Callback
  present_window : Callback
  update_and_present : DetectedContext → Callback
  teardown_after_lock : Callback

pub record App (V : Type 0) : Type 0 where
  pub mountpoint : Bytes
  pub registration : Registration
  pub policy : Policy
  pub session : Session V
  pub detected_context : DetectedContext
  pub pending : List Callback
  pub window : Bool
  pub control : Bool
  pub watching : Bool
  pub running : Bool

-- The callback that `set_on_lock` gets is the one of the teardown.
abbrev pub new_app :
    {V : Type 0} → Bytes → Registration → Policy → DetectedContext → ℕ → Option Desk → App V
new_app {V} mountpoint registration policy context timeout clipboard = record {
  mountpoint = mountpoint;
  registration = registration;
  policy = policy;
  session = new_session V timeout clipboard true;
  detected_context = context;
  pending = [];
  window = false;
  control = false;
  watching = false;
  running = false;
}

-- The window that asks is the manager's own.
abbrev pub is_own : Option Bytes → Bool
unfolding has_prefix
is_own none = false
is_own (some id) = has_prefix (codes "dev.ash.PasswordManager") id

module _ {V : Type 0} where
  abbrev pub idle_add : Callback → App V → App V
  idle_add c app = record app { pending = app.pending ++ c ∷ [] }

  -- The session's callback, which asks for the teardown.
  abbrev pub on_session_locked : Bool → App V → App V
  on_session_locked true app = idle_add teardown_after_lock app
  on_session_locked false app = app

  unfoldable pub teardown : App V → App V
  teardown app = record app { window = false; control = false; watching = false; running = false }

  -- The vault that the login flow has opened, else what opening the file of the old flow gives.
  unfoldable pub open_vault_or_fail : ℕ → Option V → Option V → App V → App V
  open_vault_or_fail now (some v) old_flow app = record app { session = unlock now v app.session }
  open_vault_or_fail now none (some v) app = record app { session = unlock now v app.session }
  open_vault_or_fail now none none app = app

  unfoldable pub start_logind_watcher : Bool → App V → App V
  start_logind_watcher available app =
      if (app.policy.lock_on_screen_lock || app.policy.lock_on_suspend) && available
      then record app { watching = true }
      else app

  unfoldable pub do_startup : ℕ → Option V → Option V → Bool → App V → App V
  unfolding open_vault_or_fail start_logind_watcher
  do_startup now given_vault old_flow available app =
      start_logind_watcher available (record (open_vault_or_fail now given_vault old_flow app) {
        control = true;
        running = true;
      })

  unfoldable pub do_activate : App V → App V
  do_activate app = record app { window = true }

  -- PrepareForSleep, and a change of LockedHint. Only a watcher hears them.
  unfoldable pub on_logind_sleep : Bool → App V → App V
  on_logind_sleep going_to_sleep app =
      if app.watching && going_to_sleep && app.policy.lock_on_suspend
      then idle_add (lock_for suspended) app
      else app

  unfoldable pub on_logind_screen_locked : Option Bool → App V → App V
  on_logind_screen_locked (some true) app =
      if app.watching && app.policy.lock_on_screen_lock
      then idle_add (lock_for screen_locked) app
      else app
  on_logind_screen_locked hint app = app

  module _ (sha256 : Bytes → Bytes) where
    -- `session.lock`, with the callback that it calls.
    unfoldable pub lock_session : Tools → LockReason → App V → App V
    unfolding is_unlocked
    lock_session tools reason app =
        on_session_locked (is_unlocked app.session)
          (record app { session = lock sha256 tools reason app.session })

    unfoldable pub close_by_hand : Tools → App V → App V
    unfolding lock_session
    close_by_hand tools app = lock_session tools manual_close app

    -- No devices: UDisks2 cannot be asked.
    unfoldable pub check_usb_still_present : Tools → Option Devices → App V → App V
    unfolding lock_session
    check_usb_still_present tools none app = lock_session tools usb_removed app
    check_usb_still_present tools (some devices) app =
        if should_lock_for_usb_removal (evaluate_usb_status devices app.registration) app.mountpoint
          app.policy.usb_removal_action
        then lock_session tools usb_removed app
        else app

    abbrev pub idle_checked : Bool × Session V → App V → App V
    idle_checked (told, s) app = on_session_locked told (record app { session = s })

    abbrev pub usb_checked : Tools → Option Devices → App V → App V
    unfolding check_usb_still_present
    usb_checked tools devices app =
        if app.policy.lock_on_usb_removal then check_usb_still_present tools devices app else app

    -- The result says whether the timer goes on.
    unfoldable pub tick : Tools → ℕ → Option Devices → App V → Bool × App V
    unfolding is_unlocked check_inactivity
    tick tools now devices app = if not (is_unlocked app.session) then (false, app) else (
      true,
      usb_checked tools devices (idle_checked (check_inactivity sha256 tools now app.session) app),
    )

    -- The main loop runs the oldest callback that waits.
    abbrev pub run_callback : Tools → Callback → App V → App V
    unfolding lock_session teardown
    run_callback tools (lock_for reason) app = lock_session tools reason app
    run_callback tools present_window app = app
    run_callback tools (update_and_present context) app =
        if is_own context.app_id then app else record app { detected_context = context }
    run_callback tools teardown_after_lock app = teardown app

    abbrev pub run_first : Tools → List Callback → App V → App V
    run_first tools [] app = app
    run_first tools (c ∷ cs) app = run_callback tools c (record app { pending = cs })

    unfoldable pub run_idle : Tools → App V → App V
    run_idle tools app = run_first tools app.pending app
