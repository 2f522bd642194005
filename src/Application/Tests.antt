-- ===== src/Application/Tests.antt =====
-- An application with an open vault, at concrete inputs.
use ash_password_manager.Common.{ℕ, true, false, Option, none, some, [], Bytes, ◌≡◌, refl, ◌⊎◌}
use ash_password_manager.Common.Chars.{codes}
use ash_password_manager.Common.Json.{Json}
use ash_password_manager.Auth.Detection.{DetectedContext}
use ash_password_manager.Security.Clipboard.{Tools}
use ash_password_manager.Security.Session.{
  unlocked, manual_close, lock, unlock, touch_activity, is_unlocked, new_session, check_inactivity,
  seconds_since_activity,
}
use ash_password_manager.Usb.Identity.{Registration}
use ash_password_manager.Application.{
  App, Policy, new_app, do_startup, start_logind_watcher, open_vault_or_fail, lock_session,
  usb_checked, tick,
}
use ash_password_manager.Application.Control.{serve}
use ash_password_manager.Application.Polls.{IsAllowed, IsActive, tick_lem}
use ash_password_manager.Application.Closing.{IsGuarded, IsClosed}
use ash_password_manager.Application.History.{
  starts, locks, serves, drain, Life, Life-IsGuarded, Life-Closes,
}

abbrev tools : Tools
tools = record {
  clear_runs = true;
  cleared_anyway = false;
  written_between = none;
  paste_runs = none;
  left_by_copy = none;
  copy_runs = true;
  available = false;
}

abbrev policy : Policy
policy = record {
  lock_on_usb_removal = false;
  usb_removal_action = codes "lock_immediately";
  lock_on_screen_lock = true;
  lock_on_suspend = true;
}

abbrev registration : Registration
registration = record { luks_uuid = none; filesystem_uuid = codes "fs" }

abbrev context : DetectedContext
context = record { app_id = none; window_title = none; window_id = none }

abbrev same_text : Bytes → Bytes
same_text t = t

abbrev no_json : Bytes → Option Json
no_json t = none

abbrev no_text : Json → Bytes
no_text j = []

abbrev started : App ℕ
unfolding do_startup
started =
    do_startup 5 (some 7) none true (new_app (codes "/mnt") registration policy context 60 none)

tick_lem_example :
    (started.session.state ≡ unlocked)
    × IsActive 20 started.session
    × ((started.policy.lock_on_usb_removal ≡ false) ⊎ IsAllowed none started)
unfolding started tick usb_checked is_unlocked check_inactivity seconds_since_activity do_startup
    start_logind_watcher open_vault_or_fail unlock touch_activity new_session
tick_lem_example = tick_lem same_text tools 20 none started refl

abbrev life : Life same_text no_json no_text started
unfolding started
life = starts (codes "/mnt") registration policy context 60 5 none 7 true

Life-IsGuarded_example : IsGuarded (serve no_json no_text (codes "lock") started).1
Life-IsGuarded_example = Life-IsGuarded same_text no_json no_text (serves (codes "lock") life)

Life-Closes_example :
    IsClosed
      (drain same_text no_json no_text tools 1 (lock_session same_text tools manual_close started))
unfolding started lock_session lock is_unlocked do_startup start_logind_watcher open_vault_or_fail
    unlock touch_activity new_session
Life-Closes_example =
    Life-Closes same_text no_json no_text tools (locks tools manual_close life) refl
