-- ===== src/Application/Control.antt =====
-- src/passman/ui/app.py and src/passman/launcher/ipc.py: the commands that other processes send. What
-- json.loads and json.dumps give are parameters.
use ash_password_manager.Common.{
  ◌==◌, ◌||◌, Option, none, some, [], ◌∷◌, Bytes, same_bytes, if◌then◌else◌,
}
use ash_password_manager.Common.Chars.{codes, strip, has_prefix}
use ash_password_manager.Common.Json.{Json, null, text, object, end, field, get}
use ash_password_manager.Auth.Detection.{DetectedContext}
use ash_password_manager.Security.Session.{SessionState, locked, unlocked, inactivity_timeout}
use ash_password_manager.Application.{App, lock_for, present_window, update_and_present, idle_add}

-- `command.partition(" ")[2]`
abbrev pub after_space : Bytes → Bytes
after_space [] = []
after_space (c ∷ cs) = let rest = after_space cs in if c == b' ' then cs else rest

-- `data.get(k)`, if it is None or a text.
abbrev pub optional_field : Option Json → Option (Option Bytes)
optional_field none = some none
optional_field (some null) = some none
optional_field (some (text s)) = some (some s)
optional_field (some j) = none

abbrev pub target_from : Option (Option Bytes) → Option (Option Bytes) → Option DetectedContext
target_from none window = none
target_from (some app) none = none
target_from (some app) (some window) =
    some (record { app_id = app; window_title = none; window_id = window })

abbrev pub target_of : Option Json → Option DetectedContext
target_of (some (object fs)) =
    target_from (optional_field (get "app_id" fs)) (optional_field (get "window_id" fs))
target_of j = none

pub data Command : Type 0 where
  ping lock_command focus focus_other get_status : Command

-- The handlers by their names. A command with an argument has the name before it.
unfoldable pub handler_of : Bytes → Option Command
unfolding has_prefix
handler_of command =
    if has_prefix (codes "focus-target ") command || same_bytes command (codes "focus-target")
    then some focus_other
    else if same_bytes command (codes "ping")
    then some ping
    else if same_bytes command (codes "lock")
    then some lock_command
    else if same_bytes command (codes "focus")
    then some focus
    else if same_bytes command (codes "status")
    then some get_status
    else none

abbrev pub state_name : SessionState → Bytes
state_name locked = codes "locked"
state_name unlocked = codes "unlocked"

module _ {V : Type 0} where
  module _ (loads : Bytes → Option Json) (dumps : Json → Bytes) where
    abbrev pub focus_target : Option DetectedContext → App V → Bytes × App V
    focus_target none app = (codes "invalid_target", app)
    focus_target (some context) app = (codes "ok", idle_add (update_and_present context) app)

    abbrev pub status_line : App V → Bytes
    status_line app = dumps (
        object (
          field "state" (text (state_name app.session.state))
            (field "mountpoint" (text app.mountpoint) end)))

    abbrev pub respond : Option Command → Bytes → App V → Bytes × App V
    respond (some ping) command app = (codes "pong", app)
    respond (some lock_command) command app =
        (codes "ok", idle_add (lock_for inactivity_timeout) app)
    respond (some focus) command app = (codes "ok", idle_add present_window app)
    respond (some focus_other) command app =
        focus_target (target_of (loads (after_space command))) app
    respond (some get_status) command app = (status_line app, app)
    respond none command app = (codes "unknown_command", app)

    abbrev pub replied : Bytes × App V → Option Bytes × App V
    replied (reply, app) = (some reply, app)

    -- A line from another process: without the control server nobody answers.
    unfoldable pub serve : Bytes → App V → Option Bytes × App V
    unfolding handler_of
    serve line app =
        if app.control
        then replied (respond (handler_of (strip line)) (strip line) app)
        else (none, app)
