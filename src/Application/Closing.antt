-- ===== src/Application/Closing.antt =====
-- src/passman/ui/app.py: every lock ends the application.
use ash_password_manager.Common.{
  ℕ, Bool, true, false, ◌||◌, Option, none, some, List, [], ◌∷◌, ◌++◌, Bytes, any, ◌≡◌, refl, ap,
  ◌⊎◌, arith, if◌then◌else◌,
}
use ash_password_manager.Common.Json.{Json}
use ash_password_manager.Common.Chars.{strip}
use ash_password_manager.Auth.Detection.{DetectedContext}
use ash_password_manager.Security.Clipboard.{Tools}
use ash_password_manager.Security.Session.{
  locked, unlocked, LockReason, is_unlocked, lock, check_inactivity, usb_removed, suspended,
  screen_locked, inactivity_timeout,
}
use ash_password_manager.Usb.Identity.{Devices}
use ash_password_manager.Application.{
  App, Callback, lock_for, present_window, update_and_present, teardown_after_lock, idle_add,
  teardown, on_logind_sleep, on_logind_screen_locked, lock_session, check_usb_still_present,
  usb_checked, idle_checked, tick, run_callback, run_first, run_idle,
}
use ash_password_manager.Application.Control.{
  Command, ping, lock_command, focus, focus_other, get_status, handler_of, respond, serve,
  focus_target, target_of, after_space, replied,
}

abbrev pub is_teardown : Callback → Bool
is_teardown teardown_after_lock = true
is_teardown c = false

abbrev pub awaits : List Callback → Bool
awaits cs = any is_teardown cs

module _ {V : Type 0} where
  -- The vault is open.
  abbrev pub IsOpen : App V → Type 0
  IsOpen app = (app.running ≡ true) × (app.session.state ≡ unlocked) × (awaits app.pending ≡ false)

  -- The vault is shut, and the teardown waits for its turn.
  abbrev pub IsClosing : App V → Type 0
  IsClosing app =
      (app.running ≡ true)
      × (app.session.state ≡ locked)
      × (app.session.vault ≡ none)
      × (awaits app.pending ≡ true)

  -- Nothing of the application is left.
  abbrev pub IsClosed : App V → Type 0
  IsClosed app =
      (app.running ≡ false)
      × (app.session.state ≡ locked)
      × (app.session.vault ≡ none)
      × (app.window ≡ false)
      × (app.control ≡ false)
      × (app.watching ≡ false)

  abbrev pub IsGuarded : App V → Type 0
  IsGuarded app = IsOpen app ⊎ IsClosing app ⊎ IsClosed app

awaits-append : (cs ds : List Callback) → awaits (cs ++ ds) ≡ (awaits cs || awaits ds)
awaits-append [] ds = refl
awaits-append (c ∷ cs) ds = ground (arith, awaits-append cs ds)

module _ {V : Type 0} where
  idle_add-IsGuarded :
      (c : Callback) (app : App V)
      → is_teardown c ≡ false
      → IsGuarded app
      → IsGuarded (idle_add c app)
  idle_add-IsGuarded c app h g = ground (arith, awaits-append app.pending (c ∷ []))

  pub signal-IsGuarded :
      (going_to_sleep : Bool) (hint : Option Bool) (app : App V)
      → IsGuarded app
      → IsGuarded (on_logind_sleep going_to_sleep app)
        × IsGuarded (on_logind_screen_locked hint app)
  unfolding on_logind_sleep on_logind_screen_locked
  signal-IsGuarded going_to_sleep hint app g = ground (
    arith,
    idle_add-IsGuarded (lock_for suspended) app refl g,
    idle_add-IsGuarded (lock_for screen_locked) app refl g,
  )

module _ {V : Type 0} (sha256 : Bytes → Bytes) (tools : Tools) where
  pub lock_session-IsGuarded :
      (reason : LockReason) (app : App V)
      → IsGuarded app
      → IsGuarded (lock_session sha256 tools reason app)
  unfolding lock_session lock is_unlocked
  lock_session-IsGuarded reason app g =
      ground (arith, awaits-append app.pending (teardown_after_lock ∷ []))

  check_inactivity-IsGuarded :
      (now : ℕ) (app : App V)
      → IsGuarded app
      → IsGuarded (idle_checked sha256 (check_inactivity sha256 tools now app.session) app)
  unfolding check_inactivity lock
  check_inactivity-IsGuarded now app g =
      ground (arith, awaits-append app.pending (teardown_after_lock ∷ []))

  usb_checked-IsGuarded :
      (devices : Option Devices) (app : App V)
      → IsGuarded app
      → IsGuarded (usb_checked sha256 tools devices app)
  unfolding usb_checked check_usb_still_present
  usb_checked-IsGuarded none app g = ground (arith, lock_session-IsGuarded usb_removed app g)
  usb_checked-IsGuarded (some ds) app g = ground (arith, lock_session-IsGuarded usb_removed app g)

  pub tick-IsGuarded :
      (now : ℕ) (devices : Option Devices) (app : App V)
      → IsGuarded app
      → IsGuarded (tick sha256 tools now devices app).1
  unfolding tick
  tick-IsGuarded now devices app g = ground (
    arith,
    usb_checked-IsGuarded devices
        (idle_checked sha256 (check_inactivity sha256 tools now app.session) app)
        (check_inactivity-IsGuarded now app g),
  )

  popped-IsGuarded :
      (c : Callback) (cs : List Callback) (app : App V)
      → is_teardown c ≡ false
      → app.pending ≡ c ∷ cs
      → IsGuarded app
      → IsGuarded (record app { pending = cs })
  popped-IsGuarded c cs app h e g = ground (arith, ap awaits e)

  run_callback-IsGuarded :
      (c : Callback) (cs : List Callback) (app : App V)
      → app.pending ≡ c ∷ cs
      → IsGuarded app
      → IsGuarded (run_callback sha256 tools c (record app { pending = cs }))
  unfolding run_callback teardown
  run_callback-IsGuarded (lock_for reason) cs app e g =
      lock_session-IsGuarded reason (record app { pending = cs })
        (popped-IsGuarded (lock_for reason) cs app refl e g)
  run_callback-IsGuarded present_window cs app e g = popped-IsGuarded present_window cs app refl e g
  run_callback-IsGuarded (update_and_present context) cs app e g =
      ground (arith, popped-IsGuarded (update_and_present context) cs app refl e g)
  run_callback-IsGuarded teardown_after_lock cs app e g = ground (arith, ap awaits e)

  pub run_idle-IsGuarded : (app : App V) → IsGuarded app → IsGuarded (run_idle sha256 tools app)
  unfolding run_idle
  run_idle-IsGuarded app g = by_pending app.pending refl
    where
      by_pending :
          (cs : List Callback) → app.pending ≡ cs → IsGuarded (run_first sha256 tools cs app)
      by_pending [] e = g
      by_pending (c ∷ cs) e = run_callback-IsGuarded c cs app e g

module _ {V : Type 0} (loads : Bytes → Option Json) (dumps : Json → Bytes) where
  focus_target-IsGuarded :
      (o : Option DetectedContext) (app : App V)
      → IsGuarded app
      → IsGuarded (focus_target loads dumps o app).1
  focus_target-IsGuarded none app g = g
  focus_target-IsGuarded (some context) app g =
      idle_add-IsGuarded (update_and_present context) app refl g

  respond-IsGuarded :
      (o : Option Command) (command : Bytes) (app : App V)
      → IsGuarded app
      → IsGuarded (respond loads dumps o command app).1
  respond-IsGuarded none command app g = g
  respond-IsGuarded (some ping) command app g = g
  respond-IsGuarded (some lock_command) command app g =
      idle_add-IsGuarded (lock_for inactivity_timeout) app refl g
  respond-IsGuarded (some focus) command app g = idle_add-IsGuarded present_window app refl g
  respond-IsGuarded (some focus_other) command app g =
      focus_target-IsGuarded (target_of (loads (after_space command))) app g
  respond-IsGuarded (some get_status) command app g = g

  pub serve-IsGuarded :
      (line : Bytes) (app : App V) → IsGuarded app → IsGuarded (serve loads dumps line app).1
  unfolding serve
  serve-IsGuarded line app g = by_control app.control
    where
      by_control :
          (b : Bool)
          → IsGuarded
              (if b
                then replied loads dumps
                    (respond loads dumps (handler_of (strip line)) (strip line) app)
                else (none, app)).1
      by_control true = respond-IsGuarded (handler_of (strip line)) (strip line) app g
      by_control false = g
