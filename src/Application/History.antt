-- ===== src/Application/History.antt =====
-- src/passman/ui/app.py: the application from its start to its end.
use ash_password_manager.Common.{
  ℕ, zero, suc, Bool, true, false, Option, none, some, List, [], ◌∷◌, Bytes, length, Bool-cases,
  ◌≡◌, refl, sym, ap, ◌∙◌, subst, inl, inr, arith, if◌then◌else◌,
}
use ash_password_manager.Common.Json.{Json}
use ash_password_manager.Auth.Detection.{DetectedContext}
use ash_password_manager.Security.Clipboard.{Desk, Tools}
use ash_password_manager.Security.Session.{
  SessionState, locked, unlocked, LockReason, touch_activity, new_session, unlock, lock,
  is_unlocked,
}
use ash_password_manager.Usb.Identity.{Devices, Registration}
use ash_password_manager.Application.{
  App, Policy, Callback, lock_for, present_window, update_and_present, teardown_after_lock, new_app,
  do_startup, do_activate, on_logind_sleep, on_logind_screen_locked, lock_session, tick,
  run_callback, run_first, run_idle, teardown, open_vault_or_fail, start_logind_watcher,
}
use ash_password_manager.Application.Control.{serve}
use ash_password_manager.Application.Closing.{
  awaits, is_teardown, IsClosing, IsClosed, IsGuarded, lock_session-IsGuarded, tick-IsGuarded,
  run_idle-IsGuarded, signal-IsGuarded, serve-IsGuarded,
}

locked-ne-unlocked : ◌≡◌ {A = SessionState} locked unlocked → ⊥
locked-ne-unlocked h = cc h

module _ {V : Type 0} (sha256 : Bytes → Bytes) (loads : Bytes → Option Json)
    (dumps : Json → Bytes) where
  -- What may happen to an application that the login flow has started, until its main loop ends.
  pub data Life : App V → Type 0 where
    starts :
        (mountpoint : Bytes) (reg : Registration) (policy : Policy) (context : DetectedContext)
        (timeout now : ℕ) (clipboard : Option Desk) (v : V) (available : Bool)
        → Life (
            do_startup now
              (some v)
              none
              available
              (new_app mountpoint reg policy context timeout clipboard))
    activates : {app : App V} → Life app → app.running ≡ true → Life (do_activate app)
    touches :
        {app : App V} (now : ℕ)
        → Life app
        → Life (record app { session = touch_activity now app.session })
    locks :
        {app : App V} (tools : Tools) (reason : LockReason)
        → Life app
        → Life (lock_session sha256 tools reason app)
    ticks :
        {app : App V} (tools : Tools) (now : ℕ) (devices : Option Devices)
        → Life app
        → Life (tick sha256 tools now devices app).1
    sleeps :
        {app : App V} (going_to_sleep : Bool) → Life app → Life (on_logind_sleep going_to_sleep app)
    hints : {app : App V} (hint : Option Bool) → Life app → Life (on_logind_screen_locked hint app)
    serves : {app : App V} (line : Bytes) → Life app → Life (serve loads dumps line app).1
    idles : {app : App V} (tools : Tools) → Life app → Life (run_idle sha256 tools app)

  starts-IsGuarded :
      (now : ℕ) (v : V) (available : Bool) (mountpoint : Bytes) (reg : Registration)
      (policy : Policy) (context : DetectedContext) (timeout : ℕ) (clipboard : Option Desk)
      → IsGuarded (
          do_startup now
            (some v)
            none
            available
            (new_app mountpoint reg policy context timeout clipboard))
  unfolding do_startup start_logind_watcher open_vault_or_fail unlock touch_activity new_session
  starts-IsGuarded now v available mountpoint reg policy context timeout clipboard = ground arith

  -- In every history of an application that was started with an open vault, one of three things holds:
  -- the vault is open and no teardown waits; or the session is locked, holds no vault, and a teardown
  -- waits; or the main loop is told to stop, with no vault, window, control server or watcher left.
  pub Life-IsGuarded : {app : App V} → Life app → IsGuarded app
  unfolding do_activate touch_activity
  Life-IsGuarded (starts mountpoint reg policy context timeout now clipboard v available) =
      starts-IsGuarded now v available mountpoint reg policy context timeout clipboard
  Life-IsGuarded (activates l h) = ground (arith, Life-IsGuarded l)
  Life-IsGuarded (touches now l) = Life-IsGuarded l
  Life-IsGuarded (locks {app = app} tools reason l) =
      lock_session-IsGuarded sha256 tools reason app (Life-IsGuarded l)
  Life-IsGuarded (ticks {app = app} tools now devices l) =
      tick-IsGuarded sha256 tools now devices app (Life-IsGuarded l)
  Life-IsGuarded (sleeps {app = app} going_to_sleep l) =
      (signal-IsGuarded going_to_sleep none app (Life-IsGuarded l)).0
  Life-IsGuarded (hints {app = app} hint l) = (signal-IsGuarded false hint app (Life-IsGuarded l)).1
  Life-IsGuarded (serves {app = app} line l) =
      serve-IsGuarded loads dumps line app (Life-IsGuarded l)
  Life-IsGuarded (idles {app = app} tools l) =
      run_idle-IsGuarded sha256 tools app (Life-IsGuarded l)

  -- The main loop runs the callbacks that wait, until it is told to stop.
  abbrev pub drain : Tools → ℕ → App V → App V
  drain tools zero app = app
  drain tools (suc n) app =
      let rest = drain tools n (run_idle sha256 tools app) in if app.running then rest else app

  drain-stopped :
      (tools : Tools) (n : ℕ) (app : App V) → IsClosed app → IsClosed (drain tools n app)
  drain-stopped tools zero app c = c
  drain-stopped tools (suc n) app c =
      subst (λ b. IsClosed (if b then drain tools n (run_idle sha256 tools app) else app)) (sym c.0)
        c

  drain-again :
      (tools : Tools) (n : ℕ) (app : App V)
      → app.running ≡ true
      → IsClosed (drain tools n (run_idle sha256 tools app))
      → IsClosed (drain tools (suc n) app)
  drain-again tools n app on c =
      subst (λ b. IsClosed (if b then drain tools n (run_idle sha256 tools app) else app)) (sym on)
        c

  locked_again :
      (tools : Tools) (reason : LockReason) (app : App V)
      → app.session.state ≡ locked
      → lock_session sha256 tools reason app ≡ app
  unfolding lock_session lock is_unlocked
  locked_again tools reason app h = ground arith

  -- While the application is closing, no callback but the teardown changes more than the context.
  waits :
      (tools : Tools) (c : Callback) (app : App V)
      → is_teardown c ≡ false
      → IsClosing app
      → let app' = run_callback sha256 tools c app in IsClosing app' × (app'.pending ≡ app.pending)
  unfolding run_callback lock_session
  waits tools (lock_for reason) app h closing =
      let same = locked_again tools reason app closing.1 in
      (subst IsClosing (sym same) closing, ap (λ a. a.pending) same)
  waits tools present_window app h closing = (closing, refl)
  waits tools (update_and_present context) app h closing = ground arith
  waits tools teardown_after_lock app h closing = absurd (cc h)

  drain-pending :
      (tools : Tools) (cs : List Callback) (app : App V)
      → app.pending ≡ cs
      → IsClosing app
      → IsClosed (drain tools (length cs) app)
  unfolding run_idle teardown run_callback
  drain-pending tools [] app e closing = absurd (ground (arith, ap awaits e))
  drain-pending tools (c ∷ cs) app e closing = drain-again tools (length cs) app closing.0 (
      subst (λ ds. IsClosed (drain tools (length cs) (run_first sha256 tools ds app))) (sym e)
        (elim (Bool-cases (is_teardown c)) [
          | inl last ↦ drain-stopped tools (length cs) _ (ends c last)
          | inr other ↦
              let (still, left) =
                waits tools c (record app { pending = cs }) other
                  (
                    closing.0,
                    closing.1,
                    closing.2,
                    ground (arith, other, ap awaits e, closing.3),
                  ) in
              drain-pending tools cs (run_callback sha256 tools c (record app { pending = cs }))
                left still
        ]))
    where
      ends :
          (d : Callback)
          → is_teardown d ≡ true
          → IsClosed (run_callback sha256 tools d (record app { pending = cs }))
      ends teardown_after_lock h = (refl, closing.1, closing.2, refl, refl, refl)
      ends (lock_for reason) h = absurd (cc h)
      ends present_window h = absurd (cc h)
      ends (update_and_present context) h = absurd (cc h)

  -- Once the session is locked, for any reason and at any point of a history, the main loop ends after
  -- at most as many callbacks as wait then, and leaves no vault, window, control server or watcher.
  pub Life-Closes :
      (tools : Tools) {app : App V}
      → Life app
      → app.session.state ≡ locked
      → IsClosed (drain tools (length app.pending) app)
  Life-Closes tools {app = app} life shut = elim (Life-IsGuarded life) [
    | inl held ↦ absurd (locked-ne-unlocked (sym shut ∙ held.1))
    | inr (inl closing) ↦ drain-pending tools app.pending app refl closing
    | inr (inr closed) ↦ drain-stopped tools (length app.pending) app closed
  ]
