-- ===== src/Security/Session.antt =====
-- src/passman/core/security/session.py: whether the vault is open, and the one way to lock it.
-- Times are in the unit of the clock's ticks. A negative timeout, which the code treats as 0, is
-- not represented.
pub mod Locking
use ash_password_manager.Common.{
  ℕ, ◌-◌, Bool, true, false, not, ◌||◌, Option, none, some, List, [], ◌∷◌, Bytes, leb,
  if◌then◌else◌,
}
use ash_password_manager.Security.Clipboard.{Desk, Tools, clear_now}

pub data LockReason : Type 0 where
  startup usb_removed screen_locked suspended inactivity_timeout manual_close vault_error :
      LockReason

pub data SessionState : Type 0 where
  locked unlocked : SessionState

-- `closed` lists the vault handles whose `close` has been called, and `notified` the calls of the
-- `on_lock` callback, the latest first; the code does not read them. `clipboard` is `none` only
-- before `__post_init__`.
pub record Session (V : Type 0) : Type 0 where
  pub inactivity_timeout : ℕ
  pub state : SessionState
  pub vault : Option V
  pub last_activity : ℕ
  pub clipboard : Option Desk
  pub on_lock : Bool
  pub closed : List V
  pub notified : List LockReason

abbrev pub is_locked : SessionState → Bool
is_locked locked = true
is_locked unlocked = false

clear_clipboard : (Bytes → Bytes) → Tools → Option Desk → Option Desk
clear_clipboard sha256 tools none = none
clear_clipboard sha256 tools (some d) = some (clear_now sha256 tools d)

module _ {V : Type 0} where
  unfoldable pub is_unlocked : Session V → Bool
  is_unlocked s = not (is_locked s.state)

  unfoldable pub touch_activity : ℕ → Session V → Session V
  touch_activity now s = record s { last_activity = now }

  unfoldable pub unlock : ℕ → V → Session V → Session V
  unfolding touch_activity
  unlock now v s = touch_activity now (record s { vault = some v; state = unlocked })

  unfoldable pub set_on_lock : Bool → Session V → Session V
  set_on_lock callback s = record s { on_lock = callback }

  -- `none` is the RuntimeError. The state is locked, or there is no vault.
  unfoldable pub get_vault : Session V → Option V
  get_vault s = if is_locked s.state then none else s.vault

  -- The clock may not have reached the time of the last activity; the result is then below every
  -- positive timeout, as the negative difference is.
  unfoldable pub seconds_since_activity : ℕ → Session V → ℕ
  seconds_since_activity now s = now - s.last_activity

  close_vault : Option V → Session V → Session V
  close_vault none s = s
  close_vault (some v) s = record s { closed = v ∷ s.closed }

  notify : LockReason → Session V → Session V
  notify reason s = if s.on_lock then record s { notified = reason ∷ s.notified } else s

  module _ (sha256 : Bytes → Bytes) where
    -- An exception of `close` or of `clear_now` is dropped, and the lock goes on.
    unfoldable pub lock : Tools → LockReason → Session V → Session V
    unfolding close_vault notify clear_clipboard
    lock tools reason s =
        if is_locked s.state
        then s
        else (let cleared = close_vault s.vault (record s { vault = none; state = locked }) in
            notify reason (record cleared { clipboard = clear_clipboard sha256 tools s.clipboard }))

    -- The result says whether the session was locked.
    unfoldable pub check_inactivity : Tools → ℕ → Session V → Bool × Session V
    unfolding seconds_since_activity
    check_inactivity tools now s =
        if is_locked s.state
        then (false, s)
        else if leb s.inactivity_timeout 0
        then (false, s)
        else if leb s.inactivity_timeout (seconds_since_activity now s)
        then (true, lock tools inactivity_timeout s)
        else (false, s)

unfoldable pub new_session : (V : Type 0) → ℕ → Option Desk → Bool → Session V
new_session V timeout clipboard callback = record {
  inactivity_timeout = timeout;
  state = locked;
  vault = none;
  last_activity = 0;
  clipboard = clipboard;
  on_lock = callback;
  closed = [];
  notified = [];
}
