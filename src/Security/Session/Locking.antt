-- ===== src/Security/Session/Locking.antt =====
-- src/passman/core/security/session.py: every lock tears the session down in the same way.
use ash_password_manager.Common.{
  ℕ, suc, ◌+◌, ◌≤◌, ◌<◌, Bool, true, none, some, ◌≡◌, ◌↔◌, arith, Bytes, length,
}
use ash_password_manager.Security.Clipboard.{Desk, Tools}
use ash_password_manager.Security.Session.{
  Session, SessionState, LockReason, locked, unlocked, new_session, unlock, lock, touch_activity,
  set_on_lock, check_inactivity, inactivity_timeout,
}

abbrev open_count : SessionState → ℕ
open_count locked = 0
open_count unlocked = 1

module _ {V : Type 0} (sha256 : Bytes → Bytes) where
  -- What the application does with a session, and how many times it has unlocked it.
  pub data Use : Session V → ℕ → Type 0 where
    created :
        (timeout : ℕ) (d : Desk) (callback : Bool) → Use (new_session V timeout (some d) callback) 0
    unlocks : {s : Session V} {n : ℕ} (now : ℕ) (v : V) → Use s n → Use (unlock now v s) (suc n)
    locks :
        {s : Session V} {n : ℕ} (tools : Tools) (reason : LockReason)
        → Use s n
        → Use (lock sha256 tools reason s) n
    touches : {s : Session V} {n : ℕ} (now : ℕ) → Use s n → Use (touch_activity now s) n
    checks :
        {s : Session V} {n : ℕ} (tools : Tools) (now : ℕ)
        → Use s n
        → Use (check_inactivity sha256 tools now s).1 n
    listens : {s : Session V} {n : ℕ} (callback : Bool) → Use s n → Use (set_on_lock callback s) n

  -- A vault handle is held exactly while the session is unlocked, and no lock is told or closes a
  -- vault twice: there are at most as many as unlocks, less one that is still open.
  pub record IsConsistent (s : Session V) (n : ℕ) : Type 0 where
    pub none_if_locked : s.state ≡ locked → s.vault ≡ none
    pub held : s.state ≡ unlocked → (v : V) × (s.vault ≡ some v)
    pub told : length s.notified + open_count s.state ≤ n
    pub shut : length s.closed + open_count s.state ≤ n

  lock-IsConsistent :
      (tools : Tools) (reason : LockReason) (s : Session V) (n : ℕ)
      → IsConsistent s n
      → IsConsistent (lock sha256 tools reason s) n
  unfolding lock
  lock-IsConsistent tools reason s n c = ground arith

  check-IsConsistent :
      (tools : Tools) (now : ℕ) (s : Session V) (n : ℕ)
      → IsConsistent s n
      → IsConsistent (check_inactivity sha256 tools now s).1 n
  unfolding check_inactivity
  check-IsConsistent tools now s n c =
      ground (arith, lock-IsConsistent tools inactivity_timeout s n c)

  unlock-IsConsistent :
      (now : ℕ) (v : V) (s : Session V) (n : ℕ)
      → IsConsistent s n
      → IsConsistent (unlock now v s) (suc n)
  unfolding unlock
  unlock-IsConsistent now v s n c = ground arith

  -- In every use of a session, a vault handle is held exactly while it is unlocked, and the callback
  -- and the closing of a handle happen at most once for each unlock.
  pub Use-IsConsistent : {s : Session V} {n : ℕ} → Use s n → IsConsistent s n
  unfolding new_session touch_activity set_on_lock
  Use-IsConsistent (created timeout d callback) = ground arith
  Use-IsConsistent (unlocks {s = s} {n = n} now v u) =
      unlock-IsConsistent now v s n (Use-IsConsistent u)
  Use-IsConsistent (locks {s = s} {n = n} tools reason u) =
      lock-IsConsistent tools reason s n (Use-IsConsistent u)
  Use-IsConsistent (touches now u) =
      let c = Use-IsConsistent u in
      record { none_if_locked = c.none_if_locked; held = c.held; told = c.told; shut = c.shut }
  Use-IsConsistent (checks {s = s} {n = n} tools now u) =
      check-IsConsistent tools now s n (Use-IsConsistent u)
  Use-IsConsistent (listens callback u) =
      let c = Use-IsConsistent u in
      record { none_if_locked = c.none_if_locked; held = c.held; told = c.told; shut = c.shut }

  -- The idle check locks exactly an unlocked session whose timeout is positive and has passed since
  -- the last activity, and does not touch any other.
  pub check_inactivity_iff :
      (tools : Tools) (now : ℕ) (s : Session V)
      → ((check_inactivity sha256 tools now s).0 ≡ true) ↔ (
          (s.state ≡ unlocked)
          × (0 < s.inactivity_timeout)
          × (s.last_activity + s.inactivity_timeout ≤ now))
  unfolding check_inactivity
  check_inactivity_iff tools now s = ground arith
