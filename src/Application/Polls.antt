-- ===== src/Application/Polls.antt =====
-- src/passman/ui/app.py: what the periodic check leaves open.
use ash_password_manager.Common.{
  ℕ, ◌+◌, ◌<◌, Bool, true, false, not, Option, none, some, Bytes, Bool-cases, ◌≡◌, refl, sym, ◌∙◌,
  subst, ◌⊎◌, inl, inr, arith, if◌then◌else◌,
}
use ash_password_manager.Common.Chars.{codes}
use ash_password_manager.Security.Clipboard.{Tools}
use ash_password_manager.Security.Session.{
  Session, SessionState, locked, unlocked, LockReason, usb_removed, is_locked, is_unlocked, lock,
  check_inactivity, seconds_since_activity,
}
use ash_password_manager.Usb.Identity.{Devices, evaluate_usb_status, should_lock_for_usb_removal}
use ash_password_manager.Usb.Identity.Trust.{IsGenuine, open_only_if}
use ash_password_manager.Application.{
  App, tick, usb_checked, check_usb_still_present, lock_session, idle_checked,
}

module _ {V : Type 0} where
  -- The drive, at a poll of the block devices, lets the vault stay open.
  abbrev pub IsAllowed : Option Devices → App V → Type 0
  IsAllowed none app = ⊥
  IsAllowed (some devices) app =
      (app.policy.usb_removal_action ≡ codes "keep_unlocked")
      ⊎ IsGenuine devices app.registration.filesystem_uuid app.mountpoint app.registration.luks_uuid

  -- The user was active within the timeout, if there is one.
  abbrev pub IsActive : ℕ → Session V → Type 0
  IsActive now s = (s.inactivity_timeout ≡ 0) ⊎ (now < s.last_activity + s.inactivity_timeout)

locked-ne-unlocked : ◌≡◌ {A = SessionState} locked unlocked → ⊥
locked-ne-unlocked h = cc h

module _ {V : Type 0} (sha256 : Bytes → Bytes) where
  lock_session-state :
      (tools : Tools) (reason : LockReason) (app : App V)
      → (lock_session sha256 tools reason app).session.state ≡ locked
  unfolding lock_session lock is_unlocked
  lock_session-state tools reason app = ground arith

  check_inactivity-IsActive :
      (tools : Tools) (now : ℕ) (s : Session V)
      → (check_inactivity sha256 tools now s).1.state ≡ unlocked
      → IsActive now s × ((check_inactivity sha256 tools now s) ≡ (false, s)) × (s.state ≡ unlocked)
  unfolding check_inactivity lock seconds_since_activity
  check_inactivity-IsActive tools now s h = ground arith

  check_usb-IsAllowed :
      (tools : Tools) (devices : Option Devices) (app : App V)
      → (check_usb_still_present sha256 tools devices app).session.state ≡ unlocked
      → IsAllowed devices app
  unfolding check_usb_still_present
  check_usb-IsAllowed tools none app h =
      locked-ne-unlocked (sym (lock_session-state tools usb_removed app) ∙ h)
  check_usb-IsAllowed tools (some devices) app h =
      elim (Bool-cases (
        should_lock_for_usb_removal (evaluate_usb_status devices app.registration) app.mountpoint
          app.policy.usb_removal_action)) [
            | inl gone ↦
                absurd (
                  locked-ne-unlocked
                    (sym (lock_session-state tools usb_removed app) ∙ rw gone at h))
            | inr there ↦
                open_only_if devices app.registration app.mountpoint app.policy.usb_removal_action
                  there
          ]

  usb_checked-IsAllowed :
      (tools : Tools) (devices : Option Devices) (app : App V)
      → (usb_checked sha256 tools devices app).session.state ≡ unlocked
      → (app.policy.lock_on_usb_removal ≡ false) ⊎ IsAllowed devices app
  unfolding usb_checked
  usb_checked-IsAllowed tools devices app h = elim (Bool-cases app.policy.lock_on_usb_removal) [
    | inl checks ↦ inr (
        check_usb-IsAllowed tools devices app (
          subst
            (λ b.
              (if b then check_usb_still_present sha256 tools devices app else app).session.state
              ≡ unlocked)
            checks h))
    | inr ignores ↦ inl ignores
  ]

  -- No part of the check opens a session.
  usb_checked-unlocked :
      (tools : Tools) (devices : Option Devices) (app : App V)
      → (usb_checked sha256 tools devices app).session.state ≡ unlocked
      → app.session.state ≡ unlocked
  unfolding check_usb_still_present lock_session lock is_unlocked
  usb_checked-unlocked tools none app h = ground arith
  usb_checked-unlocked tools (some ds) app h = ground arith

  idle_checked-state :
      (p : Bool × Session V) (app : App V) → (idle_checked sha256 p app).session.state ≡ p.1.state
  idle_checked-state (true, s) app = refl
  idle_checked-state (false, s) app = refl

  checked_lem :
      (tools : Tools) (now : ℕ) (devices : Option Devices) (app : App V)
      → (usb_checked sha256 tools devices
          (idle_checked sha256 (check_inactivity sha256 tools now app.session) app)).session.state
        ≡ unlocked
      → (app.session.state ≡ unlocked)
        × IsActive now app.session
        × ((app.policy.lock_on_usb_removal ≡ false) ⊎ IsAllowed devices app)
  checked_lem tools now devices app h =
      let checked : Bool × Session V = check_inactivity sha256 tools now app.session in
      let kept = usb_checked-unlocked tools devices (idle_checked sha256 checked app) h in
      let (active, same, was) =
        check_inactivity-IsActive tools now app.session
          (sym (idle_checked-state checked app) ∙ kept) in
      (
        was,
        active,
        usb_checked-IsAllowed tools devices app (
            subst
              (λ p.
                (usb_checked sha256 tools devices (idle_checked sha256 p app)).session.state
                ≡ unlocked)
              same h),
      )

  -- After a periodic check the vault is open only if it was before, the user was active within the
  -- timeout (if there is one), and, unless the settings leave the drive out of it, the block devices
  -- could be read and either show the registered identifiers together on a drive that is mounted where
  -- the vault was opened from, or the user has chosen to keep the vault open without it.
  pub tick_lem :
      (tools : Tools) (now : ℕ) (devices : Option Devices) (app : App V)
      → (tick sha256 tools now devices app).1.session.state ≡ unlocked
      → (app.session.state ≡ unlocked)
        × IsActive now app.session
        × ((app.policy.lock_on_usb_removal ≡ false) ⊎ IsAllowed devices app)
  unfolding tick is_unlocked
  tick_lem tools now devices app h = elim (Bool-cases (is_locked app.session.state)) [
    | inl shut ↦ absurd (ground (arith, closed shut h))
    | inr held ↦ checked_lem tools now devices app (at_open held h)
  ]
    where
      after_test : Bool → Bool × App V
      after_test b = if not (not b) then (false, app) else (
        true,
        usb_checked sha256 tools devices
            (idle_checked sha256 (check_inactivity sha256 tools now app.session) app),
      )

      closed :
          is_locked app.session.state ≡ true
          → (after_test (is_locked app.session.state)).1.session.state ≡ unlocked
          → ⊥
      closed shut k =
          let still = subst (λ b. (after_test b).1.session.state ≡ unlocked) shut k in
          ground (arith, shut, still)

      at_open :
          is_locked app.session.state ≡ false
          → (after_test (is_locked app.session.state)).1.session.state ≡ unlocked
          → (after_test false).1.session.state ≡ unlocked
      at_open held k = subst (λ b. (after_test b).1.session.state ≡ unlocked) held k
