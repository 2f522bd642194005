-- ===== src/Launcher/Opening.antt =====
-- src/passman/launcher: on which drive the manager's window opens.
use ash_password_manager.Common.{
  Bool, true, false, Option, none, some, List, [], ◌∷◌, Bytes, ◌≡◌, refl, sym, ap, ◌∙◌, subst, ◌⊎◌,
  ◌↔◌, inl, inr, if◌then◌else◌,
}
use ash_password_manager.Usb.Identity.{Registration}
use ash_password_manager.Usb.Lookup.{Udisks, find_connected_vault}
use ash_password_manager.Usb.Lookup.Connected.{IsFirst, find_connected_vault_iff}
use ash_password_manager.Launcher.Show.{
  Peer, Shown, is_ui_running, focused, main_app, WizardResult, logged_in, finished, run_login,
  after_wizard, run_setup, sign_in_to, sign_in, run_sign_in_or_login,
}

pub main_app-injective :
    {V : Type 0} (m m' : Bytes) (reg reg' : Registration) (h h' : Option V)
    → main_app m reg h ≡ main_app m' reg' h'
    → (m ≡ m') × (reg ≡ reg') × (h ≡ h')
main_app-injective m m' reg reg' h h' e = (cc e, cc e, cc e)

module _ {V : Type 0} (login : Registration → Bytes → Option V) where
  -- Who has opened the vault that the window shows: the login window, on the drive of the first
  -- registered vault that is connected; with no vault registered, the login window on the drive that the
  -- set-up wizard has found to hold one, or else the wizard itself, which has made it.
  abbrev pub IsSource :
      WizardResult V → List (Registration × Udisks) → Bytes → Registration → V → Type 0
  IsSource w [] m reg v =
      ((w.discovered_existing ≡ some (reg, m)) × (login reg m ≡ some v))
      ⊎ ((w.discovered_existing ≡ none)
          × (w.handle ≡ some v)
          × (w.record_made ≡ some reg)
          × (w.made_at ≡ some m))
  IsSource w (x ∷ vaults) m reg v = IsFirst (x ∷ vaults) reg m × (login reg m ≡ some v)

  run_login-main_app :
      (found : Registration × Bytes) (m : Bytes) (reg : Registration) (h : Option V)
      → run_login login found ≡ main_app m reg h
      → (v : V) × (h ≡ some v) × (found ≡ (reg, m)) × (login reg m ≡ some v)
  run_login-main_app (reg', m') m reg h e = by_login (login reg' m') refl e
    where
      by_login :
          (o : Option V)
          → login reg' m' ≡ o
          → logged_in reg' m' o ≡ main_app m reg h
          → (v : V) × (h ≡ some v)
            × (◌≡◌ {A = Registration × Bytes} (reg', m') (reg, m))
            × (login reg m ≡ some v)
      by_login none given k = absurd (cc k)
      by_login (some v) given k =
          let (at, as_registered, opened) = main_app-injective m' m reg' reg (some v) h k in
          (v, sym opened, cc (at, as_registered), cc (at, as_registered, given))

  finished-main_app :
      (o : Option V) (made : Option Registration) (at : Option Bytes) (m : Bytes)
      (reg : Registration) (h : Option V)
      → finished o made at ≡ main_app m reg h
      → (v : V) × (h ≡ some v) × (o ≡ some v) × (made ≡ some reg) × (at ≡ some m)
  finished-main_app none made at m reg h e = absurd (cc e)
  finished-main_app (some v) none at m reg h e = absurd (cc e)
  finished-main_app (some v) (some r) none m reg h e = absurd (cc e)
  finished-main_app (some v) (some r) (some x) m reg h e =
      let (at, as_registered, opened) = main_app-injective x m r reg (some v) h e in
      (v, sym opened, refl, ap some as_registered, ap some at)

  run_setup-main_app :
      (w : WizardResult V) (m : Bytes) (reg : Registration) (h : Option V)
      → run_setup login w ≡ main_app m reg h
      → (v : V) × (h ≡ some v) × IsSource w [] m reg v
  run_setup-main_app w m reg h e = by_discovery w.discovered_existing refl e
    where
      by_discovery :
          (o : Option (Registration × Bytes))
          → w.discovered_existing ≡ o
          → after_wizard login w o ≡ main_app m reg h
          → (v : V) × (h ≡ some v) × IsSource w [] m reg v
      by_discovery none d k =
          let (v, opened, handed, made, at) =
            finished-main_app w.handle w.record_made w.made_at m reg h k in
          (v, opened, inr (d, handed, made, at))
      by_discovery (some found) d k =
          let (v, opened, same, given) = run_login-main_app found m reg h k in
          (v, opened, inl (d ∙ ap some same, given))

  sign_in_to-main_app :
      (o : Option (Registration × Bytes)) (m : Bytes) (reg : Registration) (h : Option V)
      → sign_in_to login o ≡ main_app m reg h
      → (v : V) × (h ≡ some v) × (o ≡ some (reg, m)) × (login reg m ≡ some v)
  sign_in_to-main_app none m reg h e = absurd (cc e)
  sign_in_to-main_app (some found) m reg h e =
      let (v, opened, same, given) = run_login-main_app found m reg h e in
      (v, opened, ap some same, given)

  sign_in-main_app :
      (w : WizardResult V) (vaults : List (Registration × Udisks)) (m : Bytes) (reg : Registration)
      (h : Option V)
      → sign_in login w vaults ≡ main_app m reg h
      → (v : V) × (h ≡ some v) × IsSource w vaults m reg v
  unfolding sign_in
  sign_in-main_app w [] m reg h e = run_setup-main_app w m reg h e
  sign_in-main_app w (x ∷ vaults) m reg h e =
      let (v, opened, found, given) =
        sign_in_to-main_app (find_connected_vault (x ∷ vaults)) m reg h e in
      (v, opened, ((find_connected_vault_iff (x ∷ vaults) reg m).0 found, given))

  run_login-some :
      (reg : Registration) (m : Bytes) (v : V)
      → login reg m ≡ some v
      → run_login login (reg, m) ≡ main_app m reg (some v)
  run_login-some reg m v given = ap (logged_in reg m) given

  sign_in-some :
      (w : WizardResult V) (vaults : List (Registration × Udisks)) (m : Bytes) (reg : Registration)
      (v : V)
      → IsSource w vaults m reg v
      → sign_in login w vaults ≡ main_app m reg (some v)
  unfolding sign_in
  sign_in-some w [] m reg v (inl (found, given)) =
      ap (after_wizard login w) found ∙ run_login-some reg m v given
  sign_in-some w [] m reg v (inr (none_found, handed, made, at)) =
      ap (after_wizard login w) none_found
      ∙ (ap (λ o. finished o w.record_made w.made_at) handed
          ∙ (ap (λ o. finished (some v) o w.made_at) made ∙ ap (finished (some v) (some reg)) at))
  sign_in-some w (x ∷ vaults) m reg v (first, given) =
      ap (sign_in_to login) ((find_connected_vault_iff (x ∷ vaults) reg m).1 first)
      ∙ run_login-some reg m v given

  -- The sign-in command opens the manager's window at a mountpoint, for a registration, exactly if no
  -- window of it answers and the vault that the window shows was opened there: by the login window on the
  -- first registered vault whose lookup finds a mountpoint, which is that of a block with the registered
  -- file system, if any vault is registered; else through the set-up wizard.
  pub run_sign_in_or_login-main_app_iff :
      (peer : Peer) (w : WizardResult V) (vaults : List (Registration × Udisks)) (m : Bytes)
      (reg : Registration) (h : Option V)
      → (run_sign_in_or_login login peer w vaults ≡ main_app m reg h)
        ↔ ((is_ui_running peer ≡ false) × ((v : V) × (h ≡ some v) × IsSource w vaults m reg v))
  unfolding run_sign_in_or_login
  run_sign_in_or_login-main_app_iff peer w vaults m reg h = (
    λ e. by_peer (is_ui_running peer) e,
    λ (quiet, (v, opened, source)).
        subst (λ b. by_test b ≡ main_app m reg h) (sym quiet)
          (sign_in-some w vaults m reg v source ∙ ap (main_app m reg) (sym opened)),
  )
    where
      by_test : Bool → Shown V
      by_test b = if b then focused else sign_in login w vaults

      by_peer :
          (b : Bool)
          → by_test b ≡ main_app m reg h
          → (b ≡ false) × ((v : V) × (h ≡ some v) × IsSource w vaults m reg v)
      by_peer true k = absurd (cc k)
      by_peer false k = (refl, sign_in-main_app w vaults m reg h k)
