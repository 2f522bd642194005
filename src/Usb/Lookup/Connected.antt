-- ===== src/Usb/Lookup/Connected.antt =====
-- src/passman/core/flows/usb_login_lookup.py: which of the registered vaults is opened.
use ash_password_manager.Common.{
  Option, none, some, List, [], ◌∷◌, ◌++◌, Bytes, Any, ◌≡◌, refl, sym, ap, ◌∙◌, subst, ◌⊎◌, inl,
  inr, ◌↔◌,
}
use ash_password_manager.Usb.Identity.{Registration}
use ash_password_manager.Usb.Lookup.{Udisks, find_and_mount_vault, find_connected_vault}
use ash_password_manager.Usb.Lookup.Narrow.{IsMountedAt, find_and_mount_vault-IsNarrow}

-- The vault is the first one whose lookup gives a mountpoint, and that is the mountpoint of a block with
-- its registered file system.
abbrev pub IsFirst : List (Registration × Udisks) → Registration → Bytes → Type 0
IsFirst [] reg m = ⊥
IsFirst ((r, u) ∷ vaults) reg m =
    ((r ≡ reg)
      × (((find_and_mount_vault u r).0) ≡ some m)
      × Any (IsMountedAt u r.filesystem_uuid m) (u.blocks ++ u.blocks_after))
    ⊎ ((((find_and_mount_vault u r).0) ≡ none) × IsFirst vaults reg m)

abbrev Hit : Type 0
Hit = Option (Registration × Bytes)

hit-injective :
    {r reg : Registration} {x m : Bytes}
    → ◌≡◌ {A = Hit} (some (r, x)) (some (reg, m))
    → (r ≡ reg) × (x ≡ m)
hit-injective e = (cc e, cc e)

-- One turn of the loop, by what the lookup gives.
module _ (r : Registration) (u : Udisks) (vaults : List (Registration × Udisks))
    (reg : Registration) (m : Bytes) where
  chosen : Option Bytes → Hit
  chosen o = elim o [ none ↦ find_connected_vault vaults | some x ↦ some (r, x) ]

  onto :
      ((find_connected_vault vaults ≡ some (reg, m)) ↔ IsFirst vaults reg m)
      → (o : Option Bytes) → ((find_and_mount_vault u r).0) ≡ o
      → chosen o ≡ some (reg, m)
      → IsFirst ((r, u) ∷ vaults) reg m
  unfolding chosen
  onto others none found e = inr (found, others.0 e)
  onto others (some x) found e =
      let (same, at) = hit-injective e in
      let there = found ∙ ap some at in
      inl (same, there, (find_and_mount_vault-IsNarrow u r).0 m there)

  back :
      ((find_connected_vault vaults ≡ some (reg, m)) ↔ IsFirst vaults reg m)
      → IsFirst ((r, u) ∷ vaults) reg m
      → chosen ((find_and_mount_vault u r).0) ≡ some (reg, m)
  unfolding chosen
  back others (inl (same, found, mounted)) =
      subst (λ o. chosen o ≡ some (reg, m)) (sym found) (ap (λ x. some (x, m)) same)
  back others (inr (missing, later)) =
      subst (λ o. chosen o ≡ some (reg, m)) (sym missing) (others.1 later)

pub find_connected_vault_iff :
    (vaults : List (Registration × Udisks)) (reg : Registration) (m : Bytes)
    → (find_connected_vault vaults ≡ some (reg, m)) ↔ IsFirst vaults reg m
unfolding find_connected_vault chosen
find_connected_vault_iff [] reg m = (λ e. cc e, λ h. absurd h)
find_connected_vault_iff ((r, u) ∷ vaults) reg m =
    let others = find_connected_vault_iff vaults reg m in
    (
      λ e. onto r u vaults reg m others ((find_and_mount_vault u r).0) refl e,
      λ h. back r u vaults reg m others h,
    )
