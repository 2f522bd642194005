-- ===== src/Usb/Lookup.antt =====
-- src/passman/core/flows/usb_login_lookup.py: finding and mounting the drive of a registered vault.
-- What UDisks2 answers is a parameter: the blocks, whether a container can be unlocked, the blocks
-- after that, and where a device gets mounted.
pub mod Connected
pub mod Narrow
use ash_password_manager.Common.{
  Bool, true, false, not, ◌&&◌, Option, none, some, List, [], ◌∷◌, ◌++◌, Bytes, same_bytes,
  same_bytes→eq, eq→same_bytes, Any, Bool-cases, ◌≡◌, ◌≢◌, refl, sym, ap, ◌∙◌, ◌⊎◌, inl, inr, arith,
  subst, if◌then◌else◌,
}
use ash_password_manager.Common.Chars.{codes}
use ash_password_manager.Usb.Identity.{Registration, is_text}

pub record RawBlockInfo : Type 0 where
  pub object_path : Bytes
  pub device : Bytes
  pub id_uuid : Bytes
  pub id_usage : Bytes
  pub crypto_backing_device : Option Bytes
  pub mountpoints : List Bytes

pub record Udisks : Type 0 where
  pub blocks : List RawBlockInfo
  pub unlocks : Bytes → Bool
  pub blocks_after : List RawBlockInfo
  pub mounts : Bytes → Option Bytes

abbrev pub first_block : (RawBlockInfo → Bool) → List RawBlockInfo → Option RawBlockInfo
first_block p [] = none
first_block p (b ∷ bs) = if p b then some b else first_block p bs

-- The mountpoint, and the devices for which `udisksctl unlock` was run.
abbrev pub Found : Type 0
Found = Option Bytes × List Bytes

abbrev pub mounted_at : Udisks → RawBlockInfo → List Bytes → Option Bytes
mounted_at u b [] = u.mounts b.device
mounted_at u b (m ∷ ms) = some m

-- `cleartext.id_uuid != record.filesystem_uuid` fails closed.
abbrev pub checked : Udisks → Bytes → List Bytes → Option RawBlockInfo → Found
checked u uuid tried none = (none, tried)
checked u uuid tried (some b) =
    if not (same_bytes b.id_uuid uuid) then (none, tried) else (mounted_at u b b.mountpoints, tried)

abbrev pub is_backed : RawBlockInfo → RawBlockInfo → Bool
is_backed luks b = is_text b.crypto_backing_device luks.object_path

abbrev pub unlocked : Udisks → Bytes → RawBlockInfo → Option RawBlockInfo → Found
unlocked u uuid luks (some b) = checked u uuid [] (some b)
unlocked u uuid luks none =
    if not (u.unlocks luks.device)
    then (none, luks.device ∷ [])
    else checked u uuid (luks.device ∷ []) (first_block (is_backed luks) u.blocks_after)

abbrev pub in_container : Udisks → Bytes → Option RawBlockInfo → Found
in_container u uuid none = (none, [])
in_container u uuid (some luks) = unlocked u uuid luks (first_block (is_backed luks) u.blocks)

abbrev pub plain : Udisks → Option RawBlockInfo → Found
plain u none = (none, [])
plain u (some b) = (mounted_at u b b.mountpoints, [])

abbrev pub is_crypto : Bytes → RawBlockInfo → Bool
is_crypto uuid b = same_bytes b.id_usage (codes "crypto") && same_bytes b.id_uuid uuid

abbrev pub is_filesystem : Bytes → RawBlockInfo → Bool
is_filesystem uuid b = same_bytes b.id_usage (codes "filesystem") && same_bytes b.id_uuid uuid

abbrev pub find_by : Udisks → Bytes → Option Bytes → Found
find_by u uuid (some (c ∷ cs)) = in_container u uuid (first_block (is_crypto (c ∷ cs)) u.blocks)
find_by u uuid _ = plain u (first_block (is_filesystem uuid) u.blocks)

unfoldable pub find_and_mount_vault : Udisks → Registration → Found
find_and_mount_vault u reg = find_by u reg.filesystem_uuid reg.luks_uuid

-- The first vault whose drive is there, with its mountpoint. Each lookup asks UDisks2 anew.
unfoldable pub find_connected_vault : List (Registration × Udisks) → Option (Registration × Bytes)
unfolding find_and_mount_vault
find_connected_vault [] = none
find_connected_vault ((reg, u) ∷ vaults) =
    let rest = find_connected_vault vaults in
    elim ((find_and_mount_vault u reg).0) [ none ↦ rest | some m ↦ some (reg, m) ]
