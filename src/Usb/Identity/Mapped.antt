-- ===== src/Usb/Identity/Mapped.antt =====
-- src/passman/integration/usb/identity.py: the device that a status offers to mount.
use ash_password_manager.Common.{
  Bool, false, not, ◌&&◌, Option, none, some, [], ◌∷◌, Bytes, same_bytes, same_bytes→eq, Any,
  Bool-cases, ◌≡◌, refl, inl, inr, arith,
}
use ash_password_manager.Common.Chars.{codes}
use ash_password_manager.Usb.Identity.{
  BlockDevice, device, Devices, no_devices, more_devices, Registration, block_of, children_of,
  walk_all, members, is_text, is_luks, find, find_luks_device, find_unlocked_child,
  find_filesystem_device, given, evaluate_usb_status, evaluate_plain_filesystem_status, status_by,
  luks_status, inner_status, plain_status,
}
use ash_password_manager.Usb.Identity.Trust.{is_text→eq, find-Any}

abbrev pub IsPlainAt : Bytes → Bytes → BlockDevice → Type 0
IsPlainAt uuid path d =
    (is_luks d ≡ false) × ((block_of d).uuid ≡ some uuid) × ((block_of d).path ≡ path)

abbrev pub IsInnerAt : Bytes → Bytes → BlockDevice → Type 0
IsInnerAt uuid path d =
    ((block_of d).kind ≡ codes "crypt")
    × ((block_of d).uuid ≡ some uuid)
    × ((block_of d).path ≡ path)

abbrev pub IsOuterOf : Bytes → Bytes → Bytes → BlockDevice → Type 0
IsOuterOf luks uuid path d =
    ((block_of d).fstype ≡ some (codes "crypto_LUKS"))
    × ((block_of d).uuid ≡ some luks)
    × Any (IsInnerAt uuid path) (members (children_of d))

-- The device of this path carries the registered identifiers.
abbrev pub IsMapped : Devices → Bytes → Bytes → Option Bytes → Type 0
IsMapped devices uuid path (some (c ∷ cs)) = Any (IsOuterOf (c ∷ cs) uuid path) (walk_all devices)
IsMapped devices uuid path _ = Any (IsPlainAt uuid path) (walk_all devices)

some_text : {a b : Bytes} → ◌≡◌ {A = Option Bytes} (some a) (some b) → a ≡ b
some_text e = cc e

plain_path :
    (o : Option BlockDevice) (path : Bytes)
    → (plain_status o).mapped_device_path ≡ some path
    → (d : BlockDevice) × (o ≡ some d) × ((block_of d).path ≡ path)
plain_path none path h = absurd (cc h)
plain_path (some d) path h = elim (Bool-cases (given (block_of d).mountpoint)) [
  | inl there ↦ (d, refl, some_text (rw there at h))
  | inr missing ↦ (d, refl, some_text (rw missing at h))
]

inner_path :
    (outer : BlockDevice) (o : Option BlockDevice) (path : Bytes)
    → (inner_status outer o).mapped_device_path ≡ some path
    → (d : BlockDevice) × (o ≡ some d) × ((block_of d).path ≡ path)
inner_path (device b no_devices) none path h = absurd (cc h)
inner_path (device b (more_devices d ds)) none path h = absurd (cc h)
inner_path outer (some d) path h = elim (Bool-cases (given (block_of d).mountpoint)) [
  | inl there ↦ (d, refl, some_text (rw there at h))
  | inr missing ↦ (d, refl, some_text (rw missing at h))
]

module _ (devices : Devices) (uuid path : Bytes) where
  plain-IsMapped :
      (evaluate_plain_filesystem_status devices uuid).mapped_device_path ≡ some path
      → Any (IsPlainAt uuid path) (walk_all devices)
  unfolding evaluate_plain_filesystem_status find_filesystem_device
  plain-IsMapped h =
      let test : BlockDevice → Bool = λ d. not (is_luks d) && is_text (block_of d).uuid uuid in
      let (d, e, at) = plain_path (find test (walk_all devices)) path h in
      find-Any (IsPlainAt uuid path) test (walk_all devices) d e
        (λ hit. ground (arith, is_text→eq (block_of d).uuid uuid, at))

  inner-IsMapped :
      (outer : BlockDevice)
      → (inner_status outer (find_unlocked_child outer uuid)).mapped_device_path ≡ some path
      → Any (IsInnerAt uuid path) (members (children_of outer))
  unfolding find_unlocked_child
  inner-IsMapped outer h =
      let test : BlockDevice → Bool =
        λ d. same_bytes (block_of d).kind (codes "crypt") && is_text (block_of d).uuid uuid in
      let (d, e, at) = inner_path outer (find test (members (children_of outer))) path h in
      find-Any (IsInnerAt uuid path) test (members (children_of outer)) d e (λ hit. ground (
        arith,
        is_text→eq (block_of d).uuid uuid,
        same_bytes→eq (block_of d).kind (codes "crypt"),
        at,
      ))

  luks_path :
      (o : Option BlockDevice)
      → (luks_status uuid o).mapped_device_path ≡ some path
      → (d : BlockDevice) × (o ≡ some d) × Any (IsInnerAt uuid path) (members (children_of d))
  luks_path none h = absurd (cc h)
  luks_path (some outer) h = (outer, refl, inner-IsMapped outer h)

  luks-IsMapped :
      (luks : Bytes)
      → (luks_status uuid (find_luks_device devices luks)).mapped_device_path ≡ some path
      → Any (IsOuterOf luks uuid path) (walk_all devices)
  unfolding find_luks_device
  luks-IsMapped luks h =
      let test : BlockDevice → Bool = λ d. is_luks d && is_text (block_of d).uuid luks in
      let (d, e, inner) = luks_path (find test (walk_all devices)) h in
      find-Any (IsOuterOf luks uuid path) test (walk_all devices) d e (λ hit. ground (
        arith,
        is_text→eq (block_of d).uuid luks,
        is_text→eq (block_of d).fstype (codes "crypto_LUKS"),
        inner,
      ))

  status_by-IsMapped :
      (o : Option Bytes)
      → (status_by devices (record { luks_uuid = o; filesystem_uuid = uuid }) o).mapped_device_path
        ≡ some path
      → IsMapped devices uuid path o
  status_by-IsMapped none h = plain-IsMapped h
  status_by-IsMapped (some []) h = plain-IsMapped h
  status_by-IsMapped (some (c ∷ cs)) h = luks-IsMapped (c ∷ cs) h

pub evaluate_usb_status-IsMapped :
    (devices : Devices) (reg : Registration) (path : Bytes)
    → (evaluate_usb_status devices reg).mapped_device_path ≡ some path
    → IsMapped devices reg.filesystem_uuid path reg.luks_uuid
unfolding evaluate_usb_status
evaluate_usb_status-IsMapped devices reg path h =
    status_by-IsMapped devices reg.filesystem_uuid path reg.luks_uuid h
