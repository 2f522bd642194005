-- ===== src/Usb/Identity/Trust.antt =====
-- src/passman/integration/usb/identity.py: what keeps a vault open.
use ash_password_manager.Common.{
  Bool, true, false, not, ◌&&◌, Option, none, some, List, [], ◌∷◌, Bytes, same_bytes, same_bytes→eq,
  Any, Bool-cases, subst, ◌≡◌, ◌≢◌, refl, sym, ap, ◌⊎◌, inl, inr, arith,
}
use ash_password_manager.Common.Chars.{codes}
use ash_password_manager.Usb.Identity.{
  BlockDevice, device, Devices, no_devices, more_devices, Registration, block_of, children_of,
  walk_all, members, is_text, is_luks, find, find_luks_device, find_unlocked_child,
  find_filesystem_device, given, evaluate_usb_status, evaluate_plain_filesystem_status, status_by,
  luks_status, inner_status, plain_status, should_lock_for_usb_state, should_lock_for_usb_removal,
}

-- The file system is mounted where the vault was opened from.
abbrev pub IsAt : Bytes → BlockDevice → Type 0
IsAt expected d = ((block_of d).mountpoint ≡ some expected) × (expected ≢ [])

-- A device, at any depth, that is no LUKS container and has the registered UUID.
abbrev pub IsPlain : Bytes → Bytes → BlockDevice → Type 0
IsPlain uuid expected d = (is_luks d ≡ false) × ((block_of d).uuid ≡ some uuid) × IsAt expected d

-- A child of a LUKS container: it is a mapping with the registered UUID.
abbrev pub IsInner : Bytes → Bytes → BlockDevice → Type 0
IsInner uuid expected d =
    ((block_of d).kind ≡ codes "crypt") × ((block_of d).uuid ≡ some uuid) × IsAt expected d

abbrev pub IsOuter : Bytes → Bytes → Bytes → BlockDevice → Type 0
IsOuter luks uuid expected d =
    ((block_of d).fstype ≡ some (codes "crypto_LUKS"))
    × ((block_of d).uuid ≡ some luks)
    × Any (IsInner uuid expected) (members (children_of d))

-- The registered identifiers are found together on one drive.
abbrev pub IsGenuine : Devices → Bytes → Bytes → Option Bytes → Type 0
IsGenuine devices uuid expected (some (c ∷ cs)) =
    Any (IsOuter (c ∷ cs) uuid expected) (walk_all devices)
IsGenuine devices uuid expected _ = Any (IsPlain uuid expected) (walk_all devices)

pub is_text→eq : (o : Option Bytes) (t : Bytes) → is_text o t ≡ true → o ≡ some t
is_text→eq none t h = absurd (cc h)
is_text→eq (some s) t h = ap some (same_bytes→eq s t h)

some_same : {d e : BlockDevice} → ◌≡◌ {A = Option BlockDevice} (some d) (some e) → d ≡ e
some_same h = cc h

pub find-Any :
    (P : BlockDevice → Type 0) (p : BlockDevice → Bool) (ds : List BlockDevice) (d : BlockDevice)
    → find p ds ≡ some d
    → (p d ≡ true → P d)
    → Any P ds
find-Any P p [] d h f = absurd (cc h)
find-Any P p (e ∷ ds) d h f = elim (Bool-cases (p e)) [
  | inl hit ↦
      let same : e ≡ d = some_same (rw hit at h) in
      inl (subst P (sym same) (f (subst (λ x. p x ≡ true) same hit)))
  | inr miss ↦ inr (find-Any P p ds d (rw miss at h) f)
]

open_is_not : ◌≡◌ {A = Bool} true false → ⊥
open_is_not h = cc h

not-false : (b : Bool) → not b ≡ false → b ≡ true
not-false true h = refl
not-false false h = sym h

-- A status that is mounted there, if the mountpoint is a text.
kept_at :
    (m : Option Bytes) (expected : Bytes)
    → given m ≡ true
    → is_text m expected ≡ true
    → (m ≡ some expected) × (expected ≢ [])
kept_at none expected g h = absurd (cc g)
kept_at (some []) expected g h = absurd (cc g)
kept_at (some (c ∷ cs)) expected g h =
    let e = same_bytes→eq (c ∷ cs) expected h in (ap some e, λ n. cc (e, n))

plain_kept :
    (o : Option BlockDevice) (expected : Bytes)
    → should_lock_for_usb_state (plain_status o) expected ≡ false
    → (d : BlockDevice) × (o ≡ some d) × IsAt expected d
unfolding should_lock_for_usb_state
plain_kept none expected h = absurd (cc h)
plain_kept (some d) expected h = elim (Bool-cases (given (block_of d).mountpoint)) [
  | inr no_mount ↦ absurd (open_is_not (rw no_mount at h))
  | inl there ↦ (
    d,
    refl,
    kept_at (block_of d).mountpoint expected there
        (not-false (is_text (block_of d).mountpoint expected) (rw there at h)),
  )
]

inner_kept :
    (outer : BlockDevice) (o : Option BlockDevice) (expected : Bytes)
    → should_lock_for_usb_state (inner_status outer o) expected ≡ false
    → (d : BlockDevice) × (o ≡ some d) × IsAt expected d
unfolding should_lock_for_usb_state
inner_kept (device b no_devices) none expected h = absurd (cc h)
inner_kept (device b (more_devices d ds)) none expected h = absurd (cc h)
inner_kept outer (some d) expected h = elim (Bool-cases (given (block_of d).mountpoint)) [
  | inr no_mount ↦ absurd (open_is_not (rw no_mount at h))
  | inl there ↦ (
    d,
    refl,
    kept_at (block_of d).mountpoint expected there
        (not-false (is_text (block_of d).mountpoint expected) (rw there at h)),
  )
]

module _ (devices : Devices) (uuid expected : Bytes) where
  status-IsPlain :
      should_lock_for_usb_state (evaluate_plain_filesystem_status devices uuid) expected ≡ false
      → Any (IsPlain uuid expected) (walk_all devices)
  unfolding evaluate_plain_filesystem_status find_filesystem_device
  status-IsPlain h =
      let test : BlockDevice → Bool = λ d. not (is_luks d) && is_text (block_of d).uuid uuid in
      let (d, e, at) = plain_kept (find test (walk_all devices)) expected h in
      find-Any (IsPlain uuid expected) test (walk_all devices) d e
        (λ hit. ground (arith, is_text→eq (block_of d).uuid uuid, at))

  status-IsInner :
      (outer : BlockDevice)
      → should_lock_for_usb_state (inner_status outer (find_unlocked_child outer uuid)) expected
        ≡ false
      → Any (IsInner uuid expected) (members (children_of outer))
  unfolding find_unlocked_child
  status-IsInner outer h =
      let test : BlockDevice → Bool =
        λ d. same_bytes (block_of d).kind (codes "crypt") && is_text (block_of d).uuid uuid in
      let (d, e, at) = inner_kept outer (find test (members (children_of outer))) expected h in
      find-Any (IsInner uuid expected) test (members (children_of outer)) d e (λ hit. ground (
        arith,
        is_text→eq (block_of d).uuid uuid,
        same_bytes→eq (block_of d).kind (codes "crypt"),
        at,
      ))

  luks_kept :
      (o : Option BlockDevice)
      → should_lock_for_usb_state (luks_status uuid o) expected ≡ false
      → (d : BlockDevice) × (o ≡ some d) × Any (IsInner uuid expected) (members (children_of d))
  unfolding should_lock_for_usb_state
  luks_kept none h = absurd (cc h)
  luks_kept (some outer) h = (outer, refl, status-IsInner outer h)

  luks_genuine :
      (luks : Bytes)
      → should_lock_for_usb_state (luks_status uuid (find_luks_device devices luks)) expected
        ≡ false
      → Any (IsOuter luks uuid expected) (walk_all devices)
  unfolding find_luks_device
  luks_genuine luks h =
      let test : BlockDevice → Bool = λ d. is_luks d && is_text (block_of d).uuid luks in
      let (d, e, inner) = luks_kept (find test (walk_all devices)) h in
      find-Any (IsOuter luks uuid expected) test (walk_all devices) d e (λ hit. ground (
        arith,
        is_text→eq (block_of d).uuid luks,
        is_text→eq (block_of d).fstype (codes "crypto_LUKS"),
        inner,
      ))

  by_registration :
      (o : Option Bytes)
      → should_lock_for_usb_state
          (status_by devices (record { luks_uuid = o; filesystem_uuid = uuid }) o)
          expected
        ≡ false
      → IsGenuine devices uuid expected o
  by_registration none h = status-IsPlain h
  by_registration (some []) h = status-IsPlain h
  by_registration (some (c ∷ cs)) h = luks_genuine (c ∷ cs) h

-- A poll of the block devices leaves the vault open only if the user chose so, or if the registered
-- identifiers are found together: on a LUKS container with the registered UUID, a mapping below it with
-- the registered file system; without LUKS, that file system on a device that is no container. In both
-- cases it is mounted where the vault was opened from. So a drive that is absent, locked, not mounted,
-- mounted elsewhere, or formatted anew locks the vault.
pub open_only_if :
    (devices : Devices) (reg : Registration) (expected action : Bytes)
    → should_lock_for_usb_removal (evaluate_usb_status devices reg) expected action ≡ false
    → (action ≡ codes "keep_unlocked")
      ⊎ IsGenuine devices reg.filesystem_uuid expected reg.luks_uuid
unfolding should_lock_for_usb_removal evaluate_usb_status
open_only_if devices reg expected action h =
    elim (Bool-cases (same_bytes action (codes "keep_unlocked"))) [
      | inl keeps ↦ inl (same_bytes→eq action (codes "keep_unlocked") keeps)
      | inr checks ↦
          inr (by_registration devices reg.filesystem_uuid expected reg.luks_uuid (rw checks at h))
    ]
