-- ===== src/Usb/Lookup/Narrow.antt =====
-- src/passman/core/flows/usb_login_lookup.py: nothing but the registered drive is unlocked or
-- mounted.
use ash_password_manager.Common.{
  Bool, true, Option, none, some, List, [], ◌∷◌, ◌++◌, Bytes, same_bytes, same_bytes→eq, Any,
  Bool-cases, Option-cases, ◌≡◌, refl, sym, ◌⊎◌, inl, inr, arith, subst,
}
use ash_password_manager.Common.Chars.{codes}
use ash_password_manager.Usb.Identity.{Registration}
use ash_password_manager.Usb.Lookup.{
  RawBlockInfo, Udisks, Found, first_block, mounted_at, checked, is_backed, unlocked, in_container,
  plain, is_crypto, is_filesystem, find_by, find_and_mount_vault,
}

-- The block has the file system of the vault, and was or could be mounted there.
abbrev pub IsMountedAt : Udisks → Bytes → Bytes → RawBlockInfo → Type 0
IsMountedAt u uuid m b = (b.id_uuid ≡ uuid) × (mounted_at u b b.mountpoints ≡ some m)

-- The container that was registered, by its device.
abbrev pub IsContainer : Bytes → Bytes → RawBlockInfo → Type 0
IsContainer luks tried b = (b.id_usage ≡ codes "crypto") × (b.id_uuid ≡ luks) × (b.device ≡ tried)

-- What a lookup may have done: a mountpoint is that of a block with the registered file system, and
-- unlocking was tried for nothing but a container with the registered UUID that is there.
abbrev pub IsNarrow : Udisks → Registration → Found → Type 0
IsNarrow u reg (found, tried) =
    ((m : Bytes)
      → found ≡ some m
      → Any (IsMountedAt u reg.filesystem_uuid m) (u.blocks ++ u.blocks_after))
    × ((tried ≡ [])
        ⊎ ((luks : Bytes) × (d : Bytes) × (reg.luks_uuid ≡ some luks)
            × (tried ≡ d ∷ [])
            × Any (IsContainer luks d) u.blocks))

Any-left {ℓ} : {A : Type ℓ} (P : A → Type 0) (xs ys : List A) → Any P xs → Any P (xs ++ ys)
Any-left P [] ys h = absurd h
Any-left P (x ∷ xs) ys (inl h) = inl h
Any-left P (x ∷ xs) ys (inr h) = inr (Any-left P xs ys h)

Any-right {ℓ} : {A : Type ℓ} (P : A → Type 0) (xs ys : List A) → Any P ys → Any P (xs ++ ys)
Any-right P [] ys h = h
Any-right P (x ∷ xs) ys h = inr (Any-right P xs ys h)

some_same : {b c : RawBlockInfo} → ◌≡◌ {A = Option RawBlockInfo} (some b) (some c) → b ≡ c
some_same h = cc h

first_block-Any :
    (P : RawBlockInfo → Type 0) (p : RawBlockInfo → Bool) (bs : List RawBlockInfo)
    (b : RawBlockInfo)
    → first_block p bs ≡ some b
    → (p b ≡ true → P b)
    → Any P bs
first_block-Any P p [] b h f = absurd (cc h)
first_block-Any P p (c ∷ bs) b h f = elim (Bool-cases (p c)) [
  | inl hit ↦
      let same : c ≡ b = some_same (rw hit at h) in
      inl (subst P (sym same) (f (subst (λ x. p x ≡ true) same hit)))
  | inr miss ↦ inr (first_block-Any P p bs b (rw miss at h) f)
]

nothing_found : (m : Bytes) → ◌≡◌ {A = Option Bytes} none (some m) → ⊥
nothing_found m h = cc h

module _ (u : Udisks) (uuid : Bytes) where
  checked_at :
      (b : RawBlockInfo) (tried : List Bytes) (m : Bytes)
      → (checked u uuid tried (some b)).0 ≡ some m
      → IsMountedAt u uuid m b
  checked_at b tried m h = elim (Bool-cases (same_bytes b.id_uuid uuid)) [
    | inl same ↦ (same_bytes→eq b.id_uuid uuid same, rw same at h)
    | inr other ↦ absurd (nothing_found m (rw other at h))
  ]

  checked_in :
      (p : RawBlockInfo → Bool) (bs : List RawBlockInfo) (tried : List Bytes) (m : Bytes)
      → (checked u uuid tried (first_block p bs)).0 ≡ some m
      → Any (IsMountedAt u uuid m) bs
  checked_in p [] tried m h = absurd (nothing_found m h)
  checked_in p (b ∷ bs) tried m h = elim (Bool-cases (p b)) [
    | inl hit ↦ inl (checked_at b tried m (rw hit at h))
    | inr miss ↦ inr (checked_in p bs tried m (rw miss at h))
  ]

  checked_tried :
      (o : Option RawBlockInfo) (tried : List Bytes) → (checked u uuid tried o).1 ≡ tried
  checked_tried none tried = refl
  checked_tried (some b) tried = elim (Bool-cases (same_bytes b.id_uuid uuid)) [
    | inl same ↦ rw same refl
    | inr other ↦ rw other refl
  ]

  plain_in :
      (bs : List RawBlockInfo) (m : Bytes)
      → (plain u (first_block (is_filesystem uuid) bs)).0 ≡ some m
      → Any (IsMountedAt u uuid m) bs
  plain_in [] m h = absurd (nothing_found m h)
  plain_in (b ∷ bs) m h = elim (Bool-cases (is_filesystem uuid b)) [
    | inl hit ↦ inl (ground (arith, same_bytes→eq b.id_uuid uuid), plain_at b m (rw hit at h))
    | inr miss ↦ inr (plain_in bs m (rw miss at h))
  ]
    where
      plain_at :
          (b : RawBlockInfo) (m : Bytes)
          → (plain u (some b)).0 ≡ some m
          → mounted_at u b b.mountpoints ≡ some m
      plain_at b m h = h

  plain_tried : (o : Option RawBlockInfo) → (plain u o).1 ≡ []
  plain_tried none = refl
  plain_tried (some b) = refl

  unlocked_after :
      (luks : RawBlockInfo) (m : Bytes)
      → (unlocked u uuid luks none).0 ≡ some m
      → Any (IsMountedAt u uuid m) u.blocks_after
  unlocked_after luks m h = elim (Bool-cases (u.unlocks luks.device)) [
    | inl works ↦ checked_in (is_backed luks) u.blocks_after (luks.device ∷ []) m (rw works at h)
    | inr fails ↦ absurd (nothing_found m (rw fails at h))
  ]

  -- After the container has been found: the mountpoint, and what was tried.
  unlocked_found :
      (luks : RawBlockInfo) (m : Bytes)
      → (unlocked u uuid luks (first_block (is_backed luks) u.blocks)).0 ≡ some m
      → Any (IsMountedAt u uuid m) (u.blocks ++ u.blocks_after)
  unlocked_found luks m h = elim (Option-cases (first_block (is_backed luks) u.blocks)) [
    | inl e ↦
        Any-right (IsMountedAt u uuid m) u.blocks u.blocks_after (unlocked_after luks m (rw e at h))
    | inr (b, e) ↦
        let k : (checked u uuid [] (first_block (is_backed luks) u.blocks)).0 ≡ some m =
          rw e (rw e at h) in
        Any-left (IsMountedAt u uuid m) u.blocks u.blocks_after
          (checked_in (is_backed luks) u.blocks [] m k)
  ]

  unlocked_tried :
      (luks : RawBlockInfo) (o : Option RawBlockInfo)
      → ((unlocked u uuid luks o).1 ≡ []) ⊎ ((unlocked u uuid luks o).1 ≡ luks.device ∷ [])
  unlocked_tried luks (some b) = inl (checked_tried (some b) [])
  unlocked_tried luks none = elim (Bool-cases (u.unlocks luks.device)) [
    | inl works ↦
        inr (
          rw works (checked_tried (first_block (is_backed luks) u.blocks_after) (luks.device ∷ [])))
    | inr fails ↦ inr (rw fails refl)
  ]

  container_found :
      (o : Option RawBlockInfo) (m : Bytes)
      → (in_container u uuid o).0 ≡ some m
      → Any (IsMountedAt u uuid m) (u.blocks ++ u.blocks_after)
  container_found none m h = absurd (nothing_found m h)
  container_found (some luks) m h = unlocked_found luks m h

  -- Unlocking is tried for a container that is there.
  abbrev Tried : Bytes → List Bytes → Type 0
  Tried luks tried =
      (tried ≡ []) ⊎ ((d : Bytes) × (tried ≡ d ∷ []) × Any (IsContainer luks d) u.blocks)

  container-Tried :
      (luks : Bytes) → Tried luks (in_container u uuid (first_block (is_crypto luks) u.blocks)).1
  container-Tried luks = elim (Option-cases (first_block (is_crypto luks) u.blocks)) [
    | inl e ↦ rw e (inl refl)
    | inr (b, e) ↦ rw e (tried_at b e (unlocked_tried b (first_block (is_backed b) u.blocks)))
  ]
    where
      tried_at :
          (b : RawBlockInfo)
          → first_block (is_crypto luks) u.blocks ≡ some b
          → let tried = (unlocked u uuid b (first_block (is_backed b) u.blocks)).1 in
            (tried ≡ []) ⊎ (tried ≡ b.device ∷ [])
            → Tried luks (unlocked u uuid b (first_block (is_backed b) u.blocks)).1
      tried_at b e (inl h) = inl h
      tried_at b e (inr h) = inr (
        b.device,
        h,
        first_block-Any (IsContainer luks b.device) (is_crypto luks) u.blocks b e (λ hit.
            ground
              (arith, same_bytes→eq b.id_usage (codes "crypto"), same_bytes→eq b.id_uuid luks)),
      )

  by_registration :
      (o : Option Bytes)
      → IsNarrow u (record { luks_uuid = o; filesystem_uuid = uuid }) (find_by u uuid o)
  by_registration none = (
    λ m h. Any-left (IsMountedAt u uuid m) u.blocks u.blocks_after (plain_in u.blocks m h),
    inl (plain_tried (first_block (is_filesystem uuid) u.blocks)),
  )
  by_registration (some []) = (
    λ m h. Any-left (IsMountedAt u uuid m) u.blocks u.blocks_after (plain_in u.blocks m h),
    inl (plain_tried (first_block (is_filesystem uuid) u.blocks)),
  )
  by_registration (some (c ∷ cs)) = (
    λ m h. container_found (first_block (is_crypto (c ∷ cs)) u.blocks) m h,
    named (c ∷ cs) (container-Tried (c ∷ cs)),
  )
    where
      named :
          (luks : Bytes) {tried : List Bytes}
          → Tried luks tried
          → (tried ≡ [])
            ⊎ ((l : Bytes) × (d : Bytes) × (some luks ≡ some l)
                × (tried ≡ d ∷ [])
                × Any (IsContainer l d) u.blocks)
      named luks (inl h) = inl h
      named luks (inr (d, h, k)) = inr (luks, d, refl, h, k)

-- A lookup gives no mountpoint but that of a block with the registered file system, seen before or
-- after an unlock; and the user is asked to unlock nothing, except once a container whose UUID is the
-- registered one, if that has been found among the blocks.
pub find_and_mount_vault-IsNarrow :
    (u : Udisks) (reg : Registration) → IsNarrow u reg (find_and_mount_vault u reg)
unfolding find_and_mount_vault
find_and_mount_vault-IsNarrow u reg = by_registration u reg.filesystem_uuid reg.luks_uuid
