-- ===== src/Vault/Kdbx/History/Saving.antt =====
-- src/passman/core/vault/kdbx.py: what one save does, on every path.
use ash_password_manager.Common.{
  Bool, true, false, not, Option, none, some, Bytes, same_bytes, same_bytes→eq, eq→same_bytes, ◌⊎◌,
  inl, inr, ◌≡◌, refl, sym, ◌∙◌, Bool-cases, if◌then◌else◌,
}
use ash_password_manager.Vault.Kdbx.{
  Library, VaultHandle, VaultFailure, Conditions, Saved, conflict, vault_error, changed, reread,
  refused, write_back, save_over, save_open, save,
}
use ash_password_manager.Vault.Kdbx.History.{Matches}

true-ne-false : ◌≡◌ {A = Bool} true false → ⊥
true-ne-false h = cc h

module _ (lib : Library) where
  open lib use {Database, file_digest, dump}

  -- The handle is closed, another process is saving, the file could not be read, it has not the content
  -- of the handle's fingerprint, or it could not be written.
  abbrev pub IsHindered : Conditions lib → Option Database → Option Bytes → VaultHandle lib → Type 0
  IsHindered c kp disk h =
      (kp ≡ none)
      ⊎ (c.is_held ≡ true)
      ⊎ (c.can_read ≡ false)
      ⊎ (Matches lib (some h) disk → ⊥)
      ⊎ (c.can_write ≡ false)

  -- The save has failed for a reason, the handle is as it was, and what has become of the file is the
  -- doing of others.
  abbrev pub IsLeft :
      Conditions lib → Option Database → Option Bytes → VaultHandle lib → Saved lib → Type 0
  IsLeft c kp disk h r =
      (((e : VaultFailure) × (r.failure ≡ some e)) × IsHindered c kp disk h)
      × (r.handle ≡ h)
      × ((r.disk ≡ disk) ⊎ (c.before_rename ≡ some r.disk))

  -- The database of the handle was renamed over the file. Then the handle has the fingerprint of the file
  -- that is there, or the save has failed and the handle is as it was.
  abbrev pub IsReplaced : Conditions lib → Option Database → VaultHandle lib → Saved lib → Type 0
  IsReplaced c kp h r =
      ((db : Database) × (kp ≡ some db)
        × (r.disk ≡ changed lib c.after_rename (some (dump c.seeds db))))
      × (((r.failure ≡ none) × Matches lib (some r.handle) r.disk)
          ⊎ ((r.failure ≡ some vault_error)
              × (r.handle ≡ h)
              × ((r.disk ≡ none) ⊎ (c.can_reread ≡ false))))

  -- A save that replaces the file has found the content of the handle's fingerprint.
  abbrev pub Fits :
      Conditions lib → Option Database → Option Bytes → VaultHandle lib → Saved lib → Type 0
  Fits c kp disk h r = IsLeft c kp disk h r ⊎ (Matches lib (some h) disk × IsReplaced c kp h r)

  reread-IsReplaced :
      (c : Conditions lib) (db : Database) (h : VaultHandle lib) (o : Option Bytes)
      → o ≡ changed lib c.after_rename (some (dump c.seeds db))
      → IsReplaced c (some db) h (reread lib c o h)
  reread-IsReplaced c db h none e = ((db, refl, e), inr (refl, refl, inl refl))
  reread-IsReplaced c db h (some now) e = elim (Bool-cases c.can_reread) [
    | inl can ↦ rw can ((db, refl, e), inl (refl, refl))
    | inr failed ↦ rw failed ((db, refl, e), inr (refl, refl, inr refl))
  ]

  write_back-Fits :
      (c : Conditions lib) (db : Database) (current : Bytes) (h : VaultHandle lib)
      → Fits c (some db) (some current) h (write_back lib c db current h)
  write_back-Fits c db current h =
      elim (Bool-cases (same_bytes (file_digest current) h.fingerprint)) [
        | inr other ↦
            rw other
              (inl (((conflict, refl), inr (inr (inr (inl (mismatch other))))), refl, inl refl))
        | inl same ↦ elim (Bool-cases c.can_write) [
          | inr failed ↦
              rw (same, failed)
                (inl (
                  ((vault_error, refl), inr (inr (inr (inr refl)))),
                  refl,
                  left_by c.before_rename refl,
                ))
          | inl can ↦
              rw (same, can)
                (inr (
                  sym (same_bytes→eq (file_digest current) h.fingerprint same),
                  reread-IsReplaced c db h (changed lib c.after_rename (some (dump c.seeds db)))
                      refl,
                ))
        ]
      ]
    where
      mismatch :
          same_bytes (file_digest current) h.fingerprint ≡ false
          → h.fingerprint ≡ file_digest current
          → ⊥
      mismatch other same =
          true-ne-false (sym (eq→same_bytes (file_digest current) h.fingerprint (sym same)) ∙ other)

      left_by :
          (o : Option (Option Bytes))
          → c.before_rename ≡ o
          → (changed lib o (some current) ≡ some current)
            ⊎ (c.before_rename ≡ some (changed lib o (some current)))
      left_by none e = inl refl
      left_by (some other) e = inr e

  save_over-Fits :
      (c : Conditions lib) (db : Database) (disk : Option Bytes) (h : VaultHandle lib)
      → Fits c (some db) disk h (save_over lib c db disk h)
  save_over-Fits c db none h =
      inl (((conflict, refl), inr (inr (inr (inl (λ m. m))))), refl, inl refl)
  save_over-Fits c db (some current) h = write_back-Fits c db current h

  save_open-Fits :
      (c : Conditions lib) (kp : Option Database) (disk : Option Bytes) (h : VaultHandle lib)
      → Fits c kp disk h (save_open lib c kp disk h)
  save_open-Fits c none disk h = inl (((vault_error, refl), inl refl), refl, inl refl)
  save_open-Fits c (some db) disk h = by_lock c.is_held refl
    where
      by_reading :
          (b : Bool)
          → c.can_read ≡ b
          → Fits c
              (some db)
              disk
              h
              (if not b then refused lib vault_error disk h else save_over lib c db disk h)
      by_reading true read = save_over-Fits c db disk h
      by_reading false unread = inl (((vault_error, refl), inr (inr (inl unread))), refl, inl refl)

      by_lock :
          (b : Bool)
          → c.is_held ≡ b
          → Fits c (some db) disk h (
              if b
              then refused lib conflict disk h
              else if not c.can_read
              then refused lib vault_error disk h
              else save_over lib c db disk h)
      by_lock true held = inl (((conflict, refl), inr (inl held)), refl, inl refl)
      by_lock false free = by_reading c.can_read refl

  pub save-Fits :
      (c : Conditions lib) (disk : Option Bytes) (h : VaultHandle lib)
      → Fits c h.kp disk h (save lib c disk h)
  unfolding save
  save-Fits c disk h = save_open-Fits c h.kp disk h
