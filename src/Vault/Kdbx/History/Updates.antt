-- ===== src/Vault/Kdbx/History/Updates.antt =====
-- src/passman/core/vault/kdbx.py: a save replaces only the content that its holder has last read.
use ash_password_manager.Common.{
  ℕ, true, false, ◌==◌, Option, none, some, List, [], ◌∷◌, Bytes, ◌⊎◌, inl, inr, ◌≡◌, refl, sym, ap,
  ◌∙◌, subst, Bool-cases, eqb→eq, eqb_refl,
}
use ash_password_manager.Security.Memory.{SecretBytes}
use ash_password_manager.Vault.Kdbx.{
  Library, VaultHandle, KeyFile, OpenResult, VaultFailure, open_vault, Conditions, Saved,
  vault_error, save, close,
}
use ash_password_manager.Vault.Kdbx.History.{
  World, Event, opens, edits, saves, closes, writes, removes, put, keep_opened, at_once, edited,
  closed, save_through, after, seen_opened, seen_saved, seen_through, seen_content, Matches,
  OpenedFits, opened_from-OpenedFits,
}
use ash_password_manager.Vault.Kdbx.History.Saving.{IsLeft, IsReplaced, Fits, save-Fits}

module _ (lib : Library) where
  open lib use {Database, file_digest, dump}

  open_vault-OpenedFits :
      (disk : Option Bytes) (keyfile : KeyFile lib) (password : Option SecretBytes)
      → OpenedFits lib (open_vault lib (at_once lib disk) keyfile password).0 disk
  unfolding open_vault
  open_vault-OpenedFits disk keyfile password =
      opened_from-OpenedFits lib (at_once lib disk) disk keyfile password

  -- Each handle has the fingerprint of what its holder has last read.
  module _ (start : Option Bytes) (i : ℕ) where
    abbrev Tracked : List (Event lib) → Type 0
    Tracked past = Matches lib ((after lib start past).handles i) (seen_content lib i start past)

    opened_tracked :
        (j : ℕ) (o : OpenResult lib) (w : World lib) (file : Option Bytes)
        → (j == i) ≡ true
        → OpenedFits lib o w.disk
        → Matches lib (w.handles i) file
        → Matches lib ((keep_opened lib j o w).handles i) (seen_opened lib o w.disk file)
    opened_tracked j (inl e) w file same fits m = m
    opened_tracked j (inr h) w file same fits m = rw same fits

    kept_tracked :
        (j : ℕ) (o : OpenResult lib) (w : World lib) (file : Option Bytes)
        → (j == i) ≡ false
        → Matches lib (w.handles i) file
        → Matches lib ((keep_opened lib j o w).handles i) file
    kept_tracked j (inl e) w file other tracked = tracked
    kept_tracked j (inr h) w file other tracked = rw other tracked

    edited_tracked :
        (db : Database) (h : Option (VaultHandle lib)) (file : Option Bytes)
        → Matches lib h file
        → Matches lib (edited lib db h) file
    edited_tracked db none file m = tt
    edited_tracked db (some h) none m = m
    edited_tracked db (some h) (some file) m = m

    closed_tracked :
        (h : Option (VaultHandle lib)) (file : Option Bytes)
        → Matches lib h file
        → Matches lib (closed lib h) file
    unfolding close
    closed_tracked none file m = tt
    closed_tracked (some h) none m = m
    closed_tracked (some h) (some file) m = m

    saved_tracked :
        (c : Conditions lib) (kp : Option Database) (r : Saved lib) (disk : Option Bytes)
        (h : VaultHandle lib) (file : Option Bytes)
        → Fits lib c kp disk h r
        → Matches lib (some h) file
        → Matches lib (some r.handle) (seen_saved lib r.failure r.disk file)
    saved_tracked c kp r disk h file fits m = elim fits [
      | inl (((e, failed), why), kept, left) ↦ unseen e failed kept
      | inr (found, (written, inl (fine, fresh))) ↦
          subst (λ f. Matches lib (some r.handle) (seen_saved lib f r.disk file)) (sym fine) fresh
      | inr (found, (written, inr (failed, kept, why))) ↦ unseen vault_error failed kept
    ]
      where
        unseen :
            (e : VaultFailure)
            → r.failure ≡ some e
            → r.handle ≡ h
            → Matches lib (some r.handle) (seen_saved lib r.failure r.disk file)
        unseen e failed kept =
            subst (λ f. Matches lib (some r.handle) (seen_saved lib f r.disk file)) (sym failed)
              (subst (λ x. Matches lib (some x) file) (sym kept) m)

    -- The handle at `j` is changed to `f` of it.
    put_tracked :
        (f : Option (VaultHandle lib) → Option (VaultHandle lib)) (j : ℕ)
        (handles : ℕ → Option (VaultHandle lib)) (file : Option Bytes)
        → ((h : Option (VaultHandle lib)) → Matches lib h file → Matches lib (f h) file)
        → Matches lib (handles i) file
        → Matches lib (put lib j (f (handles j)) handles i) file
    put_tracked f j handles file keeps m = elim (Bool-cases (j == i)) [
      | inl same ↦
          rw same (
            keeps (handles j) (subst (λ k. Matches lib (handles k) file) (sym (eqb→eq j i same)) m))
      | inr other ↦ rw other m
    ]

    through_tracked :
        (c : Conditions lib) (w : World lib) (o : Option (VaultHandle lib)) (file : Option Bytes)
        → Matches lib (w.handles i) file
        → Matches lib o file
        → Matches lib ((save_through lib i c o w).handles i) (seen_through lib c o w.disk file)
    through_tracked c w none file old m = old
    through_tracked c w (some h) file old m =
        rw (eqb_refl i)
          (saved_tracked c h.kp (save lib c w.disk h) w.disk h file (save-Fits lib c w.disk h) m)

    elsewhere_tracked :
        (j : ℕ) (c : Conditions lib) (w : World lib) (o : Option (VaultHandle lib))
        (file : Option Bytes)
        → (j == i) ≡ false
        → Matches lib (w.handles i) file
        → Matches lib ((save_through lib j c o w).handles i) file
    elsewhere_tracked j c w none file other m = m
    elsewhere_tracked j c w (some h) file other m = rw other m

    tracked : (past : List (Event lib)) → Tracked past
    tracked [] = tt
    tracked (opens j keyfile password ∷ past) =
        let w = after lib start past in
        let o = (open_vault lib (at_once lib w.disk) keyfile password).0 in
        elim (Bool-cases (j == i)) [
          | inl same ↦ rw same (
              opened_tracked j o w (seen_content lib i start past) same
                (open_vault-OpenedFits w.disk keyfile password) (tracked past))
          | inr other ↦
              rw other (kept_tracked j o w (seen_content lib i start past) other (tracked past))
        ]
    tracked (edits j db ∷ past) =
        put_tracked (edited lib db) j (after lib start past).handles (seen_content lib i start past)
          (λ h m. edited_tracked db h (seen_content lib i start past) m) (tracked past)
    tracked (saves j c ∷ past) =
        let w = after lib start past in
        elim (Bool-cases (j == i)) [
          | inl same ↦ rw same (
              subst
                (λ k.
                  Matches lib ((save_through lib k c (w.handles k) w).handles i)
                    (seen_through lib c (w.handles i) w.disk (seen_content lib i start past)))
                (sym (eqb→eq j i same))
                (through_tracked c w (w.handles i) (seen_content lib i start past) (tracked past)
                  (tracked past)))
          | inr other ↦ rw other (
              elsewhere_tracked j c w (w.handles j) (seen_content lib i start past) other
                (tracked past))
        ]
    tracked (closes j ∷ past) =
        put_tracked (closed lib) j (after lib start past).handles (seen_content lib i start past)
          (λ h m. closed_tracked h (seen_content lib i start past) m) (tracked past)
    tracked (writes bytes ∷ past) = tracked past
    tracked (removes ∷ past) = tracked past

  -- The two contents that are compared have different digests, if they differ.
  abbrev pub Distinct : Option Bytes → Option Bytes → Type 0
  Distinct disk file =
      (a b : Bytes) → disk ≡ some a → file ≡ some b → file_digest a ≡ file_digest b → a ≡ b

  same_content :
      (h : VaultHandle lib) (disk file : Option Bytes)
      → Distinct disk file
      → Matches lib (some h) disk
      → Matches lib (some h) file
      → disk ≡ file
  same_content h none file distinct m n = absurd m
  same_content h (some a) none distinct m n = absurd n
  same_content h (some a) (some b) distinct m n = ap some (distinct a b refl refl (sym m ∙ n))

  -- What a save did to the file: it left it to the others, or it replaced the content that the holder had
  -- last seen.
  abbrev pub Outcome : Conditions lib → VaultHandle lib → Option Bytes → Option Bytes → Type 0
  Outcome c h disk file =
      IsLeft lib c h.kp disk h (save lib c disk h)
      ⊎ ((disk ≡ file) × IsReplaced lib c h.kp h (save lib c disk h))

  Fits-Outcome :
      (c : Conditions lib) (h : VaultHandle lib) (disk file : Option Bytes)
      → Fits lib c h.kp disk h (save lib c disk h)
      → Distinct disk file
      → Matches lib (some h) file
      → Outcome c h disk file
  Fits-Outcome c h disk file (inl left) distinct m = inl left
  Fits-Outcome c h disk file (inr (found, replaced)) distinct m =
      inr (same_content h disk file distinct found m, replaced)

  -- After any sequence of openings, edits, saves and closings by any number of holders, and of changes by
  -- other programs, also during a save: a save either fails with the handle as it was and the file as the
  -- others have left it, since the handle is closed, another process saves, the file cannot be read, does
  -- not have the fingerprint of the handle or cannot be written; or the file, when its digest was taken,
  -- was exactly what this holder last read (by opening it, or again after saving it), and then the
  -- database of the handle has been renamed over it. In that case the save succeeds and the handle has the
  -- fingerprint of what is there then, or it fails after the rename, since the file is gone or cannot be
  -- read again, and the handle is as it was. The file and what the holder last read must not be different
  -- contents with one digest.
  pub save-Outcome :
      (start : Option Bytes) (past : List (Event lib)) (i : ℕ) (c : Conditions lib)
      (h : VaultHandle lib)
      → (after lib start past).handles i ≡ some h
      → Distinct (after lib start past).disk (seen_content lib i start past)
      → Outcome c h (after lib start past).disk (seen_content lib i start past)
  save-Outcome start past i c h is_open distinct =
      let w = after lib start past in
      Fits-Outcome c h w.disk (seen_content lib i start past) (save-Fits lib c w.disk h) distinct
        (subst (λ x. Matches lib x (seen_content lib i start past)) is_open (tracked start i past))
