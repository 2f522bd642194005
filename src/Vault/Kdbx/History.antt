-- ===== src/Vault/Kdbx/History.antt =====
-- src/passman/core/vault/kdbx.py: two handles on one vault file do not overwrite one another's changes.
pub mod Saving
pub mod Updates
use ash_password_manager.Common.{
  ℕ, Bool, true, false, not, ◌==◌, Option, none, some, List, [], ◌∷◌, Bytes, same_bytes,
  same_bytes→eq, if◌then◌else◌, ◌⊎◌, inl, inr, ◌≡◌, refl, sym, ap, ◌∙◌, subst, Bool-cases, arith,
}
use ash_password_manager.Security.Memory.{SecretBytes}
use ash_password_manager.Vault.Kdbx.{
  Library, VaultHandle, KeyFile, unused, absent, content, Reads, OpenResult, VaultFailure,
  fingerprinted, parsed_as, parsed_from, with_credentials, with_keyfile, given_password,
  opened_from, open_vault, Conditions, Saved, refused, write_back, save_over, save_open, save,
  close,
}

module _ (lib : Library) where
  open lib use {Database, file_digest}

  pub record World : Type 0 where
    pub disk : Option Bytes
    pub handles : ℕ → Option (VaultHandle lib)

  -- What the holders of handles do, and what another program does to the file.
  pub data Event : Type 0 where
    opens : ℕ → KeyFile lib → Option SecretBytes → Event
    edits : ℕ → Database → Event
    saves : ℕ → Conditions lib → Event
    closes : ℕ → Event
    writes : Bytes → Event
    removes : Event

  abbrev pub put :
      ℕ → Option (VaultHandle lib) → (ℕ → Option (VaultHandle lib)) → ℕ → Option (VaultHandle lib)
  put i h handles j = if i == j then h else handles j

  abbrev pub at_once : Option Bytes → Reads lib
  at_once disk = record { before = disk; parsed = disk; after = disk }

  abbrev pub keep_opened : ℕ → OpenResult lib → World → World
  keep_opened i (inl e) w = w
  keep_opened i (inr h) w = record w { handles = put i (some h) w.handles }

  abbrev pub edited : Database → Option (VaultHandle lib) → Option (VaultHandle lib)
  edited db none = none
  edited db (some h) = some (record h { kp = some db })

  abbrev pub closed : Option (VaultHandle lib) → Option (VaultHandle lib)
  closed none = none
  closed (some h) = some (close lib h)

  abbrev pub save_through : ℕ → Conditions lib → Option (VaultHandle lib) → World → World
  save_through i c none w = w
  save_through i c (some h) w = record w {
    disk = (save lib c w.disk h).disk;
    handles = put i (some (save lib c w.disk h).handle) w.handles;
  }

  abbrev pub event : Event → World → World
  event (opens i keyfile password) w =
      keep_opened i (open_vault lib (at_once w.disk) keyfile password).0 w
  event (edits i db) w = record w { handles = put i (edited db (w.handles i)) w.handles }
  event (saves i c) w = save_through i c (w.handles i) w
  event (closes i) w = record w { handles = put i (closed (w.handles i)) w.handles }
  event (writes bytes) w = record w { disk = some bytes }
  event removes w = record w { disk = none }

  -- The world after some events, the latest first, from a file and no handles.
  abbrev pub after : Option Bytes → List Event → World
  after start [] = record { disk = start; handles = λ i. none }
  after start (e ∷ past) = event e (after start past)

  abbrev pub seen_opened : OpenResult lib → Option Bytes → Option Bytes → Option Bytes
  seen_opened (inl e) disk old = old
  seen_opened (inr h) disk old = disk

  abbrev pub seen_saved : Option VaultFailure → Option Bytes → Option Bytes → Option Bytes
  seen_saved none disk old = disk
  seen_saved (some e) disk old = old

  abbrev pub seen_through :
      Conditions lib → Option (VaultHandle lib) → Option Bytes → Option Bytes → Option Bytes
  seen_through c none disk old = old
  seen_through c (some h) disk old =
      seen_saved (save lib c disk h).failure (save lib c disk h).disk old

  -- The content that holder `i` last read, by opening the vault or again after saving it.
  abbrev pub seen_content : ℕ → Option Bytes → List Event → Option Bytes
  seen_content i start [] = none
  seen_content i start (opens j keyfile password ∷ past) =
      if j == i
      then seen_opened (open_vault lib (at_once (after start past).disk) keyfile password).0
          (after start past).disk (seen_content i start past)
      else seen_content i start past
  seen_content i start (saves j c ∷ past) =
      if j == i
      then seen_through c ((after start past).handles i) (after start past).disk
          (seen_content i start past)
      else seen_content i start past
  seen_content i start (edits j db ∷ past) = seen_content i start past
  seen_content i start (closes j ∷ past) = seen_content i start past
  seen_content i start (writes bytes ∷ past) = seen_content i start past
  seen_content i start (removes ∷ past) = seen_content i start past

  -- A handle has the fingerprint of a content.
  abbrev pub Matches : Option (VaultHandle lib) → Option Bytes → Type 0
  Matches none file = Unit
  Matches (some h) none = ⊥
  Matches (some h) (some file) = h.fingerprint ≡ file_digest file

  abbrev pub OpenedFits : OpenResult lib → Option Bytes → Type 0
  OpenedFits (inl e) file = Unit
  OpenedFits (inr h) file = Matches (some h) file

  fingerprinted-OpenedFits :
      (db : Database) (before : Bytes) (now : Option Bytes)
      → OpenedFits (fingerprinted lib db before now) now
  fingerprinted-OpenedFits db before none = tt
  fingerprinted-OpenedFits db before (some now) =
      elim (Bool-cases (same_bytes before (file_digest now))) [
        | inl same ↦ rw same refl
        | inr other ↦ rw other tt
      ]

  parsed_from-OpenedFits :
      (file keyfile password : Option Bytes) (before : Bytes) (now : Option Bytes)
      → OpenedFits (parsed_from lib file keyfile password before now) now
  parsed_from-OpenedFits none keyfile password before now = tt
  parsed_from-OpenedFits (some file) keyfile password before now =
      go (lib.load file keyfile password)
    where
      go : (o : Option Database) → OpenedFits (parsed_as lib o before now) now
      go none = tt
      go (some db) = fingerprinted-OpenedFits db before now

  with_credentials-OpenedFits :
      (r : Reads lib) (vault : Bytes) (keyfile : Option Bytes) (password : Option (Option Bytes))
      → OpenedFits (with_credentials lib r vault keyfile password) r.after
  with_credentials-OpenedFits r vault keyfile none =
      parsed_from-OpenedFits r.parsed keyfile none (file_digest vault) r.after
  with_credentials-OpenedFits r vault keyfile (some none) = tt
  with_credentials-OpenedFits r vault keyfile (some (some password)) =
      parsed_from-OpenedFits r.parsed keyfile (some password) (file_digest vault) r.after

  pub opened_from-OpenedFits :
      (r : Reads lib) (vault : Option Bytes) (keyfile : KeyFile lib) (password : Option SecretBytes)
      → OpenedFits (opened_from lib r vault keyfile password) r.after
  opened_from-OpenedFits r none keyfile password = tt
  opened_from-OpenedFits r (some vault) unused password =
      with_credentials-OpenedFits r vault none (given_password lib password)
  opened_from-OpenedFits r (some vault) absent password = tt
  opened_from-OpenedFits r (some vault) (content key) password =
      with_credentials-OpenedFits r vault (some key) (given_password lib password)
