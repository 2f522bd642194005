-- ===== src/Vault/Kdbx.antt =====
-- src/passman/core/vault/kdbx.py: opening, saving and closing a vault file. The database of pykeepass,
-- its reader and its writer are parameters, and so is the digest of a file.
pub mod History
use ash_password_manager.Common.{
  Bool, true, false, not, Option, none, some, Bytes, same_bytes, if◌then◌else◌, ◌⊎◌, inl, inr,
}
use ash_password_manager.Security.Memory.{SecretBytes, to_bytes, wipe}

-- VaultError, VaultConflictError and VaultOpenError; a password that was wiped before is a ValueError.
pub data VaultFailure : Type 0 where
  vault_error conflict open_error wiped_password : VaultFailure

-- `load` reads a file with a key file and a password; `dump` writes a database with fresh seeds.
pub record Library : Type 1 where
  pub Database : Type 0
  pub load : Bytes → Option Bytes → Option Bytes → Option Database
  pub dump : Bytes → Database → Bytes
  pub file_digest : Bytes → Bytes

module _ (lib : Library) where
  open lib use {Database, load, dump, file_digest}

  pub record VaultHandle : Type 0 where
    pub kp : Option Database
    pub fingerprint : Bytes

  -- The key file that is asked for: none, one that is missing, or its content.
  pub data KeyFile : Type 0 where
    unused absent : KeyFile
    content : Bytes → KeyFile

  -- What the file holds each time that it is read: for `is_file` and the digest, for the reader, and
  -- for the digest of the handle.
  pub record Reads : Type 0 where
    pub before : Option Bytes
    pub parsed : Option Bytes
    pub after : Option Bytes

  abbrev pub OpenResult : Type 0
  OpenResult = VaultFailure ⊎ VaultHandle

  abbrev pub fingerprinted : Database → Bytes → Option Bytes → OpenResult
  fingerprinted db before none = inl open_error
  fingerprinted db before (some now) =
      if not (same_bytes before (file_digest now))
      then inl open_error
      else inr (record { kp = some db; fingerprint = file_digest now })

  abbrev pub parsed_as : Option Database → Bytes → Option Bytes → OpenResult
  parsed_as none before after = inl open_error
  parsed_as (some db) before after = fingerprinted db before after

  abbrev pub parsed_from :
      Option Bytes → Option Bytes → Option Bytes → Bytes → Option Bytes → OpenResult
  parsed_from none keyfile password before after = inl open_error
  parsed_from (some file) keyfile password before after =
      parsed_as (load file keyfile password) before after

  -- `none` is no password; `some none` one that has been wiped.
  abbrev pub with_credentials : Reads → Bytes → Option Bytes → Option (Option Bytes) → OpenResult
  with_credentials r vault keyfile none =
      parsed_from r.parsed keyfile none (file_digest vault) r.after
  with_credentials r vault keyfile (some none) = inl wiped_password
  with_credentials r vault keyfile (some (some password)) =
      parsed_from r.parsed keyfile (some password) (file_digest vault) r.after

  abbrev pub with_keyfile : Reads → Bytes → KeyFile → Option (Option Bytes) → OpenResult
  with_keyfile r vault unused password = with_credentials r vault none password
  with_keyfile r vault absent password = inl open_error
  with_keyfile r vault (content key) password = with_credentials r vault (some key) password

  abbrev pub given_password : Option SecretBytes → Option (Option Bytes)
  given_password none = none
  given_password (some password) = some (to_bytes password)

  abbrev pub wiped_after : Option SecretBytes → Option SecretBytes
  wiped_after none = none
  wiped_after (some password) = some (wipe password)

  abbrev pub opened_from : Reads → Option Bytes → KeyFile → Option SecretBytes → OpenResult
  opened_from r none keyfile password = inl open_error
  opened_from r (some vault) keyfile password =
      with_keyfile r vault keyfile (given_password password)

  -- The password is wiped whatever happens.
  unfoldable pub open_vault : Reads → KeyFile → Option SecretBytes → OpenResult × Option SecretBytes
  open_vault r keyfile password = (opened_from r r.before keyfile password, wiped_after password)

  -- What a save meets: the lock held by another process; whether the lock file could be opened and the
  -- vault read; whether the temporary file could be written and renamed; what a program that takes no lock does to the file between the digest and the rename, and
  -- after the rename; and whether all goes well after the rename, up to reading the file again.
  pub record Conditions : Type 0 where
    pub is_held : Bool
    pub can_read : Bool
    pub can_write : Bool
    pub seeds : Bytes
    pub before_rename : Option (Option Bytes)
    pub after_rename : Option (Option Bytes)
    pub can_reread : Bool

  pub record Saved : Type 0 where
    pub failure : Option VaultFailure
    pub disk : Option Bytes
    pub handle : VaultHandle

  abbrev pub refused : VaultFailure → Option Bytes → VaultHandle → Saved
  refused e disk h = record { failure = some e; disk = disk; handle = h }

  abbrev pub changed : Option (Option Bytes) → Option Bytes → Option Bytes
  changed none disk = disk
  changed (some other) disk = other

  -- The new fingerprint is that of the file as it is read again, whoever wrote it.
  abbrev pub reread : Conditions → Option Bytes → VaultHandle → Saved
  reread c none h = refused vault_error none h
  reread c (some now) h =
      if c.can_reread
      then record {
        failure = none;
        disk = some now;
        handle = record h { fingerprint = file_digest now };
      }
      else refused vault_error (some now) h

  abbrev pub write_back : Conditions → Database → Bytes → VaultHandle → Saved
  write_back c db current h =
      if not (same_bytes (file_digest current) h.fingerprint)
      then refused conflict (some current) h
      else if not c.can_write
      then refused vault_error (changed c.before_rename (some current)) h
      else reread c (changed c.after_rename (some (dump c.seeds db))) h

  abbrev pub save_over : Conditions → Database → Option Bytes → VaultHandle → Saved
  save_over c db none h = refused conflict none h
  save_over c db (some current) h = write_back c db current h

  abbrev pub save_open : Conditions → Option Database → Option Bytes → VaultHandle → Saved
  save_open c none disk h = refused vault_error disk h
  save_open c (some db) disk h =
      if c.is_held
      then refused conflict disk h
      else if not c.can_read
      then refused vault_error disk h
      else save_over c db disk h

  -- The lock is held from the digest to the end, so a save is one step for the others that take it.
  unfoldable pub save : Conditions → Option Bytes → VaultHandle → Saved
  save c disk h = save_open c h.kp disk h

  unfoldable pub close : VaultHandle → VaultHandle
  close h = record h { kp = none }
