-- ===== src/Vault/Tests.antt =====
-- Two holders of one vault file, at concrete inputs. A database is its own file.
use ash_password_manager.Common.{
  true, false, none, some, List, [], ◌∷◌, Bytes, same_bytes, ◌≡◌, refl,
}
use ash_password_manager.Vault.Kdbx.{
  Library, VaultHandle, unused, conflict, Conditions, open_vault, save,
}
use ash_password_manager.Vault.Kdbx.History.{Event, opens, edits, saves, after, seen_content}
use ash_password_manager.Vault.Kdbx.History.Updates.{Outcome, save-Outcome}

abbrev plain_library : Library
plain_library = record {
  Database = Bytes;
  load = λ file key password. some file;
  dump = λ seeds db. db;
  file_digest = λ file. file;
}

abbrev quiet : Conditions plain_library
quiet = record {
  is_held = false;
  can_read = true;
  can_write = true;
  seeds = [];
  before_rename = none;
  after_rename = none;
  can_reread = true;
}

abbrev first_file : Bytes
first_file = 1 ∷ []

-- Holder 1 saves between the opening and the save of holder 0.
abbrev two_holders : List (Event plain_library)
two_holders =
    edits 0 (3 ∷ [])
    ∷ saves 1 quiet
    ∷ edits 1 (2 ∷ [])
    ∷ opens 1 unused none
    ∷ opens 0 unused none
    ∷ []

abbrev late_handle : VaultHandle plain_library
late_handle = record { kp = some (3 ∷ []); fingerprint = first_file }

save-Outcome_example :
    Outcome plain_library quiet late_handle
      (after plain_library (some first_file) two_holders).disk
      (seen_content plain_library 0 (some first_file) two_holders)
unfolding open_vault save same_bytes
save-Outcome_example =
    save-Outcome plain_library (some first_file) two_holders 0 quiet late_handle refl
      (λ a b d s e. e)

late_save_is_refused :
    (save plain_library quiet
      (after plain_library (some first_file) two_holders).disk
      late_handle).failure
    ≡ some conflict
unfolding open_vault save same_bytes
late_save_is_refused = refl
