-- ===== src/Backup/Payload.antt =====
-- src/passman/core/backup/archive.py: what a payload may hold, and packing it.
pub mod Kept
use ash_password_manager.Common.{
  ℕ, ◌+◌, Bool, true, false, not, ◌&&◌, ◌||◌, Option, none, some, List, [], ◌∷◌, ◌++◌, Bytes,
  String, ◌=s=◌, length, ltb, leb, ◌==◌, same_bytes, is_some, if◌then◌else◌, ◌⊎◌, inl, inr,
}
use ash_password_manager.Common.Chars.{codes}
use ash_password_manager.Common.Json.{
  Json, Items, Fields, null, boolean, integer, real, text, array, object, nil, cons, get, Try,
  is_object, is_empty_text,
}
use ash_password_manager.Crypto.Keyslots.{KeySlot, SlotKind, password_kind, device_kind}
use ash_password_manager.Crypto.Keyslots.Dict.{from_dict}
use ash_password_manager.Backup.{
  BackupFailure, backup_error, corrupt, Outcome, ◌>>=◌, demand, or_corrupt, some_or_corrupt, Member,
  Files, Formats, max_archive_bytes, is_nil, find, total,
}

abbrev pub legacy_names : List String
legacy_names = "Passwords.kdbx" ∷ "Key.key" ∷ "vault.json" ∷ "devices.json" ∷ []

abbrev pub bundled_names : List String
bundled_names =
    "Passwords.kdbx" ∷ "Key.key" ∷ "vault.json" ∷ "devices.json" ∷ "keyslots/password.slot" ∷ []

abbrev pub among : String → List String → Bool
among k [] = false
among k (j ∷ js) = j =s= k || among k js

abbrev pub is_present : String → Files → Bool
is_present k files = is_some (find k files)

abbrev pub all_present : List String → Files → Bool
all_present [] files = true
all_present (k ∷ ks) files = is_present k files && all_present ks files

-- `vault["vault_id"]` as a text.
abbrev pub vault_id_of : Json → Option Bytes
vault_id_of (object fs) = elim (get "vault_id" fs) [ some (text s) ↦ some s | _ ↦ none ]
vault_id_of j = none

abbrev pub is_vault : Json → Bool
is_vault j = elim (vault_id_of j) [ none ↦ false | some s ↦ not (is_empty_text s) ]

abbrev all_objects : Items → Bool
all_objects nil = true
all_objects (cons j js) = is_object j && all_objects js

abbrev pub is_roster : Json → Bool
is_roster (array js) = all_objects js
is_roster j = false

abbrev is_password : SlotKind → Bool
is_password password_kind = true
is_password device_kind = false

abbrev same_text : Option Bytes → Bytes → Bool
same_text none s = false
same_text (some t) s = same_bytes t s

abbrev pub fits_vault : Json → KeySlot → Bool
fits_vault vault slot =
    is_password slot.kind
    && same_bytes slot.slot_id (codes "password")
    && same_text (vault_id_of vault) slot.vault_id

module _ (t : Formats) where
  abbrev pub validate_slot : Bytes → Json → Outcome (Unit {0})
  validate_slot raw vault = do
    d ← some_or_corrupt (t.loads raw)
    slot ← or_corrupt (from_dict t.repr d)
    demand (fits_vault vault slot) corrupt

  abbrev pub read_member : Files → Member → Option Bytes → Outcome Files
  read_member files m none = inl corrupt
  read_member files m (some contents) =
      if not (length contents == m.size)
      then inl corrupt
      else inr (files ++ (m.name, contents) ∷ [])

  abbrev pub add_member : List String → Files → Member → Outcome Files
  add_member expected files m =
      if not (among m.name expected) || is_present m.name files || not m.is_plain
      then inl corrupt
      else if not (ltb 0 m.size && leb m.size max_archive_bytes)
          || ltb max_archive_bytes (total files + m.size)
      then inl corrupt
      else read_member files m m.contents

  abbrev pub add_members : List String → Files → List Member → Outcome Files
  add_members expected files [] = inr files
  add_members expected files (m ∷ ms) =
      add_member expected files m >>= λ more. add_members expected more ms

  abbrev pub part : String → Files → Outcome Bytes
  part k files = some_or_corrupt (find k files)

  abbrev pub expected_names : Bool → List String
  expected_names true = bundled_names
  expected_names false = legacy_names

  abbrev pub checked_slot : Bool → Files → Json → Outcome (Unit {0})
  checked_slot false files vault = inr tt
  checked_slot true files vault =
      part "keyslots/password.slot" files >>= λ raw. validate_slot raw vault

  abbrev pub checked_files : Bool → Files → Outcome Files
  checked_files is_v2 files = do
    _ ← demand (all_present (expected_names is_v2) files) corrupt
    vault_raw ← part "vault.json" files
    vault ← some_or_corrupt (t.loads vault_raw)
    devices_raw ← part "devices.json" files
    devices ← some_or_corrupt (t.loads devices_raw)
    _ ← demand (is_vault vault) corrupt
    _ ← demand (is_roster devices) corrupt
    _ ← checked_slot is_v2 files vault
    inr files

  -- The version is 2, or else 1.
  unfoldable pub validate_payload : Bytes → Bool → Outcome Files
  validate_payload payload is_v2 = do
    members ← some_or_corrupt (t.untar payload)
    files ← add_members (expected_names is_v2) [] members
    checked_files is_v2 files

  -- A file of the container: `none` is one that is missing, a link, or no regular file.
  abbrev pub gather_one : String → Option Bytes → Outcome (String × Bytes)
  gather_one k none = inl backup_error
  gather_one k (some contents) =
      if ltb max_archive_bytes (length contents) then inl backup_error else inr (k, contents)

  abbrev pub gather : List String → (String → Option Bytes) → Outcome Files
  gather [] file = inr []
  gather (k ∷ ks) file = do f ← gather_one k (file k); fs ← gather ks file; inr (f ∷ fs)

  unfoldable pub pack : (String → Option Bytes) → Outcome Bytes
  unfolding validate_payload
  pack file = do
    files ← gather bundled_names file
    _ ← demand (leb (length (t.tar files)) max_archive_bytes) backup_error
    _ ← validate_payload (t.tar files) true
    inr (t.tar files)
