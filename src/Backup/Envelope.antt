-- ===== src/Backup/Envelope.antt =====
-- src/passman/core/backup/archive.py: the sealed file around a payload, and the operations of the module.
use ash_password_manager.Common.{
  ℕ, zero, suc, ◌+◌, ◌*◌, ◌/◌, ◌%◌, ◌^◌, Bool, true, false, not, ◌&&◌, Option, none, some, [], ◌∷◌,
  ◌++◌, Bytes, String, length, ltb, leb, ◌==◌, if◌then◌else◌, inl, inr,
}
use ash_password_manager.Common.Base64.{b64encode}
use ash_password_manager.Common.Chars.{codes}
use ash_password_manager.Common.Ints.{pos}
use ash_password_manager.Common.Json.{Json, integer, text, object, end, field, item}
use ash_password_manager.Security.Memory.{SecretBytes, truthy}
use ash_password_manager.Crypto.Aead.{
  SealedBox, seal, Opened, opened, aead_error, value_error as box_value_error, open_box,
}
use ash_password_manager.Crypto.Kdf.{Argon2Params, derive_key_argon2id}
use ash_password_manager.Crypto.Kdf.Dict.{params_dict, params_from_dict}
use ash_password_manager.Crypto.Keyslots.Dict.{unb64}
use ash_password_manager.Backup.{
  backup_error, corrupt, wrong_passphrase, bad_value, Outcome, ◌>>=◌, demand, or_corrupt,
  some_or_corrupt, Files, Formats, max_header_bytes, max_archive_bytes, is_nil,
}
use ash_password_manager.Backup.Payload.{pack, validate_payload, validate_slot, part}

-- `n.to_bytes(4, "big")` and `int.from_bytes(prefix, "big")`.
abbrev pub to_bytes4 : ℕ → Bytes
to_bytes4 n = (n / 2 ^ 24) ∷ (n / 2 ^ 16 % 256) ∷ (n / 2 ^ 8 % 256) ∷ (n % 256) ∷ []

abbrev pub from_bytes4 : ℕ → ℕ → ℕ → ℕ → ℕ
from_bytes4 a b c d = a * 2 ^ 24 + b * 2 ^ 16 + c * 2 ^ 8 + d

-- `fh.read(n)` where `n` bytes are left, with the rest; `none` where there are fewer.
abbrev pub split_at : ℕ → Bytes → Option (Bytes × Bytes)
split_at zero xs = some ([], xs)
split_at (suc n) [] = none
split_at (suc n) (x ∷ xs) = elim (split_at n xs) [ none ↦ none | some (a, b) ↦ some (x ∷ a, b) ]

-- The associated data.
abbrev pub backup_aad : Bool → Bytes
backup_aad true = codes "ash-pm/backup/v2"
backup_aad false = codes "ash-pm/backup/v1"

-- The random bytes and the time of one backup.
pub record Stamp : Type 0 where
  pub salt : Bytes
  pub nonce : Bytes
  pub now : Bytes

abbrev b64 : Bytes → Json
b64 bytes = text (b64encode bytes)

abbrev pub header_dict : Stamp → Argon2Params → SealedBox → Json
header_dict s params box = object (
    field "version" (integer (pos 2)) (
      field "created_utc" (text s.now) (
        field "argon2" (params_dict params) (
          field "salt" (b64 s.salt)
            (field "nonce" (b64 box.nonce) (field "tag" (b64 box.tag) end))))))

abbrev some_or_value : {A : Type 0} → Option A → Outcome A
some_or_value none = inl bad_value
some_or_value (some a) = inr a

-- The version of a header, 1 or 2.
abbrev pub version_of : Json → Outcome Bool
version_of (integer (pos n)) =
    if n == 2 then inr true else if n == 1 then inr false else inl corrupt
version_of j = inl corrupt

abbrev pub unsealed : Opened → Outcome Bytes
unsealed (opened payload) = inr payload
unsealed aead_error = inl wrong_passphrase
unsealed box_value_error = inl bad_value

abbrev pub is_box_sized : Bytes → SealedBox → Bool
is_box_sized salt box =
    leb 16 (length salt) && leb (length salt) 64 && length box.nonce == 12 && length box.tag == 16

-- The parts of a header.
pub record Header : Type 0 where
  pub is_v2 : Bool
  pub params : Argon2Params
  pub salt : Bytes
  pub box : SealedBox

module _ (t : Formats) where
  unfoldable pub create_backup :
      Bool → (String → Option Bytes) → SecretBytes → Stamp → Argon2Params → Outcome Bytes
  create_backup output_exists file passphrase s params = do
    _ ← demand (not output_exists) backup_error
    _ ← demand (truthy passphrase) backup_error
    payload ← pack t file
    kek ← some_or_value (derive_key_argon2id t.hashes passphrase s.salt params)
    box ← some_or_value (seal t.gcm s.nonce kek payload (backup_aad true))
    let header = t.dumps (header_dict s params box)
    inr (to_bytes4 (length header) ++ header ++ box.ciphertext)

  abbrev pub parse_header : Bytes → Bytes → Outcome Header
  parse_header header ciphertext = do
    manifest ← some_or_corrupt (t.loads header)
    version ← or_corrupt (item "version" manifest)
    is_v2 ← version_of version
    argon2 ← or_corrupt (item "argon2" manifest)
    params ← or_corrupt (params_from_dict argon2)
    salt_text ← or_corrupt (item "salt" manifest)
    salt ← or_corrupt (unb64 salt_text)
    nonce_text ← or_corrupt (item "nonce" manifest)
    nonce ← or_corrupt (unb64 nonce_text)
    tag_text ← or_corrupt (item "tag" manifest)
    tag ← or_corrupt (unb64 tag_text)
    let box : SealedBox = record { nonce = nonce; ciphertext = ciphertext; tag = tag }
    _ ← demand (is_box_sized salt box) corrupt
    inr (record { is_v2 = is_v2; params = params; salt = salt; box = box })

  abbrev pub decrypt_parts : Bytes → Bytes → SecretBytes → Outcome (Bytes × Bool)
  decrypt_parts header ciphertext passphrase = do
    _ ← demand (not (is_nil ciphertext) && leb (length ciphertext) max_archive_bytes) corrupt
    h ← parse_header header ciphertext
    kek ← some_or_value (derive_key_argon2id t.hashes passphrase h.salt h.params)
    payload ← unsealed (open_box t.gcm kek h.box (backup_aad h.is_v2))
    inr (payload, h.is_v2)

  abbrev pub decrypt_body : ℕ → Bytes → SecretBytes → Outcome (Bytes × Bool)
  decrypt_body n rest passphrase =
      if not (ltb 0 n && leb n max_header_bytes)
      then inl corrupt
      else (some_or_corrupt (split_at n rest) >>= λ (header, ciphertext).
          decrypt_parts header ciphertext passphrase)

  unfoldable pub decrypt_archive : Bytes → SecretBytes → Outcome (Bytes × Bool)
  decrypt_archive (a ∷ b ∷ c ∷ d ∷ rest) passphrase =
      decrypt_body (from_bytes4 a b c d) rest passphrase
  decrypt_archive short passphrase = inl corrupt

  -- A backup of version 1 is valid at most with a slot from elsewhere.
  unfoldable pub verify_backup : Bytes → SecretBytes → Outcome Bool
  verify_backup file passphrase = do
    (payload, is_v2) ← decrypt_archive file passphrase
    _ ← validate_payload t payload is_v2
    _ ← demand is_v2 backup_error
    inr true

  -- The slot file for a backup of version 1: not given, or what reading it gives.
  abbrev pub LegacySlot : Type 0
  LegacySlot = Option (Option Bytes)

  abbrev pub legacy_files : Files → Option Bytes → Outcome Files
  legacy_files files none = inl backup_error
  legacy_files files (some raw) = do
    vault_raw ← part t "vault.json" files
    vault ← some_or_corrupt (t.loads vault_raw)
    _ ← validate_slot t raw vault
    inr (files ++ ("keyslots/password.slot", raw) ∷ [])

  abbrev pub with_slot : Bool → Files → LegacySlot → Outcome Files
  with_slot true files none = inr files
  with_slot true files (some raw) = inl backup_error
  with_slot false files none = inl backup_error
  with_slot false files (some raw) = legacy_files files raw

  -- The files of the new container, which one rename publishes.
  unfoldable pub restore_backup : Bool → Bytes → SecretBytes → LegacySlot → Bool → Outcome Files
  restore_backup destination_empty file passphrase legacy can_write = do
    _ ← demand destination_empty backup_error
    (payload, is_v2) ← decrypt_archive file passphrase
    files ← validate_payload t payload is_v2
    all_files ← with_slot is_v2 files legacy
    _ ← demand can_write backup_error
    inr all_files
